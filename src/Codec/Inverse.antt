-- ===== src/Codec/Inverse.antt =====
-- What a successful read says of the buffer.
use subduction.Codec.{ok, >>=-eq-ok}
use subduction.Codec.Decode.{get_range, ok_or, u8, array, arrays}
use subduction.Codec.Cursor.{At, concat}
use subduction.Prelude.{
  ℕ, zero, suc, ◌+◌, ◌*◌, ◌≤◌, ◌<◌, ◌≡◌, refl, sym, ap, ◌∙◌, Option, none, some, List, [], ◌∷◌,
  ◌++◌, append_assoc, arith, nat_eq, length, take, drop, get_elem?, All, length-append, Bytes,
  bytes_eq, take-append-drop, length-take, length-drop, length-drop_fits, drop-drop, add-one,
}

get_range_inv :
    (buf : Bytes) (offset n : ℕ) (x : Bytes)
    → get_range buf offset n ≡ some x
    → (offset + n ≤ length buf) × (x ≡ take n (drop offset buf))
unfolding get_range
get_range_inv buf offset n x h = ground arith

pub At-taken :
    (buf : Bytes) (offset n : ℕ)
    → offset + n ≤ length buf
    → At buf offset (take n (drop offset buf) ++ drop (offset + n) buf)
At-taken buf offset n h = record {
  here = rw (drop-drop offset n buf) (sym (take-append-drop n (drop offset buf)));
  fits =
      rw (drop-drop offset n buf, take-append-drop n (drop offset buf))
        (length-drop_fits offset buf (omega arith));
}

ok_or_inv {ℓ κ} :
    {E : Type ℓ} {A : Type κ} (o : Option A) (e : E) (a : A) → ok_or o e ≡ ok a → o ≡ some a
ok_or_inv none e a h = cc
ok_or_inv (some b) e a h = cc

pub array_inv :
    (n : ℕ) (buf : Bytes) (offset : ℕ) (x : Bytes)
    → array n buf offset ≡ ok x
    → (length x ≡ n) × At buf offset (x ++ drop (offset + n) buf)
unfolding array
array_inv n buf offset x h =
    let (room, e) = get_range_inv buf offset n x (ok_or_inv _ _ x h) in
    rw e (
      length-take n (drop offset buf) (omega (arith, length-drop offset buf)),
      At-taken buf offset n room,
    )

get_elem?_inv :
    (buf : Bytes) (offset b : ℕ)
    → get_elem? buf offset ≡ some b
    → (drop offset buf ≡ b ∷ drop (suc offset) buf) × (offset < length buf)
get_elem?_inv [] zero b h = cc
get_elem?_inv [] (suc n) b h = cc
get_elem?_inv (x ∷ buf) zero b h = ground arith
get_elem?_inv (x ∷ buf) (suc n) b h = ground (arith, get_elem?_inv buf n b h)

pub u8_inv :
    (buf : Bytes) (offset b : ℕ) → u8 buf offset ≡ ok b → At buf offset (b ∷ drop (offset + 1) buf)
unfolding u8
u8_inv buf offset b h =
    let (e, room) = get_elem?_inv buf offset b (ok_or_inv _ _ b h) in
    rw (add-one offset)
      (record { here = e; fits = omega (arith, room, length-drop (suc offset) buf) })

pub arrays_inv :
    (n count : ℕ) (buf : Bytes) (offset : ℕ) (xs : List Bytes) (end : ℕ)
    → offset ≤ length buf
    → arrays n count buf offset ≡ ok (xs, end)
    → (length xs ≡ count)
      × All (λ x. length x ≡ n) xs
      × (end ≡ offset + count * n)
      × At buf offset (concat xs ++ drop end buf)
unfolding arrays
arrays_inv n zero buf offset xs end room h =
    let e : xs ≡ [] = cc in
    let d : end ≡ offset = cc in
    rw (e, d)
      (refl, tt, omega arith, record { here = refl; fits = length-drop_fits offset buf room })
arrays_inv n (suc count) buf offset xs end room h =
    let (x, one, h1) = >>=-eq-ok (array n buf offset) _ h in
    let ((xs', end'), more, h2) = >>=-eq-ok (arrays n count buf (offset + n)) _ h1 in
    let (size, at) = array_inv n buf offset x one in
    let room' : offset + n ≤ length buf =
      omega (arith, at.fits, length-append x (drop (offset + n) buf), size) in
    let (count', sizes, stop, at') = arrays_inv n count buf (offset + n) xs' end' room' more in
    let e : xs ≡ x ∷ xs' = cc in
    let d : end ≡ end' = cc in
    rw (e, d)
      (
        omega (arith, count'),
        (size, sizes),
        ground (arith, stop),
        record {
          here = at.here ∙ ap (◌++◌ x) at'.here ∙ sym (append_assoc x (concat xs') (drop end' buf));
          fits = omega (
            arith,
            at'.fits,
            size,
            length-append x (concat xs'),
            length-append (x ++ concat xs') (drop end' buf),
            length-append (concat xs') (drop end' buf),
          );
        },
      )
