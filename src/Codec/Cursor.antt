-- ===== src/Codec/Cursor.antt =====
-- Reading at an offset. `At buf offset rest`: from `offset` on the buffer holds `rest`.
use subduction.Codec.{ok}
use subduction.Codec.Decode.{from_be_bytes, u8, u16, arrays, array, u64, get_range}
use subduction.Prelude.{
  drop-drop, append_assoc, ◌*◌, All, List, get_elem?, ℕ, zero, suc, ◌+◌, ◌≡◌, refl, some, [], ◌∷◌,
  ◌++◌, arith, nat_eq, length, drop, length-append, take-append, drop-append, Bytes, bytes_eq,
}

pub record At (buf : Bytes) (offset : ℕ) (rest : Bytes) : Type 0 where
  pub here : drop offset buf ≡ rest
  pub fits : offset + length rest ≡ length buf

pub At-start : (buf : Bytes) → At buf 0 buf
At-start buf = record { here = refl; fits = omega arith }

module _ (buf : Bytes) (offset : ℕ) (xs rest : Bytes) (at : At buf offset (xs ++ rest)) where
  pub At-next : At buf (offset + length xs) rest
  At-next = record {
    here = rw (drop-drop offset (length xs) buf, at.here) (drop-append xs rest);
    fits = omega (arith, at.fits, length-append xs rest);
  }

  get_range_at : get_range buf offset (length xs) ≡ some xs
  unfolding get_range
  get_range_at = rw (at.here, take-append xs rest) (ground (arith, at.fits, length-append xs rest))

-- What each reader returns at a cursor.
pub array-At :
    (n : ℕ) (buf : Bytes) (offset : ℕ) (xs rest : Bytes)
    → length xs ≡ n
    → At buf offset (xs ++ rest)
    → array n buf offset ≡ ok xs
unfolding array
array-At n buf offset xs rest e at = rw (← e) (ground (arith, get_range_at buf offset xs rest at))

get_elem?-drop :
    (buf : Bytes) (offset b : ℕ) (rest : Bytes)
    → drop offset buf ≡ b ∷ rest
    → get_elem? buf offset ≡ some b
get_elem?-drop [] zero b rest h = cc
get_elem?-drop (x ∷ buf) zero b rest h = cc
get_elem?-drop [] (suc n) b rest h = cc
get_elem?-drop (x ∷ buf) (suc n) b rest h = get_elem?-drop buf n b rest h

pub u8-At :
    (buf : Bytes) (offset b : ℕ) (rest : Bytes) → At buf offset (b ∷ rest) → u8 buf offset ≡ ok b
unfolding u8
u8-At buf offset b rest at = rw (get_elem?-drop buf offset b rest at.here)

pub u16-At :
    (buf : Bytes) (offset : ℕ) (xs rest : Bytes)
    → length xs ≡ 2
    → At buf offset (xs ++ rest)
    → u16 buf offset ≡ ok (from_be_bytes 0 xs)
unfolding u16
u16-At buf offset xs rest e at = rw (← e) (ground (arith, get_range_at buf offset xs rest at))

pub u64-At :
    (buf : Bytes) (offset : ℕ) (xs rest : Bytes)
    → length xs ≡ 8
    → At buf offset (xs ++ rest)
    → u64 buf offset ≡ ok (from_be_bytes 0 xs)
unfolding u64
u64-At buf offset xs rest e at = rw (← e) (ground (arith, get_range_at buf offset xs rest at))

abbrev pub concat : List Bytes → Bytes
concat [] = []
concat (x ∷ xs) = x ++ concat xs

pub At-next_of :
    (n : ℕ) (buf : Bytes) (offset : ℕ) (xs rest : Bytes)
    → length xs ≡ n
    → At buf offset (xs ++ rest)
    → At buf (offset + n) rest
At-next_of n buf offset xs rest e at = rw (← e) (At-next buf offset xs rest at)

pub At-next_byte :
    (buf : Bytes) (offset b : ℕ) (rest : Bytes)
    → At buf offset (b ∷ rest)
    → At buf (offset + 1) rest
At-next_byte buf offset b rest at = At-next buf offset (b ∷ []) rest at

pub length-concat :
    (n : ℕ) (xs : List Bytes) → All (λ x. length x ≡ n) xs → length (concat xs) ≡ length xs * n
length-concat n [] h = omega arith
length-concat n (x ∷ xs) h = omega (arith, length-append x (concat xs), length-concat n xs h.1, h.0)

-- The loop reads the arrays one after the other, and stops behind them.
pub arrays-At :
    (n : ℕ) (xs : List Bytes) (buf : Bytes) (offset : ℕ) (rest : Bytes)
    → All (λ x. length x ≡ n) xs
    → At buf offset (concat xs ++ rest)
    → arrays n (length xs) buf offset ≡ ok (xs, offset + length xs * n)
unfolding arrays
arrays-At n [] buf offset rest h at = ground arith
arrays-At n (x ∷ xs) buf offset rest (hx, hxs) at =
    let at' : At buf offset (x ++ (concat xs ++ rest)) =
      rw (← append_assoc x (concat xs) rest) at in
    rw
      (
        array-At n buf offset x (concat xs ++ rest) hx at',
        arrays-At n xs buf (offset + n) rest hxs
            (At-next_of n buf offset x (concat xs ++ rest) hx at'),
      )
      (ground arith)
