-- ===== src/Codec/Sorted.antt =====
-- `verify_sorted` of decode.rs, and the `BTreeSet` collected from what it accepts.
use subduction.Codec.{ok}
use subduction.Codec.Decode.{verify_sorted_from, verify_sorted}
use subduction.Collections.BTreeSet.{IsAscending, insert, collect_into, collect}
use subduction.Prelude.{
  ℕ, ◌+◌, ◌≡◌, refl, sym, ◌∙◌, ◌↔◌, true, List, [], ◌∷◌, ◌++◌, append_assoc, append-nil, arith,
  nat_eq, Bytes, bytes_eq, bytes_ltb, bytes_ltb_trans, bytes_ltb-asymm,
}

verify_sorted_from-IsAscending :
    (i : ℕ) (xs : List Bytes) → verify_sorted_from i xs ≡ ok tt → IsAscending xs
unfolding verify_sorted_from
verify_sorted_from-IsAscending i [] h = tt
verify_sorted_from-IsAscending i (x ∷ []) h = tt
verify_sorted_from-IsAscending i (x ∷ y ∷ xs) h =
    ground (arith, verify_sorted_from-IsAscending (i + 1) (y ∷ xs))

verify_sorted_from_of-IsAscending :
    (i : ℕ) (xs : List Bytes) → IsAscending xs → verify_sorted_from i xs ≡ ok tt
unfolding verify_sorted_from
verify_sorted_from_of-IsAscending i [] h = refl
verify_sorted_from_of-IsAscending i (x ∷ []) h = refl
verify_sorted_from_of-IsAscending i (x ∷ y ∷ xs) h =
    ground (arith, verify_sorted_from_of-IsAscending (i + 1) (y ∷ xs))

-- `verify_sorted` accepts exactly the strictly ascending arrays.
pub verify_sorted_iff : (xs : List Bytes) → (verify_sorted xs ≡ ok tt) ↔ IsAscending xs
unfolding verify_sorted
verify_sorted_iff xs = (verify_sorted_from-IsAscending 0 xs, verify_sorted_from_of-IsAscending 0 xs)

pub tail-IsAscending : (x : Bytes) (s : List Bytes) → IsAscending (x ∷ s) → IsAscending s
tail-IsAscending x [] h = tt
tail-IsAscending x (y ∷ s) h = h.1

-- The first element of an ascending list is below every later one.
pub lt_of-IsAscending :
    (x : Bytes) (s : List Bytes) (y : Bytes) (t : List Bytes)
    → IsAscending (x ∷ s ++ y ∷ t)
    → bytes_ltb x y ≡ true
lt_of-IsAscending x [] y t h = h.0
lt_of-IsAscending x (z ∷ s) y t h = bytes_ltb_trans x z y h.0 (lt_of-IsAscending z s y t h.1)

insert_last :
    (s : List Bytes) (y : Bytes) (t : List Bytes)
    → IsAscending (s ++ y ∷ t)
    → insert y s ≡ s ++ y ∷ []
unfolding insert
insert_last [] y t h = refl
insert_last (x ∷ s) y t h = ground (
  arith,
  lt_of-IsAscending x s y t h,
  bytes_ltb-asymm x y,
  insert_last s y t (tail-IsAscending x (s ++ y ∷ t) h),
)

collect_into_ascending : (xs s : List Bytes) → IsAscending (s ++ xs) → collect_into s xs ≡ s ++ xs
unfolding collect_into
collect_into_ascending [] s h = sym (append-nil s)
collect_into_ascending (x ∷ xs) s h = rw (insert_last s x xs h) (
    collect_into_ascending xs (s ++ x ∷ []) (rw (append_assoc s (x ∷ []) xs) h)
    ∙ append_assoc s (x ∷ []) xs)

-- What `verify_sorted` accepts is already the set in its order of iteration.
pub collect_ascending : (xs : List Bytes) → IsAscending xs → collect xs ≡ xs
unfolding collect
collect_ascending xs h = collect_into_ascending xs [] h
