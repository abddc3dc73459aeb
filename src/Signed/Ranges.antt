-- ===== src/Signed/Ranges.antt =====
-- Parts of a byte string at given offsets.
use subduction.Codec.Decode.{get_range}
use subduction.Signed.{disc_bytes, disc_len, get_from}
use subduction.Prelude.{
  ℕ, ◌+◌, ◌≡◌, refl, sym, ap, ◌∙◌, true, Option, none, some, [], ◌∷◌, ◌++◌, arith, leb, nat_eq,
  length, take, drop, get_elem?, length-append, take-append, drop-append, Bytes, bytes_eq,
  bytes_list_eq,
}

pub get_elem?-append :
    (pre : Bytes) (x : ℕ) (post : Bytes) → get_elem? (pre ++ (x ∷ post)) (length pre) ≡ some x
get_elem?-append [] x post = refl
get_elem?-append (y ∷ pre) x post = get_elem?-append pre x post

pub get_range-at :
    (pre mid post : Bytes) (offset n : ℕ)
    → length pre ≡ offset
    → length mid ≡ n
    → get_range (pre ++ (mid ++ post)) offset n ≡ some mid
unfolding get_range
get_range-at pre mid post offset n at size =
    let fits : leb (offset + n) (length (pre ++ (mid ++ post))) ≡ true =
      ground (arith, at, size, length-append pre (mid ++ post), length-append mid post) in
    rw fits (
      ap some (
        ap (λ i. take n (drop i (pre ++ (mid ++ post)))) (sym at)
        ∙ ap (take n) (drop-append pre (mid ++ post))
        ∙ ap (λ i. take i (mid ++ post)) (sym size)
        ∙ take-append mid post))

pub get_from-at :
    (pre post : Bytes) (start : ℕ) → length pre ≡ start → get_from (pre ++ post) start ≡ some post
unfolding get_from
get_from-at pre post start at =
    let fits : leb start (length (pre ++ post)) ≡ true =
      ground (arith, at, length-append pre post) in
    rw fits (ap some (ap (λ i. drop i (pre ++ post)) (sym at) ∙ drop-append pre post))

pub length-disc_bytes : (d : Option ℕ) → length (disc_bytes d) ≡ disc_len d
length-disc_bytes none = refl
length-disc_bytes (some x) = refl
