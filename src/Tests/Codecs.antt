-- ===== src/Tests/Codecs.antt =====
-- The theorems on the codec and on depths, at concrete bytes.
use subduction.Codec.{ok}
use subduction.Codec.Decode.{from_be_bytes, verify_sorted}
use subduction.Codec.Encode
use subduction.Codec.Encode.{to_be_bytes}
use subduction.Codec.Integers.{from_be_bytes-to_be_bytes}
use subduction.Codec.Sorted.{verify_sorted_iff}
use subduction.Collections.BTreeSet.{IsAscending}
use subduction.LooseCommit.{LooseCommit, IsEncodable, encode_fields, fields_size, try_decode_fields}
use subduction.LooseCommit.RoundTrip.{try_decode_fields-encode_fields}
use subduction.LooseCommit.Canonical.{try_decode_fields_canonical}
use subduction.Depth.Radix.{count_trailing_zeros, IsRadix, count_trailing_zeros_lem}
use subduction.Fragment.{Fragment}
use subduction.Fragment.Wire as Fragments
use subduction.Fragment.RoundTrip.{try_decode_fields-encode_fields_fragment}
use subduction.Signed.{Ed25519, Signer, seal, try_decode_prefix, try_from_signed}
use subduction.Signed.Sealed.{SignerLaws, try_decode_prefix-seal}
use subduction.Signed.Commits.{commit_payload, commit_laws}
use subduction.Tests.Fixtures.{fixed_bijou, fixed_laws}
use subduction.Prelude.{
  ==-refl, ◌==◌, List, ◌≢◌, ◌*◌, ◌^◌, ◌%◌, ◌/◌, if◌then◌else◌, bytes_ltb, ltb, all, lt_of_ltb,
  Bool-cases, inl, inr, drop, ℕ, zero, suc, ◌+◌, ◌-◌, ◌≡◌, refl, ap, ◌↔◌, true, [], ◌∷◌, ◌++◌,
  arith, nat_eq, length, All, Bytes, IsByte, IsArray, bytes_eq, bytes_list_eq,
}

abbrev fill : ℕ → ℕ → Bytes
fill zero b = []
fill (suc n) b = b ∷ fill n b

fill-IsArray : (n b : ℕ) → IsByte b → IsArray n (fill n b)
fill-IsArray n b h = (length-fill n, bytes n)
  where
    length-fill : (n : ℕ) → length (fill n b) ≡ n
    length-fill zero = refl
    length-fill (suc n) = ap suc (length-fill n)

    bytes : (n : ℕ) → All IsByte (fill n b)
    bytes zero = tt
    bytes (suc n) = (h, bytes n)

abbrev wide : LooseCommit
wide = record {
  sedimentree_id = fill 32 1;
  head = fill 32 2;
  parents = fill 32 3 ∷ fill 32 4 ∷ [];
  blob_meta = record { digest = fill 32 5; size_bytes = 1000 };
}

wide-IsEncodable : IsEncodable wide
unfolding subduction.Prelude.Order.bytes_ltb
wide-IsEncodable = record {
  sedimentree_id = fill-IsArray 32 1 (omega arith);
  head = fill-IsArray 32 2 (omega arith);
  digest = fill-IsArray 32 5 (omega arith);
  size = omega arith;
  parents = (refl, (refl, tt));
  ascending = (refl, tt);
  count = omega arith;
}

try_decode_fields-encode_fields_example :
    try_decode_fields fixed_bijou (encode_fields fixed_bijou wide [] ++ (9 ∷ []))
    ≡ ok (wide, fields_size fixed_bijou wide)
try_decode_fields-encode_fields_example =
    try_decode_fields-encode_fields fixed_bijou fixed_laws wide (9 ∷ []) wide-IsEncodable

All-of-all : (bs : Bytes) → all (λ b. ltb b 256) bs ≡ true → All IsByte bs
All-of-all [] h = tt
All-of-all (b ∷ bs) h = elim (Bool-cases (ltb b 256)) [
  | inl small ↦ (lt_of_ltb b 256 small, All-of-all bs (ground (arith, h, small)))
  | inr large ↦ absurd (ground (arith, h, large))
]

abbrev wide_bytes : Bytes
wide_bytes = encode_fields fixed_bijou wide [] ++ (9 ∷ [])

wide_bytes-small : all (λ b. ltb b 256) wide_bytes ≡ true
unfolding encode_fields Encode.array Encode.u8 Encode.bytes Encode.arrays to_be_bytes
wide_bytes-small = refl

try_decode_fields_canonical_example :
    IsEncodable wide
    × (encode_fields fixed_bijou wide [] ++ drop (fields_size fixed_bijou wide) wide_bytes
        ≡ wide_bytes)
try_decode_fields_canonical_example =
    try_decode_fields_canonical fixed_bijou fixed_laws wide_bytes wide
      (fields_size fixed_bijou wide) (All-of-all wide_bytes wide_bytes-small)
      (try_decode_fields-encode_fields fixed_bijou fixed_laws wide (9 ∷ []) wide-IsEncodable)

verify_sorted_iff_example :
    (verify_sorted ((1 ∷ []) ∷ (2 ∷ []) ∷ []) ≡ ok tt) ↔ IsAscending ((1 ∷ []) ∷ (2 ∷ []) ∷ [])
verify_sorted_iff_example = verify_sorted_iff ((1 ∷ []) ∷ (2 ∷ []) ∷ [])

from_be_bytes-to_be_bytes_example : from_be_bytes 0 (to_be_bytes 8 70000) ≡ 70000
from_be_bytes-to_be_bytes_example = from_be_bytes-to_be_bytes 8 70000 (omega arith)

abbrev wide_fragment : Fragment
wide_fragment = record {
  sedimentree_id = fill 32 1;
  summary = record {
    head = fill 32 2;
    boundary = fill 32 3 ∷ fill 32 4 ∷ [];
    blob_meta = record { digest = fill 32 5; size_bytes = 1000 };
  };
  checkpoints = fill 12 6 ∷ fill 12 7 ∷ [];
}

wide_fragment-IsEncodable : Fragments.IsEncodable wide_fragment
unfolding subduction.Prelude.Order.bytes_ltb
wide_fragment-IsEncodable = record {
  sedimentree_id = refl;
  head = refl;
  digest = refl;
  size = omega arith;
  boundary = (refl, (refl, tt));
  boundary_ascending = (refl, tt);
  boundary_count = omega arith;
  checkpoints = (refl, (refl, tt));
  checkpoints_ascending = (refl, tt);
  checkpoint_count = omega arith;
}

try_decode_fields-encode_fields_fragment_example :
    Fragments.try_decode_fields fixed_bijou
      (Fragments.encode_fields fixed_bijou wide_fragment [] ++ (9 ∷ []))
    ≡ ok (wide_fragment, Fragments.fields_size fixed_bijou wide_fragment)
try_decode_fields-encode_fields_fragment_example =
    try_decode_fields-encode_fields_fragment fixed_bijou fixed_laws wide_fragment (9 ∷ [])
      wide_fragment-IsEncodable

-- Digits by repeated division, most significant first.
radix : ℕ → ℕ → ℕ → List ℕ → List ℕ
radix zero base n acc = acc
radix (suc fuel) base n acc =
    let more = radix fuel base (n / base) (n % base ∷ acc) in if ltb n base then n ∷ acc else more

abbrev digits_of : Bytes → ℕ → List ℕ
digits_of id base = radix 16 base (from_be_bytes 0 id) []

-- 20 is 4 times 5.
twenty_digits : IsRadix digits_of 2 (0 ∷ 20 ∷ [])
unfolding radix from_be_bytes
twenty_digits = record {
  below = (omega arith, (omega arith, (omega arith, (omega arith, (omega arith, tt)))));
  same = refl;
}

count_trailing_zeros_lem_example :
    (q : ℕ) × (from_be_bytes 0 (0 ∷ 20 ∷ [])
      ≡ q * 2 ^ count_trailing_zeros digits_of record { base = 2 } (0 ∷ 20 ∷ []))
    × (q % 2 ≢ 0)
unfolding from_be_bytes
count_trailing_zeros_lem_example =
    count_trailing_zeros_lem digits_of record { base = 2 } (0 ∷ 20 ∷ []) twenty_digits (omega arith)

-- A signature is the length of what is signed, 64 times.
abbrev toy_sign : Bytes → Bytes
toy_sign bytes = fill 64 (length bytes)

abbrev toy_ed25519 : Ed25519
toy_ed25519 = record {
  is_key = λ key. length key == 32;
  verify_strict = λ key bytes signature. signature == toy_sign bytes;
}

abbrev toy_signer : Signer
toy_signer = record { verifying_key = fill 32 7; sign = toy_sign }

length-fill : (n b : ℕ) → length (fill n b) ≡ n
length-fill zero b = refl
length-fill (suc n) b = ap suc (length-fill n b)

toy_laws : SignerLaws toy_ed25519 toy_signer
toy_laws = record {
  is_key = ground (arith, length-fill 32 7);
  key_length = length-fill 32 7;
  signature_length = λ bytes. length-fill 64 (length bytes);
  accepts = λ bytes. ==-refl (toy_sign bytes);
}

try_decode_prefix-seal_example :
    (try_decode_prefix
        (commit_payload fixed_bijou)
        toy_ed25519
        ((seal (commit_payload fixed_bijou) toy_ed25519 toy_signer wide).signed.bytes ++ (9 ∷ []))
      ≡ ok (
        (seal (commit_payload fixed_bijou) toy_ed25519 toy_signer wide).signed,
        length (seal (commit_payload fixed_bijou) toy_ed25519 toy_signer wide).signed.bytes,
      ))
    × (try_from_signed
          (commit_payload fixed_bijou)
          toy_ed25519
          (seal (commit_payload fixed_bijou) toy_ed25519 toy_signer wide).signed
        ≡ ok (seal (commit_payload fixed_bijou) toy_ed25519 toy_signer wide))
try_decode_prefix-seal_example =
    try_decode_prefix-seal (commit_payload fixed_bijou) toy_ed25519 IsEncodable
      (commit_laws fixed_bijou fixed_laws) toy_signer toy_laws wide wide-IsEncodable (9 ∷ [])
