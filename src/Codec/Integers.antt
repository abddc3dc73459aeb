-- ===== src/Codec/Integers.antt =====
-- Big-endian integers: what `to_be_bytes` writes, `from_be_bytes` reads back, and conversely.
use subduction.Codec.Encode.{to_be_bytes}
use subduction.Codec.Decode.{from_be_bytes}
use subduction.Prelude.{
  ℕ, zero, suc, ◌+◌, ◌*◌, ◌/◌, ◌%◌, ◌^◌, ◌<◌, ◌≡◌, refl, [], ◌∷◌, ◌++◌, arith, nat_eq, length,
  length-append, Bytes, IsByte, bytes_eq,
}

from_be_bytes-append :
    (bs : Bytes) (acc b : ℕ) → from_be_bytes acc (bs ++ (b ∷ [])) ≡ from_be_bytes acc bs * 256 + b
unfolding from_be_bytes
from_be_bytes-append [] acc b = refl
from_be_bytes-append (x ∷ bs) acc b = from_be_bytes-append bs (acc * 256 + x) b

pub length-to_be_bytes : (k v : ℕ) → length (to_be_bytes k v) ≡ k
unfolding to_be_bytes
length-to_be_bytes zero v = refl
length-to_be_bytes (suc k) v =
    omega (
      arith,
      length-append (to_be_bytes k (v / 256)) (v % 256 ∷ []),
      length-to_be_bytes k (v / 256),
    )

-- An integer of `k` bytes survives the round trip.
pub from_be_bytes-to_be_bytes : (k v : ℕ) → v < 256 ^ k → from_be_bytes 0 (to_be_bytes k v) ≡ v
unfolding to_be_bytes
from_be_bytes-to_be_bytes zero v h = unfold from_be_bytes in omega arith
from_be_bytes-to_be_bytes (suc k) v h = omega (
  arith,
  from_be_bytes-append (to_be_bytes k (v / 256)) 0 (v % 256),
  from_be_bytes-to_be_bytes k (v / 256) (omega arith),
)

-- Two bytes are the encoding of the number that they stand for.
pub to_be_bytes-from_be_bytes_two :
    (a b : ℕ) → IsByte a → IsByte b → to_be_bytes 2 (from_be_bytes 0 (a ∷ b ∷ [])) ≡ a ∷ b ∷ []
unfolding to_be_bytes from_be_bytes
to_be_bytes-from_be_bytes_two a b h k = ground arith
