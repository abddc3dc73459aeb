-- ===== src/Codec/Bijou.antt =====
-- The crate bijoux, which is not part of the repository: a `u64` in one or more bytes. What the
-- codec relies on: the decoder reads back what the encoder wrote, whatever follows it, and
-- accepts no other bytes for the value (the encoding is a bijection).
use subduction.Codec.{Result, ok}
use subduction.Prelude.{ℕ, ◌^◌, ◌≤◌, ◌<◌, ◌≡◌, ◌++◌, nat_eq, length, take, Bytes, bytes_eq}

pub record Bijou (Kind : Type 0) : Type 0 where
  pub encode : ℕ → Bytes
  pub encoded_len : ℕ → ℕ
  -- The value, and the number of bytes read.
  pub decode : Bytes → Result Kind (ℕ × ℕ)

pub record BijouLaws {Kind : Type 0} (b : Bijou Kind) : Type 0 where
  pub length_encode : (v : ℕ) → v < 2 ^ 64 → length (b.encode v) ≡ b.encoded_len v
  pub encode_nonempty : (v : ℕ) → v < 2 ^ 64 → 1 ≤ b.encoded_len v
  pub decode_encode :
      (v : ℕ) (rest : Bytes) → v < 2 ^ 64 → b.decode (b.encode v ++ rest) ≡ ok (v, b.encoded_len v)
  pub decode_canonical :
      (bs : Bytes) (v n : ℕ)
      → b.decode bs ≡ ok (v, n)
      → (v < 2 ^ 64) × (n ≤ length bs) × (take n bs ≡ b.encode v)
