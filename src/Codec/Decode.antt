-- ===== src/Codec/Decode.antt =====
-- sedimentree_core/src/codec/decode.rs. `usize` has 64 bits. Where an offset is added to a fixed
-- size the sum is a plain number: a buffer in memory ends far below 2 ^ 64.
use subduction.Codec.{Result, ok, err, ◌>>=◌, BufferTooShort, ReadingType, UnsortedArray}
use subduction.Prelude.{
  ℕ, zero, suc, ◌+◌, ◌-◌, ◌*◌, ◌^◌, not, Option, none, some, List, [], ◌∷◌, ltb, leb, if◌then◌else◌,
  nat_eq, length, take, drop, get_elem?, Bytes, bytes_eq, bytes_ltb,
}

-- `buf.get(offset..end)` for `offset ≤ end`.
unfoldable pub get_range : Bytes → ℕ → ℕ → Option Bytes
get_range buf offset n =
    if leb (offset + n) (length buf) then some (take n (drop offset buf)) else none

abbrev pub too_short : ReadingType → Bytes → ℕ → ℕ → BufferTooShort
too_short reading buf offset need = record {
  reading = reading;
  offset = offset;
  need = need;
  have = length buf - offset;
}

abbrev pub ok_or {ℓ κ} : {E : Type ℓ} {A : Type κ} → Option A → E → Result E A
ok_or none e = err e
ok_or (some a) e = ok a

-- `from_be_bytes`
unfoldable pub from_be_bytes : ℕ → Bytes → ℕ
from_be_bytes acc [] = acc
from_be_bytes acc (b ∷ bs) = from_be_bytes (acc * 256 + b) bs

unfoldable pub u8 : Bytes → ℕ → Result BufferTooShort ℕ
u8 buf offset = ok_or (get_elem? buf offset) (too_short ReadingType.u8 buf offset 1)

unfoldable pub u16 : Bytes → ℕ → Result BufferTooShort ℕ
u16 buf offset = do
  bytes ← ok_or (get_range buf offset 2) (too_short ReadingType.u16 buf offset 2)
  ok (from_be_bytes 0 bytes)

unfoldable pub u32 : Bytes → ℕ → Result BufferTooShort ℕ
u32 buf offset = do
  bytes ← ok_or (get_range buf offset 4) (too_short ReadingType.u32 buf offset 4)
  ok (from_be_bytes 0 bytes)

unfoldable pub u64 : Bytes → ℕ → Result BufferTooShort ℕ
u64 buf offset = do
  bytes ← ok_or (get_range buf offset 8) (too_short ReadingType.u64 buf offset 8)
  ok (from_be_bytes 0 bytes)

unfoldable pub array : ℕ → Bytes → ℕ → Result BufferTooShort Bytes
array n buf offset = ok_or (get_range buf offset n) (too_short (ReadingType.array n) buf offset n)

-- `offset.checked_add(len)` fails at 2 ^ 64.
unfoldable pub slice : Bytes → ℕ → ℕ → Result BufferTooShort Bytes
slice buf offset len =
    if ltb (offset + len) (2 ^ 64)
    then ok_or (get_range buf offset len) (too_short (ReadingType.slice len) buf offset len)
    else err (too_short (ReadingType.slice len) buf offset len)

-- The windows from position `i` on.
unfoldable pub verify_sorted_from : ℕ → List Bytes → Result UnsortedArray (Unit {0})
verify_sorted_from i [] = ok tt
verify_sorted_from i (prev ∷ []) = ok tt
verify_sorted_from i (prev ∷ curr ∷ rest) =
    if not (bytes_ltb prev curr)
    then err (record { index = i + 1 })
    else verify_sorted_from (i + 1) (curr ∷ rest)

unfoldable pub verify_sorted : List Bytes → Result UnsortedArray (Unit {0})
unfolding verify_sorted_from
verify_sorted elements = verify_sorted_from 0 elements

-- `for _ in 0..count { xs.push(decode::array(buf, offset)?); offset += n; }`
unfoldable pub arrays : ℕ → ℕ → Bytes → ℕ → Result BufferTooShort (List Bytes × ℕ)
arrays n zero buf offset = ok ([], offset)
arrays n (suc count) buf offset = do
  x ← array n buf offset
  (xs, end) ← arrays n count buf (offset + n)
  ok (x ∷ xs, end)
