-- ===== src/Codec/Encode.antt =====
-- sedimentree_core/src/codec/encode.rs: each function appends to the buffer.
use subduction.Prelude.{ℕ, zero, suc, ◌/◌, ◌%◌, List, [], ◌∷◌, ◌++◌, nat_eq, Bytes, bytes_eq}

-- `value.to_be_bytes()` for an integer of `k` bytes.
unfoldable pub to_be_bytes : ℕ → ℕ → Bytes
to_be_bytes zero value = []
to_be_bytes (suc k) value = to_be_bytes k (value / 256) ++ (value % 256 ∷ [])

unfoldable pub u8 : ℕ → Bytes → Bytes
u8 value buf = buf ++ (value ∷ [])

unfoldable pub u16 : ℕ → Bytes → Bytes
u16 value buf = buf ++ to_be_bytes 2 value

unfoldable pub u32 : ℕ → Bytes → Bytes
u32 value buf = buf ++ to_be_bytes 4 value

unfoldable pub u64 : ℕ → Bytes → Bytes
u64 value buf = buf ++ to_be_bytes 8 value

unfoldable pub bytes : Bytes → Bytes → Bytes
bytes value buf = buf ++ value

unfoldable pub array : Bytes → Bytes → Bytes
array value buf = buf ++ value

-- `for x in xs { encode::array(x.as_bytes(), buf); }`
unfoldable pub arrays : List Bytes → Bytes → Bytes
arrays [] buf = buf
arrays (x ∷ xs) buf = arrays xs (array x buf)
