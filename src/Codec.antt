-- ===== src/Codec.antt =====
-- sedimentree_core/src/codec: the errors of error.rs, and results.
pub mod Encode
pub mod Decode
pub mod Bijou
pub mod Cursor
pub mod Sorted
pub mod Integers
pub mod Wire
pub mod Inverse
use Prim.Native.String.{String}
use subduction.Prelude.{
  Bytes, ℕ, ◌-◌, ◌≡◌, refl, ◌⊎◌, inl, inr, Bool, true, false, if◌then◌else◌, nat_eq, bytes_eq,
}

-- `Result<A, E>` with the two types in the other order. `?` leaves the caller at the first error.
pub data Result {ℓ κ} (Failure : Type ℓ) (Value : Type κ) : Type (ℓ ⊔ κ) where
  err : Failure → Result Failure Value
  ok : Value → Result Failure Value

infixl 5 ◌>>=◌
abbrev pub ◌>>=◌ {ℓ κ λ'} :
    {E : Type ℓ} {A : Type κ} {B : Type λ'} → Result E A → (A → Result E B) → Result E B
err failure >>= next = err failure
ok value >>= next = next value

-- A statement of a block whose value is not used.
infixl 5 ◌>>◌
abbrev pub ◌>>◌ {ℓ κ} : {E : Type ℓ} {B : Type κ} → Result E (Unit {0}) → Result E B → Result E B
step >> rest = step >>= (λ _. rest)

-- `map_err`, which `?` applies with `From::from`.
abbrev pub map_err {ℓ κ λ'} :
    {E : Type ℓ} {F : Type κ} {A : Type λ'} → (E → F) → Result E A → Result F A
map_err f (ok a) = ok a
map_err f (err e) = err (f e)

pub Result-cases {ℓ κ} :
    {E : Type ℓ} {A : Type κ} (r : Result E A) → ((a : A) × (r ≡ ok a)) ⊎ ((e : E) × (r ≡ err e))
Result-cases (ok a) = inl (a, refl)
Result-cases (err e) = inr (e, refl)

-- A chain that succeeds did so at each of its two steps.
pub >>=-eq-ok {ℓ κ λ'} :
    {E : Type ℓ} {V : Type κ} {W : Type λ'} (step : Result E V) (next : V → Result E W) {w : W}
    → (step >>= next) ≡ ok w
    → (v : V) × (step ≡ ok v) × (next v ≡ ok w)
>>=-eq-ok (err failure) next done = cc
>>=-eq-ok (ok v) next done = (v, refl, done)

pub map_err-eq-ok {ℓ κ λ'} :
    {E : Type ℓ} {F : Type κ} {A : Type λ'} (f : E → F) (r : Result E A) {a : A}
    → map_err f r ≡ ok a
    → r ≡ ok a
map_err-eq-ok f (ok a) h = cc
map_err-eq-ok f (err e) h = cc

pub else-eq-ok {ℓ κ} :
    {E : Type ℓ} {A : Type κ} (b : Bool) (e : E) (m : Result E A) {a : A}
    → (if b then err e else m) ≡ ok a
    → (b ≡ false) × (m ≡ ok a)
else-eq-ok true e m h = cc
else-eq-ok false e m h = (refl, h)

pub data ReadingType : Type 0 where
  u8 u16 u32 u64 : ReadingType
  array : ℕ → ReadingType
  slice : ℕ → ReadingType

pub record BufferTooShort : Type 0 where
  pub reading : ReadingType
  pub offset : ℕ
  pub need : ℕ
  pub have : ℕ

pub record UnsortedArray : Type 0 where
  pub index : ℕ

pub record InvalidSchema : Type 0 where
  pub expected : Bytes
  pub got : Bytes

pub record InvalidDiscriminant : Type 0 where
  pub expected : ℕ
  pub got : ℕ

pub record InvalidEnumTag : Type 0 where
  pub tag : ℕ
  pub type_name : String

-- `Kind` is the error type of the crate bijoux, and each case of `DecodeError` that the modelled
-- decoders return is here.
pub record Bijou64Error (Kind : Type 0) : Type 0 where
  pub offset : ℕ
  pub kind : Kind

pub data DecodeError (Kind : Type 0) : Type 0 where
  buffer_too_short : BufferTooShort → DecodeError Kind
  message_too_short : (type_name : String) (need have : ℕ) → DecodeError Kind
  invalid_schema : InvalidSchema → DecodeError Kind
  invalid_verifying_key : DecodeError Kind
  unsorted_array : UnsortedArray → DecodeError Kind
  invalid_discriminant : InvalidDiscriminant → DecodeError Kind
  invalid_enum_tag : InvalidEnumTag → DecodeError Kind
  bijou64 : Bijou64Error Kind → DecodeError Kind
