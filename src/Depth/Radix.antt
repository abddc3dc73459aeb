-- ===== src/Depth/Radix.antt =====
-- depth.rs, `CountTrailingZerosInBase`. The digits of an identifier in a base, most significant
-- first, come from a library (`from_bytes_be`, `to_radix_be`): they are a parameter.
use mathlib.Core.List.{reverse}
use native.Mathlib.Nat.{mul-one, pow-zero, mod-eq_of_lt, add-mul-mod_self_left, pow-succ'}
use subduction.Codec.Decode.{from_be_bytes}
use subduction.Depth.{DepthMetric}
use subduction.Identity.{CommitId}
use subduction.Prelude.{
  ℕ, zero, suc, ◌+◌, ◌*◌, ◌%◌, ◌^◌, ◌<◌, ◌≡◌, refl, sym, ◌∙◌, subst, ◌≢◌, Bool, List, [], ◌∷◌,
  arith, if◌then◌else◌, ◌==◌, nat_eq, length, All, bytes_eq, bytes_list_eq,
}

-- `CountTrailingZerosInBase`
pub record CountTrailingZerosInBase : Type 0 where
  pub base : ℕ

unfoldable pub take_while : (ℕ → Bool) → List ℕ → List ℕ
take_while p [] = []
take_while p (x ∷ xs) = if p x then x ∷ take_while p xs else []

-- The number of digits fits in a u32: an identifier of 32 bytes has at most 256 digits.
unfoldable pub count_trailing_zeros :
    (CommitId → ℕ → List ℕ) → CountTrailingZerosInBase → DepthMetric
count_trailing_zeros digits self id =
    length (take_while (λ i. i == 0) (reverse (digits id self.base)))

-- The number that digits stand for, least significant first.
abbrev pub value : ℕ → List ℕ → ℕ
value base [] = 0
value base (d ∷ ds) = d + base * value base ds

-- What the library documents: digits below the base that stand for the bytes' number.
pub record IsRadix (digits : CommitId → ℕ → List ℕ) (base : ℕ) (id : CommitId) : Type 0 where
  pub below : All (λ d. d < base) (reverse (digits id base))
  pub same : value base (reverse (digits id base)) ≡ from_be_bytes 0 id

-- The zeros that come first.
leading : List ℕ → ℕ
leading ds = length (take_while (λ i. i == 0) ds)

leading-zero : (ds : List ℕ) → leading (0 ∷ ds) ≡ suc (leading ds)
unfolding leading take_while
leading-zero ds = ground arith

leading-suc : (d : ℕ) (ds : List ℕ) → leading (suc d ∷ ds) ≡ 0
unfolding leading take_while
leading-suc d ds = ground arith

leading-value :
    (base : ℕ) (ds : List ℕ)
    → All (λ d. d < base) ds
    → value base ds ≢ 0
    → (q : ℕ) × (value base ds ≡ q * base ^ leading ds) × (q % base ≢ 0)
leading-value base [] below nonzero = absurd (nonzero refl)
leading-value base (zero ∷ ds) below nonzero =
    let (q, split, rest) = leading-value base ds below.1 (λ e. nonzero (rw e (omega arith))) in
    (q, rw (leading-zero ds) (rw (pow-succ' base (leading ds)) (grind (arith, split))), rest)
leading-value base (suc d ∷ ds) below nonzero = (
  suc d + base * value base ds,
  rw (leading-suc d ds) (grind (arith, pow-zero base, mul-one (suc d + base * value base ds))),
  rw (add-mul-mod_self_left (suc d) base (value base ds)) (rw (mod-eq_of_lt below.0) (omega arith)),
)

-- With the digits that the library documents, and for an identifier that is not all zeros, the
-- depth is the exponent of the base in the number that the identifier stands for: that power of
-- the base divides the number, and the quotient is not a multiple of the base.
pub count_trailing_zeros_lem :
    (digits : CommitId → ℕ → List ℕ) (self : CountTrailingZerosInBase) (id : CommitId)
    → IsRadix digits self.base id
    → from_be_bytes 0 id ≢ 0
    → (q : ℕ) × (from_be_bytes 0 id ≡ q * self.base ^ count_trailing_zeros digits self id)
      × (q % self.base ≢ 0)
unfolding count_trailing_zeros leading
count_trailing_zeros_lem digits self id radix nonzero =
    subst
      (λ n.
        (q : ℕ) × (n ≡ q * self.base ^ count_trailing_zeros digits self id) × (q % self.base ≢ 0))
      radix.same
      (leading-value self.base (reverse (digits id self.base)) radix.below
        (λ e. nonzero (sym radix.same ∙ e)))
