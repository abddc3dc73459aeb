-- ===== src/Prelude/Order.antt =====
-- Byte strings, and the lexicographic order that Rust derives for byte arrays.
use Prim.Native.Nat.{ℕ, ◌<◌, compare, Ordering}
use mathlib.Core.Path.{◌≡◌, refl, ap₂}
use mathlib.Core.Bool.{Bool, true, false}
use mathlib.Core.List.{List, [], ◌∷◌, nil≢cons, cons≢nil, head-eq_of_cons-eq, tail-eq_of_cons-eq}
use native.Mathlib.Omega.{arith}
use native.Mathlib.Decide.{ℕ_discrete}
use package.subduction.Prelude.Tests.{Eq}
use package.subduction.Prelude.Lists.{length, All}

abbrev pub Bytes : Type 0
Bytes = List ℕ

abbrev pub IsByte : ℕ → Type 0
IsByte b = b < 256

-- A `[u8; n]`.
abbrev pub IsArray : ℕ → Bytes → Type 0
IsArray n bs = (length bs ≡ n) × All IsByte bs

unfoldable pub list_discrete {ℓ} : {A : Type ℓ} → Discrete A → Discrete (List A)
list_discrete dec [] [] = yes refl
list_discrete dec [] (y ∷ ys) = no (λ h. nil≢cons h)
list_discrete dec (x ∷ xs) [] = no (λ h. cons≢nil h)
list_discrete dec (x ∷ xs) (y ∷ ys) = elim (dec x y) [
  | no heads ↦ no (λ h. heads (head-eq_of_cons-eq h))
  | yes p ↦ elim (list_discrete dec xs ys) [
    | no tails ↦ no (λ h. tails (tail-eq_of_cons-eq h))
    | yes q ↦ yes (ap₂ ◌∷◌ p q)
  ]
]

unfoldable pub Bytes-discrete : Discrete Bytes
unfolding list_discrete
Bytes-discrete = list_discrete ℕ_discrete

instance abbrev pub bytes_eq : Eq Bytes
bytes_eq = record { dec = Bytes-discrete }

instance abbrev pub bytes_list_eq : Eq (List Bytes)
bytes_list_eq = record { dec = list_discrete Bytes-discrete }

-- `a < b` on byte arrays.
unfoldable pub bytes_ltb : Bytes → Bytes → Bool
bytes_ltb [] [] = false
bytes_ltb [] (y ∷ ys) = true
bytes_ltb (x ∷ xs) [] = false
bytes_ltb (x ∷ xs) (y ∷ ys) = elim (compare x y) [
  | Ordering.lt ↦ true
  | Ordering.eq ↦ bytes_ltb xs ys
  | Ordering.gt ↦ false
]

pub bytes_ltb_irrefl : (a : Bytes) → bytes_ltb a a ≡ false
unfolding bytes_ltb
bytes_ltb_irrefl [] = refl
bytes_ltb_irrefl (x ∷ xs) = ground (arith, bytes_ltb_irrefl xs)

pub bytes_ltb_trans :
    (a b c : Bytes) → bytes_ltb a b ≡ true → bytes_ltb b c ≡ true → bytes_ltb a c ≡ true
unfolding bytes_ltb
bytes_ltb_trans [] [] c h k = cc
bytes_ltb_trans [] (y ∷ b) [] h k = cc
bytes_ltb_trans [] (y ∷ b) (z ∷ c) h k = refl
bytes_ltb_trans (x ∷ a) [] c h k = cc
bytes_ltb_trans (x ∷ a) (y ∷ b) [] h k = cc
bytes_ltb_trans (x ∷ a) (y ∷ b) (z ∷ c) h k = ground (arith, bytes_ltb_trans a b c)

pub bytes_ltb-total : (a b : Bytes) → bytes_ltb a b ≡ false → bytes_ltb b a ≡ false → a ≡ b
unfolding bytes_ltb
bytes_ltb-total [] [] h k = refl
bytes_ltb-total [] (y ∷ b) h k = cc
bytes_ltb-total (x ∷ a) [] h k = cc
bytes_ltb-total (x ∷ a) (y ∷ b) h k = ground (arith, bytes_ltb-total a b)

pub bytes_ltb-asymm : (a b : Bytes) → bytes_ltb a b ≡ true → bytes_ltb b a ≡ false
unfolding bytes_ltb
bytes_ltb-asymm [] [] h = refl
bytes_ltb-asymm [] (y ∷ b) h = refl
bytes_ltb-asymm (x ∷ a) [] h = cc
bytes_ltb-asymm (x ∷ a) (y ∷ b) h = ground (arith, bytes_ltb-asymm a b)
