-- ===== src/Collections/Set.antt =====
-- `Set<K>` and the `contains`, `insert`, `extend` and `retain` that the code calls on it.
use subduction.Prelude.{
  inr, ==_iff, ==-refl, inl, Bool-cases, map, ◌≡◌, refl, Bool, true, false, ◌||◌, List, [], ◌∷◌,
  ◌++◌, arith, Eq, ◌==◌, if◌then◌else◌, filter,
}

module _ {ℓ} {K : Type ℓ} ⦃e : Eq K⦄ where
  unfoldable pub contains : List K → K → Bool
  contains [] a = false
  contains (x ∷ s) a = x == a || contains s a

  -- `insert`, which says whether the element is new.
  unfoldable pub insert : List K → K → List K × Bool
  insert s a = if contains s a then (s, false) else (a ∷ s, true)

  unfoldable pub extend : List K → List K → List K
  extend s [] = s
  extend s (x ∷ xs) = extend (insert s x).0 xs

  unfoldable pub from_iter : List K → List K
  from_iter xs = extend [] xs

  pub contains-insert :
      (s : List K) (a b : K) → contains (insert s a).0 b ≡ (a == b || contains s b)
  unfolding insert contains
  contains-insert s a b = ground arith

  pub contains-extend :
      (xs s : List K) (b : K) → contains (extend s xs) b ≡ (contains s b || contains xs b)
  unfolding extend contains
  contains-extend [] s b = ground arith
  contains-extend (x ∷ xs) s b =
      ground (arith, contains-extend xs (insert s x).0 b, contains-insert s x b)

  pub contains-from_iter : (xs : List K) (b : K) → contains (from_iter xs) b ≡ contains xs b
  unfolding from_iter contains
  contains-from_iter xs b = ground (arith, contains-extend xs [] b)

  pub contains-append :
      (xs ys : List K) (b : K) → contains (xs ++ ys) b ≡ (contains xs b || contains ys b)
  unfolding contains
  contains-append [] ys b = refl
  contains-append (x ∷ xs) ys b = ground (arith, contains-append xs ys b)

  pub contains-filter :
      (p : K → Bool) (xs : List K) (b : K)
      → contains (filter p xs) b ≡ (if p b then contains xs b else false)
  unfolding contains
  contains-filter p [] b = ground arith
  contains-filter p (x ∷ xs) b = ground (arith, contains-filter p xs b)

pub contains-map {ℓ κ} :
    {A : Type ℓ} {B : Type κ} ⦃e : Eq A⦄ ⦃e' : Eq B⦄ (f : A → B) (xs : List A) (a : A)
    → contains xs a ≡ true
    → contains (map f xs) (f a) ≡ true
unfolding contains
contains-map f [] a h = cc
contains-map f (x ∷ xs) a h = ground (arith, contains-map f xs a)

-- An element of an image is the image of an element.
pub contains-map_inv {ℓ κ} :
    {A : Type ℓ} {B : Type κ} ⦃e : Eq A⦄ ⦃e' : Eq B⦄ (f : A → B) (xs : List A) (b : B)
    → contains (map f xs) b ≡ true
    → (a : A) × (contains xs a ≡ true) × (f a ≡ b)
unfolding contains
contains-map_inv f [] b h = cc
contains-map_inv f (x ∷ xs) b h = elim (Bool-cases (f x == b)) [
  | inl hit ↦ (x, ground (arith, ==-refl x), (==_iff (f x) b).0 hit)
  | inr miss ↦
      let (a, m, q) = contains-map_inv f xs b (ground (arith, h, miss)) in (a, ground (arith, m), q)
]
