-- ===== src/Collections/Index.antt =====
-- The map from keys to positions that `.iter().enumerate().map(|(i, x)| (key(x), i)).collect()`
-- builds, and lists of keys by position.
use subduction.Collections.Map
use subduction.Collections.Map.{Map, get-insert}
use subduction.Collections.Set.{contains}
use subduction.Prelude.{
  ℕ, zero, suc, ◌+◌, ◌<◌, ◌≡◌, refl, sym, ap, ◌∙◌, ◌⊎◌, inl, inr, Bool, true, false, none, some,
  List, [], ◌∷◌, arith, ℕ_discrete, Eq, ◌==◌, nat_eq, ==_iff, ==-refl, Bool-cases, Option-cases,
  length, any, Bytes, bytes_eq, bytes_list_eq,
}

unfoldable pub index_keys : ℕ → Map Bytes ℕ → List Bytes → Map Bytes ℕ
index_keys i m [] = m
index_keys i m (k ∷ ks) = index_keys (suc i) (Map.insert m k i) ks

-- No element twice.
abbrev pub Distinct {ℓ} : {A : Type ℓ} ⦃e : Eq A⦄ → List A → Type 0
Distinct [] = Unit
Distinct (x ∷ xs) = (contains xs x ≡ false) × Distinct xs

abbrev pub nth : List Bytes → ℕ → Bytes
nth [] i = []
nth (x ∷ xs) zero = x
nth (x ∷ xs) (suc i) = nth xs i

pub contains-nth : (xs : List Bytes) (i : ℕ) → i < length xs → contains xs (nth xs i) ≡ true
unfolding contains
contains-nth [] i h = absurd (omega (arith, h))
contains-nth (x ∷ xs) zero h = ground (arith, ==-refl x)
contains-nth (x ∷ xs) (suc i) h = ground (arith, contains-nth xs i (omega (arith, h)))

pub nth-index :
    (xs : List Bytes) (id : Bytes)
    → contains xs id ≡ true
    → (i : ℕ) × (i < length xs) × (nth xs i ≡ id)
unfolding contains
nth-index [] id m = cc
nth-index (x ∷ xs) id m = elim (Bool-cases (x == id)) [
  | inl hit ↦ (0, omega arith, (==_iff x id).0 hit)
  | inr miss ↦
      let (i, lt, at) = nth-index xs id (ground (arith, m, miss)) in (suc i, omega (arith, lt), at)
]

index_keys-skip :
    (ks : List Bytes) (i : ℕ) (m : Map Bytes ℕ) (p : Bytes)
    → contains ks p ≡ false
    → Map.get (index_keys i m ks) p ≡ Map.get m p
unfolding index_keys contains
index_keys-skip [] i m p h = refl
index_keys-skip (k ∷ ks) i m p h =
    index_keys-skip ks (suc i) (Map.insert m k i) p (ground (arith, h))
    ∙ ground (arith, h, get-insert m k p i)

index_keys-nth :
    (ks : List Bytes) (k : ℕ) (m : Map Bytes ℕ) (i : ℕ)
    → Distinct ks
    → i < length ks
    → Map.get (index_keys k m ks) (nth ks i) ≡ some (k + i)
unfolding index_keys
index_keys-nth [] k m i d h = absurd (omega (arith, h))
index_keys-nth (x ∷ ks) k m zero d h =
    index_keys-skip ks (suc k) (Map.insert m x k) x d.0
    ∙ ground (arith, get-insert m x x k, ==-refl x)
index_keys-nth (x ∷ ks) k m (suc i) d h =
    index_keys-nth ks (suc k) (Map.insert m x k) i d.1 (omega (arith, h)) ∙ ap some (omega arith)

-- A position that a key has is one at which the key stands.
index_keys-inv :
    (ks : List Bytes) (k : ℕ) (m : Map Bytes ℕ) (p : Bytes) (j : ℕ)
    → Map.get (index_keys k m ks) p ≡ some j
    → (Map.get m p ≡ some j) ⊎ ((i : ℕ) × (j ≡ k + i) × (nth ks i ≡ p) × (i < length ks))
unfolding index_keys
index_keys-inv [] k m p j h = inl h
index_keys-inv (x ∷ ks) k m p j h = elim (index_keys-inv ks (suc k) (Map.insert m x k) p j h) [
  | inr (i, e, at, lt) ↦ inr (suc i, omega (arith, e), at, omega (arith, lt))
  | inl found ↦ elim (Bool-cases (x == p)) [
    | inl hit ↦
        inr (0, ground (arith, found, get-insert m x p k, hit), (==_iff x p).0 hit, omega arith)
    | inr miss ↦ inl (ground (arith, found, get-insert m x p k, miss))
  ]
]

-- The key stands for the position.
unfoldable pub points : Map Bytes ℕ → ℕ → Bytes → Bool
points m s p = elim (Map.get m p) [ none ↦ false | some i ↦ i == s ]

pub index-inv :
    (ks : List Bytes) (p : Bytes) (j : ℕ)
    → Map.get (index_keys 0 [] ks) p ≡ some j
    → (nth ks j ≡ p) × (j < length ks)
index-inv ks p j found = elim (index_keys-inv ks 0 [] p j found) [
  | inl old ↦ absurd (unfold Map.get in cc (old))
  | inr (i, e, at, lt) ↦
      let same : j ≡ i = omega (arith, e) in (ap (nth ks) same ∙ at, omega (arith, same, lt))
]

module _ (ks : List Bytes) (distinct : Distinct ks) where
  index-nth : (s : ℕ) → s < length ks → Map.get (index_keys 0 [] ks) (nth ks s) ≡ some s
  index-nth s lt = index_keys-nth ks 0 [] s distinct lt ∙ ap some (omega arith)

  pub points-eq :
      (s : ℕ) (p : Bytes) → s < length ks → points (index_keys 0 [] ks) s p ≡ (p == nth ks s)
  unfolding points
  points-eq s p lt = elim (Bool-cases (p == nth ks s)) [
    | inl hit ↦
        let e : Map.get (index_keys 0 [] ks) p ≡ some s =
          ap (Map.get (index_keys 0 [] ks)) ((==_iff p (nth ks s)).0 hit) ∙ index-nth s lt in
        ground (arith, hit, e)
    | inr miss ↦ elim (Option-cases (Map.get (index_keys 0 [] ks) p)) [
      | inl absent ↦ ground (arith, absent, miss)
      | inr (j, found) ↦
          let (at, _) = index-inv ks p j found in
          elim (ℕ_discrete j s) [
            | yes same ↦
                absurd (ground (arith, miss, (==_iff p (nth ks s)).1 (sym at ∙ ap (nth ks) same)))
            | no other ↦ ground (arith, found, miss, other)
          ]
    ]
  ]

  pub any-points :
      (s : ℕ) (ps : List Bytes)
      → s < length ks
      → any (points (index_keys 0 [] ks) s) ps ≡ contains ps (nth ks s)
  unfolding contains
  any-points s [] lt = refl
  any-points s (p ∷ ps) lt = ground (arith, points-eq s p lt, any-points s ps lt)
