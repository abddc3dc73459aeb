-- ===== src/Collections/BoundedShardedMap/Pigeonhole.antt =====
-- Lists of distinct elements, counted.
use subduction.Collections.Set.{contains}
use subduction.Collections.Index.{Distinct}
use subduction.Collections.BoundedShardedMap.Shards.{==_sym}
use subduction.Prelude.{
  ◌≤◌, ◌<◌, ◌≡◌, refl, ap, ◌∙◌, inl, inr, true, false, List, [], ◌∷◌, arith, if◌then◌else◌, Eq,
  ◌==◌, nat_eq, ==_iff, Bool-cases, length, All, bytes_eq, bytes_list_eq,
}

module _ {K : Type 0} ⦃eq : Eq K⦄ where
  without : K → List K → List K
  without k [] = []
  without k (x ∷ xs) = if x == k then without k xs else x ∷ without k xs

  length-without_le : (k : K) (xs : List K) → length (without k xs) ≤ length xs
  unfolding without
  length-without_le k [] = omega arith
  length-without_le k (x ∷ xs) = ground (arith, length-without_le k xs)

  length-without : (k : K) (xs : List K) → contains xs k ≡ true → length (without k xs) < length xs
  unfolding without contains
  length-without k [] h = cc
  length-without k (x ∷ xs) h = ground (arith, h, length-without k xs, length-without_le k xs)

  contains-without :
      (k j : K) (xs : List K) → (k == j) ≡ false → contains (without k xs) j ≡ contains xs j
  unfolding without contains
  contains-without k j [] h = refl
  contains-without k j (x ∷ xs) h = elim (Bool-cases (x == k)) [
    | inl hit ↦
        let same : (x == j) ≡ false = ap (λ y. y == j) ((==_iff x k).0 hit) ∙ h in
        ground (arith, hit, same, contains-without k j xs h)
    | inr miss ↦ ground (arith, miss, contains-without k j xs h)
  ]

  left_over :
      (x : K) (ys zs : List K)
      → contains zs x ≡ false
      → All (λ z. contains ys z ≡ true) zs
      → All (λ z. contains (without x ys) z ≡ true) zs
  unfolding contains
  left_over x ys [] new h = tt
  left_over x ys (z ∷ zs) new h =
      let apart : (x == z) ≡ false = ==_sym x z ∙ ground (arith, new) in
      (contains-without x z ys apart ∙ h.0, left_over x ys zs (ground (arith, new)) h.1)

  -- A list without repetition is no longer than one that has its elements.
  pub pigeonhole :
      (xs ys : List K) → Distinct xs → All (λ x. contains ys x ≡ true) xs → length xs ≤ length ys
  pigeonhole [] ys d h = omega arith
  pigeonhole (x ∷ xs) ys d h =
      let ih = pigeonhole xs (without x ys) d.1 (left_over x ys xs d.0 h.1) in
      omega (arith, ih, length-without x ys h.0)
