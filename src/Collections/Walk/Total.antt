-- ===== src/Collections/Walk/Total.antt =====
-- The work-list loop ends: each round pops an element, and an element is expanded once.
use subduction.Collections.Set.{contains}
use subduction.Collections.Walk.{push, walk, weight, walk_old, walk_new}
use subduction.Prelude.{
  All, ◌*◌, ℕ, zero, suc, ◌+◌, ◌≤◌, ◌≡◌, refl, inl, inr, true, false, some, List, [], ◌∷◌, arith,
  Eq, nat_eq, Bool-cases, length, bytes_eq, bytes_list_eq,
}

pub length-push {ℓ} :
    {A : Type ℓ} (xs stack : List A) → length (push xs stack) ≡ length xs + length stack
unfolding push
length-push [] stack = omega arith
length-push (x ∷ xs) stack = omega (arith, length-push xs (x ∷ stack))

pub push-All {ℓ κ} :
    {A : Type ℓ} (P : A → Type κ) (xs stack : List A)
    → All P xs
    → All P stack
    → All P (push xs stack)
unfolding push
push-All P [] stack h k = k
push-All P (x ∷ xs) stack h k = push-All P xs (x ∷ stack) h.1 (h.0, k)

module _ {ℓ} {A : Type ℓ} ⦃e : Eq A⦄ (expand : A → List A) where
  weight-le :
      (nodes visited : List A) (a : A)
      → weight expand nodes (a ∷ visited) ≤ weight expand nodes visited
  unfolding weight contains
  weight-le [] visited a = omega arith
  weight-le (u ∷ nodes) visited a = ground (arith, weight-le nodes visited a)

  -- Visiting a node takes its expansion out of the weight.
  weight-visit :
      (nodes visited : List A) (a : A)
      → contains nodes a ≡ true
      → contains visited a ≡ false
      → weight expand nodes (a ∷ visited) + length (expand a) ≤ weight expand nodes visited
  unfolding weight contains
  weight-visit [] visited a h new = cc
  weight-visit (u ∷ nodes) visited a h new =
      ground (arith, weight-le nodes visited a, weight-visit nodes visited a)

  module _ (nodes : List A) (inside : (a : A) → contains nodes a ≡ false → expand a ≡ []) where
    weight-drop :
        (visited : List A) (a : A)
        → contains visited a ≡ false
        → weight expand nodes (a ∷ visited) + length (expand a) ≤ weight expand nodes visited
    weight-drop visited a new = elim (Bool-cases (contains nodes a)) [
      | inl member ↦ weight-visit nodes visited a member new
      | inr outside ↦ rw (inside a outside) (omega (arith, weight-le nodes visited a))
    ]

    pub walk_total :
        (fuel : ℕ) (stack visited : List A)
        → length stack + weight expand nodes visited ≤ fuel
        → (r : List A) × (walk expand fuel stack visited ≡ some r)
    unfolding walk
    walk_total zero [] visited h = (visited, refl)
    walk_total zero (a ∷ stack) visited h = absurd (omega arith)
    walk_total (suc fuel) [] visited h = (visited, refl)
    walk_total (suc fuel) (a ∷ stack) visited h = elim (Bool-cases (contains visited a)) [
      | inl old ↦
          rw (walk_old expand fuel a stack visited old)
            (walk_total fuel stack visited (omega arith))
      | inr new ↦ rw (walk_new expand fuel a stack visited new) (
          walk_total fuel (push (expand a) stack) (a ∷ visited)
            (omega (arith, length-push (expand a) stack, weight-drop visited a new)))
    ]

  -- A bound from a bound on each expansion.
  pub weight-bound :
      (bound : ℕ)
      → ((a : A) → length (expand a) ≤ bound)
      → (nodes visited : List A) → weight expand nodes visited ≤ length nodes * bound
  unfolding weight
  weight-bound bound h [] visited = omega arith
  weight-bound bound h (u ∷ nodes) visited = ground (arith, h u, weight-bound bound h nodes visited)

  -- The same for a loop that stays within `nodes`.
  module _ {κ} (P : A → Type κ) (nodes : List A) (member : (a : A) → P a → contains nodes a ≡ true)
      (closed : (a : A) → P a → All P (expand a)) where
    pub walk_total_within :
        (fuel : ℕ) (stack visited : List A)
        → All P stack
        → length stack + weight expand nodes visited ≤ fuel
        → (r : List A) × (walk expand fuel stack visited ≡ some r)
    unfolding walk
    walk_total_within zero [] visited inside h = (visited, refl)
    walk_total_within zero (a ∷ stack) visited inside h = absurd (omega arith)
    walk_total_within (suc fuel) [] visited inside h = (visited, refl)
    walk_total_within (suc fuel) (a ∷ stack) visited inside h =
        elim (Bool-cases (contains visited a)) [
          | inl old ↦
              rw (walk_old expand fuel a stack visited old)
                (walk_total_within fuel stack visited inside.1 (omega arith))
          | inr new ↦ rw (walk_new expand fuel a stack visited new) (
              walk_total_within fuel (push (expand a) stack) (a ∷ visited)
                (push-All P (expand a) stack (closed a inside.0) inside.1)
                (omega (
                  arith,
                  length-push (expand a) stack,
                  weight-visit nodes visited a (member a inside.0) new,
                )))
        ]
