-- ===== src/Collections/Walk/Reach.antt =====
-- The work-list loop visits exactly what can be reached from its first stack.
use subduction.Collections.Set.{contains}
use subduction.Collections.Walk.{push, walk, walk_old, walk_new}
use subduction.Prelude.{
  ℕ, zero, suc, ◌≡◌, refl, sym, ◌∙◌, ◌↔◌, inl, inr, true, false, ◌||◌, some, List, [], ◌∷◌, arith,
  Eq, nat_eq, Bool-cases, bytes_eq, bytes_list_eq,
}

contains-push {ℓ} :
    {A : Type ℓ} ⦃e : Eq A⦄ (xs stack : List A) (b : A)
    → contains (push xs stack) b ≡ (contains xs b || contains stack b)
unfolding push contains
contains-push [] stack b = refl
contains-push (x ∷ xs) stack b = ground (arith, contains-push xs (x ∷ stack) b)

module _ {ℓ} {A : Type ℓ} ⦃e : Eq A⦄ (expand : A → List A) where
  pub data Reach (roots : List A) : A → Type ℓ where
    root : {a : A} → contains roots a ≡ true → Reach roots a
    step : {a b : A} → Reach roots a → contains (expand a) b ≡ true → Reach roots b

  -- What a visited element expands to is visited, or waits on the stack.
  abbrev Pending : List A → List A → Type ℓ
  Pending stack visited =
      (a b : A)
      → contains visited a ≡ true
      → contains (expand a) b ≡ true
      → (contains visited b || contains stack b) ≡ true

  walk_closed :
      (fuel : ℕ) (stack visited r : List A)
      → Pending stack visited
      → walk expand fuel stack visited ≡ some r
      → ((a b : A) → contains r a ≡ true → contains (expand a) b ≡ true → contains r b ≡ true)
        × ((a : A) → (contains visited a || contains stack a) ≡ true → contains r a ≡ true)
  unfolding walk contains
  walk_closed zero [] visited r p h =
      let q : visited ≡ r = cc in
      rw (← q) (λ a b ha hb. ground (arith, p a b ha hb), λ a m. ground arith)
  walk_closed zero (x ∷ stack) visited r p h = cc
  walk_closed (suc fuel) [] visited r p h =
      let q : visited ≡ r = cc in
      rw (← q) (λ a b ha hb. ground (arith, p a b ha hb), λ a m. ground arith)
  walk_closed (suc fuel) (x ∷ stack) visited r p h = elim (Bool-cases (contains visited x)) [
    | inl old ↦
        let (closed, kept) =
          walk_closed fuel stack visited r (λ a b ha hb. ground (arith, p a b ha hb, old))
            (sym (walk_old expand fuel x stack visited old) ∙ h) in
        (closed, λ a m. kept a (ground (arith, m, old)))
    | inr new ↦
        let (closed, kept) =
          walk_closed fuel (push (expand x) stack) (x ∷ visited) r
            (λ a b ha hb. elim (Bool-cases (contains visited a)) [
              | inl old ↦ ground (arith, p a b old hb, contains-push (expand x) stack b)
              | inr first ↦ ground (arith, ha, first, hb, contains-push (expand x) stack b)
            ])
            (sym (walk_new expand fuel x stack visited new) ∙ h) in
        (closed, λ a m. kept a (ground (arith, m, contains-push (expand x) stack a)))
  ]

  walk_sound {κ} :
      (P : A → Type κ)
      → ((a b : A) → P a → contains (expand a) b ≡ true → P b)
      → (fuel : ℕ) (stack visited r : List A)
      → ((a : A) → (contains visited a || contains stack a) ≡ true → P a)
      → walk expand fuel stack visited ≡ some r
      → (a : A) → contains r a ≡ true
      → P a
  unfolding walk contains
  walk_sound P next zero [] visited r p h a m =
      let q : visited ≡ r = cc in p a (ground (arith, m, q))
  walk_sound P next zero (x ∷ stack) visited r p h a m = cc
  walk_sound P next (suc fuel) [] visited r p h a m =
      let q : visited ≡ r = cc in p a (ground (arith, m, q))
  walk_sound P next (suc fuel) (x ∷ stack) visited r p h b n =
      elim (Bool-cases (contains visited x)) [
        | inl old ↦
            walk_sound P next fuel stack visited r (λ a m. p a (ground (arith, m)))
              (sym (walk_old expand fuel x stack visited old) ∙ h) b n
        | inr new ↦
            walk_sound P next fuel (push (expand x) stack) (x ∷ visited) r
              (λ a m. elim (Bool-cases (contains (expand x) a)) [
                | inl child ↦ next x a (p x (ground arith)) child
                | inr other ↦ p a (ground (arith, m, other, contains-push (expand x) stack a))
              ])
              (sym (walk_new expand fuel x stack visited new) ∙ h) b n
      ]

  -- The set that the loop returns is the set of elements that can be reached.
  pub walk-Reach :
      (fuel : ℕ) (roots r : List A)
      → walk expand fuel roots [] ≡ some r
      → (a : A) → (contains r a ≡ true) ↔ Reach roots a
  unfolding contains
  walk-Reach fuel roots r h a =
      let (closed, kept) = walk_closed fuel roots [] r (λ a b ha hb. cc) h in
      (
        walk_sound (Reach roots) (λ a b. step) fuel roots [] r (λ a m. root m) h a,
        all_in closed kept,
      )
    where
      all_in :
          ((a b : A) → contains r a ≡ true → contains (expand a) b ≡ true → contains r b ≡ true)
          → ((a : A) → (false || contains roots a) ≡ true → contains r a ≡ true)
          → {b : A} → Reach roots b
          → contains r b ≡ true
      all_in closed kept (root m) = kept _ m
      all_in closed kept (step before m) = closed _ _ (all_in closed kept before) m

  Reach-push : {roots : List A} {a : A} → Reach (push roots []) a → Reach roots a
  unfolding contains
  Reach-push {roots} (root {a = a} m) = root (ground (arith, m, contains-push roots [] a))
  Reach-push (step before m) = step (Reach-push before) m

  push-Reach : {roots : List A} {a : A} → Reach roots a → Reach (push roots []) a
  unfolding contains
  push-Reach {roots} (root {a = a} m) = root (ground (arith, m, contains-push roots [] a))
  push-Reach (step before m) = step (push-Reach before) m

  -- The same for a stack that a vector or an iterator filled.
  pub walk-push-Reach :
      (fuel : ℕ) (roots r : List A)
      → walk expand fuel (push roots []) [] ≡ some r
      → (a : A) → (contains r a ≡ true) ↔ Reach roots a
  walk-push-Reach fuel roots r h a =
      let (sound, complete) = walk-Reach fuel (push roots []) r h a in
      (λ m. Reach-push (sound m), λ m. complete (push-Reach m))
