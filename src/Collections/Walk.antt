-- ===== src/Collections/Walk.antt =====
-- The work-list loop that sedimentree_core writes several times:
-- `while let Some(id) = stack.pop() { if !visited.insert(id) { continue; } … stack.extend(…); }`.
pub mod Total
pub mod Reach
use subduction.Collections.Set.{contains}
use subduction.Prelude.{
  ℕ, zero, suc, ◌+◌, ◌≡◌, refl, true, false, Option, none, some, List, [], ◌∷◌, if◌then◌else◌, Eq,
  nat_eq, length, bytes_eq, bytes_list_eq,
}

-- `stack.extend(xs)`: the head of the list is the end of the vector.
unfoldable pub push {ℓ} : {A : Type ℓ} → List A → List A → List A
push [] stack = stack
push (x ∷ xs) stack = push xs (x ∷ stack)

module _ {ℓ} {A : Type ℓ} ⦃e : Eq A⦄ (expand : A → List A) where
  -- `visited`, or `none` if the fuel ran out before the stack was empty.
  unfoldable pub walk : ℕ → List A → List A → Option (List A)
  walk zero [] visited = some visited
  walk zero (a ∷ stack) visited = none
  walk (suc fuel) [] visited = some visited
  walk (suc fuel) (a ∷ stack) visited = elim (contains visited a) [
    | true ↦ walk fuel stack visited
    | false ↦ walk fuel (push (expand a) stack) (a ∷ visited)
  ]

  -- The elements that those of `nodes` outside `visited` expand to, counted.
  unfoldable pub weight : List A → List A → ℕ
  weight [] visited = 0
  weight (u ∷ nodes) visited =
      (if contains visited u then 0 else length (expand u)) + weight nodes visited

  pub walk_old :
      (fuel : ℕ) (a : A) (stack visited : List A)
      → contains visited a ≡ true
      → walk (suc fuel) (a ∷ stack) visited ≡ walk fuel stack visited
  unfolding walk
  walk_old fuel a stack visited h = rw (h, walk)

  pub walk_new :
      (fuel : ℕ) (a : A) (stack visited : List A)
      → contains visited a ≡ false
      → walk (suc fuel) (a ∷ stack) visited ≡ walk fuel (push (expand a) stack) (a ∷ visited)
  unfolding walk
  walk_new fuel a stack visited h = rw (h, walk)

  pub walk_empty : (fuel : ℕ) (visited : List A) → walk fuel [] visited ≡ some visited
  unfolding walk
  walk_empty zero visited = refl
  walk_empty (suc fuel) visited = refl
