-- ===== src/Sedimentree/Topsort/Release.antt =====
-- `topsorted_blob_order`: what the inner loop does to the in-degrees and the queue.
use subduction.Collections.Set.{contains}
use subduction.Collections.Index.{Distinct}
use subduction.Sedimentree.Topsort.{release}
use subduction.Prelude.{
  ℕ, ◌+◌, ◌-◌, ◌≤◌, ◌≡◌, sym, ◌∙◌, inl, inr, ◌&&◌, List, [], ◌∷◌, ◌++◌, append_assoc, append-nil,
  arith, ltb, if◌then◌else◌, ◌==◌, nat_eq, Bool-cases, bytes_eq, bytes_list_eq,
}

-- How often a number stands in a list.
abbrev pub count : List ℕ → ℕ → ℕ
count [] i = 0
count (x ∷ xs) i = (if x == i then 1 else 0) + count xs i

abbrev lower : (ℕ → ℕ) → ℕ → ℕ → ℕ
lower deg dep k = if dep == k then deg k - 1 else deg k

-- No in-degree falls below zero; each falls by the number of its occurrences, and the queue gets, in
-- some order and once each, those that fall to zero.
pub release_lem :
    (deps : List ℕ) (deg : ℕ → ℕ) (queue : List ℕ)
    → ((i : ℕ) → count deps i ≤ deg i)
    → (fresh : List ℕ) × ((release deps (deg, queue)).1 ≡ queue ++ fresh)
      × ((i : ℕ) → (release deps (deg, queue)).0 i + count deps i ≡ deg i)
      × ((i : ℕ)
          → contains fresh i ≡ (ltb 0 (count deps i) && ((release deps (deg, queue)).0 i == 0)))
      × Distinct fresh
unfolding release contains
release_lem [] deg queue h = ([], sym (append-nil queue), λ i. omega arith, λ i. ground arith, tt)
release_lem (dep ∷ deps) deg queue h =
    let deg1 = lower deg dep in
    let within : (i : ℕ) → count deps i ≤ lower deg dep i = λ i. ground (arith, h i) in
    elim (Bool-cases (deg1 dep == 0)) [
      | inl zeroed ↦
          let (fresh, q, falls, which, once) = release_lem deps deg1 (queue ++ (dep ∷ [])) within in
          rw (zeroed, release)
            (
              dep ∷ fresh,
              q ∙ append_assoc queue (dep ∷ []) fresh,
              λ i. ground (arith, falls i, h i),
              λ i. ground (arith, which i, falls i, h i, within i, zeroed),
              (ground (arith, which dep, within dep, zeroed), once),
            )
      | inr waits ↦
          let (fresh, q, falls, which, once) = release_lem deps deg1 queue within in
          rw (waits, release)
            (
              fresh,
              q,
              λ i. ground (arith, falls i, h i),
              λ i. ground (arith, which i, falls i, h i, within i, waits),
              once,
            )
    ]
