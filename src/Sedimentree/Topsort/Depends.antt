-- ===== src/Sedimentree/Topsort/Depends.antt =====
-- `topsorted_blob_order`: which item depends on which, by identifiers, and the edges that say so.
use subduction.Identity.{CommitId}
use subduction.LooseCommit.{LooseCommit}
use subduction.Fragment.{Fragment, head, boundary}
use subduction.Collections.Map
use subduction.Collections.Map.{Map}
use subduction.Collections.Set.{contains}
use subduction.Collections.Index.{nth, points, index_keys, index-inv}
use subduction.Sedimentree.Topsort.{SedimentreeItem, fragment, loose_commit}
use subduction.Sedimentree.Topsort.Built.{at, fragment_dep, parent_at, commit_dep}
use subduction.Prelude.{
  ℕ, zero, suc, ◌+◌, ◌≤◌, ◌<◌, ◌≡◌, refl, ap, ◌∙◌, inl, inr, Bool, false, none, some, List, [], ◌∷◌,
  map, arith, ◌==◌, nat_eq, Option-cases, length, get_elem?, any, bytes_eq, bytes_list_eq,
}

abbrev pub boundary_at : List Fragment → ℕ → List CommitId
boundary_at fs i = elim (get_elem? fs i) [ none ↦ [] | some f ↦ boundary f ]

abbrev pub parents_at : List LooseCommit → ℕ → List CommitId
parents_at cs i = elim (get_elem? cs i) [ none ↦ [] | some c ↦ c.parents ]

abbrev pub fragment_heads : List Fragment → List CommitId
fragment_heads fs = map head fs

abbrev pub commit_heads : List LooseCommit → List CommitId
commit_heads cs = map (λ c. c.head) cs

-- A fragment depends on the fragments whose heads are in its boundary, and a commit on the fragments
-- and the commits whose heads are among its parents.
abbrev pub depends_on : List Fragment → List LooseCommit → SedimentreeItem → SedimentreeItem → Bool
depends_on fs cs (fragment t) (fragment s) = contains (boundary_at fs t) (nth (fragment_heads fs) s)
depends_on fs cs (fragment t) (loose_commit s) = false
depends_on fs cs (loose_commit t) (fragment s) =
    contains (parents_at cs t) (nth (fragment_heads fs) s)
depends_on fs cs (loose_commit t) (loose_commit s) =
    contains (parents_at cs t) (nth (commit_heads cs) s)

fragment_dep_before :
    (m : Map CommitId ℕ) (i : ℕ) (fs : List Fragment) (s t : ℕ)
    → t < i
    → fragment_dep m i fs s t ≡ false
fragment_dep_before m i [] s t h = refl
fragment_dep_before m i (f ∷ fs) s t h =
    ground (arith, h, fragment_dep_before m (suc i) fs s t (omega (arith, h)))

pub fragment_dep_at :
    (m : Map CommitId ℕ) (i : ℕ) (fs : List Fragment) (s k : ℕ)
    → fragment_dep m i fs s (i + k) ≡ any (points m s) (boundary_at fs k)
fragment_dep_at m i [] s k = refl
fragment_dep_at m i (f ∷ fs) s zero =
    let here : i + 0 ≡ i = omega arith in
    rw here (ground (arith, fragment_dep_before m (suc i) fs s i (omega arith)))
fragment_dep_at m i (f ∷ fs) s (suc k) =
    let shifted : i + suc k ≡ suc i + k = omega arith in
    let away : (i == i + suc k) ≡ false = ground arith in
    ground
      (arith, away, ap (fragment_dep m (suc i) fs s) shifted ∙ fragment_dep_at m (suc i) fs s k)

pub commit_dep_before :
    (hf il : Map CommitId ℕ) (n li : ℕ) (cs : List LooseCommit) (s t : ℕ)
    → t < n + li
    → commit_dep hf il n li cs s t ≡ false
commit_dep_before hf il n li [] s t h = refl
commit_dep_before hf il n li (c ∷ cs) s t h =
    ground (arith, h, commit_dep_before hf il n (suc li) cs s t (omega (arith, h)))

pub commit_dep_at :
    (hf il : Map CommitId ℕ) (n li : ℕ) (cs : List LooseCommit) (s k : ℕ)
    → commit_dep hf il n li cs s (n + li + k) ≡ any (parent_at hf il n s) (parents_at cs k)
commit_dep_at hf il n li [] s k = refl
commit_dep_at hf il n li (c ∷ cs) s zero =
    let here : n + li + 0 ≡ n + li = omega arith in
    rw here (ground (arith, commit_dep_before hf il n (suc li) cs s (n + li) (omega arith)))
commit_dep_at hf il n li (c ∷ cs) s (suc k) =
    let shifted : n + li + suc k ≡ n + suc li + k = omega arith in
    let away : (n + li == n + li + suc k) ≡ false = ground arith in
    ground (
      arith,
      away,
      ap (commit_dep hf il n (suc li) cs s) shifted ∙ commit_dep_at hf il n (suc li) cs s k,
    )

pub at-points : (m : Map CommitId ℕ) (s : ℕ) (p : CommitId) → at (Map.get m p) s ≡ points m s p
unfolding points
at-points m s p = elim (Option-cases (Map.get m p)) [
  | inl miss ↦ ground (arith, miss)
  | inr (j, hit) ↦ ground (arith, hit)
]

pub points-beyond :
    (ks : List CommitId) (s : ℕ) (p : CommitId)
    → length ks ≤ s
    → points (index_keys 0 [] ks) s p ≡ false
unfolding points
points-beyond ks s p h = elim (Option-cases (Map.get (index_keys 0 [] ks) p)) [
  | inl miss ↦ ground (arith, miss)
  | inr (j, hit) ↦ ground (arith, hit, h, (index-inv ks p j hit).1)
]

pub any-points_beyond :
    (ks : List CommitId) (s : ℕ) (ps : List CommitId)
    → length ks ≤ s
    → any (points (index_keys 0 [] ks) s) ps ≡ false
any-points_beyond ks s [] h = refl
any-points_beyond ks s (p ∷ ps) h =
    ground (arith, points-beyond ks s p h, any-points_beyond ks s ps h)

module _ (fks cks : List CommitId) where
  abbrev hf : Map CommitId ℕ
  hf = index_keys 0 [] fks

  abbrev il : Map CommitId ℕ
  il = index_keys 0 [] cks

  parent_at-fragment : (n s : ℕ) (p : CommitId) → s < n → parent_at hf il n s p ≡ points hf s p
  parent_at-fragment n s p h = elim (Option-cases (Map.get il p)) [
    | inl miss ↦ ground (arith, miss, at-points hf s p)
    | inr (j, hit) ↦ ground (arith, hit, h, at-points hf s p)
  ]

  parent_at-commit :
      (s : ℕ) (p : CommitId) → parent_at hf il (length fks) (length fks + s) p ≡ points il s p
  unfolding points
  parent_at-commit s p =
      let none_there : at (Map.get hf p) (length fks + s) ≡ false =
        at-points hf (length fks + s) p ∙ points-beyond fks (length fks + s) p (omega arith) in
      elim (Option-cases (Map.get il p)) [
        | inl miss ↦ ground (arith, miss, none_there)
        | inr (j, hit) ↦ ground (arith, hit, none_there)
      ]

  pub any-parent_at_fragment :
      (n s : ℕ) (ps : List CommitId) → s < n → any (parent_at hf il n s) ps ≡ any (points hf s) ps
  any-parent_at_fragment n s [] h = refl
  any-parent_at_fragment n s (p ∷ ps) h =
      ground (arith, parent_at-fragment n s p h, any-parent_at_fragment n s ps h)

  pub any-parent_at_commit :
      (s : ℕ) (ps : List CommitId)
      → any (parent_at hf il (length fks) (length fks + s)) ps ≡ any (points il s) ps
  any-parent_at_commit s [] = refl
  any-parent_at_commit s (p ∷ ps) = ground (arith, parent_at-commit s p, any-parent_at_commit s ps)
