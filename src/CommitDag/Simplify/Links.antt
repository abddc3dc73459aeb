-- ===== src/CommitDag/Simplify/Links.antt =====
-- commit_dag.rs: the graph that `from_commits` builds, by identifiers. With no identifier twice, the
-- nodes are the commits, and the edges join a commit to its parents among the commits.
use subduction.Identity.{CommitId}
use subduction.LooseCommit.{LooseCommit}
use subduction.Collections.Map
use subduction.Collections.Map.{contains_key, Map, get-insert}
use subduction.Collections.Set.{contains}
use subduction.CommitDag.{index_from}
use subduction.CommitDag.Chains.{targets_from, Pairs, sources_to}
use subduction.CommitDag.Graph.{index_from-all, index_of, bare, parent_pairs, commit_pairs}
use subduction.Collections.Index.{
  index_keys, Distinct, nth, points, points-eq, any-points, index-inv,
}
use subduction.Prelude.{
  All, ℕ, suc, ◌<◌, ◌≡◌, refl, sym, ap, ◌∙◌, inl, inr, Bool, true, false, ◌&&◌, ◌||◌, some, List,
  [], ◌∷◌, map, arith, ◌==◌, nat_eq, Option-cases, length, any, bytes_eq, bytes_list_eq,
}

abbrev pub heads : List LooseCommit → List CommitId
heads cs = map (λ c. c.head) cs

-- Some commit has the parent, and some commit of an identifier has it.
abbrev pub has_child : List LooseCommit → CommitId → Bool
has_child cs id = any (λ c. contains c.parents id) cs

abbrev pub is_parent : List LooseCommit → CommitId → CommitId → Bool
is_parent cs parent id = any (λ c. c.head == id && contains c.parents parent) cs

length-heads : (cs : List LooseCommit) → length (heads cs) ≡ length cs
length-heads [] = refl
length-heads (c ∷ cs) = ap suc (length-heads cs)

index_from-keys :
    (cs : List LooseCommit) (i : ℕ) (m : Map CommitId ℕ)
    → index_from i m (map bare cs) ≡ index_keys i m (heads cs)
unfolding index_from index_keys
index_from-keys [] i m = refl
index_from-keys (c ∷ cs) i m = index_from-keys cs (suc i) (Map.insert m c.head i)

-- The edges by indices.
contains-parent_pairs :
    (m : Map CommitId ℕ) (child s t : ℕ) (ps : List CommitId) (es : Pairs)
    → contains (sources_to t (parent_pairs m child ps es)) s
      ≡ (contains (sources_to t es) s || (child == t && any (points m s) ps))
unfolding contains points
contains-parent_pairs m child s t [] es = ground arith
contains-parent_pairs m child s t (p ∷ ps) es = elim (Option-cases (Map.get m p)) [
  | inl miss ↦ ground (arith, miss, contains-parent_pairs m child s t ps es)
  | inr (i, hit) ↦ ground (arith, hit, contains-parent_pairs m child s t ps ((i, child) ∷ es))
]

contains-commit_pairs :
    (m : Map CommitId ℕ) (s t : ℕ) (cs : List LooseCommit) (es : Pairs)
    → contains (sources_to t (commit_pairs m cs es)) s ≡ (
        contains (sources_to t es) s
        || any (λ c. points m t c.head && any (points m s) c.parents) cs)
unfolding points
contains-commit_pairs m s t [] es = ground arith
contains-commit_pairs m s t (c ∷ cs) es = elim (Option-cases (Map.get m c.head)) [
  | inl miss ↦ ground (arith, miss, contains-commit_pairs m s t cs es)
  | inr (i, hit) ↦ ground (
    arith,
    hit,
    contains-commit_pairs m s t cs (parent_pairs m i c.parents es),
    contains-parent_pairs m i s t c.parents es,
  )
]

abbrev pub filled : List ℕ → Bool
filled [] = false
filled (x ∷ xs) = true

filled-parent_pairs :
    (m : Map CommitId ℕ) (child s : ℕ) (ps : List CommitId) (es : Pairs)
    → filled (targets_from s (parent_pairs m child ps es))
      ≡ (filled (targets_from s es) || any (points m s) ps)
unfolding points
filled-parent_pairs m child s [] es = ground arith
filled-parent_pairs m child s (p ∷ ps) es = elim (Option-cases (Map.get m p)) [
  | inl miss ↦ ground (arith, miss, filled-parent_pairs m child s ps es)
  | inr (i, hit) ↦ ground (arith, hit, filled-parent_pairs m child s ps ((i, child) ∷ es))
]

filled-commit_pairs :
    (m : Map CommitId ℕ) (s : ℕ) (cs : List LooseCommit) (es : Pairs)
    → All (λ (c : LooseCommit). contains_key m c.head ≡ true) cs
    → filled (targets_from s (commit_pairs m cs es))
      ≡ (filled (targets_from s es) || any (λ c. any (points m s) c.parents) cs)
filled-commit_pairs m s [] es known = ground arith
filled-commit_pairs m s (c ∷ cs) es known = elim (Option-cases (Map.get m c.head)) [
  | inl miss ↦ absurd (ground (arith, known.0, miss))
  | inr (i, hit) ↦ ground (
    arith,
    hit,
    filled-commit_pairs m s cs (parent_pairs m i c.parents es) known.1,
    filled-parent_pairs m i s c.parents es,
  )
]

pub any_ext {ℓ} :
    {A : Type ℓ} (f g : A → Bool) (xs : List A) → ((x : A) → f x ≡ g x) → any f xs ≡ any g xs
any_ext f g [] h = refl
any_ext f g (x ∷ xs) h = ground (arith, h x, any_ext f g xs h)

sources_to-within :
    (n : ℕ) (m : Map CommitId ℕ)
    → ((id : CommitId) (i : ℕ) → Map.get m id ≡ some i → i < n)
    → (cs : List LooseCommit) (t : ℕ) (es : Pairs) → All (λ s. s < n) (sources_to t es)
    → All (λ s. s < n) (sources_to t (commit_pairs m cs es))
sources_to-within n m below [] t es h = h
sources_to-within n m below (c ∷ cs) t es h = elim (Option-cases (Map.get m c.head)) [
  | inl miss ↦ rw (miss, commit_pairs) (sources_to-within n m below cs t es h)
  | inr (i, hit) ↦
      rw (hit, commit_pairs)
        (sources_to-within n m below cs t (parent_pairs m i c.parents es) (row i c.parents es h))
]
  where
    row :
        (i : ℕ) (ps : List CommitId) (es : Pairs)
        → All (λ s. s < n) (sources_to t es)
        → All (λ s. s < n) (sources_to t (parent_pairs m i ps es))
    row i [] es h = h
    row i (p ∷ ps) es h = elim (Option-cases (Map.get m p)) [
      | inl miss ↦ rw (miss, parent_pairs) (row i ps es h)
      | inr (j, hit) ↦
          rw (hit, parent_pairs) (row i ps ((j, i) ∷ es) (ground (arith, h, below p j hit)))
    ]

module _ (cs : List LooseCommit) (distinct : Distinct (heads cs)) where
  abbrev edges : Pairs
  edges = commit_pairs (index_of cs) cs []

  any-index :
      (s : ℕ) (ps : List CommitId)
      → s < length cs
      → any (points (index_of cs) s) ps ≡ contains ps (nth (heads cs) s)
  any-index s ps ls =
      rw (index_from-keys cs 0 [])
        (any-points (heads cs) distinct s ps (omega (arith, ls, length-heads cs)))

  index-eq :
      (s : ℕ) (p : CommitId) → s < length cs → points (index_of cs) s p ≡ (p == nth (heads cs) s)
  index-eq s p ls =
      rw (index_from-keys cs 0 [])
        (points-eq (heads cs) distinct s p (omega (arith, ls, length-heads cs)))

  pub contains-sources_to :
      (s t : ℕ)
      → s < length cs
      → t < length cs
      → contains (sources_to t edges) s ≡ is_parent cs (nth (heads cs) s) (nth (heads cs) t)
  contains-sources_to s t ls lt =
      contains-commit_pairs (index_of cs) s t cs []
      ∙ (unfold contains in
          any_ext
            (λ (c : LooseCommit).
              points (index_of cs) t c.head && any (points (index_of cs) s) c.parents)
            (λ c. c.head == nth (heads cs) t && contains c.parents (nth (heads cs) s)) cs
            (λ c. ground (arith, index-eq t c.head lt, any-index s c.parents ls)))

  pub filled-targets_from :
      (s : ℕ) → s < length cs → filled (targets_from s edges) ≡ has_child cs (nth (heads cs) s)
  filled-targets_from s ls =
      filled-commit_pairs (index_of cs) s cs [] (index_from-all cs 0 [])
      ∙ any_ext (λ (c : LooseCommit). any (points (index_of cs) s) c.parents)
          (λ c. contains c.parents (nth (heads cs) s)) cs (λ c. any-index s c.parents ls)

pub sources-within :
    (cs : List LooseCommit) (t : ℕ)
    → All (λ s. s < length cs) (sources_to t (commit_pairs (index_of cs) cs []))
sources-within cs t =
    sources_to-within (length cs) (index_of cs)
      (λ id i found. omega (
        arith,
        length-heads cs,
        (index-inv (heads cs) id i
            (sym (ap (λ m. Map.get m id) (index_from-keys cs 0 [])) ∙ found)).1,
      ))
      cs t [] tt
