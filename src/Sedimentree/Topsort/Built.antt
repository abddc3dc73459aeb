-- ===== src/Sedimentree/Topsort/Built.antt =====
-- `topsorted_blob_order`: the edges that the first loops put into the vectors.
use subduction.Identity.{CommitId}
use subduction.LooseCommit.{LooseCommit}
use subduction.Fragment.{Fragment, head, boundary}
use subduction.Collections.Map
use subduction.Collections.Map.{Map}
use subduction.Collections.Set.{contains}
use subduction.Collections.Index.{points, index_keys}
use subduction.Sedimentree.Topsort.{
  Graph, empty, depend, boundary_edges, fragment_edges, depend_once, shift, parent_edges,
  commit_edges, graph_of,
}
use subduction.Sedimentree.Topsort.Release.{count}
use subduction.Sedimentree.Topsort.Loop.{Edges, open_in, between, has_edge, Represents}
use subduction.Prelude.{
  ℕ, suc, ◌+◌, ◌≡◌, refl, subst, inl, inr, Bool, true, false, ◌&&◌, ◌||◌, Option, none, some, List,
  [], ◌∷◌, ◌++◌, map, arith, ◌==◌, nat_eq, ==_iff, ==-refl, Bool-cases, Option-cases, length, any,
  bytes_eq, bytes_list_eq,
}

count-append : (xs ys : List ℕ) (i : ℕ) → count (xs ++ ys) i ≡ count xs i + count ys i
count-append [] ys i = omega arith
count-append (x ∷ xs) ys i = omega (arith, count-append xs ys i)

depend-Represents :
    (g : Graph) (es : Edges) (i j : ℕ) → Represents g es → Represents (depend g i j) ((j, i) ∷ es)
unfolding depend open_in between contains
depend-Represents g es i j r = record {
  degrees = λ k. ground (arith, r.degrees k);
  lists = λ u k. ground (arith, r.lists u k, count-append (g.dependents u) (i ∷ []) k);
}

empty-Represents : Represents empty []
unfolding empty open_in between
empty-Represents = record { degrees = λ i. refl; lists = λ u i. refl }

-- The vectors hold the edges from before, and those that a test tells.
abbrev Adds : Graph → Edges → (ℕ → ℕ → Bool) → Type 0
Adds g es new =
    (es' : Edges) × Represents g es' × ((s t : ℕ) → has_edge es' s t ≡ (has_edge es s t || new s t))

boundary_edges-Adds :
    (m : Map CommitId ℕ) (i : ℕ) (ds : List CommitId) (g : Graph) (es : Edges)
    → Represents g es
    → Adds (boundary_edges m i ds g) es (λ s t. i == t && any (points m s) ds)
unfolding boundary_edges points
boundary_edges-Adds m i [] g es r = (es, r, λ s t. ground arith)
boundary_edges-Adds m i (d ∷ ds) g es r = elim (Option-cases (Map.get m d)) [
  | inl miss ↦
      let (es', r', e) = boundary_edges-Adds m i ds g es r in
      rw (miss, boundary_edges) (es', r', λ s t. ground (arith, e s t, miss))
  | inr (j, hit) ↦
      let (es', r', e) =
        boundary_edges-Adds m i ds (depend g i j) ((j, i) ∷ es) (depend-Represents g es i j r) in
      rw (hit, boundary_edges) (es', r', λ s t. ground (arith, e s t, hit))
]

-- A fragment of the list, which stands from an index on, has the boundary.
abbrev pub fragment_dep : Map CommitId ℕ → ℕ → List Fragment → ℕ → ℕ → Bool
fragment_dep m i [] s t = false
fragment_dep m i (f ∷ fs) s t =
    (i == t && any (points m s) (boundary f)) || fragment_dep m (suc i) fs s t

fragment_edges-Adds :
    (m : Map CommitId ℕ) (i : ℕ) (fs : List Fragment) (g : Graph) (es : Edges)
    → Represents g es
    → Adds (fragment_edges m i fs g) es (fragment_dep m i fs)
unfolding fragment_edges
fragment_edges-Adds m i [] g es r = (es, r, λ s t. ground arith)
fragment_edges-Adds m i (f ∷ fs) g es r =
    let (es', r', e) = boundary_edges-Adds m i (boundary f) g es r in
    let (es'', r'', e') =
      fragment_edges-Adds m (suc i) fs (boundary_edges m i (boundary f) g) es' r' in
    (es'', r'', λ s t. ground (arith, e s t, e' s t))

abbrev pub at : Option ℕ → ℕ → Bool
at none s = false
at (some j) s = j == s

-- What was seen for a commit is an edge to it.
abbrev Seen : List ℕ → Edges → ℕ → Type 0
Seen seen es idx = (j : ℕ) → contains seen j ≡ true → has_edge es j idx ≡ true

abbrev AddsOnce : Graph × List ℕ → Edges → ℕ → (ℕ → Bool) → Type 0
AddsOnce state es idx new =
    (es' : Edges) × Represents state.0 es'
    × ((s t : ℕ) → has_edge es' s t ≡ (has_edge es s t || (idx == t && new s)))
    × Seen state.1 es' idx

old_edge :
    (es : Edges) (idx j s t : ℕ)
    → has_edge es j idx ≡ true
    → has_edge es s t ≡ (has_edge es s t || (idx == t && (j == s)))
old_edge es idx j s t h = elim (Bool-cases (idx == t && (j == s))) [
  | inl both ↦
      let there : has_edge es s t ≡ true =
        subst (λ x. has_edge es x t ≡ true) ((==_iff j s).0 (ground (arith, both)))
          (subst (λ x. has_edge es j x ≡ true) ((==_iff idx t).0 (ground (arith, both))) h) in
      ground (arith, there)
  | inr miss ↦ ground (arith, miss)
]

depend_once-Adds :
    (idx : ℕ) (o : Option ℕ) (g : Graph) (seen : List ℕ) (es : Edges)
    → Represents g es
    → Seen seen es idx
    → AddsOnce (depend_once idx o (g, seen)) es idx (at o)
unfolding depend_once
depend_once-Adds idx none g seen es r inside = (es, r, λ s t. ground arith, inside)
depend_once-Adds idx (some j) g seen es r inside = elim (Bool-cases (contains seen j)) [
  | inl old ↦ rw (old, depend_once) (es, r, λ s t. old_edge es idx j s t (inside j old), inside)
  | inr new ↦
      rw (new, depend_once)
        (
          (j, idx) ∷ es,
          depend-Represents g es idx j r,
          λ s t. ground arith,
          λ k m. unfold contains in ground (arith, m, inside k, ==-refl idx),
        )
]

-- A parent stands for the number, as a fragment's head or as a commit.
abbrev pub parent_at : Map CommitId ℕ → Map CommitId ℕ → ℕ → ℕ → CommitId → Bool
parent_at hf il n s p = at (Map.get hf p) s || at (shift n (Map.get il p)) s

parent_edges-Adds :
    (hf il : Map CommitId ℕ) (n idx : ℕ) (ps : List CommitId) (g : Graph) (seen : List ℕ)
    (es : Edges)
    → Represents g es
    → Seen seen es idx
    → AddsOnce (parent_edges hf il n idx ps (g, seen)) es idx (λ s. any (parent_at hf il n s) ps)
unfolding parent_edges
parent_edges-Adds hf il n idx [] g seen es r inside = (es, r, λ s t. ground arith, inside)
parent_edges-Adds hf il n idx (p ∷ ps) g seen es r inside =
    let first = depend_once idx (Map.get hf p) (g, seen) in
    let (es1, r1, e1, i1) = depend_once-Adds idx (Map.get hf p) g seen es r inside in
    let second = depend_once idx (shift n (Map.get il p)) first in
    let (es2, r2, e2, i2) =
      depend_once-Adds idx (shift n (Map.get il p)) first.0 first.1 es1 r1 i1 in
    let (es3, r3, e3, i3) = parent_edges-Adds hf il n idx ps second.0 second.1 es2 r2 i2 in
    (es3, r3, λ s t. ground (arith, e1 s t, e2 s t, e3 s t), i3)

abbrev pub commit_dep : Map CommitId ℕ → Map CommitId ℕ → ℕ → ℕ → List LooseCommit → ℕ → ℕ → Bool
commit_dep hf il n li [] s t = false
commit_dep hf il n li (c ∷ cs) s t =
    (n + li == t && any (parent_at hf il n s) c.parents) || commit_dep hf il n (suc li) cs s t

commit_edges-Adds :
    (hf il : Map CommitId ℕ) (n li : ℕ) (cs : List LooseCommit) (g : Graph) (es : Edges)
    → Represents g es
    → Adds (commit_edges hf il n li cs g) es (commit_dep hf il n li cs)
unfolding commit_edges
commit_edges-Adds hf il n li [] g es r = (es, r, λ s t. ground arith)
commit_edges-Adds hf il n li (c ∷ cs) g es r =
    let (es1, r1, e1, _) =
      parent_edges-Adds hf il n (n + li) c.parents g [] es r (λ j m. unfold contains in cc) in
    let (es2, r2, e2) =
      commit_edges-Adds hf il n (suc li) cs (parent_edges hf il n (n + li) c.parents (g, [])).0 es1
        r1 in
    (es2, r2, λ s t. ground (arith, e1 s t, e2 s t))

-- The vectors of a tree, as edges.
pub graph_of-Represents :
    (fs : List Fragment) (cs : List LooseCommit)
    → (es : Edges) × Represents (graph_of fs cs) es
      × ((s t : ℕ)
          → has_edge es s t ≡ (
              fragment_dep (index_keys 0 [] (map head fs)) 0 fs s t
              || commit_dep
                  (index_keys 0 [] (map head fs))
                  (index_keys 0 [] (map (λ c. c.head) cs))
                  (length fs)
                  0
                  cs
                  s
                  t))
unfolding graph_of
graph_of-Represents fs cs =
    let hf = index_keys 0 [] (map head fs) in
    let il = index_keys 0 [] (map (λ (c : LooseCommit). c.head) cs) in
    let (es1, r1, e1) = fragment_edges-Adds hf 0 fs empty [] empty-Represents in
    let (es2, r2, e2) =
      commit_edges-Adds hf il (length fs) 0 cs (fragment_edges hf 0 fs empty) es1 r1 in
    (es2, r2, λ s t. ground (arith, e1 s t, e2 s t))
