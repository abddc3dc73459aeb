-- ===== src/Sedimentree/Minimized/Lazy.antt =====
-- minimized.rs: minimizing late gives what minimizing at once gives.
use subduction.Identity.{CommitId}
use subduction.LooseCommit.{LooseCommit}
use subduction.Fragment.{Fragment}
use subduction.Depth.{DepthMetric}
use subduction.Collections.Map.{values}
use subduction.CommitDag.Simplify.Links.{is_parent}
use subduction.Sedimentree.{Sedimentree, Digests}
use subduction.Sedimentree.Merge.{IsValid, merge-IsValid}
use subduction.Sedimentree.Insert.{add-IsValid}
use subduction.Sedimentree.Insert
use subduction.Sedimentree.Heads.{heads_assuming_minimal}
use subduction.Sedimentree.KeepSets.{minimize, minimize_in_place}
use subduction.Sedimentree.KeepSets
use subduction.Sedimentree.KeepSets.Agree.{minimize-minimize_in_place}
use subduction.Sedimentree.KeepSets.Again.{minimize_in_place-again}
use subduction.Sedimentree.Minimized.{
  MinimizedSedimentree, new, already_minimal, add_commit, add_fragment, merge, ensure_minimized,
  heads,
}
use subduction.Prelude.{
  ℕ, ◌<◌, ◌≡◌, refl, subst, inl, inr, true, false, some, List, arith, nat_eq, Bool-cases, bytes_eq,
  bytes_list_eq,
}

-- Some rank grows from each loose commit to its parents: no commit is its own ancestor.
abbrev pub Ranked : Sedimentree → (CommitId → ℕ) → Type 0
Ranked t rank =
    (parent id : CommitId) → is_parent (values t.commits) parent id ≡ true → rank id < rank parent

module _ (digests : Digests) (metric : DepthMetric) where
  -- The states that the operations lead to, from a well-formed tree, with well-formed trees merged
  -- in, and with no cycle among the loose commits when the tree is minimized.
  pub data Run : MinimizedSedimentree → Type 0 where
    wrapped : (t : Sedimentree) → IsValid digests t → Run (new t)
    minimal :
        (t : Sedimentree)
        → IsValid digests t
        → minimize_in_place metric t ≡ some t
        → Run (already_minimal t)
    commit : {s : MinimizedSedimentree} → Run s → (c : LooseCommit) → Run (add_commit digests s c).0
    fragment :
        {s : MinimizedSedimentree} → Run s → (f : Fragment) → Run (add_fragment digests s f).0
    merged :
        {s : MinimizedSedimentree}
        → Run s
        → (t : Sedimentree) → IsValid digests t
        → Run (merge digests s t)
    ensured :
        {s s' : MinimizedSedimentree}
        → Run s
        → (rank : CommitId → ℕ) → Ranked s.tree rank
        → ensure_minimized metric s ≡ some s'
        → Run s'

  -- A tree that is not dirty is minimal.
  record IsLazy (s : MinimizedSedimentree) : Type 0 where
    valid : IsValid digests s.tree
    clean : s.dirty ≡ false → minimize_in_place metric s.tree ≡ some s.tree

  ensured-IsLazy :
      (s s' : MinimizedSedimentree) (rank : CommitId → ℕ)
      → Ranked s.tree rank
      → ensure_minimized metric s ≡ some s'
      → IsLazy s
      → IsLazy s' × (s'.dirty ≡ false)
  unfolding ensure_minimized
  ensured-IsLazy s s' rank ranked h lazy =
      let (t, _, e, valid) = minimize-minimize_in_place digests metric s.tree lazy.valid in
      elim (Bool-cases s.dirty) [
        | inl dirty ↦
            let q : record { tree = t; dirty = false } ≡ s' = ground (arith, h, dirty, e) in
            subst (λ x. IsLazy x × (x.dirty ≡ false)) q
              (
                record {
                  valid = valid;
                  clean =
                      λ _. minimize_in_place-again digests metric s.tree lazy.valid rank ranked t e;
                },
                refl,
              )
        | inr clean ↦
            let q : s ≡ s' = ground (arith, h, clean) in
            subst (λ x. IsLazy x × (x.dirty ≡ false)) q (lazy, clean)
      ]

  Run-IsLazy : {s : MinimizedSedimentree} → Run s → IsLazy s
  unfolding new already_minimal add_commit add_fragment merge
  Run-IsLazy (wrapped t v) = record { valid = v; clean = λ h. cc }
  Run-IsLazy (minimal t v e) = record { valid = v; clean = λ _. e }
  Run-IsLazy (commit {s} r c) = record {
    valid = add-IsValid digests s.tree (Insert.commit c) (Run-IsLazy r).valid;
    clean = λ h. cc;
  }
  Run-IsLazy (fragment {s} r f) = record {
    valid = add-IsValid digests s.tree (Insert.fragment f) (Run-IsLazy r).valid;
    clean = λ h. cc;
  }
  Run-IsLazy (merged {s} r t v) = record {
    valid = merge-IsValid digests s.tree t (Run-IsLazy r).valid v;
    clean = λ h. cc;
  }
  Run-IsLazy (ensured {s} {s'} r rank ranked h) =
      (ensured-IsLazy s s' rank ranked h (Run-IsLazy r)).0

  -- In every state that the operations lead to (trees that are well-formed, and no cycle among the
  -- loose commits when they are minimized), the heads of the wrapper are the heads of its tree, as
  -- `Sedimentree::heads` computes them by minimizing a copy, whether or not the wrapper minimizes
  -- now. Neither call panics, and the wrapper is not dirty afterwards.
  pub heads-heads :
      (s : MinimizedSedimentree)
      → Run s
      → (s' : MinimizedSedimentree) × (hs : List CommitId) × (heads metric s ≡ some (s', hs))
        × (KeepSets.heads metric digests s.tree ≡ some hs)
        × (s'.dirty ≡ false)
  unfolding heads ensure_minimized KeepSets.heads
  heads-heads s run =
      let lazy = Run-IsLazy run in
      let (t, e, e', _) = minimize-minimize_in_place digests metric s.tree lazy.valid in
      elim (Bool-cases s.dirty) [
        | inl dirty ↦ (
          record { tree = t; dirty = false },
          heads_assuming_minimal t,
          ground (arith, dirty, e'),
          ground (arith, e),
          refl,
        )
        | inr clean ↦
            let same : t ≡ s.tree = cc (e', lazy.clean clean) in
            (
              s,
              heads_assuming_minimal s.tree,
              ground (arith, clean),
              ground (arith, e, same),
              clean,
            )
      ]
