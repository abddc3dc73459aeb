-- ===== src/Sedimentree/Minimized.antt =====
-- sedimentree_core/src/sedimentree/minimized.rs: a tree that knows whether it may not be minimal.
pub mod Lazy
use subduction.Identity.{CommitId}
use subduction.LooseCommit.{LooseCommit}
use subduction.Fragment.{Fragment}
use subduction.Depth.{DepthMetric}
use subduction.Sedimentree
use subduction.Sedimentree.{Sedimentree, Digests}
use subduction.Sedimentree.Heads.{heads_assuming_minimal}
use subduction.Sedimentree.KeepSets.{minimize_in_place}
use subduction.Prelude.{
  ℕ, zero, suc, ◌+◌, ◌-◌, ◌*◌, ◌/◌, ◌%◌, ◌^◌, ◌≤◌, ◌<◌, min, ◌≡◌, refl, sym, ap, ◌∙◌, subst, ◌≢◌,
  ◌↔◌, ◌⊎◌, inl, inr, Bool, true, false, not, ◌&&◌, ◌||◌, Option, none, some, List, [], ◌∷◌, ◌++◌,
  map, append_assoc, append-nil, arith, dec_lt, dec_le, ℕ_discrete, ltb, leb, if◌then◌else◌, Eq,
  ◌==◌, nat_eq, ==_iff, ==-refl, Bool-cases, Option-cases, length, take, drop, get_elem?, filter,
  any, all, All, length-append, take-append, drop-append, Bytes, IsByte, IsArray, bytes_eq,
  Bytes-discrete, bytes_ltb, bytes_ltb_irrefl, bytes_ltb_trans, bytes_ltb-total, bytes_ltb-asymm,
  take-append-drop, length-take, length-drop, All-append, All-drop, zero-add, add-zero, suc-add,
  add_assoc, add_comm, ltb_of_le, ltb_of_lt, le_of_ltb, lt_of_ltb, length-drop_fits, drop-drop,
  add-one, list_discrete, bytes_list_eq, filter_none, List-cases, All-imp, All-snoc, append-All,
}

pub record MinimizedSedimentree : Type 0 where
  pub tree : Sedimentree
  pub dirty : Bool

unfoldable pub new : Sedimentree → MinimizedSedimentree
new tree = record { tree = tree; dirty = true }

unfoldable pub already_minimal : Sedimentree → MinimizedSedimentree
already_minimal tree = record { tree = tree; dirty = false }

unfoldable pub default : MinimizedSedimentree
default = record { tree = Sedimentree.default; dirty = false }

unfoldable pub is_dirty : MinimizedSedimentree → Bool
is_dirty self = self.dirty

unfoldable pub into_tree : MinimizedSedimentree → Sedimentree
into_tree self = self.tree

module _ (digests : Digests) where
  unfoldable pub add_commit : MinimizedSedimentree → LooseCommit → MinimizedSedimentree × Bool
  add_commit self commit =
      let (tree, added) = Sedimentree.add_commit digests self.tree commit in
      (record { tree = tree; dirty = true }, added)

  unfoldable pub add_fragment : MinimizedSedimentree → Fragment → MinimizedSedimentree × Bool
  add_fragment self fragment =
      let (tree, added) = Sedimentree.add_fragment digests self.tree fragment in
      (record { tree = tree; dirty = true }, added)

  unfoldable pub merge : MinimizedSedimentree → Sedimentree → MinimizedSedimentree
  merge self other = record { tree = Sedimentree.merge digests self.tree other; dirty = true }

module _ (metric : DepthMetric) where
  -- `none` is the panic of `minimize_in_place`.
  unfoldable pub ensure_minimized : MinimizedSedimentree → Option MinimizedSedimentree
  ensure_minimized self =
      if self.dirty
      then (elim (minimize_in_place metric self.tree) [
        | none ↦ none
        | some tree ↦ some (record { tree = tree; dirty = false })
      ])
      else some self

  unfoldable pub minimized : MinimizedSedimentree → Option (MinimizedSedimentree × Sedimentree)
  minimized self = elim (ensure_minimized self) [ none ↦ none | some s ↦ some (s, s.tree) ]

  unfoldable pub heads : MinimizedSedimentree → Option (MinimizedSedimentree × List CommitId)
  heads self = elim (ensure_minimized self) [
    | none ↦ none
    | some s ↦ some (s, heads_assuming_minimal s.tree)
  ]
