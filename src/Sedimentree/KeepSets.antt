-- ===== src/Sedimentree/KeepSets.antt =====
-- `keep_sets`, `minimize`, `minimize_in_place` and `heads` of sedimentree.rs. `none` is the panic of
-- commit_dag.rs.
pub mod Agree
pub mod Fragments
pub mod Commits
pub mod Again
use subduction.Identity.{CommitId}
use subduction.LooseCommit.{LooseCommit}
use subduction.Depth.{DepthMetric}
use subduction.Fragment.{Fragment, head}
use subduction.Collections.Map.{values, retain_keys}
use subduction.Collections.Set.{contains, from_iter}
use subduction.CommitDag.{from_commits}
use subduction.CommitDag.Simplify.{simplify}
use subduction.Sedimentree.{Sedimentree, Digests, new}
use subduction.Sedimentree.Minimize.{minimized_fragments}
use subduction.Sedimentree.Heads.{heads_assuming_minimal}
use subduction.Prelude.{
  ℕ, zero, suc, ◌+◌, ◌-◌, ◌*◌, ◌/◌, ◌%◌, ◌^◌, ◌≤◌, ◌<◌, min, ◌≡◌, refl, sym, ap, ◌∙◌, subst, ◌≢◌,
  ◌↔◌, ◌⊎◌, inl, inr, Bool, true, false, not, ◌&&◌, ◌||◌, Option, none, some, List, [], ◌∷◌, ◌++◌,
  map, append_assoc, append-nil, arith, dec_lt, dec_le, ℕ_discrete, ltb, leb, if◌then◌else◌, Eq,
  ◌==◌, nat_eq, ==_iff, ==-refl, Bool-cases, Option-cases, length, take, drop, get_elem?, filter,
  any, all, All, length-append, take-append, drop-append, Bytes, IsByte, IsArray, bytes_eq,
  Bytes-discrete, bytes_ltb, bytes_ltb_irrefl, bytes_ltb_trans, bytes_ltb-total, bytes_ltb-asymm,
  take-append-drop, length-take, length-drop, All-append, All-drop, zero-add, add-zero, suc-add,
  add_assoc, add_comm, ltb_of_le, ltb_of_lt, le_of_ltb, lt_of_ltb, length-drop_fits, drop-drop,
  add-one, list_discrete, bytes_list_eq, filter_none, List-cases, All-imp, All-snoc, append-All,
}

pub record KeepSets : Type 0 where
  pub fragment_heads : List CommitId
  pub commit_heads : List CommitId

module _ (metric : DepthMetric) where
  unfoldable pub keep_sets : Sedimentree → Option KeepSets
  keep_sets self =
      let minimized = minimized_fragments metric self in
      elim (from_commits (values self.commits)) [
        | none ↦ none
        | some dag ↦ elim (simplify dag minimized metric) [
          | none ↦ none
          | some commit_heads ↦ some (record {
            fragment_heads = from_iter (map head minimized);
            commit_heads = commit_heads;
          })
        ]
      ]

  unfoldable pub minimize : Digests → Sedimentree → Option Sedimentree
  minimize digests self = elim (keep_sets self) [
    | none ↦ none
    | some sets ↦ some (
        new digests (filter (λ f. contains sets.fragment_heads (head f)) (values self.fragments))
          (filter (λ c. contains sets.commit_heads c.head) (values self.commits)))
  ]

  unfoldable pub minimize_in_place : Sedimentree → Option Sedimentree
  minimize_in_place self = elim (keep_sets self) [
    | none ↦ none
    | some sets ↦ some (record {
      fragments = retain_keys (contains sets.fragment_heads) self.fragments;
      commits = retain_keys (contains sets.commit_heads) self.commits;
    })
  ]

  unfoldable pub heads : Digests → Sedimentree → Option (List CommitId)
  heads digests self = elim (minimize digests self) [
    | none ↦ none
    | some minimal ↦ some (heads_assuming_minimal minimal)
  ]
