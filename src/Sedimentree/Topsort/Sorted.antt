-- ===== src/Sedimentree/Topsort/Sorted.antt =====
-- `topsorted_blob_order`: what it returns, of a well-formed tree.
use subduction.Identity.{CommitId}
use subduction.LooseCommit.{LooseCommit}
use subduction.Fragment.{Fragment, head}
use subduction.Codec.{Result, ok, err}
use subduction.Collections.Map
use subduction.Collections.Map.{Map, values}
use subduction.Collections.Set.{contains}
use subduction.Collections.Index.{Distinct}
use subduction.Collections.Members.{In, All-In}
use subduction.Sedimentree.{Sedimentree, Digests}
use subduction.Sedimentree.Tiebreak.{Distinct as DistinctKeys}
use subduction.Sedimentree.Merge.{Keyed, IsValid}
use subduction.Sedimentree.Topsort.{
  SedimentreeItem, fragment, loose_commit, CycleError, Graph, item, ready, kahn, graph_of,
  topsorted_blob_order,
}
use subduction.Sedimentree.Topsort.Counting.{length-le}
use subduction.Sedimentree.Topsort.Loop.{has_edge, kahn-Inv}
use subduction.Sedimentree.Topsort.Built.{graph_of-Represents}
use subduction.Sedimentree.Topsort.Depends.{fragment_heads, commit_heads, depends_on}
use subduction.Sedimentree.Topsort.Left.{start-Inv}
use subduction.Sedimentree.Topsort.Items.{IsItem, n_total, dep_within}
use subduction.Sedimentree.Topsort.Outcome.{
  IsSorted, IsStuck, IsPartial, IsOutcome, ordered_all, stuck_some,
}
use subduction.Prelude.{
  ℕ, zero, suc, ◌≤◌, ◌<◌, ◌≡◌, refl, sym, ◌∙◌, subst, inl, inr, true, false, none, some, List, [],
  ◌∷◌, map, append-nil, arith, ◌==◌, nat_eq, ==_iff, Bool-cases, length, all, All, Bytes, bytes_eq,
  bytes_list_eq, length-map,
}

module _ {V : Type 0} (hash : V → Bytes) (key_of : V → CommitId) where
  key_of-fresh :
      (m : Map CommitId V) (k : CommitId)
      → Keyed hash key_of m
      → Map.get m k ≡ none
      → contains (map key_of (values m)) k ≡ false
  unfolding Map.get contains
  key_of-fresh [] k h miss = refl
  key_of-fresh ((j, v) ∷ m) k h miss = ground (arith, h.0, miss, key_of-fresh m k h.1)

  keys-Distinct :
      (m : Map CommitId V)
      → DistinctKeys hash m
      → Keyed hash key_of m
      → Distinct (map key_of (values m))
  keys-Distinct [] d h = tt
  keys-Distinct ((k, v) ∷ m) d h = (rw h.0 (key_of-fresh m k h.1 d.0), keys-Distinct m d.1 h.1)

nil-IsItem : (x : SedimentreeItem) → ¬ (IsItem [] [] x)
nil-IsItem (fragment i) h = omega (arith, h)
nil-IsItem (loose_commit i) h = omega (arith, h)

no_items : (fs : List Fragment) (cs : List LooseCommit) → n_total fs cs ≡ 0 → IsSorted fs cs []
no_items [] [] e = record {
  items = tt;
  every = λ x hx. absurd (nil-IsItem x hx);
  once = refl;
  behind = tt;
}
no_items [] (c ∷ cs) e = absurd (omega (arith, e))
no_items (f ∷ fs) cs e = absurd (omega (arith, e))

module _ (fs : List Fragment) (cs : List LooseCommit) (once_f : Distinct (fragment_heads fs))
    (once_c : Distinct (commit_heads cs)) where
  abbrev g : Graph
  g = graph_of fs cs

  abbrev n : ℕ
  n = n_total fs cs

  -- The loop's answer, in items.
  sorted :
      (order : List SedimentreeItem) × (kahn
          (length fs)
          g.dependents
          n
          g.in_degree
          (ready g.in_degree 0 n)
          []
        ≡ some order)
      × (length order ≤ n)
      × (length order ≡ n → IsSorted fs cs order)
      × (¬ (length order ≡ n)
          → (x : SedimentreeItem) × (stuck : List SedimentreeItem) × IsPartial fs cs order
              (x ∷ stuck))
  sorted =
      let (es, r, edges) = graph_of-Represents fs cs in
      let within : (s t : ℕ) → has_edge es s t ≡ true → (s < n) × (t < n) =
        λ s t h. dep_within fs cs s t (sym (edges s t) ∙ h) in
      let (inside, v0) = start-Inv n es g r within in
      let (order, deg, e, v) =
        kahn-Inv n es inside (length fs) g.dependents r.lists n [] (ready g.in_degree 0 n)
          g.in_degree (omega arith) v0 in
      let once' : Distinct order = subst Distinct (append-nil order) v.once in
      let below' : All (λ i. i < n) order = subst (All (λ i. i < n)) (append-nil order) v.below in
      let same : length (map (item (length fs)) order) ≡ length order =
        length-map (item (length fs)) order in
      (
        map (item (length fs)) order,
        e,
        omega (arith, same, length-le n order once' below'),
        λ full. ordered_all fs cs once_f once_c es edges inside order deg v (sym same ∙ full),
        λ short.
            stuck_some fs cs once_f once_c es edges inside order deg v
              (λ full. short (same ∙ full)),
      )

module _ (digests : Digests) (t : Sedimentree) (valid : IsValid digests t) where
  abbrev fragments : List Fragment
  fragments = values t.fragments

  abbrev loose : List LooseCommit
  loose = values t.commits

  -- Of a well-formed tree, `topsorted_blob_order` ends, and returns either all items once each, every
  -- item behind the items that it depends on, or the error with two counts: the number of all items,
  -- and the smaller number of those that can be put in such an order, while all others, as many as
  -- are missing, each depend on one of the others.
  pub topsorted_blob_order_lem :
      (r : Result CycleError (List SedimentreeItem)) × (topsorted_blob_order t ≡ some r)
      × IsOutcome fragments loose r
  unfolding topsorted_blob_order
  topsorted_blob_order_lem =
      let (order, e, le, full, short) =
        sorted fragments loose
          (keys-Distinct digests.fragment head t.fragments valid.fragments_distinct
            valid.fragments_keyed)
          (keys-Distinct digests.commit (λ c. c.head) t.commits valid.commits_distinct
            valid.commits_keyed) in
      let n = n_total fragments loose in
      elim (Bool-cases (n == 0)) [
        | inl zeroed ↦ (
          ok [],
          rw (zeroed, topsorted_blob_order) refl,
          no_items fragments loose ((==_iff n 0).0 zeroed),
        )
        | inr some_items ↦ elim (Bool-cases (length order == n)) [
          | inl all ↦ (
            ok order,
            rw (some_items, e, topsorted_blob_order) (rw all refl),
            full ((==_iff (length order) n).0 all),
          )
          | inr fewer ↦
              let ne : ¬ (length order ≡ n) =
                λ q. ground (arith, fewer, (==_iff (length order) n).1 q) in
              let (x, stuck, partial) = short ne in
              (
                err (record { total = n; sorted = length order }),
                rw (some_items, e, topsorted_blob_order) (rw fewer refl),
                (refl, omega (arith, le, ne), (order, x, stuck, refl, partial)),
              )
        ]
      ]

  module _ (rank : SedimentreeItem → ℕ)
      (falls : (x y : SedimentreeItem)
        → IsItem fragments loose x
        → IsItem fragments loose y
        → depends_on fragments loose x y ≡ true
        → rank y < rank x) where
    unstuck :
        (stuck : List SedimentreeItem)
        → IsStuck fragments loose stuck
        → (bound : ℕ) (x : SedimentreeItem) → In x stuck
        → ¬ (rank x < bound)
    unstuck stuck s zero x m lt = omega (arith, lt)
    unstuck stuck s (suc bound) x m lt =
        let (y, my, d) = s.waits x m in
        let down = falls x y (All-In _ stuck x s.items m) (All-In _ stuck y s.items my) d in
        unstuck stuck s bound y my (omega (arith, lt, down))

    -- Of a well-formed tree without cycles (some rank falls from each item to those it depends on),
    -- `topsorted_blob_order` returns all items once each, every item behind those it depends on.
    pub topsorted_blob_order_acyclic :
        (order : List SedimentreeItem) × (topsorted_blob_order t ≡ some (ok order))
        × IsSorted fragments loose order
    topsorted_blob_order_acyclic =
        let (r, e, outcome) = topsorted_blob_order_lem in
        elim r
            as (λ r.
              topsorted_blob_order t ≡ some r
              → IsOutcome fragments loose r
              → (order : List SedimentreeItem) × (topsorted_blob_order t ≡ some (ok order))
                × IsSorted fragments loose order) [
                  | ok order ↦ λ e s. (order, e, s)
                  | err f ↦ λ e o.
                      let (_, _, (_, x, stuck, _, partial)) = o in
                      absurd
                        (unstuck (x ∷ stuck) partial.rest (suc (rank x)) x (inl refl) (omega arith))
                ]
          e outcome
