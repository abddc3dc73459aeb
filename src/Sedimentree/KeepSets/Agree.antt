-- ===== src/Sedimentree/KeepSets/Agree.antt =====
-- sedimentree.rs: `minimize` and `minimize_in_place` give one tree.
use subduction.Identity.{CommitId}
use subduction.LooseCommit.{LooseCommit}
use subduction.Depth.{DepthMetric}
use subduction.Fragment.{Fragment, head}
use subduction.Collections.Map
use subduction.Collections.Map.{Map, values, keys, retain_keys, get-retain_keys}
use subduction.Collections.Set.{contains, from_iter, contains-from_iter}
use subduction.Collections.Index.{Distinct as DistinctIds}
use subduction.CommitDag.Simplify.Links.{heads}
use subduction.CommitDag.Simplify.Reached.{InRange}
use subduction.CommitDag.Simplify.Collected.{keeps}
use subduction.CommitDag.Simplify.Kept.{simplify_lem}
use subduction.Sedimentree.Minimize.{minimized_fragments}
use subduction.Sedimentree.{Sedimentree, Digests, new, insert_all, insert_or_tiebreak}
use subduction.Sedimentree.Tiebreak.{Distinct}
use subduction.Sedimentree.Merge.{Keyed, IsValid}
use subduction.Sedimentree.KeepSets.{KeepSets, keep_sets, minimize, minimize_in_place}
use mathlib.Core.Path.{ap₂}
use subduction.Prelude.{
  ◌↔◌, List, any, ◌≡◌, refl, sym, ap, ◌∙◌, inl, inr, Bool, true, false, Option, none, some, [], ◌∷◌,
  ◌++◌, map, append_assoc, append-nil, arith, ◌==◌, nat_eq, Bool-cases, filter, All, Bytes,
  bytes_eq, bytes_list_eq,
}

module _ {V : Type 0} (hash : V → Bytes) (key_of : V → CommitId) where
  -- A key that the map has not is added at the end.
  insert_fresh :
      (m : Map CommitId V) (k : CommitId) (v : V)
      → Map.get m k ≡ none
      → Map.insert m k v ≡ m ++ ((k, v) ∷ [])
  unfolding Map.get Map.insert
  insert_fresh [] k v h = refl
  insert_fresh ((j, w) ∷ m) k v h = ground (arith, h, insert_fresh m k v)

  get_snoc :
      (m : Map CommitId V) (k j : CommitId) (v : V)
      → Map.get m j ≡ none
      → (k == j) ≡ false
      → Map.get (m ++ ((k, v) ∷ [])) j ≡ none
  unfolding Map.get
  get_snoc [] k j v h other = ground (arith, other)
  get_snoc ((i, w) ∷ m) k j v h other = ground (arith, h, other, get_snoc m k j v)

  abbrev Absent : Map CommitId V → Map CommitId V → Type 0
  Absent m others = All (λ e. Map.get m e.0 ≡ none) others

  Absent-snoc :
      (m others : Map CommitId V) (k : CommitId) (v : V)
      → Absent m others
      → Map.get others k ≡ none
      → Absent (m ++ ((k, v) ∷ [])) others
  unfolding Map.get
  Absent-snoc m [] k v h fresh = tt
  Absent-snoc m ((j, w) ∷ others) k v h fresh = (
    get_snoc m k j v h.0 (ground (arith, fresh)),
    Absent-snoc m others k v h.1 (ground (arith, fresh)),
  )

  -- Entries with fresh keys, no key twice, are added as they stand.
  insert_all-fresh :
      (others m : Map CommitId V)
      → Distinct hash others
      → Absent m others
      → insert_all hash m others ≡ m ++ others
  unfolding insert_all insert_or_tiebreak
  insert_all-fresh [] m d h = sym (append-nil m)
  insert_all-fresh ((k, v) ∷ others) m d h =
      let e : insert_or_tiebreak hash m k v ≡ m ++ ((k, v) ∷ []) =
        rw (h.0, insert_or_tiebreak) (insert_fresh m k v h.0) in
      ap (λ x. insert_all hash x others) e
      ∙ insert_all-fresh others (m ++ ((k, v) ∷ [])) d.1 (Absent-snoc m others k v h.1 d.0)
      ∙ append_assoc m ((k, v) ∷ []) others

  -- The values that pass a test of the key, under their keys, are the entries that `retain` leaves.
  map-filter-values :
      (keep : CommitId → Bool) (m : Map CommitId V)
      → Keyed hash key_of m
      → map (λ v. (key_of v, v)) (filter (λ v. keep (key_of v)) (values m)) ≡ retain_keys keep m
  unfolding retain_keys
  map-filter-values keep [] h = refl
  map-filter-values keep ((k, v) ∷ m) h =
      let ih = map-filter-values keep m h.1 in
      let same : keep (key_of v) ≡ keep k = ap keep h.0 in
      elim (Bool-cases (keep k)) [
        | inl hit ↦
            let hit' : keep (key_of v) ≡ true = same ∙ hit in
            rw (hit', hit)
              (ap
                  (λ x.
                    (x, v) ∷ map (λ w. (key_of w, w)) (filter (λ w. keep (key_of w)) (values m)))
                  h.0
                ∙ ap (◌∷◌ (k, v)) ih)
        | inr miss ↦ let miss' : keep (key_of v) ≡ false = same ∙ miss in rw (miss', miss) ih
      ]

  retain_keys-Distinct :
      (keep : CommitId → Bool) (m : Map CommitId V)
      → Distinct hash m
      → Distinct hash (retain_keys keep m)
  unfolding retain_keys
  retain_keys-Distinct keep [] d = tt
  retain_keys-Distinct keep ((k, v) ∷ m) d =
      ground (arith, d.0, get-retain_keys keep m k, retain_keys-Distinct keep m d.1)

  retain_keys-Keyed :
      (keep : CommitId → Bool) (m : Map CommitId V)
      → Keyed hash key_of m
      → Keyed hash key_of (retain_keys keep m)
  unfolding retain_keys
  retain_keys-Keyed keep [] d = tt
  retain_keys-Keyed keep ((k, v) ∷ m) d = ground (arith, d.0, retain_keys-Keyed keep m d.1)

  Absent-nil : (others : Map CommitId V) → Absent [] others
  unfolding Map.get
  Absent-nil [] = tt
  Absent-nil (e ∷ others) = (refl, Absent-nil others)

  -- Rebuilding a map from its values that pass the test is `retain` by the test.
  pub rebuild-retain_keys :
      (keep : CommitId → Bool) (m : Map CommitId V)
      → Distinct hash m
      → Keyed hash key_of m
      → insert_all hash [] (map (λ v. (key_of v, v)) (filter (λ v. keep (key_of v)) (values m)))
        ≡ retain_keys keep m
  rebuild-retain_keys keep m d h =
      ap (insert_all hash []) (map-filter-values keep m h)
      ∙ insert_all-fresh (retain_keys keep m) [] (retain_keys-Distinct keep m d)
          (Absent-nil (retain_keys keep m))

contains-heads :
    (fs : List Fragment) (id : CommitId) → contains (map head fs) id ≡ any (λ f. head f == id) fs
unfolding contains
contains-heads [] id = refl
contains-heads (f ∷ fs) id = ground (arith, contains-heads fs id)

-- The heads of the commits of a well-formed tree.
get-heads :
    (digests : Digests) (m : Map CommitId LooseCommit) (k : CommitId)
    → Keyed digests.commit (λ c. c.head) m
    → Map.get m k ≡ none
    → contains (heads (values m)) k ≡ false
unfolding Map.get contains
get-heads digests [] k h miss = refl
get-heads digests ((j, c) ∷ m) k h miss = ground (arith, h.0, miss, get-heads digests m k h.1)

heads-Distinct :
    (digests : Digests) (m : Map CommitId LooseCommit)
    → Distinct digests.commit m
    → Keyed digests.commit (λ c. c.head) m
    → DistinctIds (heads (values m))
heads-Distinct digests [] d h = tt
heads-Distinct digests ((k, c) ∷ m) d h =
    (rw h.0 (get-heads digests m k h.1 d.0), heads-Distinct digests m d.1 h.1)

module _ (digests : Digests) (metric : DepthMetric) (t : Sedimentree)
    (valid : IsValid digests t) where
  pub commits-Distinct : DistinctIds (heads (values t.commits))
  commits-Distinct = heads-Distinct digests t.commits valid.commits_distinct valid.commits_keyed

  -- The sets are found without a panic: the heads of the fragments that the first pass keeps, and
  -- the commits that a range keeps.
  pub keep_sets_lem :
      (sets : KeepSets) × (keep_sets metric t ≡ some sets)
      × ((id : CommitId)
          → contains sets.fragment_heads id
            ≡ any (λ f. head f == id) (minimized_fragments metric t))
      × ((id : CommitId)
          → (contains sets.commit_heads id ≡ true) ↔ (
              (range : Option CommitId) × InRange (values t.commits) metric id range
              × (keeps (minimized_fragments metric t) range ≡ true)))
  unfolding keep_sets
  keep_sets_lem =
      let fragments = minimized_fragments metric t in
      let (dag, kept, made, e, which) =
        simplify_lem (values t.commits) fragments metric commits-Distinct in
      (
        record { fragment_heads = from_iter (map head fragments); commit_heads = kept },
        rw (made, keep_sets, e) refl,
        λ id. contains-from_iter (map head fragments) id ∙ contains-heads fragments id,
        which,
      )

  -- Of a well-formed tree, and with any metric, `minimize` builds exactly the tree that
  -- `minimize_in_place` leaves; neither panics, and the tree is well-formed.
  pub minimize-minimize_in_place :
      (t' : Sedimentree) × (minimize metric digests t ≡ some t')
      × (minimize_in_place metric t ≡ some t')
      × IsValid digests t'
  unfolding minimize minimize_in_place new
  minimize-minimize_in_place =
      let (sets, e, _, _) = keep_sets_lem in
      let fs = retain_keys (contains sets.fragment_heads) t.fragments in
      let cs = retain_keys (contains sets.commit_heads) t.commits in
      let t' : Sedimentree = record { fragments = fs; commits = cs } in
      (
        t',
        rw (e, minimize)
            (let made : Map CommitId Fragment → Map CommitId LooseCommit → Option Sedimentree =
                λ a b. some (record { fragments = a; commits = b }) in
              ap₂ made
                (rebuild-retain_keys digests.fragment head (contains sets.fragment_heads)
                  t.fragments valid.fragments_distinct valid.fragments_keyed)
                (rebuild-retain_keys digests.commit (λ c. c.head) (contains sets.commit_heads)
                  t.commits valid.commits_distinct valid.commits_keyed)),
        rw (e, minimize_in_place) refl,
        record {
          fragments_distinct =
              retain_keys-Distinct digests.fragment head (contains sets.fragment_heads) t.fragments
                valid.fragments_distinct;
          commits_distinct =
              retain_keys-Distinct digests.commit (λ c. c.head) (contains sets.commit_heads)
                t.commits valid.commits_distinct;
          fragments_keyed =
              retain_keys-Keyed digests.fragment head (contains sets.fragment_heads) t.fragments
                valid.fragments_keyed;
          commits_keyed =
              retain_keys-Keyed digests.commit (λ c. c.head) (contains sets.commit_heads) t.commits
                valid.commits_keyed;
        },
      )
