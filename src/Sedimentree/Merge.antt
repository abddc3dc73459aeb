-- ===== src/Sedimentree/Merge.antt =====
-- `new` and `merge` of sedimentree.rs: well-formed trees, and the order in which trees are merged.
use subduction.Identity.{CommitId}
use subduction.LooseCommit.{LooseCommit}
use subduction.Fragment.{Fragment, head}
use subduction.Collections.Map
use subduction.Collections.Map.{Map, get-insert}
use subduction.Sedimentree.{Sedimentree, Digests, insert_or_tiebreak, insert_all, new, merge}
use subduction.Sedimentree.Tiebreak.{
  join, join_idem, join_comm, join_assoc, Distinct, get-insert_all,
}
use subduction.Prelude.{
  ◌≡◌, refl, sym, ◌∙◌, List, [], ◌∷◌, map, arith, nat_eq, All, Bytes, bytes_eq, bytes_list_eq,
}

module _ {V : Type 0} (hash : V → Bytes) (key_of : V → CommitId) where
  -- Each entry stands under the identifier of its value.
  abbrev pub Keyed : Map CommitId V → Type 0
  Keyed m = All (λ e. key_of e.1 ≡ e.0) m

  Distinct-insert :
      (m : Map CommitId V) (k : CommitId) (v : V)
      → Distinct hash m
      → Distinct hash (Map.insert m k v)
  unfolding Map.insert
  Distinct-insert [] k v d = unfold Map.get in (refl, tt)
  Distinct-insert ((i, w) ∷ m) k v d =
      ground (arith, d.0, d.1, Distinct-insert m k v d.1, get-insert m k i v)

  Keyed-insert :
      (m : Map CommitId V) (k : CommitId) (v : V)
      → key_of v ≡ k
      → Keyed m
      → Keyed (Map.insert m k v)
  unfolding Map.insert
  Keyed-insert [] k v e d = (e, tt)
  Keyed-insert ((i, w) ∷ m) k v e d = ground (arith, d.0, d.1, Keyed-insert m k v e d.1)

  pub insert_or_tiebreak-Distinct :
      (m : Map CommitId V) (k : CommitId) (v : V)
      → Distinct hash m
      → Distinct hash (insert_or_tiebreak hash m k v)
  unfolding insert_or_tiebreak
  insert_or_tiebreak-Distinct m k v d = ground (arith, d, Distinct-insert m k v d)

  pub insert_or_tiebreak-Keyed :
      (m : Map CommitId V) (k : CommitId) (v : V)
      → key_of v ≡ k
      → Keyed m
      → Keyed (insert_or_tiebreak hash m k v)
  unfolding insert_or_tiebreak
  insert_or_tiebreak-Keyed m k v e d = ground (arith, d, Keyed-insert m k v e d)

  pub insert_all-Distinct :
      (others m : Map CommitId V) → Distinct hash m → Distinct hash (insert_all hash m others)
  unfolding insert_all
  insert_all-Distinct [] m d = d
  insert_all-Distinct ((k, v) ∷ others) m d =
      insert_all-Distinct others (insert_or_tiebreak hash m k v)
        (insert_or_tiebreak-Distinct m k v d)

  pub insert_all-Keyed :
      (others m : Map CommitId V) → Keyed others → Keyed m → Keyed (insert_all hash m others)
  unfolding insert_all
  insert_all-Keyed [] m e d = d
  insert_all-Keyed ((k, v) ∷ others) m e d =
      insert_all-Keyed others (insert_or_tiebreak hash m k v) e.1
        (insert_or_tiebreak-Keyed m k v e.0 d)

  Keyed-map : (vs : List V) → Keyed (map (λ v. (key_of v, v)) vs)
  Keyed-map [] = tt
  Keyed-map (v ∷ vs) = (refl, Keyed-map vs)

-- Each identifier at most once, and each item under its own identifier.
pub record IsValid (digests : Digests) (t : Sedimentree) : Type 0 where
  pub fragments_distinct : Distinct digests.fragment t.fragments
  pub commits_distinct : Distinct digests.commit t.commits
  pub fragments_keyed : Keyed digests.fragment head t.fragments
  pub commits_keyed : Keyed digests.commit (λ c. c.head) t.commits

-- Two trees answer every lookup alike. The order of iteration is not seen.
pub record SameTree (s t : Sedimentree) : Type 0 where
  pub fragments : (id : CommitId) → Map.get s.fragments id ≡ Map.get t.fragments id
  pub commits : (id : CommitId) → Map.get s.commits id ≡ Map.get t.commits id

pub same_refl : (s : Sedimentree) → SameTree s s
same_refl s = record { fragments = λ id. refl; commits = λ id. refl }

pub same_trans : {s t u : Sedimentree} → SameTree s t → SameTree t u → SameTree s u
same_trans e f = record {
  fragments = λ id. e.fragments id ∙ f.fragments id;
  commits = λ id. e.commits id ∙ f.commits id;
}

-- No two items whatever have one BLAKE3 digest, as is assumed of the hash.
pub record CollisionFree (digests : Digests) : Type 0 where
  pub commit : (a b : LooseCommit) → digests.commit a ≡ digests.commit b → a ≡ b
  pub fragment : (a b : Fragment) → digests.fragment a ≡ digests.fragment b → a ≡ b

module _ (digests : Digests) where
  -- `new` builds a valid tree from any lists, duplicates included.
  pub new-IsValid :
      (fs : List Fragment) (cs : List LooseCommit) → IsValid digests (new digests fs cs)
  unfolding new
  new-IsValid fs cs = record {
    fragments_distinct = insert_all-Distinct digests.fragment head _ [] tt;
    commits_distinct = insert_all-Distinct digests.commit (λ c. c.head) _ [] tt;
    fragments_keyed =
        insert_all-Keyed digests.fragment head _ [] (Keyed-map digests.fragment head fs) tt;
    commits_keyed =
        insert_all-Keyed digests.commit (λ c. c.head) _ []
          (Keyed-map digests.commit (λ c. c.head) cs) tt;
  }

  -- Merging a valid tree into a valid tree gives a valid tree.
  pub merge-IsValid :
      (s t : Sedimentree)
      → IsValid digests s
      → IsValid digests t
      → IsValid digests (merge digests s t)
  unfolding merge
  merge-IsValid s t v w = record {
    fragments_distinct =
        insert_all-Distinct digests.fragment head t.fragments s.fragments v.fragments_distinct;
    commits_distinct =
        insert_all-Distinct digests.commit (λ c. c.head) t.commits s.commits v.commits_distinct;
    fragments_keyed =
        insert_all-Keyed digests.fragment head t.fragments s.fragments w.fragments_keyed
          v.fragments_keyed;
    commits_keyed =
        insert_all-Keyed digests.commit (λ c. c.head) t.commits s.commits w.commits_keyed
          v.commits_keyed;
  }

  module _ (s t : Sedimentree) (w : IsValid digests t) (id : CommitId) where
    pub get-merge_fragments :
        Map.get (merge digests s t).fragments id
        ≡ join digests.fragment (Map.get s.fragments id) (Map.get t.fragments id)
    unfolding merge
    get-merge_fragments =
        get-insert_all digests.fragment t.fragments s.fragments id w.fragments_distinct

    pub get-merge_commits :
        Map.get (merge digests s t).commits id
        ≡ join digests.commit (Map.get s.commits id) (Map.get t.commits id)
    unfolding merge
    get-merge_commits = get-insert_all digests.commit t.commits s.commits id w.commits_distinct

  -- Merging a valid tree into itself changes no lookup.
  pub merge_idem : (s : Sedimentree) → IsValid digests s → SameTree (merge digests s s) s
  merge_idem s v = record {
    fragments =
        λ id. get-merge_fragments s s v id ∙ join_idem digests.fragment (Map.get s.fragments id);
    commits = λ id. get-merge_commits s s v id ∙ join_idem digests.commit (Map.get s.commits id);
  }

  module _ (free : CollisionFree digests) where
    -- With digests that have no collision, two replicas with valid trees that merge each other's
    -- trees answer every lookup alike.
    pub merge_comm :
        (s t : Sedimentree)
        → IsValid digests s
        → IsValid digests t
        → SameTree (merge digests s t) (merge digests t s)
    merge_comm s t v w = record {
      fragments = λ id.
          get-merge_fragments s t w id
          ∙ join_comm digests.fragment free.fragment _ _
          ∙ sym (get-merge_fragments t s v id);
      commits = λ id.
          get-merge_commits s t w id
          ∙ join_comm digests.commit free.commit _ _
          ∙ sym (get-merge_commits t s v id);
    }

    -- With digests that have no collision, merging two valid trees into a tree one after the
    -- other answers every lookup as merging their merge does.
    pub merge_assoc :
        (s t u : Sedimentree)
        → IsValid digests t
        → IsValid digests u
        → SameTree (merge digests (merge digests s t) u) (merge digests s (merge digests t u))
    merge_assoc s t u w x =
        let tu = merge-IsValid t u w x in
        record {
          fragments = λ id.
              rw
                (
                  get-merge_fragments (merge digests s t) u x id,
                  get-merge_fragments s t w id,
                  get-merge_fragments s (merge digests t u) tu id,
                  get-merge_fragments t u x id,
                )
                (join_assoc digests.fragment free.fragment _ _ _);
          commits = λ id.
              rw
                (
                  get-merge_commits (merge digests s t) u x id,
                  get-merge_commits s t w id,
                  get-merge_commits s (merge digests t u) tu id,
                  get-merge_commits t u x id,
                )
                (join_assoc digests.commit free.commit _ _ _);
        }
