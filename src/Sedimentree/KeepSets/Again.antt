-- ===== src/Sedimentree/KeepSets/Again.antt =====
-- sedimentree.rs: a tree that was minimized is minimal.
use subduction.Identity.{CommitId}
use subduction.LooseCommit.{LooseCommit}
use subduction.Fragment.{Fragment, head}
use subduction.Depth.{DepthMetric}
use subduction.Collections.Map
use subduction.Collections.Map.{Map, values, retain_keys}
use subduction.Collections.Set.{contains}
use subduction.Collections.Members.{In}
use subduction.CommitDag.Simplify.Links.{is_parent}
use subduction.CommitDag.Simplify.Collected.{keeps}
use subduction.CommitDag.Simplify.Reached.{InRange}
use subduction.Sedimentree.{Sedimentree, Digests}
use subduction.Sedimentree.Tiebreak.{Distinct}
use subduction.Sedimentree.Merge.{Keyed, IsValid}
use subduction.Sedimentree.Minimize.{minimized_fragments}
use subduction.Sedimentree.KeepSets.{KeepSets, minimize_in_place}
use subduction.Sedimentree.KeepSets.Agree.{keep_sets_lem, minimize-minimize_in_place}
use subduction.Sedimentree.KeepSets.Fragments.{In-retain_keys, minimized_again}
use subduction.Sedimentree.KeepSets.Commits.{range_left}
use mathlib.Core.Path.{ap₂}
use subduction.Prelude.{
  ℕ, ◌<◌, ◌≡◌, refl, sym, ap, ◌∙◌, subst, ◌↔◌, inl, inr, Bool, true, not, Option, none, some, List,
  [], ◌∷◌, arith, ◌==◌, nat_eq, ==_iff, Bool-cases, any, Bytes, bytes_eq, bytes_list_eq,
}

module _ {V : Type 0} (hash : V → Bytes) (key_of : V → CommitId) where
  get-In :
      (m : Map CommitId V) (v : V)
      → Distinct hash m
      → Keyed hash key_of m
      → In v (values m)
      → Map.get m (key_of v) ≡ some v
  unfolding Map.get
  get-In [] v d h m = absurd m
  get-In ((k, w) ∷ m) v d h (inl e) =
      let same : k ≡ key_of v = sym h.0 ∙ ap key_of e in
      ground (arith, (==_iff k (key_of v)).1 same, e)
  get-In ((k, w) ∷ m) v d h (inr rest) =
      let ih = get-In m v d.1 h.1 rest in
      elim (Bool-cases (k == key_of v)) [
        | inl hit ↦
            let e : Map.get m (key_of v) ≡ none =
              ap (Map.get m) (sym ((==_iff k (key_of v)).0 hit)) ∙ d.0 in
            absurd (cc (e, ih))
        | inr miss ↦ ground (arith, miss, ih)
      ]

  unique_values :
      (m : Map CommitId V)
      → Distinct hash m
      → Keyed hash key_of m
      → (v w : V) → In v (values m)
      → In w (values m)
      → key_of v ≡ key_of w
      → v ≡ w
  unique_values m d h v w at_v at_w e =
      let found = get-In m v d h at_v in
      let found' : Map.get m (key_of v) ≡ some w = ap (Map.get m) e ∙ get-In m w d h at_w in
      cc (found, found')

  -- A map all of whose keys pass is left as it is.
  retain_keys_all :
      (keep : CommitId → Bool) (m : Map CommitId V)
      → Keyed hash key_of m
      → ((v : V) → In v (values m) → keep (key_of v) ≡ true)
      → retain_keys keep m ≡ m
  unfolding retain_keys
  retain_keys_all keep [] h all_kept = refl
  retain_keys_all keep ((k, v) ∷ m) h all_kept =
      let hit : keep k ≡ true = ap keep (sym h.0) ∙ all_kept v (inl refl) in
      rw (hit, retain_keys)
        (ap (◌∷◌ (k, v)) (retain_keys_all keep m h.1 (λ w at. all_kept w (inr at))))

keeps_ext :
    (fs fs' : List Fragment)
    → ((p : Fragment → Bool) → any p fs' ≡ any p fs)
    → (range : Option CommitId) → keeps fs' range ≡ keeps fs range
keeps_ext fs fs' same none = refl
keeps_ext fs fs' same (some range) = ap not (same _)

module _ (digests : Digests) (metric : DepthMetric) (t : Sedimentree) (valid : IsValid digests t)
    (rank : CommitId → ℕ)
    (acyclic : (parent id : CommitId)
      → is_parent (values t.commits) parent id ≡ true
      → rank id < rank parent) where
  abbrev left : KeepSets → Sedimentree
  left sets = record {
    fragments = retain_keys (contains sets.fragment_heads) t.fragments;
    commits = retain_keys (contains sets.commit_heads) t.commits;
  }

  module _ (sets : KeepSets)
      (which : (id : CommitId)
        → contains sets.fragment_heads id ≡ any (λ f. head f == id) (minimized_fragments metric t))
      (which_commits : (id : CommitId)
        → (contains sets.commit_heads id ≡ true) ↔ (
            (range : Option CommitId) × InRange (values t.commits) metric id range
            × (keeps (minimized_fragments metric t) range ≡ true))) where
    retained :
        (f : Fragment)
        → In f (values (left sets).fragments) ↔ (
            In f (values t.fragments)
            × (any (λ g. head g == head f) (minimized_fragments metric t) ≡ true))
    retained f =
        let (from, to) =
          In-retain_keys head (contains sets.fragment_heads) t.fragments f valid.fragments_keyed in
        (
          λ m. let (n, q) = from m in (n, sym (which (head f)) ∙ q),
          λ m. to (m.0, which (head f) ∙ m.1),
        )

    fragments_again :
        (p : Fragment → Bool)
        → any p (minimized_fragments metric (left sets)) ≡ any p (minimized_fragments metric t)
    fragments_again p =
        minimized_again metric t (left sets)
          (unique_values digests.fragment head t.fragments valid.fragments_distinct
            valid.fragments_keyed)
          retained p

    commits_again :
        (c : LooseCommit)
        → In c (values (left sets).commits)
        → (range : Option CommitId) × InRange (values (left sets).commits) metric c.head range
          × (keeps (minimized_fragments metric (left sets)) range ≡ true)
    commits_again c m =
        let kept = λ (d : LooseCommit).
          In-retain_keys (λ (x : LooseCommit). x.head) (contains sets.commit_heads) t.commits d
            valid.commits_keyed in
        let (_, listed) = (kept c).0 m in
        let (range, comes, k) = (which_commits c.head).0 listed in
        let (range', comes', k') =
          range_left (values t.commits) (values (left sets).commits) metric
            (minimized_fragments metric t) (contains sets.commit_heads) kept which_commits rank
            acyclic comes k in
        (
          range',
          comes',
          keeps_ext (minimized_fragments metric t) (minimized_fragments metric (left sets))
                fragments_again range'
              ∙ k',
        )

    again : IsValid digests (left sets) → minimize_in_place metric (left sets) ≡ some (left sets)
    unfolding minimize_in_place
    again valid' =
        let (sets', e', which', which_commits') = keep_sets_lem digests metric (left sets) valid' in
        let fs =
          retain_keys_all digests.fragment head (contains sets'.fragment_heads)
            (left sets).fragments valid'.fragments_keyed
            (λ f m.
              which' (head f) ∙ fragments_again (λ g. head g == head f) ∙ ((retained f).0 m).1) in
        let cs =
          retain_keys_all digests.commit (λ (c : LooseCommit). c.head) (contains sets'.commit_heads)
            (left sets).commits valid'.commits_keyed
            (λ c m. (which_commits' c.head).1 (commits_again c m)) in
        rw (e', minimize_in_place)
          (let made : Map CommitId Fragment → Map CommitId LooseCommit → Option Sedimentree =
              λ a b. some (record { fragments = a; commits = b }) in
            ap₂ made fs cs)

  pub minimize_in_place-again :
      (t' : Sedimentree)
      → minimize_in_place metric t ≡ some t'
      → minimize_in_place metric t' ≡ some t'
  minimize_in_place-again t' h =
      let (sets, e, which, which_commits) = keep_sets_lem digests metric t valid in
      let (t'', _, h'', valid'') = minimize-minimize_in_place digests metric t valid in
      let q : minimize_in_place metric t ≡ some (left sets) =
        unfold minimize_in_place in rw (e, minimize_in_place) refl in
      let same : left sets ≡ t' = cc (q, h) in
      let same'' : t'' ≡ left sets = cc (q, h'') in
      subst (λ x. minimize_in_place metric x ≡ some x) same
        (again sets which which_commits (subst (IsValid digests) same'' valid''))

  -- Of a well-formed tree in which no loose commit is its own ancestor (some rank grows from each
  -- commit to its parents), `minimize_in_place` leaves a tree, without a panic, that a second
  -- `minimize_in_place` does not change.
  pub minimize_in_place_idem :
      (t' : Sedimentree) × (minimize_in_place metric t ≡ some t')
      × (minimize_in_place metric t' ≡ some t')
  minimize_in_place_idem =
      let (t', _, h, _) = minimize-minimize_in_place digests metric t valid in
      (t', h, minimize_in_place-again t' h)
