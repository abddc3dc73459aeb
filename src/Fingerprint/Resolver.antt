-- ===== src/Fingerprint/Resolver.antt =====
-- The resolver of sedimentree.rs: it sends the summary of the tree, and reads the fingerprints
-- that come back.
use subduction.Identity.{CommitId}
use subduction.LooseCommit.{LooseCommit}
use subduction.Fragment.{Fragment, head}
use subduction.Collections.Map
use subduction.Collections.Map.{Map, keys, values, contains_key, contains-keys, get-insert}
use subduction.Collections.Set.{
  contains, insert, extend, contains-insert, contains-extend, contains-from_iter,
}
use subduction.Sedimentree.{Sedimentree, Digests, has_loose_commit}
use subduction.Sedimentree.Merge.{Keyed, IsValid}
use subduction.Fingerprint.{
  boundary, SipHash, FingerprintSeed, Fingerprint, FingerprintSummary, fingerprint, add_coverage,
  fingerprint_summarize, collect_commits, collect_fragments, fingerprint_resolver, resolve_commit,
}
use subduction.Prelude.{
  ◌≡◌, refl, ◌⊎◌, inl, inr, true, false, ◌||◌, none, some, List, [], ◌∷◌, map, arith, ◌==◌, nat_eq,
  Option-cases, Bytes, bytes_eq, bytes_list_eq,
}

-- Two summaries with one seed and the same fingerprints.
pub record SameSummary (a b : FingerprintSummary) : Type 0 where
  pub seed : a.seed ≡ b.seed
  pub commits :
      (f : Fingerprint) → contains a.commit_fingerprints f ≡ contains b.commit_fingerprints f
  pub fragments :
      (f : Fingerprint) → contains a.fragment_fingerprints f ≡ contains b.fragment_fingerprints f

module _ (sip : SipHash) (seed : FingerprintSeed) where
  abbrev fp : CommitId → Fingerprint
  fp = fingerprint sip seed

  pub contains-add_coverage :
      (fs : List Fragment) (a b : List Fingerprint) (f : Fingerprint)
      → contains a f ≡ contains b f
      → contains (add_coverage sip seed a fs) f ≡ contains (add_coverage sip seed b fs) f
  unfolding add_coverage
  contains-add_coverage [] a b f h = h
  contains-add_coverage (x ∷ fs) a b f h =
      let grow : List Fingerprint → List Fingerprint =
        λ s. extend (insert s (fp (head x))).0 (map fp (boundary x)) in
      let known : (s : List Fingerprint)
          → contains (grow s) f
            ≡ (fp (head x) == f || contains s f || contains (map fp (boundary x)) f) =
        λ s. ground (
          arith,
          contains-extend (map fp (boundary x)) (insert s (fp (head x))).0 f,
          contains-insert s (fp (head x)) f,
        ) in
      contains-add_coverage fs (grow a) (grow b) f (ground (arith, known a, known b, h))

  contains_key-collect_commits :
      (entries : List (CommitId × LooseCommit)) (m : Map Fingerprint CommitId) (f : Fingerprint)
      → contains_key (collect_commits sip seed m entries) f
        ≡ (contains_key m f || contains (map (λ c. fp c.head) (values entries)) f)
  unfolding collect_commits contains
  contains_key-collect_commits [] m f = ground arith
  contains_key-collect_commits ((id, c) ∷ entries) m f = ground (
    arith,
    contains_key-collect_commits entries (Map.insert m (fp c.head) id) f,
    get-insert m (fp c.head) f id,
  )

  contains_key-collect_fragments :
      (ids : List CommitId) (m : Map Fingerprint CommitId) (f : Fingerprint)
      → contains_key (collect_fragments sip seed m ids) f
        ≡ (contains_key m f || contains (map fp ids) f)
  unfolding collect_fragments contains
  contains_key-collect_fragments [] m f = ground arith
  contains_key-collect_fragments (id ∷ ids) m f = ground (
    arith,
    contains_key-collect_fragments ids (Map.insert m (fp id) id) f,
    get-insert m (fp id) f id,
  )

  -- The summary in the resolver has the seed and the fingerprints of `fingerprint_summarize`.
  pub fingerprint_resolver-fingerprint_summarize :
      (t : Sedimentree)
      → SameSummary (fingerprint_resolver sip t seed).summary (fingerprint_summarize sip t seed)
  unfolding fingerprint_resolver fingerprint_summarize
  fingerprint_resolver-fingerprint_summarize t = record {
    seed = refl;
    commits = λ f. contains-add_coverage (values t.fragments) _ _ f (
        ground (
          arith,
          contains-from_iter (keys (collect_commits sip seed [] t.commits)) f,
          contains-from_iter (map (λ c. fp c.head) (values t.commits)) f,
          contains-keys (collect_commits sip seed [] t.commits) f,
          contains_key-collect_commits t.commits [] f,
          none_empty f,
        ));
    fragments = λ f. ground (
      arith,
      contains-from_iter (keys (collect_fragments sip seed [] (keys t.fragments))) f,
      contains-from_iter (map fp (keys t.fragments)) f,
      contains-keys (collect_fragments sip seed [] (keys t.fragments)) f,
      contains_key-collect_fragments (keys t.fragments) [] f,
      none_empty f,
    );
  }
    where
      none_empty : (f : Fingerprint) → contains_key {V = CommitId} [] f ≡ false
      none_empty f = unfold Map.get in refl

  -- What the table answers stands in the tree under that fingerprint.
  collect_commits_inv :
      (hash : LooseCommit → Bytes) (entries : List (CommitId × LooseCommit))
      (m : Map Fingerprint CommitId) (f : Fingerprint) (id : CommitId)
      → Keyed hash (λ c. c.head) entries
      → Map.get (collect_commits sip seed m entries) f ≡ some id
      → (Map.get m f ≡ some id) ⊎ ((contains (keys entries) id ≡ true) × (fp id ≡ f))
  unfolding collect_commits contains
  collect_commits_inv hash [] m f id k h = inl h
  collect_commits_inv hash ((i, c) ∷ entries) m f id k h =
      elim (collect_commits_inv hash entries (Map.insert m (fp c.head) i) f id k.1 h) [
        | inl early ↦ ground (arith, early, get-insert m (fp c.head) f i, k.0)
        | inr (member, same) ↦ inr (ground (arith, member), same)
      ]

  -- The fingerprint of a key is among those of the heads.
  pub member-fingerprint :
      (hash : LooseCommit → Bytes) (entries : List (CommitId × LooseCommit)) (id : CommitId)
      → Keyed hash (λ c. c.head) entries
      → contains (keys entries) id ≡ true
      → contains (map (λ c. fp c.head) (values entries)) (fp id) ≡ true
  unfolding contains
  member-fingerprint hash [] id k h = cc
  member-fingerprint hash ((i, c) ∷ entries) id k h =
      ground (arith, k.0, member-fingerprint hash entries id k.1)

  collect_fragments_inv :
      (ids : List CommitId) (m : Map Fingerprint CommitId) (f : Fingerprint) (id : CommitId)
      → Map.get (collect_fragments sip seed m ids) f ≡ some id
      → (Map.get m f ≡ some id) ⊎ ((contains ids id ≡ true) × (fp id ≡ f))
  unfolding collect_fragments contains
  collect_fragments_inv [] m f id h = inl h
  collect_fragments_inv (i ∷ ids) m f id h =
      elim (collect_fragments_inv ids (Map.insert m (fp i) i) f id h) [
        | inl early ↦ ground (arith, early, get-insert m (fp i) f i)
        | inr (member, same) ↦ inr (ground (arith, member), same)
      ]

  module _ (digests : Digests) (t : Sedimentree) (valid : IsValid digests t) where
    -- In a valid tree, a fingerprint resolves only to a commit of the tree that has it.
    pub resolve_commit_sound :
        (f : Fingerprint) (id : CommitId)
        → resolve_commit (fingerprint_resolver sip t seed) f ≡ some id
        → (has_loose_commit t id ≡ true) × (fp id ≡ f)
    unfolding resolve_commit fingerprint_resolver has_loose_commit
    resolve_commit_sound f id h =
        elim (collect_commits_inv digests.commit t.commits [] f id valid.commits_keyed h) [
          | inl early ↦ absurd (none_early f id early)
          | inr (member, same) ↦ (rw (← contains-keys t.commits id) member, same)
        ]
      where
        none_early : (f : Fingerprint) (id : CommitId) → Map.get [] f ≡ some id → ⊥
        none_early f id h = unfold Map.get in cc

    -- The fingerprint of every commit of a valid tree resolves, and to a commit of the tree with
    -- that fingerprint.
    pub resolve_commit_complete :
        (id : CommitId)
        → has_loose_commit t id ≡ true
        → (id' : CommitId) × (resolve_commit (fingerprint_resolver sip t seed) (fp id) ≡ some id')
          × (has_loose_commit t id' ≡ true)
          × (fp id' ≡ fp id)
    unfolding resolve_commit fingerprint_resolver
    resolve_commit_complete id h =
        elim (Option-cases (resolve_commit (fingerprint_resolver sip t seed) (fp id))) [
          | inl miss ↦ absurd (unresolved miss)
          | inr (id', hit) ↦
              let (member, same) = resolve_commit_sound (fp id) id' hit in (id', hit, member, same)
        ]
      where
        unresolved : resolve_commit (fingerprint_resolver sip t seed) (fp id) ≡ none → ⊥
        unresolved miss = ground (
          arith,
          miss,
          member-fingerprint digests.commit t.commits id valid.commits_keyed
              (unfold has_loose_commit in rw (contains-keys t.commits id) h),
          contains_key-collect_commits t.commits [] (fp id),
        )
