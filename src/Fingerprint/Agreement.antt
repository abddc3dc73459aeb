-- ===== src/Fingerprint/Agreement.antt =====
-- The exchange of summaries, end to end: a tree that meets itself, and what the requestor is
-- asked for.
use subduction.Identity.{CommitId}
use subduction.LooseCommit.{LooseCommit}
use subduction.Fragment.{Fragment, head, boundary}
use subduction.Collections.Map.{keys, values, contains-keys}
use subduction.Collections.Set.{
  contains, insert, from_iter, contains-insert, contains-extend, contains-from_iter,
  contains-filter,
}
use subduction.Sedimentree.{Sedimentree, Digests, has_loose_commit}
use subduction.Sedimentree.Merge.{IsValid}
use subduction.Fingerprint.{
  SipHash, FingerprintSeed, Fingerprint, FingerprintSummary, fingerprint, add_coverage,
  fingerprint_summarize, fingerprint_resolver, resolve_commit,
}
use subduction.Fingerprint.Diff.{
  FingerprintDiff, fp, unnamed_commits, local_commit_fps, diff_remote_fingerprints,
}
use subduction.Fingerprint.Exchange.{answer, diff_remote_fingerprints_total, covered-Reach}
use subduction.Fingerprint.Resolver.{
  fingerprint_resolver-fingerprint_summarize, resolve_commit_complete, member-fingerprint,
}
use subduction.Prelude.{
  ◌≡◌, refl, ap, ◌∙◌, true, false, not, some, List, [], ◌∷◌, map, arith, nat_eq, ==-refl, filter,
  bytes_eq, bytes_list_eq,
}

module _ (sip : SipHash) (seed : FingerprintSeed) where
  add_coverage-keeps :
      (fs : List Fragment) (s : List Fingerprint) (f : Fingerprint)
      → contains s f ≡ true
      → contains (add_coverage sip seed s fs) f ≡ true
  unfolding add_coverage
  add_coverage-keeps [] s f h = h
  add_coverage-keeps (x ∷ fs) s f h = add_coverage-keeps fs _ f (
      ground (
        arith,
        h,
        contains-extend (map (fingerprint sip seed) (boundary x))
            (insert s (fingerprint sip seed (head x))).0 f,
        contains-insert s (fingerprint sip seed (head x)) f,
      ))

  -- A commit of the tree is named by the summary of the tree.
  pub summary_names_commit :
      (t : Sedimentree) (f : Fingerprint)
      → contains (map (λ c. fingerprint sip seed c.head) (values t.commits)) f ≡ true
      → contains (fingerprint_summarize sip t seed).commit_fingerprints f ≡ true
  unfolding fingerprint_summarize
  summary_names_commit t f h =
      add_coverage-keeps (values t.fragments) _ f
        (rw (contains-from_iter (map (λ c. fingerprint sip seed c.head) (values t.commits)) f) h)

filter-named :
    (sip : SipHash) (seed : FingerprintSeed) (known : List Fingerprint)
    (entries : List (CommitId × LooseCommit))
    → ((f : Fingerprint)
        → contains (map (λ c. fingerprint sip seed c.head) (values entries)) f ≡ true
        → contains known f ≡ true)
    → filter (λ e. not (contains known (fingerprint sip seed e.1.head))) entries ≡ []
unfolding contains
filter-named sip seed known [] h = refl
filter-named sip seed known ((i, c) ∷ entries) h = ground (
  arith,
  h (fingerprint sip seed c.head) (ground (arith, ==-refl (fingerprint sip seed c.head))),
  filter-named sip seed known entries (λ f m. h f (ground (arith, m))),
)

filter-known :
    {V : Type 0} (g : CommitId → Fingerprint) (known : List Fingerprint)
    (entries : List (CommitId × V))
    → ((f : Fingerprint) → contains (map g (keys entries)) f ≡ true → contains known f ≡ true)
    → filter (λ e. not (contains known (g e.0))) entries ≡ []
unfolding contains
filter-known g known [] h = refl
filter-known g known ((i, v) ∷ entries) h = ground (
  arith,
  h (g i) (ground (arith, ==-refl (g i))),
  filter-known g known entries (λ f m. h f (ground (arith, m))),
)

filter-within :
    (known s : List Fingerprint)
    → ((f : Fingerprint) → contains s f ≡ true → contains known f ≡ true)
    → filter (λ f. not (contains known f)) s ≡ []
unfolding contains
filter-within known [] h = refl
filter-within known (x ∷ s) h =
    ground (
      arith,
      h x (ground (arith, ==-refl x)),
      filter-within known s (λ f m. h f (ground (arith, m))),
    )

abbrev pub nothing : FingerprintDiff
nothing = record {
  local_only_fragments = [];
  local_only_commits = [];
  remote_only_commit_fingerprints = [];
  remote_only_fragment_fingerprints = [];
}

module _ (sip : SipHash) (t : Sedimentree) (seed : FingerprintSeed) where
  abbrev own : FingerprintSummary
  own = fingerprint_summarize sip t seed

  unnamed_self : unnamed_commits sip t own ≡ []
  unfolding unnamed_commits
  unnamed_self =
      unfold fingerprint_summarize in
      filter-named sip seed _ t.commits (λ f m. summary_names_commit sip seed t f m)

  fragments_self :
      filter (λ e. not (contains own.fragment_fingerprints (fp sip t own e.0))) t.fragments ≡ []
  unfolding fingerprint_summarize
  fragments_self =
      filter-known (fingerprint sip seed) _ t.fragments
        (λ f m. rw (contains-from_iter (map (fingerprint sip seed) (keys t.fragments)) f) m)

  unasked_commits :
      filter (λ f. not (contains (local_commit_fps sip t own) f)) own.commit_fingerprints ≡ []
  unfolding fingerprint_summarize local_commit_fps
  unasked_commits = filter-within _ _ (λ f m. m)

  unasked_fragments :
      filter
        (λ f. not (contains (from_iter (map (fp sip t own) (keys t.fragments))) f))
        own.fragment_fingerprints
      ≡ []
  unfolding fingerprint_summarize
  unasked_fragments = filter-within _ _ (λ f m. m)

  answer_self : (r : List CommitId) → answer sip t own r ≡ nothing
  unfolding answer
  answer_self r = rw (fragments_self, unnamed_self, unasked_commits, unasked_fragments)

  -- Against the summary of the same tree, whatever the seed, there is nothing to send and nothing
  -- to ask for.
  pub diff_remote_fingerprints_self : diff_remote_fingerprints sip t own ≡ some nothing
  diff_remote_fingerprints_self =
      let (r, e, _) = covered-Reach sip t own in
      diff_remote_fingerprints_total sip t own r e ∙ ap some (answer_self r)

-- A commit of the valid tree of the requestor, with a fingerprint that the responder has of none of
-- its commits, fragment heads and fragment boundaries, is asked for: the diff of the responder
-- comes, its fingerprints to ask for hold that of the commit, and the requestor resolves that
-- fingerprint to a commit of its tree which has it.
pub diff_remote_fingerprints-resolve_commit :
    (sip : SipHash) (seed : FingerprintSeed) (digests : Digests) (requestor responder : Sedimentree)
    → IsValid digests requestor
    → (id : CommitId) → has_loose_commit requestor id ≡ true
    → contains
        (fingerprint_summarize sip responder seed).commit_fingerprints
        (fingerprint sip seed id)
      ≡ false
    → (d : FingerprintDiff) × (diff_remote_fingerprints sip responder
          (fingerprint_resolver sip requestor seed).summary
        ≡ some d)
      × (contains d.remote_only_commit_fingerprints (fingerprint sip seed id) ≡ true)
      × (id' : CommitId) × (resolve_commit
            (fingerprint_resolver sip requestor seed)
            (fingerprint sip seed id)
          ≡ some id')
      × (has_loose_commit requestor id' ≡ true)
      × (fingerprint sip seed id' ≡ fingerprint sip seed id)
unfolding answer
diff_remote_fingerprints-resolve_commit sip seed digests requestor responder valid id member
      unknown =
    let summary : FingerprintSummary = (fingerprint_resolver sip requestor seed).summary in
    let (r, e, _) = covered-Reach sip responder summary in
    let (id', resolved, present, same) =
      resolve_commit_complete sip seed digests requestor valid id member in
    (
      answer sip responder summary r,
      diff_remote_fingerprints_total sip responder summary r e,
      asked,
      id',
      resolved,
      present,
      same,
    )
  where
    unknown_here :
        contains
          (local_commit_fps sip responder (fingerprint_resolver sip requestor seed).summary)
          (fingerprint sip seed id)
        ≡ false
    unknown_here =
        unfold local_commit_fps fingerprint_resolver in unfold fingerprint_summarize in unknown

    sent :
        contains
          (fingerprint_resolver sip requestor seed).summary.commit_fingerprints
          (fingerprint sip seed id)
        ≡ true
    sent =
        (fingerprint_resolver-fingerprint_summarize sip seed requestor).commits
          (fingerprint sip seed id)
        ∙ summary_names_commit sip seed requestor _ (
            member-fingerprint sip seed digests.commit requestor.commits id valid.commits_keyed
              (unfold has_loose_commit in rw (contains-keys requestor.commits id) member))

    asked :
        contains
          (filter
            (λ f. not (
              contains
                (local_commit_fps sip responder (fingerprint_resolver sip requestor seed).summary)
                f))
            (fingerprint_resolver sip requestor seed).summary.commit_fingerprints)
          (fingerprint sip seed id)
        ≡ true
    asked = rw (contains-filter, unknown_here) sent
