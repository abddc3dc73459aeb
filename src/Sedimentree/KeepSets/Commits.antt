-- ===== src/Sedimentree/KeepSets/Commits.antt =====
-- sedimentree.rs, `keep_sets`: of a tree that was minimized, the pass over the loose commits keeps
-- all, if no commit is its own ancestor.
use subduction.Identity.{CommitId}
use subduction.LooseCommit.{LooseCommit}
use subduction.Fragment.{Fragment}
use subduction.Depth.{DepthMetric, is_boundary}
use subduction.Collections.Set.{contains}
use subduction.Collections.Members.{In, any-In, In-any}
use subduction.CommitDag.Simplify.{range_at}
use subduction.CommitDag.Simplify.Links.{heads, has_child, is_parent}
use subduction.CommitDag.Simplify.Collected.{keeps}
use subduction.CommitDag.Simplify.Reached.{InRange, tip, ancestor, Carries, range_at-Carries}
use subduction.Prelude.{
  ℕ, zero, suc, ◌<◌, ◌≡◌, refl, sym, ap, ◌∙◌, subst, ◌↔◌, inl, inr, Bool, true, false, ◌&&◌, Option,
  none, some, List, [], ◌∷◌, arith, ◌==◌, nat_eq, ==_iff, ==-refl, Bool-cases, bytes_eq,
  bytes_list_eq,
}

heads-In :
    (cs : List LooseCommit) (id : CommitId)
    → contains (heads cs) id ≡ true
    → (c : LooseCommit) × In c cs × (c.head ≡ id)
unfolding contains
heads-In [] id h = cc
heads-In (c ∷ cs) id h = elim (Bool-cases (c.head == id)) [
  | inl hit ↦ (c, inl refl, (==_iff c.head id).0 hit)
  | inr miss ↦ let (d, m, e) = heads-In cs id (ground (arith, h, miss)) in (d, inr m, e)
]

pub In-heads :
    (cs : List LooseCommit) (c : LooseCommit) → In c cs → contains (heads cs) c.head ≡ true
unfolding contains
In-heads [] c m = absurd m
In-heads (d ∷ cs) c (inl e) =
    let same : d.head ≡ c.head = ap (λ (x : LooseCommit). x.head) e in
    ground (arith, (==_iff d.head c.head).1 same)
In-heads (d ∷ cs) c (inr m) = ground (arith, In-heads cs c m)

Carries-boundary :
    (metric : DepthMetric) (id : CommitId) (before range : Option CommitId)
    → is_boundary (metric id) ≡ true
    → Carries metric id before range
    → range ≡ some id
Carries-boundary metric id before range h (inl (boundary, e)) = sym e
Carries-boundary metric id before range h (inr (inner, e)) = absurd (cc (h, inner))

Carries-inner :
    (metric : DepthMetric) (id : CommitId) (before range : Option CommitId)
    → is_boundary (metric id) ≡ false
    → Carries metric id before range
    → before ≡ range
Carries-inner metric id before range h (inl (boundary, e)) = absurd (cc (h, boundary))
Carries-inner metric id before range h (inr (inner, e)) = e

-- A boundary commit is in its own range only.
InRange-boundary :
    {cs : List LooseCommit} {metric : DepthMetric} {id : CommitId} {range : Option CommitId}
    → is_boundary (metric id) ≡ true
    → InRange cs metric id range
    → range ≡ some id
InRange-boundary {metric} h (tip {id} {range} member lone e) =
    Carries-boundary metric id none range h e
InRange-boundary {metric} h (ancestor {child} {id} {before} {range} comes member parent e) =
    Carries-boundary metric id before range h e

module _ (cs cs' : List LooseCommit) (metric : DepthMetric) (fs : List Fragment)
    (keep : CommitId → Bool)
    (kept : (c : LooseCommit) → In c cs' ↔ (In c cs × (keep c.head ≡ true)))
    (spec : (id : CommitId)
      → (keep id ≡ true)
        ↔ ((range : Option CommitId) × InRange cs metric id range × (keeps fs range ≡ true)))
    (rank : CommitId → ℕ)
    (acyclic : (parent id : CommitId) → is_parent cs parent id ≡ true → rank id < rank parent) where
  parent_kept :
      (parent : CommitId) (c : LooseCommit)
      → In c cs'
      → contains c.parents parent ≡ true
      → (is_parent cs' parent c.head ≡ true) × (is_parent cs parent c.head ≡ true)
  parent_kept parent c m h =
      let test : LooseCommit → Bool = λ d. d.head == c.head && contains d.parents parent in
      let passes : test c ≡ true = ground (arith, h, ==-refl c.head) in
      (In-any test cs' c m passes, In-any test cs c ((kept c).0 m).0 passes)

  -- Every commit that is left is reached from a tip of those that are left.
  reached :
      (n : ℕ) (id : CommitId)
      → rank id < n
      → contains (heads cs') id ≡ true
      → (range : Option CommitId) × InRange cs' metric id range
  reached zero id lt member = absurd (omega (arith, lt))
  reached (suc n) id lt member = elim (Bool-cases (has_child cs' id)) [
    | inr lone ↦ (range_at metric id none, tip member lone (range_at-Carries metric id none))
    | inl child ↦
        let (c, m, h) = any-In (λ (c : LooseCommit). contains c.parents id) cs' child in
        let (link', link) = parent_kept id c m h in
        let (range, comes) =
          reached n c.head (omega (arith, lt, acyclic id c.head link)) (In-heads cs' c m) in
        (range_at metric id range, ancestor comes member link' (range_at-Carries metric id range))
  ]

  member_left :
      (id : CommitId)
      → contains (heads cs) id ≡ true
      → keep id ≡ true
      → contains (heads cs') id ≡ true
  member_left id member k =
      let (c, m, e) = heads-In cs id member in
      subst (λ x. contains (heads cs') x ≡ true) e (In-heads cs' c ((kept c).1 (m, ap keep e ∙ k)))

  childless_left : (id : CommitId) → has_child cs id ≡ false → has_child cs' id ≡ false
  childless_left id lone = elim (Bool-cases (has_child cs' id)) [
    | inr none_left ↦ none_left
    | inl child ↦
        let (c, m, h) = any-In (λ (c : LooseCommit). contains c.parents id) cs' child in
        let before : has_child cs id ≡ true =
          In-any (λ (c : LooseCommit). contains c.parents id) cs c ((kept c).0 m).0 h in
        absurd (cc (before, lone))
  ]

  link_left :
      (id child : CommitId)
      → is_parent cs id child ≡ true
      → keep child ≡ true
      → is_parent cs' id child ≡ true
  link_left id child link k =
      let test : LooseCommit → Bool = λ c. c.head == child && contains c.parents id in
      let (c, m, h) = any-In test cs link in
      let same : c.head ≡ child = (==_iff c.head child).0 (ground (arith, h)) in
      In-any test cs' c ((kept c).1 (m, ap keep same ∙ k)) h

  -- A range that keeps a commit is there among the commits that are left.
  pub range_left :
      {id : CommitId} {range : Option CommitId}
      → InRange cs metric id range
      → keeps fs range ≡ true
      → (range' : Option CommitId) × InRange cs' metric id range' × (keeps fs range' ≡ true)
  range_left (tip {id} {range} member lone e) k =
      let stays = (spec id).1 (range, tip member lone e, k) in
      (range, tip (member_left id member stays) (childless_left id lone) e, k)
  range_left (ancestor {child} {id} {before} {range} comes member parent e) k =
      let here : InRange cs metric id range = ancestor comes member parent e in
      let member' = member_left id member ((spec id).1 (range, here, k)) in
      elim (Bool-cases (is_boundary (metric id))) [
        | inl boundary ↦
            let (range', comes') = reached (suc (rank id)) id (omega arith) member' in
            let same : range ≡ range' =
              InRange-boundary boundary here ∙ sym (InRange-boundary boundary comes') in
            (range', comes', ap (keeps fs) (sym same) ∙ k)
        | inr inner ↦
            let same : before ≡ range = Carries-inner metric id before range inner e in
            let k' : keeps fs before ≡ true = ap (keeps fs) same ∙ k in
            let stays = (spec child).1 (before, comes, k') in
            let (range', comes', left) = range_left comes k' in
            (
              range',
              ancestor comes' member' (link_left id child parent stays) (inr (inner, refl)),
              left,
            )
      ]
