-- ===== src/Sedimentree/KeepSets/Fragments.antt =====
-- sedimentree.rs, `keep_sets`: on a tree that was minimized, the pass over the fragments keeps all.
use subduction.Identity.{CommitId}
use subduction.Fragment.{Fragment, head}
use subduction.Depth.{DepthMetric}
use subduction.Collections.Map.{Map, values, retain_keys}
use subduction.Collections.Members.{In, any-In, In-any, Bool_ext}
use subduction.Sedimentree.{Sedimentree}
use subduction.Sedimentree.Minimize.{minimized_fragments}
use subduction.Sedimentree.Minimize.Sweep.{dominates}
use subduction.Sedimentree.Minimize.Kept.{minimized_fragments_lem}
use subduction.Prelude.{
  ◌≡◌, sym, ap, ◌∙◌, subst, ◌↔◌, inl, inr, Bool, true, false, not, ◌&&◌, List, [], ◌∷◌, arith, ◌==◌,
  nat_eq, ==_iff, ==-refl, Bool-cases, any, All, bytes_eq, bytes_list_eq,
}

module _ {V : Type 0} (key_of : V → CommitId) where
  -- The values that stand under a key that passes.
  pub In-retain_keys :
      (keep : CommitId → Bool) (m : Map CommitId V) (v : V)
      → All (λ e. key_of e.1 ≡ e.0) m
      → In v (values (retain_keys keep m)) ↔ (In v (values m) × (keep (key_of v) ≡ true))
  unfolding retain_keys
  In-retain_keys keep [] v h = (λ m. absurd m, λ m. absurd m.0)
  In-retain_keys keep ((k, w) ∷ m) v h =
      let (from, to) = In-retain_keys keep m v h.1 in
      elim (Bool-cases (keep k)) [
        | inl hit ↦
            rw (hit, retain_keys)
              (
                λ n. elim n [
                  | inl e ↦ (inl e, ap (λ x. keep (key_of x)) (sym e) ∙ ap keep h.0 ∙ hit)
                  | inr rest ↦ let (n', q) = from rest in (inr n', q)
                ],
                λ n. elim n.0 [ inl e ↦ inl e | inr rest ↦ inr (to (rest, n.1)) ],
              )
        | inr miss ↦
            rw (miss, retain_keys)
              (
                λ n. let (n', q) = from n in (inr n', q),
                λ n. elim n.0 [
                  | inl e ↦ absurd (
                      let q : keep k ≡ true =
                        ap keep (sym h.0) ∙ ap (λ x. keep (key_of x)) e ∙ n.1 in
                      cc (q, miss))
                  | inr rest ↦ to (rest, n.1)
                ],
              )
      ]

-- The tree after the first pass: its fragments are those under the heads that were kept.
module _ (metric : DepthMetric) (t t' : Sedimentree)
    (unique : (f g : Fragment)
      → In f (values t.fragments)
      → In g (values t.fragments)
      → head f ≡ head g
      → f ≡ g)
    (retained : (f : Fragment)
      → In f (values t'.fragments) ↔ (
          In f (values t.fragments)
          × (any (λ g. head g == head f) (minimized_fragments metric t) ≡ true))) where
  abbrev K : List Fragment
  K = minimized_fragments metric t

  abbrev K' : List Fragment
  K' = minimized_fragments metric t'

  -- What is left is not dominated by what the first pass kept.
  left-undominated :
      (f : Fragment) → In f (values t'.fragments) → any (dominates metric f) K ≡ false
  left-undominated f m =
      let (n, listed) = (retained f).0 m in
      let test : Fragment → Bool =
        λ g. head g == head f && not (any (dominates metric g) (minimized_fragments metric t)) in
      let (g, at, q) =
        any-In test (values t.fragments)
          (sym (minimized_fragments_lem metric t (λ g. head g == head f)) ∙ listed) in
      let same : g ≡ f = unique g f at n ((==_iff (head g) (head f)).0 (ground (arith, q))) in
      subst (λ x. any (dominates metric x) K ≡ false) same (ground (arith, q))

  -- What the first pass kept is left.
  kept-left : (p : Fragment → Bool) → any p K ≡ any p (values t'.fragments)
  kept-left p =
      Bool_ext _ _
        (λ h.
          let test : Fragment → Bool = λ f. p f && not (any (dominates metric f) K) in
          let (f, at, q) =
            any-In test (values t.fragments) (sym (minimized_fragments_lem metric t p) ∙ h) in
          let listed : any (λ g. head g == head f) K ≡ true =
            minimized_fragments_lem metric t (λ g. head g == head f)
            ∙ In-any (λ g. head g == head f && not (any (dominates metric g) K))
                (values t.fragments) f at (ground (arith, q, ==-refl (head f))) in
          In-any p (values t'.fragments) f ((retained f).1 (at, listed)) (ground (arith, q)))
        (λ h.
          let (f, at, q) = any-In p (values t'.fragments) h in
          minimized_fragments_lem metric t p
          ∙ In-any (λ f. p f && not (any (dominates metric f) K)) (values t.fragments) f
              ((retained f).0 at).0 (ground (arith, q, left-undominated f at)))

  -- Nothing that is left is dominated in the second pass.
  left_again : (f : Fragment) → In f (values t'.fragments) → any (dominates metric f) K' ≡ false
  left_again f m = elim (Bool-cases (any (dominates metric f) K')) [
    | inr free ↦ free
    | inl hit ↦
        let (g, at, q) =
          any-In (λ g. dominates metric f g && not (any (dominates metric g) K'))
            (values t'.fragments)
            (sym (minimized_fragments_lem metric t' (dominates metric f)) ∙ hit) in
        let deeper : any (dominates metric f) K ≡ true =
          kept-left (dominates metric f)
          ∙ In-any (dominates metric f) (values t'.fragments) g at (ground (arith, q)) in
        absurd (cc (deeper, left-undominated f m))
  ]

  -- The second pass keeps what the first kept.
  pub minimized_again : (p : Fragment → Bool) → any p K' ≡ any p K
  minimized_again p =
      Bool_ext _ _
        (λ h.
          let (f, at, q) =
            any-In (λ f. p f && not (any (dominates metric f) K')) (values t'.fragments)
              (sym (minimized_fragments_lem metric t' p) ∙ h) in
          kept-left p ∙ In-any p (values t'.fragments) f at (ground (arith, q)))
        (λ h.
          let (f, at, q) = any-In p (values t'.fragments) (sym (kept-left p) ∙ h) in
          minimized_fragments_lem metric t' p
          ∙ In-any (λ f. p f && not (any (dominates metric f) K')) (values t'.fragments) f at
              (ground (arith, q, left_again f at)))
