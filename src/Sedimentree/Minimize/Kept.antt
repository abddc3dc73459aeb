-- ===== src/Sedimentree/Minimize/Kept.antt =====
-- `keep_sets` of sedimentree.rs: which fragments stay.
use subduction.Fragment.{Fragment, depth}
use subduction.Depth.{Depth, DepthMetric}
use subduction.Collections.Map
use subduction.Collections.Map.{Map, keys, values}
use subduction.Sedimentree.{Sedimentree}
use subduction.Sedimentree.Minimize.{
  sort_depths, sort_by_head, remove, group_of, group_by_depth, keep_depths, minimized_fragments,
}
use subduction.Sedimentree.Minimize.Sweep.{any-append, dominates, sweep}
use subduction.Sedimentree.Minimize.Groups.{
  Descending, sort_depths-Descending, flat, any-flat, any-sort_depths, any-sort_by_head, any-groups,
  Grouped, remove-Grouped, group_by_depth_lem, keep_depths-sweep,
}
use subduction.Prelude.{
  ◌≤◌, ◌≡◌, refl, sym, ap, ◌∙◌, inl, inr, Bool, true, false, not, ◌&&◌, ◌||◌, List, [], ◌∷◌, ◌++◌,
  arith, ltb, if◌then◌else◌, nat_eq, Bool-cases, any, All, bytes_eq, ltb_of_le, bytes_list_eq,
  All-imp, append-All,
}

module _ (metric : DepthMetric) where
  -- No fragment is deeper than one before it.
  abbrev Descends : List Fragment → Type 0
  Descends [] = Unit
  Descends (f ∷ fs) = All (λ g. depth g metric ≤ depth f metric) fs × Descends fs

  -- What comes later is not strictly deeper.
  sweep-dominates :
      (f : Fragment) (fs minimized : List Fragment)
      → All (λ g. depth g metric ≤ depth f metric) fs
      → any (dominates metric f) (sweep metric fs minimized) ≡ any (dominates metric f) minimized
  sweep-dominates f [] minimized h = refl
  sweep-dominates f (g ∷ fs) minimized h =
      let not_deeper : ltb (depth f metric) (depth g metric) ≡ false =
        ltb_of_le (depth f metric) (depth g metric) h.0 in
      elim (Bool-cases (any (dominates metric g) minimized)) [
        | inl over ↦ rw over (sweep-dominates f fs minimized h.1)
        | inr kept ↦ rw kept (
            sweep-dominates f fs (minimized ++ (g ∷ [])) h.1
            ∙ ground (arith, any-append (dominates metric f) minimized (g ∷ []), not_deeper))
      ]

  sweep_lem :
      (p : Fragment → Bool) (fs minimized kept : List Fragment)
      → Descends fs
      → sweep metric fs minimized ≡ kept
      → any p kept ≡ (any p minimized || any (λ f. p f && not (any (dominates metric f) kept)) fs)
  sweep_lem p [] minimized kept h e = ground (arith, ap (any p) e)
  sweep_lem p (f ∷ fs) minimized kept h e =
      let next : (b : Bool)
          → any (dominates metric f) minimized ≡ b
          → sweep metric fs (if b then minimized else minimized ++ (f ∷ [])) ≡ kept =
        λ b q.
          sym (ap (λ b. sweep metric fs (if b then minimized else minimized ++ (f ∷ []))) q) ∙ e in
      elim (Bool-cases (any (dominates metric f) minimized)) [
        | inl over ↦
            let e' : sweep metric fs minimized ≡ kept = next true over in
            let gone : any (dominates metric f) kept ≡ true =
              ap (any (dominates metric f)) (sym e') ∙ sweep-dominates f fs minimized h.0 ∙ over in
            ground (arith, gone, sweep_lem p fs minimized kept h.1 e')
        | inr kept_too ↦
            let e' : sweep metric fs (minimized ++ (f ∷ [])) ≡ kept = next false kept_too in
            let same : ltb (depth f metric) (depth f metric) ≡ false =
              ltb_of_le (depth f metric) (depth f metric) (omega arith) in
            let stays : any (dominates metric f) kept ≡ false =
              ap (any (dominates metric f)) (sym e')
              ∙ sweep-dominates f fs (minimized ++ (f ∷ [])) h.0
              ∙ ground
                  (arith, any-append (dominates metric f) minimized (f ∷ []), kept_too, same) in
            ground (
              arith,
              stays,
              sweep_lem p fs (minimized ++ (f ∷ [])) kept h.1 e',
              any-append p minimized (f ∷ []),
            )
      ]

  flat-bound :
      (d : Depth) (ds : List Depth) (m : Map Depth (List Fragment))
      → All (λ e. e ≤ d) ds
      → Grouped metric m
      → All (λ g. depth g metric ≤ d) (flat ds m)
  unfolding flat
  flat-bound d [] m h g = tt
  flat-bound d (e ∷ ds) m h g =
      append-All _ (group_of m e) (flat ds (remove m e))
        (All-imp _ _ (λ x w. omega (arith, w, h.0)) (group_of m e) (g e))
        (flat-bound d ds (remove m e) h.1 (remove-Grouped metric m e g))

  group-Descends :
      (d : Depth) (fs rest : List Fragment)
      → All (λ f. depth f metric ≡ d) fs
      → All (λ f. depth f metric ≤ d) rest
      → Descends rest
      → Descends (fs ++ rest)
  group-Descends d [] rest same below h = h
  group-Descends d (f ∷ fs) rest same below h = (
    append-All _ fs rest (All-imp _ _ (λ x w. omega (arith, w, same.0)) fs same.1)
        (All-imp _ _ (λ x w. omega (arith, w, same.0)) rest below),
    group-Descends d fs rest same.1 below h,
  )

  flat-Descends :
      (ds : List Depth) (m : Map Depth (List Fragment))
      → Descending ds
      → Grouped metric m
      → Descends (flat ds m)
  unfolding flat
  flat-Descends [] m h g = tt
  flat-Descends (d ∷ ds) m h g =
      group-Descends d (group_of m d) (flat ds (remove m d)) (g d)
        (flat-bound d ds (remove m d) h.0 (remove-Grouped metric m d g))
        (flat-Descends ds (remove m d) h.1 (remove-Grouped metric m d g))

  -- Minimization keeps exactly those fragments of the tree that no kept fragment of strictly
  -- greater depth supports: any test that a kept fragment passes is passed by such a fragment, and
  -- conversely.
  pub minimized_fragments_lem :
      (self : Sedimentree) (p : Fragment → Bool)
      → any p (minimized_fragments metric self)
        ≡ any
            (λ f. p f && not (any (dominates metric f) (minimized_fragments metric self)))
            (values self.fragments)
  unfolding minimized_fragments group_of
  minimized_fragments_lem self p =
      let sorted = sort_by_head (values self.fragments) in
      let m = group_by_depth metric [] sorted in
      let ds = sort_depths (keys m) in
      let (grouped, distinct, entries) =
        group_by_depth_lem metric sorted [] (λ d. unfold Map.get in tt) tt in
      let kept = (keep_depths metric ds m ([], [])).0 in
      let swept = keep_depths-sweep metric ds m ([], []) grouped (λ q. refl) in
      let q : Fragment → Bool = λ f. p f && not (any (dominates metric f) kept) in
      sweep_lem p (flat ds m) [] kept (flat-Descends ds m (sort_depths-Descending (keys m)) grouped)
        (sym swept)
      ∙ any-flat q ds m
      ∙ any-sort_depths (λ d. any q (group_of m d)) (keys m)
      ∙ any-groups q m distinct
      ∙ entries q
      ∙ any-sort_by_head q (values self.fragments)
