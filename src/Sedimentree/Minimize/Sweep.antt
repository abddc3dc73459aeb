-- ===== src/Sedimentree/Minimize/Sweep.antt =====
-- `keep_sets` of sedimentree.rs: the loops over the groups as one pass over a list.
use subduction.Fragment.{Fragment, depth, supports}
use subduction.Depth.{Depth, DepthMetric}
use subduction.Collections.Map.{Map}
use subduction.Sedimentree.Minimize.{entry_push, dominated_by_deeper, Kept, keep_group}
use subduction.Prelude.{
  ◌≡◌, refl, sym, ap, ◌∙◌, inl, inr, Bool, true, false, ◌&&◌, ◌||◌, List, [], ◌∷◌, ◌++◌, arith, ltb,
  if◌then◌else◌, ◌==◌, nat_eq, ==_iff, Bool-cases, any, All, bytes_eq, bytes_list_eq,
}

-- A test of the entries of a map, with their keys.
abbrev pub any_entry : (Depth → Fragment → Bool) → Map Depth (List Fragment) → Bool
any_entry p m = any (λ entry. any (p entry.0) entry.1) m

pub any-append {ℓ} :
    {A : Type ℓ} (p : A → Bool) (xs ys : List A) → any p (xs ++ ys) ≡ (any p xs || any p ys)
any-append p [] ys = refl
any-append p (x ∷ xs) ys = ground (arith, any-append p xs ys)

any-nothing {ℓ} : {A : Type ℓ} (xs : List A) → any (λ x. false) xs ≡ false
any-nothing [] = refl
any-nothing (x ∷ xs) = any-nothing xs

pub any_entry-entry_push :
    (p : Depth → Fragment → Bool) (m : Map Depth (List Fragment)) (d : Depth) (f : Fragment)
    → any_entry p (entry_push m d f) ≡ (any_entry p m || p d f)
unfolding entry_push
any_entry-entry_push p [] d f = ground arith
any_entry-entry_push p ((j, peers) ∷ m) d f = elim (Bool-cases (j == d)) [
  | inl hit ↦ ground (arith, hit, (==_iff j d).0 hit, any-append (p j) peers (f ∷ []))
  | inr miss ↦ ground (arith, miss, any_entry-entry_push p m d f)
]

module _ (metric : DepthMetric) where
  -- One fragment that is strictly deeper and supports another.
  abbrev pub dominates : Fragment → Fragment → Bool
  dominates f g = ltb (depth f metric) (depth g metric) && supports g f.summary metric

  abbrev pub Consistent : Kept → Type 0
  Consistent kept =
      (p : Depth → Fragment → Bool) → any_entry p kept.1 ≡ any (λ g. p (depth g metric) g) kept.0

  dominated_by_deeper-any_entry :
      (m : Map Depth (List Fragment)) (d : Depth) (f : Fragment)
      → dominated_by_deeper metric m d f
        ≡ any_entry (λ j g. ltb d j && supports g f.summary metric) m
  unfolding dominated_by_deeper
  dominated_by_deeper-any_entry [] d f = refl
  dominated_by_deeper-any_entry ((j, peers) ∷ m) d f = elim (Bool-cases (ltb d j)) [
    | inl deep ↦ ground (arith, deep, dominated_by_deeper-any_entry m d f)
    | inr shallow ↦ ground (arith, shallow, any-nothing peers, dominated_by_deeper-any_entry m d f)
  ]

  abbrev pub sweep : List Fragment → List Fragment → List Fragment
  sweep [] minimized = minimized
  sweep (f ∷ fs) minimized =
      sweep fs (if any (dominates f) minimized then minimized else minimized ++ (f ∷ []))

  -- One round of the inner loop.
  keep_group-next :
      (d : Depth) (f : Fragment) (fs : List Fragment) (kept : Kept) (b : Bool)
      → dominated_by_deeper metric kept.1 d f ≡ b
      → keep_group metric d (f ∷ fs) kept
        ≡ keep_group metric d fs (if b then kept else (kept.0 ++ (f ∷ []), entry_push kept.1 d f))
  unfolding keep_group
  keep_group-next d f fs (minimized, by_depth) b h =
      ap
        (λ x.
          keep_group metric d fs
            (if x then (minimized, by_depth) else (minimized ++ (f ∷ []), entry_push by_depth d f)))
        h

  -- A group of one depth is swept.
  pub keep_group-sweep :
      (d : Depth) (fs : List Fragment) (kept : Kept)
      → All (λ f. depth f metric ≡ d) fs
      → Consistent kept
      → Consistent (keep_group metric d fs kept)
        × ((keep_group metric d fs kept).0 ≡ sweep fs kept.0)
  unfolding keep_group
  keep_group-sweep d [] kept same c = (c, refl)
  keep_group-sweep d (f ∷ fs) (minimized, by_depth) same c =
      let test : dominated_by_deeper metric by_depth d f ≡ any (dominates f) minimized =
        dominated_by_deeper-any_entry by_depth d f
        ∙ c (λ j g. ltb d j && supports g f.summary metric)
        ∙ ap (λ j. any (λ g. ltb j (depth g metric) && supports g f.summary metric) minimized)
            (sym same.0) in
      elim (Bool-cases (any (dominates f) minimized)) [
        | inl over ↦
            rw (keep_group-next d f fs (minimized, by_depth) true (test ∙ over), over)
              (keep_group-sweep d fs (minimized, by_depth) same.1 c)
        | inr keep ↦
            rw (keep_group-next d f fs (minimized, by_depth) false (test ∙ keep), keep)
              (keep_group-sweep d fs (minimized ++ (f ∷ []), entry_push by_depth d f) same.1
                (λ p. ground (
                  arith,
                  any_entry-entry_push p by_depth d f,
                  any-append (λ g. p (depth g metric) g) minimized (f ∷ []),
                  same.0,
                  c p,
                )))
      ]
