-- ===== src/Sedimentree/Minimize/Groups.antt =====
-- `keep_sets` of sedimentree.rs: the groups in the order of their depths, as one list.
use subduction.Fragment.{Fragment, depth}
use subduction.Depth.{Depth, DepthMetric}
use subduction.Collections.Map
use subduction.Collections.Map.{Map, keys, values, get-retain_keys}
use subduction.Collections.Set.{contains}
use subduction.Sedimentree.Minimize.{
  entry_push, insert_depth, sort_depths, insert_sorted, sort_by_head, remove, group_of,
  group_by_depth, Kept, keep_group, keep_depths,
}
use subduction.Sedimentree.Minimize.Sweep.{
  any_entry, any-append, any_entry-entry_push, Consistent, sweep, keep_group-sweep,
}
use subduction.Prelude.{
  All-snoc, ◌≤◌, ◌≡◌, refl, sym, ap, ◌∙◌, inl, inr, Bool, true, false, not, ◌||◌, List, [], ◌∷◌,
  ◌++◌, arith, ltb, if◌then◌else◌, Eq, ◌==◌, nat_eq, ==_iff, ==-refl, Bool-cases, any, All,
  bytes_eq, le_of_ltb, lt_of_ltb, bytes_list_eq, All-imp,
}

any-ext {ℓ} :
    {A : Type ℓ} ⦃e : Eq A⦄ (p q : A → Bool) (xs : List A)
    → ((x : A) → contains xs x ≡ true → p x ≡ q x)
    → any p xs ≡ any q xs
unfolding contains
any-ext p q [] h = refl
any-ext p q (x ∷ xs) h =
    ground (arith, h x (ground (arith, ==-refl x)), any-ext p q xs (λ y m. h y (ground (arith, m))))

any-insert_depth :
    (p : Depth → Bool) (d : Depth) (xs : List Depth) → any p (insert_depth d xs) ≡ (p d || any p xs)
unfolding insert_depth
any-insert_depth p d [] = refl
any-insert_depth p d (x ∷ xs) = ground (arith, any-insert_depth p d xs)

pub any-sort_depths : (p : Depth → Bool) (xs : List Depth) → any p (sort_depths xs) ≡ any p xs
unfolding sort_depths
any-sort_depths p [] = refl
any-sort_depths p (d ∷ ds) =
    ground (arith, any-insert_depth p d (sort_depths ds), any-sort_depths p ds)

any-insert_sorted :
    (p : Fragment → Bool) (f : Fragment) (xs : List Fragment)
    → any p (insert_sorted f xs) ≡ (p f || any p xs)
unfolding insert_sorted
any-insert_sorted p f [] = refl
any-insert_sorted p f (x ∷ xs) = ground (arith, any-insert_sorted p f xs)

pub any-sort_by_head :
    (p : Fragment → Bool) (xs : List Fragment) → any p (sort_by_head xs) ≡ any p xs
unfolding sort_by_head
any-sort_by_head p [] = refl
any-sort_by_head p (f ∷ fs) =
    ground (arith, any-insert_sorted p f (sort_by_head fs), any-sort_by_head p fs)

-- Each depth is at most the one before.
abbrev pub Descending : List Depth → Type 0
Descending [] = Unit
Descending (d ∷ ds) = All (λ e. e ≤ d) ds × Descending ds

All-insert_depth :
    (d b : Depth) (xs : List Depth)
    → d ≤ b
    → All (λ e. e ≤ b) xs
    → All (λ e. e ≤ b) (insert_depth d xs)
unfolding insert_depth
All-insert_depth d b [] h a = (h, tt)
All-insert_depth d b (x ∷ xs) h a = elim (Bool-cases (ltb d x)) [
  | inl less ↦ rw less (a.0, All-insert_depth d b xs h a.1)
  | inr more ↦ rw more (h, (a.0, a.1))
]

insert_depth-Descending :
    (d : Depth) (xs : List Depth) → Descending xs → Descending (insert_depth d xs)
unfolding insert_depth
insert_depth-Descending d [] h = (tt, tt)
insert_depth-Descending d (x ∷ xs) h = elim (Bool-cases (ltb d x)) [
  | inl less ↦ rw less (
    All-insert_depth d x xs (omega (arith, lt_of_ltb d x less)) h.0,
    insert_depth-Descending d xs h.1,
  )
  | inr more ↦
      let le : x ≤ d = le_of_ltb d x more in
      rw more ((le, All-imp _ _ (λ e w. omega (arith, w, le)) xs h.0), (h.0, h.1))
]

pub sort_depths-Descending : (xs : List Depth) → Descending (sort_depths xs)
unfolding sort_depths
sort_depths-Descending [] = tt
sort_depths-Descending (d ∷ ds) =
    insert_depth-Descending d (sort_depths ds) (sort_depths-Descending ds)

-- The groups, each taken out of the map.
unfoldable pub flat : List Depth → Map Depth (List Fragment) → List Fragment
flat [] m = []
flat (d ∷ ds) m = group_of m d ++ flat ds (remove m d)

group_of-remove :
    (m : Map Depth (List Fragment)) (d e : Depth)
    → group_of (remove m d) e ≡ (if e == d then [] else group_of m e)
unfolding remove group_of
group_of-remove m d e = ground (arith, get-retain_keys (λ k. not (k == d)) m e)

group_of-entry_push :
    (m : Map Depth (List Fragment)) (d e : Depth) (f : Fragment)
    → group_of (entry_push m d f) e ≡ (if d == e then group_of m e ++ (f ∷ []) else group_of m e)
unfolding entry_push Map.get group_of
group_of-entry_push [] d e f = ground arith
group_of-entry_push ((j, peers) ∷ m) d e f = elim (Bool-cases (j == d)) [
  | inl hit ↦ ground (arith, hit, (==_iff j d).0 hit)
  | inr miss ↦ elim (Bool-cases (j == e)) [
    | inl same ↦ ground (arith, miss, same, (==_iff j e).0 same)
    | inr other ↦ ground (arith, miss, other, group_of-entry_push m d e f)
  ]
]

any-without :
    (p : Fragment → Bool) (m : Map Depth (List Fragment)) (d : Depth) (es : List Depth)
    → (any p (group_of m d) || any (λ e. any p (group_of (remove m d) e)) es)
      ≡ (any p (group_of m d) || any (λ e. any p (group_of m e)) es)
any-without p m d [] = refl
any-without p m d (e ∷ es) = elim (Bool-cases (e == d)) [
  | inl hit ↦ ground (arith, hit, (==_iff e d).0 hit, group_of-remove m d e, any-without p m d es)
  | inr miss ↦ ground (arith, miss, group_of-remove m d e, any-without p m d es)
]

pub any-flat :
    (p : Fragment → Bool) (ds : List Depth) (m : Map Depth (List Fragment))
    → any p (flat ds m) ≡ any (λ d. any p (group_of m d)) ds
unfolding flat
any-flat p [] m = refl
any-flat p (d ∷ ds) m = ground (
  arith,
  any-append p (group_of m d) (flat ds (remove m d)),
  any-flat p ds (remove m d),
  any-without p m d ds,
)

-- The keys are distinct.
abbrev pub Distinct : Map Depth (List Fragment) → Type 0
Distinct [] = Unit
Distinct ((j, _) ∷ m) = (contains (keys m) j ≡ false) × Distinct m

contains-entry_push :
    (m : Map Depth (List Fragment)) (d e : Depth) (f : Fragment)
    → contains (keys (entry_push m d f)) e ≡ (d == e || contains (keys m) e)
unfolding entry_push contains
contains-entry_push [] d e f = ground arith
contains-entry_push ((j, peers) ∷ m) d e f = elim (Bool-cases (j == d)) [
  | inl hit ↦ ground (arith, hit, (==_iff j d).0 hit)
  | inr miss ↦ ground (arith, miss, contains-entry_push m d e f)
]

entry_push-Distinct :
    (m : Map Depth (List Fragment)) (d : Depth) (f : Fragment)
    → Distinct m
    → Distinct (entry_push m d f)
unfolding entry_push contains
entry_push-Distinct [] d f h = (refl, tt)
entry_push-Distinct ((j, peers) ∷ m) d f h = elim (Bool-cases (j == d)) [
  | inl hit ↦ rw hit h
  | inr miss ↦
      rw miss
        (ground (arith, miss, h.0, contains-entry_push m d j f), entry_push-Distinct m d f h.1)
]

group_of-cons :
    (j d : Depth) (peers : List Fragment) (m : Map Depth (List Fragment))
    → group_of ((j, peers) ∷ m) d ≡ (if j == d then peers else group_of m d)
unfolding group_of Map.get
group_of-cons j d peers m = ground arith

-- With distinct keys, what is found under a key is what the entry holds.
pub any-groups :
    (p : Fragment → Bool) (m : Map Depth (List Fragment))
    → Distinct m
    → any (λ d. any p (group_of m d)) (keys m) ≡ any_entry (λ _. p) m
any-groups p [] h = refl
any-groups p ((j, peers) ∷ m) h =
    let later : any (λ d. any p (group_of ((j, peers) ∷ m) d)) (keys m)
        ≡ any (λ d. any p (group_of m d)) (keys m) =
      any-ext _ _ (keys m) (λ d member. elim (Bool-cases (j == d)) [
        | inl hit ↦ absurd (cc (h.0, member, (==_iff j d).0 hit))
        | inr miss ↦ ground (arith, miss, group_of-cons j d peers m)
      ]) in
    ground (arith, group_of-cons j j peers m, ==-refl j, later, any-groups p m h.1)

module _ (metric : DepthMetric) where
  -- Every fragment stands in the group of its depth.
  abbrev pub Grouped : Map Depth (List Fragment) → Type 0
  Grouped m = (d : Depth) → All (λ f. depth f metric ≡ d) (group_of m d)

  entry_push-Grouped :
      (m : Map Depth (List Fragment)) (f : Fragment)
      → Grouped m
      → Grouped (entry_push m (depth f metric) f)
  entry_push-Grouped m f g d = elim (Bool-cases (depth f metric == d)) [
    | inl hit ↦
        rw (group_of-entry_push m (depth f metric) d f, hit)
          (All-snoc _ (group_of m d) f (g d) ((==_iff (depth f metric) d).0 hit))
    | inr miss ↦ rw (group_of-entry_push m (depth f metric) d f, miss) (g d)
  ]

  pub remove-Grouped :
      (m : Map Depth (List Fragment)) (d : Depth) → Grouped m → Grouped (remove m d)
  remove-Grouped m d g e = elim (Bool-cases (e == d)) [
    | inl hit ↦ rw (group_of-remove m d e, hit) tt
    | inr miss ↦ rw (group_of-remove m d e, miss) (g e)
  ]

  -- What the grouping makes of a list.
  pub group_by_depth_lem :
      (fs : List Fragment) (m : Map Depth (List Fragment))
      → Grouped m
      → Distinct m
      → Grouped (group_by_depth metric m fs)
        × Distinct (group_by_depth metric m fs)
        × ((p : Fragment → Bool)
            → any_entry (λ _. p) (group_by_depth metric m fs) ≡ (any_entry (λ _. p) m || any p fs))
  unfolding group_by_depth
  group_by_depth_lem [] m g d = (g, d, λ p. ground arith)
  group_by_depth_lem (f ∷ fs) m g d =
      let m' = entry_push m (depth f metric) f in
      let (g', d', e) =
        group_by_depth_lem fs m' (entry_push-Grouped m f g)
          (entry_push-Distinct m (depth f metric) f d) in
      (g', d', λ p. ground (arith, e p, any_entry-entry_push (λ _. p) m (depth f metric) f))

  -- The loops of `keep_sets` sweep the groups in their order.
  pub keep_depths-sweep :
      (ds : List Depth) (m : Map Depth (List Fragment)) (kept : Kept)
      → Grouped m
      → Consistent metric kept
      → (keep_depths metric ds m kept).0 ≡ sweep metric (flat ds m) kept.0
  unfolding keep_depths flat
  keep_depths-sweep [] m kept g c = refl
  keep_depths-sweep (d ∷ ds) m kept g c =
      let (c', e) = keep_group-sweep metric d (group_of m d) kept (g d) c in
      keep_depths-sweep ds (remove m d) (keep_group metric d (group_of m d) kept)
        (remove-Grouped m d g) c'
      ∙ ap (sweep metric (flat ds (remove m d))) e
      ∙ sym (sweep-append (group_of m d) (flat ds (remove m d)) kept.0)
    where
      sweep-append :
          (xs ys minimized : List Fragment)
          → sweep metric (xs ++ ys) minimized ≡ sweep metric ys (sweep metric xs minimized)
      sweep-append [] ys minimized = refl
      sweep-append (x ∷ xs) ys minimized = sweep-append xs ys _
