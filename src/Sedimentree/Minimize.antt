-- ===== src/Sedimentree/Minimize.antt =====
-- The pass of `keep_sets` of sedimentree.rs over the fragments.
pub mod Sweep
pub mod Groups
pub mod Kept
use subduction.Fragment.{Fragment, head, depth, supports}
use subduction.Depth.{Depth, DepthMetric}
use subduction.Collections.Map
use subduction.Collections.Map.{Map, keys, values, retain_keys}
use subduction.Sedimentree.{Sedimentree}
use subduction.Prelude.{
  Bool, not, none, some, List, [], ◌∷◌, ◌++◌, ltb, if◌then◌else◌, ◌==◌, nat_eq, filter, any,
  bytes_eq, bytes_ltb, bytes_list_eq,
}

-- `sort_by_key(|f| *f.head().as_bytes())`, which keeps the order of equal keys.
unfoldable pub insert_sorted : Fragment → List Fragment → List Fragment
insert_sorted f [] = f ∷ []
insert_sorted f (x ∷ xs) =
    if bytes_ltb (head x) (head f) then x ∷ insert_sorted f xs else f ∷ x ∷ xs

unfoldable pub sort_by_head : List Fragment → List Fragment
sort_by_head [] = []
sort_by_head (f ∷ fs) = insert_sorted f (sort_by_head fs)

-- `map.entry(depth).or_default().push(fragment)`
unfoldable pub entry_push : Map Depth (List Fragment) → Depth → Fragment → Map Depth (List Fragment)
entry_push [] d f = (d, f ∷ []) ∷ []
entry_push ((j, peers) ∷ m) d f =
    if j == d then (j, peers ++ (f ∷ [])) ∷ m else (j, peers) ∷ entry_push m d f

-- `depths.sort_by(|a, b| b.cmp(a))`
unfoldable pub insert_depth : Depth → List Depth → List Depth
insert_depth d [] = d ∷ []
insert_depth d (x ∷ xs) = if ltb d x then x ∷ insert_depth d xs else d ∷ x ∷ xs

unfoldable pub sort_depths : List Depth → List Depth
sort_depths [] = []
sort_depths (d ∷ ds) = insert_depth d (sort_depths ds)

-- `remove`, as `by_depth.remove(&depth)` leaves the map.
unfoldable pub remove : Map Depth (List Fragment) → Depth → Map Depth (List Fragment)
remove m d = retain_keys (λ k. not (k == d)) m

unfoldable pub group_of : Map Depth (List Fragment) → Depth → List Fragment
group_of m d = elim (Map.get m d) [ none ↦ [] | some group ↦ group ]

-- `minimized_fragments` and `kept_fragments_by_depth`
abbrev pub Kept : Type 0
Kept = List Fragment × Map Depth (List Fragment)

module _ (metric : DepthMetric) where
  -- `for fragment in sorted_frags { by_depth.entry(…).or_default().push(fragment); }`
  unfoldable pub group_by_depth :
      Map Depth (List Fragment) → List Fragment → Map Depth (List Fragment)
  group_by_depth m [] = m
  group_by_depth m (f ∷ fs) = group_by_depth (entry_push m (depth f metric) f) fs

  -- `kept_fragments_by_depth.iter().filter(…).any(…)`
  unfoldable pub dominated_by_deeper : Map Depth (List Fragment) → Depth → Fragment → Bool
  dominated_by_deeper kept d fragment =
      any (λ entry. any (λ deeper. supports deeper fragment.summary metric) entry.1)
        (filter (λ entry. ltb d entry.0) kept)

  unfoldable pub keep_group : Depth → List Fragment → Kept → Kept
  keep_group d [] kept = kept
  keep_group d (f ∷ fs) (minimized, by_depth) = keep_group d fs (
      if dominated_by_deeper by_depth d f
      then (minimized, by_depth)
      else (minimized ++ (f ∷ []), entry_push by_depth d f))

  unfoldable pub keep_depths : List Depth → Map Depth (List Fragment) → Kept → Kept
  keep_depths [] by_depth kept = kept
  keep_depths (d ∷ ds) by_depth kept =
      keep_depths ds (remove by_depth d) (keep_group d (group_of by_depth d) kept)

  unfoldable pub minimized_fragments : Sedimentree → List Fragment
  minimized_fragments self =
      let by_depth = group_by_depth [] (sort_by_head (values self.fragments)) in
      (keep_depths (sort_depths (keys by_depth)) by_depth ([], [])).0
