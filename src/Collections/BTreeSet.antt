-- ===== src/Collections/BTreeSet.antt =====
-- `BTreeSet` of byte arrays: strictly ascending, which is also the order of iteration.
use subduction.Prelude.{Bytes, ◌≡◌, true, List, [], ◌∷◌, bytes_ltb, if◌then◌else◌}

unfoldable pub insert : Bytes → List Bytes → List Bytes
insert a [] = a ∷ []
insert a (x ∷ s) =
    if bytes_ltb a x then a ∷ x ∷ s else if bytes_ltb x a then x ∷ insert a s else x ∷ s

-- `into_iter().collect()`, which inserts from the front on.
unfoldable pub collect_into : List Bytes → List Bytes → List Bytes
collect_into s [] = s
collect_into s (x ∷ xs) = collect_into (insert x s) xs

unfoldable pub collect : List Bytes → List Bytes
unfolding collect_into
collect xs = collect_into [] xs

-- Each element is below the next.
abbrev pub IsAscending : List Bytes → Type 0
IsAscending [] = Unit
IsAscending (x ∷ []) = Unit
IsAscending (x ∷ y ∷ s) = (bytes_ltb x y ≡ true) × IsAscending (y ∷ s)
