-- ===== src/Collections/BoundedShardedMap/Shards.antt =====
-- The keys of one shard of a `BoundedShardedMap`.
use subduction.Collections.Map
use subduction.Collections.Map.{Map, keys, get-insert, contains-keys}
use subduction.Collections.Set.{contains}
use subduction.Collections.Index.{Distinct}
use subduction.Collections.Members.{Bool_ext}
use subduction.Prelude.{
  suc, ◌≤◌, ◌≡◌, refl, sym, ap, ◌∙◌, inl, inr, true, false, not, ◌&&◌, ◌||◌, [], ◌∷◌, arith,
  if◌then◌else◌, Eq, ◌==◌, nat_eq, ==_iff, ==-refl, Bool-cases, length, All, bytes_eq,
  bytes_list_eq,
}

pub ==_sym : {K : Type 0} ⦃eq : Eq K⦄ → (k j : K) → (k == j) ≡ (j == k)
==_sym k j =
    Bool_ext (k == j) (j == k) (λ h. (==_iff j k).1 (sym ((==_iff k j).0 h)))
      (λ h. (==_iff k j).1 (sym ((==_iff j k).0 h)))

module _ {K W : Type 0} ⦃eq : Eq K⦄ where
  pub length-remove_le : (m : Map K W) (k : K) → length (Map.remove m k) ≤ length m
  unfolding Map.remove
  length-remove_le [] k = omega arith
  length-remove_le ((i, w) ∷ m) k = ground (arith, length-remove_le m k)

  pub get-remove :
      (m : Map K W) (k j : K) → (k == j) ≡ false → Map.get (Map.remove m k) j ≡ Map.get m j
  unfolding Map.remove Map.get
  get-remove [] k j h = refl
  get-remove ((i, w) ∷ m) k j h = elim (Bool-cases (i == k)) [
    | inl hit ↦
        let same : (i == j) ≡ false = ap (λ x. x == j) ((==_iff i k).0 hit) ∙ h in
        ground (arith, hit, same)
    | inr miss ↦ ground (arith, miss, get-remove m k j h)
  ]

  pub length-insert :
      (m : Map K W) (k : K) (v : W)
      → length (Map.insert m k v) ≡ (if Map.contains_key m k then length m else suc (length m))
  unfolding Map.insert Map.get
  length-insert [] k v = refl
  length-insert ((j, w) ∷ m) k v = ground (arith, length-insert m k v)

  pub keys-insert :
      (m : Map K W) (k j : K) (v : W)
      → contains (keys (Map.insert m k v)) j ≡ ((k == j) || contains (keys m) j)
  keys-insert m k j v =
      ground (arith, contains-keys (Map.insert m k v) j, contains-keys m j, get-insert m k j v)

  pub Distinct-insert :
      (m : Map K W) (k : K) (v : W) → Distinct (keys m) → Distinct (keys (Map.insert m k v))
  unfolding Map.insert contains
  Distinct-insert [] k v d = (refl, tt)
  Distinct-insert ((j, w) ∷ m) k v d = elim (Bool-cases (j == k)) [
    | inl hit ↦ rw (hit, Map.insert) d
    | inr miss ↦
        let other : (k == j) ≡ false = ==_sym k j ∙ miss in
        rw (miss, Map.insert)
          (ground (arith, keys-insert m k j v, other, d.0), Distinct-insert m k v d.1)
  ]

  pub keys-remove :
      (m : Map K W) (k j : K)
      → Distinct (keys m)
      → contains (keys (Map.remove m k)) j ≡ (contains (keys m) j && not (k == j))
  unfolding Map.remove contains
  keys-remove [] k j d = refl
  keys-remove ((i, w) ∷ m) k j d =
      let ih = keys-remove m k j d.1 in
      elim (Bool-cases (i == k)) [
        | inl hit ↦
            let same : (i == j) ≡ (k == j) = ap (λ x. x == j) ((==_iff i k).0 hit) in
            elim (Bool-cases (i == j)) [
              | inl here ↦
                  let gone : contains (keys m) j ≡ false =
                    ap (contains (keys m)) (sym ((==_iff i j).0 here)) ∙ d.0 in
                  ground (arith, hit, same, here, gone)
              | inr away ↦ ground (arith, hit, same, away)
            ]
        | inr miss ↦ elim (Bool-cases (i == j)) [
          | inl here ↦
              let apart : (k == j) ≡ false =
                ap (λ x. k == x) (sym ((==_iff i j).0 here)) ∙ ==_sym k i ∙ miss in
              ground (arith, miss, here, apart)
          | inr away ↦ ground (arith, miss, away, ih)
        ]
      ]

  pub Distinct-remove : (m : Map K W) (k : K) → Distinct (keys m) → Distinct (keys (Map.remove m k))
  unfolding Map.remove
  Distinct-remove [] k d = tt
  Distinct-remove ((i, w) ∷ m) k d = elim (Bool-cases (i == k)) [
    | inl hit ↦ rw (hit, Map.remove) d.1
    | inr miss ↦
        rw (miss, Map.remove) (ground (arith, keys-remove m k i d.1, d.0), Distinct-remove m k d.1)
  ]

  pub length-remove :
      (m : Map K W) (k : K) → contains (keys m) k ≡ true → suc (length (Map.remove m k)) ≡ length m
  unfolding Map.remove contains
  length-remove [] k h = cc
  length-remove ((i, w) ∷ m) k h = elim (Bool-cases (i == k)) [
    | inl hit ↦ rw (hit, Map.remove) refl
    | inr miss ↦ rw (miss, Map.remove) (ap suc (length-remove m k (ground (arith, h, miss))))
  ]

  pub All-insert :
      (P : K × W → Type 0) (m : Map K W) (k : K) (v : W)
      → ((j : K) → (j == k) ≡ true → P (j, v))
      → All P m
      → All P (Map.insert m k v)
  unfolding Map.insert
  All-insert P [] k v p h = (p k (==-refl k), tt)
  All-insert P ((j, w) ∷ m) k v p h = elim (Bool-cases (j == k)) [
    | inl hit ↦ rw (hit, Map.insert) (p j hit, h.1)
    | inr miss ↦ rw (miss, Map.insert) (h.0, All-insert P m k v p h.1)
  ]

  pub All-remove : (P : K × W → Type 0) (m : Map K W) (k : K) → All P m → All P (Map.remove m k)
  unfolding Map.remove
  All-remove P [] k h = tt
  All-remove P ((j, w) ∷ m) k h = elim (Bool-cases (j == k)) [
    | inl hit ↦ rw (hit, Map.remove) h.1
    | inr miss ↦ rw (miss, Map.remove) (h.0, All-remove P m k h.1)
  ]
