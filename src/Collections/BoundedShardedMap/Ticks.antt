-- ===== src/Collections/BoundedShardedMap/Ticks.antt =====
-- The entry of a shard of a `BoundedShardedMap` that an eviction removes.
use subduction.Collections.Map
use subduction.Collections.Map.{Map, keys, get-insert, contains-keys}
use subduction.Collections.Set.{contains}
use subduction.Collections.Index.{Distinct}
use subduction.Collections.BoundedShardedMap.{Entry, min_by_tick}
use subduction.Prelude.{
  ℕ, ◌≤◌, ◌≡◌, refl, ap, ◌⊎◌, inl, inr, false, some, [], ◌∷◌, arith, leb, Eq, ◌==◌, nat_eq, ==_iff,
  ==-refl, Bool-cases, All, bytes_eq, bytes_list_eq, All-imp,
}

module _ {K V : Type 0} ⦃eq : Eq K⦄ where
  get-behind :
      (m : Map K (Entry V)) (j k : K) (e f : Entry V)
      → contains (keys m) k ≡ false
      → Map.get m j ≡ some f
      → Map.get ((k, e) ∷ m) j ≡ some f
  unfolding Map.get
  get-behind m j k e f gone there = elim (Bool-cases (k == j)) [
    | inl hit ↦
        absurd (ground (arith, contains-keys m k, gone, ap (Map.get m) ((==_iff k j).0 hit), there))
    | inr miss ↦ ground (arith, miss, there)
  ]

  -- The victim is a key of the shard, with a tick that no other entry is below.
  pub min_by_tick_lem :
      (m : Map K (Entry V))
      → Distinct (keys m)
      → (m ≡ [])
        ⊎ ((k : K) × (t : ℕ) × (v : V) × (min_by_tick m ≡ some (k, t))
            × (Map.get m k ≡ some (v, t))
            × All (λ e. t ≤ e.1.1) m)
  unfolding min_by_tick Map.get
  min_by_tick_lem [] d = inl refl
  min_by_tick_lem ((k, (v, t)) ∷ m) d = inr (elim (min_by_tick_lem m d.1) [
    | inl none_left ↦
        (k, t, v, rw none_left refl, ground (arith, ==-refl k), (omega arith, rw none_left tt))
    | inr (j, u, w, e, there, least) ↦ elim (Bool-cases (leb t u)) [
      | inl first ↦ (
        k,
        t,
        v,
        rw (e, min_by_tick) (rw first refl),
        ground (arith, ==-refl k),
        (
          omega arith,
          All-imp (λ (e : K × Entry V). u ≤ e.1.1) (λ e. t ≤ e.1.1)
              (λ e h. ground (arith, first, h)) m least,
        ),
      )
      | inr later ↦ (
        j,
        u,
        w,
        rw (e, min_by_tick) (rw later refl),
        get-behind m j k (v, t) (w, u) d.0 there,
        (ground (arith, later), least),
      )
    ]
  ])
