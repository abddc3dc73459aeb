-- ===== src/Collections/BoundedShardedMap/Recent.antt =====
-- A `BoundedShardedMap` shard by shard: its size, and what holds of all its entries.
use subduction.Collections.Map
use subduction.Collections.Map.{Map, keys, get-insert, contains-keys}
use subduction.Collections.Index.{Distinct}
use subduction.Collections.BoundedShardedMap.{Entry, evict_if_full_locked}
use subduction.Collections.BoundedShardedMap.Moves.{
  Step, fetches, uses, removes, Effect, left, used, removed, misses, installs,
}
use subduction.Collections.BoundedShardedMap.Shards.{
  length-insert, Distinct-insert, Distinct-remove, length-remove, length-remove_le, All-insert,
  All-remove,
}
use subduction.Collections.BoundedShardedMap.Ticks.{min_by_tick_lem}
use subduction.Prelude.{
  ℕ, ◌≤◌, ◌<◌, ◌≡◌, refl, ap, ◌⊎◌, inl, inr, true, false, ◌||◌, some, arith, ltb, Eq, ◌==◌, nat_eq,
  Bool-cases, length, All, bytes_eq, le_of_ltb, lt_of_ltb, bytes_list_eq,
}

module _ {K V : Type 0} ⦃eq : Eq K⦄ where
  -- Keys once, and no more than the limit.
  pub record IsShard (limit : ℕ) (m : Map K (Entry V)) : Type 0 where
    pub once : Distinct (keys m)
    pub within : length m ≤ limit

  -- An eviction removes a key with the least tick, or nothing.
  pub evict-cases :
      (limit : ℕ) (m : Map K (Entry V)) (k : K)
      → 0 < limit
      → Distinct (keys m)
      → ((evict_if_full_locked (some limit) m k ≡ m)
          × ((length m < limit) ⊎ (Map.contains_key m k ≡ true)))
        ⊎ ((victim : K) × (t : ℕ) × (v : V) × (evict_if_full_locked (some limit) m k
              ≡ Map.remove m victim)
            × (Map.get m victim ≡ some (v, t))
            × All (λ (e : K × Entry V). t ≤ e.1.1) m
            × (limit ≤ length m)
            × (Map.contains_key m k ≡ false))
  unfolding evict_if_full_locked
  evict-cases limit m k pos d = elim (Bool-cases (ltb (length m) limit || Map.contains_key m k)) [
    | inl stays ↦ inl (
      rw (stays, evict_if_full_locked) refl,
      elim (Bool-cases (ltb (length m) limit)) [
        | inl room ↦ inl (lt_of_ltb (length m) limit room)
        | inr no_room ↦ inr (ground (arith, stays, no_room))
      ],
    )
    | inr full ↦
        let le : limit ≤ length m = le_of_ltb (length m) limit (ground (arith, full)) in
        elim (min_by_tick_lem m d) [
          | inl nothing ↦ absurd (omega (arith, le, ap length nothing, pos))
          | inr (victim, t, v, e, there, least) ↦ inr (
            victim,
            t,
            v,
            rw (full, e, evict_if_full_locked) refl,
            there,
            least,
            le,
            ground (arith, full),
          )
        ]
  ]

  -- A shard with room for a key.
  install :
      (limit tick : ℕ) (m : Map K (Entry V)) (k : K) (v : V)
      → IsShard limit m
      → ((length m < limit) ⊎ (Map.contains_key m k ≡ true))
      → IsShard limit (Map.insert m k (v, tick))
  install limit tick m k v h room = record {
    once = Distinct-insert m k (v, tick) h.once;
    within = elim room [
      | inl lt ↦ ground (arith, lt, length-insert m k (v, tick))
      | inr there ↦ ground (arith, there, length-insert m k (v, tick), h.within)
    ];
  }

  remove-IsShard :
      (limit : ℕ) (m : Map K (Entry V)) (k : K) → IsShard limit m → IsShard limit (Map.remove m k)
  remove-IsShard limit m k h = record {
    once = Distinct-remove m k h.once;
    within = omega (arith, h.within, length-remove_le m k);
  }

  installs-IsShard :
      (limit tick : ℕ) (m : Map K (Entry V)) (k : K) (v : V)
      → 0 < limit
      → IsShard limit m
      → IsShard limit (Map.insert (evict_if_full_locked (some limit) m k) k (v, tick))
  installs-IsShard limit tick m k v pos h = elim (evict-cases limit m k pos h.once) [
    | inl (same, room) ↦ rw same (install limit tick m k v h room)
    | inr (victim, t, w, e, there, least, full, absent) ↦ rw e (
        install limit tick (Map.remove m victim) k v (remove-IsShard limit m victim h) (
          inl (
            ground (
              arith,
              h.within,
              length-remove m victim (ground (arith, contains-keys m victim, there)),
            ))))
  ]

  pub Effect-IsShard :
      (limit : ℕ) (m : Map K (Entry V)) (step : Step K V) (m' : Map K (Entry V))
      → 0 < limit
      → Effect limit m step m'
      → IsShard limit m
      → IsShard limit m'
  Effect-IsShard limit m step m' pos left h = h
  Effect-IsShard limit m step m' pos (used (misses _)) h = h
  Effect-IsShard limit m step m' pos (used {tick} {key} (installs v)) h =
      installs-IsShard limit tick m key v pos h
  Effect-IsShard limit m step m' pos (removed {key}) h = remove-IsShard limit m key h

  -- What holds of the entries of a shard, and of a new one, holds after the step that installs it.
  installs-All :
      (P : K × Entry V → Type 0) (limit tick : ℕ) (m : Map K (Entry V)) (k : K) (v : V)
      → 0 < limit
      → IsShard limit m
      → ((j : K) → (j == k) ≡ true → P (j, (v, tick)))
      → All P m
      → All P (Map.insert (evict_if_full_locked (some limit) m k) k (v, tick))
  installs-All P limit tick m k v pos h new old = elim (evict-cases limit m k pos h.once) [
    | inl (same, _) ↦ rw same (All-insert P m k (v, tick) new old)
    | inr (victim, t, w, e, there, least, full, absent) ↦
        rw e (All-insert P (Map.remove m victim) k (v, tick) new (All-remove P m victim old))
  ]

  -- What a step that uses a key is to keep.
  abbrev pub Installs : (K × Entry V → Type 0) → Step K V → Type 0
  Installs P fetches = Unit
  Installs P (uses tick key u) = (v : V) (j : K) → (j == key) ≡ true → P (j, (v, tick))
  Installs P (removes key) = Unit

  pub Effect-All :
      (P : K × Entry V → Type 0) (limit : ℕ) (m : Map K (Entry V)) (step : Step K V)
      (m' : Map K (Entry V))
      → 0 < limit
      → Effect limit m step m'
      → IsShard limit m
      → Installs P step
      → All P m
      → All P m'
  Effect-All P limit m step m' pos left h new old = old
  Effect-All P limit m step m' pos (used (misses _)) h new old = old
  Effect-All P limit m step m' pos (used {tick} {key} (installs v)) h new old =
      installs-All P limit tick m key v pos h (new v) old
  Effect-All P limit m step m' pos (removed {key}) h new old = All-remove P m key old
