-- ===== src/Tests/Caches.antt =====
-- The sharded maps, at small maps with numbers as keys.
use subduction.Collections.Map
use subduction.Collections.Map.{Map}
use subduction.Collections.Set.{contains}
use subduction.Collections.ShardedMap.{
  with_key, get_cloned, contains_key, into_keys, len, get_shard_containing, put_shard, shard_index,
}
use subduction.Collections.ShardedMap.Lookup.{Change, inserts, removes, merges}
use subduction.Collections.ShardedMap.Whole.{runs, applies, runs-applies}
use subduction.Collections.BoundedShardedMap
use subduction.Collections.BoundedShardedMap.{
  BoundedShardedMap, div_ceil, with_capacity, next_tick, min_by_tick, evict_if_full_locked, stamp,
  on_hit, on_miss, hit_or_install_locked,
}
use subduction.Collections.BoundedShardedMap.Moves.{
  Use, Step, fetches, uses, removes, hit_or_install_at, with_entry_at, runs as steps_run,
}
use subduction.Collections.BoundedShardedMap.Resident.{Among, Elsewhere}
use subduction.Collections.BoundedShardedMap.Capacity.{
  started, taken, touched, within_capacity, recently_used,
}
use subduction.Collections.BoundedShardedMap.Hydrated.{
  base, resident, locked, hydrated, with_entry_hydrated_lem,
}
use subduction.Codec.{Result, ok, err}
use subduction.Prelude.{
  ℕ, ◌+◌, ◌%◌, ◌^◌, ◌≤◌, ◌<◌, ◌≡◌, refl, ◌⊎◌, Option, none, some, List, [], ◌∷◌, arith, ℕ_discrete,
  nat_eq, length, All, bytes_eq, bytes_list_eq,
}

abbrev low_bits : ℕ → ℕ → ℕ → ℕ
low_bits key0 key1 k = k % 2 ^ 64

low_bits-lt : (key0 key1 k : ℕ) → low_bits key0 key1 k < 2 ^ 64
low_bits-lt key0 key1 k = omega arith

abbrev changes : List (Change ℕ ℕ)
changes = inserts 1 10 ∷ inserts 2 20 ∷ merges 1 5 (λ a b. a + b) ∷ removes 2 ∷ []

runs-applies_example :
    ((j : ℕ)
      → get_cloned low_bits 4 (runs low_bits 4 (with_key low_bits 4 0 0) changes) j
        ≡ applies low_bits 4 (λ k. none) changes j)
    × ((j : ℕ)
        → contains (into_keys low_bits 4 (runs low_bits 4 (with_key low_bits 4 0 0) changes)) j
          ≡ contains_key low_bits 4 (runs low_bits 4 (with_key low_bits 4 0 0) changes) j)
    × (len low_bits 4 (runs low_bits 4 (with_key low_bits 4 0 0) changes)
        ≡ length (into_keys low_bits 4 (runs low_bits 4 (with_key low_bits 4 0 0) changes)))
runs-applies_example = runs-applies low_bits 4 0 0 changes (omega arith) low_bits-lt

abbrev reads : Use ℕ
reads = hit_or_install_at 70 (λ v. v)

abbrev increments : Use ℕ
increments = with_entry_at (λ v. v + 1)

-- The first tick is used last.
abbrev seven_then_nine : List (Step ℕ ℕ)
seven_then_nine =
    fetches
    ∷ fetches
    ∷ uses 1 7 reads
    ∷ uses 1 7 increments
    ∷ uses 1 8 reads
    ∷ uses 0 9 reads
    ∷ removes 8
    ∷ []

within_capacity_example :
    (BoundedShardedMap.len low_bits 1
        (steps_run low_bits 1 (started low_bits 1 0 0 2) seven_then_nine)
      < 2 + 1)
    × ((limit : ℕ) × ((steps_run low_bits 1
            (started low_bits 1 0 0 2)
            seven_then_nine).per_shard_capacity
          ≡ some limit)
        × ((i : ℕ)
            → length
                ((steps_run low_bits 1 (started low_bits 1 0 0 2) seven_then_nine).inner.shards i)
              ≤ limit))
within_capacity_example =
    within_capacity low_bits 1 0 0 2 seven_then_nine (omega arith) (omega arith)

-- One operation takes the tick 0 and another reads the key 7 with the tick 1.
abbrev early : List (Step ℕ ℕ)
early = fetches ∷ fetches ∷ uses 1 7 reads ∷ []

-- While an operation with the tick 2 waits, that with the tick 0 reads the key 5.
abbrev meanwhile : List (Step ℕ ℕ)
meanwhile = uses 0 5 reads ∷ []

abbrev after : List (Step ℕ ℕ)
after = fetches ∷ uses 3 9 reads ∷ uses 3 9 increments ∷ removes 7 ∷ []

abbrev eight : BoundedShardedMap ℕ ℕ
eight = touched low_bits 1 0 0 2 early meanwhile 8 reads

eight_there : Map.get (get_shard_containing low_bits 1 eight.inner 8) 8 ≡ some (70, 2)
unfolding hit_or_install_locked next_tick on_hit on_miss evict_if_full_locked div_ceil with_capacity
    BoundedShardedMap.with_key with_key get_shard_containing put_shard shard_index Map.get
    Map.insert stamp min_by_tick ℕ_discrete Map.remove
eight_there = refl

eight_limit : eight.per_shard_capacity ≡ some 2
unfolding hit_or_install_locked next_tick on_hit on_miss evict_if_full_locked div_ceil with_capacity
    BoundedShardedMap.with_key with_key get_shard_containing put_shard shard_index Map.get
    Map.insert stamp min_by_tick ℕ_discrete Map.remove
eight_limit = refl

taken_two : taken low_bits 1 0 0 2 early ≡ 2
unfolding hit_or_install_locked next_tick on_hit on_miss evict_if_full_locked div_ceil with_capacity
    BoundedShardedMap.with_key with_key get_shard_containing put_shard shard_index Map.get
    Map.insert stamp min_by_tick ℕ_discrete Map.remove
taken_two = refl

among : All (Among (taken low_bits 1 0 0 2 early) 8 (9 ∷ [])) meanwhile
among = (λ old other. absurd (omega (arith, old, taken_two)), tt)

away : All (Elsewhere 8 (9 ∷ [])) after
unfolding contains ℕ_discrete
away = (tt, ((refl, refl), ((refl, refl), (refl, tt))))

recently_used_example :
    (BoundedShardedMap.get_cloned low_bits 1 (λ s. s) (steps_run low_bits 1 eight after) 8).1
    ≡ some 70
recently_used_example =
    recently_used low_bits 1 0 0 2 early meanwhile after 8 reads 70 2 (9 ∷ []) 2 eight_limit
      (omega arith) (omega arith, tt) among away (omega arith) eight_there

-- An operation that waits long with its tick uses the key 8 last, and the next use of another key
-- evicts it.
abbrev late : List (Step ℕ ℕ)
late =
    fetches
    ∷ fetches
    ∷ uses 1 7 reads
    ∷ fetches
    ∷ uses 2 5 reads
    ∷ uses 0 8 reads
    ∷ fetches
    ∷ uses 3 9 reads
    ∷ []

late_evicted :
    (BoundedShardedMap.get_cloned low_bits 1
      (λ s. s)
      (steps_run low_bits 1 (started low_bits 1 0 0 2) late)
      8).1
    ≡ none
unfolding BoundedShardedMap.get_cloned BoundedShardedMap.with_entry
    BoundedShardedMap.with_entry_locked hit_or_install_locked next_tick on_hit on_miss
    evict_if_full_locked div_ceil with_capacity BoundedShardedMap.with_key with_key
    get_shard_containing put_shard shard_index Map.get Map.insert stamp min_by_tick ℕ_discrete
    Map.remove
late_evicted = refl

-- A load that finds 70 for the key 7, while others read the key 8, and then the key 9.
abbrev loading : BoundedShardedMap ℕ ℕ → BoundedShardedMap ℕ ℕ
loading s = steps_run low_bits 1 s (fetches ∷ uses 1 8 reads ∷ [])

abbrev rewaits : BoundedShardedMap ℕ ℕ → BoundedShardedMap ℕ ℕ
rewaits s = steps_run low_bits 1 s (fetches ∷ uses 3 9 reads ∷ [])

abbrev count_up : ℕ → ℕ × ℕ
count_up v = (v + 1, v)

abbrev found : Result (Unit {0}) (Option ℕ)
found = ok (some 70)

abbrev small_map : BoundedShardedMap ℕ ℕ
small_map = started low_bits 1 0 0 2

abbrev first_lock : BoundedShardedMap ℕ ℕ
first_lock = locked low_bits 1 (λ s. s) small_map

abbrev counted : BoundedShardedMap ℕ ℕ × Result (Unit {0}) ℕ
counted = hydrated low_bits 1 7 count_up 0 (λ s. s) loading rewaits small_map found

with_entry_hydrated_lem_example :
    ((v : ℕ) × (resident low_bits 1 first_lock 7 ≡ some v)
      × (counted.1 ≡ ok (count_up v).1)
      × (resident low_bits 1 counted.0 7 ≡ some (count_up v).0))
    ⊎ ((e : Unit {0}) × (resident low_bits 1 first_lock 7 ≡ none)
        × (found ≡ err e)
        × (counted ≡ (loading first_lock, err e)))
    ⊎ ((loaded : Option ℕ) × (v : ℕ) × (resident low_bits 1 first_lock 7 ≡ none)
        × (found ≡ ok loaded)
        × (v
            ≡ base 0 loaded
                (resident low_bits 1 (locked low_bits 1 rewaits (loading first_lock)) 7))
        × (counted.1 ≡ ok (count_up v).1)
        × (resident low_bits 1 counted.0 7 ≡ some (count_up v).0))
with_entry_hydrated_lem_example =
    with_entry_hydrated_lem low_bits 1 7 count_up 0 (λ s. s) loading rewaits small_map found
