-- ===== src/Collections/BoundedShardedMap.antt =====
-- `BoundedShardedMap` of subduction_core/src/collections/bounded_sharded_map.rs: a map of which each
-- shard keeps a bounded number of entries. What others do while an operation waits for a lock, or for
-- a value to be loaded, with no lock held, is a function on the state.
pub mod Moves
pub mod Shards
pub mod Ticks
pub mod Recent
pub mod Pigeonhole
pub mod Resident
pub mod Reached
pub mod Capacity
pub mod Hydrated
use subduction.Codec.{Result, ok, err}
use subduction.Collections.Map
use subduction.Collections.Map.{Map}
use subduction.Collections.ShardedMap
use subduction.Collections.ShardedMap.{ShardedMap, get_shard_containing, put_shard}
use subduction.Prelude.{
  ℕ, zero, suc, ◌+◌, ◌-◌, ◌*◌, ◌/◌, ◌%◌, ◌^◌, ◌≤◌, ◌<◌, min, ◌≡◌, refl, sym, ap, ◌∙◌, subst, ◌≢◌,
  ◌↔◌, ◌⊎◌, inl, inr, Bool, true, false, not, ◌&&◌, ◌||◌, Option, none, some, List, [], ◌∷◌, ◌++◌,
  map, append_assoc, append-nil, arith, dec_lt, dec_le, ℕ_discrete, ltb, leb, if◌then◌else◌, Eq,
  ◌==◌, nat_eq, ==_iff, ==-refl, Bool-cases, Option-cases, length, take, drop, get_elem?, filter,
  any, all, All, length-append, take-append, drop-append, Bytes, IsByte, IsArray, bytes_eq,
  Bytes-discrete, bytes_ltb, bytes_ltb_irrefl, bytes_ltb_trans, bytes_ltb-total, bytes_ltb-asymm,
  take-append-drop, length-take, length-drop, All-append, All-drop, zero-add, add-zero, suc-add,
  add_assoc, add_comm, ltb_of_le, ltb_of_lt, le_of_ltb, lt_of_ltb, length-drop_fits, drop-drop,
  add-one, list_discrete, bytes_list_eq, filter_none, List-cases, All-imp, All-snoc, append-All,
  length-map,
}

-- The value of an entry and its `Tick`, a `u64`.
abbrev pub Entry : Type 0 → Type 0
Entry V = V × ℕ

pub record BoundedShardedMap (K V : Type 0) : Type 0 where
  pub inner : ShardedMap K (Entry V)
  pub tick : ℕ
  pub per_shard_capacity : Option ℕ

-- `div_ceil` of a number by one that is not zero
unfoldable pub div_ceil : ℕ → ℕ → ℕ
div_ceil a b = if a % b == 0 then a / b else a / b + 1

-- `if self.per_shard_capacity.is_some() { entry.1 = tick; }`
unfoldable pub stamp : Option ℕ → ℕ → ℕ → ℕ
stamp none tick old = old
stamp (some _) tick old = tick

module _ {K V : Type 0} ⦃eq : Eq K⦄ where
  -- `shard.iter().min_by_key(|(_, (_, tick))| *tick)`: the first of the least ticks.
  unfoldable pub min_by_tick : Map K (Entry V) → Option (K × ℕ)
  min_by_tick [] = none
  min_by_tick ((k, (v, t)) ∷ m) = elim (min_by_tick m) [
    | none ↦ some (k, t)
    | some least ↦ some (if leb t least.1 then (k, t) else least)
  ]

  unfoldable pub evict_if_full_locked : Option ℕ → Map K (Entry V) → K → Map K (Entry V)
  evict_if_full_locked none shard incoming = shard
  evict_if_full_locked (some cap) shard incoming =
      if ltb (length shard) cap || Map.contains_key shard incoming
      then shard
      else elim (min_by_tick shard) [ none ↦ shard | some victim ↦ Map.remove shard victim.0 ]

module _ {K V : Type 0} ⦃eq : Eq K⦄ (sip_hash : ℕ → ℕ → K → ℕ) (n : ℕ) where
  unfoldable pub with_key : ℕ → ℕ → BoundedShardedMap K V
  with_key key0 key1 = record {
    inner = ShardedMap.with_key sip_hash n key0 key1;
    tick = 0;
    per_shard_capacity = none;
  }

  unfoldable pub with_capacity : BoundedShardedMap K V → ℕ → BoundedShardedMap K V
  with_capacity self max_entries =
      let per_shard = div_ceil max_entries n in
      record self { per_shard_capacity = some (if ltb per_shard 1 then 1 else per_shard) }

  unfoldable pub next_tick : BoundedShardedMap K V → ℕ × BoundedShardedMap K V
  next_tick self = elim self.per_shard_capacity [
    | none ↦ (0, self)
    | some _ ↦ (self.tick, record self { tick = (self.tick + 1) % 2 ^ 64 })
  ]

  abbrev pub shard_of : BoundedShardedMap K V → K → Map K (Entry V)
  shard_of self key = get_shard_containing sip_hash n self.inner key

  abbrev pub put : BoundedShardedMap K V → K → Map K (Entry V) → BoundedShardedMap K V
  put self key shard = record self { inner = put_shard sip_hash n self.inner key shard }

  -- `let entry = shard.get_mut(key)?; …`, on a value that `f` changes.
  unfoldable pub on_hit :
      {R : Type 0}
      → BoundedShardedMap K V
      → ℕ
      → K
      → (V → V × R)
      → Option (BoundedShardedMap K V × R)
  on_hit self tick key f =
      let shard = shard_of self key in
      elim (Map.get shard key) [
        | none ↦ none
        | some entry ↦ some (
          put self key
              (Map.insert shard key ((f entry.0).0, stamp self.per_shard_capacity tick entry.1)),
          (f entry.0).1,
        )
      ]

  -- `self.evict_if_full_locked(&mut shard, &key); …; shard.insert(key, (value, tick));`
  unfoldable pub on_miss : BoundedShardedMap K V → ℕ → K → V → BoundedShardedMap K V
  on_miss self tick key value = put self key (
      Map.insert (evict_if_full_locked self.per_shard_capacity (shard_of self key) key) key
        (value, tick))

  -- An operation takes its tick first and then waits for the lock of the shard of its key; `waits` is
  -- what the others do in between. What follows under the lock is one step, `…_locked`.
  unfoldable pub with_entry_locked :
      {R : Type 0} → BoundedShardedMap K V → ℕ → K → (V → V × R) → BoundedShardedMap K V × Option R
  with_entry_locked self tick key f = elim (on_hit self tick key f) [
    | none ↦ (self, none)
    | some done ↦ (done.0, some done.1)
  ]

  unfoldable pub with_entry :
      {R : Type 0}
      → (BoundedShardedMap K V → BoundedShardedMap K V)
      → BoundedShardedMap K V
      → K
      → (V → V × R)
      → BoundedShardedMap K V × Option R
  with_entry waits self key f =
      let ticked = next_tick self in with_entry_locked (waits ticked.1) ticked.0 key f

  unfoldable pub get_cloned :
      (BoundedShardedMap K V → BoundedShardedMap K V)
      → BoundedShardedMap K V
      → K
      → BoundedShardedMap K V × Option V
  get_cloned waits self key = with_entry waits self key (λ v. (v, v))

  -- A resident hit, or the installation of a value.
  unfoldable pub hit_or_install_locked :
      {R : Type 0} → BoundedShardedMap K V → ℕ → K → V → (V → V × R) → BoundedShardedMap K V × R
  hit_or_install_locked self tick key value f = elim (on_hit self tick key f) [
    | some done ↦ done
    | none ↦ (on_miss self tick key (f value).0, (f value).1)
  ]

  unfoldable pub hit_or_install :
      {R : Type 0}
      → (BoundedShardedMap K V → BoundedShardedMap K V)
      → BoundedShardedMap K V
      → K
      → V
      → (V → V × R)
      → BoundedShardedMap K V × R
  hit_or_install waits self key value f =
      let ticked = next_tick self in hit_or_install_locked (waits ticked.1) ticked.0 key value f

  unfoldable pub get_or_insert_with :
      (BoundedShardedMap K V → BoundedShardedMap K V)
      → BoundedShardedMap K V
      → K
      → V
      → BoundedShardedMap K V × V
  get_or_insert_with waits self key made = hit_or_install waits self key made (λ v. (v, v))

  unfoldable pub with_entry_or_default_locked :
      {R : Type 0} → V → BoundedShardedMap K V → ℕ → K → (V → V × R) → BoundedShardedMap K V × R
  with_entry_or_default_locked default self tick key f =
      let shard = evict_if_full_locked self.per_shard_capacity (shard_of self key) key in
      let entry : Entry V = elim (Map.get shard key) [ none ↦ (default, tick) | some e ↦ e ] in
      (
        put self key
            (Map.insert shard key ((f entry.0).0, stamp self.per_shard_capacity tick entry.1)),
        (f entry.0).1,
      )

  unfoldable pub with_entry_or_default :
      {R : Type 0}
      → (BoundedShardedMap K V → BoundedShardedMap K V)
      → V
      → BoundedShardedMap K V
      → K
      → (V → V × R)
      → BoundedShardedMap K V × R
  with_entry_or_default waits default self key f =
      let ticked = next_tick self in
      with_entry_or_default_locked default (waits ticked.1) ticked.0 key f

  -- `waits` is for the first lock, `loading` for the load and `rewaits` for the second lock.
  unfoldable pub with_hydrated_ref :
      {R E : Type 0}
      → (BoundedShardedMap K V → BoundedShardedMap K V)
      → (BoundedShardedMap K V → BoundedShardedMap K V)
      → (BoundedShardedMap K V → BoundedShardedMap K V)
      → Result E (Option V)
      → BoundedShardedMap K V
      → K
      → (V → R)
      → BoundedShardedMap K V × Result E (Option R)
  with_hydrated_ref waits loading rewaits load self key inspect =
      let first = with_entry waits self key (λ v. (v, inspect v)) in
      elim first.1 [
        | some r ↦ (first.0, ok (some r))
        | none ↦
            (let loaded_at = loading first.0 in
              elim load [
                | err e ↦ (loaded_at, err e)
                | ok loaded ↦ elim loaded [
                  | none ↦ (loaded_at, ok none)
                  | some value ↦
                      let done = hit_or_install rewaits loaded_at key value (λ v. (v, inspect v)) in
                      (done.0, ok (some done.1))
                ]
              ])
      ]

  unfoldable pub with_entry_hydrated :
      {R E : Type 0}
      → V
      → (BoundedShardedMap K V → BoundedShardedMap K V)
      → (BoundedShardedMap K V → BoundedShardedMap K V)
      → (BoundedShardedMap K V → BoundedShardedMap K V)
      → Result E (Option V)
      → BoundedShardedMap K V
      → K
      → (V → V × R)
      → BoundedShardedMap K V × Result E R
  with_entry_hydrated default waits loading rewaits load self key mutate =
      let first = with_entry waits self key mutate in
      elim first.1 [
        | some r ↦ (first.0, ok r)
        | none ↦
            (let loaded_at = loading first.0 in
              elim load [
                | err e ↦ (loaded_at, err e)
                | ok loaded ↦
                    let value : V = elim loaded [ none ↦ default | some v ↦ v ] in
                    let done = hit_or_install rewaits loaded_at key value mutate in
                    (done.0, ok done.1)
              ])
      ]

  unfoldable pub remove : BoundedShardedMap K V → K → BoundedShardedMap K V × Option V
  remove self key =
      let removed = ShardedMap.remove sip_hash n self.inner key in
      (
        record self { inner = removed.0 },
        elim removed.1 [ none ↦ none | some entry ↦ some entry.0 ],
      )

  unfoldable pub into_keys : BoundedShardedMap K V → List K
  into_keys self = ShardedMap.into_keys sip_hash n self.inner

  unfoldable pub len : BoundedShardedMap K V → ℕ
  len self = ShardedMap.len sip_hash n self.inner

  unfoldable pub is_empty : BoundedShardedMap K V → Bool
  is_empty self = ShardedMap.is_empty sip_hash n self.inner
