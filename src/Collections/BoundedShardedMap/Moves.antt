-- ===== src/Collections/BoundedShardedMap/Moves.antt =====
-- What the steps of operations do to the shards of a `BoundedShardedMap`.
use subduction.Collections.Map
use subduction.Collections.Map.{Map, get-insert}
use subduction.Collections.ShardedMap
use subduction.Collections.ShardedMap.{ShardedMap, get_shard_containing, put_shard, shard_index}
use subduction.Collections.BoundedShardedMap.{
  Entry, BoundedShardedMap, next_tick, evict_if_full_locked, stamp, on_hit, on_miss, with_entry,
  with_entry_locked, hit_or_install, hit_or_install_locked, with_entry_or_default,
  with_entry_or_default_locked, remove,
}
use std.Path.{fun_ext}
use subduction.Prelude.{
  ℕ, ◌+◌, ◌%◌, ◌^◌, ◌≡◌, refl, sym, ap, subst, inl, inr, none, some, List, [], ◌∷◌, arith, Eq, ◌==◌,
  nat_eq, ==_iff, ==-refl, Bool-cases, Option-cases, bytes_eq, bytes_list_eq,
}

-- What is done to the entry of a key under the lock of its shard.
pub data Use (V : Type 0) : Type 0 where
  with_entry_at : (V → V) → Use V
  hit_or_install_at : V → (V → V) → Use V
  with_entry_or_default_at : V → (V → V) → Use V

-- An operation takes a tick, and later, with that tick and under the lock of a shard, uses a key. The
-- steps of different operations come in any order.
pub data Step (K V : Type 0) : Type 0 where
  fetches : Step K V
  uses : ℕ → K → Use V → Step K V
  removes : K → Step K V

abbrev pub bounded : {K V : Type 0} → ShardedMap K (Entry V) → ℕ → ℕ → BoundedShardedMap K V
bounded inner tick limit = record { inner = inner; tick = tick; per_shard_capacity = some limit }

module _ {K V : Type 0} ⦃eq : Eq K⦄ where
  -- What may become of the shard of a key that is used.
  pub data Moves (limit tick : ℕ) (shard : Map K (Entry V)) (key : K)
      : Map K (Entry V) → Type 0 where
    misses : Map.get shard key ≡ none → Moves limit tick shard key shard
    installs :
        (v : V)
        → Moves limit tick shard key
            (Map.insert (evict_if_full_locked (some limit) shard key) key (v, tick))

  -- What may become of any shard in a step.
  pub data Effect (limit : ℕ) (m : Map K (Entry V)) : Step K V → Map K (Entry V) → Type 0 where
    left : {step : Step K V} → Effect limit m step m
    used :
        {tick : ℕ} {key : K} {use_of : Use V} {m' : Map K (Entry V)}
        → Moves limit tick m key m'
        → Effect limit m (uses tick key use_of) m'
    removed : {key : K} → Effect limit m (removes key) (Map.remove m key)

  evict-present :
      (limit : ℕ) (shard : Map K (Entry V)) (key : K) (entry : Entry V)
      → Map.get shard key ≡ some entry
      → evict_if_full_locked (some limit) shard key ≡ shard
  unfolding evict_if_full_locked
  evict-present limit shard key entry h = ground (arith, h)

  -- A key that is used, and then there, has the tick of its use.
  pub Moves-tick :
      (limit tick : ℕ) (m : Map K (Entry V)) (key : K) (m' : Map K (Entry V)) (v : V) (t : ℕ)
      → Moves limit tick m key m'
      → Map.get m' key ≡ some (v, t)
      → t ≡ tick
  Moves-tick limit tick m key m' v t (misses absent) there = absurd (cc (absent, there))
  Moves-tick limit tick m key m' v t (installs w) there = ground (
    arith,
    there,
    get-insert (evict_if_full_locked (some limit) m key) key key (w, tick),
    ==-refl key,
  )

module _ {K V : Type 0} ⦃eq : Eq K⦄ (sip_hash : ℕ → ℕ → K → ℕ) (n : ℕ) where
  abbrev pub run : BoundedShardedMap K V → Step K V → BoundedShardedMap K V
  run self fetches = (next_tick sip_hash n self).1
  run self (uses tick key (with_entry_at f)) =
      (with_entry_locked sip_hash n self tick key (λ v. (f v, tt))).0
  run self (uses tick key (hit_or_install_at made f)) =
      (hit_or_install_locked sip_hash n self tick key made (λ v. (f v, tt))).0
  run self (uses tick key (with_entry_or_default_at default f)) =
      (with_entry_or_default_locked sip_hash n default self tick key (λ v. (f v, tt))).0
  run self (removes key) = (remove sip_hash n self key).0

  abbrev pub runs : BoundedShardedMap K V → List (Step K V) → BoundedShardedMap K V
  runs self [] = self
  runs self (step ∷ steps) = runs (run self step) steps

  -- An operation takes its tick, waits for the lock and uses its key.
  abbrev pub use_after : BoundedShardedMap K V → List (Step K V) → K → Use V → BoundedShardedMap K V
  use_after self waiting k u =
      run (runs self (fetches ∷ waiting)) (uses (next_tick sip_hash n self).0 k u)

  -- Each operation with a tick is such a use, where the others take steps in its wait.
  use_after-operations :
      (self : BoundedShardedMap K V) (waiting : List (Step K V)) (key : K)
      → ((f : V → V)
          → (with_entry sip_hash n (λ s. runs s waiting) self key (λ v. (f v, tt))).0
            ≡ use_after self waiting key (with_entry_at f))
        × ((made : V) (f : V → V)
            → (hit_or_install sip_hash n (λ s. runs s waiting) self key made (λ v. (f v, tt))).0
              ≡ use_after self waiting key (hit_or_install_at made f))
        × ((default : V) (f : V → V)
            → (with_entry_or_default sip_hash n
                (λ s. runs s waiting)
                default
                self
                key
                (λ v. (f v, tt))).0
              ≡ use_after self waiting key (with_entry_or_default_at default f))
  unfolding with_entry hit_or_install with_entry_or_default
  use_after-operations self waiting key = (λ f. refl, λ made f. refl, λ default f. refl)

  put_shard-same :
      (inner : ShardedMap K (Entry V)) (key : K)
      → put_shard sip_hash n inner key (get_shard_containing sip_hash n inner key) ≡ inner
  unfolding put_shard get_shard_containing
  put_shard-same inner key =
      let at_key = shard_index sip_hash n inner key in
      ap (λ shards. record inner { shards = shards })
        (fun_ext (λ i. elim (Bool-cases (i == at_key)) [
          | inl hit ↦ rw hit (sym (ap inner.shards ((==_iff i at_key).0 hit)))
          | inr miss ↦ rw miss refl
        ]))

  pub run-Moves :
      (inner : ShardedMap K (Entry V)) (clock limit tick : ℕ) (key : K) (u : Use V)
      → (shard : Map K (Entry V)) × Moves limit tick
          (get_shard_containing sip_hash n inner key)
          key
          shard
        × (run (bounded inner clock limit) (uses tick key u)
            ≡ bounded (put_shard sip_hash n inner key shard) clock limit)
  unfolding with_entry_locked hit_or_install_locked with_entry_or_default_locked on_hit on_miss
      stamp
  run-Moves inner clock limit tick key (with_entry_at f) =
      let shard = get_shard_containing sip_hash n inner key in
      elim (Option-cases (Map.get shard key)) [
        | inl miss ↦ (
          shard,
          misses miss,
          rw (miss, run) (ap (λ i. bounded i clock limit) (sym (put_shard-same inner key))),
        )
        | inr (e, hit) ↦
            (_, installs (f e.0), rw (hit, evict-present limit shard key e hit, run) refl)
      ]
  run-Moves inner clock limit tick key (hit_or_install_at made f) =
      let shard = get_shard_containing sip_hash n inner key in
      elim (Option-cases (Map.get shard key)) [
        | inl miss ↦ (_, installs (f made), rw (miss, run) refl)
        | inr (e, hit) ↦
            (_, installs (f e.0), rw (hit, evict-present limit shard key e hit, run) refl)
      ]
  run-Moves inner clock limit tick key (with_entry_or_default_at default f) =
      let shard =
        evict_if_full_locked (some limit) (get_shard_containing sip_hash n inner key) key in
      elim (Option-cases (Map.get shard key)) [
        | inl miss ↦ (_, installs (f default), rw (miss, run) refl)
        | inr (e, hit) ↦ (_, installs (f e.0), rw (hit, run) refl)
      ]

  pub put_shard-Effect :
      (limit : ℕ) (inner : ShardedMap K (Entry V)) (key : K) (step : Step K V)
      (shard : Map K (Entry V))
      → Effect limit (get_shard_containing sip_hash n inner key) step shard
      → (i : ℕ)
      → Effect limit (inner.shards i) step ((put_shard sip_hash n inner key shard).shards i)
  unfolding put_shard get_shard_containing
  put_shard-Effect limit inner key step shard new i =
      let at_key = shard_index sip_hash n inner key in
      elim (Bool-cases (i == at_key)) [
        | inl hit ↦ rw hit (
            subst (λ j. Effect limit (inner.shards j) step shard) (sym ((==_iff i at_key).0 hit))
              new)
        | inr miss ↦ rw miss left
      ]

  -- The clock after a step.
  abbrev pub clock_after : ℕ → Step K V → ℕ
  clock_after clock fetches = (clock + 1) % 2 ^ 64
  clock_after clock (uses tick key u) = clock
  clock_after clock (removes key) = clock

  -- A step changes each shard by itself, and no key changes its shard.
  pub run-Effect :
      (inner : ShardedMap K (Entry V)) (clock limit : ℕ) (step : Step K V)
      → (inner' : ShardedMap K (Entry V)) × (run (bounded inner clock limit) step
          ≡ bounded inner' (clock_after clock step) limit)
        × ((i : ℕ) → Effect limit (inner.shards i) step (inner'.shards i))
        × ((key : K) → shard_index sip_hash n inner key ≡ shard_index sip_hash n inner' key)
  unfolding next_tick remove ShardedMap.remove put_shard shard_index
  run-Effect inner clock limit fetches = (inner, refl, λ i. left, λ k. refl)
  run-Effect inner clock limit (uses tick key u) =
      let (shard, moves, e) = run-Moves inner clock limit tick key u in
      (
        put_shard sip_hash n inner key shard,
        e,
        put_shard-Effect limit inner key (uses tick key u) shard (used moves),
        λ k. refl,
      )
  run-Effect inner clock limit (removes key) = (
    put_shard sip_hash n inner key (Map.remove (get_shard_containing sip_hash n inner key) key),
    refl,
    put_shard-Effect limit inner key (removes key)
        (Map.remove (get_shard_containing sip_hash n inner key) key) removed,
    λ k. refl,
  )
