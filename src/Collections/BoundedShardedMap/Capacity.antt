-- ===== src/Collections/BoundedShardedMap/Capacity.antt =====
-- How many entries a `BoundedShardedMap` holds, and which it keeps.
use subduction.Collections.Map
use subduction.Collections.Map.{Map}
use subduction.Collections.Set.{contains}
use subduction.Collections.ShardedMap
use subduction.Collections.ShardedMap.{ShardedMap, get_shard_containing, put_shard, shard_index}
use subduction.Collections.BoundedShardedMap.{
  Entry, BoundedShardedMap, with_capacity, with_key, div_ceil, len, get_cloned, with_entry,
  with_entry_locked, on_hit, next_tick,
}
use subduction.Collections.BoundedShardedMap.Moves.{
  Step, Use, fetches, uses, run, runs, bounded, use_after,
}
use subduction.Collections.BoundedShardedMap.Resident.{Among, Elsewhere}
use subduction.Collections.BoundedShardedMap.Reached.{
  Fetched, AllShards, AllPast, AllNewer, runs-AllShards, runs-AllPast, runs-AllNewer, run-used,
  runs-resident,
}
use native.Mathlib.Omega.{div_any}
use subduction.Prelude.{
  subst, ℕ, zero, suc, ◌+◌, ◌*◌, ◌/◌, ◌%◌, ◌^◌, ◌≤◌, ◌<◌, ◌≡◌, refl, sym, ap, ◌∙◌, inl, inr, true,
  false, some, List, ◌∷◌, arith, dec_lt, ltb, if◌then◌else◌, Eq, ◌==◌, nat_eq, ==_iff, Bool-cases,
  length, All, bytes_eq, bytes_list_eq, All-imp,
}

per_shard : ℕ → ℕ → ℕ
per_shard max_entries n = if ltb (div_ceil max_entries n) 1 then 1 else div_ceil max_entries n

-- The slack of shards of equal size.
per_shard-le :
    (max_entries n : ℕ) → 0 < max_entries → 0 < n → n * per_shard max_entries n < max_entries + n
unfolding per_shard div_ceil
per_shard-le max_entries n pos pos_n =
    let q = max_entries / n in
    let whole : n * q + max_entries % n ≡ max_entries = div_any max_entries n in
    elim (Bool-cases (max_entries % n == 0)) [
      | inl even ↦
          let zeroed : max_entries % n ≡ 0 = (==_iff (max_entries % n) 0).0 even in
          let some_each : 0 < q = elim (dec_lt 0 q) [
            | yes lt ↦ lt
            | no none_each ↦
                let q_zero : q ≡ 0 = omega (arith, none_each) in
                absurd (omega (arith, whole, zeroed, pos, ap (λ x. n * x) q_zero))
          ] in
          let is_q : per_shard max_entries n ≡ q = ground (arith, even, some_each) in
          omega (arith, whole, zeroed, pos_n, ap (λ x. n * x) is_q)
      | inr odd ↦
          let left : ¬ (max_entries % n ≡ 0) =
            λ e. ground (arith, odd, (==_iff (max_entries % n) 0).1 e) in
          let is_q : per_shard max_entries n ≡ q + 1 = ground (arith, odd) in
          omega (arith, whole, left, ap (λ x. n * x) is_q)
    ]

per_shard-pos : (max_entries n : ℕ) → 0 < per_shard max_entries n
unfolding per_shard
per_shard-pos max_entries n = ground arith

module _ {K V : Type 0} ⦃eq : Eq K⦄ (sip_hash : ℕ → ℕ → K → ℕ) (n : ℕ) where
  total-le :
      (limit : ℕ) (inner : ShardedMap K (Entry V)) (i count : ℕ)
      → AllShards sip_hash n limit inner
      → ShardedMap.total sip_hash n inner i count ≤ count * limit
  unfolding ShardedMap.total
  total-le limit inner i zero h = omega arith
  total-le limit inner i (suc count) h =
      omega (arith, (h i).within, total-le limit inner (suc i) count h)

  abbrev pub started : ℕ → ℕ → ℕ → BoundedShardedMap K V
  started key0 key1 max_entries =
      with_capacity sip_hash n (with_key sip_hash n key0 key1) max_entries

  fresh : ℕ → ℕ → ShardedMap K (Entry V)
  fresh key0 key1 = ShardedMap.with_key sip_hash n key0 key1

  started-bounded :
      (key0 key1 max_entries : ℕ)
      → started key0 key1 max_entries ≡ bounded (fresh key0 key1) 0 (per_shard max_entries n)
  unfolding with_capacity with_key fresh per_shard
  started-bounded key0 key1 max_entries = refl

  fresh_lem :
      (key0 key1 limit : ℕ)
      → AllShards sip_hash n limit (fresh key0 key1) × AllPast sip_hash n 0 (fresh key0 key1)
  unfolding fresh ShardedMap.with_key
  fresh_lem key0 key1 limit = (λ i. record { once = tt; within = omega arith }, λ i. tt)

  -- From an empty map with room for `max_entries`, which are some, in `n` shards, and after any steps
  -- in any order, with any ticks, the map holds fewer than `max_entries + n` entries, and no shard holds
  -- more than the limit per shard.
  pub within_capacity :
      (key0 key1 max_entries : ℕ) (steps : List (Step K V))
      → 0 < n
      → 0 < max_entries
      → (len sip_hash n (runs sip_hash n (started key0 key1 max_entries) steps) < max_entries + n)
        × ((limit : ℕ) × ((runs sip_hash n (started key0 key1 max_entries) steps).per_shard_capacity
              ≡ some limit)
            × ((i : ℕ)
                → length ((runs sip_hash n (started key0 key1 max_entries) steps).inner.shards i)
                  ≤ limit))
  unfolding len ShardedMap.len
  within_capacity key0 key1 max_entries steps pos_n pos =
      let limit = per_shard max_entries n in
      let (inner', tick', e, h) =
        runs-AllShards sip_hash n (fresh key0 key1) 0 limit steps (per_shard-pos max_entries n)
          (fresh_lem key0 key1 limit).0 in
      let e' : runs sip_hash n (started key0 key1 max_entries) steps ≡ bounded inner' tick' limit =
        ap (λ s. runs sip_hash n s steps) (started-bounded key0 key1 max_entries) ∙ e in
      rw e' (
        omega (arith, total-le limit inner' 0 n h, per_shard-le max_entries n pos pos_n),
        (limit, refl, λ i. (h i).within),
      )

  get_cloned-found :
      (self : BoundedShardedMap K V) (inner : ShardedMap K (Entry V)) (tick limit : ℕ) (k : K)
      (v : V) (t : ℕ)
      → self ≡ bounded inner tick limit
      → Map.get (get_shard_containing sip_hash n inner k) k ≡ some (v, t)
      → (get_cloned sip_hash n (λ s. s) self k).1 ≡ some v
  unfolding get_cloned with_entry with_entry_locked on_hit next_tick
  get_cloned-found self inner tick limit k v t e h =
      ap (λ s. (get_cloned sip_hash n (λ s. s) s k).1) e ∙ rw (h, with_entry_locked) refl

  -- From a state with older ticks only, a key that is used stays.
  use_after-stays :
      (inner : ShardedMap K (Entry V)) (clock per : ℕ) (waiting after : List (Step K V)) (k : K)
      (u : Use V) (v : V) (t : ℕ) (others : List K) (limit : ℕ)
      → 0 < per
      → AllShards sip_hash n per inner
      → AllPast sip_hash n clock inner
      → (use_after sip_hash n (bounded inner clock per) waiting k u).per_shard_capacity ≡ some limit
      → All (Among clock k others) waiting
      → All (Elsewhere k others) after
      → length others < limit
      → Map.get
          (get_shard_containing sip_hash n
            (use_after sip_hash n (bounded inner clock per) waiting k u).inner
            k)
          k
        ≡ some (v, t)
      → (get_cloned sip_hash n
          (λ s. s)
          (runs sip_hash n (use_after sip_hash n (bounded inner clock per) waiting k u) after)
          k).1
        ≡ some v
  unfolding next_tick
  use_after-stays inner clock per waiting after k u v t others limit pos h past bound among away few
        there =
      let newer : AllNewer sip_hash n clock k others inner = λ i.
        All-imp (λ (e : K × Entry V). e.1.1 < clock)
          (λ e. clock ≤ e.1.1 → (k == e.0) ≡ false → contains others e.0 ≡ true)
          (λ e lt le other. absurd (omega (arith, lt, le))) (inner.shards i) (past i) in
      let (inner2, clock2, e2, h2, newer2) =
        runs-AllNewer sip_hash n per pos clock k others inner clock (fetches ∷ waiting) h
          (tt, among) newer in
      let (inner3, e3, h3, newer3, stamped) =
        run-used sip_hash n per pos clock k others inner2 clock2 u h2 newer2 in
      let reached : use_after sip_hash n (bounded inner clock per) waiting k u
          ≡ bounded inner3 clock2 per =
        ap (λ s. run sip_hash n s (uses clock k u)) e2 ∙ e3 in
      let same : limit ≡ per =
        cc (bound, ap (λ (s : BoundedShardedMap K V). s.per_shard_capacity) reached) in
      let there3 : Map.get (get_shard_containing sip_hash n inner3 k) k ≡ some (v, t) =
        ap (λ (s : BoundedShardedMap K V). Map.get (get_shard_containing sip_hash n s.inner k) k)
          (sym reached)
        ∙ there in
      let (inner4, clock4, e4, there4) =
        runs-resident sip_hash n per pos clock k others inner3 clock2 after v h3 away
          (omega (arith, few, same)) (there3 ∙ ap (λ x. some (v, x)) (stamped v t there3)) newer3 in
      get_cloned-found
        (runs sip_hash n (use_after sip_hash n (bounded inner clock per) waiting k u) after) inner4
        clock4 per k v clock (ap (λ s. runs sip_hash n s after) reached ∙ e4) there4

  module _ (key0 key1 max_entries : ℕ) (early : List (Step K V)) where
    -- The tick that an operation takes after the early steps.
    abbrev pub taken : ℕ
    taken = (next_tick sip_hash n (runs sip_hash n (started key0 key1 max_entries) early)).0

    abbrev pub touched : List (Step K V) → K → Use V → BoundedShardedMap K V
    touched waiting k u =
        use_after sip_hash n (runs sip_hash n (started key0 key1 max_entries) early) waiting k u

    -- In a map reached from an empty one with a limit, by fewer than 2^64 steps whose ticks were taken
    -- before them, an operation takes a tick, waits for a lock while others go on, and uses its key. If
    -- the key is there then, it is found, with the value that it had then, after any further steps that
    -- are not on it, if the other keys that these steps use, and those that were used in the wait with
    -- a tick not older than the one taken, are fewer than the limit per shard.
    pub recently_used :
        (waiting after : List (Step K V)) (k : K) (u : Use V) (v : V) (t : ℕ) (others : List K)
        (limit : ℕ)
        → (touched waiting k u).per_shard_capacity ≡ some limit
        → length early < 2 ^ 64
        → Fetched 0 early
        → All (Among taken k others) waiting
        → All (Elsewhere k others) after
        → length others < limit
        → Map.get (get_shard_containing sip_hash n (touched waiting k u).inner k) k ≡ some (v, t)
        → (get_cloned sip_hash n (λ s. s) (runs sip_hash n (touched waiting k u) after) k).1
          ≡ some v
    unfolding next_tick
    recently_used waiting after k u v t others limit bound small fetched among away few there =
        let per = per_shard max_entries n in
        let pos = per_shard-pos max_entries n in
        let (inner, clock, e, h, past) =
          runs-AllPast sip_hash n (fresh key0 key1) 0 per early pos (omega (arith, small))
            (fresh_lem key0 key1 per).0 fetched (fresh_lem key0 key1 per).1 in
        let reached : runs sip_hash n (started key0 key1 max_entries) early
            ≡ bounded inner clock per =
          ap (λ s. runs sip_hash n s early) (started-bounded key0 key1 max_entries) ∙ e in
        let Stays : BoundedShardedMap K V → Type 0 = λ s.
          (use_after sip_hash n s waiting k u).per_shard_capacity ≡ some limit
          → All (Among (next_tick sip_hash n s).0 k others) waiting
          → Map.get (get_shard_containing sip_hash n (use_after sip_hash n s waiting k u).inner k) k
            ≡ some (v, t)
          → (get_cloned sip_hash n (λ s. s)
              (runs sip_hash n (use_after sip_hash n s waiting k u) after) k).1
            ≡ some v in
        subst Stays (sym reached)
          (λ bound' among' there'.
            use_after-stays inner clock per waiting after k u v t others limit pos h past bound'
              among' away few there')
          bound among there
