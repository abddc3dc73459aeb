-- ===== src/Collections/BoundedShardedMap/Reached.antt =====
-- The states that steps on a `BoundedShardedMap` lead to.
use subduction.Collections.Map
use subduction.Collections.Map.{Map}
use subduction.Collections.ShardedMap.{ShardedMap, get_shard_containing, put_shard, shard_index}
use subduction.Collections.BoundedShardedMap.{Entry}
use subduction.Collections.BoundedShardedMap.Moves.{
  Step, Use, fetches, uses, removes, Effect, used, run, runs, bounded, clock_after, run-Moves,
  run-Effect, put_shard-Effect, Moves-tick,
}
use subduction.Collections.BoundedShardedMap.Recent.{IsShard, Effect-IsShard, Effect-All}
use subduction.Collections.BoundedShardedMap.Resident.{
  Newer, Among, Elsewhere, Elsewhere-Among, Effect-Newer, Effect-resident,
}
use subduction.Prelude.{
  ℕ, suc, ◌+◌, ◌%◌, ◌^◌, ◌≤◌, ◌<◌, ◌≡◌, refl, sym, ap, ◌∙◌, subst, some, List, [], ◌∷◌, arith, Eq,
  nat_eq, ==-refl, length, All, bytes_eq, bytes_list_eq, All-imp,
}

-- Each step uses a tick below the clock: one that was taken before it.
abbrev pub Fetched : {K V : Type 0} → ℕ → List (Step K V) → Type 0
Fetched clock [] = Unit
Fetched clock (fetches ∷ steps) = Fetched (suc clock) steps
Fetched clock (uses tick key u ∷ steps) = (tick < clock) × Fetched clock steps
Fetched clock (removes key ∷ steps) = Fetched clock steps

module _ {K V : Type 0} ⦃eq : Eq K⦄ (sip_hash : ℕ → ℕ → K → ℕ) (n : ℕ) where
  pub get-put_shard :
      (inner : ShardedMap K (Entry V)) (k : K) (shard : Map K (Entry V))
      → get_shard_containing sip_hash n (put_shard sip_hash n inner k shard) k ≡ shard
  unfolding get_shard_containing put_shard shard_index
  get-put_shard inner k shard = rw (==-refl (shard_index sip_hash n inner k)) refl

  abbrev pub AllShards : ℕ → ShardedMap K (Entry V) → Type 0
  AllShards limit inner = (i : ℕ) → IsShard limit (inner.shards i)

  abbrev pub AllNewer : ℕ → K → List K → ShardedMap K (Entry V) → Type 0
  AllNewer t k others inner = (i : ℕ) → Newer t k others (inner.shards i)

  -- Every entry has a tick below the clock.
  abbrev pub AllPast : ℕ → ShardedMap K (Entry V) → Type 0
  AllPast clock inner = (i : ℕ) → All (λ (e : K × Entry V). e.1.1 < clock) (inner.shards i)

  pub runs-AllShards :
      (inner : ShardedMap K (Entry V)) (clock limit : ℕ) (steps : List (Step K V))
      → 0 < limit
      → AllShards limit inner
      → (inner' : ShardedMap K (Entry V)) × (clock' : ℕ) × (runs sip_hash n
            (bounded inner clock limit)
            steps
          ≡ bounded inner' clock' limit)
        × AllShards limit inner'
  runs-AllShards inner clock limit [] pos h = (inner, clock, refl, h)
  runs-AllShards inner clock limit (step ∷ steps) pos h =
      let (inner1, e, effect, _) = run-Effect sip_hash n inner clock limit step in
      let h1 : AllShards limit inner1 =
        λ i. Effect-IsShard limit (inner.shards i) step (inner1.shards i) pos (effect i) (h i) in
      let (inner', clock', e', h') =
        runs-AllShards inner1 (clock_after sip_hash n clock step) limit steps pos h1 in
      (inner', clock', ap (λ s. runs sip_hash n s steps) e ∙ e', h')

  run-AllPast :
      (m : Map K (Entry V)) (clock limit : ℕ) (step : Step K V) (steps : List (Step K V))
      (m' : Map K (Entry V))
      → 0 < limit
      → suc clock < 2 ^ 64
      → Effect limit m step m'
      → IsShard limit m
      → Fetched clock (step ∷ steps)
      → All (λ (e : K × Entry V). e.1.1 < clock) m
      → All (λ (e : K × Entry V). e.1.1 < clock_after sip_hash n clock step) m'
  run-AllPast m clock limit fetches steps m' pos small effect h fetched past =
      All-imp (λ (e : K × Entry V). e.1.1 < clock) (λ e. e.1.1 < (clock + 1) % 2 ^ 64)
        (λ e lt. omega (arith, lt, small)) m'
        (Effect-All (λ e. e.1.1 < clock) limit m fetches m' pos effect h tt past)
  run-AllPast m clock limit (uses tick key u) steps m' pos small effect h fetched past =
      Effect-All (λ e. e.1.1 < clock) limit m (uses tick key u) m' pos effect h
        (λ v j same. fetched.0) past
  run-AllPast m clock limit (removes key) steps m' pos small effect h fetched past =
      Effect-All (λ e. e.1.1 < clock) limit m (removes key) m' pos effect h tt past

  Fetched-later :
      (clock : ℕ) (step : Step K V) (steps : List (Step K V))
      → suc clock < 2 ^ 64
      → Fetched clock (step ∷ steps)
      → Fetched (clock_after sip_hash n clock step) steps
        × (clock_after sip_hash n clock step ≤ suc clock)
  Fetched-later clock fetches steps small fetched =
      (subst (λ c. Fetched c steps) (omega (arith, small)) fetched, omega (arith, small))
  Fetched-later clock (uses tick key u) steps small fetched = (fetched.1, omega arith)
  Fetched-later clock (removes key) steps small fetched = (fetched, omega arith)

  -- With ticks that were taken before, every entry is older than the clock.
  pub runs-AllPast :
      (inner : ShardedMap K (Entry V)) (clock limit : ℕ) (steps : List (Step K V))
      → 0 < limit
      → clock + length steps < 2 ^ 64
      → AllShards limit inner
      → Fetched clock steps
      → AllPast clock inner
      → (inner' : ShardedMap K (Entry V)) × (clock' : ℕ) × (runs sip_hash n
            (bounded inner clock limit)
            steps
          ≡ bounded inner' clock' limit)
        × AllShards limit inner'
        × AllPast clock' inner'
  runs-AllPast inner clock limit [] pos small h fetched past = (inner, clock, refl, h, past)
  runs-AllPast inner clock limit (step ∷ steps) pos small h fetched past =
      let (inner1, e, effect, _) = run-Effect sip_hash n inner clock limit step in
      let (fetched1, le) = Fetched-later clock step steps (omega (arith, small)) fetched in
      let h1 : AllShards limit inner1 =
        λ i. Effect-IsShard limit (inner.shards i) step (inner1.shards i) pos (effect i) (h i) in
      let (inner', clock', e', h', past') =
        runs-AllPast inner1 (clock_after sip_hash n clock step) limit steps pos
          (omega (arith, small, le)) h1 fetched1
          (λ i.
            run-AllPast (inner.shards i) clock limit step steps (inner1.shards i) pos
              (omega (arith, small)) (effect i) (h i) fetched (past i)) in
      (inner', clock', ap (λ s. runs sip_hash n s steps) e ∙ e', h', past')

  module _ (limit : ℕ) (pos : 0 < limit) (t : ℕ) (k : K) (others : List K) where
    -- Steps among a few keys leave no other entry with a tick from here on.
    pub runs-AllNewer :
        (inner : ShardedMap K (Entry V)) (clock : ℕ) (steps : List (Step K V))
        → AllShards limit inner
        → All (Among t k others) steps
        → AllNewer t k others inner
        → (inner' : ShardedMap K (Entry V)) × (clock' : ℕ) × (runs sip_hash n
              (bounded inner clock limit)
              steps
            ≡ bounded inner' clock' limit)
          × AllShards limit inner'
          × AllNewer t k others inner'
    runs-AllNewer inner clock [] h among newer = (inner, clock, refl, h, newer)
    runs-AllNewer inner clock (step ∷ steps) h among newer =
        let (inner1, e, effect, _) = run-Effect sip_hash n inner clock limit step in
        let h1 : AllShards limit inner1 =
          λ i. Effect-IsShard limit (inner.shards i) step (inner1.shards i) pos (effect i) (h i) in
        let (inner', clock', e', h', newer') =
          runs-AllNewer inner1 (clock_after sip_hash n clock step) steps h1 among.1 (λ i.
            Effect-Newer limit (inner.shards i) step (inner1.shards i) t k others pos (effect i)
              (h i) among.0 (newer i)) in
        (inner', clock', ap (λ s. runs sip_hash n s steps) e ∙ e', h', newer')

    -- A use of the key itself leaves it with the tick of the use, if it is there.
    pub run-used :
        (inner : ShardedMap K (Entry V)) (clock : ℕ) (u : Use V)
        → AllShards limit inner
        → AllNewer t k others inner
        → (inner' : ShardedMap K (Entry V)) × (run sip_hash n
              (bounded inner clock limit)
              (uses t k u)
            ≡ bounded inner' clock limit)
          × AllShards limit inner'
          × AllNewer t k others inner'
          × ((v : V) (t' : ℕ)
              → Map.get (get_shard_containing sip_hash n inner' k) k ≡ some (v, t')
              → t' ≡ t)
    unfolding get_shard_containing put_shard shard_index
    run-used inner clock u h newer =
        let at = shard_index sip_hash n inner k in
        let (shard, moves, e) = run-Moves sip_hash n inner clock limit t k u in
        let inner1 = put_shard sip_hash n inner k shard in
        let effect = put_shard-Effect sip_hash n limit inner k (uses t k u) shard (used moves) in
        (
          inner1,
          e,
          λ i.
              Effect-IsShard limit (inner.shards i) (uses t k u) (inner1.shards i) pos (effect i)
                (h i),
          λ i.
              Effect-Newer limit (inner.shards i) (uses t k u) (inner1.shards i) t k others pos
                (effect i) (h i) (λ up other. absurd (ground (arith, other, ==-refl k))) (newer i),
          λ v t' there. Moves-tick limit t (inner.shards at) k shard v t' moves (
              ap (λ (m : Map K (Entry V)). Map.get m k) (sym (get-put_shard inner k shard))
              ∙ there),
        )

    -- The entry of a key stays through steps elsewhere.
    pub runs-resident :
        (inner : ShardedMap K (Entry V)) (clock : ℕ) (steps : List (Step K V)) (v : V)
        → AllShards limit inner
        → All (Elsewhere k others) steps
        → length others < limit
        → Map.get (get_shard_containing sip_hash n inner k) k ≡ some (v, t)
        → AllNewer t k others inner
        → (inner' : ShardedMap K (Entry V)) × (clock' : ℕ) × (runs sip_hash n
              (bounded inner clock limit)
              steps
            ≡ bounded inner' clock' limit)
          × (Map.get (get_shard_containing sip_hash n inner' k) k ≡ some (v, t))
    unfolding get_shard_containing shard_index
    runs-resident inner clock [] v h away few there newer = (inner, clock, refl, there)
    runs-resident inner clock (step ∷ steps) v h away few there newer =
        let (inner1, e, effect, same) = run-Effect sip_hash n inner clock limit step in
        let h1 : AllShards limit inner1 =
          λ i. Effect-IsShard limit (inner.shards i) step (inner1.shards i) pos (effect i) (h i) in
        let at = shard_index sip_hash n inner k in
        let there1 : Map.get (get_shard_containing sip_hash n inner1 k) k ≡ some (v, t) =
          ap (λ i. Map.get (inner1.shards i) k) (sym (same k))
          ∙ Effect-resident limit (inner.shards at) step (inner1.shards at) k v t others pos
              (effect at) (h at) away.0 few there (newer at) in
        let (inner', clock', e', there') =
          runs-resident inner1 (clock_after sip_hash n clock step) steps v h1 away.1 few there1
            (λ i.
              Effect-Newer limit (inner.shards i) step (inner1.shards i) t k others pos (effect i)
                (h i) (Elsewhere-Among t k others step away.0) (newer i)) in
        (inner', clock', ap (λ s. runs sip_hash n s steps) e ∙ e', there')
