-- ===== src/Collections/BoundedShardedMap/Resident.antt =====
-- What stays in a shard of a `BoundedShardedMap`.
use subduction.Collections.Map
use subduction.Collections.Map.{Map, keys, get-insert, contains-keys}
use subduction.Collections.Set.{contains}
use subduction.Collections.Index.{Distinct}
use subduction.Collections.BoundedShardedMap.{evict_if_full_locked, Entry}
use subduction.Collections.BoundedShardedMap.Moves.{
  Step, fetches, uses, removes, Effect, left, used, removed, misses, installs,
}
use subduction.Collections.BoundedShardedMap.Shards.{
  ==_sym, keys-remove, Distinct-remove, length-remove, get-remove,
}
use subduction.Collections.BoundedShardedMap.Recent.{IsShard, evict-cases, Installs, Effect-All}
use subduction.Collections.BoundedShardedMap.Pigeonhole.{pigeonhole}
use subduction.Prelude.{
  ℕ, suc, ◌≤◌, ◌<◌, ◌≡◌, refl, sym, ap, ◌∙◌, subst, inl, inr, true, false, some, List, [], ◌∷◌,
  arith, Eq, ◌==◌, nat_eq, ==_iff, Bool-cases, length, All, bytes_eq, bytes_list_eq,
}

module _ {K V : Type 0} ⦃eq : Eq K⦄ where
  length-keys : (m : Map K (Entry V)) → length (keys m) ≡ length m
  length-keys [] = refl
  length-keys ((k, e) ∷ m) = ap suc (length-keys m)

  all_other :
      (P : K → Type 0) (m : Map K (Entry V)) (k : K)
      → contains (keys m) k ≡ false
      → All (λ (e : K × Entry V). (k == e.0) ≡ false → P e.0) m
      → All P (keys m)
  unfolding contains
  all_other P [] k new h = tt
  all_other P ((i, f) ∷ m) k new h =
      (h.0 (==_sym k i ∙ ground (arith, new)), all_other P m k (ground (arith, new)) h.1)

  All-others :
      (P : K → Type 0) (m : Map K (Entry V)) (k : K)
      → Distinct (keys m)
      → All (λ (e : K × Entry V). (k == e.0) ≡ false → P e.0) m
      → All P (keys (Map.remove m k))
  unfolding Map.remove
  All-others P [] k d h = tt
  All-others P ((j, e) ∷ m) k d h = elim (Bool-cases (j == k)) [
    | inl hit ↦
        rw (hit, Map.remove)
          (all_other P m k (ap (contains (keys m)) (sym ((==_iff j k).0 hit)) ∙ d.0) h.1)
    | inr miss ↦ rw (miss, Map.remove) (h.0 (==_sym k j ∙ miss), All-others P m k d.1 h.1)
  ]

  -- Every entry of another key with a tick from here on has one of the keys.
  abbrev pub Newer : ℕ → K → List K → Map K (Entry V) → Type 0
  Newer t k others m =
      All (λ (e : K × Entry V). t ≤ e.1.1 → (k == e.0) ≡ false → contains others e.0 ≡ true) m

  All-and :
      (P Q R : K × Entry V → Type 0) (m : Map K (Entry V))
      → ((e : K × Entry V) → P e → Q e → R e)
      → All P m
      → All Q m
      → All R m
  All-and P Q R [] f p q = tt
  All-and P Q R (e ∷ m) f p q = (f e p.0 q.0, All-and P Q R m f p.1 q.1)

  -- With few other keys used since, the victim of an eviction is another key.
  spares :
      (limit : ℕ) (m : Map K (Entry V)) (k j : K) (v : V) (t : ℕ) (others : List K)
      → IsShard limit m
      → Map.get m k ≡ some (v, t)
      → Newer t k others m
      → contains others j ≡ true
      → length others < limit
      → limit ≤ length m
      → Map.contains_key m j ≡ false
      → ¬ (All (λ (e : K × Entry V). t ≤ e.1.1) m)
  spares limit m k j v t others h there newer of_others few full absent least =
      let rest = keys (Map.remove m k) in
      let of_rest : All (λ x. contains others x ≡ true) rest =
        All-others (λ x. contains others x ≡ true) m k h.once
          (All-and (λ (e : K × Entry V). t ≤ e.1.1)
            (λ e. t ≤ e.1.1 → (k == e.0) ≡ false → contains others e.0 ≡ true)
            (λ e. (k == e.0) ≡ false → contains others e.0 ≡ true) m
            (λ e up name other. name up other) least newer) in
      let new : contains rest j ≡ false =
        ground (arith, keys-remove m k j h.once, contains-keys m j, absent) in
      let le =
        pigeonhole (j ∷ rest) others (new, Distinct-remove m k h.once) (of_others, of_rest) in
      omega (
        arith,
        le,
        few,
        full,
        length-remove m k (ground (arith, contains-keys m k, there)),
        length-keys (Map.remove m k),
      )

  -- The use of one of few other keys keeps the entry of a key.
  installs-resident :
      (limit tick : ℕ) (m : Map K (Entry V)) (j : K) (w : V) (k : K) (v : V) (t : ℕ)
      (others : List K)
      → 0 < limit
      → IsShard limit m
      → (j == k) ≡ false
      → contains others j ≡ true
      → length others < limit
      → Map.get m k ≡ some (v, t)
      → Newer t k others m
      → Map.get (Map.insert (evict_if_full_locked (some limit) m j) j (w, tick)) k ≡ some (v, t)
  installs-resident limit tick m j w k v t others pos h other of_others few there newer =
      elim (evict-cases limit m j pos h.once) [
        | inl (same, _) ↦ rw same (ground (arith, get-insert m j k (w, tick), other, there))
        | inr (victim, u, x, e, at_victim, least, full, absent) ↦
            let m1 = Map.remove m victim in
            let spared : (victim == k) ≡ false = elim (Bool-cases (victim == k)) [
              | inr miss ↦ miss
              | inl hit ↦
                  let same : some (x, u) ≡ some (v, t) =
                    sym at_victim ∙ ap (Map.get m) ((==_iff victim k).0 hit) ∙ there in
                  let eq : u ≡ t = cc same in
                  absurd (
                    spares limit m k j v t others h there newer of_others few full absent
                      (subst (λ y. All (λ (e : K × Entry V). y ≤ e.1.1) m) eq least))
            ] in
            rw e (
              ground
                (arith, get-insert m1 j k (w, tick), other, get-remove m victim k spared, there))
      ]

  -- A step on other keys, the used ones among a few.
  abbrev pub Elsewhere : K → List K → Step K V → Type 0
  Elsewhere k others fetches = Unit
  Elsewhere k others (uses tick j u) = ((j == k) ≡ false) × (contains others j ≡ true)
  Elsewhere k others (removes j) = (j == k) ≡ false

  -- A step that uses, if its tick is not older, the key itself or one of a few others.
  abbrev pub Among : ℕ → K → List K → Step K V → Type 0
  Among t k others fetches = Unit
  Among t k others (uses tick j u) = t ≤ tick → (k == j) ≡ false → contains others j ≡ true
  Among t k others (removes j) = Unit

  pub Effect-resident :
      (limit : ℕ) (m : Map K (Entry V)) (step : Step K V) (m' : Map K (Entry V)) (k : K) (v : V)
      (t : ℕ) (others : List K)
      → 0 < limit
      → Effect limit m step m'
      → IsShard limit m
      → Elsewhere k others step
      → length others < limit
      → Map.get m k ≡ some (v, t)
      → Newer t k others m
      → Map.get m' k ≡ some (v, t)
  Effect-resident limit m step m' k v t others pos left h away few there newer = there
  Effect-resident limit m step m' k v t others pos (used (misses _)) h away few there newer = there
  Effect-resident limit m step m' k v t others pos (used {tick} {key} (installs w)) h away few there
        newer =
      installs-resident limit tick m key w k v t others pos h away.0 away.1 few there newer
  Effect-resident limit m step m' k v t others pos (removed {key}) h away few there newer =
      get-remove m key k away ∙ there

  pub Elsewhere-Among :
      (t : ℕ) (k : K) (others : List K) (step : Step K V)
      → Elsewhere k others step
      → Among t k others step
  Elsewhere-Among t k others fetches h = tt
  Elsewhere-Among t k others (uses tick j u) h = λ _ _. h.1
  Elsewhere-Among t k others (removes j) h = tt

  pub Effect-Newer :
      (limit : ℕ) (m : Map K (Entry V)) (step : Step K V) (m' : Map K (Entry V)) (t : ℕ) (k : K)
      (others : List K)
      → 0 < limit
      → Effect limit m step m'
      → IsShard limit m
      → Among t k others step
      → Newer t k others m
      → Newer t k others m'
  Effect-Newer limit m step m' t k others pos effect h among =
      Effect-All (λ e. t ≤ e.1.1 → (k == e.0) ≡ false → contains others e.0 ≡ true) limit m step m'
        pos effect h (Among-Installs step among)
    where
      Among-Installs :
          (step : Step K V)
          → Among t k others step
          → Installs (λ e. t ≤ e.1.1 → (k == e.0) ≡ false → contains others e.0 ≡ true) step
      Among-Installs fetches among = tt
      Among-Installs (uses tick key u) among = λ v j same up other.
          let e : j ≡ key = (==_iff j key).0 same in
          ap (contains others) e ∙ among up (ap (λ x. k == x) (sym e) ∙ other)
      Among-Installs (removes key) among = tt
