-- ===== src/Collections/ShardedMap/Whole.antt =====
-- A `ShardedMap` after any operations: what is looked up, and the keys that it lists.
use subduction.Collections.Map
use subduction.Collections.Map.{Map, keys, values, get-insert, contains-keys}
use subduction.Collections.Set.{contains, contains-append}
use subduction.Collections.ShardedMap.{
  len, into_keys, with_key, ShardedMap, shard_index, get_shard_containing, get_cloned, contains_key,
  collect, total,
}
use std.Path.{fun_ext}
use subduction.Collections.ShardedMap.Lookup.{Change, apply, run, IsSharded, run-Follows}
use native.Mathlib.Nat.{div-lt_iff_lt-mul, mul-lt-mul_of_pos_right}
use subduction.Prelude.{
  zero, suc, ◌+◌, ◌<◌, length, length-append, ltb, leb, ◌*◌, ◌^◌, ℕ, zero, suc, ◌+◌, ◌≡◌, refl, sym,
  ap, ◌∙◌, inl, inr, ◌&&◌, Option, none, List, [], ◌∷◌, arith, ltb, leb, Eq, ◌==◌, nat_eq, ==_iff,
  Bool-cases, length, length-append, bytes_eq, bytes_list_eq,
}

length-keys : {K V : Type 0} → (m : Map K V) → length (keys m) ≡ length m
length-keys [] = refl
length-keys ((k, v) ∷ m) = ap suc (length-keys m)

module _ {K V : Type 0} ⦃eq : Eq K⦄ (sip_hash : ℕ → ℕ → K → ℕ) (n : ℕ) where
  abbrev pub runs : ShardedMap K V → List (Change K V) → ShardedMap K V
  runs self [] = self
  runs self (change ∷ changes) = runs (run sip_hash n self change) changes

  abbrev pub applies : (K → Option V) → List (Change K V) → K → Option V
  applies m [] = m
  applies m (change ∷ changes) = applies (apply m change) changes

  runs-Follows :
      (self : ShardedMap K V) (changes : List (Change K V))
      → IsSharded sip_hash n self
      → (get_cloned sip_hash n (runs self changes) ≡ applies (get_cloned sip_hash n self) changes)
        × IsSharded sip_hash n (runs self changes)
  runs-Follows self [] h = (refl, h)
  runs-Follows self (change ∷ changes) h =
      let (one, h1) = run-Follows sip_hash n self change h in
      let (rest, h2) = runs-Follows (run sip_hash n self change) changes h1 in
      (rest ∙ ap (λ m. applies m changes) (fun_ext one), h2)

  with_key-IsSharded :
      (key0 key1 : ℕ) → IsSharded {V = V} sip_hash n (with_key sip_hash n key0 key1)
  unfolding with_key contains
  with_key-IsSharded key0 key1 = record { once = λ i. tt; placed = λ i k m. cc }

  contains-collect :
      (self : ShardedMap K V) (i count : ℕ) (j : K)
      → IsSharded sip_hash n self
      → contains (collect sip_hash n keys self i count) j ≡ (
          leb i (shard_index sip_hash n self j)
          && ltb (shard_index sip_hash n self j) (i + count)
          && contains_key sip_hash n self j)
  unfolding collect contains_key get_shard_containing contains
  contains-collect self i zero j h = ground arith
  contains-collect self i (suc count) j h =
      let at = shard_index sip_hash n self j in
      let ih = contains-collect self (suc i) count j h in
      let both =
        contains-append (keys (self.shards i)) (collect sip_hash n keys self (suc i) count) j in
      elim (Bool-cases (i == at)) [
        | inl hit ↦
            let same : contains (keys (self.shards i)) j ≡ Map.contains_key (self.shards at) j =
              ap (λ k. contains (keys (self.shards k)) j) ((==_iff i at).0 hit)
              ∙ contains-keys (self.shards at) j in
            ground (arith, both, ih, same, hit)
        | inr miss ↦ elim (Bool-cases (contains (keys (self.shards i)) j)) [
          | inl here ↦ absurd (ground (arith, miss, (==_iff i at).1 (sym (h.placed i j here))))
          | inr away ↦ ground (arith, both, ih, away, miss)
        ]
      ]

  length-collect :
      (self : ShardedMap K V) (i count : ℕ)
      → total sip_hash n self i count ≡ length (collect sip_hash n keys self i count)
  unfolding total collect
  length-collect self i zero = refl
  length-collect self i (suc count) = omega (
    arith,
    length-collect self (suc i) count,
    length-append (keys (self.shards i)) (collect sip_hash n keys self (suc i) count),
    length-keys (self.shards i),
  )

  shard_index-lt :
      (self : ShardedMap K V) (j : K)
      → 0 < n
      → ((key0 key1 : ℕ) (k : K) → sip_hash key0 key1 k < 2 ^ 64)
      → shard_index sip_hash n self j < n
  unfolding shard_index
  shard_index-lt self j pos small =
      let h = sip_hash self.key0 self.key1 j in
      let below : h * n < 2 ^ 64 * n = mul-lt-mul_of_pos_right (small self.key0 self.key1 j) pos in
      (div-lt_iff_lt-mul {k = 2 ^ 64} (omega arith)).1 (omega (arith, below))

  -- After any operations on an empty map, of some shards and with a hasher of 64 bits, every look-up
  -- finds what one map would hold, and `into_keys` lists the keys that are found, as many as `len` says.
  pub runs-applies :
      (key0 key1 : ℕ) (changes : List (Change K V))
      → 0 < n
      → ((key0 key1 : ℕ) (k : K) → sip_hash key0 key1 k < 2 ^ 64)
      → ((j : K)
          → get_cloned sip_hash n (runs (with_key sip_hash n key0 key1) changes) j
            ≡ applies (λ k. none) changes j)
        × ((j : K)
            → contains (into_keys sip_hash n (runs (with_key sip_hash n key0 key1) changes)) j
              ≡ contains_key sip_hash n (runs (with_key sip_hash n key0 key1) changes) j)
        × (len sip_hash n (runs (with_key sip_hash n key0 key1) changes)
            ≡ length (into_keys sip_hash n (runs (with_key sip_hash n key0 key1) changes)))
  unfolding into_keys len
  runs-applies key0 key1 changes pos small =
      let start = with_key sip_hash n key0 key1 in
      let s = runs start changes in
      let (found, h) = runs-Follows start changes (with_key-IsSharded key0 key1) in
      let nothing : get_cloned sip_hash n start ≡ (λ k. none) =
        unfold with_key get_cloned get_shard_containing Map.get in refl in
      (
        λ j. ap (λ m. m j) (found ∙ ap (λ m. applies m changes) nothing),
        λ j. ground (arith, contains-collect s 0 n j h, shard_index-lt s j pos small),
        length-collect s 0 n,
      )
