-- ===== src/Collections/ShardedMap.antt =====
-- `ShardedMap` of subduction_core/src/collections/sharded_map.rs. A shard is behind a mutex that an
-- operation holds from its start to its end; the shards, an array of `n`, are a function of the
-- index. The hasher of the crate siphasher is a parameter.
pub mod Lookup
pub mod Whole
use subduction.Collections.Map
use subduction.Collections.Map.{Map, keys, values}
use subduction.Prelude.{
  ℕ, zero, suc, ◌+◌, ◌-◌, ◌*◌, ◌/◌, ◌%◌, ◌^◌, ◌≤◌, ◌<◌, min, ◌≡◌, refl, sym, ap, ◌∙◌, subst, ◌≢◌,
  ◌↔◌, ◌⊎◌, inl, inr, Bool, true, false, not, ◌&&◌, ◌||◌, Option, none, some, List, [], ◌∷◌, ◌++◌,
  map, append_assoc, append-nil, arith, dec_lt, dec_le, ℕ_discrete, ltb, leb, if◌then◌else◌, Eq,
  ◌==◌, nat_eq, ==_iff, ==-refl, Bool-cases, Option-cases, length, take, drop, get_elem?, filter,
  any, all, All, length-append, take-append, drop-append, Bytes, IsByte, IsArray, bytes_eq,
  Bytes-discrete, bytes_ltb, bytes_ltb_irrefl, bytes_ltb_trans, bytes_ltb-total, bytes_ltb-asymm,
  take-append-drop, length-take, length-drop, All-append, All-drop, zero-add, add-zero, suc-add,
  add_assoc, add_comm, ltb_of_le, ltb_of_lt, le_of_ltb, lt_of_ltb, length-drop_fits, drop-drop,
  add-one, list_discrete, bytes_list_eq, filter_none, List-cases, All-imp, All-snoc, append-All,
  length-map,
}

pub record ShardedMap (K V : Type 0) : Type 0 where
  pub shards : ℕ → Map K V
  pub key0 : ℕ
  pub key1 : ℕ

module _ {K V : Type 0} ⦃eq : Eq K⦄ (sip_hash : ℕ → ℕ → K → ℕ) (n : ℕ) where
  unfoldable pub with_key : ℕ → ℕ → ShardedMap K V
  with_key key0 key1 = record { shards = λ i. []; key0 = key0; key1 = key1 }

  -- `(u128::from(hash) * (N as u128)) >> 64`, of two numbers below 2^64
  unfoldable pub shard_index : ShardedMap K V → K → ℕ
  shard_index self key = sip_hash self.key0 self.key1 key * n / 2 ^ 64

  unfoldable pub shard_at : ShardedMap K V → ℕ → Option (Map K V)
  shard_at self index = if ltb index n then some (self.shards index) else none

  unfoldable pub get_shard_containing : ShardedMap K V → K → Map K V
  get_shard_containing self key = self.shards (shard_index self key)

  -- What a guard of the key's shard leaves.
  unfoldable pub put_shard : ShardedMap K V → K → Map K V → ShardedMap K V
  put_shard self key shard = record self {
    shards = λ i. if i == shard_index self key then shard else self.shards i;
  }

  unfoldable pub get_cloned : ShardedMap K V → K → Option V
  get_cloned self key = Map.get (get_shard_containing self key) key

  unfoldable pub contains_key : ShardedMap K V → K → Bool
  contains_key self key = Map.contains_key (get_shard_containing self key) key

  unfoldable pub insert : ShardedMap K V → K → V → ShardedMap K V × Option V
  insert self key value =
      let shard = get_shard_containing self key in
      (put_shard self key (Map.insert shard key value), Map.get shard key)

  unfoldable pub remove : ShardedMap K V → K → ShardedMap K V × Option V
  remove self key =
      let shard = get_shard_containing self key in
      (put_shard self key (Map.remove shard key), Map.get shard key)

  -- `entry(key).or_default()`
  unfoldable pub or_default : V → Map K V → K → V
  or_default default shard key = elim (Map.get shard key) [ none ↦ default | some v ↦ v ]

  unfoldable pub entry_or_default : V → ShardedMap K V → K → ShardedMap K V × V
  entry_or_default default self key =
      let shard = get_shard_containing self key in
      let value = or_default default shard key in
      (put_shard self key (Map.insert shard key value), value)

  unfoldable pub with_entry_or_default :
      {R : Type 0} → V → ShardedMap K V → K → (V → V × R) → ShardedMap K V × R
  with_entry_or_default default self key f =
      let shard = get_shard_containing self key in
      let done = f (or_default default shard key) in
      (put_shard self key (Map.insert shard key done.0), done.1)

  unfoldable pub with_entry :
      {R : Type 0} → ShardedMap K V → K → (V → V × R) → ShardedMap K V × Option R
  with_entry self key f =
      let shard = get_shard_containing self key in
      elim (Map.get shard key) [
        | none ↦ (self, none)
        | some value ↦ (put_shard self key (Map.insert shard key (f value).0), some (f value).1)
      ]

  unfoldable pub merge_with : ShardedMap K V → K → V → (V → V → V) → ShardedMap K V
  merge_with self key value merge =
      let shard = get_shard_containing self key in
      elim (Map.get shard key) [
        | some existing ↦ put_shard self key (Map.insert shard key (merge existing value))
        | none ↦ put_shard self key (Map.insert shard key value)
      ]

  -- `for shard in &self.shards { … }`, from an index on
  unfoldable pub collect : {A : Type 0} → (Map K V → List A) → ShardedMap K V → ℕ → ℕ → List A
  collect f self i zero = []
  collect f self i (suc count) = f (self.shards i) ++ collect f self (suc i) count

  unfoldable pub into_keys : ShardedMap K V → List K
  into_keys self = collect keys self 0 n

  unfoldable pub into_values : ShardedMap K V → List V
  into_values self = collect values self 0 n

  unfoldable pub total : ShardedMap K V → ℕ → ℕ → ℕ
  total self i zero = 0
  total self i (suc count) = length (self.shards i) + total self (suc i) count

  unfoldable pub len : ShardedMap K V → ℕ
  len self = total self 0 n

  unfoldable pub all_empty : ShardedMap K V → ℕ → ℕ → Bool
  all_empty self i zero = true
  all_empty self i (suc count) =
      if not (length (self.shards i) == 0) then false else all_empty self (suc i) count

  unfoldable pub is_empty : ShardedMap K V → Bool
  is_empty self = all_empty self 0 n

  unfoldable pub clear : ShardedMap K V → ShardedMap K V
  clear self = record self { shards = λ i. [] }
