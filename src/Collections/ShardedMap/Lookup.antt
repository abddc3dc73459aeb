-- ===== src/Collections/ShardedMap/Lookup.antt =====
-- A `ShardedMap` as one map.
use subduction.Collections.Map
use subduction.Collections.Map.{Map, keys, values, get-insert, contains-keys}
use subduction.Collections.Set.{contains}
use subduction.Collections.Index.{Distinct}
use subduction.Collections.ShardedMap.{
  ShardedMap, shard_index, get_shard_containing, put_shard, get_cloned, insert, remove, or_default,
  with_entry_or_default, with_entry, merge_with, clear,
}
use subduction.Collections.BoundedShardedMap.Shards.{
  Distinct-insert, Distinct-remove, keys-insert, keys-remove, get-remove,
}
use subduction.Prelude.{
  ℕ, ◌≡◌, refl, sym, ap, ◌∙◌, subst, inl, inr, true, false, ◌||◌, Option, none, some, arith,
  if◌then◌else◌, Eq, ◌==◌, nat_eq, ==_iff, ==-refl, Bool-cases, Option-cases, bytes_eq,
  bytes_list_eq,
}

-- The operations that change a map, and what they do to what is looked up.
pub data Change (K V : Type 0) : Type 0 where
  inserts : K → V → Change K V
  removes : K → Change K V
  alters : K → (V → V) → Change K V
  alters_or_default : V → K → (V → V) → Change K V
  merges : K → V → (V → V → V) → Change K V
  clears : Change K V

module _ {K V : Type 0} ⦃eq : Eq K⦄ where
  set : (K → Option V) → K → Option V → K → Option V
  set m k v j = if k == j then v else m j

  abbrev pub apply : (K → Option V) → Change K V → K → Option V
  apply m (inserts k v) j = if k == j then some v else m j
  apply m (removes k) j = if k == j then none else m j
  apply m (alters k f) j = if k == j then elim (m k) [ none ↦ none | some v ↦ some (f v) ] else m j
  apply m (alters_or_default d k f) j =
      if k == j then elim (m k) [ none ↦ some (f d) | some v ↦ some (f v) ] else m j
  apply m (merges k v f) j =
      if k == j then elim (m k) [ none ↦ some v | some w ↦ some (f w v) ] else m j
  apply m clears j = none

  module _ (sip_hash : ℕ → ℕ → K → ℕ) (n : ℕ) where
    abbrev pub run : ShardedMap K V → Change K V → ShardedMap K V
    run self (inserts k v) = (insert sip_hash n self k v).0
    run self (removes k) = (remove sip_hash n self k).0
    run self (alters k f) = (with_entry sip_hash n self k (λ v. (f v, tt))).0
    run self (alters_or_default d k f) =
        (with_entry_or_default sip_hash n d self k (λ v. (f v, tt))).0
    run self (merges k v f) = merge_with sip_hash n self k v f
    run self clears = clear sip_hash n self

    -- Each key once, and in its own shard.
    pub record IsSharded (self : ShardedMap K V) : Type 0 where
      pub once : (i : ℕ) → Distinct (keys (self.shards i))
      pub placed :
          (i : ℕ) (k : K)
          → contains (keys (self.shards i)) k ≡ true
          → shard_index sip_hash n self k ≡ i

    -- A shard in place of a key's shard.
    replaced :
        (self : ShardedMap K V) (k : K) (shard : Map K V)
        → IsSharded self
        → Distinct (keys shard)
        → ((j : K)
            → contains (keys shard) j ≡ true
            → ((k == j) || contains (keys (get_shard_containing sip_hash n self k)) j) ≡ true)
        → IsSharded (put_shard sip_hash n self k shard)
    unfolding put_shard get_shard_containing shard_index
    replaced self k shard h d within =
        let at_k = shard_index sip_hash n self k in
        record {
          once = λ i. elim (Bool-cases (i == at_k)) [
            | inl hit ↦ rw hit d
            | inr miss ↦ rw miss (h.once i)
          ];
          placed = λ i j there. elim (Bool-cases (i == at_k)) [
            | inl hit ↦
                let m : contains (keys shard) j ≡ true = ground (arith, there, hit) in
                elim (Bool-cases (k == j)) [
                  | inl same ↦
                      ap (shard_index sip_hash n self) (sym ((==_iff k j).0 same))
                      ∙ sym ((==_iff i at_k).0 hit)
                  | inr other ↦
                      h.placed at_k j (ground (arith, within j m, other))
                      ∙ sym ((==_iff i at_k).0 hit)
                ]
            | inr miss ↦ h.placed i j (ground (arith, there, miss))
          ];
        }

    get-put_shard :
        (self : ShardedMap K V) (k j : K) (shard : Map K V)
        → ((k == j) ≡ false → Map.get shard j ≡ Map.get (get_shard_containing sip_hash n self k) j)
        → get_cloned sip_hash n (put_shard sip_hash n self k shard) j
          ≡ (if k == j then Map.get shard k else get_cloned sip_hash n self j)
    unfolding get_cloned put_shard get_shard_containing shard_index
    get-put_shard self k j shard rest =
        let at_k = shard_index sip_hash n self k in
        let at_j = shard_index sip_hash n self j in
        elim (Bool-cases (k == j)) [
          | inl same ↦
              let e : k ≡ j = (==_iff k j).0 same in
              rw same (
                subst
                  (λ x.
                    Map.get
                      (if shard_index sip_hash n self x == at_k
                        then shard
                        else self.shards (shard_index sip_hash n self x))
                      x
                    ≡ Map.get shard k)
                  e (rw (==-refl at_k) refl))
          | inr other ↦ rw other (elim (Bool-cases (at_j == at_k)) [
            | inl hit ↦
                rw hit (
                  rest other ∙ ap (λ i. Map.get (self.shards i) j) (sym ((==_iff at_j at_k).0 hit)))
            | inr miss ↦ rw miss refl
          ])
        ]

    -- A step looks up as the one map does, and keeps each key once and in its shard.
    abbrev Follows : ShardedMap K V → Change K V → Type 0
    Follows self change =
        ((j : K)
          → get_cloned sip_hash n (run self change) j ≡ apply (get_cloned sip_hash n self) change j)
        × IsSharded (run self change)

    puts :
        (self : ShardedMap K V) (k : K) (v : V)
        → IsSharded self
        → ((j : K)
            → get_cloned sip_hash n
                (put_shard sip_hash n self k
                  (Map.insert (get_shard_containing sip_hash n self k) k v))
                j
              ≡ (if k == j then some v else get_cloned sip_hash n self j))
          × IsSharded (
              put_shard sip_hash n self k (Map.insert (get_shard_containing sip_hash n self k) k v))
    puts self k v h =
        let shard = get_shard_containing sip_hash n self k in
        (
          λ j.
              get-put_shard self k j (Map.insert shard k v)
                (λ other. ground (arith, get-insert shard k j v, other))
              ∙ ground (arith, get-insert shard k k v, ==-refl k),
          replaced self k (Map.insert shard k v) h
              (Distinct-insert shard k v
                (unfold get_shard_containing in h.once (shard_index sip_hash n self k)))
              (λ j m. sym (keys-insert shard k j v) ∙ m),
        )

    get-removed : (m : Map K V) (k : K) → Distinct (keys m) → Map.get (Map.remove m k) k ≡ none
    get-removed m k d = elim (Option-cases (Map.get (Map.remove m k) k)) [
      | inl gone ↦ gone
      | inr (v, there) ↦
          absurd (
            ground (arith, contains-keys (Map.remove m k) k, keys-remove m k k d, there, ==-refl k))
    ]

    missing :
        (self : ShardedMap K V) (k : K)
        → get_cloned sip_hash n self k ≡ none
        → (j : K)
        → get_cloned sip_hash n self j ≡ (if k == j then none else get_cloned sip_hash n self j)
    missing self k h j = elim (Bool-cases (k == j)) [
      | inl same ↦ rw same (ap (get_cloned sip_hash n self) (sym ((==_iff k j).0 same)) ∙ h)
      | inr other ↦ rw other refl
    ]

    pub run-Follows :
        (self : ShardedMap K V) (change : Change K V) → IsSharded self → Follows self change
    unfolding insert remove with_entry with_entry_or_default or_default merge_with clear get_cloned
    run-Follows self (inserts k v) h = puts self k v h
    run-Follows self (removes k) h =
        let shard = get_shard_containing sip_hash n self k in
        let d : Distinct (keys shard) =
          unfold get_shard_containing in h.once (shard_index sip_hash n self k) in
        (
          λ j.
              get-put_shard self k j (Map.remove shard k) (λ other. get-remove shard k j other)
              ∙ ap (λ o. if k == j then o else get_cloned sip_hash n self j)
                  (get-removed shard k d),
          replaced self k (Map.remove shard k) h (Distinct-remove shard k d)
              (λ j m. ground (arith, m, keys-remove shard k j d)),
        )
    run-Follows self (alters k f) h =
        elim (Option-cases (Map.get (get_shard_containing sip_hash n self k) k)) [
          | inl miss ↦ rw (miss, run, apply) (missing self k miss, h)
          | inr (v, hit) ↦ rw (hit, run, apply) (puts self k (f v) h)
        ]
    run-Follows self (alters_or_default d k f) h =
        elim (Option-cases (Map.get (get_shard_containing sip_hash n self k) k)) [
          | inl miss ↦ rw (miss, run, apply, or_default) (puts self k (f d) h)
          | inr (v, hit) ↦ rw (hit, run, apply, or_default) (puts self k (f v) h)
        ]
    run-Follows self (merges k v f) h =
        elim (Option-cases (Map.get (get_shard_containing sip_hash n self k) k)) [
          | inl miss ↦ rw (miss, run, apply, merge_with) (puts self k v h)
          | inr (w, hit) ↦ rw (hit, run, apply, merge_with) (puts self k (f w v) h)
        ]
    run-Follows self clears h = (
      λ j. unfold get_shard_containing Map.get in refl,
      record { once = λ i. tt; placed = λ i k m. unfold contains in cc },
    )
