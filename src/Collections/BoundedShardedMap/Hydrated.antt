-- ===== src/Collections/BoundedShardedMap/Hydrated.antt =====
-- `with_entry_hydrated`: what is mutated, and what is left in the map.
use subduction.Codec.{Result, ok, err, Result-cases}
use subduction.Collections.Map
use subduction.Collections.Map.{Map, get-insert}
use subduction.Collections.ShardedMap.{get_shard_containing, put_shard}
use subduction.Collections.BoundedShardedMap.{
  Entry, BoundedShardedMap, next_tick, evict_if_full_locked, stamp, shard_of, put, on_hit, on_miss,
  with_entry, with_entry_locked, hit_or_install, hit_or_install_locked, with_entry_hydrated,
}
use subduction.Collections.BoundedShardedMap.Reached.{get-put_shard}
use subduction.Prelude.{
  ℕ, ◌≡◌, refl, sym, ap, ◌∙◌, subst, ◌⊎◌, inl, inr, Option, none, some, arith, Eq, nat_eq, ==-refl,
  Option-cases, bytes_eq, bytes_list_eq,
}

-- The value that is mutated: the resident one, or the loaded one, or the default.
abbrev pub base {ℓ} : {V : Type ℓ} → V → Option V → Option V → V
base default loaded (some v) = v
base default (some v) none = v
base default none none = default

module _ {K V : Type 0} ⦃eq : Eq K⦄ (sip_hash : ℕ → ℕ → K → ℕ) (n : ℕ) where
  -- The value of a key, without an access.
  abbrev pub resident : BoundedShardedMap K V → K → Option V
  resident self key = elim (Map.get (shard_of sip_hash n self key) key) [
    | none ↦ none
    | some e ↦ some e.0
  ]

  -- The state in which an operation gets the lock, after its tick and its wait.
  abbrev pub locked :
      (BoundedShardedMap K V → BoundedShardedMap K V)
      → BoundedShardedMap K V
      → BoundedShardedMap K V
  locked waits self = waits (next_tick sip_hash n self).1

  resident-put :
      (self : BoundedShardedMap K V) (key : K) (m : Map K (Entry V)) (v : V) (t : ℕ)
      → resident (put sip_hash n self key (Map.insert m key (v, t))) key ≡ some v
  resident-put self key m v t =
      let here : Map.get
            (get_shard_containing sip_hash n
              (put_shard sip_hash n self.inner key (Map.insert m key (v, t))) key)
            key
          ≡ some (v, t) =
        ap (λ s. Map.get s key) (get-put_shard sip_hash n self.inner key (Map.insert m key (v, t)))
        ∙ ground (arith, get-insert m key key (v, t), ==-refl key) in
      rw (here, resident) refl

  module _ {R : Type 0} (key : K) (f : V → V × R) where
    on_hit-none :
        (self : BoundedShardedMap K V) (tick : ℕ)
        → Map.get (shard_of sip_hash n self key) key ≡ none
        → on_hit sip_hash n self tick key f ≡ none
    unfolding on_hit
    on_hit-none self tick h = rw (h, on_hit) refl

    on_hit-some :
        (self : BoundedShardedMap K V) (tick : ℕ) (e : Entry V)
        → Map.get (shard_of sip_hash n self key) key ≡ some e
        → on_hit sip_hash n self tick key f
          ≡ some (
            put sip_hash n self key (
                Map.insert
                  (shard_of sip_hash n self key)
                  key
                  ((f e.0).0, stamp self.per_shard_capacity tick e.1)),
            (f e.0).1,
          )
    unfolding on_hit
    on_hit-some self tick e h = rw (h, on_hit) refl

    resident-cases :
        (self : BoundedShardedMap K V)
        → ((resident self key ≡ none) × (Map.get (shard_of sip_hash n self key) key ≡ none))
          ⊎ ((e : Entry V) × (resident self key ≡ some e.0)
              × (Map.get (shard_of sip_hash n self key) key ≡ some e))
    resident-cases self = elim (Option-cases (Map.get (shard_of sip_hash n self key) key)) [
      | inl miss ↦ inl (rw (miss, resident) refl, miss)
      | inr (e, hit) ↦ inr (e, rw (hit, resident) refl, hit)
    ]

    -- The result, and the value that is left, of a change of a value.
    abbrev pub Leaves : BoundedShardedMap K V × R → V → Type 0
    Leaves done v = (done.1 ≡ (f v).1) × (resident done.0 key ≡ some (f v).0)

    hit_or_install_locked_lem :
        (self : BoundedShardedMap K V) (tick : ℕ) (default : V) (loaded : Option V)
        → Leaves
            (hit_or_install_locked sip_hash n self tick key (base default loaded none) f)
            (base default loaded (resident self key))
    unfolding hit_or_install_locked
    hit_or_install_locked_lem self tick default loaded =
        let done = hit_or_install_locked sip_hash n self tick key (base default loaded none) f in
        elim (resident-cases self) [
          | inl (absent, miss) ↦
              let v = base default loaded none in
              subst (λ o. Leaves done (base default loaded o)) (sym absent)
                (rw (on_hit-none self tick miss, hit_or_install_locked)
                  (
                    refl,
                    unfold on_miss in
                        resident-put self key
                          (evict_if_full_locked self.per_shard_capacity
                            (shard_of sip_hash n self key) key)
                          (f v).0 tick,
                  ))
          | inr (e, there, hit) ↦
              subst (λ o. Leaves done (base default loaded o)) (sym there)
                (rw (on_hit-some self tick e hit, hit_or_install_locked)
                  (
                    refl,
                    resident-put self key (shard_of sip_hash n self key) (f e.0).0
                        (stamp self.per_shard_capacity tick e.1),
                  ))
        ]

    with_entry_locked-none :
        (self : BoundedShardedMap K V) (tick : ℕ)
        → resident self key ≡ none
        → with_entry_locked sip_hash n self tick key f ≡ (self, none)
    unfolding with_entry_locked
    with_entry_locked-none self tick h = elim (resident-cases self) [
      | inl (_, miss) ↦ rw (on_hit-none self tick miss, with_entry_locked) refl
      | inr (e, there, _) ↦ absurd (cc (h, there))
    ]

    with_entry_locked-some :
        (self : BoundedShardedMap K V) (tick : ℕ) (v : V)
        → resident self key ≡ some v
        → ((with_entry_locked sip_hash n self tick key f).1 ≡ some (f v).1)
          × (resident (with_entry_locked sip_hash n self tick key f).0 key ≡ some (f v).0)
    unfolding with_entry_locked
    with_entry_locked-some self tick v h = elim (resident-cases self) [
      | inl (absent, _) ↦ absurd (cc (h, absent))
      | inr (e, there, hit) ↦
          let same : e.0 ≡ v = cc (h, there) in
          subst
            (λ w.
              ((with_entry_locked sip_hash n self tick key f).1 ≡ some (f w).1)
              × (resident (with_entry_locked sip_hash n self tick key f).0 key ≡ some (f w).0))
            same
            (rw (on_hit-some self tick e hit, with_entry_locked)
              (
                refl,
                resident-put self key (shard_of sip_hash n self key) (f e.0).0
                    (stamp self.per_shard_capacity tick e.1),
              ))
    ]

    module _ {E : Type 0} (default : V)
        (waits loading rewaits : BoundedShardedMap K V → BoundedShardedMap K V)
        (self : BoundedShardedMap K V) where
      abbrev pub hydrated : Result E (Option V) → BoundedShardedMap K V × Result E R
      hydrated load = with_entry_hydrated sip_hash n default waits loading rewaits load self key f

      on_resident :
          (load : Result E (Option V)) (v : V)
          → resident (locked waits self) key ≡ some v
          → ((hydrated load).1 ≡ ok (f v).1) × (resident (hydrated load).0 key ≡ some (f v).0)
      unfolding with_entry_hydrated with_entry
      on_resident load v there =
          let (result, left) =
            with_entry_locked-some (locked waits self) (next_tick sip_hash n self).0 v there in
          rw (result, with_entry_hydrated) (refl, left)

      on_failure :
          (load : Result E (Option V)) (e : E)
          → resident (locked waits self) key ≡ none
          → load ≡ err e
          → hydrated load ≡ (loading (locked waits self), err e)
      unfolding with_entry_hydrated with_entry
      on_failure load e absent failed =
          let w = with_entry_locked-none (locked waits self) (next_tick sip_hash n self).0 absent in
          rw (ap (λ p. p.1) w, failed, with_entry_hydrated) (ap (λ p. (loading p.0, err e)) w)

      on_load :
          (load : Result E (Option V)) (loaded : Option V)
          → resident (locked waits self) key ≡ none
          → load ≡ ok loaded
          → (v : V) × (v
              ≡ base default loaded (resident (locked rewaits (loading (locked waits self))) key))
            × ((hydrated load).1 ≡ ok (f v).1)
            × (resident (hydrated load).0 key ≡ some (f v).0)
      unfolding with_entry_hydrated with_entry hit_or_install
      on_load load loaded absent found =
          let w = with_entry_locked-none (locked waits self) (next_tick sip_hash n self).0 absent in
          let value = base default loaded none in
          let finish : BoundedShardedMap K V → BoundedShardedMap K V × Result E R = λ r. (
            (hit_or_install sip_hash n rewaits (loading r) key value f).0,
            ok (hit_or_install sip_hash n rewaits (loading r) key value f).1,
          ) in
          let whole : hydrated load ≡ finish (locked waits self) =
            rw (ap (λ p. p.1) w, found, with_entry_hydrated) (ap (λ p. finish p.0) w) in
          let (result, left) =
            hit_or_install_locked_lem (locked rewaits (loading (locked waits self)))
              (next_tick sip_hash n (loading (locked waits self))).0 default loaded in
          (
            base default loaded (resident (locked rewaits (loading (locked waits self))) key),
            refl,
            ap (λ p. p.1) whole ∙ ap ok result,
            ap (λ p. resident p.0 key) whole ∙ left,
          )

      -- `with_entry_hydrated` mutates the value that is resident when it gets the lock, if there is
      -- one. If not, a failed load is passed on, and nothing but what others do meanwhile is done; else
      -- it mutates the value that is resident when it gets the lock again, or the loaded one, or the
      -- default. The mutated value is left.
      pub with_entry_hydrated_lem :
          (load : Result E (Option V))
          → ((v : V) × (resident (locked waits self) key ≡ some v)
              × ((hydrated load).1 ≡ ok (f v).1)
              × (resident (hydrated load).0 key ≡ some (f v).0))
            ⊎ ((e : E) × (resident (locked waits self) key ≡ none)
                × (load ≡ err e)
                × (hydrated load ≡ (loading (locked waits self), err e)))
            ⊎ ((loaded : Option V) × (v : V) × (resident (locked waits self) key ≡ none)
                × (load ≡ ok loaded)
                × (v
                    ≡ base default loaded
                        (resident (locked rewaits (loading (locked waits self))) key))
                × ((hydrated load).1 ≡ ok (f v).1)
                × (resident (hydrated load).0 key ≡ some (f v).0))
      with_entry_hydrated_lem load = elim (Option-cases (resident (locked waits self) key)) [
        | inr (v, there) ↦
            inl (v, there, (on_resident load v there).0, (on_resident load v there).1)
        | inl absent ↦ elim (Result-cases load) [
          | inl (loaded, found) ↦
              let (v, same, result, left) = on_load load loaded absent found in
              inr (inr (loaded, v, absent, found, same, result, left))
          | inr (e, failed) ↦ inr (inl (e, absent, failed, on_failure load e absent failed))
        ]
      ]
