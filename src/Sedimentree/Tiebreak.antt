-- ===== src/Sedimentree/Tiebreak.antt =====
-- `insert_or_tiebreak` of sedimentree.rs, seen through lookups: a join of the old entry and the new.
use subduction.Identity.{CommitId}
use subduction.Collections.Map
use subduction.Collections.Map.{Map, get-insert}
use subduction.Sedimentree.{insert_or_tiebreak, insert_all}
use subduction.Prelude.{
  ap, ◌∙◌, ◌≡◌, refl, sym, Option, none, some, [], ◌∷◌, arith, if◌then◌else◌, ◌==◌, nat_eq, Bytes,
  bytes_eq, bytes_ltb, bytes_ltb_trans, bytes_ltb-total, bytes_ltb-asymm, bytes_list_eq,
}

module _ {V : Type 0} (hash : V → Bytes) where
  -- What the tie-breaker leaves of an entry and a new one.
  unfoldable pub join : Option V → Option V → Option V
  join none new = new
  join (some old) none = some old
  join (some old) (some new) = if bytes_ltb (hash new) (hash old) then some new else some old

  pub join-none : (a : Option V) → join a none ≡ a
  unfolding join
  join-none none = refl
  join-none (some a) = refl

  pub join_idem : (a : Option V) → join a a ≡ a
  unfolding join
  join_idem none = refl
  join_idem (some a) = ground arith

  pub get-insert_or_tiebreak :
      (m : Map CommitId V) (k j : CommitId) (v : V)
      → Map.get (insert_or_tiebreak hash m k v) j
        ≡ (if k == j then join (Map.get m j) (some v) else Map.get m j)
  unfolding insert_or_tiebreak join
  get-insert_or_tiebreak m k j v = ground (arith, get-insert m k j v)

  -- A map has each key once.
  abbrev pub Distinct : Map CommitId V → Type 0
  Distinct [] = Unit
  Distinct ((k, v) ∷ m) = (Map.get m k ≡ none) × Distinct m

  pub get-insert_all :
      (others m : Map CommitId V) (j : CommitId)
      → Distinct others
      → Map.get (insert_all hash m others) j ≡ join (Map.get m j) (Map.get others j)
  unfolding insert_all Map.get
  get-insert_all [] m j d = sym (join-none (Map.get m j))
  get-insert_all ((k, v) ∷ others) m j d = ground (
    arith,
    get-insert_all others (insert_or_tiebreak hash m k v) j d.1,
    get-insert_or_tiebreak m k j v,
    join-none (join (Map.get m j) (some v)),
    d.0,
  )

  -- With a hash that tells the values apart, `join` forgets the order of arrival.
  module _ (collision_free : (u v : V) → hash u ≡ hash v → u ≡ v) where
    pub join_comm : (a b : Option V) → join a b ≡ join b a
    unfolding join
    join_comm none none = refl
    join_comm none (some b) = refl
    join_comm (some a) none = refl
    join_comm (some a) (some b) = ground (
      arith,
      bytes_ltb-asymm (hash a) (hash b),
      bytes_ltb-total (hash a) (hash b),
      collision_free a b,
    )

    pub join_assoc : (a b c : Option V) → join (join a b) c ≡ join a (join b c)
    unfolding join
    join_assoc none b c = refl
    join_assoc (some a) none c = refl
    join_assoc (some a) (some b) none = ground arith
    join_assoc (some a) (some b) (some c) = ground (
      arith,
      bytes_ltb_trans (hash c) (hash b) (hash a),
      bytes_ltb_trans (hash c) (hash a) (hash b),
      bytes_ltb-total (hash a) (hash b),
    )

    pub join_swap : (a b c : Option V) → join (join a b) c ≡ join (join a c) b
    join_swap a b c = join_assoc a b c ∙ ap (join a) (join_comm b c) ∙ sym (join_assoc a c b)
