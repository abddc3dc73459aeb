-- ===== src/RemoteHeads.antt =====
-- subduction_core/src/remote_heads.rs and peer/counter.rs: heads that are stamped per peer, and the
-- filter that drops stale ones.
pub mod Filter
pub mod Delivery
use subduction.Collections.Map.{Map, get, insert}
use subduction.Identity.{CommitId, SedimentreeId}
use subduction.Prelude.{
  ℕ, zero, suc, ◌+◌, ◌-◌, ◌*◌, ◌/◌, ◌%◌, ◌^◌, ◌≤◌, ◌<◌, min, ◌≡◌, refl, sym, ap, ◌∙◌, subst, ◌≢◌,
  ◌↔◌, ◌⊎◌, inl, inr, Bool, true, false, not, ◌&&◌, ◌||◌, Option, none, some, List, [], ◌∷◌, ◌++◌,
  map, append_assoc, append-nil, arith, dec_lt, dec_le, ℕ_discrete, ltb, leb, if◌then◌else◌, Eq,
  ◌==◌, nat_eq, ==_iff, ==-refl, Bool-cases, Option-cases, length, take, drop, get_elem?, filter,
  any, all, All, length-append, take-append, drop-append, Bytes, IsByte, IsArray, bytes_eq,
  Bytes-discrete, bytes_ltb, bytes_ltb_irrefl, bytes_ltb_trans, bytes_ltb-total, bytes_ltb-asymm,
  take-append-drop, length-take, length-drop, All-append, All-drop, zero-add, add-zero, suc-add,
  add_assoc, add_comm, ltb_of_le, ltb_of_lt, le_of_ltb, lt_of_ltb, length-drop_fits, drop-drop,
  add-one, list_discrete, bytes_list_eq, filter_none, List-cases, All-imp, All-snoc, append-All,
}

abbrev pub PeerId : Type 0
PeerId = Bytes

pub record RemoteHeads : Type 0 where
  pub counter : ℕ
  pub heads : List CommitId

-- The arguments of `notify`, which are those of `on_remote_heads` too.
pub record Update : Type 0 where
  pub id : SedimentreeId
  pub peer : PeerId
  pub heads : RemoteHeads

-- `FilteredHeadsNotifier`. The observer is the application's: what it is called with is a result
-- of `notify`.
pub record FilteredHeadsNotifier : Type 0 where
  pub recv_counter : Map PeerId ℕ

-- `RemoteHeads::is_empty`
unfoldable pub is_empty : RemoteHeads → Bool
is_empty self = elim self.heads [ [] ↦ true | id ∷ ids ↦ false ]

-- `FilteredHeadsNotifier::new`
unfoldable pub new : FilteredHeadsNotifier
new = record { recv_counter = [] }

-- `entry(peer).or_insert(default)`
unfoldable pub or_insert : Map PeerId ℕ → PeerId → ℕ → ℕ
or_insert m peer default = elim (get m peer) [ none ↦ default | some n ↦ n ]

-- `contended` says that `try_lock` failed. The step is the one under the lock; the observer is
-- called after it.
unfoldable pub notify :
    Bool → FilteredHeadsNotifier → Update → FilteredHeadsNotifier × Option Update
notify contended self u =
    let last = or_insert self.recv_counter u.peer 0 in
    if contended
    then (self, none)
    else if leb u.heads.counter last
    then (record { recv_counter = insert self.recv_counter u.peer last }, none)
    else (record { recv_counter = insert self.recv_counter u.peer u.heads.counter }, some u)

-- `PeerCounter`, whose `seed` gives a value at each call: the argument of `next`.
pub record PeerCounter : Type 0 where
  pub counters : Map PeerId ℕ

-- `PeerCounter::with_seed`
unfoldable pub with_seed : PeerCounter
with_seed = record { counters = [] }

-- `PeerCounter::next`. The addition to the atomic wraps, and so does the one to the result in a
-- build without overflow checks.
unfoldable pub next : ℕ → PeerCounter → PeerId → PeerCounter × ℕ
next seed self peer =
    let counter = or_insert self.counters peer seed in
    let after = (counter + 1) % 2 ^ 64 in
    (record { counters = insert self.counters peer after }, after)

-- `PeerCounter::peek`
unfoldable pub peek : PeerCounter → PeerId → Option ℕ
peek self peer = get self.counters peer
