-- ===== src/RemoteHeads/Filter.antt =====
-- remote_heads.rs: what a series of notifications passes on.
use subduction.Collections.Map.{insert, get-insert}
use subduction.RemoteHeads.{PeerId, Update, FilteredHeadsNotifier, or_insert, notify}
use subduction.Prelude.{
  ℕ, ◌≤◌, ◌<◌, ◌≡◌, refl, sym, ap, ◌∙◌, subst, inl, inr, Bool, true, false, Option, none, some,
  List, [], ◌∷◌, arith, dec_le, if◌then◌else◌, ◌==◌, nat_eq, ==_iff, Bool-cases, bytes_eq,
  bytes_list_eq,
}

-- The updates that pass the filter, in the order in which their calls hold its lock. Each is passed
-- to the observer after the lock is dropped.
unfoldable pub notify_all : FilteredHeadsNotifier → List (Bool × Update) → List Update
notify_all self [] = []
notify_all self ((contended, u) ∷ later) =
    let rest = notify_all (notify contended self u).0 later in
    elim (notify contended self u).1 [ none ↦ rest | some call ↦ call ∷ rest ]

-- The last counter that was let through for a peer.
abbrev pub last_seen : FilteredHeadsNotifier → PeerId → ℕ
last_seen self peer = or_insert self.recv_counter peer 0

-- The counters of a peer, in order.
unfoldable pub counters_of : PeerId → List Update → List ℕ
counters_of peer [] = []
counters_of peer (u ∷ us) =
    if u.peer == peer then u.heads.counter ∷ counters_of peer us else counters_of peer us

unfoldable pub AscendsFrom : ℕ → List ℕ → Type 0
AscendsFrom n [] = Unit
AscendsFrom n (m ∷ ms) = n < m × AscendsFrom m ms

or_insert-insert :
    (self : FilteredHeadsNotifier) (peer other : PeerId) (n : ℕ)
    → or_insert (insert self.recv_counter peer n) other 0
      ≡ (if peer == other then n else last_seen self other)
unfolding or_insert
or_insert-insert self peer other n = grind (arith, get-insert self.recv_counter peer other n)

-- The counter that a stale update writes back changes nothing.
or_insert-same :
    (self : FilteredHeadsNotifier) (peer other : PeerId)
    → or_insert (insert self.recv_counter peer (last_seen self peer)) other 0 ≡ last_seen self other
or_insert-same self peer other = elim (Bool-cases (peer == other)) [
  | inl hit ↦
      or_insert-insert self peer other (last_seen self peer)
      ∙ rw hit (ap (last_seen self) ((==_iff peer other).0 hit))
  | inr miss ↦ or_insert-insert self peer other (last_seen self peer) ∙ rw miss refl
]

notify-stale :
    (self : FilteredHeadsNotifier) (u : Update)
    → u.heads.counter ≤ last_seen self u.peer
    → notify false self u
      ≡ (record { recv_counter = insert self.recv_counter u.peer (last_seen self u.peer) }, none)
unfolding notify
notify-stale self u stale = ground (arith, stale)

pub notify-fresh :
    (self : FilteredHeadsNotifier) (u : Update)
    → last_seen self u.peer < u.heads.counter
    → notify false self u
      ≡ (record { recv_counter = insert self.recv_counter u.peer u.heads.counter }, some u)
unfolding notify
notify-fresh self u fresh = ground (arith, fresh)

-- What a run passes on, by the result of its first step.
pub notify_all-cons :
    (self : FilteredHeadsNotifier) (contended : Bool) (u : Update) (later : List (Bool × Update))
    (r : FilteredHeadsNotifier × Option Update)
    → notify contended self u ≡ r
    → notify_all self ((contended, u) ∷ later)
      ≡ elim r.1 [ none ↦ notify_all r.0 later | some call ↦ call ∷ notify_all r.0 later ]
unfolding notify_all
notify_all-cons self contended u later r h =
    ap
      (λ (x : FilteredHeadsNotifier × Option Update). elim x.1 [
        | none ↦ notify_all x.0 later
        | some call ↦ call ∷ notify_all x.0 later
      ])
      h

AscendsFrom-cons :
    (self : FilteredHeadsNotifier) (u : Update) (calls : List Update) (peer : PeerId)
    → last_seen self u.peer < u.heads.counter
    → AscendsFrom
        (or_insert (insert self.recv_counter u.peer u.heads.counter) peer 0)
        (counters_of peer calls)
    → AscendsFrom (last_seen self peer) (counters_of peer (u ∷ calls))
unfolding counters_of AscendsFrom
AscendsFrom-cons self u calls peer fresh h =
    let h' : AscendsFrom (if u.peer == peer then u.heads.counter else last_seen self peer)
        (counters_of peer calls) =
      subst (λ n. AscendsFrom n (counters_of peer calls))
        (or_insert-insert self u.peer peer u.heads.counter) h in
    go (u.peer == peer)
      (λ hit. subst (λ q. last_seen self q < u.heads.counter) ((==_iff u.peer peer).0 hit) fresh) h'
  where
    go :
        (b : Bool)
        → (b ≡ true → last_seen self peer < u.heads.counter)
        → AscendsFrom (if b then u.heads.counter else last_seen self peer) (counters_of peer calls)
        → AscendsFrom
            (last_seen self peer)
            (if b then u.heads.counter ∷ counters_of peer calls else counters_of peer calls)
    go true lt k = (lt refl, k)
    go false lt k = k

-- Of the updates from one peer that pass the filter, taken in the order in which their calls held
-- its lock, the counters ascend strictly, from above the last one that passed before. The calls of
-- the observer come after the lock is dropped, and nothing is said of their order.
pub notify_all-ascends :
    (self : FilteredHeadsNotifier) (updates : List (Bool × Update)) (peer : PeerId)
    → AscendsFrom (last_seen self peer) (counters_of peer (notify_all self updates))
unfolding notify_all counters_of AscendsFrom notify
notify_all-ascends self [] peer = tt
notify_all-ascends self ((true, u) ∷ later) peer = notify_all-ascends self later peer
notify_all-ascends self ((false, u) ∷ later) peer =
    elim (dec_le u.heads.counter (last_seen self u.peer)) [
      | yes stale ↦
          let m = insert self.recv_counter u.peer (last_seen self u.peer) in
          subst (λ calls. AscendsFrom (last_seen self peer) (counters_of peer calls))
            (sym (notify_all-cons self false u later _ (notify-stale self u stale)))
            (subst
              (λ n. AscendsFrom n (counters_of peer (notify_all record { recv_counter = m } later)))
              (or_insert-same self u.peer peer)
              (notify_all-ascends record { recv_counter = m } later peer))
      | no fresh ↦
          let lt : last_seen self u.peer < u.heads.counter = omega (arith, fresh) in
          let m = insert self.recv_counter u.peer u.heads.counter in
          subst (λ calls. AscendsFrom (last_seen self peer) (counters_of peer calls))
            (sym (notify_all-cons self false u later _ (notify-fresh self u lt)))
            (AscendsFrom-cons self u _ peer lt
              (notify_all-ascends record { recv_counter = m } later peer))
    ]
