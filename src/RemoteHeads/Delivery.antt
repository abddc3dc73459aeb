-- ===== src/RemoteHeads/Delivery.antt =====
-- peer/counter.rs with remote_heads.rs: the heads that one peer stamps, as another receives them.
use subduction.Collections.Map.{insert, get-insert}
use subduction.Identity.{CommitId, SedimentreeId}
use subduction.RemoteHeads.{PeerId, Update, FilteredHeadsNotifier, or_insert, PeerCounter, next}
use subduction.RemoteHeads.Filter.{notify_all, last_seen, notify_all-cons, notify-fresh}
use subduction.Prelude.{
  ℕ, ◌+◌, ◌^◌, ◌≤◌, ◌<◌, ◌≡◌, refl, ap, ◌∙◌, Bool, false, List, [], ◌∷◌, map, arith, nat_eq,
  ==-refl, length, bytes_eq, bytes_list_eq,
}

-- `sender` stamps heads for `receiver`, one message after the other.
unfoldable pub stamp_all :
    PeerId → PeerId → ℕ → PeerCounter → List (SedimentreeId × List CommitId) → List Update
stamp_all sender receiver seed self [] = []
stamp_all sender receiver seed self ((id, heads) ∷ later) =
    record {
      id = id;
      peer = sender;
      heads = record { counter = (next seed self receiver).1; heads = heads };
    }
    ∷ stamp_all sender receiver seed (next seed self receiver).0 later

abbrev pub current : ℕ → PeerCounter → PeerId → ℕ
current seed self receiver = or_insert self.counters receiver seed

-- Delivered in order and not contended.
abbrev pub uncontended : List Update → List (Bool × Update)
uncontended us = map (λ u. (false, u)) us

or_insert-insert_same :
    (m : List (PeerId × ℕ)) (peer : PeerId) (n default : ℕ)
    → or_insert (insert m peer n) peer default ≡ n
unfolding or_insert
or_insert-insert_same m peer n default = grind (arith, get-insert m peer peer n, ==-refl peer)

next-value :
    (seed : ℕ) (self : PeerCounter) (receiver : PeerId)
    → current seed self receiver + 1 < 2 ^ 64
    → (next seed self receiver).1 ≡ current seed self receiver + 1
unfolding next
next-value seed self receiver fits = omega (arith, fits)

next-current :
    (seed : ℕ) (self : PeerCounter) (receiver : PeerId)
    → current seed (next seed self receiver).0 receiver ≡ (next seed self receiver).1
unfolding next
next-current seed self receiver = or_insert-insert_same self.counters receiver _ seed

-- Heads that one peer stamps, and that reach the other in order and with the lock free, are all
-- passed on, each with its own counter, when the receiver has let through no counter above the
-- sender's and the counter does not overflow.
pub notify_all-stamp_all :
    (sender receiver : PeerId) (seed : ℕ) (counter : PeerCounter)
    (payloads : List (SedimentreeId × List CommitId)) (self : FilteredHeadsNotifier)
    → last_seen self sender ≤ current seed counter receiver
    → current seed counter receiver + length payloads < 2 ^ 64
    → notify_all self (uncontended (stamp_all sender receiver seed counter payloads))
      ≡ stamp_all sender receiver seed counter payloads
unfolding notify_all stamp_all
notify_all-stamp_all sender receiver seed counter [] self seen fits = refl
notify_all-stamp_all sender receiver seed counter ((id, heads) ∷ later) self seen fits =
    let counter' = (next seed counter receiver).0 in
    let n = (next seed counter receiver).1 in
    let u : Update = record {
      id = id;
      peer = sender;
      heads = record { counter = n; heads = heads };
    } in
    let self' : FilteredHeadsNotifier = record {
      recv_counter = insert self.recv_counter sender n;
    } in
    let up : n ≡ current seed counter receiver + 1 =
      next-value seed counter receiver (omega (arith, fits)) in
    let now : current seed counter' receiver ≡ n = next-current seed counter receiver in
    let seen' : last_seen self' sender ≡ n = or_insert-insert_same self.recv_counter sender n 0 in
    notify_all-cons self false u _ _ (notify-fresh self u (omega (arith, up, seen)))
    ∙ ap (◌∷◌ u) (
        notify_all-stamp_all sender receiver seed counter' later self' (omega (arith, now, seen'))
          (omega (arith, now, up, fits)))
