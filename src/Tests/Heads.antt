-- ===== src/Tests/Heads.antt =====
-- The theorems on stamped heads, at concrete messages.
use subduction.Collections.Map.{get, insert}
use subduction.RemoteHeads.{PeerId, Update, or_insert, notify, new, with_seed, next, peek, is_empty}
use subduction.RemoteHeads.Filter.{AscendsFrom, counters_of, notify_all, notify_all-ascends}
use subduction.RemoteHeads.Delivery.{stamp_all, uncontended, notify_all-stamp_all}
use subduction.Prelude.{
  ℕ, ◌≡◌, refl, Bool, true, false, some, List, [], ◌∷◌, arith, nat_eq, bytes_eq, bytes_list_eq,
}

abbrev alice : PeerId
alice = 1 ∷ []

abbrev bob : PeerId
bob = 2 ∷ []

abbrev heads_at : ℕ → Update
heads_at n = record { id = 9 ∷ []; peer = alice; heads = record { counter = n; heads = [] } }

-- Out of order, a repeated one, and one that finds the lock taken.
abbrev arrivals : List (Bool × Update)
arrivals =
    (false, heads_at 2)
    ∷ (false, heads_at 1)
    ∷ (true, heads_at 3)
    ∷ (false, heads_at 2)
    ∷ (false, heads_at 4)
    ∷ []

arrivals_passed_on : notify_all new arrivals ≡ heads_at 2 ∷ heads_at 4 ∷ []
unfolding notify_all notify new or_insert get insert
arrivals_passed_on = ground arith

stamped_twice : peek (next 700 (next 700 with_seed bob).0 bob).0 bob ≡ some 702
unfolding peek next with_seed or_insert get insert
stamped_twice = ground arith

no_heads : is_empty (heads_at 2).heads ≡ true
unfolding is_empty
no_heads = refl

notify_all-ascends_example : AscendsFrom 0 (counters_of alice (notify_all new arrivals))
unfolding new or_insert get
notify_all-ascends_example = notify_all-ascends new arrivals alice

notify_all-stamp_all_example :
    notify_all new
      (uncontended (stamp_all alice bob 700 with_seed ((9 ∷ [], []) ∷ (8 ∷ [], bob ∷ []) ∷ [])))
    ≡ stamp_all alice bob 700 with_seed ((9 ∷ [], []) ∷ (8 ∷ [], bob ∷ []) ∷ [])
unfolding new with_seed or_insert get
notify_all-stamp_all_example =
    notify_all-stamp_all alice bob 700 with_seed ((9 ∷ [], []) ∷ (8 ∷ [], bob ∷ []) ∷ []) new
      (omega arith) (omega arith)
