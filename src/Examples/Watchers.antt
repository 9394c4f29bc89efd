-- ===== src/Examples/Watchers.antt =====
-- Watchers of daemon/src/outbox.rs, told of two events.
use rldyour_clipboard.Proto.{Response, cleared, removed}
use rldyour_clipboard.Outbox.Watchers.{
  Subscriber, Registry, broadcast, broadcast_to, noted, takes_event, IsWithin, deliver,
  broadcast_lem, queue_bound,
}
use rldyour_clipboard.Outbox.Ordering.{
  Watching, added, heard, received, transmitted, sent_in_order, fresh,
}
use rldyour_clipboard.Outbox.Rounds.{waiting, rounds, rounds_catch_up}
use rldyour_clipboard.Prelude.{
  ◌≤◌, ◌≡◌, refl, ◌⊎◌, false, List, [], ◌∷◌, ◌++◌, map, arith, ok, length, keep, All, ℕ, zero, suc,
  true, some,
}

abbrev registry : Registry
registry = record { subscribers = fresh 1 ∷ record (fresh 2) { receives = false } ∷ []; next = 3 }

broadcast_lem_example :
    ((broadcast registry cleared).0.subscribers
      ≡ map (noted cleared) (keep takes_event registry.subscribers))
    × All (IsWithin 3) (broadcast registry cleared).0.subscribers
broadcast_lem_example =
    broadcast_lem registry cleared ((omega arith, omega arith), ((omega arith, omega arith), tt))

-- A watcher that heard two events, of which its worker sent one and has taken the other.
abbrev watcher : Subscriber
watcher = record (fresh 1) { flight = some cleared }

watched : Watching true watcher (removed 3 ∷ []) (removed 3 ∷ cleared ∷ [])
unfolding broadcast deliver
watched =
    received true (record (fresh 1) { queue = cleared ∷ [] }) _ _
      (transmitted true (record (fresh 1) { flight = some (removed 3); queue = cleared ∷ [] }) []
        (removed 3 ∷ cleared ∷ []) (λ event. ok tt)
        (heard (record (fresh 1) { flight = some (removed 3) }) _ [] (removed 3 ∷ []) cleared
          (received true (record (fresh 1) { queue = removed 3 ∷ [] }) _ _
            (heard (fresh 1) _ [] [] (removed 3) (added 1) refl))
          refl))

-- With its queue full, a watcher is dropped by the next broadcast.
abbrev filled : ℕ → List Response
filled zero = []
filled (suc n) = cleared ∷ filled n

drops_full : (broadcast_to (record (fresh 1) { queue = filled 64 } ∷ []) cleared).0 ≡ []
unfolding broadcast_to
drops_full = refl

sent_in_order_example :
    ((rest : List Response) × ((removed 3 ∷ []) ++ rest ≡ removed 3 ∷ cleared ∷ [])
      × ((watcher.receives ≡ false)
          ⊎ ((gone : List Response) × (waiting watcher ++ gone ≡ rest)
              × ((true ≡ false) ⊎ (gone ≡ [])))))
    × (length watcher.queue ≤ queue_bound)
sent_in_order_example = sent_in_order watched

rounds_catch_up_example :
    let out = rounds (λ event. ok tt) 1 watcher in
    ((gone : List Response) × (((removed 3 ∷ []) ++ out.1) ++ gone ≡ removed 3 ∷ cleared ∷ [])
      × ((true ≡ false) ⊎ (gone ≡ [])))
    × (waiting out.0 ≡ [])
rounds_catch_up_example = rounds_catch_up (λ event. ok tt) watched refl refl (λ event. refl)
