-- ===== src/Outbox/Watchers.antt =====
-- daemon/src/outbox.rs: the watchers, each with a bounded queue that a worker of its own empties.
use rldyour_clipboard.Io.{Io}
use rldyour_clipboard.Proto.{Response}
use rldyour_clipboard.Prelude.{
  ℕ, ◌+◌, ◌≤◌, ◌<◌, ◌≡◌, refl, sym, subst, inl, inr, Bool, true, false, not, ◌&&◌, Option, none,
  some, List, [], ◌∷◌, ◌++◌, map, arith, ltb, ◌==◌, if◌then◌else◌, Bool-cases, ok, err, length,
  keep, All, length-append,
}

abbrev pub queue_bound : ℕ
queue_bound = 64

-- A subscription: whether its outbox is still held by its connection, whether its worker still
-- receives, the event that the worker has taken and not yet sent, and the events that it has not
-- taken yet, oldest first.
pub record Subscriber : Type 0 where
  pub id : ℕ
  pub held : Bool
  pub receives : Bool
  pub flight : Option Response
  pub queue : List Response

pub record Registry : Type 0 where
  pub subscribers : List Subscriber
  pub next : ℕ

unfoldable pub add : Registry → Registry × ℕ
add registry = (
  record {
    subscribers =
        registry.subscribers
        ++ record { id = registry.next; held = true; receives = true; flight = none; queue = [] }
          ∷ [];
    next = registry.next + 1;
  },
  registry.next,
)

-- Drop of a subscription
unfoldable pub drop_subscription : Registry → ℕ → Registry
drop_subscription registry id = record registry {
  subscribers = keep (λ s. not (s.id == id)) registry.subscribers;
}

-- SyncSender::try_send: none where the queue is full or nothing receives
unfoldable pub try_send : Subscriber → Response → Option Subscriber
try_send s event =
    if s.receives && ltb (length s.queue) queue_bound
    then some (record s { queue = s.queue ++ event ∷ [] })
    else none

-- The `retain` of `broadcast`: the subscribers that stay, and those whose outbox is closed.
unfoldable pub broadcast_to : List Subscriber → Response → List Subscriber × List ℕ
unfolding try_send
broadcast_to [] event = ([], [])
broadcast_to (s ∷ ss) event =
    let rest = broadcast_to ss event in
    if not s.held then rest else elim (try_send s event) [
      | none ↦ (rest.0, s.id ∷ rest.1)
      | some s' ↦ (s' ∷ rest.0, rest.1)
    ]

unfoldable pub broadcast : Registry → Response → Registry × List ℕ
unfolding broadcast_to
broadcast registry event =
    let out = broadcast_to registry.subscribers event in
    (record registry { subscribers = out.0 }, out.1)

-- `recv`: the worker takes the event that is first in the queue.
unfoldable pub receive : Subscriber → Subscriber
receive s = elim s.flight [
  | some event ↦ s
  | none ↦ elim s.queue [
    | [] ↦ s
    | event ∷ queue ↦ if s.receives then record s { flight = some event; queue = queue } else s
  ]
]

-- The worker ends, and what is queued is never sent.
abbrev pub stopped : Subscriber → Subscriber
stopped s = record s { receives = false; flight = none; queue = [] }

-- What the worker does with the event that it has taken, and the event that is sent.
unfoldable pub transmit : Subscriber → (Response → Io (Unit {0})) → Subscriber × Option Response
transmit s send = elim s.flight [
  | none ↦ (s, none)
  | some event ↦ if not s.held then (stopped s, none) else elim (send event) [
    | ok u ↦ (record s { flight = none }, some event)
    | err e ↦ (stopped s, none)
  ]
]

-- A round of the worker.
unfoldable pub deliver : Subscriber → (Response → Io (Unit {0})) → Subscriber × Option Response
unfolding receive transmit
deliver s send = transmit (receive s) send

-- Every subscriber holds an id below the next, and at most 64 events.
abbrev pub IsWithin : ℕ → Subscriber → Type 0
IsWithin next s = (s.id < next) × (length s.queue ≤ queue_bound)

-- What a subscriber is told, in a broadcast: one that is held, receives and has room gets the event
-- behind the others of its queue, and no other subscriber stays.
abbrev pub takes_event : Subscriber → Bool
takes_event s = s.held && s.receives && ltb (length s.queue) queue_bound

abbrev pub noted : Response → Subscriber → Subscriber
noted event s = record s { queue = s.queue ++ event ∷ [] }

pub broadcast_to-told :
    (ss : List Subscriber) (event : Response)
    → (broadcast_to ss event).0 ≡ map (noted event) (keep takes_event ss)
unfolding broadcast_to try_send
broadcast_to-told [] event = refl
broadcast_to-told (s ∷ ss) event = ground (arith, broadcast_to-told ss event)

told-IsWithin :
    (next : ℕ) (event : Response) (ss : List Subscriber)
    → All (IsWithin next) ss
    → All (IsWithin next) (map (noted event) (keep takes_event ss))
told-IsWithin next event [] w = tt
told-IsWithin next event (s ∷ ss) (w, ws) = elim (Bool-cases (takes_event s)) [
  | inl e ↦
      rw e (
        (w.0, ground (arith, e, length-append s.queue (event ∷ []))),
        told-IsWithin next event ss ws,
      )
  | inr e ↦ rw e (told-IsWithin next event ss ws)
]

-- A broadcast puts the event behind the queues of exactly the subscribers that can take it, in
-- order, drops the others, and keeps every queue within 64 events, where the queues were.
pub broadcast_lem :
    (registry : Registry) (event : Response)
    → All (IsWithin registry.next) registry.subscribers
    → ((broadcast registry event).0.subscribers
        ≡ map (noted event) (keep takes_event registry.subscribers))
      × All (IsWithin registry.next) (broadcast registry event).0.subscribers
unfolding broadcast
broadcast_lem registry event w =
    let same = broadcast_to-told registry.subscribers event in
    (
      same,
      subst (All (IsWithin registry.next)) (sym same)
          (told-IsWithin registry.next event registry.subscribers w),
    )
