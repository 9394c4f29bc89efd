-- ===== src/Outbox/Ordering.antt =====
-- What a watcher of daemon/src/outbox.rs is sent: the events in the order of their broadcasts.
use rldyour_clipboard.Io.{Io}
use rldyour_clipboard.Proto.{Response}
use rldyour_clipboard.Outbox.Watchers.{
  Subscriber, broadcast_to, receive, transmit, stopped, queue_bound, takes_event, noted,
  broadcast_to-told,
}
use rldyour_clipboard.Prelude.{
  ℕ, ◌≤◌, ◌≡◌, refl, sym, ap, ◌∙◌, subst, ◌⊎◌, inl, inr, Bool, true, false, Option, none, some,
  List, [], ◌∷◌, ◌++◌, map, append-nil, append_assoc, arith, Bool-cases, length, keep,
  length-append, Result-cases,
}

abbrev pub fresh : ℕ → Subscriber
fresh id = record { id = id; held = true; receives = true; flight = none; queue = [] }

abbrev pub listed : Option Response → List Response
listed none = []
listed (some event) = event ∷ []

-- A subscriber as broadcasts and its worker bring it about: whether it is registered still, the
-- events that its outbox has sent, and all that were broadcast since it was added. A broadcast that
-- finds the queue full or the outbox gone drops it (`dropped`), and it misses those that follow. The
-- worker takes an event and sends it in two steps, and the connection may end at any time.
pub data Watching : Bool → Subscriber → List Response → List Response → Type 0 where
  added : (id : ℕ) → Watching true (fresh id) [] []
  heard :
      (s s' : Subscriber) (sent told : List Response) (event : Response)
      → Watching true s sent told
      → (broadcast_to (s ∷ []) event).0 ≡ s' ∷ []
      → Watching true s' sent (told ++ event ∷ [])
  dropped :
      (s : Subscriber) (sent told : List Response) (event : Response)
      → Watching true s sent told
      → (broadcast_to (s ∷ []) event).0 ≡ []
      → Watching false s sent (told ++ event ∷ [])
  missed :
      (s : Subscriber) (sent told : List Response) (event : Response)
      → Watching false s sent told
      → Watching false s sent (told ++ event ∷ [])
  received :
      (registered : Bool) (s : Subscriber) (sent told : List Response)
      → Watching registered s sent told
      → Watching registered (receive s) sent told
  transmitted :
      (registered : Bool) (s : Subscriber) (sent told : List Response)
      (send : Response → Io (Unit {0}))
      → Watching registered s sent told
      → Watching registered (transmit s send).0 (sent ++ listed (transmit s send).1) told
  ended :
      (registered : Bool) (s : Subscriber) (sent told : List Response)
      → Watching registered s sent told
      → Watching registered (record s { held = false }) sent told

-- What is still to be sent, where the worker receives: what it has taken, the queue, and what a
-- subscriber that was dropped has missed.
pub record Behind (registered : Bool) (s : Subscriber) (sent told : List Response) : Type 0 where
  pub rest : List Response
  pub gone : List Response
  pub all_told : sent ++ rest ≡ told
  pub queued : s.receives ≡ true → (listed s.flight ++ s.queue) ++ gone ≡ rest
  pub none_gone : (registered ≡ false) ⊎ (gone ≡ [])
  pub bounded : length s.queue ≤ queue_bound
  pub resting : (s.receives ≡ true) ⊎ (s.flight ≡ none)

heard-Behind :
    (s s' : Subscriber) (sent told : List Response) (event : Response)
    → Behind true s sent told
    → (broadcast_to (s ∷ []) event).0 ≡ s' ∷ []
    → Behind true s' sent (told ++ event ∷ [])
heard-Behind s s' sent told event b e =
    let stays : map (noted event) (keep takes_event (s ∷ [])) ≡ s' ∷ [] =
      sym (broadcast_to-told (s ∷ []) event) ∙ e in
    let none_gone : b.gone ≡ [] = elim b.none_gone [ inl f ↦ absurd (cc f) | inr g ↦ g ] in
    let kept = listed s.flight ++ s.queue in
    elim (Bool-cases (takes_event s)) [
      | inr t ↦ let gone : [] ≡ s' ∷ [] = rw t at stays in absurd (cc gone)
      | inl t ↦
          let one : noted event s ∷ [] ≡ s' ∷ [] = rw t at stays in
          let same : noted event s ≡ s' = cc in
          subst (λ r. Behind true r sent (told ++ event ∷ [])) same
            (record {
              rest = b.rest ++ event ∷ [];
              gone = [];
              all_told =
                  sym (append_assoc sent b.rest (event ∷ []))
                  ∙ ap (λ l. l ++ event ∷ []) b.all_told;
              queued = λ r.
                  append-nil (listed s.flight ++ (s.queue ++ event ∷ []))
                  ∙ sym (append_assoc (listed s.flight) s.queue (event ∷ []))
                  ∙ ap (λ l. l ++ event ∷ [])
                      (sym (append-nil kept) ∙ ap (λ g. kept ++ g) (sym none_gone) ∙ b.queued r);
              none_gone = inr refl;
              bounded = ground (arith, t, length-append s.queue (event ∷ []));
              resting = b.resting;
            })
    ]

-- A broadcast that does not reach the subscriber.
lost-Behind :
    (registered : Bool) (s : Subscriber) (sent told : List Response) (event : Response)
    → Behind registered s sent told
    → Behind false s sent (told ++ event ∷ [])
lost-Behind registered s sent told event b = record {
  rest = b.rest ++ event ∷ [];
  gone = b.gone ++ event ∷ [];
  all_told = sym (append_assoc sent b.rest (event ∷ [])) ∙ ap (λ l. l ++ event ∷ []) b.all_told;
  queued = λ r.
      sym (append_assoc (listed s.flight ++ s.queue) b.gone (event ∷ []))
      ∙ ap (λ l. l ++ event ∷ []) (b.queued r);
  none_gone = inl refl;
  bounded = b.bounded;
  resting = b.resting;
}

abbrev pub made : ℕ → Bool → Bool → Option Response → List Response → Subscriber
made id held receives flight queue = record {
  id = id;
  held = held;
  receives = receives;
  flight = flight;
  queue = queue;
}

received_fields :
    (registered : Bool) (id : ℕ) (held receives : Bool) (flight : Option Response)
    (queue sent told : List Response)
    → Behind registered (made id held receives flight queue) sent told
    → Behind registered (receive (made id held receives flight queue)) sent told
unfolding receive
received_fields registered id held receives (some event) queue sent told b = b
received_fields registered id held receives none [] sent told b = b
received_fields registered id held false none (event ∷ queue) sent told b = b
received_fields registered id held true none (event ∷ queue) sent told b = record {
  rest = b.rest;
  gone = b.gone;
  all_told = b.all_told;
  queued = b.queued;
  none_gone = b.none_gone;
  bounded = omega (arith, b.bounded);
  resting = inl refl;
}

-- A worker that stopped leaves what is behind unsent.
stopped-Behind :
    (registered : Bool) (s : Subscriber) (sent told : List Response)
    → Behind registered s sent told
    → Behind registered (stopped s) (sent ++ []) told
stopped-Behind registered s sent told b = record {
  rest = b.rest;
  gone = b.gone;
  all_told = ap (λ l. l ++ b.rest) (append-nil sent) ∙ b.all_told;
  queued = λ r. absurd (cc r);
  none_gone = b.none_gone;
  bounded = omega arith;
  resting = inr refl;
}

transmitted_fields :
    (registered : Bool) (id : ℕ) (held receives : Bool) (flight : Option Response)
    (queue sent told : List Response) (send : Response → Io (Unit {0}))
    → Behind registered (made id held receives flight queue) sent told
    → let out = transmit (made id held receives flight queue) send in
      Behind registered out.0 (sent ++ listed out.1) told
unfolding transmit
transmitted_fields registered id held receives none queue sent told send b =
    subst (λ l. Behind registered (made id held receives none queue) l told) (sym (append-nil sent))
      b
transmitted_fields registered id false receives (some event) queue sent told send b =
    stopped-Behind registered _ sent told b
transmitted_fields registered id true false (some event) queue sent told send b = elim b.resting [
  | inl r ↦ absurd (cc r)
  | inr f ↦ absurd (cc f)
]
transmitted_fields registered id true true (some event) queue sent told send b =
    elim (Result-cases (send event)) [
      | inr (er, e) ↦ rw (e, transmit) (stopped-Behind registered _ sent told b)
      | inl (u, e) ↦
          rw (e, transmit)
            (record {
              rest = queue ++ b.gone;
              gone = b.gone;
              all_told =
                  append_assoc sent (event ∷ []) (queue ++ b.gone)
                  ∙ ap (λ l. sent ++ l) (b.queued refl)
                  ∙ b.all_told;
              queued = λ r. refl;
              none_gone = b.none_gone;
              bounded = b.bounded;
              resting = inl refl;
            })
    ]

pub Watching-Behind :
    {registered : Bool} {s : Subscriber} {sent told : List Response}
    → Watching registered s sent told
    → Behind registered s sent told
Watching-Behind (added id) = record {
  rest = [];
  gone = [];
  all_told = refl;
  queued = λ r. refl;
  none_gone = inr refl;
  bounded = omega arith;
  resting = inl refl;
}
Watching-Behind (heard s s' sent told event w e) =
    heard-Behind s s' sent told event (Watching-Behind w) e
Watching-Behind (dropped s sent told event w e) =
    lost-Behind true s sent told event (Watching-Behind w)
Watching-Behind (missed s sent told event w) =
    lost-Behind false s sent told event (Watching-Behind w)
Watching-Behind (received registered s sent told w) =
    received_fields registered s.id s.held s.receives s.flight s.queue sent told (Watching-Behind w)
Watching-Behind (transmitted registered s sent told send w) =
    transmitted_fields registered s.id s.held s.receives s.flight s.queue sent told send
      (Watching-Behind w)
Watching-Behind (ended registered s sent told w) =
    let b = Watching-Behind w in
    record {
      rest = b.rest;
      gone = b.gone;
      all_told = b.all_told;
      queued = b.queued;
      none_gone = b.none_gone;
      bounded = b.bounded;
      resting = b.resting;
    }

-- However broadcasts, the worker and the end of the connection interleave, a watcher is sent a
-- beginning of the events broadcast since it was added, in their order and without a gap; while its
-- worker receives, what is not sent yet is the event that the worker has taken, then its queue, which
-- never holds more than 64 events, and then what it missed since a broadcast dropped it, which is
-- nothing while it is registered.
pub sent_in_order :
    {registered : Bool} {s : Subscriber} {sent told : List Response}
    → Watching registered s sent told
    → ((rest : List Response) × (sent ++ rest ≡ told)
        × ((s.receives ≡ false)
            ⊎ ((gone : List Response) × ((listed s.flight ++ s.queue) ++ gone ≡ rest)
                × ((registered ≡ false) ⊎ (gone ≡ [])))))
      × (length s.queue ≤ queue_bound)
sent_in_order {registered} {s} w =
    let b = Watching-Behind w in
    (
      (
        b.rest,
        b.all_told,
        elim (Bool-cases s.receives) [
          | inl r ↦ inr (b.gone, b.queued r, b.none_gone)
          | inr r ↦ inl r
        ],
      ),
      b.bounded,
    )
