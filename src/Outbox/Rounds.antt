-- ===== src/Outbox/Rounds.antt =====
-- The rounds of a worker of daemon/src/outbox.rs, and what it has sent when nothing waits.
use rldyour_clipboard.Io.{Io}
use rldyour_clipboard.Proto.{Response}
use rldyour_clipboard.Outbox.Watchers.{Subscriber, receive, transmit, deliver}
use rldyour_clipboard.Prelude.{
  ℕ, zero, suc, ◌≡◌, refl, ap, ◌∙◌, ◌⊎◌, Bool, true, false, Option, none, some, List, [], ◌∷◌, ◌++◌,
  append_assoc, ok, length,
}
use rldyour_clipboard.Outbox.Ordering.{listed, Watching, made, Watching-Behind}

-- Rounds of the worker, and what they send.
abbrev pub rounds : (Response → Io (Unit {0})) → ℕ → Subscriber → Subscriber × List Response
rounds send zero s = (s, [])
rounds send (suc n) s =
    let once = deliver s send in
    let rest = rounds send n once.0 in (rest.0, listed once.1 ++ rest.1)

-- The events that the worker has taken or will.
abbrev pub waiting : Subscriber → List Response
waiting s = listed s.flight ++ s.queue

queue_sends :
    (send : Response → Io (Unit {0})) (id : ℕ) (queue : List Response)
    → ((event : Response) → send event ≡ ok tt)
    → rounds send (length queue) (made id true true none queue) ≡ (made id true true none [], queue)
unfolding deliver receive transmit
queue_sends send id [] h = refl
queue_sends send id (event ∷ queue) h =
    rw (h event, deliver)
      (ap (λ (r : Subscriber × List Response). (r.0, event ∷ r.1)) (queue_sends send id queue h))

rounds-sends :
    (send : Response → Io (Unit {0})) (id : ℕ) (flight : Option Response) (queue : List Response)
    → ((event : Response) → send event ≡ ok tt)
    → rounds send (length (listed flight ++ queue)) (made id true true flight queue)
      ≡ (made id true true none [], listed flight ++ queue)
unfolding deliver receive transmit
rounds-sends send id none queue h = queue_sends send id queue h
rounds-sends send id (some event) queue h =
    rw (h event, deliver)
      (ap (λ (r : Subscriber × List Response). (r.0, event ∷ r.1)) (queue_sends send id queue h))

-- A watcher that is held and receives, and whose socket takes what it is given, catches up: after as
-- many rounds of its worker as events wait, it was sent every event that was broadcast since it was
-- added, in order, but for those that it missed since a broadcast found its queue full and dropped
-- it, none while it is registered; and nothing waits.
pub rounds_catch_up :
    {registered : Bool} {s : Subscriber} {sent told : List Response}
    (send : Response → Io (Unit {0}))
    → Watching registered s sent told
    → s.held ≡ true
    → s.receives ≡ true
    → ((event : Response) → send event ≡ ok tt)
    → let out = rounds send (length (waiting s)) s in
      ((gone : List Response) × ((sent ++ out.1) ++ gone ≡ told)
        × ((registered ≡ false) ⊎ (gone ≡ [])))
      × (waiting out.0 ≡ [])
rounds_catch_up {registered} {s} {sent} {told} send w held receives h =
    let b = Watching-Behind w in
    let same : s ≡ made s.id true true s.flight s.queue =
      ap (λ k. made s.id k s.receives s.flight s.queue) held
      ∙ ap (λ k. made s.id true k s.flight s.queue) receives in
    let caught =
      ap (rounds send (length (waiting s))) same ∙ rounds-sends send s.id s.flight s.queue h in
    (
      (
        b.gone,
        ap (λ (r : Subscriber × List Response). (sent ++ r.1) ++ b.gone) caught
            ∙ append_assoc sent (waiting s) b.gone
            ∙ ap (λ l. sent ++ l) (b.queued receives)
            ∙ b.all_told,
        b.none_gone,
      ),
      ap (λ (r : Subscriber × List Response). waiting r.0) caught,
    )
