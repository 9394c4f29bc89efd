-- ===== src/Session/Conversation/Answers.antt =====
-- What the requests of daemon/src/session.rs put on the wire.
use rldyour_clipboard.Io.{Io, drain}
use rldyour_clipboard.Proto.{
  Request, hello, begin, part, chunk, commit, abort, list, fetch, thumb, pin, remove, clear, stats,
  req_of, Response, Code, max_frame,
}
use rldyour_clipboard.Proto as Proto
use rldyour_clipboard.Store.{StoreError}
use rldyour_clipboard.Store.Recording.{Store, Committed}
use rldyour_clipboard.Store.Keeping.{open_part, pin_entry, remove_entry, clear_entries}
use rldyour_clipboard.Store.Serving.{thumbnail}
use rldyour_clipboard.Outbox.{send, send_blob}
use rldyour_clipboard.Session.Drafts.{Answer, began, done, refused, find_draft}
use rldyour_clipboard.Session.Conversation.{
  Outside, World, with_store, reply, reply_blob, reply_and_tell, refuse, failed_with, answer,
  perform_begin, take_part, perform_part, perform_chunk, perform_abort, committed, perform_commit,
}
use rldyour_clipboard.Session.Conversation.Requests.{
  produced, perform_list, perform_fetch, perform_thumb, perform_pin, perform_remove, perform_clear,
  perform_stats, perform,
}
use rldyour_clipboard.Prelude.{
  ℕ, ◌≡◌, refl, sym, ap, ◌∙◌, inl, inr, Bool, false, Option, none, some, List, [], ◌∷◌, ◌++◌,
  append-nil, append_assoc, arith, ltb, Bool-cases, Option-cases, Result, ok, err, length, take,
  length-take, Text, Result-cases,
}

-- The number of the request that a frame answers.
abbrev pub answered_req : Response → Option ℕ
answered_req (Proto.hello v entries bytes budget days) = none
answered_req (Proto.accepted req) = some req
answered_req (Proto.begin req draft) = some req
answered_req (Proto.commit req entry created) = some req
answered_req (Proto.list req items more) = some req
answered_req (Proto.blob req mime bytes) = some req
answered_req (Proto.thumb req width height stride bytes) = some req
answered_req (Proto.stats req entries pinned bytes budget days) = some req
answered_req (Proto.added entry) = none
answered_req (Proto.updated entry) = none
answered_req (Proto.removed entry) = none
answered_req Proto.cleared = none
answered_req (Proto.error req code) = req

-- The bytes that a frame announces behind it.
abbrev pub announced : Response → ℕ
announced (Proto.hello v entries bytes budget days) = 0
announced (Proto.accepted req) = 0
announced (Proto.begin req draft) = 0
announced (Proto.commit req entry created) = 0
announced (Proto.list req items more) = 0
announced (Proto.blob req mime bytes) = bytes
announced (Proto.thumb req width height stride bytes) = bytes
announced (Proto.stats req entries pinned bytes budget days) = 0
announced (Proto.added entry) = 0
announced (Proto.updated entry) = 0
announced (Proto.removed entry) = 0
announced Proto.cleared = 0
announced (Proto.error req code) = 0

-- The number that the answer to a request carries.
abbrev pub expected : Request → Option ℕ
expected (hello v role watch) = some 0
expected (chunk bytes) = none
expected (begin req source) = some req
expected (part req draft mime bytes) = some req
expected (commit req draft) = some req
expected (abort req draft) = some req
expected (list req limit before query kind pinned) = some req
expected (fetch req entry mime transcoded) = some req
expected (thumb req entry) = some req
expected (pin req entry pinned) = some req
expected (remove req entry) = some req
expected (clear req) = some req
expected (stats req) = some req

module _ (o : Outside)
    (socket : (wire bytes : List ℕ)
      → (o.write_socket wire bytes).0 ≡ ok tt
      → (o.write_socket wire bytes).1 ≡ wire ++ bytes) where
  -- Where the connection goes on, one frame was sent behind what was on the wire, with this number,
  -- and behind the frame exactly the bytes that it announces.
  abbrev pub Replied : Option ℕ → List ℕ → Io (Unit {0}) × World → Type 0
  Replied req wire (err e, w) = Unit
  Replied req wire (ok u, w) =
      (frame : Response) × ((payload : List ℕ) × (w.wire ≡ wire ++ (o.encode frame ++ payload))
        × (answered_req frame ≡ req)
        × (length payload ≡ announced frame))

  reply-Replied :
      (w : World) (frame : Response)
      → announced frame ≡ 0
      → Replied (answered_req frame) w.wire (reply o w frame)
  unfolding reply send
  reply-Replied w frame z = elim (Bool-cases (ltb max_frame (length (o.encode frame)))) [
    | inl e ↦ rw (e, send, reply) tt
    | inr e ↦ elim (Result-cases (o.write_socket w.wire (o.encode frame)).0) [
      | inr (er, k) ↦ rw (e, k, send, reply) tt
      | inl (u, k) ↦
          rw (e, k, send, reply)
            (
              frame,
              (
                [],
                socket w.wire (o.encode frame) k
                    ∙ ap (λ r. w.wire ++ r) (sym (append-nil (o.encode frame))),
                refl,
                sym z,
              ),
            )
    ]
  ]

  reply_and_tell-Replied :
      (w : World) (frame : Response) (events : List Response)
      → announced frame ≡ 0
      → Replied (answered_req frame) w.wire (reply_and_tell o w frame events)
  unfolding reply_and_tell
  reply_and_tell-Replied w frame events z =
      let r = reply-Replied w frame z in
      elim (Result-cases (reply o w frame).0) [
        | inr (er, k) ↦ rw (k, reply_and_tell) tt
        | inl (u, k) ↦ rw (k, reply_and_tell) (rw (k, reply) at r)
      ]

  reply_blob-Replied :
      (w : World) (frame : Response) (content : List ℕ)
      → Replied (answered_req frame) w.wire (reply_blob o w frame content (announced frame))
  unfolding reply_blob send_blob
  reply_blob-Replied w frame content =
      let head = o.write_socket w.wire (o.encode frame) in
      elim (Result-cases head.0) [
        | inr (er, k) ↦ rw (k, send_blob, reply_blob) tt
        | inl (u, k) ↦
            elim (Result-cases (o.write_socket head.1 (take (announced frame) content)).0) [
              | inr (er, l) ↦ rw (k, l, send_blob, reply_blob) tt
              | inl (v, l) ↦ elim (Bool-cases (ltb (length content) (announced frame))) [
                | inl short ↦ rw (k, l, short, send_blob, reply_blob) tt
                | inr full ↦
                    rw (k, l, full, send_blob, reply_blob)
                      (
                        frame,
                        (
                          take (announced frame) content,
                          socket head.1 (take (announced frame) content) l
                              ∙ ap (λ r. r ++ take (announced frame) content)
                                  (socket w.wire (o.encode frame) k)
                              ∙ append_assoc w.wire (o.encode frame)
                                  (take (announced frame) content),
                          refl,
                          ground (arith, full, length-take (announced frame) content),
                        ),
                      )
              ]
            ]
      ]

  refuse-Replied :
      (w : World) (req : ℕ) (code : Code) → Replied (some req) w.wire (refuse o w req code)
  unfolding refuse
  refuse-Replied w req code = reply-Replied w (Proto.error (some req) code) refl

  failed-Replied :
      (w : World) (req : ℕ) (e : StoreError) → Replied (some req) w.wire (failed_with o w req e)
  unfolding failed_with
  failed-Replied w req e = refuse-Replied w req _

  answer-Replied : (w : World) (req : ℕ) (a : Answer) → Replied (some req) w.wire (answer o w req a)
  unfolding answer
  answer-Replied w req (began draft) = reply-Replied w (Proto.begin req draft) refl
  answer-Replied w req done = reply-Replied w (Proto.accepted req) refl
  answer-Replied w req (refused code) = refuse-Replied w req code

  part-Replied :
      (w : World) (req draft : ℕ) (mime : Text) (bytes : Option ℕ)
      → Replied (some req) w.wire (perform_part o w req draft mime bytes)
  unfolding perform_part
  part-Replied w req draft mime bytes =
      elim (Result-cases (take_part o w draft mime bytes).outcome) [
        | inr (e, k) ↦ rw (k, perform_part) tt
        | inl (outcome, k) ↦ rw (k, perform_part) (answer-Replied _ req _)
      ]

  chunk-Replied : (w : World) (bytes : ℕ) → Replied none w.wire (perform_chunk o w bytes)
  unfolding perform_chunk
  chunk-Replied w bytes = elim (Result-cases (drain w.input bytes).0) [
    | inr (e, k) ↦ rw (k, perform_chunk) tt
    | inl (u, k) ↦ rw (k, perform_chunk) (reply-Replied _ (Proto.error none Proto.bad_frame) refl)
  ]

  committed-Replied :
      (w : World) (req : ℕ) (out : Result StoreError (Option Committed))
      → Replied (some req) w.wire (committed o w req out)
  unfolding committed
  committed-Replied w req (ok (some c)) =
      reply_and_tell-Replied w (Proto.commit req c.entry c.created) _ refl
  committed-Replied w req (ok none) = reply-Replied w (Proto.commit req 0 false) refl
  committed-Replied w req (err e) = failed-Replied w req e

  -- What a handler does to the store behind its reply.
  restored-Replied :
      (req : Option ℕ) (wire : List ℕ) (out : Io (Unit {0}) × World) (store : Store)
      → Replied req wire out
      → Replied req wire (out.0, with_store out.1 store)
  restored-Replied req wire (err e, w) store h = tt
  restored-Replied req wire (ok u, w) store h = h

  commit-Replied :
      (meanwhile : Store → Store) (now : ℕ) (w : World) (req draft : ℕ)
      → Replied (some req) w.wire (perform_commit o meanwhile now w req draft)
  unfolding perform_commit
  commit-Replied meanwhile now w req draft =
      elim (Option-cases (find_draft draft w.session.drafts.held)) [
        | inl k ↦ rw (k, perform_commit) (refuse-Replied w req Proto.no_such_draft)
        | inr (d, k) ↦
            rw (k, perform_commit)
              (restored-Replied (some req) w.wire _ _ (committed-Replied _ req _))
      ]

  fetch-Replied :
      (w : World) (req entry : ℕ) (mime : Option Text) (transcoded : Bool)
      → Replied (some req) w.wire (perform_fetch o w req entry mime transcoded)
  unfolding perform_fetch
  fetch-Replied w req entry mime transcoded = elim (Result-cases (open_part w.store entry mime)) [
    | inr (e, k) ↦ rw (k, perform_fetch) (failed-Replied w req e)
    | inl (some (found, content, bytes), k) ↦
        rw (k, perform_fetch) (reply_blob-Replied w (Proto.blob req found bytes) content)
    | inl (none, k) ↦ elim (Result-cases (produced o w.store entry mime transcoded)) [
      | inr (e, l) ↦ rw (k, l, perform_fetch) (failed-Replied w req e)
      | inl (some (made, content, bytes), l) ↦
          rw (k, l, perform_fetch) (reply_blob-Replied w (Proto.blob req made bytes) content)
      | inl (none, l) ↦ rw (k, l, perform_fetch) (refuse-Replied w req _)
    ]
  ]

  thumb-Replied :
      (w : World) (req entry : ℕ) → Replied (some req) w.wire (perform_thumb o w req entry)
  unfolding perform_thumb
  thumb-Replied w req entry = elim (Result-cases (thumbnail o.decode_png w.store entry)) [
    | inr (e, k) ↦ rw (k, perform_thumb) (failed-Replied w req e)
    | inl (none, k) ↦ rw (k, perform_thumb) (refuse-Replied w req _)
    | inl (some pixels, k) ↦
        rw (k, perform_thumb) (reply_blob-Replied w (Proto.thumb req _ _ _ _) pixels.rgba)
  ]

  pin-Replied :
      (w : World) (req entry : ℕ) (pinned : Bool)
      → Replied (some req) w.wire (perform_pin o w req entry pinned)
  unfolding perform_pin
  pin-Replied w req entry pinned =
      elim (Result-cases (pin_entry o.sync_pinned w.store entry pinned).0) [
        | inr (e, k) ↦ rw (k, perform_pin) (failed-Replied _ req e)
        | inl (none, k) ↦ rw (k, perform_pin) (refuse-Replied _ req _)
        | inl (some s, k) ↦
            rw (k, perform_pin)
              (reply_and_tell-Replied
                (with_store w (pin_entry o.sync_pinned w.store entry pinned).1) (Proto.accepted req)
                (Proto.updated s ∷ []) refl)
      ]

  remove-Replied :
      (w : World) (req entry : ℕ) → Replied (some req) w.wire (perform_remove o w req entry)
  unfolding perform_remove
  remove-Replied w req entry = elim (Bool-cases (remove_entry w.store entry).1) [
    | inl k ↦
        rw (k, perform_remove)
          (reply_and_tell-Replied (with_store w (remove_entry w.store entry).0) (Proto.accepted req)
            (Proto.removed entry ∷ []) refl)
    | inr k ↦ rw (k, perform_remove) (refuse-Replied _ req _)
  ]

  -- Whatever a client asks and whatever becomes of it, the client is sent one frame with the number
  -- of its request (0 for a greeting out of place, none for a stray chunk), and behind it exactly
  -- the bytes that the frame announces, or the connection ends; where a socket that reports success
  -- has appended what it was given.
  pub perform-Replied :
      (meanwhile : Store → Store) (now : ℕ) (days : Option ℕ) (w : World) (request : Request)
      → Replied (expected request) w.wire (perform o meanwhile now days w request)
  unfolding perform perform_begin perform_abort perform_list perform_clear perform_stats
  perform-Replied meanwhile now days w (hello v role watch) = refuse-Replied w 0 Proto.bad_frame
  perform-Replied meanwhile now days w (begin req source) = answer-Replied _ req _
  perform-Replied meanwhile now days w (part req draft mime bytes) =
      part-Replied w req draft mime bytes
  perform-Replied meanwhile now days w (chunk bytes) = chunk-Replied w bytes
  perform-Replied meanwhile now days w (commit req draft) = commit-Replied meanwhile now w req draft
  perform-Replied meanwhile now days w (abort req draft) = reply-Replied _ (Proto.accepted req) refl
  perform-Replied meanwhile now days w (list req limit before query kind pinned) =
      reply-Replied w (Proto.list req _ _) refl
  perform-Replied meanwhile now days w (fetch req entry mime transcoded) =
      fetch-Replied w req entry mime transcoded
  perform-Replied meanwhile now days w (thumb req entry) = thumb-Replied w req entry
  perform-Replied meanwhile now days w (pin req entry pinned) = pin-Replied w req entry pinned
  perform-Replied meanwhile now days w (remove req entry) = remove-Replied w req entry
  perform-Replied meanwhile now days w (clear req) =
      reply_and_tell-Replied (with_store w (clear_entries w.store)) (Proto.accepted req)
        (Proto.cleared ∷ []) refl
  perform-Replied meanwhile now days w (stats req) =
      reply-Replied w (Proto.stats req _ _ _ _ _) refl
