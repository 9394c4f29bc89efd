-- ===== src/Session/Conversation/Safety.antt =====
-- Whatever a client of daemon/src/session.rs asks, the store stays sound for what the drafts of its
-- connection hold, and for whatever else is spoken for.
use rldyour_clipboard.Session.Conversation.Keeping.{
  besides, held_by-begin, held_by-remove, held_by-push, Parts, take_part-Parts,
}
use rldyour_clipboard.Session.Conversation.Requests.{produced, missing}
use rldyour_clipboard.Store.Keeping.{open_part}
use rldyour_clipboard.Store.Serving.{thumbnail, stride}
use rldyour_clipboard.Proto.{records}
use rldyour_clipboard.Session.Drafts.{max_drafts}
use rldyour_clipboard.Io.{Io, drain}
use rldyour_clipboard.Proto.{
  Request, hello, begin, part, chunk, commit, abort, list, fetch, thumb, pin, remove, clear, stats,
  Response, Code,
}
use rldyour_clipboard.Proto as Proto
use rldyour_clipboard.Store.{StoreError, code_of}
use rldyour_clipboard.Store.Recording.{Store, Committed}
use rldyour_clipboard.Store.Recording as Recording
use rldyour_clipboard.Store.Keeping.{pin_entry, remove_entry, clear_entries}
use rldyour_clipboard.Store.Sound.{IsSound, weaken, discard-IsSound, drop_parts-IsSound}
use rldyour_clipboard.Store.Sound.Taking.{with_blobs}
use rldyour_clipboard.Store.Sound.Publishing.{with_parts, commit-IsSound}
use rldyour_clipboard.Store.Sound.Dropping.{
  remove_entry-IsSound, clear_entries-IsSound, pin_entry-IsSound,
}
use rldyour_clipboard.Session.Parts.{PartOutcome, recorded, no_draft, failed}
use rldyour_clipboard.Session.Drafts.{
  Draft, Drafts, Answer, began, done, refused, find_draft, remove_draft, push_part,
  is_open_for_part, answer_part,
}
use rldyour_clipboard.Session.Drafts as Open
use rldyour_clipboard.Session.Conversation.{
  Outside, Session, World, commit_events, is_published, is_failed, with_store, with_drafts, reply,
  reply_blob, reply_and_tell, refuse, failed_with, answer, perform_begin, take_part, perform_part,
  perform_chunk, perform_abort, committed, perform_commit,
}
use rldyour_clipboard.Session.Conversation.Requests.{
  perform_list, perform_fetch, perform_thumb, perform_pin, perform_remove, perform_clear,
  perform_stats, perform,
}
use rldyour_clipboard.Prelude.{
  ℕ, ◌≡◌, inl, inr, Bool, false, ◌&&◌, Option, none, some, List, [], ◌∷◌, arith, Bool-cases,
  Option-cases, Result, ok, err, length, Text, Result-cases,
}

module _ (o : Outside) where
  -- A property of the session and the store, which no reply touches.
  module _ (P : Session → Store → Type 0) where
    abbrev pub Holds : World → Type 0
    Holds w = P w.session w.store

    pub reply-Holds : (w : World) (frame : Response) → Holds w → Holds (reply o w frame).1
    unfolding reply
    reply-Holds w frame h = h

    pub reply_blob-Holds :
        (w : World) (frame : Response) (content : List ℕ) (bytes : ℕ)
        → Holds w
        → Holds (reply_blob o w frame content bytes).1
    unfolding reply_blob
    reply_blob-Holds w frame content bytes h = h

    pub reply_and_tell-Holds :
        (w : World) (frame : Response) (events : List Response)
        → Holds w
        → Holds (reply_and_tell o w frame events).1
    unfolding reply_and_tell
    reply_and_tell-Holds w frame events h = elim (Result-cases (reply o w frame).0) [
      | inr (e, k) ↦ rw (k, reply_and_tell) (reply-Holds w frame h)
      | inl (u, k) ↦ rw (k, reply_and_tell) (reply-Holds w frame h)
    ]

    pub refuse-Holds : (w : World) (req : ℕ) (code : Code) → Holds w → Holds (refuse o w req code).1
    unfolding refuse
    refuse-Holds w req code h = reply-Holds w (Proto.error (some req) code) h

    pub failed-Holds :
        (w : World) (req : ℕ) (e : StoreError) → Holds w → Holds (failed_with o w req e).1
    unfolding failed_with
    failed-Holds w req e h = refuse-Holds w req (code_of e) h

    pub answer-Holds : (w : World) (req : ℕ) (a : Answer) → Holds w → Holds (answer o w req a).1
    unfolding answer
    answer-Holds w req (began draft) h = reply-Holds w (Proto.begin req draft) h
    answer-Holds w req done h = reply-Holds w (Proto.accepted req) h
    answer-Holds w req (refused code) h = refuse-Holds w req code h

    pub committed-Holds :
        (w : World) (req : ℕ) (out : Result StoreError (Option Committed))
        → Holds w
        → Holds (committed o w req out).1
    unfolding committed
    committed-Holds w req (ok (some c)) h =
        reply_and_tell-Holds w (Proto.commit req c.entry c.created) (commit_events c) h
    committed-Holds w req (ok none) h = reply-Holds w (Proto.commit req 0 false) h
    committed-Holds w req (err e) h = failed-Holds w req e h

    pub chunk-Holds : (w : World) (bytes : ℕ) → Holds w → Holds (perform_chunk o w bytes).1
    unfolding perform_chunk
    chunk-Holds w bytes h = elim (Result-cases (drain w.input bytes).0) [
      | inr (e, k) ↦ rw (k, perform_chunk) h
      | inl (u, k) ↦
          rw (k, perform_chunk)
            (reply-Holds (record w { input = (drain w.input bytes).1 })
              (Proto.error none Proto.bad_frame) h)
    ]

    pub fetch-Holds :
        (w : World) (req entry : ℕ) (mime : Option Text) (transcoded : Bool)
        → Holds w
        → Holds (perform_fetch o w req entry mime transcoded).1
    unfolding perform_fetch
    fetch-Holds w req entry mime transcoded h = elim (Result-cases (open_part w.store entry mime)) [
      | inr (e, k) ↦ rw (k, perform_fetch) (failed-Holds w req e h)
      | inl (some (found, content, bytes), k) ↦
          rw (k, perform_fetch) (reply_blob-Holds w (Proto.blob req found bytes) content bytes h)
      | inl (none, k) ↦ elim (Result-cases (produced o w.store entry mime transcoded)) [
        | inr (e, l) ↦ rw (k, l, perform_fetch) (failed-Holds w req e h)
        | inl (some (made, content, bytes), l) ↦
            rw (k, l, perform_fetch)
              (reply_blob-Holds w (Proto.blob req made bytes) content bytes h)
        | inl (none, l) ↦ rw (k, l, perform_fetch) (refuse-Holds w req (missing w.store entry) h)
      ]
    ]

    pub thumb-Holds : (w : World) (req entry : ℕ) → Holds w → Holds (perform_thumb o w req entry).1
    unfolding perform_thumb
    thumb-Holds w req entry h = elim (Result-cases (thumbnail o.decode_png w.store entry)) [
      | inr (e, k) ↦ rw (k, perform_thumb) (failed-Holds w req e h)
      | inl (none, k) ↦ rw (k, perform_thumb) (refuse-Holds w req (missing w.store entry) h)
      | inl (some pixels, k) ↦
          rw (k, perform_thumb)
            (reply_blob-Holds w
              (Proto.thumb req pixels.width pixels.height (stride pixels) (length pixels.rgba))
              pixels.rgba (length pixels.rgba) h)
    ]

  -- What holds of a session and the store: the store is sound for what the drafts hold and for `r`.
  abbrev pub Keeps : (Text → ℕ) → Session → Store → Type 0
  Keeps r session store = IsSound (besides r session.drafts) store

  begin-Keeps :
      (r : Text → ℕ) (w : World) (req : ℕ) (source : Option Text)
      → Keeps r w.session w.store
      → let out = perform_begin o w req source in Keeps r out.1.session out.1.store
  unfolding perform_begin
  begin-Keeps r w req source i =
      let out = Open.begin w.session.role w.session.drafts source in
      answer-Holds (Keeps r) (with_drafts w out.1) req out.0 (
        weaken _ _ w.store
          (λ x. omega (arith, held_by-begin w.session.role w.session.drafts source x)) i)

  answer_part-Keeps :
      (r : Text → ℕ) (drafts : Drafts) (store : Store) (draft : ℕ) (outcome : PartOutcome)
      → Parts (besides r drafts) store outcome
      → IsSound (besides r (answer_part draft drafts outcome).1) store
  unfolding answer_part
  answer_part-Keeps r drafts store draft (recorded a) i =
      weaken _ _ store (λ x. omega (arith, held_by-push draft a drafts.held x)) i
  answer_part-Keeps r drafts store draft no_draft i = i
  answer_part-Keeps r drafts store draft (failed e) i = i

  part-Keeps :
      (r : Text → ℕ) (w : World) (req draft : ℕ) (mime : Text) (bytes : Option ℕ)
      → Keeps r w.session w.store
      → let out = perform_part o w req draft mime bytes in Keeps r out.1.session out.1.store
  unfolding perform_part
  part-Keeps r w req draft mime bytes i =
      let out = take_part o w draft mime bytes in
      let parts = take_part-Parts o (besides r w.session.drafts) w draft mime bytes i in
      elim (Result-cases out.outcome) [
        | inr (e, k) ↦ rw (k, perform_part) (rw (k, take_part) at parts)
        | inl (outcome, k) ↦
            let told : Parts (besides r w.session.drafts) (with_blobs w.store out.blobs) outcome =
              rw (k, take_part) at parts in
            let said = answer_part draft w.session.drafts outcome in
            let after : World = record w {
              store = with_blobs w.store out.blobs;
              input = out.input;
            } in
            rw (k, perform_part)
              (answer-Holds (Keeps r) (with_drafts after said.1) req said.0 (
                answer_part-Keeps r w.session.drafts (with_blobs w.store out.blobs) draft outcome
                  told))
      ]

  -- A draft that is taken away, with its parts still spoken for.
  taken_away :
      (r : Text → ℕ) (drafts : Drafts) (store : Store) (draft : ℕ) (d : Draft)
      → find_draft draft drafts.held ≡ some d
      → IsSound (besides r drafts) store
      → IsSound
          (with_parts (besides r (record drafts { held = remove_draft draft drafts.held })) d.parts)
          store
  taken_away r drafts store draft d k i =
      weaken _ _ store (λ x. omega (arith, held_by-remove draft d drafts.held x k)) i

  pub abort-Keeps :
      (r : Text → ℕ) (drafts : Drafts) (store : Store) (draft : ℕ)
      → IsSound (besides r drafts) store
      → let out = Open.abort drafts store draft in IsSound (besides r out.0) out.1
  unfolding Open.abort
  abort-Keeps r drafts store draft i = elim (Option-cases (find_draft draft drafts.held)) [
    | inl k ↦ rw (k, Open.abort) i
    | inr (d, k) ↦
        rw (k, Open.abort) (discard-IsSound _ store d.parts (taken_away r drafts store draft d k i))
  ]

  commit-Keeps :
      (meanwhile : Store → Store) (now : ℕ) (r : Text → ℕ) (w : World) (req draft : ℕ)
      → ((s : Text → ℕ) (other : Store) → IsSound s other → IsSound s (meanwhile other))
      → Keeps r w.session w.store
      → let out = perform_commit o meanwhile now w req draft in Keeps r out.1.session out.1.store
  unfolding perform_commit
  commit-Keeps meanwhile now r w req draft others i =
      elim (Option-cases (find_draft draft w.session.drafts.held)) [
        | inl k ↦ rw (k, perform_commit) (refuse-Holds (Keeps r) w req Proto.no_such_draft i)
        | inr (d, k) ↦
            let drafts : Drafts = record w.session.drafts {
              held = remove_draft draft w.session.drafts.held;
            } in
            let out =
              Recording.commit o.write_file o.digest_of o.lossy o.thumb_of_image meanwhile w.store
                d.parts d.source now in
            let done =
              commit-IsSound o.write_file o.digest_of o.lossy o.thumb_of_image meanwhile
                (besides r drafts) w.store d.parts d.source now others
                (taken_away r w.session.drafts w.store draft d k i) in
            let still =
              committed-Holds (λ s st. IsSound (with_parts (besides r s.drafts) d.parts) st)
                (with_store (with_drafts w drafts) out.1) req out.0 done in
            let said = committed o (with_store (with_drafts w drafts) out.1) req out.0 in
            let kept = said.1.session.drafts in
            elim (Bool-cases (is_published out.0 && is_failed said.0)) [
              | inl early ↦
                  rw (k, early, perform_commit)
                    (drop_parts-IsSound (besides r kept) said.1.store d.parts still)
              | inr whole ↦
                  rw (k, whole, perform_commit)
                    (discard-IsSound (besides r kept) said.1.store d.parts still)
            ]
      ]

  pin-Keeps :
      (r : Text → ℕ) (w : World) (req entry : ℕ) (pinned : Bool)
      → Keeps r w.session w.store
      → let out = perform_pin o w req entry pinned in Keeps r out.1.session out.1.store
  unfolding perform_pin
  pin-Keeps r w req entry pinned i =
      let out = pin_entry o.sync_pinned w.store entry pinned in
      let after = with_store w out.1 in
      let kept =
        pin_entry-IsSound o.sync_pinned (besides r w.session.drafts) w.store entry pinned i in
      elim (Result-cases out.0) [
        | inr (e, k) ↦ rw (k, perform_pin) (failed-Holds (Keeps r) after req e kept)
        | inl (none, k) ↦
            rw (k, perform_pin) (refuse-Holds (Keeps r) after req Proto.no_such_entry kept)
        | inl (some s, k) ↦
            rw (k, perform_pin)
              (reply_and_tell-Holds (Keeps r) after (Proto.accepted req) (Proto.updated s ∷ [])
                kept)
      ]

  remove-Keeps :
      (r : Text → ℕ) (w : World) (req entry : ℕ)
      → Keeps r w.session w.store
      → let out = perform_remove o w req entry in Keeps r out.1.session out.1.store
  unfolding perform_remove
  remove-Keeps r w req entry i =
      let out = remove_entry w.store entry in
      let after = with_store w out.0 in
      let kept = remove_entry-IsSound (besides r w.session.drafts) w.store entry i in
      elim (Bool-cases out.1) [
        | inl k ↦
            rw (k, perform_remove)
              (reply_and_tell-Holds (Keeps r) after (Proto.accepted req) (Proto.removed entry ∷ [])
                kept)
        | inr k ↦ rw (k, perform_remove) (refuse-Holds (Keeps r) after req Proto.no_such_entry kept)
      ]

  -- Whatever a client asks and whatever becomes of it, the store stays sound for what the drafts of
  -- the connection hold and for all that is spoken for besides, where what other connections do
  -- within a commit keeps it so: every reference of the index and every lease has its file, and the
  -- drafts have their leases.
  pub perform-Keeps :
      (meanwhile : Store → Store) (now : ℕ) (days : Option ℕ) (r : Text → ℕ) (w : World)
      (request : Request)
      → ((s : Text → ℕ) (other : Store) → IsSound s other → IsSound s (meanwhile other))
      → Keeps r w.session w.store
      → let out : Io (Unit {0}) × World = perform o meanwhile now days w request in
        Keeps r out.1.session out.1.store
  unfolding perform perform_abort perform_list perform_clear perform_stats
  perform-Keeps meanwhile now days r w (hello v role watch) others i =
      refuse-Holds (Keeps r) w 0 Proto.bad_frame i
  perform-Keeps meanwhile now days r w (begin req source) others i = begin-Keeps r w req source i
  perform-Keeps meanwhile now days r w (part req draft mime bytes) others i =
      part-Keeps r w req draft mime bytes i
  perform-Keeps meanwhile now days r w (chunk bytes) others i = chunk-Holds (Keeps r) w bytes i
  perform-Keeps meanwhile now days r w (commit req draft) others i =
      commit-Keeps meanwhile now r w req draft others i
  perform-Keeps meanwhile now days r w (abort req draft) others i =
      let out = Open.abort w.session.drafts w.store draft in
      reply-Holds (Keeps r) (with_store (with_drafts w out.0) out.1) (Proto.accepted req)
        (abort-Keeps r w.session.drafts w.store draft i)
  perform-Keeps meanwhile now days r w (list req limit before query kind pinned) others i =
      unfold reply in i
  perform-Keeps meanwhile now days r w (fetch req entry mime transcoded) others i =
      fetch-Holds (Keeps r) w req entry mime transcoded i
  perform-Keeps meanwhile now days r w (thumb req entry) others i =
      thumb-Holds (Keeps r) w req entry i
  perform-Keeps meanwhile now days r w (pin req entry pinned) others i =
      pin-Keeps r w req entry pinned i
  perform-Keeps meanwhile now days r w (remove req entry) others i = remove-Keeps r w req entry i
  perform-Keeps meanwhile now days r w (clear req) others i =
      reply_and_tell-Holds (Keeps r) (with_store w (clear_entries w.store)) (Proto.accepted req)
        (Proto.cleared ∷ []) (clear_entries-IsSound (besides r w.session.drafts) w.store i)
  perform-Keeps meanwhile now days r w (stats req) others i = unfold reply in i
