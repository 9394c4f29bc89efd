-- ===== src/Session/Conversation/Requests.antt =====
-- daemon/src/session.rs: the other requests of a connection, `perform`, `greet` and `run`.
use rldyour_clipboard.Io.{other, Io}
use rldyour_clipboard.Kind.{Kind, parse}
use rldyour_clipboard.Proto.{
  Role, protocol_version, Request, hello, begin, part, chunk, commit, abort, list, fetch, thumb,
  pin, remove, clear, stats, req_of, Response, Summary, Code, bad_frame, bad_version, no_such_entry,
  no_such_mime,
}
use rldyour_clipboard.Proto as Proto
use rldyour_clipboard.Index.Listing as Listing
use rldyour_clipboard.Index.Queries.{summary}
use rldyour_clipboard.Store.{StoreError}
use rldyour_clipboard.Store.Recording.{Store}
use rldyour_clipboard.Store.Keeping.{open_part, pin_entry, remove_entry, clear_entries}
use rldyour_clipboard.Store.Keeping as Keeping
use rldyour_clipboard.Store.Serving.{transcode, thumbnail, stride}
use rldyour_clipboard.Session.Frames.{read_frame}
use rldyour_clipboard.Session.Pages.{list_reply, default_page}
use rldyour_clipboard.Session.Conversation.{
  Outside, World, with_store, reply, reply_blob, reply_and_tell, refuse, failed_with, perform_begin,
  perform_part, perform_chunk, perform_abort, perform_commit,
}
use rldyour_clipboard.Prelude.{
  ℕ, zero, suc, Bool, true, false, Option, none, some, List, [], ◌∷◌, ◌==◌, if◌then◌else◌, is_some,
  Result, ok, err, ◌>>=◌, length, Text,
}

-- Which of the two a client is told where there is nothing to serve.
unfoldable pub missing : Store → ℕ → Code
unfolding summary
missing store entry = if is_some (summary store.tables entry) then no_such_mime else no_such_entry

module _ (o : Outside) where
  unfoldable pub perform_list :
      World
      → ℕ
      → Option ℕ
      → Option ℕ
      → Option Text
      → Option Text
      → Option Bool
      → Io (Unit {0}) × World
  unfolding parse Listing.list list_reply reply
  perform_list w req limit before query kind pinned =
      let only : Option Kind = elim kind [ none ↦ none | some name ↦ parse name ] in
      let items =
        Listing.list o.is_alphanumeric o.matches w.store.tables
          (elim limit [ none ↦ default_page | some n ↦ n ]) before query only pinned in
      let page = list_reply o.item_size limit items in reply o w (Proto.list req page.0 page.1)

  -- What a fetch that misses transcodes: nothing, unless the client asks and names a mime type.
  unfoldable pub produced :
      Store → ℕ → Option Text → Bool → Result StoreError (Option (Text × List ℕ × ℕ))
  unfolding transcode
  produced store entry none transcoded = ok none
  produced store entry (some wanted) transcoded =
      if transcoded then transcode o.write_bmp store entry wanted else ok none

  unfoldable pub perform_fetch : World → ℕ → ℕ → Option Text → Bool → Io (Unit {0}) × World
  unfolding open_part produced reply_blob failed_with refuse missing
  perform_fetch w req entry mime transcoded = elim (open_part w.store entry mime) [
    | err e ↦ failed_with o w req e
    | ok (some (found, content, bytes)) ↦ reply_blob o w (Proto.blob req found bytes) content bytes
    | ok none ↦ elim (produced w.store entry mime transcoded) [
      | err e ↦ failed_with o w req e
      | ok (some (made, content, bytes)) ↦ reply_blob o w (Proto.blob req made bytes) content bytes
      | ok none ↦ refuse o w req (missing w.store entry)
    ]
  ]

  unfoldable pub perform_thumb : World → ℕ → ℕ → Io (Unit {0}) × World
  unfolding thumbnail stride reply_blob failed_with refuse missing
  perform_thumb w req entry = elim (thumbnail o.decode_png w.store entry) [
    | err e ↦ failed_with o w req e
    | ok none ↦ refuse o w req (missing w.store entry)
    | ok (some pixels) ↦
        let bytes = length pixels.rgba in
        reply_blob o w (Proto.thumb req pixels.width pixels.height (stride pixels) bytes)
          pixels.rgba bytes
  ]

  unfoldable pub perform_pin : World → ℕ → ℕ → Bool → Io (Unit {0}) × World
  unfolding pin_entry reply_and_tell refuse failed_with
  perform_pin w req entry pinned =
      let out = pin_entry o.sync_pinned w.store entry pinned in
      let after = with_store w out.1 in
      elim out.0 [
        | err e ↦ failed_with o after req e
        | ok none ↦ refuse o after req no_such_entry
        | ok (some s) ↦ reply_and_tell o after (Proto.accepted req) (Proto.updated s ∷ [])
      ]

  unfoldable pub perform_remove : World → ℕ → ℕ → Io (Unit {0}) × World
  unfolding remove_entry reply_and_tell refuse
  perform_remove w req entry =
      let out = remove_entry w.store entry in
      let after = with_store w out.0 in
      if out.1
      then reply_and_tell o after (Proto.accepted req) (Proto.removed entry ∷ [])
      else refuse o after req no_such_entry

  unfoldable pub perform_clear : World → ℕ → Io (Unit {0}) × World
  unfolding clear_entries reply_and_tell
  perform_clear w req =
      reply_and_tell o (with_store w (clear_entries w.store)) (Proto.accepted req)
        (Proto.cleared ∷ [])

  unfoldable pub perform_stats : Option ℕ → World → ℕ → Io (Unit {0}) × World
  unfolding Keeping.stats reply
  perform_stats retention_days w req =
      let (entries, pinned, bytes) = Keeping.stats w.store in
      reply o w (Proto.stats req entries pinned bytes w.store.budget retention_days)

  -- `Session::perform`. `now` is the clock, and `retention_days` the store's policy.
  unfoldable pub perform : (Store → Store) → ℕ → Option ℕ → World → Request → Io (Unit {0}) × World
  unfolding perform_begin perform_part perform_chunk perform_commit perform_abort perform_list
      perform_fetch perform_thumb perform_pin perform_remove perform_clear perform_stats refuse
  perform meanwhile now retention_days w (hello v role watch) = refuse o w 0 bad_frame
  perform meanwhile now retention_days w (begin req source) = perform_begin o w req source
  perform meanwhile now retention_days w (part req draft mime bytes) =
      perform_part o w req draft mime bytes
  perform meanwhile now retention_days w (chunk bytes) = perform_chunk o w bytes
  perform meanwhile now retention_days w (commit req draft) =
      perform_commit o meanwhile now w req draft
  perform meanwhile now retention_days w (abort req draft) = perform_abort o w req draft
  perform meanwhile now retention_days w (list req limit before query kind pinned) =
      perform_list w req limit before query kind pinned
  perform meanwhile now retention_days w (fetch req entry mime transcoded) =
      perform_fetch w req entry mime transcoded
  perform meanwhile now retention_days w (thumb req entry) = perform_thumb w req entry
  perform meanwhile now retention_days w (pin req entry pinned) = perform_pin w req entry pinned
  perform meanwhile now retention_days w (remove req entry) = perform_remove w req entry
  perform meanwhile now retention_days w (clear req) = perform_clear w req
  perform meanwhile now retention_days w (stats req) = perform_stats retention_days w req

  -- `Session::greet`: whether the conversation goes on.
  unfoldable pub greeted : Option ℕ → World → Request → Io Bool × World
  unfolding Keeping.stats reply
  greeted retention_days w (hello v role watch) =
      let (entries, pinned, bytes) = Keeping.stats w.store in
      let taken : World = record w { session = record w.session { role = role; watch = watch } } in
      let welcomed =
        reply o taken (Proto.hello protocol_version entries bytes w.store.budget retention_days) in
      let refused = reply o w (Proto.error none bad_version) in
      if v == protocol_version
      then (welcomed.0 >>= (λ u. ok true), welcomed.1)
      else (refused.0 >>= (λ u. ok false), refused.1)
  greeted retention_days w request = (ok false, w)

  unfoldable pub greet : Option ℕ → World → Io Bool × World
  unfolding read_frame greeted
  greet retention_days w =
      let frame = read_frame o.from_utf8 w.input in
      let after : World = record w { input = frame.1 } in
      elim frame.0 [
        | err e ↦ (err e, after)
        | ok none ↦ (ok false, after)
        | ok (some line) ↦ elim (o.decode line) [
          | none ↦ (ok false, after)
          | some request ↦ greeted retention_days after request
        ]
      ]

  -- `Session::run`. `fuel` bounds the frames: each takes a newline off the stream at least. What
  -- other connections do between two requests and within one are arguments, as is the clock.
  unfoldable pub run :
      ℕ
      → (ℕ → Store → Store)
      → (ℕ → Store → Store)
      → (ℕ → ℕ)
      → Option ℕ
      → World
      → Io (Unit {0}) × World
  unfolding read_frame perform reply
  run zero between meanwhile now retention_days w = (err other, w)
  run (suc fuel) between meanwhile now retention_days w =
      let frame = read_frame o.from_utf8 w.input in
      let after : World = record w { store = between fuel w.store; input = frame.1 } in
      elim frame.0 [
        | err e ↦ (err e, after)
        | ok none ↦ (ok tt, after)
        | ok (some line) ↦ elim (o.decode line) [
          | none ↦ reply o after (Proto.error none bad_frame)
          | some request ↦
              let out = perform (meanwhile fuel) (now fuel) retention_days after request in
              elim out.0 [
                | err e ↦ (err e, out.1)
                | ok u ↦ run fuel between meanwhile now retention_days out.1
              ]
        ]
      ]
