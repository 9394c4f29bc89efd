-- ===== src/Session/Conversation.antt =====
-- daemon/src/session.rs: a connection's conversation, from its greeting on. `Outside` has what the
-- daemon calls and what this repository does not hold.
pub mod Requests
pub mod Answers
pub mod Keeping
pub mod Safety
use rldyour_clipboard.Io.{IoError, Io, Input, bytes_of, drain}
use rldyour_clipboard.Kind.{Kind, parse}
use rldyour_clipboard.Proto.{
  Role, default_role, Request, Response, Summary, Code, bad_frame, bad_version, no_such_entry,
  no_such_mime, no_such_draft,
}
use rldyour_clipboard.Proto as Proto
use rldyour_clipboard.Index.Listing.{list}
use rldyour_clipboard.Index.Queries.{summary}
use rldyour_clipboard.Store.{StoreError, code_of, Accepted}
use rldyour_clipboard.Store.Deriving.{Made}
use rldyour_clipboard.Store.Sweeping.{discard, drop_parts}
use rldyour_clipboard.Store.Recording.{Store, Committed, commit}
use rldyour_clipboard.Store.Keeping.{open_part, pin_entry, remove_entry, clear_entries, stats}
use rldyour_clipboard.Store.Serving.{Pixels, transcode, thumbnail, stride}
use rldyour_clipboard.Outbox.{send, send_blob}
use rldyour_clipboard.Session.Parts.{PartOutcome, recorded, no_draft, failed, Parted, whole_part}
use rldyour_clipboard.Session.Chunks.{chunked_part}
use rldyour_clipboard.Session.Drafts.{
  Draft, Drafts, Answer, began, done, refused, find_draft, remove_draft, begin, abort,
  is_open_for_part, answer_part,
}
use rldyour_clipboard.Session.Frames.{read_frame}
use rldyour_clipboard.Session.Pages.{list_reply, default_page}
use rldyour_clipboard.Prelude.{
  ℕ, zero, suc, ◌+◌, ◌-◌, ◌*◌, ◌/◌, ◌%◌, ◌^◌, ◌≤◌, ◌<◌, min, ◌≡◌, refl, sym, ap, ◌∙◌, subst, ◌≢◌,
  ◌↔◌, ◌⊎◌, inl, inr, Bool, true, false, not, ◌&&◌, ◌||◌, Option, none, some, List, [], ◌∷◌, ◌++◌,
  map, append-nil, append_assoc, reverse, arith, ltb, leb, ◌==◌, if◌then◌else◌, ltb→lt, lt→ltb,
  leb→le, le→leb, ==_iff, Bool-cases, Option-cases, is_some, Result, ok, err, ◌>>=◌, length, take,
  drop, head_of, any, all, keep, find, All, length-append, length-take, length-drop,
  take-append-drop, length-keep-le, any-append, All-append, All-map, Text, codes, text_eq,
  text_eq_iff, text_eq_refl, text_le, text_mem, lower_char, to_ascii_lowercase, is_whitespace, trim,
  starts_with, ends_with_char, strip_prefix_char, utf8, sort_by, insert_by, IsSorted,
  length-sort_by, any-sort_by, All-sort_by, sort_by-IsSorted, sort_by_of_IsSorted, keep-sort_by,
  insert_by_least, All-keep, keep-All, keep-keep, All-take, All-map₂, List-cases, keep_congr,
  take_of_length-lt, Result-cases,
}

-- What stands outside: the disk, the socket, the JSON texts, UTF-8, the hash, the image crate and the
-- full-text index of SQLite.
pub record Outside : Type 0 where
  pub write_file : List ℕ → List ℕ → Io (Unit {0})
  pub sync_pinned : Text → Io (Unit {0})
  pub write_socket : List ℕ → List ℕ → Io (Unit {0}) × List ℕ
  pub encode : Response → List ℕ
  pub decode : Text → Option Request
  pub item_size : Summary → ℕ
  pub from_utf8 : List ℕ → Option Text
  pub lossy : List ℕ → Text
  pub digest_of : List ℕ → Text
  pub thumb_of_image : List ℕ → Made
  pub decode_png : List ℕ → Option Pixels
  pub write_bmp : List ℕ → Option (List ℕ)
  pub is_alphanumeric : ℕ → Bool
  pub matches : Text → Text → Bool

pub record Session : Type 0 where
  pub role : Role
  pub watch : Bool
  pub drafts : Drafts

-- Session::new
abbrev pub new_session : Session
new_session = record { role = default_role; watch = true; drafts = record { held = []; next = 1 } }

-- A connection and the store: what it said, what it was sent, and the events it caused.
pub record World : Type 0 where
  pub session : Session
  pub store : Store
  pub input : Input
  pub wire : List ℕ
  pub events : List Response

abbrev pub with_store : World → Store → World
with_store w store = record w { store = store }

abbrev pub with_drafts : World → Drafts → World
with_drafts w drafts = record w { session = record w.session { drafts = drafts } }

-- The events of a commit: what it evicted, and what became of the entry.
unfoldable pub commit_events : Committed → List Response
commit_events c =
    let evicted : List Response = map (λ id. Proto.removed id) c.evicted in
    if c.entry == 0 then evicted else elim c.summary [
      | none ↦ evicted
      | some s ↦ evicted ++ (if c.created then Proto.added s else Proto.updated s) ∷ []
    ]

-- Ok(Some(done))
abbrev pub is_published : Result StoreError (Option Committed) → Bool
is_published (ok (some c)) = true
is_published (ok none) = false
is_published (err e) = false

abbrev pub is_failed : Io (Unit {0}) → Bool
is_failed (ok u) = false
is_failed (err e) = true

module _ (o : Outside) where
  unfoldable pub reply : World → Response → Io (Unit {0}) × World
  unfolding send
  reply w response =
      let out = send o.encode o.write_socket w.wire response in (out.0, record w { wire = out.1 })

  unfoldable pub reply_blob : World → Response → List ℕ → ℕ → Io (Unit {0}) × World
  unfolding send_blob
  reply_blob w response content bytes =
      let out = send_blob o.encode o.write_socket w.wire response content bytes in
      (out.0, record w { wire = out.1 })

  -- `?` on a reply, and then the events to every watcher
  unfoldable pub reply_and_tell : World → Response → List Response → Io (Unit {0}) × World
  unfolding reply
  reply_and_tell w response events =
      let out = reply w response in
      elim out.0 [
        | err e ↦ (err e, out.1)
        | ok u ↦ (ok tt, record out.1 { events = out.1.events ++ events })
      ]

  unfoldable pub refuse : World → ℕ → Code → Io (Unit {0}) × World
  unfolding reply
  refuse w req code = reply w (Proto.error (some req) code)

  unfoldable pub failed_with : World → ℕ → StoreError → Io (Unit {0}) × World
  unfolding refuse code_of
  failed_with w req error = refuse w req (code_of error)

  unfoldable pub answer : World → ℕ → Answer → Io (Unit {0}) × World
  unfolding reply refuse
  answer w req (began draft) = reply w (Proto.begin req draft)
  answer w req done = reply w (Proto.accepted req)
  answer w req (refused code) = refuse w req code

  unfoldable pub perform_begin : World → ℕ → Option Text → Io (Unit {0}) × World
  unfolding begin answer
  perform_begin w req source =
      let out = begin w.session.role w.session.drafts source in
      answer (with_drafts w out.1) req out.0

  -- The outcome of a part, where the connection goes on.
  unfoldable pub take_part : World → ℕ → Text → Option ℕ → Parted
  unfolding is_open_for_part whole_part chunked_part
  take_part w draft mime (some declared) =
      whole_part o.write_file o.digest_of w.store.blobs w.store.budget mime
        (is_open_for_part draft w.session.drafts) declared w.input
  take_part w draft mime none =
      chunked_part o.write_file o.digest_of o.from_utf8 o.decode w.store.blobs w.store.budget mime
        (is_open_for_part draft w.session.drafts) w.input

  unfoldable pub perform_part : World → ℕ → ℕ → Text → Option ℕ → Io (Unit {0}) × World
  unfolding take_part answer_part answer
  perform_part w req draft mime bytes =
      let out = take_part w draft mime bytes in
      let after : World = record w {
        store = record w.store { blobs = out.blobs };
        input = out.input;
      } in
      elim out.outcome [
        | err e ↦ (err e, after)
        | ok outcome ↦
            let said = answer_part draft w.session.drafts outcome in
            answer (with_drafts after said.1) req said.0
      ]

  unfoldable pub perform_chunk : World → ℕ → Io (Unit {0}) × World
  unfolding drain reply
  perform_chunk w bytes =
      let skipped = drain w.input bytes in
      let after : World = record w { input = skipped.1 } in
      elim skipped.0 [ err e ↦ (err e, after) | ok u ↦ reply after (Proto.error none bad_frame) ]

  unfoldable pub perform_abort : World → ℕ → ℕ → Io (Unit {0}) × World
  unfolding abort reply
  perform_abort w req draft =
      let out = abort w.session.drafts w.store draft in
      reply (with_store (with_drafts w out.0) out.1) (Proto.accepted req)

  -- What a client is told about a commit.
  unfoldable pub committed :
      World → ℕ → Result StoreError (Option Committed) → Io (Unit {0}) × World
  unfolding commit_events reply_and_tell reply failed_with
  committed w req (ok (some c)) =
      reply_and_tell w (Proto.commit req c.entry c.created) (commit_events c)
  committed w req (ok none) = reply w (Proto.commit req 0 false)
  committed w req (err error) = failed_with w req error

  -- `meanwhile` is what other connections do to the store while the lock on the index is not held.
  -- The `?` on the reply to a commit that was published returns before the draft is discarded: its
  -- leases end, and nothing is swept.
  unfoldable pub perform_commit : (Store → Store) → ℕ → World → ℕ → ℕ → Io (Unit {0}) × World
  unfolding find_draft remove_draft commit committed discard drop_parts refuse
  perform_commit meanwhile now w req draft = elim (find_draft draft w.session.drafts.held) [
    | none ↦ refuse w req no_such_draft
    | some d ↦
        let drafts : Drafts = record w.session.drafts {
          held = remove_draft draft w.session.drafts.held;
        } in
        let out =
          commit o.write_file o.digest_of o.lossy o.thumb_of_image meanwhile w.store d.parts
            d.source now in
        let said = committed (with_store (with_drafts w drafts) out.1) req out.0 in
        let store = said.1.store in
        let blobs =
          if is_published out.0 && is_failed said.0
          then drop_parts store.blobs d.parts
          else discard store.tables store.blobs d.parts in
        (said.0, with_store said.1 (record store { blobs = blobs }))
  ]
