-- ===== src/Session/Chunks.antt =====
-- daemon/src/session.rs: a part that declares no length, and comes in chunks up to a terminator.
-- `from_utf8` is `String::from_utf8` and `decode` the JSON reader.
pub mod Lines
pub mod Taken
pub mod Streaming
use rldyour_clipboard.Io.{IoError, invalid_data, unexpected_eof, other, Input, Io, bytes_of, drain}
use rldyour_clipboard.Proto.{
  Request, hello, begin, part, chunk, commit, abort, list, fetch, thumb, pin, remove, clear, stats,
}
use rldyour_clipboard.Blobs.{Blobs}
use rldyour_clipboard.Store.{StoreError, Accepted}
use rldyour_clipboard.Store.Incoming.{Incoming, Absorbed, incoming, absorb_piece, finish_incoming}
use rldyour_clipboard.Session.Frames.{read_frame}
use rldyour_clipboard.Session.Parts.{PartOutcome, recorded, no_draft, failed, Parted}
use rldyour_clipboard.Prelude.{
  ℕ, zero, suc, ◌+◌, ◌-◌, ◌*◌, ◌/◌, ◌%◌, ◌^◌, ◌≤◌, ◌<◌, min, ◌≡◌, refl, sym, ap, ◌∙◌, subst, ◌≢◌,
  ◌↔◌, ◌⊎◌, inl, inr, Bool, true, false, not, ◌&&◌, ◌||◌, Option, none, some, List, [], ◌∷◌, ◌++◌,
  map, append-nil, append_assoc, reverse, arith, ltb, leb, ◌==◌, if◌then◌else◌, ltb→lt, lt→ltb,
  leb→le, le→leb, ==_iff, Bool-cases, Option-cases, is_some, Result, ok, err, ◌>>=◌, length, take,
  drop, head_of, any, all, keep, find, All, length-append, length-take, length-drop,
  take-append-drop, length-keep-le, any-append, All-append, All-map, Text, codes, text_eq,
  text_eq_iff, text_eq_refl, text_le, text_mem, lower_char, to_ascii_lowercase, is_whitespace, trim,
  starts_with, ends_with_char, strip_prefix_char, utf8, sort_by, insert_by, IsSorted,
  length-sort_by, any-sort_by, All-sort_by, sort_by-IsSorted, sort_by_of_IsSorted, keep-sort_by,
  insert_by_least, All-keep, keep-All, keep-keep, All-take, All-map₂, List-cases, keep_congr,
  take_of_length-lt, Result-cases,
}

-- The writer and the failure that the loop carries.
pub record Taking : Type 0 where
  pub writer : Option Incoming
  pub failure : Option StoreError

-- Ok(Request::Chunk { bytes })
abbrev pub chunk_bytes : Option Request → Option ℕ
chunk_bytes (some (chunk bytes)) = some bytes
chunk_bytes (some (hello v role watch)) = none
chunk_bytes (some (begin req source)) = none
chunk_bytes (some (part req draft mime bytes)) = none
chunk_bytes (some (commit req draft)) = none
chunk_bytes (some (abort req draft)) = none
chunk_bytes (some (list req limit before query kind pinned)) = none
chunk_bytes (some (fetch req entry mime transcode)) = none
chunk_bytes (some (thumb req entry)) = none
chunk_bytes (some (pin req entry pinned)) = none
chunk_bytes (some (remove req entry)) = none
chunk_bytes (some (clear req)) = none
chunk_bytes (some (stats req)) = none
chunk_bytes none = none

-- The writer that is opened where there is a draft to record into.
unfoldable pub open_writer : Text → Bool → Taking
unfolding incoming
open_writer mime known =
    if known
    then elim (incoming mime) [
      | ok writer ↦ record { writer = some writer; failure = none }
      | err e ↦ record { writer = none; failure = some e }
    ]
    else record { writer = none; failure = none }

module _ (write_all : List ℕ → List ℕ → Io (Unit {0})) (digest_of : List ℕ → Text) where
  -- The payload of one chunk. A writer that failed is dropped, and the rest of the payload drained.
  unfoldable pub take_chunk : ℕ → Taking → Input → ℕ → Io Taking × Input
  unfolding absorb_piece drain
  take_chunk budget taking input bytes = elim taking.writer [
    | none ↦
        let skipped = drain input bytes in
        elim skipped.0 [ err e ↦ (err e, skipped.1) | ok u ↦ (ok taking, skipped.1) ]
    | some writer ↦
        let out = absorb_piece write_all digest_of budget writer input bytes in
        let rest = drain out.input (bytes - out.read) in
        elim out.result [
          | ok u ↦ (ok (record taking { writer = some out.incoming }), out.input)
          | err error ↦ elim rest.0 [
            | err e ↦ (err e, rest.1)
            | ok u ↦ (ok (record { writer = none; failure = some error }), rest.1)
          ]
        ]
  ]

  -- What follows the loop: the outcome and the blobs.
  unfoldable pub close_writer : Blobs → Taking → PartOutcome × Blobs
  unfolding finish_incoming
  close_writer blobs taking = elim taking.failure [
    | some error ↦ (failed error, blobs)
    | none ↦ elim taking.writer [
      | some writer ↦
          let done = finish_incoming write_all digest_of blobs writer in (recorded done.0, done.1)
      | none ↦ (no_draft, blobs)
    ]
  ]

  module _ (from_utf8 : List ℕ → Option Text) (decode : Text → Option Request) where
    -- The loop. `fuel` bounds its rounds, each of which takes a newline off the stream at least.
    unfoldable pub chunk_loop : ℕ → ℕ → Taking → Input → Io Taking × Input
    unfolding read_frame take_chunk
    chunk_loop zero budget taking input = (err other, input)
    chunk_loop (suc fuel) budget taking input =
        let frame = read_frame from_utf8 input in
        elim frame.0 [
          | err e ↦ (err e, frame.1)
          | ok none ↦ (err unexpected_eof, frame.1)
          | ok (some line) ↦ elim (chunk_bytes (decode line)) [
            | none ↦ (err invalid_data, frame.1)
            | some bytes ↦
                let out = take_chunk budget taking frame.1 bytes in
                if bytes == 0 then (ok taking, frame.1) else elim out.0 [
                  | err e ↦ (err e, out.1)
                  | ok taking' ↦ chunk_loop fuel budget taking' out.1
                ]
          ]
        ]

    unfoldable pub chunked_part : Blobs → ℕ → Text → Bool → Input → Parted
    unfolding open_writer chunk_loop close_writer
    chunked_part blobs budget mime known input =
        let out =
          chunk_loop (suc (length (bytes_of input))) budget (open_writer mime known) input in
        elim out.0 [
          | err e ↦ record { outcome = err e; blobs = blobs; input = out.1 }
          | ok taking ↦
              let closed = close_writer blobs taking in
              record { outcome = ok closed.0; blobs = closed.1; input = out.1 }
        ]
