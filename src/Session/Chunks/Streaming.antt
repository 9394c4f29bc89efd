-- ===== src/Session/Chunks/Streaming.antt =====
-- What `chunked_part` of daemon/src/session.rs takes off a stream of chunks, and what it records.
use rldyour_clipboard.Session.Chunks.Lines.{IsClean, read_line}
use rldyour_clipboard.Session.Chunks.Taken.{
  drop-front, take_chunk-Took, writing, written_after, closed_writing,
}
use rldyour_clipboard.Io.{Input, Io, bytes_of}
use rldyour_clipboard.Proto.{Request, max_frame}
use rldyour_clipboard.Blobs.{Blobs}
use rldyour_clipboard.Store.{validate_mime}
use rldyour_clipboard.Config.{is_valid_mime}
use rldyour_clipboard.Store.Incoming.{Incoming, incoming, finish_incoming}
use rldyour_clipboard.Session.Frames.{newline, read_frame}
use rldyour_clipboard.Session.Parts.{PartOutcome, recorded}
use rldyour_clipboard.Session.Chunks.{
  Taking, chunk_bytes, open_writer, take_chunk, close_writer, chunk_loop, chunked_part,
}
use rldyour_clipboard.Prelude.{
  ℕ, zero, suc, ◌+◌, ◌≤◌, ◌<◌, ◌≡◌, refl, sym, ap, ◌∙◌, Bool, true, false, Option, none, some, List,
  [], ◌∷◌, ◌++◌, append-nil, append_assoc, arith, ◌==◌, ok, length, drop, any, All, length-append,
  Text,
}

-- A chunk: the line of its frame and its payload.
pub record Chunk : Type 0 where
  pub line : List ℕ
  pub payload : List ℕ

abbrev pub contents : List Chunk → List ℕ
contents [] = []
contents (c ∷ cs) = c.payload ++ contents cs

-- The bytes of a stream of chunks, with the line of its terminator and what follows.
abbrev pub spelled : List Chunk → List ℕ → List ℕ → List ℕ
spelled [] last rest = last ++ newline ∷ rest
spelled (c ∷ cs) last rest = c.line ++ newline ∷ (c.payload ++ spelled cs last rest)

length-spelled : (cs : List Chunk) (last rest : List ℕ) → length cs < length (spelled cs last rest)
length-spelled [] last rest = omega (arith, length-append last (newline ∷ rest))
length-spelled (c ∷ cs) last rest = omega (
  arith,
  length-append c.line (newline ∷ (c.payload ++ spelled cs last rest)),
  length-append c.payload (spelled cs last rest),
  length-spelled cs last rest,
)

module _ (write_all : List ℕ → List ℕ → Io (Unit {0})) (digest_of : List ℕ → Text)
    (from_utf8 : List ℕ → Option Text) (decode : Text → Option Request) where
  -- A line that a frame of a chunk of `n` bytes is spelled by.
  abbrev pub IsFrame : List ℕ → ℕ → Type 0
  IsFrame line n =
      (any (λ b. b == newline) line ≡ false)
      × (length line ≤ max_frame)
      × ((s : Text) × (from_utf8 line ≡ some s) × (chunk_bytes (decode s) ≡ some n))

  abbrev pub IsChunk : Chunk → Type 0
  IsChunk c = IsFrame c.line (length c.payload) × (0 < length c.payload)

  -- What the loop leaves on a stream of chunks.
  record Reads (budget : ℕ) (taking : Taking) (cs : List Chunk) (rest : List ℕ)
      (out : Io Taking × Input) : Type 0 where
    after : Taking
    answered : out.0 ≡ ok after
    aligned : bytes_of out.1 ≡ rest
    kept :
        (writer : Incoming)
        → taking ≡ record { writer = some writer; failure = none }
        → ((held piece : List ℕ) → write_all held piece ≡ ok tt)
        → length writer.content + length (contents cs) ≤ budget
        → after ≡ writing write_all digest_of writer (writer.content ++ contents cs)

  chunk_loop-Reads :
      (fuel budget : ℕ) (taking : Taking) (input : Input) (cs : List Chunk) (last rest : List ℕ)
      → length cs < fuel
      → IsClean input
      → bytes_of input ≡ spelled cs last rest
      → All IsChunk cs
      → IsFrame last 0
      → Reads budget taking cs rest
          (chunk_loop write_all digest_of from_utf8 decode fuel budget taking input)
  unfolding chunk_loop
  chunk_loop-Reads zero budget taking input cs last rest f c e ready end = absurd (omega arith)
  chunk_loop-Reads (suc fuel) budget taking input [] last rest f c e ready (one, fits, (s, u, n)) =
      let line = read_line from_utf8 input last rest s c e one fits u in
      record {
        after = taking;
        answered = rw (line.0, n, chunk_loop) refl;
        aligned = rw (line.0, n, chunk_loop) line.1;
        kept = λ writer same disk room.
            same ∙ ap (λ r. writing write_all digest_of writer r) (sym (append-nil writer.content));
      }
  chunk_loop-Reads (suc fuel) budget taking input (p ∷ cs) last rest f c e
        (((one, fits, (s, u, n)), full), ready) end =
      let behind = p.payload ++ spelled cs last rest in
      let line = read_line from_utf8 input p.line behind s c e one fits u in
      let frame = (read_frame from_utf8 input).1 in
      let holds : length p.payload ≤ length (bytes_of frame) =
        omega (arith, ap (length {A = ℕ}) line.1, length-append p.payload (spelled cs last rest)) in
      let (after, took) =
        take_chunk-Took write_all digest_of budget taking frame (length p.payload) line.2 holds in
      let next = (take_chunk write_all digest_of budget taking frame (length p.payload)).1 in
      let more =
        chunk_loop-Reads fuel budget after next cs last rest (omega (arith, f)) took.2
          (took.1
            ∙ ap (drop (length p.payload)) line.1
            ∙ drop-front p.payload (spelled cs last rest))
          ready end in
      let some_left : (length p.payload == 0) ≡ false = ground (arith, full) in
      record {
        after = more.after;
        answered = rw (line.0, n, some_left, took.0, chunk_loop) more.answered;
        aligned = rw (line.0, n, some_left, took.0, chunk_loop) more.aligned;
        kept = λ writer same disk room.
            let written = writer.content ++ p.payload in
            let same_after : after ≡ writing write_all digest_of writer written =
              written_after write_all digest_of budget writer taking after frame p.payload
                (spelled cs last rest) same line.2 line.1 took.0 disk
                (omega (arith, room, length-append p.payload (contents cs))) in
            more.kept (record writer { content = written }) same_after disk
              (omega (
                arith,
                room,
                length-append p.payload (contents cs),
                length-append writer.content p.payload,
              ))
            ∙ ap (λ r. writing write_all digest_of writer r)
                (append_assoc writer.content p.payload (contents cs));
      }

  -- On a stream of chunks with its terminator, a part that declares no length is answered, and
  -- the stream stands behind the terminator, whatever became of the part: no draft, a mime type
  -- that is refused, a disk that fails or a budget that is passed.
  pub chunked_part-aligned :
      (blobs : Blobs) (budget : ℕ) (mime : Text) (known : Bool) (input : Input) (cs : List Chunk)
      (last rest : List ℕ)
      → IsClean input
      → bytes_of input ≡ spelled cs last rest
      → All IsChunk cs
      → IsFrame last 0
      → let out = chunked_part write_all digest_of from_utf8 decode blobs budget mime known input in
        ((o : PartOutcome) × (out.outcome ≡ ok o)) × (bytes_of out.input ≡ rest)
  unfolding chunked_part
  chunked_part-aligned blobs budget mime known input cs last rest c e ready end =
      let r =
        chunk_loop-Reads (suc (length (bytes_of input))) budget (open_writer mime known) input cs
          last rest (omega (arith, length-spelled cs last rest, ap (length {A = ℕ}) e)) c e ready
          end in
      (
        ((close_writer write_all digest_of blobs r.after).0, rw (r.answered, chunked_part) refl),
        rw (r.answered, chunked_part) r.aligned,
      )

  -- What is sent in chunks is recorded: into a draft that is open, of a mime type that is valid,
  -- on a disk that takes what it is given, and within the budget, the part has the digest and the
  -- length of the payloads in order.
  pub chunked_part-records :
      (blobs : Blobs) (budget : ℕ) (mime : Text) (input : Input) (cs : List Chunk)
      (last rest : List ℕ)
      → IsClean input
      → bytes_of input ≡ spelled cs last rest
      → All IsChunk cs
      → IsFrame last 0
      → is_valid_mime mime ≡ true
      → ((held piece : List ℕ) → write_all held piece ≡ ok tt)
      → length (contents cs) ≤ budget
      → (chunked_part write_all digest_of from_utf8 decode blobs budget mime true input).outcome
        ≡ ok (
            recorded (record {
              mime = mime;
              digest = digest_of (contents cs);
              bytes = length (contents cs);
            }))
  unfolding chunked_part open_writer incoming validate_mime close_writer finish_incoming
  chunked_part-records blobs budget mime input cs last rest c e ready end valid disk room =
      let r =
        chunk_loop-Reads (suc (length (bytes_of input))) budget (open_writer mime true) input cs
          last rest (omega (arith, length-spelled cs last rest, ap (length {A = ℕ}) e)) c e ready
          end in
      let empty : Incoming = record { content = []; mime = mime } in
      let opened : open_writer mime true ≡ record { writer = some empty; failure = none } =
        rw (valid, validate_mime, incoming, open_writer) refl in
      let whole : r.after ≡ writing write_all digest_of empty (contents cs) =
        r.kept empty opened disk (omega (arith, room)) in
      rw (r.answered, chunked_part)
        (ap (λ t. ok (close_writer write_all digest_of blobs t).0) whole
          ∙ ap ok (closed_writing write_all digest_of blobs mime (contents cs)))
