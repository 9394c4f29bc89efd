-- ===== src/Session/Chunks/Taken.antt =====
-- The payload of a chunk in `chunked_part` of daemon/src/session.rs: what taking it leaves.
use rldyour_clipboard.Session.Chunks.Lines.{IsClean, drained}
use rldyour_clipboard.Io.{Input, Io, bytes_of}
use rldyour_clipboard.Blobs.{Blobs, absorb, finish, file_exists}
use rldyour_clipboard.Blobs.Pieces.{drop-drop}
use rldyour_clipboard.Blobs.Copying.{absorb-Takes, absorb_ok, written-cases}
use rldyour_clipboard.Store.Incoming.{Incoming, absorb_piece, finish_incoming}
use rldyour_clipboard.Session.Parts.{recorded}
use rldyour_clipboard.Session.Chunks.{Taking, take_chunk, close_writer}
use rldyour_clipboard.Prelude.{
  ℕ, ◌+◌, ◌-◌, ◌≤◌, ◌≡◌, refl, sym, ap, ◌∙◌, inl, inr, false, none, some, List, [], ◌∷◌, ◌++◌,
  arith, ltb, Bool-cases, Option-cases, ok, length, take, drop, length-append, length-take,
  length-drop, Text, Result-cases,
}

pub take-front : (xs ys : List ℕ) → take (length xs) (xs ++ ys) ≡ xs
take-front [] [] = refl
take-front [] (y ∷ ys) = refl
take-front (x ∷ xs) ys = ap (λ r. x ∷ r) (take-front xs ys)

pub drop-front : (xs ys : List ℕ) → drop (length xs) (xs ++ ys) ≡ ys
drop-front [] ys = refl
drop-front (x ∷ xs) ys = drop-front xs ys

module _ (write_all : List ℕ → List ℕ → Io (Unit {0})) (digest_of : List ℕ → Text) where
  -- What taking a payload leaves: the stream stands behind it.
  abbrev pub Took : Input → ℕ → Io Taking × Input → Taking → Type 0
  Took input bytes out after =
      (out.0 ≡ ok after) × (bytes_of out.1 ≡ drop bytes (bytes_of input)) × IsClean out.1

  -- A piece that is taken was copied whole.
  piece_copied :
      (budget : ℕ) (writer : Incoming) (input : Input) (bytes : ℕ) (u : Unit {0})
      → (absorb_piece write_all digest_of budget writer input bytes).result ≡ ok u
      → (absorb write_all input writer.content bytes).result ≡ ok tt
  unfolding absorb_piece
  piece_copied budget writer input bytes u h =
      elim (written-cases (absorb write_all input writer.content bytes).result) [
        | inl (e, w) ↦ absurd (cc (rw (w, absorb_piece) at h))
        | inr w ↦ w
      ]

  absorb_piece-Took :
      (budget : ℕ) (taking : Taking) (writer : Incoming) (input : Input) (bytes : ℕ)
      → taking.writer ≡ some writer
      → IsClean input
      → bytes ≤ length (bytes_of input)
      → (after : Taking) × Took input bytes
          (take_chunk write_all digest_of budget taking input bytes)
          after
  unfolding take_chunk absorb_piece
  absorb_piece-Took budget taking writer input bytes w c h =
      let (k, takes) = absorb-Takes write_all input writer.content bytes c.1 in
      let out = absorb write_all input writer.content bytes in
      let count : k ≡ out.read = omega (arith, takes.1) in
      let piece = absorb_piece write_all digest_of budget writer input bytes in
      let behind : length (bytes_of out.input) ≡ length (bytes_of input) - k =
        ap length takes.2 ∙ length-drop k (bytes_of input) in
      let clean : IsClean out.input = (takes.3 ∙ c.0, takes.4) in
      let d = drained out.input (bytes - out.read) clean (omega (arith, h, behind, count)) in
      elim (Result-cases piece.result) [
        | inl (u, e) ↦
            let whole : k ≡ bytes = (takes.5 (piece_copied budget writer input bytes u e)).0 in
            (
              record taking { writer = some piece.incoming },
              (
                rw (w, e, take_chunk) refl,
                rw (w, e, take_chunk) (takes.2 ∙ ap (λ n. drop n (bytes_of input)) whole),
                rw (w, e, take_chunk) clean,
              ),
            )
        | inr (er, e) ↦ (
          record { writer = none; failure = some er },
          (
            rw (w, e, d.0, take_chunk) refl,
            rw (w, e, d.0, take_chunk)
                (d.1
                  ∙ ap (drop (bytes - out.read)) takes.2
                  ∙ drop-drop k (bytes - out.read) (bytes_of input)
                  ∙ ap (λ n. drop n (bytes_of input)) (omega (arith, takes.0, count))),
            rw (w, e, d.0, take_chunk) d.2,
          ),
        )
      ]

  pub take_chunk-Took :
      (budget : ℕ) (taking : Taking) (input : Input) (bytes : ℕ)
      → IsClean input
      → bytes ≤ length (bytes_of input)
      → (after : Taking) × Took input bytes
          (take_chunk write_all digest_of budget taking input bytes)
          after
  unfolding take_chunk
  take_chunk-Took budget taking input bytes c h = elim (Option-cases taking.writer) [
    | inr (writer, w) ↦ absorb_piece-Took budget taking writer input bytes w c h
    | inl w ↦
        let d = drained input bytes c h in
        (
          taking,
          (simp (w, d.0, take_chunk), rw (w, d.0, take_chunk) d.1, rw (w, d.0, take_chunk) d.2),
        )
  ]

  abbrev pub writing : Incoming → List ℕ → Taking
  writing writer content = record {
    writer = some (record writer { content = content });
    failure = none;
  }

  -- Where the disk takes what it is given and the budget is not reached, a writer takes the payload.
  pub take_chunk_ok :
      (budget : ℕ) (writer : Incoming) (input : Input) (bytes : ℕ)
      → IsClean input
      → bytes ≤ length (bytes_of input)
      → ((held piece : List ℕ) → write_all held piece ≡ ok tt)
      → length writer.content + bytes ≤ budget
      → (take_chunk write_all digest_of budget
          (record { writer = some writer; failure = none })
          input
          bytes).0
        ≡ ok (writing writer (writer.content ++ take bytes (bytes_of input)))
  unfolding take_chunk absorb_piece
  take_chunk_ok budget writer input bytes c h disk room =
      let (k, takes) = absorb-Takes write_all input writer.content bytes c.1 in
      let copied = absorb_ok write_all input writer.content bytes c.1 h disk in
      let whole = (takes.5 copied).2 in
      let small : ltb budget (length (absorb write_all input writer.content bytes).content)
          ≡ false =
        ground (
          arith,
          ap (length {A = ℕ}) whole,
          length-append writer.content (take bytes (bytes_of input)),
          length-take bytes (bytes_of input),
        ) in
      rw (copied, small, take_chunk) (ap (λ r. ok (writing writer r)) whole)

  pub closed_writing :
      (blobs : Blobs) (mime : Text) (content : List ℕ)
      → (close_writer write_all digest_of blobs
          (writing (record { content = []; mime = mime }) content)).0
        ≡ recorded (record { mime = mime; digest = digest_of content; bytes = length content })
  unfolding close_writer finish_incoming finish
  closed_writing blobs mime content =
      elim (Bool-cases (file_exists (digest_of content) blobs.files)) [
        | inl e ↦ rw (e, close_writer) refl
        | inr e ↦ rw (e, close_writer) refl
      ]

  pub ok_same : (a b : Taking) (r : Io Taking) → r ≡ ok a → r ≡ ok b → a ≡ b
  ok_same a b r h k = let e : ok a ≡ ok b = sym h ∙ k in cc

  -- The same of the first payload of a stream, whatever the loop carries it in.
  pub written_after :
      (budget : ℕ) (writer : Incoming) (taking after : Taking) (input : Input)
      (payload behind : List ℕ)
      → taking ≡ record { writer = some writer; failure = none }
      → IsClean input
      → bytes_of input ≡ payload ++ behind
      → (take_chunk write_all digest_of budget taking input (length payload)).0 ≡ ok after
      → ((held piece : List ℕ) → write_all held piece ≡ ok tt)
      → length writer.content + length payload ≤ budget
      → after ≡ writing writer (writer.content ++ payload)
  written_after budget writer taking after input payload behind same c e took disk room =
      let holds : length payload ≤ length (bytes_of input) =
        omega (arith, ap (length {A = ℕ}) e, length-append payload behind) in
      ok_same after (writing writer (writer.content ++ payload))
        (take_chunk write_all digest_of budget taking input (length payload)).0 took
        (ap (λ t. (take_chunk write_all digest_of budget t input (length payload)).0) same
          ∙ take_chunk_ok budget writer input (length payload) c holds disk room
          ∙ ap (λ r. ok (writing writer (writer.content ++ r)))
              (ap (take (length payload)) e ∙ take-front payload behind))
