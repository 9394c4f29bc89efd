-- ===== src/Session/Conversation/Keeping.antt =====
-- What the requests of daemon/src/session.rs do to the store: it stays sound for what the drafts of
-- the connection hold, and for whatever else is spoken for.
use rldyour_clipboard.Index.Refs.Counts.{occurs, one_if}
use rldyour_clipboard.Io.{Input, drain, bytes_of}
use rldyour_clipboard.Proto.{Role, records}
use rldyour_clipboard.Store.{Accepted, accept}
use rldyour_clipboard.Store.Incoming.{finish_incoming}
use rldyour_clipboard.Store.Recording.{Store}
use rldyour_clipboard.Store.Sound.{IsSound, holds, finish-IsSound}
use rldyour_clipboard.Store.Sound.Taking.{with_blobs, accept-Leases}
use rldyour_clipboard.Session.Parts.{PartOutcome, recorded, no_draft, failed, Parted, whole_part}
use rldyour_clipboard.Session.Chunks.{Taking, open_writer, chunk_loop, close_writer, chunked_part}
use rldyour_clipboard.Session.Drafts.{
  Draft, Drafts, Answer, began, done, refused, find_draft, remove_draft, push_part,
  is_open_for_part, answer_part, max_drafts,
}
use rldyour_clipboard.Session.Drafts as Open
use rldyour_clipboard.Session.Conversation.{Outside, World, take_part}
use rldyour_clipboard.Prelude.{
  ℕ, suc, ◌+◌, ◌-◌, ◌≤◌, ◌≡◌, ap, inl, inr, Bool, true, false, not, Option, none, some, List, [],
  ◌∷◌, ◌++◌, arith, leb, ◌==◌, Bool-cases, Option-cases, ok, err, length, keep, Text, text_eq,
  Result-cases,
}

-- How often the drafts of a connection hold a digest.
unfoldable pub held_by : List (ℕ × Draft) → Text → ℕ
held_by [] x = 0
held_by ((n, d) ∷ drafts) x = holds x d.parts + held_by drafts x

-- What is spoken for: `r`, and what the drafts hold.
abbrev pub besides : (Text → ℕ) → Drafts → Text → ℕ
besides r drafts x = r x + held_by drafts.held x

held_by-keep :
    (p : ℕ × Draft → Bool) (drafts : List (ℕ × Draft)) (x : Text)
    → held_by (keep p drafts) x ≤ held_by drafts x
unfolding held_by
held_by-keep p [] x = omega arith
held_by-keep p ((n, d) ∷ drafts) x = ground (arith, held_by-keep p drafts x)

-- A draft that is removed gives up what it held.
pub held_by-remove :
    (id : ℕ) (d : Draft) (drafts : List (ℕ × Draft)) (x : Text)
    → find_draft id drafts ≡ some d
    → held_by (remove_draft id drafts) x + holds x d.parts ≤ held_by drafts x
unfolding held_by find_draft remove_draft
held_by-remove id d [] x h = cc
held_by-remove id d ((n, e) ∷ drafts) x h = elim (Bool-cases (n == id)) [
  | inl q ↦
      let told : some e ≡ some d = rw q at h in
      let same : e ≡ d = cc in
      rw q (
        omega (
          arith,
          held_by-keep (λ d. not (d.0 == id)) drafts x,
          ap (λ (f : Draft). holds x f.parts) same,
        ))
  | inr q ↦ rw q (omega (arith, held_by-remove id d drafts x (rw q at h)))
]

pub held-append :
    (x : Text) (parts : List Accepted) (a : Accepted)
    → holds x (parts ++ a ∷ []) ≡ holds x parts + one_if (text_eq a.digest x)
unfolding occurs
held-append x [] a = omega arith
held-append x (p ∷ parts) a = omega (arith, held-append x parts a)

pub held_by-push :
    (id : ℕ) (a : Accepted) (drafts : List (ℕ × Draft)) (x : Text)
    → held_by (push_part id a drafts) x ≤ held_by drafts x + one_if (text_eq a.digest x)
unfolding held_by push_part occurs
held_by-push id a [] x = omega arith
held_by-push id a ((n, d) ∷ drafts) x = elim (Bool-cases (n == id)) [
  | inl q ↦ rw q (omega (arith, held-append x d.parts a))
  | inr q ↦ rw q (omega (arith, held_by-push id a drafts x))
]

pub held_by-begin :
    (role : Role) (drafts : Drafts) (source : Option Text) (x : Text)
    → held_by (Open.begin role drafts source).1.held x ≤ held_by drafts.held x
unfolding held_by Open.begin occurs
held_by-begin role drafts source x = elim (Bool-cases (not (records role))) [
  | inl e ↦ rw (e, Open.begin) (omega arith)
  | inr e ↦ elim (Bool-cases (leb max_drafts (length drafts.held))) [
    | inl f ↦ rw (e, f, Open.begin) (omega arith)
    | inr f ↦ rw (e, f, Open.begin) (omega arith)
  ]
]

-- An outcome that records has a lease more than the store had.
abbrev pub Parts : (Text → ℕ) → Store → PartOutcome → Type 0
Parts r store (recorded a) = IsSound (λ x. r x + one_if (text_eq a.digest x)) store
Parts r store no_draft = IsSound r store
Parts r store (failed e) = IsSound r store

abbrev pub PartedParts : (Text → ℕ) → Store → Parted → Type 0
PartedParts r store out = elim out.outcome [
  | ok outcome ↦ Parts r (with_blobs store out.blobs) outcome
  | err e ↦ IsSound r (with_blobs store out.blobs)
]

module _ (o : Outside) where
  whole_part-Parts :
      (r : Text → ℕ) (store : Store) (mime : Text) (known : Bool) (declared : ℕ) (input : Input)
      → IsSound r store
      → PartedParts r store
          (whole_part o.write_file o.digest_of store.blobs store.budget mime known declared input)
  unfolding whole_part
  whole_part-Parts r store mime false declared input i =
      elim (Result-cases (drain input declared).0) [
        | inl (u, k) ↦ rw (k, whole_part) i
        | inr (e, k) ↦ rw (k, whole_part) i
      ]
  whole_part-Parts r store mime true declared input i =
      let taken = accept o.write_file o.digest_of store.blobs store.budget mime input declared in
      let l = accept-Leases o.write_file o.digest_of r store mime input declared i in
      elim (Result-cases taken.result) [
        | inl (a, k) ↦ rw (k, whole_part) (rw (k, accept) at l)
        | inr (er, k) ↦ elim (Result-cases (drain taken.input (declared - taken.consumed)).0) [
          | inl (u, q) ↦ rw (k, q, whole_part) (rw (k, accept) at l)
          | inr (e, q) ↦ rw (k, q, whole_part) (rw (k, accept) at l)
        ]
      ]

  close_writer-Parts :
      (r : Text → ℕ) (store : Store) (taking : Taking)
      → IsSound r store
      → let out = close_writer o.write_file o.digest_of store.blobs taking in
        Parts r (with_blobs store out.1) out.0
  unfolding close_writer finish_incoming
  close_writer-Parts r store taking i = elim (Option-cases taking.failure) [
    | inr (e, k) ↦ rw (k, close_writer) i
    | inl k ↦ elim (Option-cases taking.writer) [
      | inl w ↦ rw (k, w, close_writer) i
      | inr (writer, w) ↦
          rw (k, w, close_writer) (finish-IsSound r o.digest_of store writer.content i)
    ]
  ]

  pub take_part-Parts :
      (r : Text → ℕ) (w : World) (draft : ℕ) (mime : Text) (bytes : Option ℕ)
      → IsSound r w.store
      → PartedParts r w.store (take_part o w draft mime bytes)
  unfolding take_part chunked_part
  take_part-Parts r w draft mime (some declared) i =
      whole_part-Parts r w.store mime (is_open_for_part draft w.session.drafts) declared w.input i
  take_part-Parts r w draft mime none i =
      elim (Result-cases
        (chunk_loop o.write_file o.digest_of o.from_utf8 o.decode (suc (length (bytes_of w.input)))
          w.store.budget (open_writer mime (is_open_for_part draft w.session.drafts)) w.input).0) [
            | inr (e, k) ↦ rw (k, chunked_part) i
            | inl (taking, k) ↦ rw (k, chunked_part) (close_writer-Parts r w.store taking i)
          ]
