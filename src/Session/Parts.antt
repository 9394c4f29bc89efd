-- ===== src/Session/Parts.antt =====
-- daemon/src/session.rs: the drafts of a connection, and a part that declares its length.
use rldyour_clipboard.Io.{
  Input, Io, bytes_of, drain, flat-drain_buffers, drain_buffers_ok, Occupied,
}
use rldyour_clipboard.Blobs.{Blobs, Written, absorb}
use rldyour_clipboard.Blobs.Pieces.{drop-drop}
use rldyour_clipboard.Blobs.Copying.{absorb-Takes, written-cases}
use rldyour_clipboard.Config.{is_valid_mime}
use rldyour_clipboard.Store.{StoreError, Accepted, Acceptance, accept, write_from, validate_mime}
use rldyour_clipboard.Prelude.{
  Result-cases, ℕ, ◌-◌, ◌≤◌, ◌≡◌, refl, ap, ◌∙◌, ◌⊎◌, inl, inr, Bool, true, false, not, List, [],
  arith, ltb, if◌then◌else◌, Bool-cases, Result, ok, err, length, drop, All, length-drop, Text,
}

pub data PartOutcome : Type 0 where
  recorded : Accepted → PartOutcome
  no_draft : PartOutcome
  failed : StoreError → PartOutcome

-- How taking a part ended, the blobs behind it and the stream.
pub record Parted : Type 0 where
  pub outcome : Io PartOutcome
  pub blobs : Blobs
  pub input : Input

abbrev pub is_ok {ℓ} : {A : Type ℓ} → Io A → Bool
is_ok (ok a) = true
is_ok (err e) = false

-- `?` on a drain, and then the outcome
abbrev pub and_then : PartOutcome → Io (Unit {0}) → Io PartOutcome
and_then outcome (ok u) = ok outcome
and_then outcome (err e) = err e

result-cases :
    (r : Result StoreError Accepted)
    → ((a : Accepted) × (r ≡ ok a)) ⊎ ((e : StoreError) × (r ≡ err e))
result-cases (ok a) = inl (a, refl)
result-cases (err e) = inr (e, refl)

-- An outcome that records is for a draft that is open.
abbrev pub Fits : Bool → PartOutcome → Type 0
Fits known (recorded a) = known ≡ true
Fits known no_draft = known ≡ false
Fits known (failed e) = known ≡ true

module _ (write_all : List ℕ → List ℕ → Io (Unit {0})) (digest_of : List ℕ → Text) where
  unfoldable pub whole_part : Blobs → ℕ → Text → Bool → ℕ → Input → Parted
  unfolding accept drain
  whole_part blobs budget mime known declared input =
      let skipped = drain input declared in
      let taken = accept write_all digest_of blobs budget mime input declared in
      let rest = drain taken.input (declared - taken.consumed) in
      if not known
      then record { outcome = and_then no_draft skipped.0; blobs = blobs; input = skipped.1 }
      else elim taken.result [
        | ok accepted ↦ record {
          outcome = ok (recorded accepted);
          blobs = taken.blobs;
          input = taken.input;
        }
        | err error ↦ record {
          outcome = and_then (failed error) rest.0;
          blobs = taken.blobs;
          input = rest.1;
        }
      ]

  -- What `accept` takes off the stream, and that success takes all of it.
  abbrev Consumes : Input → ℕ → Acceptance → Type 0
  Consumes input declared out =
      (out.consumed ≤ declared)
      × (bytes_of out.input ≡ drop out.consumed (bytes_of input))
      × ((a : Accepted) → out.result ≡ ok a → out.consumed ≡ declared)

  -- The same of the copy into a blob.
  write_from-consumes :
      (blobs : Blobs) (input : Input) (declared : ℕ)
      → All Occupied input.buffers
      → let out = write_from write_all digest_of blobs input declared in
        (out.1.read ≤ declared)
        × (bytes_of out.1.input ≡ drop out.1.read (bytes_of input))
        × ((w : Written) → out.0.0 ≡ ok w → out.1.read ≡ declared)
  unfolding write_from
  write_from-consumes blobs input declared o =
      let (k, takes) = absorb-Takes write_all input [] declared o in
      let count : k ≡ (absorb write_all input [] declared).read = omega (arith, takes.1) in
      elim (written-cases (absorb write_all input [] declared).result) [
        | inl (er, w) ↦
            rw (w, write_from)
              (
                omega (arith, takes.0, count),
                takes.2 ∙ ap (λ n. drop n (bytes_of input)) count,
                λ a e. absurd (cc e),
              )
        | inr w ↦
            rw (w, write_from)
              (
                omega (arith, takes.0, count),
                takes.2 ∙ ap (λ n. drop n (bytes_of input)) count,
                λ a e. omega (arith, count, (takes.5 w).0),
              )
      ]

  accept-Consumes :
      (blobs : Blobs) (budget : ℕ) (mime : Text) (input : Input) (declared : ℕ)
      → All Occupied input.buffers
      → Consumes input declared (accept write_all digest_of blobs budget mime input declared)
  unfolding accept validate_mime
  accept-Consumes blobs budget mime input declared o = elim (Bool-cases (is_valid_mime mime)) [
    | inr v ↦ rw (v, validate_mime, accept) (omega arith, refl, λ a e. absurd (cc e))
    | inl v ↦ elim (Bool-cases (ltb budget declared)) [
      | inl b ↦ rw (v, b, validate_mime, accept) (omega arith, refl, λ a e. absurd (cc e))
      | inr b ↦
          let (most, left, all_of_it) = write_from-consumes blobs input declared o in
          elim (Result-cases (write_from write_all digest_of blobs input declared).0.0) [
            | inl (w, e) ↦ rw (v, b, e, validate_mime, accept) (most, left, λ a h. all_of_it w e)
            | inr (er, e) ↦ rw (v, b, e, validate_mime, accept) (most, left, λ a h. absurd (cc h))
          ]
    ]
  ]

  bytes-drain : (input : Input) (n : ℕ) → bytes_of (drain input n).1 ≡ drop n (bytes_of input)
  unfolding drain
  bytes-drain input n = flat-drain_buffers input.broken input.buffers n

  -- However a part that declares its length ends, exactly the declared bytes are gone from the
  -- stream, or all of it where it holds fewer.
  pub whole_part-aligned :
      (blobs : Blobs) (budget : ℕ) (mime : Text) (known : Bool) (declared : ℕ) (input : Input)
      → All Occupied input.buffers
      → bytes_of (whole_part blobs budget mime known declared input).input
        ≡ drop declared (bytes_of input)
  unfolding whole_part
  whole_part-aligned blobs budget mime false declared input o = bytes-drain input declared
  whole_part-aligned blobs budget mime true declared input o =
      let taken = accept write_all digest_of blobs budget mime input declared in
      let (most, left, all_of_it) = accept-Consumes blobs budget mime input declared o in
      elim (result-cases taken.result) [
        | inl (a, e) ↦ rw e (left ∙ ap (λ n. drop n (bytes_of input)) (all_of_it a e))
        | inr (er, e) ↦ rw e (
            bytes-drain taken.input (declared - taken.consumed)
            ∙ ap (drop (declared - taken.consumed)) left
            ∙ drop-drop taken.consumed (declared - taken.consumed) (bytes_of input)
            ∙ ap (λ n. drop n (bytes_of input)) (omega (arith, most)))
      ]

  drain_ok : (input : Input) (n : ℕ) → n ≤ length (bytes_of input) → (drain input n).0 ≡ ok tt
  unfolding drain
  drain_ok input n h = drain_buffers_ok input.broken input.buffers n (inl h)

  -- A stream that holds the declared bytes always leads to an outcome.
  pub whole_part_ok :
      (blobs : Blobs) (budget : ℕ) (mime : Text) (known : Bool) (declared : ℕ) (input : Input)
      → All Occupied input.buffers
      → declared ≤ length (bytes_of input)
      → (o : PartOutcome) × ((whole_part blobs budget mime known declared input).outcome ≡ ok o)
        × Fits known o
  unfolding whole_part
  whole_part_ok blobs budget mime false declared input o h =
      (no_draft, rw (drain_ok input declared h) refl, refl)
  whole_part_ok blobs budget mime true declared input o h =
      let taken = accept write_all digest_of blobs budget mime input declared in
      let (most, left, all_of_it) = accept-Consumes blobs budget mime input declared o in
      elim (result-cases taken.result) [
        | inl (a, e) ↦ (recorded a, rw e refl, refl)
        | inr (er, e) ↦
            let behind : length (bytes_of taken.input) ≡ length (bytes_of input) - taken.consumed =
              ap length left ∙ length-drop taken.consumed (bytes_of input) in
            let drained : (drain taken.input (declared - taken.consumed)).0 ≡ ok tt =
              drain_ok taken.input (declared - taken.consumed) (omega (arith, h, behind)) in
            (failed er, rw (e, drained) refl, refl)
      ]
