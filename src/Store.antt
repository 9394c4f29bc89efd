-- ===== src/Store.antt =====
-- daemon/src/store/mod.rs: `accept`, which takes a representation of known length into the blobs.
pub mod Sweeping
pub mod Deriving
pub mod Incoming
pub mod Identity
pub mod Recording
pub mod Thumb
pub mod Keeping
pub mod Serving
pub mod Startup
pub mod Refinement
pub mod Sound
use rldyour_clipboard.Io.{IoError, invalid_input, Input, Io, bytes_of}
use rldyour_clipboard.Blobs.{Blobs, Written, Copied, absorb, finish}
use rldyour_clipboard.Config.{is_valid_mime}
use rldyour_clipboard.Proto.{Code, too_large, storage}
use rldyour_clipboard.Prelude.{
  ℕ, zero, suc, ◌+◌, ◌-◌, ◌*◌, ◌/◌, ◌%◌, ◌^◌, ◌≤◌, ◌<◌, min, ◌≡◌, refl, sym, ap, ◌∙◌, subst, ◌≢◌,
  ◌↔◌, ◌⊎◌, inl, inr, Bool, true, false, not, ◌&&◌, ◌||◌, Option, none, some, List, [], ◌∷◌, ◌++◌,
  map, append-nil, append_assoc, reverse, arith, ltb, leb, ◌==◌, if◌then◌else◌, ltb→lt, lt→ltb,
  leb→le, le→leb, ==_iff, Bool-cases, Option-cases, is_some, Result, ok, err, ◌>>=◌, length, take,
  drop, head_of, any, all, keep, find, All, length-append, length-take, length-drop,
  take-append-drop, length-keep-le, any-append, All-append, All-map, Text, codes, text_eq,
  text_eq_iff, text_eq_refl, text_le, text_mem, lower_char, to_ascii_lowercase, is_whitespace, trim,
  starts_with, ends_with_char, strip_prefix_char, utf8, sort_by, insert_by, IsSorted,
  length-sort_by, any-sort_by, All-sort_by, sort_by-IsSorted, sort_by_of_IsSorted, keep-sort_by,
  insert_by_least, All-keep, keep-All, keep-keep, All-take, All-map₂, List-cases, keep_congr,
  take_of_length-lt,
}

pub data StoreError : Type 0 where
  io : IoError → StoreError
  db : StoreError
  larger : StoreError

unfoldable pub code_of : StoreError → Code
code_of larger = too_large
code_of (io e) = storage
code_of db = storage

pub record Accepted : Type 0 where
  pub mime : Text
  pub digest : Text
  pub bytes : ℕ

-- What `accept` leaves: its result, the blobs, the stream and what it took off it.
pub record Acceptance : Type 0 where
  pub result : Result StoreError Accepted
  pub blobs : Blobs
  pub input : Input
  pub consumed : ℕ

unfoldable pub validate_mime : Text → Io (Unit {0})
validate_mime mime = if is_valid_mime mime then ok tt else err invalid_input

module _ (write_all : List ℕ → List ℕ → Io (Unit {0})) (digest_of : List ℕ → Text) where
  -- Blobs::write_from. A writer that is not finished removes its temporary.
  unfoldable pub write_from : Blobs → Input → ℕ → (Io Written × Blobs) × Copied
  unfolding finish
  write_from blobs input bytes =
      let out = absorb write_all input [] bytes in
      let done = finish digest_of blobs out.content in
      elim out.result [ err e ↦ ((err e, blobs), out) | ok u ↦ ((ok done.1, done.0), out) ]

  unfoldable pub accept : Blobs → ℕ → Text → Input → ℕ → Acceptance
  unfolding validate_mime write_from
  accept blobs budget mime input bytes = elim (validate_mime mime) [
    | err e ↦ record { result = err (io e); blobs = blobs; input = input; consumed = 0 }
    | ok u ↦
        let out = write_from blobs input bytes in
        if ltb budget bytes
        then record { result = err larger; blobs = blobs; input = input; consumed = 0 }
        else elim out.0.0 [
          | err e ↦ record {
            result = err (io e);
            blobs = out.0.1;
            input = out.1.input;
            consumed = out.1.read;
          }
          | ok written ↦ record {
            result = ok (record { mime = mime; digest = written.digest; bytes = written.bytes });
            blobs = out.0.1;
            input = out.1.input;
            consumed = out.1.read;
          }
        ]
  ]
