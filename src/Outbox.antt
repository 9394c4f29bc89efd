-- ===== src/Outbox.antt =====
-- daemon/src/outbox.rs: the frames that a connection is sent. `encode` is the JSON writer with its
-- newline, and `write_all` the socket: what is on the wire when bytes were written behind others.
pub mod Watchers
pub mod Ordering
pub mod Rounds
use rldyour_clipboard.Io.{IoError, invalid_data, unexpected_eof, Io}
use rldyour_clipboard.Proto.{Response, max_frame}
use rldyour_clipboard.Prelude.{
  ℕ, zero, suc, ◌+◌, ◌-◌, ◌*◌, ◌/◌, ◌%◌, ◌^◌, ◌≤◌, ◌<◌, min, ◌≡◌, refl, sym, ap, ◌∙◌, subst, ◌≢◌,
  ◌↔◌, ◌⊎◌, inl, inr, Bool, true, false, not, ◌&&◌, ◌||◌, Option, none, some, List, [], ◌∷◌, ◌++◌,
  map, append-nil, append_assoc, reverse, arith, ltb, leb, ◌==◌, if◌then◌else◌, ltb→lt, lt→ltb,
  leb→le, le→leb, ==_iff, Bool-cases, Option-cases, is_some, Result, ok, err, ◌>>=◌, length, take,
  drop, head_of, any, all, keep, find, All, length-append, length-take, length-drop,
  take-append-drop, length-keep-le, any-append, All-append, All-map, Text, codes, text_eq,
  text_eq_iff, text_eq_refl, text_le, text_mem, lower_char, to_ascii_lowercase, is_whitespace, trim,
  starts_with, ends_with_char, strip_prefix_char, utf8, sort_by, insert_by, IsSorted,
  length-sort_by, any-sort_by, All-sort_by, sort_by-IsSorted, sort_by_of_IsSorted, keep-sort_by,
  insert_by_least, All-keep, keep-All, keep-keep, All-take, All-map₂, List-cases, keep_congr,
  take_of_length-lt, Result-cases,
}

module _ (encode : Response → List ℕ) (write_all : List ℕ → List ℕ → Io (Unit {0}) × List ℕ) where
  unfoldable pub send : List ℕ → Response → Io (Unit {0}) × List ℕ
  send wire response =
      let frame = encode response in
      if ltb max_frame (length frame) then (err invalid_data, wire) else write_all wire frame

  -- The frame and then the payload, `bytes` of the content or what it has of them.
  unfoldable pub send_blob : List ℕ → Response → List ℕ → ℕ → Io (Unit {0}) × List ℕ
  send_blob wire response content bytes =
      let headed = write_all wire (encode response) in
      let copied = write_all headed.1 (take bytes content) in
      elim headed.0 [
        | err e ↦ (err e, headed.1)
        | ok u ↦ elim copied.0 [
          | err e ↦ (err e, copied.1)
          | ok v ↦
              if ltb (length content) bytes
              then (err unexpected_eof, copied.1)
              else (ok tt, copied.1)
        ]
      ]
