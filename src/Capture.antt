-- ===== src/Capture.antt =====
-- daemon/src/capture/mod.rs: the recorder, to which a platform's watcher hands a clipboard event.
pub mod Secrets
pub mod Windows
use rldyour_clipboard.Io.{IoError, Io}
use rldyour_clipboard.Kind.{any_sensitive, is_empty}
use rldyour_clipboard.Proto.{Response}
use rldyour_clipboard.Blobs.{Blobs}
use rldyour_clipboard.Store.{StoreError, Accepted, accept}
use rldyour_clipboard.Store.Deriving.{Made, cursor}
use rldyour_clipboard.Store.Sweeping.{discard}
use rldyour_clipboard.Store.Recording.{Store, Committed, commit}
use rldyour_clipboard.Session.Conversation.{Outside, commit_events}
use rldyour_clipboard.Prelude.{
  ℕ, zero, suc, ◌+◌, ◌-◌, ◌*◌, ◌/◌, ◌%◌, ◌^◌, ◌≤◌, ◌<◌, min, ◌≡◌, refl, sym, ap, ◌∙◌, subst, ◌≢◌,
  ◌↔◌, ◌⊎◌, inl, inr, Bool, true, false, not, ◌&&◌, ◌||◌, Option, none, some, List, [], ◌∷◌, ◌++◌,
  map, append-nil, append_assoc, reverse, arith, ltb, leb, ◌==◌, if◌then◌else◌, ltb→lt, lt→ltb,
  leb→le, le→leb, ==_iff, Bool-cases, Option-cases, is_some, Result, ok, err, ◌>>=◌, length, take,
  drop, head_of, any, all, keep, find, All, length-append, length-take, length-drop,
  take-append-drop, length-keep-le, any-append, All-append, All-map, Text, codes, text_eq,
  text_eq_iff, text_eq_refl, text_le, text_mem, lower_char, to_ascii_lowercase, is_whitespace, trim,
  starts_with, ends_with_char, strip_prefix_char, utf8, sort_by, insert_by, IsSorted,
  length-sort_by, any-sort_by, All-sort_by, sort_by-IsSorted, sort_by_of_IsSorted, keep-sort_by,
  insert_by_least, All-keep, keep-All, keep-keep, All-take, All-map₂, List-cases, keep_congr,
  take_of_length-lt, Result-cases,
}

-- A representation: its mime type and its content.
abbrev pub Offered : Type 0
Offered = Text × List ℕ

-- What a commit tells the watchers.
unfoldable pub events_of : Result StoreError (Option Committed) → List Response
unfolding commit_events
events_of (ok (some c)) = commit_events c
events_of (ok none) = []
events_of (err e) = []

module _ (o : Outside) where
  -- The loop over the parts: one that the store refuses is skipped.
  unfoldable pub accept_all : Blobs → ℕ → List Offered → List Accepted × Blobs
  unfolding accept
  accept_all blobs budget [] = ([], blobs)
  accept_all blobs budget ((mime, content) ∷ parts) =
      let taken =
        accept o.write_file o.digest_of blobs budget mime (cursor content) (length content) in
      let rest = accept_all taken.blobs budget parts in
      elim taken.result [ ok part ↦ (part ∷ rest.0, rest.1) | err e ↦ rest ]

  -- `Recorder::commit`
  unfoldable pub record_commit :
      (Store → Store) → Store → List Accepted → Option Text → ℕ → Store × List Response
  unfolding commit events_of discard
  record_commit meanwhile store accepted source now =
      let out =
        commit o.write_file o.digest_of o.lossy o.thumb_of_image meanwhile store accepted source
          now in
      (record out.1 { blobs = discard out.1.tables out.1.blobs accepted }, events_of out.0)

  -- `Recorder::record_borrowed`
  unfoldable pub record_event :
      (Store → Store) → Store → List Offered → Option Text → ℕ → Store × List Response
  unfolding any_sensitive accept_all record_commit
  record_event meanwhile store parts source now =
      let taken = accept_all store.blobs store.budget parts in
      if is_empty parts || any_sensitive (map (λ p. p.0) parts)
      then (store, [])
      else record_commit meanwhile (record store { blobs = taken.1 }) taken.0 source now
