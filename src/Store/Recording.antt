-- ===== src/Store/Recording.antt =====
-- daemon/src/store/mod.rs: `commit`, which publishes a draft as an entry and makes room for it.
pub mod Retained
pub mod Fetched
use rldyour_clipboard.Store.Deriving.{Derived, Made, part_of, identity, derive}
use rldyour_clipboard.Index.Tables.{Tables, Part, Facts}
use rldyour_clipboard.Index.Changes.{touch, insert, evict_to, Evicted}
use rldyour_clipboard.Index.Queries.{summary}
use rldyour_clipboard.Io.{IoError, other, Input, Io}
use rldyour_clipboard.Blobs.{Blobs, Written, drop_lease}
use rldyour_clipboard.Store.{StoreError, io, db, larger, Accepted, write_from}
use rldyour_clipboard.Store.Sweeping.{sweep}
use rldyour_clipboard.Kind.{any_sensitive, rank, is_text, is_image, is_empty}
use rldyour_clipboard.Kind.Preview.{preview}
use rldyour_clipboard.Proto.{Summary}
use rldyour_clipboard.Config.{u64_max}
use rldyour_clipboard.Prelude.{
  ℕ, zero, suc, ◌+◌, ◌-◌, ◌*◌, ◌/◌, ◌%◌, ◌^◌, ◌≤◌, ◌<◌, min, ◌≡◌, refl, sym, ap, ◌∙◌, subst, ◌≢◌,
  ◌↔◌, ◌⊎◌, inl, inr, Bool, true, false, not, ◌&&◌, ◌||◌, Option, none, some, List, [], ◌∷◌, ◌++◌,
  map, append-nil, append_assoc, reverse, arith, ltb, leb, ◌==◌, if◌then◌else◌, ltb→lt, lt→ltb,
  leb→le, le→leb, ==_iff, Bool-cases, Option-cases, is_some, Result, ok, err, ◌>>=◌, length, take,
  drop, head_of, any, all, keep, find, All, length-append, length-take, length-drop,
  take-append-drop, length-keep-le, any-append, All-append, All-map, Text, codes, text_eq,
  text_eq_iff, text_eq_refl, text_le, text_mem, lower_char, to_ascii_lowercase, is_whitespace, trim,
  starts_with, ends_with_char, strip_prefix_char, utf8, sort_by, insert_by, IsSorted,
  length-sort_by, any-sort_by, All-sort_by, sort_by-IsSorted, sort_by_of_IsSorted, keep-sort_by,
  insert_by_least, All-keep, keep-All, keep-keep, All-take, All-map₂, List-cases, keep_congr,
  take_of_length-lt,
}

pub record Store : Type 0 where
  pub tables : Tables
  pub blobs : Blobs
  pub budget : ℕ

-- The summary is none where the code's `expect` would panic.
pub record Committed : Type 0 where
  pub entry : ℕ
  pub created : Bool
  pub summary : Option Summary
  pub evicted : List ℕ

unfoldable pub total : List Accepted → ℕ
total [] = 0
total (a ∷ rest) = a.bytes + total rest

-- What the second hold of the lock records: the entry, and whether it is new.
unfoldable pub record_entry :
    Tables → Text → List Accepted → Facts → ℕ → Result StoreError (Tables × ℕ × Bool)
unfolding touch insert
record_entry tables name accepted facts at =
    let touched = touch tables name at in
    elim touched.1 [
      | some entry ↦ ok (touched.0, entry, false)
      | none ↦ elim (insert tables name (map part_of accepted) facts at) [
        | err e ↦ err db
        | ok (changed, entry) ↦ ok (changed, entry, true)
      ]
    ]

-- The lease of a thumbnail ends with what was derived.
unfoldable pub drop_thumb : Option Written → Blobs → Blobs
unfolding drop_lease
drop_thumb none blobs = blobs
drop_thumb (some written) blobs = drop_lease blobs written.digest

abbrev pub thumb_digest : Option Written → List Text
thumb_digest none = []
thumb_digest (some written) = written.digest ∷ []

-- Everything behind the recording: room is made, and the files that nothing holds go.
unfoldable pub make_room : Store → Tables × ℕ × Bool → Option Written → Committed × Store
unfolding evict_to summary drop_thumb sweep
make_room store (tables, entry, created) thumbnail =
    let out = evict_to tables store.budget in
    let retained = not (any (λ id. id == entry) out.removed) in
    let dropped = drop_thumb thumbnail store.blobs in
    let swept = sweep out.tables dropped out.orphaned in
    (
      record {
        entry = if retained then entry else 0;
        created = created && retained;
        summary = summary tables entry;
        evicted = out.removed;
      },
      record store { tables = out.tables; blobs = sweep out.tables swept (thumb_digest thumbnail) },
    )

unfoldable pub with_source : Facts → Option Text → Facts
with_source facts source = record facts { source = source }

-- From the second hold of the lock on.
unfoldable pub publish :
    Store
    → Text
    → List Accepted
    → Derived
    → Option Text
    → ℕ
    → Result StoreError (Option Committed) × Store
unfolding record_entry make_room with_source
publish store name accepted derived source at =
    let facts = with_source derived.facts source in
    elim (record_entry store.tables name accepted facts at) [
      | err e ↦ (err e, record store { blobs = drop_thumb derived.thumbnail store.blobs })
      | ok recorded ↦
          let out = make_room store recorded derived.thumbnail in (ok (some out.0), out.1)
    ]

module _ (write_all : List ℕ → List ℕ → Io (Unit {0})) (digest_of : List ℕ → Text)
    (lossy : List ℕ → Text) (thumb_of_image : List ℕ → Made) where
  -- `meanwhile` is what other connections do to the store while the lock is not held.
  unfoldable pub commit :
      (Store → Store)
      → Store
      → List Accepted
      → Option Text
      → ℕ
      → Result StoreError (Option Committed) × Store
  unfolding any_sensitive total identity touch summary derive publish
  commit meanwhile store accepted source at =
      let bytes = total accepted in
      let name = identity digest_of accepted in
      let touched = touch store.tables name at in
      if is_empty accepted || any_sensitive (map (λ a. a.mime) accepted)
      then (ok none, store)
      else if ltb u64_max bytes || ltb store.budget bytes
      then (err larger, store)
      else elim touched.1 [
        | some existing ↦ (
          ok (
              some (record {
                entry = existing;
                created = false;
                summary = summary touched.0 existing;
                evicted = [];
              })),
          record store { tables = touched.0 },
        )
        | none ↦ elim (derive write_all digest_of lossy thumb_of_image store.blobs accepted) [
          | err e ↦ (err e, store)
          | ok (derived, blobs) ↦
              publish (meanwhile (record store { blobs = blobs })) name accepted derived source at
        ]
      ]
