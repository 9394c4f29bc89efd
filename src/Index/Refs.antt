-- ===== src/Index/Refs.antt =====
-- daemon/src/store/index.rs: how an entry takes and gives up its references to blobs.
-- A count is at least 0 here: SQLite's would pass below it only where the row is deleted at once.
pub mod Counts
pub mod Orphans
use rldyour_clipboard.Index.Tables.{
  BlobRow, PartRow, EntryRow, Tables, i64_max, option_list, find_entry,
}
use rldyour_clipboard.Prelude.{
  ℕ, zero, suc, ◌+◌, ◌-◌, ◌*◌, ◌/◌, ◌%◌, ◌^◌, ◌≤◌, ◌<◌, min, ◌≡◌, refl, sym, ap, ◌∙◌, subst, ◌≢◌,
  ◌↔◌, ◌⊎◌, inl, inr, Bool, true, false, not, ◌&&◌, ◌||◌, Option, none, some, List, [], ◌∷◌, ◌++◌,
  map, append-nil, append_assoc, reverse, arith, ltb, leb, ◌==◌, if◌then◌else◌, ltb→lt, lt→ltb,
  leb→le, le→leb, ==_iff, Bool-cases, Option-cases, is_some, Result, ok, err, ◌>>=◌, length, take,
  drop, head_of, any, all, keep, find, All, length-append, length-take, length-drop,
  take-append-drop, length-keep-le, any-append, All-append, All-map, Text, codes, text_eq,
  text_eq_iff, text_eq_refl, text_le, text_mem, lower_char, to_ascii_lowercase, is_whitespace, trim,
  starts_with, ends_with_char, strip_prefix_char, utf8, sort_by, insert_by, IsSorted,
  length-sort_by, any-sort_by, All-sort_by, sort_by-IsSorted, sort_by_of_IsSorted,
}

-- INSERT … ON CONFLICT(digest) DO UPDATE SET refs = refs + 1
unfoldable pub reference : List BlobRow → Text → ℕ → List BlobRow
reference [] digest bytes = record { digest = digest; bytes = bytes; refs = 1 } ∷ []
reference (b ∷ bs) digest bytes =
    if text_eq b.digest digest
    then record b { refs = b.refs + 1 } ∷ bs
    else b ∷ reference bs digest bytes

pub record Released : Type 0 where
  pub digests : List Text
  pub bytes : ℕ

-- i64::saturating_add of values that are not negative
abbrev pub saturating_add : ℕ → ℕ → ℕ
saturating_add a b = min (a + b) i64_max

-- UPDATE blob SET refs = refs - 1 WHERE digest = ?1
unfoldable pub decrement : List BlobRow → Text → List BlobRow
decrement [] digest = []
decrement (b ∷ bs) digest =
    (if text_eq b.digest digest then record b { refs = b.refs - 1 } else b) ∷ decrement bs digest

-- SELECT … FROM blob WHERE digest = ?1
unfoldable pub find_blob : List BlobRow → Text → Option BlobRow
find_blob [] digest = none
find_blob (b ∷ bs) digest = if text_eq b.digest digest then some b else find_blob bs digest

-- DELETE FROM blob WHERE digest = ?1
unfoldable pub delete_blob : List BlobRow → Text → List BlobRow
delete_blob [] digest = []
delete_blob (b ∷ bs) digest =
    if text_eq b.digest digest then delete_blob bs digest else b ∷ delete_blob bs digest

-- `(refs, bytes)` of a row, and `(0, 0)` where it is gone.
abbrev pub remaining : Option BlobRow → ℕ
remaining none = 0
remaining (some b) = b.refs

abbrev pub size : Option BlobRow → ℕ
size none = 0
size (some b) = b.bytes

-- One round of the loop of `release_entry`.
unfoldable pub release_digest : List BlobRow → Released → Text → List BlobRow × Released
unfolding decrement find_blob delete_blob
release_digest blobs done digest =
    let left = decrement blobs digest in
    let row = find_blob left digest in
    if leb (remaining row) 0
    then (
      delete_blob left digest,
      record {
        digests = done.digests ++ digest ∷ [];
        bytes = saturating_add done.bytes (size row);
      },
    )
    else (left, done)

unfoldable pub release_digests : List BlobRow → Released → List Text → List BlobRow × Released
unfolding release_digest
release_digests blobs done [] = (blobs, done)
release_digests blobs done (d ∷ ds) =
    let next = release_digest blobs done d in release_digests next.0 next.1 ds

-- SELECT digest FROM part WHERE entry = ?1
unfoldable pub part_digests : ℕ → List PartRow → List Text
part_digests entry [] = []
part_digests entry (p ∷ ps) =
    if p.entry == entry then p.digest ∷ part_digests entry ps else part_digests entry ps

-- SELECT thumb FROM entry WHERE id = ?1 AND thumb IS NOT NULL
unfoldable pub thumb_of : ℕ → List EntryRow → Option Text
thumb_of entry [] = none
thumb_of entry (e ∷ es) = if (e.id == entry) && is_some e.thumb then e.thumb else thumb_of entry es

-- Every digest that an entry refers to, as often as it does.
unfoldable pub held_digests : Tables → ℕ → List Text
unfolding part_digests thumb_of
held_digests t entry = part_digests entry t.parts ++ option_list (thumb_of entry t.entries)

unfoldable pub release_entry : Tables → ℕ → Tables × Released
unfolding release_digests held_digests
release_entry t entry =
    let out = release_digests t.blobs (record { digests = []; bytes = 0 }) (held_digests t entry) in
    (record t { blobs = out.0 }, out.1)
