-- ===== src/Examples/Archive.antt =====
-- A small archive, run through the index of daemon/src/store/index.rs.
use rldyour_clipboard.Index.Tables.{
  BlobRow, EntryRow, PartRow, Tables, Part, Facts, constraint, has_id, find_entry, bytes,
}
use rldyour_clipboard.Index.Refs.{release_entry}
use rldyour_clipboard.Index.Refs.Counts.{refs, known, uses}
use rldyour_clipboard.Index.Changes.{
  next_id, touch, insert, remove, clear, set_pinned, drop_entry, expire_before, evict_to,
}
use rldyour_clipboard.Index.Consistent.{IsConsistent}
use rldyour_clipboard.Index.Consistent.Rows.{without}
use rldyour_clipboard.Index.Removal.{remove-collects, clear-collects}
use rldyour_clipboard.Index.Expiry.{Expires, expire_before-Expires}
use rldyour_clipboard.Index.Eviction.{Evicts, evict_to-Evicts}
use rldyour_clipboard.Index.Insertion.{Inserts, insert-Inserts, insert_duplicate_mime}
use rldyour_clipboard.Index.Marks.{touch_held, set_pinned_lem, change_row}
use rldyour_clipboard.Index.Paging.{page_continues}
use rldyour_clipboard.Index.Listing.{page, clamp_limit, selected, newest, matching}
use rldyour_clipboard.Index.Queries.{like, escape_like}
use rldyour_clipboard.Index.Prefixes.{like-escape_like}
use rldyour_clipboard.Prelude.{
  ℕ, ◌≡◌, refl, Bool, true, false, ◌&&◌, Option, none, some, List, [], ◌∷◌, ◌++◌, arith, ltb, leb,
  ◌==◌, if◌then◌else◌, ok, err, take, keep, Text, codes, text_eq, text_eq_iff, text_mem,
  to_ascii_lowercase, starts_with, sort_by,
}

abbrev row : ℕ → Text → Option Text → Bool → ℕ → EntryRow
row id identity thumb pinned at = record {
  id = id;
  identity = identity;
  kind = codes "text";
  bytes = 4;
  preview = none;
  width = none;
  height = none;
  thumb = thumb;
  pinned = pinned;
  source = none;
  at = at;
}

abbrev part_of : ℕ → Text → Text → PartRow
part_of entry mime digest = record {
  entry = entry;
  mime = mime;
  digest = digest;
  bytes = 4;
  rank = 32;
}

abbrev blob : Text → ℕ → ℕ → BlobRow
blob digest n k = record { digest = digest; bytes = n; refs = k }

-- Two entries share the content `a`; the second is pinned and has a thumbnail.
abbrev pub archive : Tables
archive = record {
  blobs =
      blob (codes "a") 4 2
      ∷ blob (codes "b") 5 1
      ∷ blob (codes "c") 3 1
      ∷ blob (codes "d") 6 1
      ∷ [];
  entries =
      row 1 (codes "i1") none false 10
      ∷ row 2 (codes "i2") (some (codes "c")) true 20
      ∷ row 3 (codes "i3") none false 30
      ∷ [];
  parts =
      part_of 1 (codes "text/plain") (codes "a")
      ∷ part_of 2 (codes "text/plain") (codes "a")
      ∷ part_of 2 (codes "text/html") (codes "b")
      ∷ part_of 3 (codes "text/plain") (codes "d")
      ∷ [];
  fts = record { rowid = 1; body = codes "hello" } ∷ [];
}

archive_counted : (x : Text) → refs x archive.blobs ≡ uses x archive
unfolding refs uses
archive_counted x = ground (
  arith,
  text_eq_iff (codes "a") x,
  text_eq_iff (codes "b") x,
  text_eq_iff (codes "c") x,
  text_eq_iff (codes "d") x,
)

pub archive-IsConsistent : IsConsistent archive
unfolding refs known uses text_eq
archive-IsConsistent = record {
  counted = archive_counted;
  positive = λ x h. ground arith;
  distinct_blobs = (refl, (refl, (refl, (refl, tt))));
  distinct_ids = (refl, (refl, (refl, tt)));
  distinct_identities = (refl, (refl, (refl, tt)));
  parts_live = λ id h. ground arith;
  fts_live = λ id h. ground arith;
}

-- Removing the first entry orphans nothing: the second holds its content too.
shared_content : (remove archive 1).1 ≡ []
unfolding remove drop_entry release_entry text_eq
shared_content = refl

evicted_oldest : (evict_to archive 8).removed ≡ 1 ∷ 3 ∷ []
unfolding evict_to bytes text_eq
evicted_oldest = refl

expired_one : (expire_before archive 25 256).2 ≡ 1 ∷ []
unfolding expire_before
expired_one = refl

remove-collects_example :
    IsConsistent (remove archive 3).0
    × ((remove archive 3).0.entries ≡ without 3 archive.entries)
    × ((x : Text)
        → text_mem x (remove archive 3).1
          ≡ (ltb 0 (uses x archive) && (uses x (remove archive 3).0 == 0)))
remove-collects_example = remove-collects archive 3 archive-IsConsistent

clear-collects_example :
    IsConsistent (clear archive).0
    × ((clear archive).0.entries ≡ keep (λ e. e.pinned) archive.entries)
    × ((x : Text)
        → text_mem x (clear archive).1
          ≡ (ltb 0 (uses x archive) && (uses x (clear archive).0 == 0)))
clear-collects_example = clear-collects archive archive-IsConsistent

expire_before-Expires_example : Expires archive 25 256
expire_before-Expires_example = expire_before-Expires archive 25 256 archive-IsConsistent

evict_to-Evicts_example :
    Evicts 8 archive (record { tables = archive; orphaned = []; removed = [] }) (evict_to archive 8)
evict_to-Evicts_example =
    evict_to-Evicts archive 8 archive-IsConsistent (unfold bytes in omega arith)

abbrev drafted : List Part
drafted =
    record { mime = codes "text/plain"; digest = codes "d"; bytes = 6 }
    ∷ record { mime = codes "text/html"; digest = codes "e"; bytes = 7 }
    ∷ []

abbrev facts : Facts
facts = record {
  preview = none;
  width = none;
  height = none;
  thumb = none;
  source = none;
  body = some (codes "hi");
}

insert-Inserts_example :
    (t : Tables) × (insert archive (codes "i4") drafted facts 40 ≡ ok (t, next_id archive.entries))
    × Inserts archive (codes "i4") drafted facts 40 t
unfolding text_eq text_mem
insert-Inserts_example =
    insert-Inserts archive (codes "i4") drafted facts 40 archive-IsConsistent refl refl

abbrev twice : List Part
twice =
    record { mime = codes "text/plain"; digest = codes "d"; bytes = 6 }
    ∷ record { mime = codes "text/plain"; digest = codes "e"; bytes = 7 }
    ∷ []

insert_duplicate_mime_example : insert archive (codes "i4") twice facts 40 ≡ err constraint
unfolding text_eq text_mem
insert_duplicate_mime_example =
    insert_duplicate_mime archive (codes "i4") twice facts 40 archive-IsConsistent refl

touch_held_example :
    ((touch archive (codes "i1") 50).1 ≡ some 1)
    × IsConsistent (touch archive (codes "i1") 50).0
    × ((i : ℕ)
        → find_entry i (touch archive (codes "i1") 50).0.entries ≡ (
            if i == 1
            then change_row (λ e. record e { at = 50 }) (find_entry i archive.entries)
            else find_entry i archive.entries))
    × ((touch archive (codes "i1") 50).0.parts ≡ archive.parts)
    × ((touch archive (codes "i1") 50).0.blobs ≡ archive.blobs)
    × ((touch archive (codes "i1") 50).0.fts ≡ archive.fts)
unfolding text_eq
touch_held_example = touch_held archive (codes "i1") 50 1 archive-IsConsistent refl

set_pinned_lem_example :
    ((set_pinned archive 3 true).1 ≡ has_id 3 archive.entries)
    × IsConsistent (set_pinned archive 3 true).0
    × ((i : ℕ)
        → find_entry i (set_pinned archive 3 true).0.entries ≡ (
            if i == 3
            then change_row (λ e. record e { pinned = true }) (find_entry i archive.entries)
            else find_entry i archive.entries))
    × ((set_pinned archive 3 true).0.parts ≡ archive.parts)
    × ((set_pinned archive 3 true).0.blobs ≡ archive.blobs)
    × ((set_pinned archive 3 true).0.fts ≡ archive.fts)
set_pinned_lem_example = set_pinned_lem archive 3 true archive-IsConsistent

abbrev ascii_letter : ℕ → Bool
ascii_letter c = leb b'a' c && leb c b'z'

-- The page behind the pinned entry, which stands first: the newest of the others.
page_continues_example :
    page ascii_letter text_eq archive 1 (some 2) none none none
    ≡ take
        (clamp_limit 1)
        (row 3 (codes "i3") none false 30 ∷ row 1 (codes "i1") none false 10 ∷ [])
unfolding selected newest matching sort_by
page_continues_example =
    page_continues ascii_letter text_eq archive 1 none none none []
      (row 3 (codes "i3") none false 30 ∷ row 1 (codes "i1") none false 10 ∷ [])
      (row 2 (codes "i2") (some (codes "c")) true 20) archive-IsConsistent.distinct_ids refl

like-escape_like_example :
    like (escape_like (codes "a_b") ++ b'%' ∷ []) (codes "A_Bc")
    ≡ starts_with (to_ascii_lowercase (codes "A_Bc")) (to_ascii_lowercase (codes "a_b"))
like-escape_like_example = like-escape_like (codes "a_b") (codes "A_Bc")
