-- ===== src/Store/Recording/Fetched.antt =====
-- What can be fetched behind a commit of daemon/src/store/mod.rs: the content that was committed.
use rldyour_clipboard.Index.Tables.{Tables, Facts}
use rldyour_clipboard.Index.Refs.Counts.{uses}
use rldyour_clipboard.Index.Changes.{touch, insert, next_id, evict_to, id_of_identity}
use rldyour_clipboard.Index.Consistent.{IsConsistent}
use rldyour_clipboard.Index.Dropping.{id_mem}
use rldyour_clipboard.Index.Insertion.{insert-Inserts}
use rldyour_clipboard.Index.Insertion.Rows.{has_distinct_mimes}
use rldyour_clipboard.Index.Eviction.{evict_to-keeps, evict_to-rows}
use rldyour_clipboard.Index.Locating.{locate-rows, located_used}
use rldyour_clipboard.Index.Queries.{references, locate, Location}
use rldyour_clipboard.Blobs.{Blobs, Written}
use rldyour_clipboard.Store.{StoreError, Accepted}
use rldyour_clipboard.Store.Sweeping.{sweep}
use rldyour_clipboard.Store.Deriving.{Derived, part_of, open_read, or_io}
use rldyour_clipboard.Store.Recording.{
  Store, Committed, record_entry, make_room, publish, drop_thumb, thumb_digest, with_source,
}
use rldyour_clipboard.Store.Recording.Retained.{files-drop_thumb}
use rldyour_clipboard.Store.Keeping.{open_part}
use rldyour_clipboard.Store.Keeping.Backed.{references-uses}
use rldyour_clipboard.Store.Refinement.{open_read-sweep}
use rldyour_clipboard.Prelude.{
  ℕ, ◌≡◌, refl, sym, ap, ◌∙◌, subst, inl, inr, Bool, true, false, Option, some, List, [], ◌∷◌, map,
  arith, ◌==◌, Bool-cases, Option-cases, is_some, Result, ok, ◌>>=◌, All, Text,
}

-- What the content of a digest is fetched as.
abbrev pub served : Accepted → Blobs → Result StoreError (Option (Text × List ℕ × ℕ))
served a blobs =
    or_io (open_read a.digest blobs.files) >>= λ content. ok (some (a.mime, content, a.bytes))

abbrev location : Accepted → Location
location a = record { mime = a.mime; digest = a.digest; bytes = a.bytes }

-- Making room leaves a representation of an entry that is not evicted where it is, with its content.
made_room_serves :
    (store : Store) (tables : Tables) (entry : ℕ) (created : Bool) (thumbnail : Option Written)
    (a : Accepted)
    → IsConsistent tables
    → locate tables entry (some a.mime) ≡ some (location a)
    → id_mem entry (evict_to tables store.budget).removed ≡ false
    → open_part (make_room store (tables, entry, created) thumbnail).1 entry (some a.mime)
      ≡ served a store.blobs
unfolding make_room open_part
made_room_serves store tables entry created thumbnail a c found kept =
    let r = evict_to tables store.budget in
    let dropped = drop_thumb thumbnail store.blobs in
    let still : locate r.tables entry (some a.mime) ≡ some (location a) =
      locate-rows r.tables tables entry (some a.mime) (evict_to-rows tables store.budget entry kept)
      ∙ found in
    let referred : references r.tables a.digest ≡ true =
      references-uses r.tables a.digest (evict_to-keeps tables store.budget c).0
      ∙ unfold uses in
        ground (arith, located_used r.tables entry (some a.mime) (location a) still) in
    rw (still, open_part)
      (ap (λ x. or_io x >>= (λ content. ok (some (a.mime, content, a.bytes))))
        (open_read-sweep r.tables (sweep r.tables dropped r.orphaned) a.digest
            (thumb_digest thumbnail) referred
          ∙ open_read-sweep r.tables dropped a.digest r.orphaned referred
          ∙ ap (open_read a.digest) (files-drop_thumb thumbnail store.blobs)))

made_room_serves_each :
    (store : Store) (tables : Tables) (entry : ℕ) (created : Bool) (thumbnail : Option Written)
    (parts : List Accepted)
    → IsConsistent tables
    → All
        (λ p.
          locate tables entry (some p.mime)
          ≡ some (record { mime = p.mime; digest = p.digest; bytes = p.bytes }))
        (map part_of parts)
    → id_mem entry (evict_to tables store.budget).removed ≡ false
    → All
        (λ a.
          open_part (make_room store (tables, entry, created) thumbnail).1 entry (some a.mime)
          ≡ served a store.blobs)
        parts
made_room_serves_each store tables entry created thumbnail [] c found kept = tt
made_room_serves_each store tables entry created thumbnail (a ∷ parts) c found kept = (
  made_room_serves store tables entry created thumbnail a c found.0 kept,
  made_room_serves_each store tables entry created thumbnail parts c found.1 kept,
)

-- New content is recorded under the next id.
recorded_new :
    (t t' : Tables) (name : Text) (parts : List Accepted) (facts : Facts) (at : ℕ)
    → is_some (id_of_identity name t.entries) ≡ false
    → insert t name (map part_of parts) facts at ≡ ok (t', next_id t.entries)
    → record_entry t name parts facts at ≡ ok (t', next_id t.entries, true)
unfolding record_entry touch
recorded_new t t' name parts facts at absent e =
    elim (Option-cases (id_of_identity name t.entries)) [
      | inl k ↦ rw (k, touch, e, record_entry) refl
      | inr (i, k) ↦ let found : true ≡ false = rw k at absent in absurd (cc found)
    ]

-- The entry that making room acknowledges is 0 or was not evicted.
acknowledged :
    (store : Store) (tables : Tables) (entry : ℕ) (created : Bool) (thumbnail : Option Written)
    → ((make_room store (tables, entry, created) thumbnail).0.entry == 0) ≡ false
    → (id_mem entry (evict_to tables store.budget).removed ≡ false)
      × ((make_room store (tables, entry, created) thumbnail).0.entry ≡ entry)
unfolding make_room
acknowledged store tables entry created thumbnail h =
    elim (Bool-cases (id_mem entry (evict_to tables store.budget).removed)) [
      | inl gone ↦ let zeroed : true ≡ false = rw gone at h in absurd (cc zeroed)
      | inr kept ↦ (kept, rw kept refl)
    ]

-- What a commit of new content acknowledges can be fetched: of an entry that eviction did not take at
-- once, each representation is served under its mime type, with the content that its file had and
-- the size that it was accepted with; on consistent tables, and where the draft names no mime type
-- twice.
pub publish_serves :
    (store : Store) (name : Text) (parts : List Accepted) (derived : Derived) (source : Option Text)
    (at : ℕ) (c : Committed) (after : Store)
    → IsConsistent store.tables
    → is_some (id_of_identity name store.tables.entries) ≡ false
    → has_distinct_mimes [] (map part_of parts) ≡ true
    → publish store name parts derived source at ≡ (ok (some c), after)
    → (c.entry == 0) ≡ false
    → All (λ a. open_part after c.entry (some a.mime) ≡ served a store.blobs) parts
unfolding publish
publish_serves store name parts derived source at c after consistent absent distinct e kept =
    let facts = with_source derived.facts source in
    let (t', inserted, i) =
      insert-Inserts store.tables name (map part_of parts) facts at consistent absent distinct in
    let id = next_id store.tables.entries in
    let room = make_room store (t', id, true) derived.thumbnail in
    let recorded = recorded_new store.tables t' name parts facts at absent inserted in
    let published : publish store name parts derived source at ≡ (ok (some room.0), room.1) =
      rw (recorded, publish) refl in
    let told : ok (some room.0) ≡ ok (some c) = ap (λ p. p.0) (sym published ∙ e) in
    let same : room.0 ≡ c = cc in
    let same_after : room.1 ≡ after = ap (λ p. p.1) (sym published ∙ e) in
    let ack =
      acknowledged store t' id true derived.thumbnail
        (ap (λ (r : Committed). r.entry == 0) same ∙ kept) in
    let served_room =
      made_room_serves_each store t' id true derived.thumbnail parts i.consistent i.located ack.0 in
    subst (λ n. All (λ a. open_part after n (some a.mime) ≡ served a store.blobs) parts)
      (sym ack.1 ∙ ap (λ (r : Committed). r.entry) same)
      (subst (λ s. All (λ a. open_part s id (some a.mime) ≡ served a store.blobs) parts) same_after
        served_room)
