-- ===== src/Store/Sound/Publishing.antt =====
-- What `commit` of daemon/src/store/mod.rs does to the store keeps it sound.
use rldyour_clipboard.Index.Tables.{Tables, Facts, has_id}
use rldyour_clipboard.Index.Refs.Counts.{uses, occurs, one_if, thumb_is, part_uses, thumb_uses}
use rldyour_clipboard.Index.Changes as Changes
use rldyour_clipboard.Index.Changes.{touch, insert, next_id, new_entry, evict_to, id_of_identity}
use rldyour_clipboard.Index.Consistent.{IsConsistent}
use rldyour_clipboard.Index.Insertion.{insert-Inserts, insert_duplicate_mime, Inserts}
use rldyour_clipboard.Index.Insertion.Rows.{
  part_row, has_distinct_mimes, has_id-append, part_uses-append, thumb_uses-append,
}
use rldyour_clipboard.Index.Marks.{touch-IsConsistent, uses-touch, touched_has_id}
use rldyour_clipboard.Index.Eviction.{evict_to-keeps}
use rldyour_clipboard.Io.{Io}
use rldyour_clipboard.Kind.{any_sensitive, is_empty}
use rldyour_clipboard.Config.{u64_max}
use rldyour_clipboard.Blobs.{Written, file_exists}
use rldyour_clipboard.Store.{StoreError, Accepted}
use rldyour_clipboard.Store.Deriving.{Derived, Made, part_of, identity, derive}
use rldyour_clipboard.Store.Recording.{
  Store, record_entry, make_room, publish, commit, drop_thumb, thumb_digest, with_source, total,
}
use rldyour_clipboard.Store.Recording.Retained.{files-drop_thumb}
use rldyour_clipboard.Store.Keeping.{swept}
use rldyour_clipboard.Store.Sound.{
  IsSound, weaken, holds, drop_lease-IsSound, swept-IsSound, sweep-IsSound, retabled-IsSound,
  tables-IsSound,
}
use rldyour_clipboard.Store.Sound.Taking.{with_blobs, Derives, derive-Derives}
use rldyour_clipboard.Prelude.{
  ℕ, ◌+◌, ◌≤◌, ◌≡◌, refl, ap, ◌∙◌, inl, inr, Bool, true, false, ◌||◌, Option, none, some, List, [],
  ◌∷◌, map, arith, ltb, Bool-cases, Option-cases, is_some, Result, ok, err, Text, text_eq,
  Result-cases,
}

-- The parts of a draft, recorded under an entry, are what the draft held.
part_uses-rows :
    (x : Text) (id : ℕ) (parts : List Accepted)
    → part_uses x (map (part_row id) (map part_of parts)) ≡ holds x parts
unfolding part_uses occurs
part_uses-rows x id [] = refl
part_uses-rows x id (p ∷ parts) =
    ap (λ n. one_if (text_eq p.digest x) + n) (part_uses-rows x id parts)

-- The tables that a draft was recorded into refer to nothing but what they did, what the draft
-- holds and its thumbnail, and they hold the entry.
abbrev pub Records : Tables → List Accepted → Facts → Result StoreError (Tables × ℕ × Bool) → Type 0
Records t parts facts (err e) = Unit
Records t parts facts (ok (t', entry, created)) =
    IsConsistent t'
    × (has_id entry t'.entries ≡ true)
    × ((x : Text)
        → uses x t' ≤ uses x t + holds x parts + thumb_is x (Changes.thumb_digest facts.thumb))

inserted-Records :
    (t t' : Tables) (name : Text) (parts : List Accepted) (facts : Facts) (at : ℕ)
    → Inserts t name (map part_of parts) facts at t'
    → Records t parts facts (ok (t', next_id t.entries, true))
inserted-Records t t' name parts facts at i =
    let row = new_entry (next_id t.entries) name (map part_of parts) facts at in
    (
      i.consistent,
      unfold new_entry in
          rw i.entries (ground (arith, has_id-append (next_id t.entries) t.entries row)),
      λ x.
          unfold uses thumb_uses new_entry in
          rw (i.entries, i.parts)
            (omega (
              arith,
              part_uses-append x t.parts (map (part_row (next_id t.entries)) (map part_of parts)),
              part_uses-rows x (next_id t.entries) parts,
              thumb_uses-append x t.entries (row ∷ []),
            )),
    )

-- The identity of a draft that `touch` does not find.
pub untouched :
    (t : Tables) (name : Text) (at : ℕ)
    → (touch t name at).1 ≡ none
    → is_some (id_of_identity name t.entries) ≡ false
unfolding touch
untouched t name at h = elim (Option-cases (id_of_identity name t.entries)) [
  | inl k ↦ ap is_some k
  | inr (i, k) ↦ let told : some i ≡ none = rw (k, touch) at h in cc
]

pub record_entry-Records :
    (t : Tables) (name : Text) (parts : List Accepted) (facts : Facts) (at : ℕ)
    → IsConsistent t
    → Records t parts facts (record_entry t name parts facts at)
unfolding record_entry
record_entry-Records t name parts facts at c = elim (Option-cases (touch t name at).1) [
  | inr (id, h) ↦
      rw (h, record_entry)
        (
          touch-IsConsistent t name at c,
          touched_has_id t name at id h,
          λ x. omega (arith, uses-touch x t name at),
        )
  | inl h ↦ elim (Bool-cases (has_distinct_mimes [] (map part_of parts))) [
    | inr clash ↦
        rw (h, insert_duplicate_mime t name (map part_of parts) facts at c clash, record_entry) tt
    | inl distinct ↦
        let (t', e, i) =
          insert-Inserts t name (map part_of parts) facts at c (untouched t name at h) distinct in
        rw (h, e, record_entry) (inserted-Records t t' name parts facts at i)
  ]
]

-- The reservations of a draft's parts on top of `r`.
abbrev pub with_parts : (Text → ℕ) → List Accepted → Text → ℕ
with_parts r parts x = r x + holds x parts

abbrev pub with_thumb : (Text → ℕ) → Option Written → Text → ℕ
with_thumb r thumbnail x = r x + occurs x (thumb_digest thumbnail)

drop_thumb-IsSound :
    (r : Text → ℕ) (store : Store) (thumbnail : Option Written)
    → IsSound (with_thumb r thumbnail) store
    → IsSound r (with_blobs store (drop_thumb thumbnail store.blobs))
unfolding drop_thumb occurs
drop_thumb-IsSound r store none i = weaken _ r store (λ x. omega arith) i
drop_thumb-IsSound r store (some w) i =
    drop_lease-IsSound r store w.digest (weaken _ _ store (λ x. omega arith) i)

make_room-IsSound :
    (r : Text → ℕ) (store : Store) (tables : Tables) (entry : ℕ) (created : Bool)
    (thumbnail : Option Written)
    → IsSound (with_thumb r thumbnail) store
    → IsConsistent tables
    → ((x : Text) → ltb 0 (uses x tables) ≡ true → file_exists x store.blobs.files ≡ true)
    → IsSound r (make_room store (tables, entry, created) thumbnail).1
unfolding make_room
make_room-IsSound r store tables entry created thumbnail i c there =
    let dropped = with_blobs store (drop_thumb thumbnail store.blobs) in
    let kept = evict_to-keeps tables store.budget c in
    unfold swept in
    sweep-IsSound r
      (swept dropped (evict_to tables store.budget).tables (evict_to tables store.budget).orphaned)
      (thumb_digest thumbnail)
      (swept-IsSound r dropped (evict_to tables store.budget).tables
        (evict_to tables store.budget).orphaned (drop_thumb-IsSound r store thumbnail i) kept.0
        (λ x h.
          ap (file_exists x) (files-drop_thumb thumbnail store.blobs)
          ∙ there x (ground (arith, h, kept.1 x))))

pub publish-IsSound :
    (r : Text → ℕ) (store : Store) (name : Text) (parts : List Accepted) (derived : Derived)
    (source : Option Text) (at : ℕ)
    → IsSound (with_thumb (with_parts r parts) derived.thumbnail) store
    → ((x : Text)
        → thumb_is x (Changes.thumb_digest derived.facts.thumb)
          ≤ occurs x (thumb_digest derived.thumbnail))
    → IsSound (with_parts r parts) (publish store name parts derived source at).1
unfolding publish with_source
publish-IsSound r store name parts derived source at i own =
    let facts = with_source derived.facts source in
    let recorded = record_entry-Records store.tables name parts facts at i.backed.consistent in
    elim (Result-cases (record_entry store.tables name parts facts at)) [
      | inr (e, k) ↦
          rw (k, publish) (drop_thumb-IsSound (with_parts r parts) store derived.thumbnail i)
      | inl ((t, entry, created), k) ↦
          let told : Records store.tables parts facts (ok (t, entry, created)) = rw k at recorded in
          rw (k, publish)
            (make_room-IsSound (with_parts r parts) store t entry created derived.thumbnail i told.0
              (λ x h. elim (Bool-cases (ltb 0 (uses x store.tables))) [
                | inl old ↦ i.backed.backed x old
                | inr new ↦ i.leased x (ground (arith, h, new, told.2 x, own x, i.reserved-le x))
              ]))
    ]

-- The second hold of the lock, with no sweep behind it yet.
pub recorded-IsSound :
    (r : Text → ℕ) (store : Store) (name : Text) (parts : List Accepted) (facts : Facts) (at : ℕ)
    (thumbnail : Option Written) (t : Tables) (entry : ℕ) (created : Bool)
    → IsSound (with_thumb (with_parts r parts) thumbnail) store
    → ((x : Text)
        → thumb_is x (Changes.thumb_digest facts.thumb) ≤ occurs x (thumb_digest thumbnail))
    → record_entry store.tables name parts facts at ≡ ok (t, entry, created)
    → IsSound
        (with_thumb (with_parts r parts) thumbnail)
        (record store { tables = (evict_to t store.budget).tables })
recorded-IsSound r store name parts facts at thumbnail t entry created i own k =
    let recorded = record_entry-Records store.tables name parts facts at i.backed.consistent in
    let told : Records store.tables parts facts (ok (t, entry, created)) = rw k at recorded in
    let kept = evict_to-keeps t store.budget told.0 in
    tables-IsSound _ store (evict_to t store.budget).tables i kept.0 (λ x h.
      elim (Bool-cases (ltb 0 (uses x store.tables))) [
        | inl old ↦ i.backed.backed x old
        | inr new ↦ i.leased x (ground (arith, h, kept.1 x, new, told.2 x, own x, i.reserved-le x))
      ])

module _ (write_all : List ℕ → List ℕ → Io (Unit {0})) (digest_of : List ℕ → Text)
    (lossy : List ℕ → Text) (thumb_of_image : List ℕ → Made) where
  -- A commit keeps the store sound, whatever it answers, if what other connections do meanwhile
  -- does.
  pub commit-IsSound :
      (meanwhile : Store → Store) (r : Text → ℕ) (store : Store) (parts : List Accepted)
      (source : Option Text) (at : ℕ)
      → ((s : Text → ℕ) (other : Store) → IsSound s other → IsSound s (meanwhile other))
      → IsSound (with_parts r parts) store
      → IsSound
          (with_parts r parts)
          (commit write_all digest_of lossy thumb_of_image meanwhile store parts source at).1
  unfolding commit
  commit-IsSound meanwhile r store parts source at others i =
      let name = identity digest_of parts in
      elim (Bool-cases (is_empty parts || any_sensitive (map (λ a. a.mime) parts))) [
        | inl h ↦ rw (h, commit) i
        | inr h ↦ elim (Bool-cases (ltb u64_max (total parts) || ltb store.budget (total parts))) [
          | inl k ↦ rw (h, k, commit) i
          | inr k ↦ elim (Option-cases (touch store.tables name at).1) [
            | inr (id, e) ↦
                rw (h, k, e, commit)
                  (retabled-IsSound (with_parts r parts) store (touch store.tables name at).0
                    (touch-IsConsistent store.tables name at i.backed.consistent)
                    (λ x. uses-touch x store.tables name at) i)
            | inl e ↦
                let d =
                  derive-Derives write_all digest_of lossy thumb_of_image (with_parts r parts) store
                    parts i in
                elim (Result-cases
                  (derive write_all digest_of lossy thumb_of_image store.blobs parts)) [
                    | inr (er, q) ↦ rw (h, k, e, q, commit) i
                    | inl ((derived, blobs), q) ↦
                        let told : Derives write_all digest_of lossy thumb_of_image
                            (with_parts r parts) store (ok (derived, blobs)) =
                          rw q at d in
                        rw (h, k, e, q, commit)
                          (publish-IsSound r (meanwhile (with_blobs store blobs)) name parts derived
                            source at (others _ (with_blobs store blobs) told.0) told.1)
                  ]
          ]
        ]
      ]
