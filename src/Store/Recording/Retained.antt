-- ===== src/Store/Recording/Retained.antt =====
-- What a commit of daemon/src/store/mod.rs acknowledges, and what is in the index behind it.
use rldyour_clipboard.Index.Tables.{EntryRow, Tables, bytes, i64_max, has_id, find_entry}
use rldyour_clipboard.Index.Changes.{older, evict_to}
use rldyour_clipboard.Index.Queries.{summary, references}
use rldyour_clipboard.Index.Consistent.{IsConsistent}
use rldyour_clipboard.Index.Eviction.{evict_to-Evicts, queue, pins, unpinned}
use rldyour_clipboard.Index.Ids.{ids}
use rldyour_clipboard.Blobs.{Blobs, Written, drop_lease, file_exists}
use rldyour_clipboard.Store.Sweeping.{sweep, file_exists-sweep}
use rldyour_clipboard.Store.Recording.{Store, Committed, make_room, drop_thumb, thumb_digest}
use rldyour_clipboard.Prelude.{
  ℕ, ◌≤◌, ◌≡◌, refl, sym, ap, ◌∙◌, ◌⊎◌, inl, inr, Bool, true, false, not, ◌&&◌, ◌||◌, Option, none,
  some, List, [], ◌∷◌, arith, ◌==◌, Bool-cases, Option-cases, is_some, take, drop, any, keep,
  take-append-drop, any-append, Text, any-sort_by,
}

abbrev is_id : ℕ → ℕ → Bool
is_id i id = id == i

any-ids : (i : ℕ) (es : List EntryRow) → any (λ id. id == i) (ids es) ≡ has_id i es
any-ids i [] = refl
any-ids i (e ∷ es) = ap (λ b. (e.id == i) || b) (any-ids i es)

any-parted :
    (p q : EntryRow → Bool) (es : List EntryRow)
    → any p es ≡ (any p (keep (λ e. not (q e)) es) || any p (keep q es))
any-parted p q [] = refl
any-parted p q (e ∷ es) = ground (arith, any-parted p q es)

any-take-drop :
    (p : EntryRow → Bool) (n : ℕ) (es : List EntryRow)
    → any p es ≡ (any p (take n es) || any p (drop n es))
any-take-drop p n es =
    ap (any p) (sym (take-append-drop n es)) ∙ any-append p (take n es) (drop n es)

-- A row is either pinned or queues for eviction.
has_id-parted :
    (i : ℕ) (t : Tables) → has_id i t.entries ≡ (has_id i (pins t) || has_id i (queue t))
has_id-parted i t =
    any-parted (λ e. e.id == i) unpinned t.entries
    ∙ ap (λ b. has_id i (pins t) || b)
        (sym (any-sort_by older (λ e. e.id == i) (keep unpinned t.entries)))

-- What is not evicted is still there.
evict_to-retains :
    (t : Tables) (budget i : ℕ)
    → IsConsistent t
    → bytes t ≤ i64_max
    → has_id i t.entries ≡ true
    → any (λ id. id == i) (evict_to t budget).removed ≡ false
    → has_id i (evict_to t budget).tables.entries ≡ true
evict_to-retains t budget i c fits there kept =
    let r = evict_to t budget in
    let e = evict_to-Evicts t budget c fits in
    let gone : any (λ id. id == i) r.removed ≡ has_id i (take e.count (queue t)) =
      ap (any (λ id. id == i)) e.removed ∙ any-ids i (take e.count (queue t)) in
    ground (
      arith,
      gone,
      kept,
      there,
      has_id-parted i t,
      has_id-parted i r.tables,
      any-take-drop (λ e. e.id == i) e.count (queue t),
      ap (has_id i) e.spared,
      ap (has_id i) e.left,
    )

find_entry-has_id : (i : ℕ) (es : List EntryRow) → is_some (find_entry i es) ≡ has_id i es
find_entry-has_id i [] = refl
find_entry-has_id i (e ∷ es) = ground (arith, find_entry-has_id i es)

pub summary-has_id : (t : Tables) (i : ℕ) → is_some (summary t i) ≡ has_id i t.entries
unfolding summary
summary-has_id t i = elim (Option-cases (find_entry i t.entries)) [
  | inl e ↦ rw (e, summary) (sym (ap is_some e) ∙ find_entry-has_id i t.entries)
  | inr (r, e) ↦ rw (e, summary) (sym (ap is_some e) ∙ find_entry-has_id i t.entries)
]

-- A file that the index refers to outlives a sweep.
referenced_stays :
    (tables : Tables) (blobs : Blobs) (orphaned : List Text) (x : Text)
    → references tables x ≡ true
    → file_exists x (sweep tables blobs orphaned).files ≡ file_exists x blobs.files
referenced_stays tables blobs orphaned x h =
    ground (arith, h, file_exists-sweep tables blobs orphaned x)

pub files-drop_thumb :
    (thumbnail : Option Written) (blobs : Blobs) → (drop_thumb thumbnail blobs).files ≡ blobs.files
unfolding drop_thumb drop_lease
files-drop_thumb none blobs = refl
files-drop_thumb (some written) blobs = refl

-- What a commit leaves behind `record_entry`, where the tables that it recorded into are consistent
-- and hold the entry: they stay consistent and fit the budget, unless only pinned entries are left;
-- the summary exists; the entry acknowledged is in the index, or none is acknowledged; and every
-- file that the index refers to stays.
pub make_room-retains :
    (store : Store) (tables : Tables) (entry : ℕ) (created : Bool) (thumbnail : Option Written)
    → IsConsistent tables
    → bytes tables ≤ i64_max
    → has_id entry tables.entries ≡ true
    → let out : Committed × Store = make_room store (tables, entry, created) thumbnail in
      IsConsistent out.1.tables
      × ((bytes out.1.tables ≤ store.budget) ⊎ (queue out.1.tables ≡ []))
      × (is_some out.0.summary ≡ true)
      × ((out.0.entry ≡ 0) ⊎ ((out.0.entry ≡ entry) × (has_id entry out.1.tables.entries ≡ true)))
      × ((x : Text)
          → (references out.1.tables x && file_exists x out.1.blobs.files)
            ≡ (references out.1.tables x && file_exists x store.blobs.files))
unfolding make_room
make_room-retains store tables entry created thumbnail c fits there =
    let r = evict_to tables store.budget in
    let e = evict_to-Evicts tables store.budget c fits in
    (
      e.consistent,
      e.ended,
      summary-has_id tables entry ∙ there,
      elim (Bool-cases (any (λ id. id == entry) r.removed)) [
        | inl gone ↦ rw gone (inl refl)
        | inr kept ↦
            rw kept (inr (refl, evict_to-retains tables store.budget entry c fits there kept))
      ],
      λ x. elim (Bool-cases (references r.tables x)) [
        | inr free ↦ rw free refl
        | inl h ↦
            ap (λ b. references r.tables x && b)
              (referenced_stays r.tables
                  (sweep r.tables (drop_thumb thumbnail store.blobs) r.orphaned)
                  (thumb_digest thumbnail) x h
                ∙ referenced_stays r.tables (drop_thumb thumbnail store.blobs) r.orphaned x h
                ∙ ap (file_exists x) (files-drop_thumb thumbnail store.blobs))
      ],
    )
