-- ===== src/Index/Dropping.antt =====
-- What dropping one entry does to the tables of daemon/src/store/index.rs: `remove`, and the rounds
-- of `clear`, `evict_to` and `expire_before`.
use rldyour_clipboard.Index.Tables.{EntryRow, PartRow, Tables, has_id, bytes, i64_max}
use rldyour_clipboard.Index.Refs.{held_digests, part_digests, release_entry, Released}
use rldyour_clipboard.Index.Refs.Counts.{
  refs, uses, occurs, refs-release_digests, release_digests-IsPositive,
}
use rldyour_clipboard.Index.Refs.Orphans.{
  text_mem-append, release_digests-IsDistinct, mem-release_digests, bytes-release_digests,
}
use rldyour_clipboard.Index.Changes.{drop_entry, delete_entry, drop_entries}
use rldyour_clipboard.Index.Consistent.{IsConsistent}
use rldyour_clipboard.Index.Consistent.Rows.{
  DistinctIds, without, thumb_absent, has_id-without, without-DistinctIds,
  without-DistinctIdentities, uses-delete_entry, live_parts_without, live_fts_without,
}
use rldyour_clipboard.Prelude.{
  ℕ, ◌+◌, ◌-◌, ◌≤◌, ◌≡◌, refl, sym, ap, ◌∙◌, inl, inr, Bool, true, false, not, ◌&&◌, ◌||◌, List, [],
  ◌∷◌, ◌++◌, map, append-nil, arith, ltb, ◌==◌, Bool-cases, any, keep, Text, text_mem,
}

abbrev no_release : Released
no_release = record { digests = []; bytes = 0 }

pub uses-drop_entry :
    (x : Text) (t : Tables) (id : ℕ)
    → DistinctIds t.entries
    → uses x (drop_entry t id).0 + occurs x (held_digests t id) ≡ uses x t
unfolding drop_entry release_entry uses delete_entry
uses-drop_entry x t id h = unfold uses delete_entry in uses-delete_entry x t id h

refs-drop_entry :
    (x : Text) (t : Tables) (id : ℕ)
    → refs x (drop_entry t id).0.blobs ≡ refs x t.blobs - occurs x (held_digests t id)
unfolding drop_entry release_entry delete_entry
refs-drop_entry x t id = refs-release_digests x t.blobs no_release (held_digests t id)

pub entries-drop_entry : (t : Tables) (id : ℕ) → (drop_entry t id).0.entries ≡ without id t.entries
unfolding drop_entry release_entry delete_entry
entries-drop_entry t id = refl

parts_live_drop :
    (t : Tables) (id : ℕ)
    → IsConsistent t
    → (i : ℕ) → any (λ p. p.entry == i) (drop_entry t id).0.parts ≡ true
    → has_id i (drop_entry t id).0.entries ≡ true
unfolding drop_entry release_entry delete_entry
parts_live_drop t id c i h =
    ground (arith, live_parts_without i id t.parts, has_id-without i id t.entries, c.parts_live i)

fts_live_drop :
    (t : Tables) (id : ℕ)
    → IsConsistent t
    → (i : ℕ) → any (λ f. f.rowid == i) (drop_entry t id).0.fts ≡ true
    → has_id i (drop_entry t id).0.entries ≡ true
unfolding drop_entry release_entry delete_entry
fts_live_drop t id c i h =
    ground (arith, live_fts_without i id t.fts, has_id-without i id t.entries, c.fts_live i)

pub drop_entry-IsConsistent :
    (t : Tables) (id : ℕ) → IsConsistent t → IsConsistent (drop_entry t id).0
drop_entry-IsConsistent t id c = record {
  counted = λ x.
      omega (arith, refs-drop_entry x t id, uses-drop_entry x t id c.distinct_ids, c.counted x);
  positive =
      unfold drop_entry release_entry delete_entry in
      release_digests-IsPositive t.blobs no_release (held_digests t id) c.positive;
  distinct_blobs =
      unfold drop_entry release_entry delete_entry in
      release_digests-IsDistinct t.blobs no_release (held_digests t id) c.distinct_blobs;
  distinct_ids = rw entries-drop_entry (without-DistinctIds id t.entries c.distinct_ids);
  distinct_identities =
      rw entries-drop_entry (without-DistinctIdentities id t.entries c.distinct_identities);
  parts_live = parts_live_drop t id c;
  fts_live = fts_live_drop t id c;
}

-- Orphaned are exactly the digests that this entry was the last to refer to.
pub orphans-drop_entry :
    (x : Text) (t : Tables) (id : ℕ)
    → IsConsistent t
    → text_mem x (drop_entry t id).1.digests
      ≡ (ltb 0 (uses x t) && (uses x (drop_entry t id).0 == 0))
orphans-drop_entry x t id c =
    unfold drop_entry release_entry text_mem in
    ground (
      arith,
      mem-release_digests x t.blobs no_release (held_digests t id),
      uses-drop_entry x t id c.distinct_ids,
      c.counted x,
    )

pub bytes-drop_entry :
    (t : Tables) (id : ℕ)
    → IsConsistent t
    → bytes t ≤ i64_max
    → (drop_entry t id).1.bytes + bytes (drop_entry t id).0 ≡ bytes t
unfolding drop_entry release_entry delete_entry bytes
bytes-drop_entry t id c fits = omega (
  arith,
  bytes-release_digests t.blobs no_release (held_digests t id) c.distinct_blobs (omega arith),
)

-- The loop over several entries.
pub drop_entries-IsConsistent :
    (t : Tables) (orphaned : List Text) (ids : List ℕ)
    → IsConsistent t
    → IsConsistent (drop_entries t orphaned ids).0
unfolding drop_entries
drop_entries-IsConsistent t orphaned [] c = c
drop_entries-IsConsistent t orphaned (id ∷ ids) c =
    drop_entries-IsConsistent (drop_entry t id).0 _ ids (drop_entry-IsConsistent t id c)

pub uses-drop_entries-le :
    (x : Text) (t : Tables) (orphaned : List Text) (ids : List ℕ)
    → IsConsistent t
    → uses x (drop_entries t orphaned ids).0 ≤ uses x t
unfolding drop_entries
uses-drop_entries-le x t orphaned [] c = omega arith
uses-drop_entries-le x t orphaned (id ∷ ids) c = omega (
  arith,
  uses-drop_entry x t id c.distinct_ids,
  uses-drop_entries-le x (drop_entry t id).0 (orphaned ++ (drop_entry t id).1.digests) ids
      (drop_entry-IsConsistent t id c),
)

pub orphans-drop_entries :
    (x : Text) (t : Tables) (orphaned : List Text) (ids : List ℕ)
    → IsConsistent t
    → text_mem x (drop_entries t orphaned ids).1
      ≡ (text_mem x orphaned || (ltb 0 (uses x t) && (uses x (drop_entries t orphaned ids).0 == 0)))
unfolding drop_entries
orphans-drop_entries x t orphaned [] c = ground arith
orphans-drop_entries x t orphaned (id ∷ ids) c = ground (
  arith,
  text_mem-append x orphaned (drop_entry t id).1.digests,
  orphans-drop_entry x t id c,
  uses-drop_entry x t id c.distinct_ids,
  uses-drop_entries-le x (drop_entry t id).0 (orphaned ++ (drop_entry t id).1.digests) ids
      (drop_entry-IsConsistent t id c),
  orphans-drop_entries x (drop_entry t id).0 (orphaned ++ (drop_entry t id).1.digests) ids
      (drop_entry-IsConsistent t id c),
)

keep_all : (es : List EntryRow) → keep (λ e. true) es ≡ es
keep_all [] = refl
keep_all (e ∷ es) = ap (◌∷◌ e) (keep_all es)

abbrev pub id_mem : ℕ → List ℕ → Bool
id_mem i ids = any (λ j. j == i) ids

keep-without :
    (id : ℕ) (ids : List ℕ) (es : List EntryRow)
    → keep (λ e. not (id_mem e.id ids)) (without id es)
      ≡ keep (λ e. not (id_mem e.id (id ∷ ids))) es
keep-without id ids [] = refl
keep-without id ids (e ∷ es) = ground (arith, keep-without id ids es)

pub entries-drop_entries :
    (t : Tables) (orphaned : List Text) (ids : List ℕ)
    → (drop_entries t orphaned ids).0.entries ≡ keep (λ e. not (id_mem e.id ids)) t.entries
unfolding drop_entries
entries-drop_entries t orphaned [] = sym (keep_all t.entries)
entries-drop_entries t orphaned (id ∷ ids) =
    entries-drop_entries (drop_entry t id).0 _ ids
    ∙ ap (keep (λ e. not (id_mem e.id ids))) (entries-drop_entry t id)
    ∙ keep-without id ids t.entries

part_digests_absent :
    (id : ℕ) (ps : List PartRow) → any (λ p. p.entry == id) ps ≡ false → part_digests id ps ≡ []
unfolding part_digests
part_digests_absent id [] h = refl
part_digests_absent id (p ∷ ps) h = ground (arith, part_digests_absent id ps)

-- An id that no entry has holds nothing.
pub held_absent :
    (x : Text) (t : Tables) (id : ℕ)
    → IsConsistent t
    → has_id id t.entries ≡ false
    → occurs x (held_digests t id) ≡ 0
unfolding held_digests occurs
held_absent x t id c h = ground (
  arith,
  part_digests_absent id t.parts,
  thumb_absent id t.entries h,
  c.parts_live id,
  append-nil (part_digests id t.parts),
)

ids_mem_of_keep :
    (i : ℕ) (p : EntryRow → Bool) (es : List EntryRow)
    → has_id i es ≡ false
    → id_mem i (map (λ e. e.id) (keep p es)) ≡ false
ids_mem_of_keep i p [] h = refl
ids_mem_of_keep i p (e ∷ es) h = ground (arith, ids_mem_of_keep i p es)

keep_fresh :
    (i : ℕ) (ids : List ℕ) (es : List EntryRow)
    → has_id i es ≡ false
    → keep (λ e. not (id_mem e.id (i ∷ ids))) es ≡ keep (λ e. not (id_mem e.id ids)) es
keep_fresh i ids [] h = refl
keep_fresh i ids (e ∷ es) h = ground (arith, keep_fresh i ids es)

-- With unique ids, dropping the ids of the rows that pass a test drops those rows.
pub keep_ids :
    (p : EntryRow → Bool) (es : List EntryRow)
    → DistinctIds es
    → keep (λ e. not (id_mem e.id (map (λ e. e.id) (keep p es)))) es ≡ keep (λ e. not (p e)) es
keep_ids p [] h = refl
keep_ids p (e ∷ es) h = elim (Bool-cases (p e)) [
  | inl q ↦
      ground (
        arith,
        keep_fresh e.id (map (λ (r : EntryRow). r.id) (keep p es)) es h.0,
        keep_ids p es h.1,
      )
  | inr q ↦ ground (arith, ids_mem_of_keep e.id p es h.0, keep_ids p es h.1)
]

pub keep-not-not :
    (es : List EntryRow) → keep (λ e. not (not e.pinned)) es ≡ keep (λ e. e.pinned) es
keep-not-not [] = refl
keep-not-not (e ∷ es) = ground (arith, keep-not-not es)
