-- ===== src/Index/Insertion.antt =====
-- What `insert` of daemon/src/store/index.rs adds, and when a constraint refuses it.
pub mod Rows
use rldyour_clipboard.Index.Tables.{
  BlobRow, EntryRow, PartRow, FtsRow, Tables, Part, Facts, DbError, constraint, has_id, find_entry,
}
use rldyour_clipboard.Index.Refs.{reference}
use rldyour_clipboard.Index.Refs.Counts.{
  refs, uses, part_uses, thumb_uses, thumb_is, one_if, IsPositive, refs-reference,
  reference-IsPositive,
}
use rldyour_clipboard.Index.Refs.Orphans.{IsDistinct, reference-IsDistinct}
use rldyour_clipboard.Index.Changes.{
  id_of_identity, next_id, part_has, insert_parts, insert_thumb, insert_body, thumb_digest,
  new_entry, insert,
}
use rldyour_clipboard.Index.Queries.{locate, Location}
use rldyour_clipboard.Index.Consistent.{IsConsistent}
use rldyour_clipboard.Index.Consistent.Rows.{DistinctIds, DistinctIdentities}
use rldyour_clipboard.Index.Insertion.Rows.{
  Pending, part_row, add_part, Added, insert_parts-Added, has_distinct_mimes, part_has-add_part,
  insert_parts_total, insert_parts_clash, next_id_fresh, has_id-append, append-DistinctIds,
  append-DistinctIdentities, thumb_uses-append,
}
use rldyour_clipboard.Prelude.{
  ℕ, zero, suc, ◌+◌, ◌-◌, ◌*◌, ◌/◌, ◌%◌, ◌^◌, ◌≤◌, ◌<◌, min, ◌≡◌, refl, sym, ap, ◌∙◌, subst, ◌≢◌,
  ◌↔◌, ◌⊎◌, inl, inr, Bool, true, false, not, ◌&&◌, ◌||◌, Option, none, some, List, [], ◌∷◌, ◌++◌,
  map, append-nil, append_assoc, reverse, arith, ltb, leb, ◌==◌, if◌then◌else◌, ltb→lt, lt→ltb,
  leb→le, le→leb, ==_iff, Bool-cases, Option-cases, is_some, Result, ok, err, ◌>>=◌, length, take,
  drop, head_of, any, all, keep, find, All, length-append, length-take, length-drop,
  take-append-drop, length-keep-le, any-append, All-append, All-map, Text, codes, text_eq,
  text_eq_iff, text_eq_refl, text_le, text_mem, lower_char, to_ascii_lowercase, is_whitespace, trim,
  starts_with, ends_with_char, strip_prefix_char, utf8, sort_by, insert_by, IsSorted,
  length-sort_by, any-sort_by, All-sort_by, sort_by-IsSorted, sort_by_of_IsSorted, keep-sort_by,
  insert_by_least, All-keep, keep-All, keep-keep, All-take, All-map₂, List-cases, keep_congr,
  take_of_length-lt,
}

abbrev pub with_row : Tables → Text → List Part → Facts → ℕ → Tables
with_row t identity parts facts at = record t {
  entries = t.entries ++ new_entry (next_id t.entries) identity parts facts at ∷ [];
}

new_row-Pending :
    (t : Tables) (identity : Text) (parts : List Part) (facts : Facts) (at : ℕ)
    → IsConsistent t
    → Pending (thumb_digest facts.thumb) (with_row t identity parts facts at)
unfolding new_entry
new_row-Pending t identity parts facts at c = record {
  counted = λ x.
      unfold uses thumb_uses in
      ground (
        arith,
        c.counted x,
        thumb_uses-append x t.entries (new_entry (next_id t.entries) identity parts facts at ∷ []),
      );
  positive = c.positive;
  distinct_blobs = c.distinct_blobs;
  parts_live = λ i h. ground (
    arith,
    c.parts_live i,
    has_id-append i t.entries (new_entry (next_id t.entries) identity parts facts at),
  );
}

insert_thumb-Pending :
    (t : Tables) (th : Option Part) → Pending (thumb_digest th) t → Pending none (insert_thumb t th)
unfolding insert_thumb
insert_thumb-Pending t none h = h
insert_thumb-Pending t (some p) h = record {
  counted =
      λ x. unfold uses in ground (arith, h.counted x, refs-reference x t.blobs p.digest p.bytes);
  positive = reference-IsPositive t.blobs p.digest p.bytes h.positive;
  distinct_blobs = reference-IsDistinct t.blobs p.digest p.bytes h.distinct_blobs;
  parts_live = h.parts_live;
}

-- What `insert_thumb` and `insert_body` leave alone.
insert_thumb_rest :
    (t : Tables) (th : Option Part)
    → ((insert_thumb t th).entries ≡ t.entries)
      × ((insert_thumb t th).parts ≡ t.parts)
      × ((insert_thumb t th).fts ≡ t.fts)
unfolding insert_thumb
insert_thumb_rest t none = (refl, refl, refl)
insert_thumb_rest t (some p) = (refl, refl, refl)

part_has_none :
    (id : ℕ) (m : Text) (ps : List PartRow)
    → any (λ p. p.entry == id) ps ≡ false
    → part_has id m ps ≡ text_mem m []
unfolding text_mem
part_has_none id m [] h = refl
part_has_none id m (p ∷ ps) h = ground (arith, part_has_none id m ps)

-- What `insert_body` changes: the search row of this entry alone.
record Indexed (t : Tables) (id : ℕ) (t' : Tables) : Type 0 where
  blobs : t'.blobs ≡ t.blobs
  entries : t'.entries ≡ t.entries
  parts : t'.parts ≡ t.parts
  live :
      (i : ℕ)
      → any (λ f. f.rowid == i) t'.fts ≡ true
      → (any (λ f. f.rowid == i) t.fts ≡ true) ⊎ (i ≡ id)

insert_body_total :
    (t : Tables) (id : ℕ) (body : Option Text)
    → any (λ f. f.rowid == id) t.fts ≡ false
    → (t' : Tables) × (insert_body t id body ≡ ok t') × Indexed t id t'
unfolding insert_body
insert_body_total t id none h =
    (t, refl, record { blobs = refl; entries = refl; parts = refl; live = λ i k. inl k })
insert_body_total t id (some body) h = (
  record t { fts = t.fts ++ record { rowid = id; body = body } ∷ [] },
  ground arith,
  record {
    blobs = refl;
    entries = refl;
    parts = refl;
    live = λ i k.
        ground
          (arith, any-append (λ f. f.rowid == i) t.fts (record { rowid = id; body = body } ∷ []));
  },
)

pub record Inserts (t : Tables) (identity : Text) (drafted : List Part) (facts : Facts) (at : ℕ)
    (t' : Tables) : Type 0 where
  pub consistent : IsConsistent t'
  pub fresh : has_id (next_id t.entries) t.entries ≡ false
  pub entries : t'.entries ≡ (with_row t identity drafted facts at).entries
  pub parts : t'.parts ≡ t.parts ++ map (part_row (next_id t.entries)) drafted
  pub located :
      All
        (λ p.
          locate t' (next_id t.entries) (some p.mime)
          ≡ some (record { mime = p.mime; digest = p.digest; bytes = p.bytes }))
        drafted

-- The tables before the search row is added, `u`, and after it, `v`.
with_body-IsConsistent :
    {t u v : Tables} (row : EntryRow)
    → IsConsistent t
    → has_id row.id t.entries ≡ false
    → is_some (id_of_identity row.identity t.entries) ≡ false
    → Pending none u
    → u.entries ≡ t.entries ++ row ∷ []
    → u.fts ≡ t.fts
    → Indexed u row.id v
    → IsConsistent v
with_body-IsConsistent {t} {u} {v} row c free absent p rows fts x = record {
  counted = λ d. unfold uses in rw (x.blobs, x.entries, x.parts) (ground (arith, p.counted d));
  positive = rw x.blobs p.positive;
  distinct_blobs = rw x.blobs p.distinct_blobs;
  distinct_ids = rw (x.entries, rows) (append-DistinctIds t.entries row free c.distinct_ids);
  distinct_identities =
      rw (x.entries, rows) (append-DistinctIdentities t.entries row absent c.distinct_identities);
  parts_live = λ i h. rw x.entries (p.parts_live i (rw x.parts at h));
  fts_live = λ i h. ground (
    arith,
    x.entries,
    rows,
    has_id-append i t.entries row,
    c.fts_live i,
    x.live i h,
    ap (any (λ f. f.rowid == i)) fts,
  );
}

find-append-none :
    (f : PartRow → Bool) (ps qs : List PartRow) → any f ps ≡ false → find f (ps ++ qs) ≡ find f qs
find-append-none f [] qs h = refl
find-append-none f (p ∷ ps) qs h = ground (arith, find-append-none f ps qs)

abbrev is_row : ℕ → Text → PartRow → Bool
is_row id m p = (p.entry == id) && text_eq p.mime m

find_rows :
    (id : ℕ) (rows old : List PartRow) (ps : List Part) (seen : List Text)
    → rows ≡ old ++ map (part_row id) ps
    → ((m : Text) → part_has id m old ≡ text_mem m seen)
    → has_distinct_mimes seen ps ≡ true
    → All (λ p. find (is_row id p.mime) rows ≡ some (part_row id p)) ps
find_rows id rows old [] seen e h d = tt
find_rows id rows old (p ∷ ps) seen e h d = (
  ap (find (is_row id p.mime)) e
      ∙ find-append-none (is_row id p.mime) old (part_row id p ∷ map (part_row id) ps)
          (h p.mime ∙ ground arith)
      ∙ ground (arith, text_eq_refl p.mime),
  find_rows id rows (old ++ part_row id p ∷ []) ps (p.mime ∷ seen)
      (e ∙ sym (append_assoc old (part_row id p ∷ []) (map (part_row id) ps)))
      (λ m.
        unfold text_mem in ground (arith, any-append (is_row id m) old (part_row id p ∷ []), h m))
      (ground arith),
)

locate_rows :
    (t' : Tables) (id : ℕ) (rows : List PartRow) (ps : List Part)
    → t'.parts ≡ rows
    → All (λ p. find (is_row id p.mime) rows ≡ some (part_row id p)) ps
    → All
        (λ p.
          locate t' id (some p.mime)
          ≡ some (record { mime = p.mime; digest = p.digest; bytes = p.bytes }))
        ps
unfolding locate
locate_rows t' id rows [] e h = tt
locate_rows t' id rows (p ∷ ps) e h = (rw (e, h.0), locate_rows t' id rows ps e h.1)

-- In consistent tables that hold no entry of this identity, parts of distinct mime types are
-- recorded: the tables stay consistent, the new row stands behind the others under an id that was
-- free, and each representation is located under its mime type with its digest and size.
pub insert-Inserts :
    (t : Tables) (identity : Text) (parts : List Part) (facts : Facts) (at : ℕ)
    → IsConsistent t
    → is_some (id_of_identity identity t.entries) ≡ false
    → has_distinct_mimes [] parts ≡ true
    → (t' : Tables) × (insert t identity parts facts at ≡ ok (t', next_id t.entries))
      × Inserts t identity parts facts at t'
unfolding insert
insert-Inserts t identity parts facts at c absent distinct =
    let id = next_id t.entries in
    let row = new_entry id identity parts facts at in
    let base = with_row t identity parts facts at in
    let free : has_id id t.entries ≡ false = next_id_fresh t.entries in
    let no_parts : any (λ p. p.entry == id) t.parts ≡ false = ground (arith, c.parts_live id) in
    let no_fts : any (λ f. f.rowid == id) t.fts ≡ false = ground (arith, c.fts_live id) in
    let unseen = λ (m : Text). part_has_none id m t.parts no_parts in
    let (t₁, e₁) = insert_parts_total base id parts [] unseen distinct in
    let live : has_id id base.entries ≡ true =
      unfold new_entry in ground (arith, has_id-append id t.entries row) in
    let added =
      insert_parts-Added base id parts t₁ live (new_row-Pending t identity parts facts at c) e₁ in
    let rest = insert_thumb_rest t₁ facts.thumb in
    let (t₂, e₂, body) =
      insert_body_total (insert_thumb t₁ facts.thumb) id facts.body
        (ap (any (λ f. f.rowid == id)) (rest.2 ∙ added.fts) ∙ no_fts) in
    let pending = insert_thumb-Pending t₁ facts.thumb added.pending in
    let rows = body.entries ∙ rest.0 ∙ added.entries in
    let part_rows = body.parts ∙ rest.1 ∙ added.parts in
    (
      t₂,
      rw (absent, e₁, e₂),
      record {
        consistent =
            with_body-IsConsistent row c free absent pending (rest.0 ∙ added.entries)
              (rest.2 ∙ added.fts) body;
        fresh = free;
        entries = rows;
        parts = part_rows;
        located =
            locate_rows t₂ id _ parts part_rows
              (find_rows id _ t.parts parts [] refl unseen distinct);
      },
    )

-- A draft that names one mime type twice is refused by the primary key of `part`.
pub insert_duplicate_mime :
    (t : Tables) (identity : Text) (parts : List Part) (facts : Facts) (at : ℕ)
    → IsConsistent t
    → has_distinct_mimes [] parts ≡ false
    → insert t identity parts facts at ≡ err constraint
unfolding insert
insert_duplicate_mime t identity parts facts at c clash =
    let id = next_id t.entries in
    let free : has_id id t.entries ≡ false = next_id_fresh t.entries in
    let no_parts : any (λ p. p.entry == id) t.parts ≡ false = ground (arith, c.parts_live id) in
    elim (Bool-cases (is_some (id_of_identity identity t.entries))) [
      | inl held ↦ rw held
      | inr absent ↦ rw (
        absent,
        insert_parts_clash (with_row t identity parts facts at) id parts []
            (λ m. part_has_none id m t.parts no_parts) clash,
      )
    ]
