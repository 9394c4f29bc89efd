-- ===== src/Index/Insertion/Rows.antt =====
-- The rows that the loop of `insert` in daemon/src/store/index.rs adds, and the keys of new rows.
use rldyour_clipboard.Index.Tables.{EntryRow, PartRow, Tables, Part, constraint, has_id}
use rldyour_clipboard.Index.Refs.{reference}
use rldyour_clipboard.Index.Refs.Counts.{
  refs, uses, part_uses, thumb_uses, thumb_is, IsPositive, refs-reference, reference-IsPositive,
}
use rldyour_clipboard.Index.Refs.Orphans.{IsDistinct, reference-IsDistinct}
use rldyour_clipboard.Index.Changes.{id_of_identity, next_id, part_has, insert_parts}
use rldyour_clipboard.Index.Consistent.Rows.{DistinctIds, DistinctIdentities}
use rldyour_clipboard.Kind.{rank}
use rldyour_clipboard.Prelude.{
  ℕ, ◌+◌, ◌<◌, ◌≡◌, refl, sym, ◌∙◌, subst, inl, inr, Bool, true, false, not, ◌&&◌, ◌||◌, Option,
  List, [], ◌∷◌, ◌++◌, map, append-nil, append_assoc, arith, ◌==◌, Bool-cases, is_some, ok, err,
  any, any-append, Text, text_eq, text_eq_iff, text_mem,
}

-- Consistent tables but for one thumbnail whose reference is yet to come.
pub record Pending (th : Option Text) (t : Tables) : Type 0 where
  pub counted : (x : Text) → refs x t.blobs + thumb_is x th ≡ uses x t
  pub positive : IsPositive t.blobs
  pub distinct_blobs : IsDistinct t.blobs
  pub parts_live : (id : ℕ) → any (λ p. p.entry == id) t.parts ≡ true → has_id id t.entries ≡ true

pub part_uses-append :
    (x : Text) (ps qs : List PartRow) → part_uses x (ps ++ qs) ≡ part_uses x ps + part_uses x qs
unfolding part_uses
part_uses-append x [] qs = omega arith
part_uses-append x (p ∷ ps) qs = omega (arith, part_uses-append x ps qs)

pub thumb_uses-append :
    (x : Text) (es fs : List EntryRow) → thumb_uses x (es ++ fs) ≡ thumb_uses x es + thumb_uses x fs
unfolding thumb_uses
thumb_uses-append x [] fs = omega arith
thumb_uses-append x (e ∷ es) fs = omega (arith, thumb_uses-append x es fs)

abbrev pub part_row : ℕ → Part → PartRow
part_row id p = record {
  entry = id;
  mime = p.mime;
  digest = p.digest;
  bytes = p.bytes;
  rank = rank p.mime;
}

abbrev pub add_part : Tables → ℕ → Part → Tables
add_part t id p = record t {
  parts = t.parts ++ part_row id p ∷ [];
  blobs = reference t.blobs p.digest p.bytes;
}

pub add_part-Pending :
    {th : Option Text} (t : Tables) (id : ℕ) (p : Part)
    → has_id id t.entries ≡ true
    → Pending th t
    → Pending th (add_part t id p)
add_part-Pending t id p live h = record {
  counted = λ x.
      unfold uses part_uses in
      ground (
        arith,
        refs-reference x t.blobs p.digest p.bytes,
        part_uses-append x t.parts (part_row id p ∷ []),
        h.counted x,
      );
  positive = reference-IsPositive t.blobs p.digest p.bytes h.positive;
  distinct_blobs = reference-IsDistinct t.blobs p.digest p.bytes h.distinct_blobs;
  parts_live = λ i k.
      ground (arith, any-append (λ q. q.entry == i) t.parts (part_row id p ∷ []), h.parts_live i);
}

pub record Added (th : Option Text) (t : Tables) (id : ℕ) (ps : List Part) (t' : Tables)
    : Type 0 where
  pub pending : Pending th t'
  pub entries : t'.entries ≡ t.entries
  pub fts : t'.fts ≡ t.fts
  pub parts : t'.parts ≡ t.parts ++ map (part_row id) ps

pub insert_parts-Added :
    {th : Option Text} (t : Tables) (id : ℕ) (ps : List Part) (t' : Tables)
    → has_id id t.entries ≡ true
    → Pending th t
    → insert_parts t id ps ≡ ok t'
    → Added th t id ps t'
unfolding insert_parts
insert_parts-Added t id [] t' live h e =
    let same : t ≡ t' = cc in
    subst (Added _ t id []) same
      (record { pending = h; entries = refl; fts = refl; parts = sym (append-nil t.parts) })
insert_parts-Added t id (p ∷ ps) t' live h e = elim (Bool-cases (part_has id p.mime t.parts)) [
  | inl clash ↦ absurd (ground arith)
  | inr free ↦
      let rest =
        insert_parts-Added (add_part t id p) id ps t' live (add_part-Pending t id p live h)
          (ground arith) in
      record {
        pending = rest.pending;
        entries = rest.entries;
        fts = rest.fts;
        parts = rest.parts ∙ append_assoc t.parts (part_row id p ∷ []) (map (part_row id) ps);
      }
]

-- Whether the parts name no mime type twice, and none of those seen before.
abbrev pub has_distinct_mimes : List Text → List Part → Bool
has_distinct_mimes seen [] = true
has_distinct_mimes seen (p ∷ ps) =
    not (text_mem p.mime seen) && has_distinct_mimes (p.mime ∷ seen) ps

pub part_has-add_part :
    (id : ℕ) (t : Tables) (p : Part) (seen : List Text)
    → ((m : Text) → part_has id m t.parts ≡ text_mem m seen)
    → (m : Text) → part_has id m (add_part t id p).parts ≡ text_mem m (p.mime ∷ seen)
unfolding text_mem
part_has-add_part id t p seen h m =
    ground (
      arith,
      any-append (λ q. (q.entry == id) && text_eq q.mime m) t.parts (part_row id p ∷ []),
      h m,
    )

pub insert_parts_total :
    (t : Tables) (id : ℕ) (ps : List Part) (seen : List Text)
    → ((m : Text) → part_has id m t.parts ≡ text_mem m seen)
    → has_distinct_mimes seen ps ≡ true
    → (t' : Tables) × (insert_parts t id ps ≡ ok t')
unfolding insert_parts
insert_parts_total t id [] seen h d = (t, refl)
insert_parts_total t id (p ∷ ps) seen h d =
    let (t', e) =
      insert_parts_total (add_part t id p) id ps (p.mime ∷ seen) (part_has-add_part id t p seen h)
        (ground arith) in
    (t', ground (arith, h p.mime))

pub insert_parts_clash :
    (t : Tables) (id : ℕ) (ps : List Part) (seen : List Text)
    → ((m : Text) → part_has id m t.parts ≡ text_mem m seen)
    → has_distinct_mimes seen ps ≡ false
    → insert_parts t id ps ≡ err constraint
unfolding insert_parts
insert_parts_clash t id [] seen h d = cc
insert_parts_clash t id (p ∷ ps) seen h d = elim (Bool-cases (text_mem p.mime seen)) [
  | inl old ↦ ground (arith, h p.mime)
  | inr new ↦ ground (
    arith,
    h p.mime,
    insert_parts_clash (add_part t id p) id ps (p.mime ∷ seen) (part_has-add_part id t p seen h)
        (ground arith),
  )
]

pub next_id_bound : (i : ℕ) (es : List EntryRow) → has_id i es ≡ true → i < next_id es
unfolding next_id
next_id_bound i [] h = cc
next_id_bound i (e ∷ es) h = ground (arith, next_id_bound i es)

pub next_id_fresh : (es : List EntryRow) → has_id (next_id es) es ≡ false
next_id_fresh es = elim (Bool-cases (has_id (next_id es) es)) [
  | inl h ↦ absurd (omega (arith, next_id_bound (next_id es) es h))
  | inr h ↦ h
]

pub has_id-append :
    (i : ℕ) (es : List EntryRow) (e : EntryRow)
    → has_id i (es ++ e ∷ []) ≡ (has_id i es || (e.id == i))
has_id-append i es e = ground (arith, any-append (λ r. r.id == i) es (e ∷ []))

pub append-DistinctIds :
    (es : List EntryRow) (e : EntryRow)
    → has_id e.id es ≡ false
    → DistinctIds es
    → DistinctIds (es ++ e ∷ [])
append-DistinctIds [] e f h = (refl, tt)
append-DistinctIds (r ∷ es) e f h =
    (ground (arith, has_id-append r.id es e), append-DistinctIds es e (ground arith) h.1)

pub identity-append :
    (i : Text) (es : List EntryRow) (e : EntryRow)
    → is_some (id_of_identity i (es ++ e ∷ []))
      ≡ (is_some (id_of_identity i es) || text_eq e.identity i)
identity-append i [] e = ground arith
identity-append i (r ∷ es) e = ground (arith, identity-append i es e)

pub append-DistinctIdentities :
    (es : List EntryRow) (e : EntryRow)
    → is_some (id_of_identity e.identity es) ≡ false
    → DistinctIdentities es
    → DistinctIdentities (es ++ e ∷ [])
append-DistinctIdentities [] e f h = (refl, tt)
append-DistinctIdentities (r ∷ es) e f h = (
  ground (
    arith,
    identity-append r.identity es e,
    text_eq_iff e.identity r.identity,
    text_eq_iff r.identity e.identity,
  ),
  append-DistinctIdentities es e (ground arith) h.1,
)
