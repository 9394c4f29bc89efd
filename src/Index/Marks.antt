-- ===== src/Index/Marks.antt =====
-- What `touch` and `set_pinned` of daemon/src/store/index.rs change: one column of one row.
use rldyour_clipboard.Index.Tables.{EntryRow, Tables, has_id, find_entry}
use rldyour_clipboard.Index.Refs.Counts.{uses, thumb_uses, part_uses}
use rldyour_clipboard.Index.Changes.{id_of_identity, set_at, touch, pin_rows, set_pinned}
use rldyour_clipboard.Index.Consistent.{IsConsistent}
use rldyour_clipboard.Index.Consistent.Rows.{DistinctIds, DistinctIdentities}
use rldyour_clipboard.Prelude.{
  ℕ, ◌+◌, ◌≡◌, refl, sym, ap, ◌∙◌, subst, inl, inr, Bool, true, Option, none, some, List, [], ◌∷◌,
  arith, ◌==◌, if◌then◌else◌, Bool-cases, Option-cases, is_some, Text,
}

-- Row by row, the two lists agree on ids, identities and thumbnails.
abbrev SameKeys : List EntryRow → List EntryRow → Type 0
SameKeys [] [] = Unit
SameKeys [] (f ∷ fs) = ⊥
SameKeys (e ∷ es) [] = ⊥
SameKeys (e ∷ es) (f ∷ fs) =
    (e.id ≡ f.id) × (e.identity ≡ f.identity) × (e.thumb ≡ f.thumb) × SameKeys es fs

has_id-SameKeys : (i : ℕ) (es fs : List EntryRow) → SameKeys es fs → has_id i es ≡ has_id i fs
has_id-SameKeys i [] [] s = refl
has_id-SameKeys i [] (f ∷ fs) s = absurd s
has_id-SameKeys i (e ∷ es) [] s = absurd s
has_id-SameKeys i (e ∷ es) (f ∷ fs) s = rw (s.0, has_id-SameKeys i es fs s.3)

thumb_uses-SameKeys :
    (x : Text) (es fs : List EntryRow) → SameKeys es fs → thumb_uses x es ≡ thumb_uses x fs
unfolding thumb_uses
thumb_uses-SameKeys x [] [] s = refl
thumb_uses-SameKeys x [] (f ∷ fs) s = absurd s
thumb_uses-SameKeys x (e ∷ es) [] s = absurd s
thumb_uses-SameKeys x (e ∷ es) (f ∷ fs) s = rw (s.2, thumb_uses-SameKeys x es fs s.3)

identity-SameKeys :
    (i : Text) (es fs : List EntryRow)
    → SameKeys es fs
    → is_some (id_of_identity i es) ≡ is_some (id_of_identity i fs)
identity-SameKeys i [] [] s = refl
identity-SameKeys i [] (f ∷ fs) s = absurd s
identity-SameKeys i (e ∷ es) [] s = absurd s
identity-SameKeys i (e ∷ es) (f ∷ fs) s = ground (arith, s.1, identity-SameKeys i es fs s.3)

DistinctIds-SameKeys : (es fs : List EntryRow) → SameKeys es fs → DistinctIds es → DistinctIds fs
DistinctIds-SameKeys [] [] s h = tt
DistinctIds-SameKeys [] (f ∷ fs) s h = absurd s
DistinctIds-SameKeys (e ∷ es) [] s h = absurd s
DistinctIds-SameKeys (e ∷ es) (f ∷ fs) s h =
    (ground (arith, s.0, has_id-SameKeys f.id es fs s.3, h.0), DistinctIds-SameKeys es fs s.3 h.1)

DistinctIdentities-SameKeys :
    (es fs : List EntryRow) → SameKeys es fs → DistinctIdentities es → DistinctIdentities fs
DistinctIdentities-SameKeys [] [] s h = tt
DistinctIdentities-SameKeys [] (f ∷ fs) s h = absurd s
DistinctIdentities-SameKeys (e ∷ es) [] s h = absurd s
DistinctIdentities-SameKeys (e ∷ es) (f ∷ fs) s h = (
  sym (identity-SameKeys f.identity es fs s.3)
      ∙ ap (λ i. is_some (id_of_identity i es)) (sym s.1)
      ∙ h.0,
  DistinctIdentities-SameKeys es fs s.3 h.1,
)

SameKeys-IsConsistent :
    (t : Tables) (fs : List EntryRow)
    → SameKeys t.entries fs
    → IsConsistent t
    → IsConsistent (record t { entries = fs })
SameKeys-IsConsistent t fs s c = record {
  counted = λ x. unfold uses in ground (arith, c.counted x, thumb_uses-SameKeys x t.entries fs s);
  positive = c.positive;
  distinct_blobs = c.distinct_blobs;
  distinct_ids = DistinctIds-SameKeys t.entries fs s c.distinct_ids;
  distinct_identities = DistinctIdentities-SameKeys t.entries fs s c.distinct_identities;
  parts_live = λ i h. sym (has_id-SameKeys i t.entries fs s) ∙ c.parts_live i h;
  fts_live = λ i h. sym (has_id-SameKeys i t.entries fs s) ∙ c.fts_live i h;
}

set_at-SameKeys : (id at : ℕ) (es : List EntryRow) → SameKeys es (set_at id at es)
unfolding set_at
set_at-SameKeys id at [] = tt
set_at-SameKeys id at (e ∷ es) = elim (Bool-cases (e.id == id)) [
  | inl h ↦ rw h (refl, refl, refl, set_at-SameKeys id at es)
  | inr h ↦ rw h (refl, refl, refl, set_at-SameKeys id at es)
]

pin_rows-SameKeys : (id : ℕ) (p : Bool) (es : List EntryRow) → SameKeys es (pin_rows id p es)
unfolding pin_rows
pin_rows-SameKeys id p [] = tt
pin_rows-SameKeys id p (e ∷ es) = elim (Bool-cases (e.id == id)) [
  | inl h ↦ rw h (refl, refl, refl, pin_rows-SameKeys id p es)
  | inr h ↦ rw h (refl, refl, refl, pin_rows-SameKeys id p es)
]

abbrev pub change_row : (EntryRow → EntryRow) → Option EntryRow → Option EntryRow
change_row f none = none
change_row f (some e) = some (f e)

find-set_at :
    (i id at : ℕ) (es : List EntryRow)
    → find_entry i (set_at id at es) ≡ (
        if i == id
        then change_row (λ e. record e { at = at }) (find_entry i es)
        else find_entry i es)
unfolding set_at
find-set_at i id at [] = ground arith
find-set_at i id at (e ∷ es) = ground (arith, find-set_at i id at es)

find-pin_rows :
    (i id : ℕ) (p : Bool) (es : List EntryRow)
    → find_entry i (pin_rows id p es) ≡ (
        if i == id
        then change_row (λ e. record e { pinned = p }) (find_entry i es)
        else find_entry i es)
unfolding pin_rows
find-pin_rows i id p [] = ground arith
find-pin_rows i id p (e ∷ es) = ground (arith, find-pin_rows i id p es)

pub touch-IsConsistent :
    (t : Tables) (identity : Text) (at : ℕ) → IsConsistent t → IsConsistent (touch t identity at).0
unfolding touch
touch-IsConsistent t identity at c = elim (Option-cases (id_of_identity identity t.entries)) [
  | inl h ↦ rw (h, touch) c
  | inr (id, h) ↦
      rw (h, touch)
        (SameKeys-IsConsistent t (set_at id at t.entries) (set_at-SameKeys id at t.entries) c)
]

pub uses-touch :
    (x : Text) (t : Tables) (identity : Text) (at : ℕ) → uses x (touch t identity at).0 ≡ uses x t
unfolding touch uses
uses-touch x t identity at = elim (Option-cases (id_of_identity identity t.entries)) [
  | inl h ↦ rw (h, touch) refl
  | inr (id, h) ↦
      rw (h, touch)
        (ap (λ n. part_uses x t.parts + n)
          (sym (
            thumb_uses-SameKeys x t.entries (set_at id at t.entries)
              (set_at-SameKeys id at t.entries))))
]

pub uses-set_pinned :
    (x : Text) (t : Tables) (id : ℕ) (p : Bool) → uses x (set_pinned t id p).0 ≡ uses x t
unfolding set_pinned uses
uses-set_pinned x t id p =
    ap (λ n. part_uses x t.parts + n)
      (sym (
        thumb_uses-SameKeys x t.entries (pin_rows id p t.entries)
          (pin_rows-SameKeys id p t.entries)))

identity_has_id :
    (i : Text) (id : ℕ) (es : List EntryRow) → id_of_identity i es ≡ some id → has_id id es ≡ true
identity_has_id i id [] h = cc
identity_has_id i id (e ∷ es) h = ground (arith, identity_has_id i id es)

-- What `touch` answers is the id of an entry.
pub touched_has_id :
    (t : Tables) (identity : Text) (at id : ℕ)
    → (touch t identity at).1 ≡ some id
    → has_id id (touch t identity at).0.entries ≡ true
unfolding touch
touched_has_id t identity at id h = elim (Option-cases (id_of_identity identity t.entries)) [
  | inl k ↦ let told : none ≡ some id = rw (k, touch) at h in cc
  | inr (i, k) ↦
      let told : some i ≡ some id = rw (k, touch) at h in
      let same : i ≡ id = cc in
      rw (k, touch)
        (sym (has_id-SameKeys id t.entries (set_at i at t.entries) (set_at-SameKeys i at t.entries))
          ∙ subst (λ n. has_id n t.entries ≡ true) same (identity_has_id identity i t.entries k))
]

-- Where the identity is held, `touch` answers its id, keeps the tables consistent, and changes the
-- time of that row and nothing else of any row; the other tables stay as they are.
pub touch_held :
    (t : Tables) (identity : Text) (at id : ℕ)
    → IsConsistent t
    → id_of_identity identity t.entries ≡ some id
    → ((touch t identity at).1 ≡ some id)
      × IsConsistent (touch t identity at).0
      × ((i : ℕ)
          → find_entry i (touch t identity at).0.entries ≡ (
              if i == id
              then change_row (λ e. record e { at = at }) (find_entry i t.entries)
              else find_entry i t.entries))
      × ((touch t identity at).0.parts ≡ t.parts)
      × ((touch t identity at).0.blobs ≡ t.blobs)
      × ((touch t identity at).0.fts ≡ t.fts)
unfolding touch
touch_held t identity at id c h = (
  rw (h, touch),
  rw (h, touch)
      (SameKeys-IsConsistent t (set_at id at t.entries) (set_at-SameKeys id at t.entries) c),
  (λ i. rw (h, touch) (find-set_at i id at t.entries)),
  rw (h, touch),
  rw (h, touch),
  rw (h, touch),
)

-- `set_pinned` reports whether the entry exists, keeps the tables consistent, and changes the pin
-- of that entry's row and nothing else of any row; the other tables stay as they are.
pub set_pinned_lem :
    (t : Tables) (id : ℕ) (p : Bool)
    → IsConsistent t
    → ((set_pinned t id p).1 ≡ has_id id t.entries)
      × IsConsistent (set_pinned t id p).0
      × ((i : ℕ)
          → find_entry i (set_pinned t id p).0.entries ≡ (
              if i == id
              then change_row (λ e. record e { pinned = p }) (find_entry i t.entries)
              else find_entry i t.entries))
      × ((set_pinned t id p).0.parts ≡ t.parts)
      × ((set_pinned t id p).0.blobs ≡ t.blobs)
      × ((set_pinned t id p).0.fts ≡ t.fts)
unfolding set_pinned
set_pinned_lem t id p c = (
  refl,
  SameKeys-IsConsistent t (pin_rows id p t.entries) (pin_rows-SameKeys id p t.entries) c,
  (λ i. find-pin_rows i id p t.entries),
  refl,
  refl,
  refl,
)
