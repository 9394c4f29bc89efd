-- ===== src/Index/Locating.antt =====
-- What `locate` of daemon/src/store/index.rs depends on, and what it finds.
use rldyour_clipboard.Index.Tables.{PartRow, Tables}
use rldyour_clipboard.Index.Refs.{release_entry}
use rldyour_clipboard.Index.Refs.Counts.{part_uses}
use rldyour_clipboard.Index.Changes.{drop_entry, delete_entry, drop_entries}
use rldyour_clipboard.Index.Dropping.{id_mem}
use rldyour_clipboard.Index.Queries.{parts_of, preferred, locate, read_location, Location}
use rldyour_clipboard.Prelude.{
  ℕ, ◌<◌, ◌≡◌, refl, sym, ap, ◌∙◌, subst, inl, inr, Bool, true, not, ◌&&◌, Option, none, some, List,
  [], ◌∷◌, ◌++◌, arith, ◌==◌, if◌then◌else◌, Bool-cases, head_of, any, keep, find, Text, text_eq,
  text_eq_refl, sort_by, any-sort_by,
}

-- The rows of an entry.
abbrev pub rows : ℕ → List PartRow → List PartRow
rows i ps = keep (λ p. p.entry == i) ps

find-rows :
    (i : ℕ) (m : Text) (ps : List PartRow)
    → find (λ p. (p.entry == i) && text_eq p.mime m) ps ≡ find (λ p. text_eq p.mime m) (rows i ps)
find-rows i m [] = refl
find-rows i m (p ∷ ps) = ground (arith, find-rows i m ps)

-- What is located depends on the rows of the entry alone.
pub locate-rows :
    (t u : Tables) (i : ℕ) (mime : Option Text)
    → rows i t.parts ≡ rows i u.parts
    → locate t i mime ≡ locate u i mime
unfolding locate parts_of
locate-rows t u i none h = ap (λ ps. read_location (head_of (sort_by preferred ps))) h
locate-rows t u i (some m) h =
    ap read_location
      (find-rows i m t.parts ∙ ap (find (λ p. text_eq p.mime m)) h ∙ sym (find-rows i m u.parts))

pub locate_gone :
    (t : Tables) (i : ℕ) (mime : Option Text) → rows i t.parts ≡ [] → locate t i mime ≡ none
unfolding locate parts_of sort_by
locate_gone t i none h = ap (λ ps. read_location (head_of (sort_by preferred ps))) h
locate_gone t i (some m) h =
    ap read_location (find-rows i m t.parts ∙ ap (find (λ p. text_eq p.mime m)) h)

abbrev has_digest : Text → PartRow → Bool
has_digest x p = text_eq p.digest x

used : (x : Text) (ps : List PartRow) → any (has_digest x) ps ≡ true → 0 < part_uses x ps
unfolding part_uses
used x [] h = cc
used x (p ∷ ps) h = ground (arith, used x ps)

any-rows :
    (x : Text) (i : ℕ) (ps : List PartRow)
    → any (has_digest x) (rows i ps) ≡ true
    → any (has_digest x) ps ≡ true
any-rows x i [] h = h
any-rows x i (p ∷ ps) h = ground (arith, any-rows x i ps)

head_digest :
    (p : PartRow) (ps : List PartRow) → head_of ps ≡ some p → any (has_digest p.digest) ps ≡ true
head_digest p [] h = cc
head_digest p (q ∷ ps) h =
    let same : q ≡ p = cc in
    ground (arith, text_eq_refl p.digest, ap (λ (r : PartRow). text_eq r.digest p.digest) same)

find_digest :
    (f : PartRow → Bool) (p : PartRow) (ps : List PartRow)
    → find f ps ≡ some p
    → any (has_digest p.digest) ps ≡ true
find_digest f p [] h = cc
find_digest f p (q ∷ ps) h = elim (Bool-cases (f q)) [
  | inr e ↦ ground (arith, find_digest f p ps (rw e at h))
  | inl e ↦
      let told : some q ≡ some p = rw e at h in
      let same : q ≡ p = cc in
      ground (arith, text_eq_refl p.digest, ap (λ (r : PartRow). text_eq r.digest p.digest) same)
]

location_of :
    (r : Option PartRow) (at : Location)
    → read_location r ≡ some at
    → (p : PartRow) × (r ≡ some p) × (p.digest ≡ at.digest)
location_of none at h = absurd (cc h)
location_of (some p) at h =
    let same : record { mime = p.mime; digest = p.digest; bytes = p.bytes } ≡ at = cc in
    (p, refl, ap (λ (l : Location). l.digest) same)

-- What is located is referred to.
pub located_used :
    (t : Tables) (i : ℕ) (mime : Option Text) (at : Location)
    → locate t i mime ≡ some at
    → 0 < part_uses at.digest t.parts
unfolding locate parts_of
located_used t i none at h =
    let (p, e, d) = location_of (head_of (sort_by preferred (rows i t.parts))) at h in
    subst (λ x. 0 < part_uses x t.parts) d
      (used p.digest t.parts (
        any-rows p.digest i t.parts (
          sym (any-sort_by preferred (has_digest p.digest) (rows i t.parts))
          ∙ head_digest p (sort_by preferred (rows i t.parts)) e)))
located_used t i (some m) at h =
    let (p, e, d) = location_of (find (λ p. (p.entry == i) && text_eq p.mime m) t.parts) at h in
    subst (λ x. 0 < part_uses x t.parts) d
      (used p.digest t.parts (find_digest (λ p. (p.entry == i) && text_eq p.mime m) p t.parts e))

rows-keep :
    (i id : ℕ) (ps : List PartRow)
    → rows i (keep (λ p. not (p.entry == id)) ps) ≡ (if id == i then [] else rows i ps)
rows-keep i id [] = ground arith
rows-keep i id (p ∷ ps) = ground (arith, rows-keep i id ps)

pub rows-drop_entry :
    (t : Tables) (i id : ℕ)
    → rows i (drop_entry t id).0.parts ≡ (if id == i then [] else rows i t.parts)
unfolding drop_entry delete_entry release_entry
rows-drop_entry t i id = rows-keep i id t.parts

-- The rows of the entries that are dropped go, and those of the others stay.
pub rows-drop_entries :
    (t : Tables) (orphaned : List Text) (i : ℕ) (ids : List ℕ)
    → rows i (drop_entries t orphaned ids).0.parts ≡ (if id_mem i ids then [] else rows i t.parts)
unfolding drop_entries
rows-drop_entries t orphaned i [] = refl
rows-drop_entries t orphaned i (id ∷ ids) =
    rows-drop_entries (drop_entry t id).0 (orphaned ++ (drop_entry t id).1.digests) i ids
    ∙ ground (arith, rows-drop_entry t i id)
