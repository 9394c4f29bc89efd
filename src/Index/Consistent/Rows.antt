-- ===== src/Index/Consistent/Rows.antt =====
-- The rows of daemon/src/store/index.rs that go with an entry, and the keys that stay unique.
use rldyour_clipboard.Index.Tables.{EntryRow, PartRow, FtsRow, Tables, has_id, option_list}
use rldyour_clipboard.Index.Refs.{part_digests, thumb_of, held_digests}
use rldyour_clipboard.Index.Refs.Counts.{uses, occurs, part_uses, thumb_uses, occurs-append}
use rldyour_clipboard.Index.Changes.{id_of_identity, delete_entry}
use rldyour_clipboard.Prelude.{
  ℕ, ◌+◌, ◌≡◌, refl, inl, inr, false, not, ◌&&◌, none, List, [], ◌∷◌, arith, ◌==◌, Bool-cases,
  is_some, any, keep, Text,
}

abbrev pub DistinctIds : List EntryRow → Type 0
DistinctIds [] = Unit
DistinctIds (e ∷ es) = (has_id e.id es ≡ false) × DistinctIds es

abbrev pub DistinctIdentities : List EntryRow → Type 0
DistinctIdentities [] = Unit
DistinctIdentities (e ∷ es) =
    (is_some (id_of_identity e.identity es) ≡ false) × DistinctIdentities es

abbrev pub without : ℕ → List EntryRow → List EntryRow
without id es = keep (λ e. not (e.id == id)) es

pub has_id-without :
    (i id : ℕ) (es : List EntryRow) → has_id i (without id es) ≡ (not (i == id) && has_id i es)
has_id-without i id [] = ground arith
has_id-without i id (e ∷ es) = ground (arith, has_id-without i id es)

without_absent : (id : ℕ) (es : List EntryRow) → has_id id es ≡ false → without id es ≡ es
without_absent id [] h = refl
without_absent id (e ∷ es) h = ground (arith, without_absent id es)

pub without-DistinctIds :
    (id : ℕ) (es : List EntryRow) → DistinctIds es → DistinctIds (without id es)
without-DistinctIds id [] h = tt
without-DistinctIds id (e ∷ es) h = elim (Bool-cases (e.id == id)) [
  | inl q ↦ rw q (without-DistinctIds id es h.1)
  | inr q ↦ rw q (ground (arith, has_id-without e.id id es), without-DistinctIds id es h.1)
]

identity-without :
    (i : Text) (id : ℕ) (es : List EntryRow)
    → is_some (id_of_identity i es) ≡ false
    → is_some (id_of_identity i (without id es)) ≡ false
identity-without i id [] h = refl
identity-without i id (e ∷ es) h = ground (arith, identity-without i id es)

pub without-DistinctIdentities :
    (id : ℕ) (es : List EntryRow) → DistinctIdentities es → DistinctIdentities (without id es)
without-DistinctIdentities id [] h = tt
without-DistinctIdentities id (e ∷ es) h = elim (Bool-cases (e.id == id)) [
  | inl q ↦ rw q (without-DistinctIdentities id es h.1)
  | inr q ↦ rw q (identity-without e.identity id es h.0, without-DistinctIdentities id es h.1)
]

pub thumb_absent : (id : ℕ) (es : List EntryRow) → has_id id es ≡ false → thumb_of id es ≡ none
unfolding thumb_of
thumb_absent id [] h = refl
thumb_absent id (e ∷ es) h = ground (arith, thumb_absent id es)

part_uses_without :
    (x : Text) (id : ℕ) (ps : List PartRow)
    → part_uses x (keep (λ p. not (p.entry == id)) ps) + occurs x (part_digests id ps)
      ≡ part_uses x ps
unfolding part_uses occurs part_digests
part_uses_without x id [] = refl
part_uses_without x id (p ∷ ps) = ground (arith, part_uses_without x id ps)

thumb_uses-without :
    (x : Text) (id : ℕ) (es : List EntryRow)
    → DistinctIds es
    → thumb_uses x (without id es) + occurs x (option_list (thumb_of id es)) ≡ thumb_uses x es
unfolding thumb_uses occurs thumb_of
thumb_uses-without x id [] h = refl
thumb_uses-without x id (e ∷ es) h = elim (Bool-cases (e.id == id)) [
  | inl q ↦ ground (arith, without_absent id es, thumb_absent id es)
  | inr q ↦ ground (arith, thumb_uses-without x id es h.1)
]

-- What an entry refers to is what the table no longer refers to when it is deleted.
pub uses-delete_entry :
    (x : Text) (t : Tables) (id : ℕ)
    → DistinctIds t.entries
    → uses x (delete_entry t id) + occurs x (held_digests t id) ≡ uses x t
unfolding uses delete_entry held_digests
uses-delete_entry x t id h = omega (
  arith,
  occurs-append x (part_digests id t.parts) (option_list (thumb_of id t.entries)),
  part_uses_without x id t.parts,
  thumb_uses-without x id t.entries h,
)

pub live_parts_without :
    (i id : ℕ) (ps : List PartRow)
    → any (λ p. p.entry == i) (keep (λ p. not (p.entry == id)) ps)
      ≡ (not (i == id) && any (λ p. p.entry == i) ps)
live_parts_without i id [] = ground arith
live_parts_without i id (p ∷ ps) = ground (arith, live_parts_without i id ps)

pub live_fts_without :
    (i id : ℕ) (fs : List FtsRow)
    → any (λ f. f.rowid == i) (keep (λ f. not (f.rowid == id)) fs)
      ≡ (not (i == id) && any (λ f. f.rowid == i) fs)
live_fts_without i id [] = ground arith
live_fts_without i id (f ∷ fs) = ground (arith, live_fts_without i id fs)
