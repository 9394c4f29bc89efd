-- ===== src/Index/Paging.antt =====
-- Paging through the list of daemon/src/store/index.rs: what the next page holds.
use rldyour_clipboard.Index.Tables.{EntryRow, Tables, find_entry}
use rldyour_clipboard.Index.Listing.{clamp_limit, row_lt, behind, newest, mark, selected, page}
use rldyour_clipboard.Index.Order.{newest_total, newest_trans}
use rldyour_clipboard.Index.Consistent.Rows.{DistinctIds}
use rldyour_clipboard.Index.Ids.{ids_ne, sort_by-DistinctIds, keep-DistinctIds}
use rldyour_clipboard.Kind.{Kind}
use rldyour_clipboard.Prelude.{
  ℕ, ◌≡◌, refl, sym, ap, ◌∙◌, subst, Bool, true, false, ◌&&◌, Option, none, some, List, [], ◌∷◌,
  ◌++◌, arith, ◌==◌, take, keep, All, Text, sort_by, IsSorted, All-sort_by, sort_by-IsSorted,
  keep-sort_by, All-keep, All-map₂,
}

find_self : (es : List EntryRow) → DistinctIds es → All (λ e. find_entry e.id es ≡ some e) es
find_self [] h = tt
find_self (e ∷ es) h = (
  ground arith,
  All-map₂ _ _ _
      (λ (r : EntryRow) (ne : (e.id == r.id) ≡ false) (ih : find_entry r.id es ≡ some r).
        ground arith)
      es (ids_ne e.id es h.0) (find_self es h.1),
)

All-at {ℓ} :
    (P : EntryRow → Type ℓ) (before after : List EntryRow) (e : EntryRow)
    → All P (before ++ e ∷ after)
    → P e
All-at P [] after e h = h.0
All-at P (r ∷ before) after e h = All-at P before after e h.1

DistinctIds-after :
    (before after : List EntryRow) (e : EntryRow)
    → DistinctIds (before ++ e ∷ after)
    → All (λ r. (e.id == r.id) ≡ false) after
DistinctIds-after [] after e h = ids_ne e.id after h.0
DistinctIds-after (r ∷ before) after e h = DistinctIds-after before after e h.1

abbrev at_row : EntryRow → EntryRow → Bool
at_row e r = row_lt r e.pinned e.at e.id

keep_behind :
    (e : EntryRow) (after : List EntryRow)
    → All (λ r. newest e r ≡ true) after
    → All (λ r. (e.id == r.id) ≡ false) after
    → keep (at_row e) after ≡ after
unfolding newest
keep_behind e [] h d = refl
keep_behind e (r ∷ after) h d = ground (arith, h.0, d.0, keep_behind e after h.1 d.1)

-- In sorted rows, what lies behind a row is what stands after it.
behind_row :
    (before after : List EntryRow) (e : EntryRow)
    → IsSorted newest (before ++ e ∷ after)
    → DistinctIds (before ++ e ∷ after)
    → keep (at_row e) (before ++ e ∷ after) ≡ after
unfolding newest
behind_row [] after e s d = ground (arith, keep_behind e after s.0 (ids_ne e.id after d.0))
behind_row (r ∷ before) after e s d =
    ground
      (arith, All-at (λ x. newest r x ≡ true) before after e s.0, behind_row before after e s.1 d.1)

module _ (is_alphanumeric : ℕ → Bool) (matches : Text → Text → Bool) where
  -- Everything that the filters let through, in the order of the list.
  abbrev pub whole : Tables → Option Text → Option Kind → Option Bool → List EntryRow
  whole t query only pinned =
      sort_by newest (keep (selected is_alphanumeric matches t query only pinned) t.entries)

  pub page_first :
      (t : Tables) (limit : ℕ) (query : Option Text) (only : Option Kind) (pinned : Option Bool)
      → page is_alphanumeric matches t limit none query only pinned
        ≡ take (clamp_limit limit) (whole t query only pinned)
  unfolding page behind
  page_first t limit query only pinned = refl

  behind_split :
      (p q : EntryRow → Bool) (es : List EntryRow) → keep (λ e. p e && q e) es ≡ keep p (keep q es)
  behind_split p q [] = refl
  behind_split p q (e ∷ es) = ground (arith, behind_split p q es)

  pub page-behind :
      (t : Tables) (limit id : ℕ) (query : Option Text) (only : Option Kind) (pinned : Option Bool)
      → page is_alphanumeric matches t limit (some id) query only pinned
        ≡ take
            (clamp_limit limit)
            (keep (behind (some id) (mark t (some id))) (whole t query only pinned))
  unfolding page
  page-behind t limit id query only pinned =
      ap (λ es. take (clamp_limit limit) (sort_by newest es)) (behind_split _ _ t.entries)
      ∙ ap (take (clamp_limit limit)) (
          sym (
            keep-sort_by newest newest_total newest_trans (behind (some id) (mark t (some id)))
              (keep (selected is_alphanumeric matches t query only pinned) t.entries)))

  -- With unique ids, the page behind a row of the list holds the rows that stand after it, in order:
  -- paging skips none and shows none twice, whatever the filters.
  pub page_continues :
      (t : Tables) (limit : ℕ) (query : Option Text) (only : Option Kind) (pinned : Option Bool)
      (before after : List EntryRow) (e : EntryRow)
      → DistinctIds t.entries
      → whole t query only pinned ≡ before ++ e ∷ after
      → page is_alphanumeric matches t limit (some e.id) query only pinned
        ≡ take (clamp_limit limit) after
  page_continues t limit query only pinned before after e d w =
      let chosen = selected is_alphanumeric matches t query only pinned in
      let sorted : IsSorted newest (before ++ e ∷ after) =
        subst (IsSorted newest) w
          (sort_by-IsSorted newest newest_total newest_trans (keep chosen t.entries)) in
      let unique : DistinctIds (before ++ e ∷ after) = subst DistinctIds w (
        sort_by-DistinctIds newest (keep chosen t.entries) (keep-DistinctIds chosen t.entries d)) in
      let itself : find_entry e.id t.entries ≡ some e =
        All-at (λ r. find_entry r.id t.entries ≡ some r) before after e
          (subst (All (λ r. find_entry r.id t.entries ≡ some r)) w (
            All-sort_by newest _ (keep chosen t.entries)
              (All-keep _ chosen t.entries (find_self t.entries d)))) in
      page-behind t limit e.id query only pinned
      ∙ ap (λ rows. take (clamp_limit limit) (keep (behind (some e.id) (mark t (some e.id))) rows))
          w
      ∙ ap (take (clamp_limit limit))
          (unfold behind mark in rw itself (behind_row before after e sorted unique))
