-- ===== src/Index/Expiry.antt =====
-- What `expire_before` of daemon/src/store/index.rs removes and keeps.
use rldyour_clipboard.Index.Tables.{EntryRow, Tables}
use rldyour_clipboard.Index.Refs.Counts.{uses}
use rldyour_clipboard.Index.Changes.{older, due, expire_before}
use rldyour_clipboard.Index.Consistent.{IsConsistent}
use rldyour_clipboard.Index.Dropping.{
  drop_entries-IsConsistent, orphans-drop_entries, entries-drop_entries,
}
use rldyour_clipboard.Index.Ids.{ids, keep_others, sort_dropped, id_mem_of_take}
use rldyour_clipboard.Prelude.{
  ℕ, zero, suc, ◌≤◌, ◌<◌, ◌≡◌, refl, ap, ◌∙◌, ◌⊎◌, inl, inr, not, ◌&&◌, List, [], ◌∷◌, arith, ltb,
  ◌==◌, ltb→lt, Bool-cases, length, take, drop, keep, length-take, Text, text_mem, sort_by,
}

pub record Expires (t : Tables) (cutoff batch : ℕ) : Type 0 where
  pub consistent : IsConsistent (expire_before t cutoff batch).0
  -- at most a batch is removed
  pub bounded : length (expire_before t cutoff batch).2 ≤ batch
  -- rows that are pinned or young stay as they are
  pub spared :
      keep (λ e. not (due cutoff e)) (expire_before t cutoff batch).0.entries
      ≡ keep (λ e. not (due cutoff e)) t.entries
  -- of the rows that are due, the oldest go
  pub oldest_first :
      sort_by older (keep (due cutoff) (expire_before t cutoff batch).0.entries)
      ≡ drop batch (sort_by older (keep (due cutoff) t.entries))
  -- a short batch was the last
  pub exhausted :
      (batch ≤ length (expire_before t cutoff batch).2)
      ⊎ (sort_by older (keep (due cutoff) (expire_before t cutoff batch).0.entries) ≡ [])
  -- orphaned is what something referred to and nothing does any more
  pub collected :
      (x : Text)
      → text_mem x (expire_before t cutoff batch).1
        ≡ (ltb 0 (uses x t) && (uses x (expire_before t cutoff batch).0 == 0))

length-ids : (es : List EntryRow) → length (ids es) ≡ length es
length-ids [] = refl
length-ids (e ∷ es) = ap suc (length-ids es)

drop_of_short : (n : ℕ) (es : List EntryRow) → length (take n es) < n → drop n es ≡ []
drop_of_short zero es h = absurd (omega arith)
drop_of_short (suc n) [] h = refl
drop_of_short (suc n) (e ∷ es) h = drop_of_short n es (omega arith)

-- On consistent tables, one expiry pass keeps them consistent, removes at most `batch` rows, leaves
-- every pinned row and every row of the cutoff or later as it was, removes the oldest of the rows
-- that are due, leaves none that is due if it removed fewer than `batch`, and reports exactly the
-- digests that lost their last reference.
pub expire_before-Expires :
    (t : Tables) (cutoff batch : ℕ) → IsConsistent t → Expires t cutoff batch
unfolding expire_before
expire_before-Expires t cutoff batch c =
    let sorted = sort_by older (keep (due cutoff) t.entries) in
    let doomed = ids (take batch sorted) in
    let left = entries-drop_entries t [] doomed in
    let dropped =
      ap (λ es. sort_by older (keep (due cutoff) es)) left
      ∙ sort_dropped batch (due cutoff) t.entries c.distinct_ids in
    record {
      consistent = drop_entries-IsConsistent t [] doomed c;
      bounded = omega (arith, length-ids (take batch sorted), length-take batch sorted);
      spared =
          ap (keep (λ e. not (due cutoff e))) left
          ∙ keep_others (due cutoff) doomed t.entries c.distinct_ids
              (λ i. id_mem_of_take i batch (keep (due cutoff) t.entries));
      oldest_first = dropped;
      exhausted = elim (Bool-cases (ltb (length doomed) batch)) [
        | inl e ↦
            let short : length (take batch sorted) < batch =
              omega (arith, ltb→lt (length doomed) batch e, length-ids (take batch sorted)) in
            inr (dropped ∙ drop_of_short batch sorted short)
        | inr e ↦ inl (ground (arith, e))
      ];
      collected = λ x. unfold text_mem in orphans-drop_entries x t [] doomed c;
    }
