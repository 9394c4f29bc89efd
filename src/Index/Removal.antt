-- ===== src/Index/Removal.antt =====
-- What `remove` and `clear` of daemon/src/store/index.rs leave.
use rldyour_clipboard.Index.Tables.{EntryRow, Tables, has_id}
use rldyour_clipboard.Index.Refs.Counts.{uses}
use rldyour_clipboard.Index.Changes.{remove, clear}
use rldyour_clipboard.Index.Consistent.{IsConsistent}
use rldyour_clipboard.Index.Consistent.Rows.{without}
use rldyour_clipboard.Index.Dropping.{
  drop_entry-IsConsistent, entries-drop_entry, orphans-drop_entry, uses-drop_entry,
  drop_entries-IsConsistent, orphans-drop_entries, entries-drop_entries, held_absent, keep_ids,
  keep-not-not,
}
use rldyour_clipboard.Prelude.{
  ℕ, ◌≡◌, refl, ◌∙◌, inl, inr, not, ◌&&◌, [], map, arith, ltb, ◌==◌, Bool-cases, keep, Text,
  text_mem,
}

-- Removing an entry keeps the tables consistent, deletes that row of `entry` and no other, and
-- reports a digest as orphaned exactly if something referred to it and nothing does any more.
pub remove-collects :
    (t : Tables) (id : ℕ)
    → IsConsistent t
    → IsConsistent (remove t id).0
      × ((remove t id).0.entries ≡ without id t.entries)
      × ((x : Text)
          → text_mem x (remove t id).1 ≡ (ltb 0 (uses x t) && (uses x (remove t id).0 == 0)))
unfolding remove
remove-collects t id c = (
  drop_entry-IsConsistent t id c,
  entries-drop_entry t id,
  λ x. elim (Bool-cases (has_id id t.entries)) [
    | inl e ↦ rw e (orphans-drop_entry x t id c)
    | inr e ↦
        unfold text_mem in
        rw e (ground (arith, held_absent x t id c e, uses-drop_entry x t id c.distinct_ids))
  ],
)

-- Clearing the archive keeps the tables consistent, leaves the pinned entries as they are and no
-- other, and reports a digest as orphaned exactly if something referred to it and nothing does any
-- more.
pub clear-collects :
    (t : Tables)
    → IsConsistent t
    → IsConsistent (clear t).0
      × ((clear t).0.entries ≡ keep (λ e. e.pinned) t.entries)
      × ((x : Text) → text_mem x (clear t).1 ≡ (ltb 0 (uses x t) && (uses x (clear t).0 == 0)))
unfolding clear
clear-collects t c =
    let ids = map (λ (e : EntryRow). e.id) (keep (λ e. not e.pinned) t.entries) in
    (
      drop_entries-IsConsistent t [] ids c,
      entries-drop_entries t [] ids
          ∙ keep_ids (λ e. not e.pinned) t.entries c.distinct_ids
          ∙ keep-not-not t.entries,
      λ x. orphans-drop_entries x t [] ids c ∙ (unfold text_mem in refl),
    )
