-- ===== src/Store/Sound/Dropping.antt =====
-- What `remove`, `clear`, `expire` and `set_pinned` of daemon/src/store/mod.rs do to the store keeps
-- it sound.
use rldyour_clipboard.Index.Tables.{Tables}
use rldyour_clipboard.Index.Refs.Counts.{uses}
use rldyour_clipboard.Index.Changes.{older, remove, clear, due, expire_before, set_pinned}
use rldyour_clipboard.Index.Consistent.{IsConsistent}
use rldyour_clipboard.Index.Dropping.{uses-drop_entries-le}
use rldyour_clipboard.Index.Removal.{remove-collects, clear-collects}
use rldyour_clipboard.Index.Expiry.{expire_before-Expires}
use rldyour_clipboard.Index.Marks.{set_pinned_lem, uses-set_pinned}
use rldyour_clipboard.Index.Queries.{summary, entry_digests}
use rldyour_clipboard.Io.{Io}
use rldyour_clipboard.Store.Recording.{Store}
use rldyour_clipboard.Store.Keeping.{
  swept, remove_entry, clear_entries, expire_entries, expire_rounds, expire, batch, sync_all,
  pin_synced, pin_entry,
}
use rldyour_clipboard.Store.Keeping.Backed.{uses-remove-le}
use rldyour_clipboard.Store.Sound.{IsSound, tables-IsSound, swept-IsSound, retabled-IsSound}
use rldyour_clipboard.Prelude.{
  ℕ, zero, suc, ◌-◌, ◌≤◌, inl, inr, Bool, true, false, not, Option, none, some, List, [], map,
  arith, ltb, Bool-cases, is_some, length, take, keep, Text, sort_by, Result-cases,
}

-- The same with no sweep yet.
pub fewer_tables-IsSound :
    (r : Text → ℕ) (store : Store) (tables : Tables)
    → IsSound r store
    → IsConsistent tables
    → ((x : Text) → uses x tables ≤ uses x store.tables)
    → IsSound r (record store { tables = tables })
fewer_tables-IsSound r store tables i c fewer =
    tables-IsSound r store tables i c (λ x h. i.backed.backed x (ground (arith, h, fewer x)))

pub removed-IsSound :
    (r : Text → ℕ) (store : Store) (entry : ℕ)
    → IsSound r store
    → IsSound r (record store { tables = (remove store.tables entry).0 })
removed-IsSound r store entry i =
    fewer_tables-IsSound r store (remove store.tables entry).0 i
      (remove-collects store.tables entry i.backed.consistent).0
      (λ x. uses-remove-le store.tables entry x i.backed.consistent)

pub cleared-IsSound :
    (r : Text → ℕ) (store : Store)
    → IsSound r store
    → IsSound r (record store { tables = (clear store.tables).0 })
unfolding clear
cleared-IsSound r store i =
    fewer_tables-IsSound r store (clear store.tables).0 i
      (clear-collects store.tables i.backed.consistent).0
      (λ x.
        uses-drop_entries-le x store.tables []
          (map (λ e. e.id) (keep (λ e. not e.pinned) store.tables.entries)) i.backed.consistent)

pub expired-IsSound :
    (r : Text → ℕ) (store : Store) (cutoff : ℕ)
    → IsSound r store
    → IsSound r (record store { tables = (expire_before store.tables cutoff batch).0 })
unfolding expire_before
expired-IsSound r store cutoff i =
    fewer_tables-IsSound r store (expire_before store.tables cutoff batch).0 i
      (expire_before-Expires store.tables cutoff batch i.backed.consistent).consistent
      (λ x.
        uses-drop_entries-le x store.tables []
          (map (λ e. e.id) (take batch (sort_by older (keep (due cutoff) store.tables.entries))))
          i.backed.consistent)

-- Tables that refer to no more than the store's.
fewer-IsSound :
    (r : Text → ℕ) (store : Store) (tables : Tables) (orphaned : List Text)
    → IsSound r store
    → IsConsistent tables
    → ((x : Text) → uses x tables ≤ uses x store.tables)
    → IsSound r (swept store tables orphaned)
fewer-IsSound r store tables orphaned i c fewer =
    swept-IsSound r store tables orphaned i c
      (λ x h. i.backed.backed x (ground (arith, h, fewer x)))

pub clear_entries-IsSound :
    (r : Text → ℕ) (store : Store) → IsSound r store → IsSound r (clear_entries store)
unfolding clear_entries clear
clear_entries-IsSound r store i =
    fewer-IsSound r store (clear store.tables).0 (clear store.tables).1 i
      (clear-collects store.tables i.backed.consistent).0
      (λ x.
        uses-drop_entries-le x store.tables []
          (map (λ e. e.id) (keep (λ e. not e.pinned) store.tables.entries)) i.backed.consistent)

pub remove_entry-IsSound :
    (r : Text → ℕ) (store : Store) (entry : ℕ)
    → IsSound r store
    → IsSound r (remove_entry store entry).0
unfolding remove_entry
remove_entry-IsSound r store entry i =
    let gone =
      fewer-IsSound r store (remove store.tables entry).0 (remove store.tables entry).1 i
        (remove-collects store.tables entry i.backed.consistent).0
        (λ x. uses-remove-le store.tables entry x i.backed.consistent) in
    elim (Bool-cases (is_some (summary store.tables entry))) [
      | inl e ↦ rw (e, remove_entry) gone
      | inr e ↦ rw (e, remove_entry) i
    ]

expire_entries-IsSound :
    (r : Text → ℕ) (store : Store) (cutoff : ℕ)
    → IsSound r store
    → IsSound r (expire_entries store cutoff).0
unfolding expire_entries expire_before
expire_entries-IsSound r store cutoff i =
    fewer-IsSound r store (expire_before store.tables cutoff batch).0
      (expire_before store.tables cutoff batch).1 i
      (expire_before-Expires store.tables cutoff batch i.backed.consistent).consistent
      (λ x.
        uses-drop_entries-le x store.tables []
          (map (λ e. e.id) (take batch (sort_by older (keep (due cutoff) store.tables.entries))))
          i.backed.consistent)

expire_rounds-IsSound :
    (r : Text → ℕ) (rounds : ℕ) (store : Store) (cutoff : ℕ)
    → IsSound r store
    → IsSound r (expire_rounds rounds store cutoff).0
unfolding expire_rounds
expire_rounds-IsSound r zero store cutoff i = i
expire_rounds-IsSound r (suc rounds) store cutoff i =
    let out = expire_entries store cutoff in
    let once = expire_entries-IsSound r store cutoff i in
    elim (Bool-cases (ltb (length out.1) batch)) [
      | inl e ↦ rw e once
      | inr e ↦ rw e (expire_rounds-IsSound r rounds out.0 cutoff once)
    ]

pub expire-IsSound :
    (r : Text → ℕ) (store : Store) (retention : Option ℕ) (now : ℕ)
    → IsSound r store
    → IsSound r (expire store retention now).0
unfolding expire
expire-IsSound r store none now i = i
expire-IsSound r store (some seconds) now i = expire_rounds-IsSound r 4 store (now - seconds) i

module _ (sync_pinned : Text → Io (Unit {0})) where
  pin_synced-IsSound :
      (r : Text → ℕ) (store : Store) (entry : ℕ) (pinned : Bool)
      → IsSound r store
      → IsSound r (pin_synced sync_pinned store entry pinned).1
  unfolding pin_synced
  pin_synced-IsSound r store entry pinned i =
      let marked =
        retabled-IsSound r store (set_pinned store.tables entry pinned).0
          (set_pinned_lem store.tables entry pinned i.backed.consistent).1
          (λ x. uses-set_pinned x store.tables entry pinned) i in
      elim (Bool-cases (set_pinned store.tables entry pinned).1) [
        | inl e ↦ rw (e, pin_synced) marked
        | inr e ↦ rw (e, pin_synced) i
      ]

  pub pin_entry-IsSound :
      (r : Text → ℕ) (store : Store) (entry : ℕ) (pinned : Bool)
      → IsSound r store
      → IsSound r (pin_entry sync_pinned store entry pinned).1
  unfolding pin_entry
  pin_entry-IsSound r store entry false i = pin_synced-IsSound r store entry false i
  pin_entry-IsSound r store entry true i =
      elim (Bool-cases (is_some (summary store.tables entry))) [
        | inr e ↦ rw (e, pin_entry) i
        | inl e ↦ elim (Result-cases (sync_all sync_pinned (entry_digests store.tables entry))) [
          | inl (u, k) ↦ rw (e, k, pin_entry) (pin_synced-IsSound r store entry true i)
          | inr (er, k) ↦ rw (e, k, pin_entry) i
        ]
      ]
