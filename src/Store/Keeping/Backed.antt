-- ===== src/Store/Keeping/Backed.antt =====
-- The store of daemon/src/store/mod.rs has the files that its index refers to, and keeps them.
use rldyour_clipboard.Index.Tables.{BlobRow, EntryRow, Tables}
use rldyour_clipboard.Index.Refs.Counts.{refs, known, uses}
use rldyour_clipboard.Index.Refs.Orphans.{IsDistinct}
use rldyour_clipboard.Index.Changes.{older, remove, clear, due, expire_before}
use rldyour_clipboard.Index.Consistent.{IsConsistent}
use rldyour_clipboard.Index.Dropping.{uses-drop_entries-le, uses-drop_entry}
use rldyour_clipboard.Index.Removal.{remove-collects, clear-collects}
use rldyour_clipboard.Index.Expiry.{expire_before-Expires}
use rldyour_clipboard.Index.Queries.{references, summary}
use rldyour_clipboard.Blobs.{file_exists}
use rldyour_clipboard.Store.Sweeping.{file_exists-sweep}
use rldyour_clipboard.Store.Recording.{Store}
use rldyour_clipboard.Store.Keeping.{
  swept, remove_entry, clear_entries, expire_entries, expire_rounds, expire, batch,
}
use rldyour_clipboard.Prelude.{
  ℕ, zero, suc, ◌+◌, ◌-◌, ◌*◌, ◌≤◌, ◌≡◌, refl, sym, ap, ◌∙◌, subst, ◌⊎◌, inl, inr, Bool, true,
  false, not, ◌&&◌, some, List, [], ◌∷◌, ◌++◌, map, arith, ltb, ltb→lt, Bool-cases, is_some, length,
  take, any, keep, length-append, Text, text_eq, text_eq_iff, sort_by, length-sort_by,
}

-- A store is backed where its tables are consistent and what they refer to has its file.
pub record IsBacked (store : Store) : Type 0 where
  pub consistent : IsConsistent store.tables
  pub backed :
      (x : Text) → ltb 0 (uses x store.tables) ≡ true → file_exists x store.blobs.files ≡ true

unknown_unreferenced :
    (x : Text) (bs : List BlobRow)
    → known x bs ≡ false
    → any (λ b. text_eq b.digest x && ltb 0 b.refs) bs ≡ false
unfolding known
unknown_unreferenced x [] h = refl
unknown_unreferenced x (b ∷ bs) h = ground (arith, h, unknown_unreferenced x bs)

references-refs :
    (x : Text) (bs : List BlobRow)
    → IsDistinct bs
    → any (λ b. text_eq b.digest x && ltb 0 b.refs) bs ≡ ltb 0 (refs x bs)
unfolding refs
references-refs x [] h = ground arith
references-refs x (b ∷ bs) h = elim (Bool-cases (text_eq b.digest x)) [
  | inl e ↦
      let same : b.digest ≡ x = (text_eq_iff b.digest x).0 e in
      let gone : known x bs ≡ false = subst (λ d. known d bs ≡ false) same h.0 in
      ground (arith, e, unknown_unreferenced x bs gone)
  | inr e ↦ ground (arith, e, references-refs x bs h.1)
]

-- The index refers to a digest exactly if an entry or a part does.
pub references-uses : (t : Tables) (x : Text) → IsConsistent t → references t x ≡ ltb 0 (uses x t)
unfolding references
references-uses t x c = references-refs x t.blobs c.distinct_blobs ∙ ap (ltb 0) (c.counted x)

-- A sweep of digests that are not referred to any more backs what is left.
swept-IsBacked :
    (store : Store) (tables : Tables) (orphaned : List Text)
    → IsBacked store
    → IsConsistent tables
    → ((x : Text) → uses x tables ≤ uses x store.tables)
    → IsBacked (swept store tables orphaned)
unfolding swept
swept-IsBacked store tables orphaned b c fewer = record {
  consistent = c;
  backed = λ x h. ground (
    arith,
    h,
    fewer x,
    b.backed x,
    file_exists-sweep tables store.blobs orphaned x,
    references-uses tables x c,
  );
}

-- Clearing the archive keeps the store backed: the tables consistent, and a file for whatever they
-- refer to.
pub clear_entries-IsBacked : (store : Store) → IsBacked store → IsBacked (clear_entries store)
unfolding clear_entries clear
clear_entries-IsBacked store b =
    swept-IsBacked store (clear store.tables).0 (clear store.tables).1 b
      (clear-collects store.tables b.consistent).0
      (λ x.
        uses-drop_entries-le x store.tables []
          (map (λ e. e.id) (keep (λ e. not e.pinned) store.tables.entries)) b.consistent)

pub uses-remove-le :
    (t : Tables) (id : ℕ) (x : Text) → IsConsistent t → uses x (remove t id).0 ≤ uses x t
unfolding remove
uses-remove-le t id x c = omega (arith, uses-drop_entry x t id c.distinct_ids)

-- Removing an entry, one that is there or not, keeps the store backed: the tables consistent, and a
-- file for whatever they refer to.
pub remove_entry-IsBacked :
    (store : Store) (entry : ℕ) → IsBacked store → IsBacked (remove_entry store entry).0
unfolding remove_entry
remove_entry-IsBacked store entry b =
    let gone =
      swept-IsBacked store (remove store.tables entry).0 (remove store.tables entry).1 b
        (remove-collects store.tables entry b.consistent).0
        (λ x. uses-remove-le store.tables entry x b.consistent) in
    elim (Bool-cases (is_some (summary store.tables entry))) [
      | inl e ↦ rw (e, remove_entry) gone
      | inr e ↦ rw (e, remove_entry) b
    ]

pub expire_entries-IsBacked :
    (store : Store) (cutoff : ℕ) → IsBacked store → IsBacked (expire_entries store cutoff).0
unfolding expire_entries expire_before
expire_entries-IsBacked store cutoff b =
    swept-IsBacked store (expire_before store.tables cutoff batch).0
      (expire_before store.tables cutoff batch).1 b
      (expire_before-Expires store.tables cutoff batch b.consistent).consistent
      (λ x.
        uses-drop_entries-le x store.tables []
          (map (λ e. e.id) (take batch (sort_by older (keep (due cutoff) store.tables.entries))))
          b.consistent)

no_rows : (es : List EntryRow) → length es ≡ 0 → es ≡ []
no_rows [] h = refl
no_rows (e ∷ es) h = absurd (omega (arith, h))

tables-expire_entries :
    (store : Store) (cutoff : ℕ)
    → (expire_entries store cutoff).0.tables ≡ (expire_before store.tables cutoff batch).0
unfolding expire_entries swept
tables-expire_entries store cutoff = refl

removed-expire_entries :
    (store : Store) (cutoff : ℕ)
    → (expire_entries store cutoff).1 ≡ (expire_before store.tables cutoff batch).2
unfolding expire_entries
removed-expire_entries store cutoff = refl

abbrev pub young : ℕ → EntryRow → Bool
young cutoff e = not (due cutoff e)

-- What a run of rounds leaves.
abbrev pub Drains : ℕ → Store → ℕ → Store × List ℕ → Type 0
Drains rounds store cutoff out =
    IsBacked out.0
    × (length out.1 ≤ rounds * batch)
    × (keep (young cutoff) out.0.tables.entries ≡ keep (young cutoff) store.tables.entries)
    × ((rounds * batch ≤ length out.1) ⊎ (keep (due cutoff) out.0.tables.entries ≡ []))

behind_full : (a b c n : ℕ) → ltb a batch ≡ false → c ≡ a + b → n * batch ≤ b → suc n * batch ≤ c
behind_full a b c n e h k = ground arith

expire_rounds-Drains :
    (rounds : ℕ) (store : Store) (cutoff : ℕ)
    → IsBacked store
    → Drains rounds store cutoff (expire_rounds rounds store cutoff)
unfolding expire_rounds
expire_rounds-Drains zero store cutoff b = (b, omega arith, refl, inl (omega arith))
expire_rounds-Drains (suc rounds) store cutoff b =
    let out = expire_entries store cutoff in
    let x = expire_before-Expires store.tables cutoff batch b.consistent in
    let backed = expire_entries-IsBacked store cutoff b in
    let later = expire_rounds-Drains rounds out.0 cutoff backed in
    elim (Bool-cases (ltb (length out.1) batch)) [
      | inl e ↦ rw e (
        backed,
        ground (arith, e),
        x.spared,
        elim x.exhausted [
          | inl full ↦ absurd (omega (arith, full, ltb→lt (length out.1) batch e))
          | inr gone ↦ inr (
              no_rows _ (
                sym (length-sort_by older (keep (due cutoff) out.0.tables.entries))
                ∙ ap length gone))
        ],
      )
      | inr e ↦ rw e (
        later.0,
        ground
            (arith, later.1, x.bounded, length-append out.1 (expire_rounds rounds out.0 cutoff).1),
        later.2 ∙ x.spared,
        elim later.3 [
          | inl full ↦ inl (
              behind_full (length out.1) (length (expire_rounds rounds out.0 cutoff).1)
                (length (out.1 ++ (expire_rounds rounds out.0 cutoff).1)) rounds e
                (length-append out.1 (expire_rounds rounds out.0 cutoff).1) full)
          | inr gone ↦ inr gone
        ],
      )
    ]

-- A run of maintenance keeps a store backed (consistent tables, and a file for whatever they refer
-- to), removes at most 1024 entries, and none that is pinned or young; where it removes fewer than
-- 1024, nothing that is due is left.
pub expire-Drains :
    (store : Store) (retention now : ℕ)
    → IsBacked store
    → Drains 4 store (now - retention) (expire store (some retention) now)
unfolding expire
expire-Drains store retention now b = expire_rounds-Drains 4 store (now - retention) b
