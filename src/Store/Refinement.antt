-- ===== src/Store/Refinement.antt =====
-- What a client can fetch from the store of daemon/src/store/mod.rs, as a map from entries and mime
-- types to content, and what removal, clearing and expiry are on that map.
use rldyour_clipboard.Index.Tables.{PartRow, Tables, has_id}
use rldyour_clipboard.Index.Refs.Counts.{uses}
use rldyour_clipboard.Index.Changes.{older, drop_entries, remove, clear, due, expire_before}
use rldyour_clipboard.Index.Consistent.{IsConsistent}
use rldyour_clipboard.Index.Dropping.{id_mem}
use rldyour_clipboard.Index.Locating.{
  rows, locate-rows, locate_gone, located_used, rows-drop_entries,
}
use rldyour_clipboard.Index.Removal.{remove-collects, clear-collects}
use rldyour_clipboard.Index.Expiry.{expire_before-Expires}
use rldyour_clipboard.Index.Queries.{references, summary, locate}
use rldyour_clipboard.Blobs.{Blobs}
use rldyour_clipboard.Blobs as Blobs
use rldyour_clipboard.Store.{StoreError}
use rldyour_clipboard.Store.Sweeping.{sweep}
use rldyour_clipboard.Store.Deriving.{open_read, or_io}
use rldyour_clipboard.Store.Recording.{Store}
use rldyour_clipboard.Store.Recording.Retained.{summary-has_id}
use rldyour_clipboard.Store.Keeping.{
  swept, remove_entry, clear_entries, expire_entries, expire_rounds, expire, batch, open_part,
}
use rldyour_clipboard.Store.Keeping.Backed.{IsBacked, references-uses, expire_entries-IsBacked}
use rldyour_clipboard.Prelude.{
  ℕ, zero, suc, ◌-◌, ◌≡◌, refl, ap, ◌∙◌, inl, inr, true, false, not, Option, none, some, List, [],
  ◌∷◌, ◌++◌, map, arith, ltb, ◌==◌, if◌then◌else◌, Bool-cases, Option-cases, is_some, Result, ok,
  ◌>>=◌, length, take, any, keep, any-append, Text, text_eq, text_eq_iff, text_mem, sort_by,
}

-- The content of each entry under each mime type, and what is fetched without one.
abbrev pub Archive : Type 0
Archive = ℕ → Option Text → Result StoreError (Option (Text × List ℕ × ℕ))

abbrev pub forget : List ℕ → Archive → Archive
forget ids archive i mime = if id_mem i ids then ok none else archive i mime

open_read-keep :
    (x d : Text) (files : List (Text × List ℕ))
    → text_eq d x ≡ false
    → open_read x (keep (λ f. not (text_eq f.0 d)) files) ≡ open_read x files
unfolding open_read
open_read-keep x d [] h = refl
open_read-keep x d ((name, content) ∷ files) h = elim (Bool-cases (text_eq name d)) [
  | inl e ↦
      let other : text_eq name x ≡ false = ground (arith, h, e, text_eq_iff name d) in
      rw (e, other, open_read) (open_read-keep x d files h)
  | inr e ↦ rw (e, open_read) (ground (arith, open_read-keep x d files h))
]

open_read-remove :
    (x d : Text) (blobs : Blobs)
    → text_eq d x ≡ false
    → open_read x (Blobs.remove blobs d).0.files ≡ open_read x blobs.files
unfolding Blobs.remove
open_read-remove x d blobs h = elim (Bool-cases (text_mem d blobs.leases)) [
  | inl e ↦ rw (e, Blobs.remove) refl
  | inr e ↦ rw (e, Blobs.remove) (open_read-keep x d blobs.files h)
]

unreferenced :
    (tables : Tables) (d x : Text)
    → references tables d ≡ false
    → references tables x ≡ true
    → text_eq d x ≡ false
unreferenced tables d x e h = elim (Bool-cases (text_eq d x)) [
  | inr q ↦ q
  | inl q ↦
      let same : d ≡ x = (text_eq_iff d x).0 q in
      absurd (ground (arith, e, h, ap (references tables) same))
]

-- The content of a file that the index refers to outlives a sweep.
pub open_read-sweep :
    (tables : Tables) (blobs : Blobs) (x : Text) (orphaned : List Text)
    → references tables x ≡ true
    → open_read x (sweep tables blobs orphaned).files ≡ open_read x blobs.files
unfolding sweep
open_read-sweep tables blobs x [] h = refl
open_read-sweep tables blobs x (d ∷ orphaned) h = elim (Bool-cases (references tables d)) [
  | inl e ↦ rw (e, sweep) (open_read-sweep tables blobs x orphaned h)
  | inr e ↦
      let other : text_eq d x ≡ false = unreferenced tables d x e h in
      rw (e, sweep)
        (open_read-sweep tables (Blobs.remove blobs d).0 x orphaned h
          ∙ open_read-remove x d blobs other)
]

-- A sweep under tables that lost the rows of some entries forgets those entries, and no content of
-- the others.
swept-forgets :
    (store : Store) (tables : Tables) (orphaned : List Text) (ids : List ℕ)
    → IsConsistent tables
    → ((i : ℕ) → rows i tables.parts ≡ (if id_mem i ids then [] else rows i store.tables.parts))
    → (i : ℕ) (mime : Option Text)
    → open_part (swept store tables orphaned) i mime ≡ forget ids (open_part store) i mime
unfolding swept open_part
swept-forgets store tables orphaned ids c kept i mime = elim (Bool-cases (id_mem i ids)) [
  | inl e ↦
      let gone : locate tables i mime ≡ none = locate_gone tables i mime (rw e at (kept i)) in
      rw (e, gone, open_part) refl
  | inr e ↦
      let same : locate tables i mime ≡ locate store.tables i mime =
        locate-rows tables store.tables i mime (rw e at (kept i)) in
      elim (Option-cases (locate store.tables i mime)) [
        | inl k ↦ rw (e, same, k, open_part) refl
        | inr (at, k) ↦
            let referred : references tables at.digest ≡ true =
              references-uses tables at.digest c
              ∙ unfold uses in ground (arith, located_used tables i mime at (same ∙ k)) in
            rw (e, same, k, open_part)
              (ap (λ r. or_io r >>= (λ content. ok (some (at.mime, content, at.bytes))))
                (open_read-sweep tables store.blobs at.digest orphaned referred))
      ]
]

absent_rows : (i : ℕ) (ps : List PartRow) → any (λ p. p.entry == i) ps ≡ false → rows i ps ≡ []
absent_rows i [] h = refl
absent_rows i (p ∷ ps) h = ground (arith, absent_rows i ps)

-- An entry that is not there has no content to forget.
forget_absent :
    (store : Store) (id : ℕ)
    → IsConsistent store.tables
    → is_some (summary store.tables id) ≡ false
    → (i : ℕ) (mime : Option Text)
    → open_part store i mime ≡ forget (id ∷ []) (open_part store) i mime
unfolding open_part
forget_absent store id c h i mime = elim (Bool-cases (id == i)) [
  | inr e ↦ rw e refl
  | inl e ↦
      let same : id ≡ i = ground arith in
      let gone : any (λ p. p.entry == i) store.tables.parts ≡ false = ground (
        arith,
        c.parts_live i,
        h,
        summary-has_id store.tables id,
        ap (λ n. has_id n store.tables.entries) same,
      ) in
      rw (e, locate_gone store.tables i mime (absent_rows i store.tables.parts gone), open_part)
        refl
]

-- Removing an entry, one that is there or not, is forgetting that entry: what can be fetched of every
-- other stays as it was, with its content.
pub remove_entry-forgets :
    (store : Store) (entry i : ℕ) (mime : Option Text)
    → IsBacked store
    → open_part (remove_entry store entry).0 i mime ≡ forget (entry ∷ []) (open_part store) i mime
unfolding remove_entry remove drop_entries
remove_entry-forgets store entry i mime b =
    let out = remove store.tables entry in
    elim (Bool-cases (is_some (summary store.tables entry))) [
      | inr e ↦ rw (e, remove_entry) (forget_absent store entry b.consistent e i mime)
      | inl e ↦
          rw (e, remove_entry)
            (swept-forgets store out.0 out.1 (entry ∷ [])
              (remove-collects store.tables entry b.consistent).0
              (λ n. rows-drop_entries store.tables [] n (entry ∷ [])) i mime)
    ]

-- Clearing is forgetting the entries that are not pinned: what can be fetched of the others stays as
-- it was, with its content.
pub clear_entries-forgets :
    (store : Store) (i : ℕ) (mime : Option Text)
    → IsBacked store
    → open_part (clear_entries store) i mime
      ≡ forget
          (map (λ e. e.id) (keep (λ e. not e.pinned) store.tables.entries))
          (open_part store)
          i
          mime
unfolding clear_entries clear
clear_entries-forgets store i mime b =
    let ids = map (λ e. e.id) (keep (λ e. not e.pinned) store.tables.entries) in
    swept-forgets store (clear store.tables).0 (clear store.tables).1 ids
      (clear-collects store.tables b.consistent).0 (λ n. rows-drop_entries store.tables [] n ids) i
      mime

expire_entries-forgets :
    (store : Store) (cutoff i : ℕ) (mime : Option Text)
    → IsBacked store
    → let out = expire_entries store cutoff in
      open_part out.0 i mime ≡ forget out.1 (open_part store) i mime
unfolding expire_entries expire_before
expire_entries-forgets store cutoff i mime b =
    let ids =
      map (λ e. e.id) (take batch (sort_by older (keep (due cutoff) store.tables.entries))) in
    swept-forgets store (expire_before store.tables cutoff batch).0
      (expire_before store.tables cutoff batch).1 ids
      (expire_before-Expires store.tables cutoff batch b.consistent).consistent
      (λ n. rows-drop_entries store.tables [] n ids) i mime

forget-append :
    (is js : List ℕ) (archive : Archive) (i : ℕ) (mime : Option Text)
    → forget js (forget is archive) i mime ≡ forget (is ++ js) archive i mime
forget-append is js archive i mime = ground (arith, any-append (λ j. j == i) is js)

expire_rounds-forgets :
    (rounds : ℕ) (store : Store) (cutoff i : ℕ) (mime : Option Text)
    → IsBacked store
    → let out = expire_rounds rounds store cutoff in
      open_part out.0 i mime ≡ forget out.1 (open_part store) i mime
unfolding expire_rounds
expire_rounds-forgets zero store cutoff i mime b = refl
expire_rounds-forgets (suc rounds) store cutoff i mime b =
    let out = expire_entries store cutoff in
    let once = expire_entries-forgets store cutoff i mime b in
    let later =
      expire_rounds-forgets rounds out.0 cutoff i mime (expire_entries-IsBacked store cutoff b) in
    elim (Bool-cases (ltb (length out.1) batch)) [
      | inl e ↦ rw e once
      | inr e ↦ rw e (
          later
          ∙ ap (λ r. if id_mem i (expire_rounds rounds out.0 cutoff).1 then ok none else r) once
          ∙ forget-append out.1 (expire_rounds rounds out.0 cutoff).1 (open_part store) i mime)
    ]

-- A run of maintenance is forgetting the entries that it reports as removed: what can be fetched of
-- the others stays as it was, with its content.
pub expire-forgets :
    (store : Store) (retention : Option ℕ) (now i : ℕ) (mime : Option Text)
    → IsBacked store
    → let out : Store × List ℕ = expire store retention now in
      open_part out.0 i mime ≡ forget out.1 (open_part store) i mime
unfolding expire
expire-forgets store none now i mime b = refl
expire-forgets store (some seconds) now i mime b =
    expire_rounds-forgets 4 store (now - seconds) i mime b
