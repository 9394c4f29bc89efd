-- ===== src/Store/Keeping.antt =====
-- daemon/src/store/mod.rs: removal, clearing, pinning and expiry, with the files they give up.
pub mod Backed
use rldyour_clipboard.Index.Tables.{Tables, has_id}
use rldyour_clipboard.Index.Changes.{remove, clear, expire_before, set_pinned}
use rldyour_clipboard.Index.Queries.{
  summary, locate, thumb, Location, entry_digests, entries, pinned,
}
use rldyour_clipboard.Index.Tables.{bytes}
use rldyour_clipboard.Io.{IoError, Io}
use rldyour_clipboard.Proto.{Summary}
use rldyour_clipboard.Store.{StoreError, io}
use rldyour_clipboard.Store.Sweeping.{sweep}
use rldyour_clipboard.Store.Deriving.{open_read, or_io}
use rldyour_clipboard.Store.Recording.{Store}
use rldyour_clipboard.Prelude.{
  ℕ, zero, suc, ◌+◌, ◌-◌, ◌*◌, ◌/◌, ◌%◌, ◌^◌, ◌≤◌, ◌<◌, min, ◌≡◌, refl, sym, ap, ◌∙◌, subst, ◌≢◌,
  ◌↔◌, ◌⊎◌, inl, inr, Bool, true, false, not, ◌&&◌, ◌||◌, Option, none, some, List, [], ◌∷◌, ◌++◌,
  map, append-nil, append_assoc, reverse, arith, ltb, leb, ◌==◌, if◌then◌else◌, ltb→lt, lt→ltb,
  leb→le, le→leb, ==_iff, Bool-cases, Option-cases, is_some, Result, ok, err, ◌>>=◌, length, take,
  drop, head_of, any, all, keep, find, All, length-append, length-take, length-drop,
  take-append-drop, length-keep-le, any-append, All-append, All-map, Text, codes, text_eq,
  text_eq_iff, text_eq_refl, text_le, text_mem, lower_char, to_ascii_lowercase, is_whitespace, trim,
  starts_with, ends_with_char, strip_prefix_char, utf8, sort_by, insert_by, IsSorted,
  length-sort_by, any-sort_by, All-sort_by, sort_by-IsSorted, sort_by_of_IsSorted, keep-sort_by,
  insert_by_least, All-keep, keep-All, keep-keep, All-take, All-map₂, List-cases, keep_congr,
  take_of_length-lt,
}

-- `tables` took the place of the store's, and the orphaned files are swept.
unfoldable pub swept : Store → Tables → List Text → Store
unfolding sweep
swept store tables orphaned = record store {
  tables = tables;
  blobs = sweep tables store.blobs orphaned;
}

unfoldable pub remove_entry : Store → ℕ → Store × Bool
unfolding remove swept summary
remove_entry store entry =
    let out = remove store.tables entry in
    if is_some (summary store.tables entry) then (swept store out.0 out.1, true) else (store, false)

unfoldable pub clear_entries : Store → Store
unfolding clear swept
clear_entries store = let out = clear store.tables in swept store out.0 out.1

abbrev pub batch : ℕ
batch = 256

unfoldable pub expire_entries : Store → ℕ → Store × List ℕ
unfolding expire_before swept
expire_entries store cutoff =
    let out = expire_before store.tables cutoff batch in (swept store out.0 out.1, out.2)

-- `stats`: the entries, the pinned ones and the bytes.
unfoldable pub stats : Store → ℕ × ℕ × ℕ
unfolding entries pinned bytes
stats store = (entries store.tables, pinned store.tables, bytes store.tables)

-- The content of a part, with its mime and the bytes that the index has of it.
unfoldable pub open_part : Store → ℕ → Option Text → Result StoreError (Option (Text × List ℕ × ℕ))
unfolding locate open_read
open_part store entry mime = elim (locate store.tables entry mime) [
  | none ↦ ok none
  | some at ↦ do
    content ← or_io (open_read at.digest store.blobs.files)
    ok (some (at.mime, content, at.bytes))
]

-- The rounds of `maintenance::expire`, each a batch, until a batch is short. The removed entries are
-- what the watchers are told.
unfoldable pub expire_rounds : ℕ → Store → ℕ → Store × List ℕ
unfolding expire_entries
expire_rounds zero store cutoff = (store, [])
expire_rounds (suc rounds) store cutoff =
    let out = expire_entries store cutoff in
    let rest = expire_rounds rounds out.0 cutoff in
    if ltb (length out.1) batch then out else (rest.0, out.1 ++ rest.1)

unfoldable pub expire : Store → Option ℕ → ℕ → Store × List ℕ
unfolding expire_rounds
expire store none now = (store, [])
expire store (some seconds) now = expire_rounds 4 store (now - seconds)

module _ (sync_pinned : Text → Io (Unit {0})) where
  unfoldable pub sync_all : List Text → Io (Unit {0})
  sync_all [] = ok tt
  sync_all (digest ∷ digests) =
      let rest = sync_all digests in elim (sync_pinned digest) [ err e ↦ err e | ok u ↦ rest ]

  -- The pin itself.
  unfoldable pub pin_synced : Store → ℕ → Bool → Result StoreError (Option Summary) × Store
  unfolding set_pinned summary
  pin_synced store entry pinned =
      let out = set_pinned store.tables entry pinned in
      if out.1
      then (ok (summary out.0 entry), record store { tables = out.0 })
      else (ok none, store)

  unfoldable pub pin_entry : Store → ℕ → Bool → Result StoreError (Option Summary) × Store
  unfolding sync_all pin_synced entry_digests summary
  pin_entry store entry false = pin_synced store entry false
  pin_entry store entry true =
      let done = pin_synced store entry true in
      if is_some (summary store.tables entry)
      then elim (sync_all (entry_digests store.tables entry)) [
        | err e ↦ (err (io e), store)
        | ok u ↦ done
      ]
      else (ok none, store)
