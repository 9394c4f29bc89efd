-- ===== src/Index/Changes.antt =====
-- daemon/src/store/index.rs: the methods that change the tables. A method of `Index` is a function
-- from the tables to the tables that its transaction commits.
use rldyour_clipboard.Index.Tables.{
  EntryRow, PartRow, Tables, Part, Facts, DbError, constraint, has_id, bytes,
}
use rldyour_clipboard.Index.Refs.{reference, Released, release_entry}
use rldyour_clipboard.Kind.{classify, as_str, rank}
use rldyour_clipboard.Prelude.{
  ℕ, zero, suc, ◌+◌, ◌-◌, Bool, false, not, ◌&&◌, ◌||◌, Option, none, some, List, [], ◌∷◌, ◌++◌,
  map, ltb, leb, ◌==◌, if◌then◌else◌, is_some, Result, ok, err, ◌>>=◌, length, take, head_of, any,
  keep, Text, text_eq, sort_by,
}

abbrev pub id_of_identity : Text → List EntryRow → Option ℕ
id_of_identity identity [] = none
id_of_identity identity (e ∷ es) =
    if text_eq e.identity identity then some e.id else id_of_identity identity es

-- UPDATE entry SET at = ?2 WHERE id = ?1
unfoldable pub set_at : ℕ → ℕ → List EntryRow → List EntryRow
set_at id at [] = []
set_at id at (e ∷ es) = (if e.id == id then record e { at = at } else e) ∷ set_at id at es

unfoldable pub touch : Tables → Text → ℕ → Tables × Option ℕ
unfolding set_at
touch t identity at = elim (id_of_identity identity t.entries) [
  | none ↦ (t, none)
  | some id ↦ (record t { entries = set_at id at t.entries }, some id)
]

-- The rowid that SQLite chooses for a new row: one more than the largest.
unfoldable pub next_id : List EntryRow → ℕ
next_id [] = 1
next_id (e ∷ es) = if ltb e.id (next_id es) then next_id es else e.id + 1

abbrev pub part_has : ℕ → Text → List PartRow → Bool
part_has entry mime ps = any (λ p. (p.entry == entry) && text_eq p.mime mime) ps

-- The loop over the parts; the primary key `(entry, mime)` refuses a second row of one mime.
unfoldable pub insert_parts : Tables → ℕ → List Part → Result DbError Tables
unfolding reference rank
insert_parts t id [] = ok t
insert_parts t id (p ∷ ps) =
    let rest =
      insert_parts
        (record t {
          parts =
              t.parts
              ++ record {
                entry = id;
                mime = p.mime;
                digest = p.digest;
                bytes = p.bytes;
                rank = rank p.mime;
              }
                ∷ [];
          blobs = reference t.blobs p.digest p.bytes;
        })
        id ps in
    if part_has id p.mime t.parts then err constraint else rest

unfoldable pub insert_thumb : Tables → Option Part → Tables
unfolding reference
insert_thumb t none = t
insert_thumb t (some thumb) = record t { blobs = reference t.blobs thumb.digest thumb.bytes }

unfoldable pub insert_body : Tables → ℕ → Option Text → Result DbError Tables
insert_body t id none = ok t
insert_body t id (some body) =
    if any (λ f. f.rowid == id) t.fts
    then err constraint
    else ok (record t { fts = t.fts ++ record { rowid = id; body = body } ∷ [] })

abbrev pub total_bytes : List Part → ℕ
total_bytes [] = 0
total_bytes (p ∷ ps) = p.bytes + total_bytes ps

abbrev pub thumb_digest : Option Part → Option Text
thumb_digest none = none
thumb_digest (some p) = some p.digest

-- The row that `insert` adds to `entry`.
unfoldable pub new_entry : ℕ → Text → List Part → Facts → ℕ → EntryRow
unfolding classify as_str
new_entry id identity parts facts at = record {
  id = id;
  identity = identity;
  kind = as_str (classify (map (λ p. p.mime) parts) facts.preview);
  bytes = total_bytes parts;
  preview = facts.preview;
  width = facts.width;
  height = facts.height;
  thumb = thumb_digest facts.thumb;
  pinned = false;
  source = facts.source;
  at = at;
}

-- A failed statement drops the transaction, and with it every change.
unfoldable pub insert : Tables → Text → List Part → Facts → ℕ → Result DbError (Tables × ℕ)
unfolding next_id insert_parts insert_thumb insert_body new_entry
insert t identity parts facts at =
    let id = next_id t.entries in
    if is_some (id_of_identity identity t.entries)
    then err constraint
    else insert_parts
        (record t { entries = t.entries ++ new_entry id identity parts facts at ∷ [] }) id parts
      >>= λ t₁. insert_body (insert_thumb t₁ facts.thumb) id facts.body >>= λ t₂. ok (t₂, id)

-- UPDATE entry SET pinned = ?2 WHERE id = ?1
unfoldable pub pin_rows : ℕ → Bool → List EntryRow → List EntryRow
pin_rows id pinned [] = []
pin_rows id pinned (e ∷ es) =
    (if e.id == id then record e { pinned = pinned } else e) ∷ pin_rows id pinned es

-- The flag is `changed > 0`.
unfoldable pub set_pinned : Tables → ℕ → Bool → Tables × Bool
unfolding pin_rows
set_pinned t entry pinned =
    (record t { entries = pin_rows entry pinned t.entries }, has_id entry t.entries)

-- DELETE FROM entry WHERE id = ?1, which deletes the entry's parts too (ON DELETE CASCADE),
-- and DELETE FROM entry_fts WHERE rowid = ?1
unfoldable pub delete_entry : Tables → ℕ → Tables
delete_entry t id = record t {
  entries = keep (λ e. not (e.id == id)) t.entries;
  parts = keep (λ p. not (p.entry == id)) t.parts;
  fts = keep (λ f. not (f.rowid == id)) t.fts;
}

-- The three statements that drop one entry, wherever the source drops one.
unfoldable pub drop_entry : Tables → ℕ → Tables × Released
unfolding release_entry delete_entry
drop_entry t id = let released = release_entry t id in (delete_entry released.0 id, released.1)

unfoldable pub remove : Tables → ℕ → Tables × List Text
unfolding drop_entry
remove t entry =
    let dropped = drop_entry t entry in
    (dropped.0, if has_id entry t.entries then dropped.1.digests else [])

-- The loop of `clear` and of `expire_before`.
unfoldable pub drop_entries : Tables → List Text → List ℕ → Tables × List Text
unfolding drop_entry
drop_entries t orphaned [] = (t, orphaned)
drop_entries t orphaned (id ∷ ids) =
    let dropped = drop_entry t id in drop_entries dropped.0 (orphaned ++ dropped.1.digests) ids

unfoldable pub clear : Tables → Tables × List Text
unfolding drop_entries
clear t = drop_entries t [] (map (λ e. e.id) (keep (λ e. not e.pinned) t.entries))

-- ORDER BY at ASC, id ASC
unfoldable pub older : EntryRow → EntryRow → Bool
older a b = ltb a.at b.at || ((a.at == b.at) && leb a.id b.id)

-- SELECT id FROM entry WHERE pinned = 0 ORDER BY at ASC, id ASC LIMIT 1
unfoldable pub victim : List EntryRow → Option EntryRow
unfolding older sort_by
victim es = head_of (sort_by older (keep (λ e. not e.pinned) es))

pub record Evicted : Type 0 where
  pub tables : Tables
  pub orphaned : List Text
  pub removed : List ℕ

-- The loop of `evict_to`; a round drops one entry, so the entries bound the rounds.
unfoldable pub evict_loop : ℕ → ℕ → ℕ → Evicted → Evicted
unfolding victim drop_entry
evict_loop zero budget used s = s
evict_loop (suc fuel) budget used s =
    if leb used budget then s else elim (victim s.tables.entries) [
      | none ↦ s
      | some e ↦
          let dropped = drop_entry s.tables e.id in
          evict_loop fuel budget (used - dropped.1.bytes) (record {
            tables = dropped.0;
            orphaned = s.orphaned ++ dropped.1.digests;
            removed = s.removed ++ e.id ∷ [];
          })
    ]

unfoldable pub evict_to : Tables → ℕ → Evicted
unfolding bytes evict_loop
evict_to t budget =
    evict_loop (suc (length t.entries)) budget (bytes t)
      (record { tables = t; orphaned = []; removed = [] })

abbrev pub due : ℕ → EntryRow → Bool
due cutoff e = not e.pinned && ltb e.at cutoff

unfoldable pub expire_before : Tables → ℕ → ℕ → Tables × List Text × List ℕ
unfolding drop_entries older sort_by
expire_before t cutoff batch =
    let doomed = map (λ e. e.id) (take batch (sort_by older (keep (due cutoff) t.entries))) in
    let out = drop_entries t [] doomed in (out.0, out.1, doomed)
