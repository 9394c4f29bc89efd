-- ===== src/Index/Queries.antt =====
-- daemon/src/store/index.rs: the methods that read the tables. `matches` is the full-text search of
-- SQLite's FTS5: whether a body matches an expression.
use rldyour_clipboard.Index.Tables.{EntryRow, PartRow, Tables, find_entry, option_list}
use rldyour_clipboard.Index.Refs.{find_blob, part_digests, thumb_of}
use rldyour_clipboard.Proto.{Summary}
use rldyour_clipboard.Kind.{Kind, as_str, parse, is_empty}
use rldyour_clipboard.Prelude.{
  ℕ, Bool, false, ◌&&◌, ◌||◌, Option, none, some, List, [], ◌∷◌, ◌++◌, map, ltb, ◌==◌,
  if◌then◌else◌, is_some, length, head_of, any, keep, find, Text, text_eq, text_le, text_mem,
  lower_char, sort_by,
}

-- `read_summary`
unfoldable pub read_summary : EntryRow → List Text → Summary
unfolding parse as_str
read_summary e mimes = record {
  id = e.id;
  kind = as_str (elim (parse e.kind) [ none ↦ Kind.text | some k ↦ k ]);
  mimes = mimes;
  bytes = e.bytes;
  preview = e.preview;
  width = e.width;
  height = e.height;
  thumb = is_some e.thumb;
  pinned = e.pinned;
  source = e.source;
  at = e.at;
}

-- ORDER BY rank, mime
unfoldable pub preferred : PartRow → PartRow → Bool
unfolding text_le
preferred a b = ltb a.rank b.rank || ((a.rank == b.rank) && text_le a.mime b.mime)

unfoldable pub parts_of : List PartRow → ℕ → List PartRow
unfolding preferred sort_by
parts_of ps id = sort_by preferred (keep (λ p. p.entry == id) ps)

unfoldable pub mimes : Tables → ℕ → List Text
unfolding parts_of
mimes t id = map (λ p. p.mime) (parts_of t.parts id)

unfoldable pub summary : Tables → ℕ → Option Summary
unfolding read_summary mimes
summary t id = elim (find_entry id t.entries) [
  | none ↦ none
  | some e ↦ some (read_summary e (mimes t id))
]

pub record Location : Type 0 where
  pub mime : Text
  pub digest : Text
  pub bytes : ℕ

-- `read_location`
abbrev pub read_location : Option PartRow → Option Location
read_location none = none
read_location (some p) = some (record { mime = p.mime; digest = p.digest; bytes = p.bytes })

unfoldable pub locate : Tables → ℕ → Option Text → Option Location
unfolding parts_of
locate t entry (some mime) =
    read_location (find (λ p. (p.entry == entry) && text_eq p.mime mime) t.parts)
locate t entry none = read_location (head_of (parts_of t.parts entry))

-- `prefix` with a backslash before each `\`, `%` and `_`
unfoldable pub escape_like : Text → Text
escape_like [] = []
escape_like (c ∷ cs) =
    if (c == b'\\') || (c == b'%') || (c == b'_')
    then b'\\' ∷ c ∷ escape_like cs
    else c ∷ escape_like cs

-- A character of a LIKE pattern matches it in either case, for the letters of ASCII.
unfoldable pub like_char : ℕ → (Text → Bool) → Text → Bool
unfolding lower_char
like_char p k [] = false
like_char p k (c ∷ cs) = (lower_char c == lower_char p) && k cs

-- `_` matches any one character.
unfoldable pub like_one : ℕ → (Text → Bool) → Text → Bool
unfolding like_char
like_one p k [] = false
like_one p k (c ∷ cs) = if p == b'_' then k cs else like_char p k (c ∷ cs)

-- `%` matches any run of characters.
unfoldable pub like_run : (Text → Bool) → Text → Bool
like_run k [] = k []
like_run k (c ∷ cs) = k (c ∷ cs) || like_run k cs

-- SQLite's `text LIKE pattern ESCAPE '\'`.
unfoldable pub like : Text → Text → Bool
unfolding like_one like_run
like [] s = is_empty s
like (p ∷ []) s =
    if p == b'\\' then false else if p == b'%' then like_run is_empty s else like_one p is_empty s
like (p ∷ q ∷ ps) s =
    if p == b'\\'
    then like_char q (like ps) s
    else if p == b'%'
    then like_run (like (q ∷ ps)) s
    else like_one p (like (q ∷ ps)) s

unfoldable pub locate_prefixed : Tables → ℕ → Text → Option Location
unfolding like escape_like preferred sort_by
locate_prefixed t entry prefix =
    let pattern = escape_like prefix ++ b'%' ∷ [] in
    read_location
      (head_of (sort_by preferred (keep (λ p. (p.entry == entry) && like pattern p.mime) t.parts)))

-- The thumbnail's blob, where the join with `blob` finds one.
unfoldable pub thumb : Tables → ℕ → Option (Text × ℕ)
unfolding find_blob
thumb t entry = elim (find_entry entry t.entries) [
  | none ↦ none
  | some e ↦ elim e.thumb [
    | none ↦ none
    | some digest ↦ elim (find_blob t.blobs digest) [
      | none ↦ none
      | some b ↦ some (b.digest, b.bytes)
    ]
  ]
]

-- UNION drops what was listed before.
abbrev pub add_new : List Text → Text → List Text
add_new ds d = if text_mem d ds then ds else ds ++ d ∷ []

abbrev pub union : List Text → List Text → List Text
union ds [] = ds
union ds (e ∷ es) = union (add_new ds e) es

unfoldable pub entry_digests : Tables → ℕ → List Text
unfolding part_digests thumb_of text_mem
entry_digests t entry =
    union (union [] (part_digests entry t.parts)) (option_list (thumb_of entry t.entries))

unfoldable pub references : Tables → Text → Bool
references t digest = any (λ b. text_eq b.digest digest && ltb 0 b.refs) t.blobs

unfoldable pub entries : Tables → ℕ
entries t = length t.entries

unfoldable pub pinned : Tables → ℕ
pinned t = length (keep (λ e. e.pinned) t.entries)

unfoldable pub known_digests : Tables → List Text
known_digests t = map (λ b. b.digest) t.blobs
