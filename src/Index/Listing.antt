-- ===== src/Index/Listing.antt =====
-- daemon/src/store/index.rs: the list of one page, and the search expression behind it.
-- `is_alphanumeric` is `char::is_alphanumeric`; `matches` is SQLite's FTS5, whether a body matches
-- an expression.
use rldyour_clipboard.Index.Tables.{EntryRow, FtsRow, Tables, max_limit, find_entry}
use rldyour_clipboard.Index.Queries.{read_summary, mimes}
use rldyour_clipboard.Proto.{Summary}
use rldyour_clipboard.Kind.{Kind, as_str, is_empty}
use rldyour_clipboard.Prelude.{
  ℕ, Bool, true, false, not, ◌&&◌, ◌||◌, Option, none, some, List, [], ◌∷◌, ◌++◌, map, ltb, ◌==◌,
  if◌then◌else◌, take, any, keep, Text, codes, text_eq, sort_by,
}

module _ (is_alphanumeric : ℕ → Bool) where
  abbrev pub is_word : ℕ → Bool
  is_word c = is_alphanumeric c || (c == b'_')

  -- `split` and `filter`: the runs of word characters, with the run that is being read.
  unfoldable pub tokens_from : Text → Text → List Text
  tokens_from run [] = if is_empty run then [] else run ∷ []
  tokens_from run (c ∷ cs) = elim (is_word c) [
    | true ↦ tokens_from (run ++ c ∷ []) cs
    | false ↦ if is_empty run then tokens_from [] cs else run ∷ tokens_from [] cs
  ]

  abbrev pub quoted : Text → Text
  quoted token = b'"' ∷ (token ++ b'"' ∷ [])

  -- `map` over the positions, and `join(" AND ")`
  unfoldable pub join_tokens : List Text → Text
  join_tokens [] = []
  join_tokens (token ∷ []) = quoted token ++ b'*' ∷ []
  join_tokens (token ∷ next ∷ rest) = quoted token ++ codes " AND " ++ join_tokens (next ∷ rest)

  unfoldable pub fts_query : Text → Text
  unfolding tokens_from join_tokens
  fts_query s = join_tokens (tokens_from [] s)

abbrev pub clamp_limit : ℕ → ℕ
clamp_limit limit = if ltb limit 1 then 1 else if ltb max_limit limit then max_limit else limit

-- `(pinned, at, id) < (?2, ?3, ?1)`
abbrev pub row_lt : EntryRow → Bool → ℕ → ℕ → Bool
row_lt e pinned at id =
    if e.pinned
    then pinned && (ltb e.at at || ((e.at == at) && ltb e.id id))
    else pinned || (ltb e.at at || ((e.at == at) && ltb e.id id))

-- Whether a row lies behind the cursor `before`, whose own row was `mark`.
unfoldable pub behind : Option ℕ → Option (Bool × ℕ) → EntryRow → Bool
behind none mark e = true
behind (some id) none e = ltb e.id id
behind (some id) (some (pinned, at)) e = row_lt e pinned at id

-- ORDER BY pinned DESC, at DESC, id DESC
unfoldable pub newest : EntryRow → EntryRow → Bool
newest a b = not (row_lt a b.pinned b.at b.id)

abbrev pub mark_of : Option EntryRow → Option (Bool × ℕ)
mark_of none = none
mark_of (some e) = some (e.pinned, e.at)

unfoldable pub mark : Tables → Option ℕ → Option (Bool × ℕ)
mark t none = none
mark t (some id) = mark_of (find_entry id t.entries)

unfoldable pub is_kind : Option Kind → EntryRow → Bool
unfolding as_str text_eq
is_kind none e = true
is_kind (some k) e = text_eq e.kind (as_str k)

unfoldable pub is_pinned : Option Bool → EntryRow → Bool
is_pinned none e = true
is_pinned (some true) e = e.pinned
is_pinned (some false) e = not e.pinned

module _ (is_alphanumeric : ℕ → Bool) (matches : Text → Text → Bool) where
  -- `query.map(fts_query).filter(|text| !text.is_empty())`
  unfoldable pub matching : Option Text → Option Text
  unfolding fts_query
  matching none = none
  matching (some s) =
      let expression = fts_query is_alphanumeric s in
      if is_empty expression then none else some expression

  -- JOIN entry_fts f ON f.rowid = e.id WHERE f.body MATCH …
  unfoldable pub is_match : List FtsRow → Option Text → EntryRow → Bool
  is_match fts none e = true
  is_match fts (some expression) e = any (λ f. (f.rowid == e.id) && matches expression f.body) fts

  -- The rows that a list without a cursor would hold.
  unfoldable pub selected : Tables → Option Text → Option Kind → Option Bool → EntryRow → Bool
  unfolding matching is_match is_kind is_pinned
  selected t query only pinned e =
      is_match t.fts (matching query) e && is_kind only e && is_pinned pinned e

  unfoldable pub page :
      Tables → ℕ → Option ℕ → Option Text → Option Kind → Option Bool → List EntryRow
  unfolding selected behind newest mark sort_by
  page t limit before query only pinned = take (clamp_limit limit) (
      sort_by newest
        (keep (λ e. behind before (mark t before) e && selected t query only pinned e) t.entries))

  unfoldable pub list :
      Tables → ℕ → Option ℕ → Option Text → Option Kind → Option Bool → List Summary
  unfolding page read_summary mimes
  list t limit before query only pinned =
      map (λ e. read_summary e (mimes t e.id)) (page t limit before query only pinned)
