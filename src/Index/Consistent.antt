-- ===== src/Index/Consistent.antt =====
-- What holds between the tables of daemon/src/store/index.rs, and that dropping an entry keeps it.
pub mod Rows
use rldyour_clipboard.Index.Tables.{BlobRow, EntryRow, PartRow, Tables, has_id}
use rldyour_clipboard.Index.Refs.Counts.{refs, uses, IsPositive}
use rldyour_clipboard.Index.Refs.Orphans.{IsDistinct}
use rldyour_clipboard.Index.Consistent.Rows.{DistinctIds, DistinctIdentities}
use rldyour_clipboard.Prelude.{
  ℕ, zero, suc, ◌+◌, ◌-◌, ◌*◌, ◌/◌, ◌%◌, ◌^◌, ◌≤◌, ◌<◌, min, ◌≡◌, refl, sym, ap, ◌∙◌, subst, ◌≢◌,
  ◌↔◌, ◌⊎◌, inl, inr, Bool, true, false, not, ◌&&◌, ◌||◌, Option, none, some, List, [], ◌∷◌, ◌++◌,
  map, append-nil, append_assoc, reverse, arith, ltb, leb, ◌==◌, if◌then◌else◌, ltb→lt, lt→ltb,
  leb→le, le→leb, ==_iff, Bool-cases, Option-cases, is_some, Result, ok, err, ◌>>=◌, length, take,
  drop, head_of, any, all, keep, find, All, length-append, length-take, length-drop,
  take-append-drop, length-keep-le, any-append, All-append, All-map, Text, codes, text_eq,
  text_eq_iff, text_eq_refl, text_le, text_mem, lower_char, to_ascii_lowercase, is_whitespace, trim,
  starts_with, ends_with_char, strip_prefix_char, utf8, sort_by, insert_by, IsSorted,
  length-sort_by, any-sort_by, All-sort_by, sort_by-IsSorted, sort_by_of_IsSorted,
}

-- Counts are exact, no row of `blob` is without a reference, keys are unique, and parts and search
-- rows belong to entries.
pub record IsConsistent (t : Tables) : Type 0 where
  pub counted : (x : Text) → refs x t.blobs ≡ uses x t
  pub positive : IsPositive t.blobs
  pub distinct_blobs : IsDistinct t.blobs
  pub distinct_ids : DistinctIds t.entries
  pub distinct_identities : DistinctIdentities t.entries
  pub parts_live : (id : ℕ) → any (λ p. p.entry == id) t.parts ≡ true → has_id id t.entries ≡ true
  pub fts_live : (id : ℕ) → any (λ f. f.rowid == id) t.fts ≡ true → has_id id t.entries ≡ true
