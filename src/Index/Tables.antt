-- ===== src/Index/Tables.antt =====
-- daemon/src/store/index.rs: the tables of `Index::migrate`, and the values that rows are made of.
use rldyour_clipboard.Prelude.{
  ℕ, ◌+◌, ◌-◌, ◌^◌, Bool, Option, none, some, List, [], ◌∷◌, ◌==◌, any, find, Text,
}

pub record BlobRow : Type 0 where
  pub digest : Text
  pub bytes : ℕ
  pub refs : ℕ

pub record EntryRow : Type 0 where
  pub id : ℕ
  pub identity : Text
  pub kind : Text
  pub bytes : ℕ
  pub preview : Option Text
  pub width : Option ℕ
  pub height : Option ℕ
  pub thumb : Option Text
  pub pinned : Bool
  pub source : Option Text
  pub at : ℕ

pub record PartRow : Type 0 where
  pub entry : ℕ
  pub mime : Text
  pub digest : Text
  pub bytes : ℕ
  pub rank : ℕ

pub record FtsRow : Type 0 where
  pub rowid : ℕ
  pub body : Text

pub record Tables : Type 0 where
  pub blobs : List BlobRow
  pub entries : List EntryRow
  pub parts : List PartRow
  pub fts : List FtsRow

-- The tables of a new archive.
abbrev pub empty : Tables
empty = record { blobs = []; entries = []; parts = []; fts = [] }

pub record Part : Type 0 where
  pub mime : Text
  pub digest : Text
  pub bytes : ℕ

pub record Facts : Type 0 where
  pub preview : Option Text
  pub width : Option ℕ
  pub height : Option ℕ
  pub thumb : Option Part
  pub source : Option Text
  pub body : Option Text

abbrev pub max_limit : ℕ
max_limit = 500

-- What SQLite reports: a violated constraint, or a statement that failed for another reason.
pub data DbError : Type 0 where
  constraint failed : DbError

abbrev pub i64_max : ℕ
i64_max = 2 ^ 63 - 1

abbrev pub option_list {ℓ} : {A : Type ℓ} → Option A → List A
option_list none = []
option_list (some a) = a ∷ []

abbrev pub has_id : ℕ → List EntryRow → Bool
has_id id es = any (λ e. e.id == id) es

abbrev pub find_entry : ℕ → List EntryRow → Option EntryRow
find_entry id es = find (λ e. e.id == id) es

-- SELECT COALESCE(SUM(bytes), 0) FROM blob
unfoldable pub sum_bytes : List BlobRow → ℕ
sum_bytes [] = 0
sum_bytes (b ∷ bs) = b.bytes + sum_bytes bs

unfoldable pub bytes : Tables → ℕ
unfolding sum_bytes
bytes t = sum_bytes t.blobs
