-- ===== src/Store/Deriving.antt =====
-- daemon/src/store/mod.rs: the identity of a draft, and what `derive` reads out of its content.
-- `thumb_of_image` is `thumb::make`, and `lossy` is `String::from_utf8_lossy`.
use rldyour_clipboard.Index.Tables.{Part, Facts}
use rldyour_clipboard.Io.{not_found, Input, Io}
use rldyour_clipboard.Blobs.{Blobs, Written}
use rldyour_clipboard.Store.{StoreError, io, db, Accepted, write_from}
use rldyour_clipboard.Kind.{rank, is_text, is_image, is_empty}
use rldyour_clipboard.Kind.Preview.{preview}
use rldyour_clipboard.Prelude.{
  ℕ, Bool, false, Option, none, some, List, [], ◌∷◌, ◌++◌, map, leb, if◌then◌else◌, Result, ok, err,
  ◌>>=◌, length, take, keep, Text, codes, text_eq, text_le, utf8, sort_by,
}

abbrev pub indexed_text : ℕ
indexed_text = 65536

abbrev pub thumbnailed_image : ℕ
thumbnailed_image = 67108864

-- `thumb::Thumbnail`
pub record Made : Type 0 where
  pub png : Option (List ℕ)
  pub width : Option ℕ
  pub height : Option ℕ

pub record Derived : Type 0 where
  pub facts : Facts
  pub thumbnail : Option Written

unfoldable pub pair_of : Accepted → Text
pair_of a = a.mime ++ 0 ∷ a.digest

-- The bytes that the hasher of `identity` sees.
unfoldable pub hashed : List Text → List ℕ
unfolding utf8
hashed [] = []
hashed (pair ∷ pairs) = utf8 pair ++ b'\n' ∷ hashed pairs

-- `min_by_key`: the first of the least.
unfoldable pub least_rank : List Accepted → Option Accepted
unfolding rank
least_rank [] = none
least_rank (a ∷ rest) = elim (least_rank rest) [
  | none ↦ some a
  | some b ↦ if leb (rank a.mime) (rank b.mime) then some a else some b
]

unfoldable pub best : (Text → Bool) → List Accepted → Option Accepted
unfolding least_rank
best matches accepted = least_rank (keep (λ a. matches a.mime) accepted)

unfoldable pub open_read : Text → List (Text × List ℕ) → Io (List ℕ)
unfolding text_eq
open_read digest [] = err not_found
open_read digest ((name, content) ∷ files) =
    if text_eq name digest then ok content else open_read digest files

abbrev pub or_io {ℓ} : {A : Type ℓ} → Io A → Result StoreError A
or_io (ok a) = ok a
or_io (err e) = err (io e)

abbrev pub or_db {ℓ κ} : {A : Type ℓ} → {E : Type κ} → Result E A → Result StoreError A
or_db (ok a) = ok a
or_db (err e) = err db

-- A content in memory, as a reader.
abbrev pub cursor : List ℕ → Input
cursor content = record { buffers = if is_empty content then [] else content ∷ []; broken = false }

abbrev pub part_of : Accepted → Part
part_of a = record { mime = a.mime; digest = a.digest; bytes = a.bytes }

abbrev pub no_facts : Facts
no_facts = record {
  preview = none;
  width = none;
  height = none;
  thumb = none;
  source = none;
  body = none;
}

unfoldable pub identity : (List ℕ → Text) → List Accepted → Text
unfolding hashed pair_of sort_by text_le
identity digest_of accepted = digest_of (hashed (sort_by text_le (map pair_of accepted)))

module _ (write_all : List ℕ → List ℕ → Io (Unit {0})) (digest_of : List ℕ → Text)
    (lossy : List ℕ → Text) (thumb_of_image : List ℕ → Made) where
  unfoldable pub read_text : Blobs → Text → ℕ → Result StoreError Text
  unfolding open_read
  read_text blobs digest limit = do
    content ← or_io (open_read digest blobs.files)
    ok (lossy (take limit content))

  -- The first half of `derive`: the preview and the text for search.
  unfoldable pub derive_text : Blobs → List Accepted → Result StoreError Facts
  unfolding best read_text
  derive_text blobs accepted = elim (best is_text accepted) [
    | none ↦ ok no_facts
    | some part ↦ do
      text ← read_text blobs part.digest indexed_text
      ok (record no_facts { preview = some (preview text); body = some text })
  ]

  -- The thumbnail that was made, if one was, goes into the blobs.
  unfoldable pub store_thumb : Blobs → Facts → Made → Result StoreError (Derived × Blobs)
  unfolding write_from
  store_thumb blobs facts made =
      let sized = record facts { width = made.width; height = made.height } in
      elim made.png [
        | none ↦ ok (record { facts = sized; thumbnail = none }, blobs)
        | some png ↦
            let out = write_from write_all digest_of blobs (cursor png) (length png) in
            elim out.0.0 [
              | err e ↦ err (io e)
              | ok written ↦
                  let thumb : Part = record {
                    mime = codes "image/png";
                    digest = written.digest;
                    bytes = written.bytes;
                  } in
                  ok (
                    record {
                      facts = record sized { thumb = some thumb };
                      thumbnail = some written;
                    },
                    out.0.1,
                  )
            ]
      ]

  -- The second half of `derive`: the size and the thumbnail of a picture that is not too large.
  unfoldable pub derive_image : Blobs → List Accepted → Facts → Result StoreError (Derived × Blobs)
  unfolding best open_read store_thumb
  derive_image blobs accepted facts = elim (best is_image accepted) [
    | none ↦ ok (record { facts = facts; thumbnail = none }, blobs)
    | some part ↦
        if leb part.bytes thumbnailed_image
        then (or_io (open_read part.digest blobs.files)
            >>= (λ content. store_thumb blobs facts (thumb_of_image (take part.bytes content))))
        else ok (record { facts = facts; thumbnail = none }, blobs)
  ]

  unfoldable pub derive : Blobs → List Accepted → Result StoreError (Derived × Blobs)
  unfolding derive_text derive_image
  derive blobs accepted = do facts ← derive_text blobs accepted; derive_image blobs accepted facts
