-- ===== src/Store/Serving.antt =====
-- daemon/src/store/mod.rs: `transcode` and `thumbnail`, which make what a client is served.
use rldyour_clipboard.Index.Queries.{locate_prefixed, thumb}
use rldyour_clipboard.Store.{StoreError}
use rldyour_clipboard.Store.Deriving.{open_read, or_io, thumbnailed_image}
use rldyour_clipboard.Store.Recording.{Store}
use rldyour_clipboard.Prelude.{
  ℕ, ◌*◌, ◌%◌, ◌^◌, not, Option, none, some, List, ltb, if◌then◌else◌, Result, ok, ◌>>=◌, length,
  take, Text, codes, text_eq, to_ascii_lowercase,
}

-- The pixels of a thumbnail, four bytes each.
pub record Pixels : Type 0 where
  pub width : ℕ
  pub height : ℕ
  pub rgba : List ℕ

abbrev pub max_thumbnail : ℕ
max_thumbnail = 4 * 1024 * 1024

module _ (write_bmp : List ℕ → Option (List ℕ)) where
  unfoldable pub transcode : Store → ℕ → Text → Result StoreError (Option (Text × List ℕ × ℕ))
  unfolding text_eq to_ascii_lowercase locate_prefixed open_read
  transcode store entry mime =
      if not (text_eq (to_ascii_lowercase mime) (codes "image/bmp"))
      then ok none
      else elim (locate_prefixed store.tables entry (codes "image/")) [
        | none ↦ ok none
        | some at ↦ or_io (open_read at.digest store.blobs.files) >>= λ content.
            if ltb thumbnailed_image at.bytes
            then ok none
            else elim (write_bmp (take at.bytes content)) [
              | none ↦ ok none
              | some bmp ↦ ok (some (codes "image/bmp", bmp, length bmp))
            ]
      ]

module _ (decode : List ℕ → Option Pixels) where
  unfoldable pub thumbnail : Store → ℕ → Result StoreError (Option Pixels)
  unfolding thumb open_read
  thumbnail store entry = elim (thumb store.tables entry) [
    | none ↦ ok none
    | some (digest, bytes) ↦ do
      content ← or_io (open_read digest store.blobs.files)
      if ltb max_thumbnail bytes then ok none else ok (decode (take bytes content))
  ]

-- Pixels::stride
unfoldable pub stride : Pixels → ℕ
stride pixels = (pixels.width * 4) % 2 ^ 32
