-- ===== src/Store/Thumb.antt =====
-- `make` of daemon/src/store/thumb.rs. `dimensions`, `decode`, `shrink` and `write_png` are what the
-- image crate answers: the size in the header, the decoded image within the limit on its memory, the
-- image scaled into a square, and its encoding.
use rldyour_clipboard.Store.Deriving.{Made}
use rldyour_clipboard.Prelude.{
  ℕ, ◌*◌, ◌<◌, ◌≡◌, refl, ◌&&◌, Option, none, some, List, arith, ltb, leb, if◌then◌else◌, lt→ltb,
}

abbrev pub edge : ℕ
edge = 256

abbrev pub max_pixels : ℕ
max_pixels = 16000000

abbrev pub no_thumbnail : Made
no_thumbnail = record { png = none; width = none; height = none }

module _ {ℓ} {Image : Type ℓ} (dimensions : List ℕ → Option (ℕ × ℕ))
    (decode : ℕ → List ℕ → Option Image) (shrink : ℕ → Image → Image)
    (write_png : Image → Option (List ℕ)) where
  -- The part behind the dimensions.
  unfoldable pub make_sized : List ℕ → ℕ → ℕ → Made
  make_sized content width height =
      let measured : Made = record { width = some width; height = some height; png = none } in
      if ltb max_pixels (width * height) then measured else elim (decode (max_pixels * 4) content) [
        | none ↦ measured
        | some decoded ↦
            let scaled =
              if leb width edge && leb height edge then decoded else shrink edge decoded in
            elim (write_png scaled) [
              | none ↦ measured
              | some png ↦ record measured { png = some png }
            ]
      ]

  unfoldable pub make : List ℕ → Made
  unfolding make_sized
  make content = elim (dimensions content) [
    | none ↦ no_thumbnail
    | some (width, height) ↦ make_sized content width height
  ]

  make_sized-width : (content : List ℕ) (w h : ℕ) → (make_sized content w h).width ≡ some w
  unfolding make_sized
  make_sized-width content w h = ground arith

  make_sized-large :
      (content : List ℕ) (w h : ℕ)
      → max_pixels < w * h
      → make_sized content w h ≡ record { width = some w; height = some h; png = none }
  unfolding make_sized
  make_sized-large content w h large = rw (lt→ltb max_pixels (w * h) large) refl
