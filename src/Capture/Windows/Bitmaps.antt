-- ===== src/Capture/Windows/Bitmaps.antt =====
-- The bitmaps that daemon/src/capture/windows.rs rebuilds, from the layout of a device-independent
-- bitmap: its info header, then a table of colours or of masks, four bytes each, then its pixels.
use rldyour_clipboard.Prelude.{ℕ, ◌<◌, ◌≡◌, ◌≢◌, ◌⊎◌, List, [], ◌∷◌, ◌++◌}

pub record Quad : Type 0 where
  pub blue : ℕ
  pub green : ℕ
  pub red : ℕ
  pub reserved : ℕ

unfoldable pub quad_bytes : List Quad → List ℕ
quad_bytes [] = []
quad_bytes (q ∷ quads) = q.blue ∷ q.green ∷ q.red ∷ q.reserved ∷ quad_bytes quads

-- How many entries the table has, by the bits of a pixel, the compression and the colours used.
pub data Table : ℕ → ℕ → ℕ → ℕ → Type 0 where
  monochrome : (compression : ℕ) → Table 1 compression 0 2
  sixteen_colours : (compression : ℕ) → Table 4 compression 0 16
  full_palette : (compression : ℕ) → Table 8 compression 0 256
  palette_of :
      (bits compression used : ℕ)
      → (bits ≡ 1) ⊎ ((bits ≡ 4) ⊎ (bits ≡ 8))
      → 0 < used
      → Table bits compression used used
  masks : (bits : ℕ) → (bits ≡ 16) ⊎ (bits ≡ 32) → Table bits 3 0 3
  high_colour :
      (bits compression : ℕ)
      → (bits ≡ 16) ⊎ (bits ≡ 32)
      → compression ≢ 3
      → Table bits compression 0 0
  true_colour : (compression : ℕ) → Table 24 compression 0 0

-- A bitmap as it comes: the info header, the table, the pixels.
abbrev pub laid_out : List ℕ → List Quad → List ℕ → List ℕ
laid_out info quads pixels = info ++ (quad_bytes quads ++ pixels)
