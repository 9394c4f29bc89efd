-- ===== src/Capture/Windows/Conversions.antt =====
-- What the conversions of daemon/src/capture/windows.rs give.
use rldyour_clipboard.Capture.Windows.{
  le32, bytes32, byte_at, u32_at, u16_at, palette, file_header, dib_to_bmp,
}
use rldyour_clipboard.Prelude.{
  ℕ, ◌+◌, ◌/◌, ◌%◌, ◌≤◌, ◌<◌, ◌≡◌, refl, ap, ◌∙◌, false, some, List, ◌∷◌, ◌++◌, arith, ltb, length,
  drop, take, [],
}

-- The bytes of an u32 spell it.
le32-bytes32 :
    (n : ℕ)
    → n < 4294967296
    → le32 (n % 256) ((n / 256) % 256) ((n / 65536) % 256) ((n / 16777216) % 256) ≡ n
le32-bytes32 n h = omega arith

-- A file of a bitmap, from its size and the place of its pixels.
abbrev file_of : ℕ → ℕ → List ℕ → List ℕ
file_of total at dib =
    b'B'
    ∷ b'M'
    ∷ (bytes32 (total % 4294967296) ++ 0 ∷ 0 ∷ 0 ∷ 0 ∷ (bytes32 (at % 4294967296) ++ dib))

spelled32 :
    (n : ℕ)
    → n < 4294967296
    → let m = n % 4294967296 in
      le32 (m % 256) ((m / 256) % 256) ((m / 65536) % 256) ((m / 16777216) % 256) ≡ n
spelled32 n h =
    let whole : n % 4294967296 ≡ n = omega (arith, h) in
    ap (λ m. le32 (m % 256) ((m / 256) % 256) ((m / 65536) % 256) ((m / 16777216) % 256)) whole
    ∙ le32-bytes32 n h

size-file_of :
    (total at : ℕ) (dib : List ℕ) → total < 4294967296 → u32_at (file_of total at dib) 2 ≡ total
unfolding byte_at
size-file_of total at dib h = spelled32 total h

pixels-file_of :
    (total at : ℕ) (dib : List ℕ) → at < 4294967296 → u32_at (file_of total at dib) 10 ≡ at
unfolding byte_at
pixels-file_of total at dib h = spelled32 at h

-- The header of a rebuilt bitmap has the file's own size, and the place of the pixels as the code
-- computes it; where both numbers fit 32 bits.
pub dib_to_bmp-header :
    (dib : List ℕ)
    → 40 ≤ length dib
    → file_header + length dib < 4294967296
    → file_header + u32_at dib 0 + palette (u16_at dib 14) (u32_at dib 16) (u32_at dib 32)
      < 4294967296
    → (bmp : List ℕ) × ((dib_to_bmp dib ≡ some bmp)
        × (take 2 bmp ≡ b'B' ∷ b'M' ∷ [])
        × (drop file_header bmp ≡ dib)
        × (u32_at bmp 2 ≡ length bmp)
        × (u32_at bmp 6 ≡ 0)
        × (u32_at bmp 10
            ≡ file_header + u32_at dib 0 + palette (u16_at dib 14) (u32_at dib 16) (u32_at dib 32)))
unfolding dib_to_bmp byte_at
dib_to_bmp-header dib long fits near =
    let at = file_header + u32_at dib 0 + palette (u16_at dib 14) (u32_at dib 16) (u32_at dib 32) in
    let total = file_header + length dib in
    let enough : ltb (length dib) 40 ≡ false = ground (arith, long) in
    (
      file_of total at dib,
      (
        rw enough refl,
        refl,
        refl,
        size-file_of total at dib fits ∙ omega arith,
        refl,
        pixels-file_of total at dib near,
      ),
    )
