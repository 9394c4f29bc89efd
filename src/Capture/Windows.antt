-- ===== src/Capture/Windows.antt =====
-- daemon/src/capture/windows.rs: what the clipboard's formats become, and what keeps them out. The
-- clipboard itself is a parameter: the content of a registered or standard format, where it is offered.
pub mod Conversions
pub mod Bitmaps
use rldyour_clipboard.Prelude.{
  ℕ, zero, suc, ◌+◌, ◌-◌, ◌*◌, ◌/◌, ◌%◌, ◌^◌, ◌≤◌, ◌<◌, min, ◌≡◌, refl, sym, ap, ◌∙◌, subst, ◌≢◌,
  ◌↔◌, ◌⊎◌, inl, inr, Bool, true, false, not, ◌&&◌, ◌||◌, Option, none, some, List, [], ◌∷◌, ◌++◌,
  map, append-nil, append_assoc, reverse, arith, ltb, leb, ◌==◌, if◌then◌else◌, ltb→lt, lt→ltb,
  leb→le, le→leb, ==_iff, Bool-cases, Option-cases, is_some, Result, ok, err, ◌>>=◌, length, take,
  drop, head_of, any, all, keep, find, All, length-append, length-take, length-drop,
  take-append-drop, length-keep-le, any-append, All-append, All-map, Text, codes, text_eq,
  text_eq_iff, text_eq_refl, text_le, text_mem, lower_char, to_ascii_lowercase, is_whitespace, trim,
  starts_with, ends_with_char, strip_prefix_char, utf8, sort_by, insert_by, IsSorted,
  length-sort_by, any-sort_by, All-sort_by, sort_by-IsSorted, sort_by_of_IsSorted, keep-sort_by,
  insert_by_least, All-keep, keep-All, keep-keep, All-take, All-map₂, List-cases, keep_congr,
  take_of_length-lt, Result-cases,
}

-- u32::from_le_bytes
abbrev pub le32 : ℕ → ℕ → ℕ → ℕ → ℕ
le32 a b c d = a + 256 * b + 65536 * c + 16777216 * d

-- to_le_bytes of an u32
abbrev pub bytes32 : ℕ → List ℕ
bytes32 n = n % 256 ∷ (n / 256) % 256 ∷ (n / 65536) % 256 ∷ (n / 16777216) % 256 ∷ []

-- The byte at an index, and 0 behind the end, where the source would panic.
unfoldable pub byte_at : List ℕ → ℕ → ℕ
byte_at [] n = 0
byte_at (b ∷ bs) zero = b
byte_at (b ∷ bs) (suc n) = byte_at bs n

abbrev pub u32_at : List ℕ → ℕ → ℕ
u32_at bs n = le32 (byte_at bs n) (byte_at bs (n + 1)) (byte_at bs (n + 2)) (byte_at bs (n + 3))

abbrev pub u16_at : List ℕ → ℕ → ℕ
u16_at bs n = byte_at bs n + 256 * byte_at bs (n + 1)

unfoldable pub trim_nul : List ℕ → List ℕ
trim_nul [] = []
trim_nul (b ∷ bs) = if b == 0 then [] else b ∷ trim_nul bs

-- `as_chunks::<2>`, `from_le_bytes` and `take_while`: a last odd byte is left out
unfoldable pub units : List ℕ → List ℕ
units [] = []
units (a ∷ []) = []
units (a ∷ b ∷ bs) = let unit = a + 256 * b in if unit == 0 then [] else unit ∷ units bs

-- `from_utf16_lossy` is the library's.
module _ (from_utf16_lossy : List ℕ → Text) where
  unfoldable pub utf16_to_utf8 : List ℕ → List ℕ
  unfolding units utf8
  utf16_to_utf8 bytes = utf8 (from_utf16_lossy (units bytes))

abbrev pub file_header : ℕ
file_header = 14

-- The bytes of the palette or of the masks.
unfoldable pub palette : ℕ → ℕ → ℕ → ℕ
palette bit_count compression used_colours =
    if (bit_count == 1) || (bit_count == 4) || (bit_count == 8)
    then (if used_colours == 0 then 2 ^ bit_count else used_colours) * 4
    else if ((bit_count == 16) || (bit_count == 32)) && (compression == 3)
    then 12
    else 0

-- The sums are those of a 64-bit machine, where they cannot wrap; the header has them as u32.
unfoldable pub dib_to_bmp : List ℕ → Option (List ℕ)
unfolding palette byte_at
dib_to_bmp dib =
    let pixels_at =
      file_header + u32_at dib 0 + palette (u16_at dib 14) (u32_at dib 16) (u32_at dib 32) in
    let total = file_header + length dib in
    if ltb (length dib) 40
    then none
    else some (
        b'B'
        ∷ b'M'
        ∷ (bytes32 (total % 2 ^ 32) ++ 0 ∷ 0 ∷ 0 ∷ 0 ∷ (bytes32 (pixels_at % 2 ^ 32) ++ dib)))

-- `lines` and `parse` are the library's; `lines` is of the lossy text of the bytes.
module _ (lines : List ℕ → List Text) (parse_usize : Text → Option ℕ) where
  -- The number behind a key, in the first line that starts with it.
  unfoldable pub offset : List ℕ → Text → Option ℕ
  unfolding starts_with trim
  offset bytes key = elim (find (λ line. starts_with line key) (lines bytes)) [
    | none ↦ none
    | some line ↦ parse_usize (trim (drop (length key) line))
  ]

  unfoldable pub strip_cf_html : List ℕ → List ℕ
  unfolding offset
  strip_cf_html bytes = elim (offset bytes (codes "StartFragment:")) [
    | none ↦ bytes
    | some start ↦ elim (offset bytes (codes "EndFragment:")) [
      | none ↦ bytes
      | some end ↦
          if ltb start end && leb end (length bytes)
          then take (end - start) (drop start bytes)
          else bytes
    ]
  ]

abbrev pub Parts : Type 0
Parts = List (Text × List ℕ)

unfoldable pub push : Parts → Text → Option (List ℕ) → Parts
push parts mime none = parts
push parts mime (some []) = parts
push parts mime (some (b ∷ bytes)) = parts ++ (mime, b ∷ bytes) ∷ []

-- What the clipboard offers: of a registered format by its name and of a standard one by its number,
-- whether it is offered, and its content where it can be read.
pub record Clipboard : Type 0 where
  pub registered : Text → Bool
  pub registered_content : Text → Option (List ℕ)
  pub available : ℕ → Bool
  pub content : ℕ → Option (List ℕ)

abbrev pub cf_text : ℕ
cf_text = 1

abbrev pub cf_dib : ℕ
cf_dib = 8

abbrev pub cf_unicodetext : ℕ
cf_unicodetext = 13

abbrev pub excluding : List Text
excluding =
    codes "ExcludeClipboardContentFromMonitorProcessing"
    ∷ codes "Clipboard Viewer Ignore"
    ∷ codes "ClipboardViewerIgnore"
    ∷ []

abbrev pub opting_out : List Text
opting_out = codes "CanIncludeInClipboardHistory" ∷ codes "CanUploadToCloudClipboard" ∷ []

-- A flag that allows: offered with four bytes at least, not all 0.
unfoldable pub is_allowing : Option (List ℕ) → Bool
unfolding byte_at
is_allowing none = false
is_allowing (some value) = leb 4 (length value) && not (u32_at value 0 == 0)

unfoldable pub concealed : Clipboard → Bool
unfolding is_allowing
concealed c =
    any c.registered excluding
    || any (λ name. c.registered name && not (is_allowing (c.registered_content name))) opting_out

-- The functions of the library that the conversions use.
module _ (lines : List ℕ → List Text) (parse_usize : Text → Option ℕ)
    (from_utf16_lossy : List ℕ → Text) where
  abbrev pub converted : (List ℕ → List ℕ) → Option (List ℕ) → Option (List ℕ)
  converted f none = none
  converted f (some bytes) = some (f bytes)

  unfoldable pub pictures : Clipboard → Parts
  unfolding push
  pictures c =
      if c.registered (codes "PNG")
      then push [] (codes "image/png") (c.registered_content (codes "PNG"))
      else []

  unfoldable pub documents : Clipboard → Parts → Parts
  unfolding push strip_cf_html
  documents c parts =
      if c.registered (codes "HTML Format")
      then push parts (codes "text/html")
          (converted (strip_cf_html lines parse_usize) (c.registered_content (codes "HTML Format")))
      else parts

  unfoldable pub texts : Clipboard → Parts → Parts
  unfolding push utf16_to_utf8 trim_nul
  texts c parts =
      if c.available cf_unicodetext
      then push parts (codes "text/plain;charset=utf-8")
          (converted (utf16_to_utf8 from_utf16_lossy) (c.content cf_unicodetext))
      else if c.available cf_text
      then push parts (codes "text/plain") (converted trim_nul (c.content cf_text))
      else parts

  unfoldable pub bitmaps : Clipboard → Parts → Parts
  unfolding push dib_to_bmp text_eq
  bitmaps c parts =
      if not (any (λ p. text_eq p.0 (codes "image/png")) parts) && c.available cf_dib
      then push parts (codes "image/bmp")
          (elim (c.content cf_dib) [ none ↦ none | some dib ↦ dib_to_bmp dib ])
      else parts

  -- `read_opened`
  unfoldable pub read_opened : Clipboard → Option Parts
  unfolding concealed pictures documents texts bitmaps
  read_opened c =
      if concealed c then none else some (bitmaps c (texts c (documents c (pictures c))))
