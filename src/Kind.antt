-- ===== src/Kind.antt =====
-- daemon/src/kind.rs: what a representation's mime type means, and the kind of an entry.
pub mod Preview
pub mod Offers
use rldyour_clipboard.Prelude.{
  ℕ, zero, suc, ◌+◌, ◌-◌, ◌*◌, ◌/◌, ◌%◌, ◌^◌, ◌≤◌, ◌<◌, min, ◌≡◌, refl, sym, ap, ◌∙◌, subst, ◌≢◌,
  ◌↔◌, ◌⊎◌, inl, inr, Bool, true, false, not, ◌&&◌, ◌||◌, Option, none, some, List, [], ◌∷◌, ◌++◌,
  map, append-nil, append_assoc, reverse, arith, ltb, leb, ◌==◌, if◌then◌else◌, ltb→lt, lt→ltb,
  leb→le, le→leb, ==_iff, Bool-cases, Option-cases, is_some, Result, ok, err, ◌>>=◌, length, take,
  drop, head_of, any, all, keep, find, All, length-append, length-take, length-drop,
  take-append-drop, length-keep-le, any-append, All-append, All-map, Text, codes, text_eq,
  text_eq_iff, text_eq_refl, text_le, text_mem, lower_char, to_ascii_lowercase, is_whitespace, trim,
  starts_with, ends_with_char, strip_prefix_char, utf8, sort_by, insert_by, IsSorted,
  length-sort_by, any-sort_by, All-sort_by, sort_by-IsSorted, sort_by_of_IsSorted,
}

pub data Kind : Type 0 where
  text link color image files : Kind

unfoldable pub as_str : Kind → Text
as_str text = codes "text"
as_str link = codes "link"
as_str color = codes "color"
as_str image = codes "image"
as_str files = codes "files"

unfoldable pub parse : Text → Option Kind
unfolding text_eq
parse name =
    if text_eq name (codes "text")
    then some text
    else if text_eq name (codes "link")
    then some link
    else if text_eq name (codes "color")
    then some color
    else if text_eq name (codes "image")
    then some image
    else if text_eq name (codes "files")
    then some files
    else none

abbrev pub sensitive : List Text
sensitive =
    codes "x-kde-passwordmanagerhint"
    ∷ codes "text/x-kde-passwordmanagerhint"
    ∷ codes "application/x-nspasteboard-concealed-type"
    ∷ codes "org.nspasteboard.concealedtype"
    ∷ codes "org.nspasteboard.transienttype"
    ∷ codes "org.nspasteboard.autogeneratedtype"
    ∷ codes "com.agilebits.onepassword"
    ∷ codes "de.petermaurer.transientpasteboardtype"
    ∷ codes "com.typeit4me.clipping"
    ∷ codes "text/x-moz-password"
    ∷ codes "x-keepassxc-password"
    ∷ codes "password"
    ∷ codes "secret"
    ∷ []

unfoldable pub is_sensitive : Text → Bool
unfolding to_ascii_lowercase text_mem text_eq
is_sensitive mime = text_mem (to_ascii_lowercase mime) sensitive

unfoldable pub any_sensitive : List Text → Bool
unfolding is_sensitive
any_sensitive mimes = any is_sensitive mimes

abbrev pub max_representations : ℕ
max_representations = 8

unfoldable pub lower : Text → Text
unfolding trim to_ascii_lowercase
lower mime = to_ascii_lowercase (trim mime)

-- The arms of `rank` that name one mime type, with their ranks.
abbrev pub named_ranks : List (Text × ℕ)
named_ranks =
    (codes "image/png", 0)
    ∷ (codes "image/webp", 1)
    ∷ (codes "image/jpeg", 2)
    ∷ (codes "image/jpg", 2)
    ∷ (codes "image/gif", 3)
    ∷ (codes "image/bmp", 4)
    ∷ (codes "x-special/gnome-copied-files", 10)
    ∷ (codes "x-special/nautilus-clipboard", 11)
    ∷ (codes "text/uri-list", 12)
    ∷ (codes "text/html", 20)
    ∷ (codes "text/rtf", 21)
    ∷ (codes "application/rtf", 21)
    ∷ (codes "text/plain;charset=utf-8", 30)
    ∷ (codes "utf8_string", 31)
    ∷ (codes "text/plain", 32)
    ∷ (codes "string", 33)
    ∷ (codes "text", 33)
    ∷ []

unfoldable pub arm : Text → List (Text × ℕ) → Option ℕ
unfolding text_eq
arm key [] = none
arm key ((name, r) ∷ arms) = if text_eq key name then some r else arm key arms

-- The arms behind the named ones.
unfoldable pub rank_other : Text → ℕ
unfolding starts_with
rank_other other =
    if starts_with other (codes "image/")
    then 5
    else if starts_with other (codes "text/")
    then 34
    else 100

unfoldable pub rank_key : Text → ℕ
unfolding arm rank_other
rank_key key = elim (arm key named_ranks) [ none ↦ rank_other key | some r ↦ r ]

unfoldable pub rank : Text → ℕ
unfolding lower rank_key
rank mime = rank_key (lower mime)

unfoldable pub is_text : Text → Bool
unfolding lower starts_with text_mem text_eq
is_text mime =
    let lowered = lower mime in
    starts_with lowered (codes "text/")
    || text_mem lowered (codes "utf8_string" ∷ codes "string" ∷ codes "text" ∷ [])
    || starts_with lowered (codes "x-special/")

unfoldable pub is_image : Text → Bool
unfolding lower starts_with
is_image mime = starts_with (lower mime) (codes "image/")

unfoldable pub is_files : Text → Bool
unfolding lower text_mem text_eq
is_files mime = text_mem (lower mime) (
    codes "x-special/gnome-copied-files"
    ∷ codes "x-special/nautilus-clipboard"
    ∷ codes "text/uri-list"
    ∷ [])

-- `split_whitespace().count()`: the runs of characters that are not white space.
unfoldable pub words_from : Bool → Text → ℕ
unfolding is_whitespace
words_from inside [] = 0
words_from inside (c ∷ cs) =
    if is_whitespace c
    then words_from false cs
    else if inside
    then words_from true cs
    else suc (words_from true cs)

abbrev pub schemes : List Text
schemes =
    codes "https://"
    ∷ codes "http://"
    ∷ codes "ftp://"
    ∷ codes "ssh://"
    ∷ codes "mailto:"
    ∷ codes "magnet:"
    ∷ []

abbrev pub is_empty {ℓ} : {A : Type ℓ} → List A → Bool
is_empty [] = true
is_empty (x ∷ xs) = false

unfoldable pub is_link : Text → Bool
unfolding words_from to_ascii_lowercase starts_with utf8
is_link s =
    let lowered = to_ascii_lowercase s in
    if is_empty s || not (words_from false s == 1)
    then false
    else any
        (λ scheme. starts_with lowered scheme && ltb (length (utf8 scheme)) (length (utf8 lowered)))
        schemes

-- u8::is_ascii_hexdigit
unfoldable pub is_ascii_hexdigit : ℕ → Bool
is_ascii_hexdigit b =
    (leb b'0' b && leb b b'9') || (leb b'a' b && leb b b'f') || (leb b'A' b && leb b b'F')

abbrev pub color_lengths : List ℕ
color_lengths = 3 ∷ 4 ∷ 6 ∷ 8 ∷ []

abbrev pub color_functions : List Text
color_functions = codes "rgb(" ∷ codes "rgba(" ∷ codes "hsl(" ∷ codes "hsla(" ∷ []

unfoldable pub is_color : Text → Bool
unfolding strip_prefix_char utf8 is_ascii_hexdigit to_ascii_lowercase starts_with ends_with_char
is_color s = elim (strip_prefix_char s b'#') [
  | some digits ↦
      any (λ n. n == length (utf8 digits)) color_lengths && all is_ascii_hexdigit (utf8 digits)
  | none ↦
      let lowered = to_ascii_lowercase s in
      any (λ prefix. starts_with lowered prefix && ends_with_char lowered b')') color_functions
]

-- The sample of an entry that is neither files nor an image.
unfoldable pub classify_sample : Option Text → Kind
unfolding is_color is_link trim
classify_sample none = text
classify_sample (some sample) =
    let s = trim sample in if is_color s then color else if is_link s then link else text

unfoldable pub classify : List Text → Option Text → Kind
unfolding is_files is_image classify_sample
classify mimes sample =
    if any is_files mimes
    then files
    else if any is_image mimes
    then image
    else classify_sample sample

-- The tests that stand beside the source.
recognised_hints :
    (is_sensitive (codes "x-kde-passwordManagerHint") ≡ true)
    × (is_sensitive (codes "org.nspasteboard.TransientType") ≡ true)
    × (is_sensitive (codes "text/plain") ≡ false)
unfolding is_sensitive
recognised_hints = (refl, refl, refl)

separated_links :
    (classify (codes "text/plain" ∷ []) (some (codes "  https://example.com  ")) ≡ link)
    × (classify (codes "text/plain" ∷ []) (some (codes "see https://example.com")) ≡ text)
    × (classify (codes "text/plain" ∷ []) (some (codes "https://")) ≡ text)
    × (classify (codes "text/plain" ∷ []) (some (codes "#ffaa3380")) ≡ color)
    × (classify (codes "text/plain" ∷ []) (some (codes "hsla(1,2%,3%,.5)")) ≡ color)
    × (classify (codes "text/plain" ∷ []) (some (codes "#fffff")) ≡ text)
    × (classify (codes "x-special/gnome-copied-files" ∷ codes "image/png" ∷ []) none ≡ files)
unfolding classify
separated_links = (refl, refl, refl, refl, refl, refl, refl)

rank_order :
    (rank (codes "image/avif") ≡ 5) × (rank (codes "text/HTML ") ≡ 20) × (rank (codes "a/b") ≡ 100)
unfolding rank
rank_order = (refl, refl, refl)
