-- ===== src/Blobs.antt =====
-- daemon/src/store/blobs.rs: content on the disk under its own digest. `digest_of` is the hex form of
-- SHA-256, and `write_all` what the filesystem answers to a piece behind the bytes it holds.
pub mod Pieces
pub mod Copying
use rldyour_clipboard.Io.{
  IoError, unexpected_eof, other, Input, Io, flat, bytes_of, read, consume, Occupied,
}
use rldyour_clipboard.Prelude.{
  ℕ, zero, suc, ◌+◌, ◌-◌, ◌*◌, ◌/◌, ◌%◌, ◌^◌, ◌≤◌, ◌<◌, min, ◌≡◌, refl, sym, ap, ◌∙◌, subst, ◌≢◌,
  ◌↔◌, ◌⊎◌, inl, inr, Bool, true, false, not, ◌&&◌, ◌||◌, Option, none, some, List, [], ◌∷◌, ◌++◌,
  map, append-nil, append_assoc, reverse, arith, ltb, leb, ◌==◌, if◌then◌else◌, ltb→lt, lt→ltb,
  leb→le, le→leb, ==_iff, Bool-cases, Option-cases, is_some, Result, ok, err, ◌>>=◌, length, take,
  drop, head_of, any, all, keep, find, All, length-append, length-take, length-drop,
  take-append-drop, length-keep-le, any-append, All-append, All-map, Text, codes, text_eq,
  text_eq_iff, text_eq_refl, text_le, text_mem, lower_char, to_ascii_lowercase, is_whitespace, trim,
  starts_with, ends_with_char, strip_prefix_char, utf8, sort_by, insert_by, IsSorted,
  length-sort_by, any-sort_by, All-sort_by, sort_by-IsSorted, sort_by_of_IsSorted, keep-sort_by,
  insert_by_least, All-keep, keep-All, keep-keep, All-take, All-map₂, List-cases, keep_congr,
  take_of_length-lt,
}

-- The files below the root with their content, and the leases held, one for each holder.
pub record Blobs : Type 0 where
  pub files : List (Text × List ℕ)
  pub leases : List Text

pub record Written : Type 0 where
  pub digest : Text
  pub bytes : ℕ
  pub created : Bool

abbrev pub copy_buffer : ℕ
copy_buffer = 65536

-- What a writer copies into: the bytes of its temporary, which its hasher saw too.
pub record Copied : Type 0 where
  pub result : Io (Unit {0})
  pub input : Input
  pub content : List ℕ
  -- what `Counted` counts
  pub read : ℕ

unfoldable pub file_exists : Text → List (Text × List ℕ) → Bool
unfolding text_eq
file_exists digest files = any (λ f. text_eq f.0 digest) files

unfoldable pub remove : Blobs → Text → Blobs × Bool
unfolding text_mem text_eq file_exists
remove blobs digest = if text_mem digest blobs.leases then (blobs, false) else (
  record blobs { files = keep (λ f. not (text_eq f.0 digest)) blobs.files },
  file_exists digest blobs.files,
)

-- Drop of a lease: one holder fewer.
unfoldable pub release_one : Text → List Text → List Text
unfolding text_eq
release_one digest [] = []
release_one digest (d ∷ ds) = if text_eq d digest then ds else d ∷ release_one digest ds

unfoldable pub drop_lease : Blobs → Text → Blobs
unfolding release_one
drop_lease blobs digest = record blobs { leases = release_one digest blobs.leases }

unfoldable pub hex_digit : ℕ → ℕ
hex_digit n = if ltb n 10 then b'0' + n else b'a' + (n - 10)

unfoldable pub hex : List ℕ → Text
unfolding hex_digit
hex [] = []
hex (byte ∷ bytes) = hex_digit (byte / 16) ∷ hex_digit (byte % 16) ∷ hex bytes

hex_example : hex (0 ∷ 171 ∷ 255 ∷ []) ≡ codes "00abff"
unfolding hex
hex_example = refl

module _ (write_all : List ℕ → List ℕ → Io (Unit {0})) where
  -- The loop of `Writer::absorb`: `fuel` bounds its rounds, each of which takes a byte at least.
  unfoldable pub absorb_from : ℕ → Input → List ℕ → ℕ → ℕ → Copied
  unfolding read
  absorb_from zero input content remaining taken = record {
    result = if remaining == 0 then ok tt else err other;
    input = input;
    content = content;
    read = taken;
  }
  absorb_from (suc fuel) input content remaining taken =
      if remaining == 0
      then record { result = ok tt; input = input; content = content; read = taken }
      else let step = read input (min remaining copy_buffer) in
        elim step.0 [
          | err e ↦ record { result = err e; input = step.1; content = content; read = taken }
          | ok piece ↦
              let n = length piece in
              let more = absorb_from fuel step.1 (content ++ piece) (remaining - n) (taken + n) in
              if n == 0
              then record {
                result = err unexpected_eof;
                input = step.1;
                content = content;
                read = taken;
              }
              else elim (write_all content piece) [
                | err e ↦ record {
                  result = err e;
                  input = step.1;
                  content = content;
                  read = taken + n;
                }
                | ok u ↦ more
              ]
        ]

  unfoldable pub absorb : Input → List ℕ → ℕ → Copied
  unfolding absorb_from
  absorb input content bytes = absorb_from bytes input content bytes 0

module _ (digest_of : List ℕ → Text) where
  -- `Writer::finish`: a lease on the digest, then the file unless it is there.
  unfoldable pub finish : Blobs → List ℕ → Blobs × Written
  unfolding file_exists
  finish blobs content =
      let digest = digest_of content in
      let leased = digest ∷ blobs.leases in
      if file_exists digest blobs.files
      then (
        record blobs { leases = leased },
        record { digest = digest; bytes = length content; created = false },
      )
      else (
        record { files = (digest, content) ∷ blobs.files; leases = leased },
        record { digest = digest; bytes = length content; created = true },
      )
