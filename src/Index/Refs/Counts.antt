-- ===== src/Index/Refs/Counts.antt =====
-- How often a digest is referred to, and what the statements of daemon/src/store/index.rs on the
-- table `blob` do to its count.
use rldyour_clipboard.Index.Tables.{BlobRow, EntryRow, PartRow, Tables}
use rldyour_clipboard.Index.Refs.{
  reference, decrement, find_blob, delete_blob, Released, release_digest, release_digests,
  remaining,
}
use rldyour_clipboard.Prelude.{
  ℕ, ◌+◌, ◌-◌, ◌<◌, ◌≡◌, refl, Bool, true, false, not, ◌&&◌, ◌||◌, Option, none, some, List, [],
  ◌∷◌, ◌++◌, arith, leb, if◌then◌else◌, Text, text_eq, text_eq_iff, text_eq_refl,
}

-- The count of a digest's row, 0 where there is none.
unfoldable pub refs : Text → List BlobRow → ℕ
refs x [] = 0
refs x (b ∷ bs) = if text_eq b.digest x then b.refs else refs x bs

unfoldable pub known : Text → List BlobRow → Bool
known x [] = false
known x (b ∷ bs) = text_eq b.digest x || known x bs

-- 1 if the two digests are one.
abbrev pub one_if : Bool → ℕ
one_if b = if b then 1 else 0

unfoldable pub occurs : Text → List Text → ℕ
occurs x [] = 0
occurs x (d ∷ ds) = one_if (text_eq d x) + occurs x ds

unfoldable pub part_uses : Text → List PartRow → ℕ
part_uses x [] = 0
part_uses x (p ∷ ps) = one_if (text_eq p.digest x) + part_uses x ps

abbrev pub thumb_is : Text → Option Text → ℕ
thumb_is x none = 0
thumb_is x (some d) = one_if (text_eq d x)

unfoldable pub thumb_uses : Text → List EntryRow → ℕ
thumb_uses x [] = 0
thumb_uses x (e ∷ es) = thumb_is x e.thumb + thumb_uses x es

-- The parts and thumbnails that refer to a digest.
unfoldable pub uses : Text → Tables → ℕ
unfolding part_uses thumb_uses
uses x t = part_uses x t.parts + thumb_uses x t.entries

pub occurs-append : (x : Text) (ds es : List Text) → occurs x (ds ++ es) ≡ occurs x ds + occurs x es
unfolding occurs
occurs-append x [] es = omega arith
occurs-append x (d ∷ ds) es = omega (arith, occurs-append x ds es)

pub refs-reference :
    (x : Text) (bs : List BlobRow) (d : Text) (n : ℕ)
    → refs x (reference bs d n) ≡ refs x bs + one_if (text_eq d x)
unfolding refs reference
refs-reference x [] d n = ground arith
refs-reference x (b ∷ bs) d n = ground (
  arith,
  text_eq_iff b.digest d,
  text_eq_iff b.digest x,
  text_eq_iff d x,
  refs-reference x bs d n,
)

pub known-reference :
    (x : Text) (bs : List BlobRow) (d : Text) (n : ℕ)
    → known x (reference bs d n) ≡ (known x bs || text_eq d x)
unfolding known reference
known-reference x [] d n = ground arith
known-reference x (b ∷ bs) d n = ground (
  arith,
  text_eq_iff b.digest d,
  text_eq_iff b.digest x,
  text_eq_iff d x,
  known-reference x bs d n,
)

refs-decrement :
    (x : Text) (bs : List BlobRow) (d : Text)
    → refs x (decrement bs d) ≡ refs x bs - one_if (text_eq d x)
unfolding refs decrement
refs-decrement x [] d = ground arith
refs-decrement x (b ∷ bs) d =
    ground (
      arith,
      text_eq_iff b.digest d,
      text_eq_iff b.digest x,
      text_eq_iff d x,
      refs-decrement x bs d,
    )

known-decrement : (x : Text) (bs : List BlobRow) (d : Text) → known x (decrement bs d) ≡ known x bs
unfolding known decrement
known-decrement x [] d = refl
known-decrement x (b ∷ bs) d = ground (arith, text_eq_iff b.digest d, known-decrement x bs d)

remaining-find_blob : (bs : List BlobRow) (d : Text) → remaining (find_blob bs d) ≡ refs d bs
unfolding find_blob refs
remaining-find_blob [] d = refl
remaining-find_blob (b ∷ bs) d = ground (arith, remaining-find_blob bs d)

refs-delete_blob :
    (x : Text) (bs : List BlobRow) (d : Text)
    → refs x (delete_blob bs d) ≡ (if text_eq d x then 0 else refs x bs)
unfolding refs delete_blob
refs-delete_blob x [] d = ground arith
refs-delete_blob x (b ∷ bs) d = ground (
  arith,
  text_eq_iff b.digest d,
  text_eq_iff b.digest x,
  text_eq_iff d x,
  refs-delete_blob x bs d,
)

known-delete_blob :
    (x : Text) (bs : List BlobRow) (d : Text)
    → known x (delete_blob bs d) ≡ (not (text_eq d x) && known x bs)
unfolding known delete_blob
known-delete_blob x [] d = ground arith
known-delete_blob x (b ∷ bs) d = ground (
  arith,
  text_eq_iff b.digest d,
  text_eq_iff b.digest x,
  text_eq_iff d x,
  known-delete_blob x bs d,
)

-- Releasing a digest takes one off its count, whether or not its row goes.
pub refs-release_digest :
    (x : Text) (bs : List BlobRow) (r : Released) (d : Text)
    → refs x (release_digest bs r d).0 ≡ refs x bs - one_if (text_eq d x)
unfolding release_digest
refs-release_digest x bs r d = ground (
  arith,
  refs-decrement x bs d,
  refs-decrement d bs d,
  remaining-find_blob (decrement bs d) d,
  refs-delete_blob x (decrement bs d) d,
  text_eq_iff d x,
  text_eq_refl d,
)

pub refs-release_digests :
    (x : Text) (bs : List BlobRow) (r : Released) (ds : List Text)
    → refs x (release_digests bs r ds).0 ≡ refs x bs - occurs x ds
unfolding release_digests occurs
refs-release_digests x bs r [] = omega arith
refs-release_digests x bs r (d ∷ ds) = omega (
  arith,
  refs-release_digest x bs r d,
  refs-release_digests x (release_digest bs r d).0 (release_digest bs r d).1 ds,
)

-- Every row counts a reference.
abbrev pub IsPositive : List BlobRow → Type 0
IsPositive bs = (x : Text) → known x bs ≡ true → 0 < refs x bs

pub refs-pos_known : (x : Text) (bs : List BlobRow) → 0 < refs x bs → known x bs ≡ true
unfolding refs known
refs-pos_known x [] h = absurd (omega arith)
refs-pos_known x (b ∷ bs) h = ground (arith, refs-pos_known x bs)

known-release_digest :
    (x : Text) (bs : List BlobRow) (r : Released) (d : Text)
    → known x (release_digest bs r d).0 ≡ (known x bs && not (text_eq d x && leb (refs d bs) 1))
unfolding release_digest
known-release_digest x bs r d = ground (
  arith,
  refs-decrement d bs d,
  remaining-find_blob (decrement bs d) d,
  known-decrement x bs d,
  known-delete_blob x (decrement bs d) d,
  text_eq_iff d x,
  text_eq_refl d,
)

release_digest-IsPositive :
    (bs : List BlobRow) (r : Released) (d : Text)
    → IsPositive bs
    → IsPositive (release_digest bs r d).0
release_digest-IsPositive bs r d pos x h =
    ground
      (arith, known-release_digest x bs r d, refs-release_digest x bs r d, pos x, text_eq_iff d x)

pub release_digests-IsPositive :
    (bs : List BlobRow) (r : Released) (ds : List Text)
    → IsPositive bs
    → IsPositive (release_digests bs r ds).0
unfolding release_digests
release_digests-IsPositive bs r [] pos = pos
release_digests-IsPositive bs r (d ∷ ds) pos =
    release_digests-IsPositive (release_digest bs r d).0 (release_digest bs r d).1 ds
      (release_digest-IsPositive bs r d pos)

pub reference-IsPositive :
    (bs : List BlobRow) (d : Text) (n : ℕ) → IsPositive bs → IsPositive (reference bs d n)
reference-IsPositive bs d n pos x h =
    ground (arith, known-reference x bs d n, refs-reference x bs d n, pos x)
