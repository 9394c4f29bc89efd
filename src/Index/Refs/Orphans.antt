-- ===== src/Index/Refs/Orphans.antt =====
-- Which digests `release_entry` of daemon/src/store/index.rs reports as orphaned, and what they
-- weighed.
use rldyour_clipboard.Index.Tables.{BlobRow, sum_bytes, i64_max}
use rldyour_clipboard.Index.Refs.{
  reference, decrement, find_blob, delete_blob, Released, release_digest, release_digests,
  remaining, size,
}
use rldyour_clipboard.Index.Refs.Counts.{refs, known, occurs, refs-release_digest, known-reference}
use rldyour_clipboard.Prelude.{
  ℕ, ◌+◌, ◌-◌, ◌≤◌, ◌≡◌, refl, ◌∙◌, inl, inr, false, ◌&&◌, ◌||◌, List, [], ◌∷◌, ◌++◌, arith, ltb,
  leb, ◌==◌, Bool-cases, Text, text_eq, text_eq_iff, text_mem,
}

refs_left :
    (bs : List BlobRow) (d : Text) → remaining (find_blob (decrement bs d) d) ≡ refs d bs - 1
unfolding find_blob decrement refs
refs_left [] d = omega arith
refs_left (b ∷ bs) d = ground (arith, refs_left bs d)

pub text_mem-append :
    (x : Text) (ds es : List Text) → text_mem x (ds ++ es) ≡ (text_mem x ds || text_mem x es)
unfolding text_mem
text_mem-append x [] es = refl
text_mem-append x (d ∷ ds) es = ground (arith, text_mem-append x ds es)

mem-release_digest :
    (x : Text) (bs : List BlobRow) (r : Released) (d : Text)
    → text_mem x (release_digest bs r d).1.digests
      ≡ (text_mem x r.digests || (text_eq d x && leb (refs d bs) 1))
unfolding release_digest text_mem
mem-release_digest x bs r d = ground (arith, refs_left bs d, text_mem-append x r.digests (d ∷ []))

-- A digest is orphaned exactly where the released references were all that it had.
pub mem-release_digests :
    (x : Text) (bs : List BlobRow) (r : Released) (ds : List Text)
    → occurs x ds ≤ refs x bs
    → text_mem x (release_digests bs r ds).1.digests
      ≡ (text_mem x r.digests || (ltb 0 (occurs x ds) && (refs x bs == occurs x ds)))
unfolding release_digests occurs
mem-release_digests x bs r [] h = ground arith
mem-release_digests x bs r (d ∷ ds) h = ground (
  arith,
  text_eq_iff d x,
  mem-release_digest x bs r d,
  refs-release_digest x bs r d,
  mem-release_digests x (release_digest bs r d).0 (release_digest bs r d).1 ds,
)

-- No two rows have one digest.
abbrev pub IsDistinct : List BlobRow → Type 0
IsDistinct [] = Unit
IsDistinct (b ∷ bs) = (known b.digest bs ≡ false) × IsDistinct bs

known-decrement : (x : Text) (bs : List BlobRow) (d : Text) → known x (decrement bs d) ≡ known x bs
unfolding known decrement
known-decrement x [] d = refl
known-decrement x (b ∷ bs) d = ground (arith, known-decrement x bs d)

known-delete_blob_le :
    (x : Text) (bs : List BlobRow) (d : Text)
    → known x bs ≡ false
    → known x (delete_blob bs d) ≡ false
unfolding known delete_blob
known-delete_blob_le x [] d h = refl
known-delete_blob_le x (b ∷ bs) d h = ground (arith, known-delete_blob_le x bs d)

decrement-IsDistinct : (bs : List BlobRow) (d : Text) → IsDistinct bs → IsDistinct (decrement bs d)
unfolding decrement
decrement-IsDistinct [] d h = tt
decrement-IsDistinct (b ∷ bs) d h =
    ground (arith, known-decrement b.digest bs d, decrement-IsDistinct bs d h.1)

delete_blob-IsDistinct :
    (bs : List BlobRow) (d : Text) → IsDistinct bs → IsDistinct (delete_blob bs d)
unfolding delete_blob
delete_blob-IsDistinct [] d h = tt
delete_blob-IsDistinct (b ∷ bs) d h = elim (Bool-cases (text_eq b.digest d)) [
  | inl e ↦ rw e (delete_blob-IsDistinct bs d h.1)
  | inr e ↦ rw e (known-delete_blob_le b.digest bs d h.0, delete_blob-IsDistinct bs d h.1)
]

pub reference-IsDistinct :
    (bs : List BlobRow) (d : Text) (n : ℕ) → IsDistinct bs → IsDistinct (reference bs d n)
unfolding reference known
reference-IsDistinct [] d n h = (refl, tt)
reference-IsDistinct (b ∷ bs) d n h = elim (Bool-cases (text_eq b.digest d)) [
  | inl e ↦ rw e h
  | inr e ↦ rw e (
    ground (arith, known-reference b.digest bs d n, text_eq_iff b.digest d, text_eq_iff d b.digest),
    reference-IsDistinct bs d n h.1,
  )
]

delete_absent : (bs : List BlobRow) (d : Text) → known d bs ≡ false → delete_blob bs d ≡ bs
unfolding known delete_blob
delete_absent [] d h = refl
delete_absent (b ∷ bs) d h = ground (arith, delete_absent bs d)

sum_bytes-delete_blob :
    (bs : List BlobRow) (d : Text)
    → IsDistinct bs
    → sum_bytes (delete_blob bs d) + size (find_blob bs d) ≡ sum_bytes bs
unfolding sum_bytes delete_blob find_blob
sum_bytes-delete_blob [] d h = refl
sum_bytes-delete_blob (b ∷ bs) d h =
    ground (arith, text_eq_iff b.digest d, delete_absent bs d, sum_bytes-delete_blob bs d h.1)

sum_bytes-decrement : (bs : List BlobRow) (d : Text) → sum_bytes (decrement bs d) ≡ sum_bytes bs
unfolding sum_bytes decrement
sum_bytes-decrement [] d = refl
sum_bytes-decrement (b ∷ bs) d = ground (arith, sum_bytes-decrement bs d)

release_digest-IsDistinct :
    (bs : List BlobRow) (r : Released) (d : Text)
    → IsDistinct bs
    → IsDistinct (release_digest bs r d).0
unfolding release_digest
release_digest-IsDistinct bs r d h = ground (
  arith,
  decrement-IsDistinct bs d h,
  delete_blob-IsDistinct (decrement bs d) d (decrement-IsDistinct bs d h),
)

pub release_digests-IsDistinct :
    (bs : List BlobRow) (r : Released) (ds : List Text)
    → IsDistinct bs
    → IsDistinct (release_digests bs r ds).0
unfolding release_digests
release_digests-IsDistinct bs r [] h = h
release_digests-IsDistinct bs r (d ∷ ds) h =
    release_digests-IsDistinct (release_digest bs r d).0 (release_digest bs r d).1 ds
      (release_digest-IsDistinct bs r d h)

bytes-release_digest :
    (bs : List BlobRow) (r : Released) (d : Text)
    → IsDistinct bs
    → r.bytes + sum_bytes bs ≤ i64_max
    → (release_digest bs r d).1.bytes + sum_bytes (release_digest bs r d).0 ≡ r.bytes + sum_bytes bs
unfolding release_digest
bytes-release_digest bs r d h fits = ground (
  arith,
  sum_bytes-decrement bs d,
  sum_bytes-delete_blob (decrement bs d) d (decrement-IsDistinct bs d h),
)

-- What the released rows weighed is what the table lost.
pub bytes-release_digests :
    (bs : List BlobRow) (r : Released) (ds : List Text)
    → IsDistinct bs
    → r.bytes + sum_bytes bs ≤ i64_max
    → (release_digests bs r ds).1.bytes + sum_bytes (release_digests bs r ds).0
      ≡ r.bytes + sum_bytes bs
unfolding release_digests
bytes-release_digests bs r [] h fits = refl
bytes-release_digests bs r (d ∷ ds) h fits =
    let step = bytes-release_digest bs r d h fits in
    bytes-release_digests (release_digest bs r d).0 (release_digest bs r d).1 ds
      (release_digest-IsDistinct bs r d h) (omega arith)
    ∙ step
