-- ===== src/Store/Sweeping.antt =====
-- daemon/src/store/mod.rs: `sweep` and `discard`, which delete the files that nothing holds.
use rldyour_clipboard.Index.Tables.{Tables}
use rldyour_clipboard.Index.Queries.{references}
use rldyour_clipboard.Blobs.{Blobs, remove, drop_lease, file_exists}
use rldyour_clipboard.Store.{Accepted}
use rldyour_clipboard.Prelude.{
  ℕ, ◌≡◌, refl, inl, inr, not, ◌&&◌, List, [], ◌∷◌, map, arith, if◌then◌else◌, Bool-cases, keep,
  Text, text_eq, text_eq_iff, text_mem,
}

unfoldable pub sweep : Tables → Blobs → List Text → Blobs
unfolding remove references
sweep tables blobs [] = blobs
sweep tables blobs (digest ∷ orphaned) =
    let kept = sweep tables blobs orphaned in
    let without = sweep tables (remove blobs digest).0 orphaned in
    if references tables digest then kept else without

-- The parts of a draft are dropped with their leases, and then their digests are swept.
unfoldable pub drop_parts : Blobs → List Accepted → Blobs
unfolding drop_lease
drop_parts blobs [] = blobs
drop_parts blobs (part ∷ parts) = drop_parts (drop_lease blobs part.digest) parts

unfoldable pub discard : Tables → Blobs → List Accepted → Blobs
unfolding sweep drop_parts
discard tables blobs parts = sweep tables (drop_parts blobs parts) (map (λ p. p.digest) parts)

file_exists-keep :
    (x d : Text) (files : List (Text × List ℕ))
    → file_exists x (keep (λ f. not (text_eq f.0 d)) files)
      ≡ (file_exists x files && not (text_eq d x))
unfolding file_exists
file_exists-keep x d [] = refl
file_exists-keep x d ((f, c) ∷ files) =
    ground (arith, file_exists-keep x d files, text_eq_iff f d, text_eq_iff f x, text_eq_iff d x)

pub file_exists-remove :
    (blobs : Blobs) (x d : Text)
    → file_exists x (remove blobs d).0.files
      ≡ (file_exists x blobs.files && not (text_eq d x && not (text_mem x blobs.leases)))
unfolding remove
file_exists-remove blobs x d = elim (Bool-cases (text_mem d blobs.leases)) [
  | inl e ↦ ground (arith, text_eq_iff d x, e)
  | inr e ↦ ground (arith, file_exists-keep x d blobs.files, text_eq_iff d x, e)
]

pub leases-remove : (blobs : Blobs) (d : Text) → (remove blobs d).0.leases ≡ blobs.leases
unfolding remove
leases-remove blobs d = ground arith

pub leases-sweep :
    (tables : Tables) (blobs : Blobs) (orphaned : List Text)
    → (sweep tables blobs orphaned).leases ≡ blobs.leases
unfolding sweep
leases-sweep tables blobs [] = refl
leases-sweep tables blobs (d ∷ orphaned) = ground (
  arith,
  leases-sweep tables blobs orphaned,
  leases-sweep tables (remove blobs d).0 orphaned,
  leases-remove blobs d,
)

-- A sweep deletes the files it is given that neither the index nor a lease holds, and no other.
pub file_exists-sweep :
    (tables : Tables) (blobs : Blobs) (orphaned : List Text) (x : Text)
    → file_exists x (sweep tables blobs orphaned).files ≡ (
        file_exists x blobs.files
        && not (text_mem x orphaned && not (references tables x) && not (text_mem x blobs.leases)))
unfolding sweep text_mem
file_exists-sweep tables blobs [] x = ground arith
file_exists-sweep tables blobs (d ∷ orphaned) x = elim (Bool-cases (references tables d)) [
  | inl e ↦ ground (arith, e, file_exists-sweep tables blobs orphaned x, text_eq_iff d x)
  | inr e ↦ ground (
    arith,
    e,
    file_exists-sweep tables (remove blobs d).0 orphaned x,
    file_exists-remove blobs x d,
    leases-remove blobs d,
    text_eq_iff d x,
  )
]
