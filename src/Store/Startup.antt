-- ===== src/Store/Startup.antt =====
-- daemon/src/store/mod.rs: `reconcile`, which deletes at startup the files that no index record
-- points at. What the directories hold is an argument, read before the first file is deleted.
pub mod Reclaiming
pub mod Collecting
use rldyour_clipboard.Io.{IoError, invalid_data, Io}
use rldyour_clipboard.Kind.{is_ascii_hexdigit}
use rldyour_clipboard.Index.Tables.{Tables}
use rldyour_clipboard.Index.Queries.{known_digests}
use rldyour_clipboard.Blobs.{Blobs, remove, file_exists}
use rldyour_clipboard.Store.Sweeping.{file_exists-remove, leases-remove}
use rldyour_clipboard.Store.Recording.{Store}
use rldyour_clipboard.Prelude.{
  ℕ, ◌+◌, ◌≡◌, refl, sym, ap, ◌∙◌, subst, ◌⊎◌, inl, inr, Bool, true, false, not, ◌&&◌, ◌||◌, Option,
  none, some, List, [], ◌∷◌, ◌++◌, map, arith, ◌==◌, if◌then◌else◌, Bool-cases, Option-cases,
  Result, ok, err, length, any, all, Text, codes, text_eq, text_eq_iff, text_mem,
}

-- What is found in a shard: its name, where that is text, and its length, 0 where that is not known.
pub record Found : Type 0 where
  pub name : Option Text
  pub bytes : ℕ

-- What is found below the root, with what `plain` answers of it.
pub record Shard : Type 0 where
  pub name : Option Text
  pub plain : Io (Unit {0})
  pub is_dir : Bool
  pub blobs : Io (List (Io Found))

-- `?`, and the `continue` of what has no name.
abbrev pub tried {ℓ κ} :
    {A : Type ℓ} {B : Type κ} → Io A → Blobs → (A → Io B × Blobs) → Io B × Blobs
tried (err e) blobs next = (err e, blobs)
tried (ok a) blobs next = next a

abbrev pub named {κ} : {B : Type κ} → Option Text → B → (Text → B) → B
named none skipped next = skipped
named (some name) skipped next = next name

abbrev pub is_incoming : Option Text → Bool
is_incoming none = false
is_incoming (some name) = text_eq name (codes "incoming")

-- `Blobs::path`: whether a digest has a path.
unfoldable pub path : Text → Io (Unit {0})
unfolding is_ascii_hexdigit
path digest =
    if (length digest == 64) && all is_ascii_hexdigit digest then ok tt else err invalid_data

-- `regular` is the check of the path, and `unlink` whether the filesystem lets go of the file.
module _ (regular : Text → Io (Unit {0})) (unlink : Text → Io (Unit {0})) where
  -- `Blobs::remove`, with its errors.
  unfoldable pub remove_blob : Blobs → Text → Io Bool × Blobs
  unfolding remove path text_mem
  remove_blob blobs digest =
      let out = remove blobs digest in
      if text_mem digest blobs.leases
      then (ok false, blobs)
      else tried (path digest) blobs (λ _.
        tried (regular digest) blobs (λ _. tried (unlink digest) blobs (λ _. (ok out.1, out.0))))

  unfoldable pub reclaim_shard : List Text → Text → List (Io Found) → Blobs → ℕ → Io ℕ × Blobs
  unfolding remove_blob text_mem
  reclaim_shard known prefix [] blobs reclaimed = (ok reclaimed, blobs)
  reclaim_shard known prefix (err e ∷ found) blobs reclaimed = (err e, blobs)
  reclaim_shard known prefix (ok blob ∷ found) blobs reclaimed =
      let skipped = reclaim_shard known prefix found blobs reclaimed in
      named blob.name skipped (λ rest.
        let digest = prefix ++ rest in
        let out = remove_blob blobs digest in
        let next = reclaim_shard known prefix found out.1 in
        if text_mem digest known
        then skipped
        else tried out.0 out.1 (λ gone. next (if gone then reclaimed + blob.bytes else reclaimed)))

  unfoldable pub reclaim_shards : List Text → List (Io Shard) → Blobs → ℕ → Io ℕ × Blobs
  unfolding reclaim_shard text_eq
  reclaim_shards known [] blobs reclaimed = (ok reclaimed, blobs)
  reclaim_shards known (err e ∷ shards) blobs reclaimed = (err e, blobs)
  reclaim_shards known (ok shard ∷ shards) blobs reclaimed =
      let skipped = reclaim_shards known shards blobs reclaimed in
      tried shard.plain blobs (λ _.
        if not shard.is_dir || is_incoming shard.name
        then skipped
        else named shard.name skipped (λ prefix. tried shard.blobs blobs (λ found.
          let out = reclaim_shard known prefix found blobs reclaimed in
          let next = reclaim_shards known shards out.1 in tried out.0 out.1 next)))

  unfoldable pub reconcile : Store → Io (List (Io Shard)) → Io ℕ × Store
  unfolding reclaim_shards known_digests
  reconcile store (err e) = (err e, store)
  reconcile store (ok shards) =
      let out = reclaim_shards (known_digests store.tables) shards store.blobs 0 in
      (out.0, record store { blobs = out.1 })
