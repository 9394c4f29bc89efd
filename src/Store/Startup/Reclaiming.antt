-- ===== src/Store/Startup/Reclaiming.antt =====
-- daemon/src/store/mod.rs: what `reconcile` leaves, whatever fails.
use rldyour_clipboard.Io.{Io}
use rldyour_clipboard.Blobs.{Blobs, remove, file_exists}
use rldyour_clipboard.Index.Refs.Counts.{known}
use rldyour_clipboard.Store.Sweeping.{file_exists-remove, leases-remove}
use rldyour_clipboard.Index.Tables.{BlobRow}
use rldyour_clipboard.Index.Queries.{known_digests}
use rldyour_clipboard.Index.Refs.Counts.{refs, known}
use rldyour_clipboard.Store.Recording.{Store}
use rldyour_clipboard.Store.Keeping.Backed.{IsBacked}
use rldyour_clipboard.Store.Startup.{
  reconcile, Found, Shard, path, tried, named, is_incoming, remove_blob, reclaim_shard,
  reclaim_shards,
}
use rldyour_clipboard.Prelude.{
  ltb, map, Text, text_mem, ℕ, ◌≡◌, refl, sym, ◌∙◌, subst, inl, inr, Bool, true, false, not, ◌||◌,
  Option, none, some, List, [], ◌∷◌, ◌++◌, arith, if◌then◌else◌, Bool-cases, ok, err, Text, text_eq,
  text_eq_iff, text_mem,
}

-- No file came in, and what is known or leased stayed.
pub record IsReclaimed (known : List Text) (before after : Blobs) : Type 0 where
  pub leases : after.leases ≡ before.leases
  pub fewer : (x : Text) → file_exists x after.files ≡ true → file_exists x before.files ≡ true
  pub stays :
      (x : Text)
      → (text_mem x known || text_mem x before.leases) ≡ true
      → file_exists x before.files ≡ true
      → file_exists x after.files ≡ true

IsReclaimed-refl : (known : List Text) (blobs : Blobs) → IsReclaimed known blobs blobs
IsReclaimed-refl known blobs = record { leases = refl; fewer = λ x h. h; stays = λ x k h. h }

IsReclaimed-trans :
    (known : List Text) (a b c : Blobs)
    → IsReclaimed known a b
    → IsReclaimed known b c
    → IsReclaimed known a c
IsReclaimed-trans known a b c r s = record {
  leases = s.leases ∙ r.leases;
  fewer = λ x h. r.fewer x (s.fewer x h);
  stays = λ x k h.
      s.stays x (subst (λ ls. (text_mem x known || text_mem x ls) ≡ true) (sym r.leases) k)
        (r.stays x k h);
}

removed-IsReclaimed :
    (known : List Text) (blobs : Blobs) (d : Text)
    → text_mem d known ≡ false
    → IsReclaimed known blobs (remove blobs d).0
removed-IsReclaimed known blobs d u = record {
  leases = leases-remove blobs d;
  fewer = λ x h. ground (arith, h, file_exists-remove blobs x d);
  stays = λ x k h. elim (Bool-cases (text_eq d x)) [
    | inl e ↦
        let absent : text_mem x known ≡ false =
          subst (λ y. text_mem y known ≡ false) ((text_eq_iff d x).0 e) u in
        ground (arith, h, k, absent, file_exists-remove blobs x d)
    | inr e ↦ ground (arith, h, e, file_exists-remove blobs x d)
  ];
}

-- What is done with a result, and with a test, keeps what both of its branches keep.
tried-IsReclaimed {ℓ κ} :
    {A : Type ℓ} {B : Type κ} (known : List Text) (a b : Blobs) (r : Io A) (f : A → Io B × Blobs)
    → IsReclaimed known a b
    → ((v : A) → IsReclaimed known a (f v).1)
    → IsReclaimed known a (tried r b f).1
tried-IsReclaimed known a b (err e) f h k = h
tried-IsReclaimed known a b (ok v) f h k = k v

named-IsReclaimed {κ} :
    {B : Type κ} (known : List Text) (a : Blobs) (name : Option Text) (x : Io B × Blobs)
    (f : Text → Io B × Blobs)
    → IsReclaimed known a x.1
    → ((v : Text) → IsReclaimed known a (f v).1)
    → IsReclaimed known a (named name x f).1
named-IsReclaimed known a none x f h k = h
named-IsReclaimed known a (some v) x f h k = k v

chosen-IsReclaimed {κ} :
    {B : Type κ} (known : List Text) (a : Blobs) (c : Bool) (x y : Io B × Blobs)
    → IsReclaimed known a x.1
    → (c ≡ false → IsReclaimed known a y.1)
    → IsReclaimed known a (if c then x else y).1
chosen-IsReclaimed known a true x y h k = h
chosen-IsReclaimed known a false x y h k = k refl

counted-known :
    (x : Text) (bs : List BlobRow)
    → ltb 0 (refs x bs) ≡ true
    → text_mem x (map (λ b. b.digest) bs) ≡ true
unfolding refs text_mem
counted-known x [] h = ground (arith, h)
counted-known x (b ∷ bs) h = elim (Bool-cases (text_eq b.digest x)) [
  | inl e ↦ ground (arith, e)
  | inr e ↦ ground (arith, e, h, counted-known x bs)
]

module _ (regular : Text → Io (Unit {0})) (unlink : Text → Io (Unit {0})) where
  pub remove_blob-IsReclaimed :
      (known : List Text) (blobs : Blobs) (d : Text)
      → text_mem d known ≡ false
      → IsReclaimed known blobs (remove_blob regular unlink blobs d).1
  unfolding remove_blob
  remove_blob-IsReclaimed known blobs d u =
      let same = IsReclaimed-refl known blobs in
      chosen-IsReclaimed known blobs (text_mem d blobs.leases) _ _ same (λ _.
        tried-IsReclaimed known blobs blobs (path d) _ same (λ _.
          tried-IsReclaimed known blobs blobs (regular d) _ same (λ _.
            tried-IsReclaimed known blobs blobs (unlink d) _ same
              (λ _. removed-IsReclaimed known blobs d u))))

  pub reclaim_shard-IsReclaimed :
      (known : List Text) (prefix : Text) (found : List (Io Found)) (blobs : Blobs) (n : ℕ)
      → IsReclaimed known blobs (reclaim_shard regular unlink known prefix found blobs n).1
  unfolding reclaim_shard
  reclaim_shard-IsReclaimed known prefix [] blobs n = IsReclaimed-refl known blobs
  reclaim_shard-IsReclaimed known prefix (err e ∷ found) blobs n = IsReclaimed-refl known blobs
  reclaim_shard-IsReclaimed known prefix (ok blob ∷ found) blobs n =
      let skipped = reclaim_shard-IsReclaimed known prefix found blobs n in
      named-IsReclaimed known blobs blob.name _ _ skipped (λ rest.
        let d = prefix ++ rest in
        let out = remove_blob regular unlink blobs d in
        chosen-IsReclaimed known blobs (text_mem d known) _ _ skipped (λ u.
          let gone = remove_blob-IsReclaimed known blobs d u in
          tried-IsReclaimed known blobs out.1 out.0 _ gone (λ v.
            IsReclaimed-trans known blobs out.1 _ gone
              (reclaim_shard-IsReclaimed known prefix found out.1 _))))

  reclaim_shards-IsReclaimed :
      (known : List Text) (shards : List (Io Shard)) (blobs : Blobs) (n : ℕ)
      → IsReclaimed known blobs (reclaim_shards regular unlink known shards blobs n).1
  unfolding reclaim_shards
  reclaim_shards-IsReclaimed known [] blobs n = IsReclaimed-refl known blobs
  reclaim_shards-IsReclaimed known (err e ∷ shards) blobs n = IsReclaimed-refl known blobs
  reclaim_shards-IsReclaimed known (ok shard ∷ shards) blobs n =
      let same = IsReclaimed-refl known blobs in
      let skipped = reclaim_shards-IsReclaimed known shards blobs n in
      tried-IsReclaimed known blobs blobs shard.plain _ same (λ _.
        chosen-IsReclaimed known blobs (not shard.is_dir || is_incoming shard.name) _ _ skipped
          (λ _. named-IsReclaimed known blobs shard.name _ _ skipped (λ prefix.
            tried-IsReclaimed known blobs blobs shard.blobs _ same (λ found.
              let out = reclaim_shard regular unlink known prefix found blobs n in
              let here = reclaim_shard-IsReclaimed known prefix found blobs n in
              tried-IsReclaimed known blobs out.1 out.0 _ here (λ v.
                IsReclaimed-trans known blobs out.1 _ here
                  (reclaim_shards-IsReclaimed known shards out.1 v))))))

  -- Whatever fails, what the index refers to keeps its file.
  pub reconcile-IsBacked :
      (store : Store) (listing : Io (List (Io Shard)))
      → IsBacked store
      → IsBacked (reconcile regular unlink store listing).1
  unfolding reconcile known_digests
  reconcile-IsBacked store (err e) b = b
  reconcile-IsBacked store (ok shards) b =
      let out = reclaim_shards-IsReclaimed (known_digests store.tables) shards store.blobs 0 in
      record {
        consistent = b.consistent;
        backed = λ x h.
            let counted =
              counted-known x store.tables.blobs
                (subst (λ n. ltb 0 n ≡ true) (sym (b.consistent.counted x)) h) in
            out.stays x (ground (arith, counted)) (b.backed x h);
      }
