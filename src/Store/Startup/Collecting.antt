-- ===== src/Store/Startup/Collecting.antt =====
-- daemon/src/store/mod.rs: what `reconcile` deletes where it succeeds.
use rldyour_clipboard.Io.{Io}
use rldyour_clipboard.Blobs.{Blobs, file_exists}
use rldyour_clipboard.Index.Queries.{known_digests}
use rldyour_clipboard.Store.Sweeping.{file_exists-remove}
use rldyour_clipboard.Store.Recording.{Store}
use rldyour_clipboard.Store.Startup.{
  Found, Shard, path, tried, named, is_incoming, remove_blob, reclaim_shard, reclaim_shards,
  reconcile,
}
use rldyour_clipboard.Store.Startup.Reclaiming.{
  IsReclaimed, remove_blob-IsReclaimed, reclaim_shard-IsReclaimed,
}
use rldyour_clipboard.Prelude.{
  ℕ, ◌+◌, ◌≡◌, refl, ap, ◌∙◌, subst, inl, inr, Bool, true, false, not, ◌&&◌, ◌||◌, Option, none,
  some, List, [], ◌∷◌, ◌++◌, arith, if◌then◌else◌, Bool-cases, ok, err, Text, text_eq, text_eq_iff,
  text_mem,
}

-- The file under `x` is there still exactly if it was and `held` holds.
abbrev IsFiled : Text → Blobs → Bool → Blobs → Type 0
IsFiled x before held after = file_exists x after.files ≡ (file_exists x before.files && held)

-- Where the first component is a value, the second one is as `Q` has it.
abbrev Ends {κ} : {B : Type κ} → Io B × Blobs → (Blobs → Type 0) → Type κ
Ends {B = B} out Q = (m : B) → out.0 ≡ ok m → Q out.1

tried-Ends {ℓ κ} :
    {A : Type ℓ} {B : Type κ} (r : Io A) (b : Blobs) (f : A → Io B × Blobs) (Q : Blobs → Type 0)
    → ((v : A) → r ≡ ok v → Ends (f v) Q)
    → Ends (tried r b f) Q
tried-Ends (err e) b f Q h = λ m g. absurd (cc g)
tried-Ends (ok v) b f Q h = h v refl

chosen-Ends {κ} :
    {B : Type κ} (c : Bool) (x y : Io B × Blobs) (Q : Blobs → Type 0)
    → (c ≡ true → Ends x Q)
    → (c ≡ false → Ends y Q)
    → Ends (if c then x else y) Q
chosen-Ends true x y Q h k = h refl
chosen-Ends false x y Q h k = k refl

named-Ends {κ} :
    {B : Type κ} (name : Option Text) (x : Io B × Blobs) (f : Text → Io B × Blobs)
    (Q : Blobs → Type 0)
    → (name ≡ none → Ends x Q)
    → ((v : Text) → name ≡ some v → Ends (f v) Q)
    → Ends (named name x f) Q
named-Ends none x f Q h k = h refl
named-Ends (some v) x f Q h k = k v refl

-- Whether the file under `x` is among what is found.
unfoldable pub is_named : Text → Text → Option Text → Bool
unfolding text_eq
is_named prefix x none = false
is_named prefix x (some rest) = text_eq (prefix ++ rest) x

unfoldable pub is_found : Text → Text → List (Io Found) → Bool
unfolding is_named
is_found prefix x [] = false
is_found prefix x (err e ∷ found) = is_found prefix x found
is_found prefix x (ok blob ∷ found) = is_named prefix x blob.name || is_found prefix x found

abbrev pub is_under : Text → Option Text → Io (List (Io Found)) → Bool
is_under x none found = false
is_under x (some prefix) (err e) = false
is_under x (some prefix) (ok found) = is_found prefix x found

-- Whether the file under `x` is among what is found below the root, `incoming` left aside.
unfoldable pub is_listed : Text → List (Io Shard) → Bool
unfolding is_found text_eq
is_listed x [] = false
is_listed x (err e ∷ shards) = is_listed x shards
is_listed x (ok shard ∷ shards) =
    (shard.is_dir && not (is_incoming shard.name) && is_under x shard.name shard.blobs)
    || is_listed x shards

-- A file that is not known goes, and then the others that are found.
combine_blob :
    (known : List Text) (d x : Text) (before mid after : Blobs) (this rest : Bool)
    → text_mem d known ≡ false
    → this ≡ text_eq d x
    → IsReclaimed known before mid
    → IsFiled x before (text_mem x before.leases || not (text_eq d x)) mid
    → IsFiled x mid (text_mem x known || text_mem x mid.leases || not rest) after
    → IsFiled x before (text_mem x known || text_mem x before.leases || not (this || rest)) after
combine_blob known d x before mid after this rest u t r one others =
    let leases = ap (text_mem x) r.leases in
    elim (Bool-cases (text_eq d x)) [
      | inl s ↦
          let absent = subst (λ y. text_mem y known ≡ false) ((text_eq_iff d x).0 s) u in
          ground (arith, s, t, one, others, leases, absent)
      | inr s ↦ ground (arith, s, t, one, others, leases)
    ]

-- The files of a shard go, and then those of the others.
combine_shard :
    (known : List Text) (x : Text) (before mid after : Blobs) (here rest listed : Bool)
    → listed ≡ (here || rest)
    → IsReclaimed known before mid
    → IsFiled x before (text_mem x known || text_mem x before.leases || not here) mid
    → IsFiled x mid (text_mem x known || text_mem x mid.leases || not rest) after
    → IsFiled x before (text_mem x known || text_mem x before.leases || not listed) after
combine_shard known x before mid after here rest listed l r one others =
    ground (arith, l, one, others, ap (text_mem x) r.leases)

module _ (regular : Text → Io (Unit {0})) (unlink : Text → Io (Unit {0})) where
  remove_blob-Ends :
      (blobs : Blobs) (d x : Text)
      → Ends
          (remove_blob regular unlink blobs d)
          (IsFiled x blobs (text_mem x blobs.leases || not (text_eq d x)))
  unfolding remove_blob
  remove_blob-Ends blobs d x =
      let Q = IsFiled x blobs (text_mem x blobs.leases || not (text_eq d x)) in
      chosen-Ends (text_mem d blobs.leases) _ _ Q
        (λ l m e. elim (Bool-cases (text_eq d x)) [
          | inl s ↦
              let leased = subst (λ y. text_mem y blobs.leases ≡ true) ((text_eq_iff d x).0 s) l in
              ground (arith, leased)
          | inr s ↦ ground (arith, s)
        ])
        (λ l. tried-Ends (path d) _ _ Q (λ u v. tried-Ends (regular d) _ _ Q (λ u v.
          tried-Ends (unlink d) _ _ Q (λ u v m e. ground (arith, file_exists-remove blobs x d)))))

  reclaim_shard-Ends :
      (known : List Text) (prefix : Text) (found : List (Io Found)) (blobs : Blobs) (n : ℕ)
      (x : Text)
      → Ends (reclaim_shard regular unlink known prefix found blobs n) (
          IsFiled x blobs
            (text_mem x known || text_mem x blobs.leases || not (is_found prefix x found)))
  unfolding reclaim_shard is_found
  reclaim_shard-Ends known prefix [] blobs n x = λ m e. ground arith
  reclaim_shard-Ends known prefix (err e ∷ found) blobs n x = λ m g. absurd (cc g)
  reclaim_shard-Ends known prefix (ok blob ∷ found) blobs n x =
      let Q = IsFiled x blobs (
        text_mem x known || text_mem x blobs.leases || not (is_found prefix x (ok blob ∷ found))) in
      named-Ends blob.name _ _ Q
        (λ o m e.
          let other : is_named prefix x blob.name ≡ false = ap (is_named prefix x) o in
          ground (arith, other, reclaim_shard-Ends known prefix found blobs n x m e))
        (λ rest o.
          let d = prefix ++ rest in
          let out = remove_blob regular unlink blobs d in
          let this : is_named prefix x blob.name ≡ text_eq d x = ap (is_named prefix x) o in
          chosen-Ends (text_mem d known) _ _ Q
            (λ k m e. elim (Bool-cases (text_eq d x)) [
              | inl s ↦
                  let kept = subst (λ y. text_mem y known ≡ true) ((text_eq_iff d x).0 s) k in
                  ground (arith, kept, reclaim_shard-Ends known prefix found blobs n x m e)
              | inr s ↦ ground (arith, s, this, reclaim_shard-Ends known prefix found blobs n x m e)
            ])
            (λ k. tried-Ends out.0 out.1 _ Q (λ v g m e.
              let after =
                (reclaim_shard regular unlink known prefix found out.1
                  (if v then n + blob.bytes else n)).1 in
              combine_blob known d x blobs out.1 after _ (is_found prefix x found) k this
                (remove_blob-IsReclaimed regular unlink known blobs d k)
                (remove_blob-Ends blobs d x v g)
                (reclaim_shard-Ends known prefix found out.1 _ x m e))))

  reclaim_shards-Ends :
      (known : List Text) (shards : List (Io Shard)) (blobs : Blobs) (n : ℕ) (x : Text)
      → Ends (reclaim_shards regular unlink known shards blobs n) (
          IsFiled x blobs (text_mem x known || text_mem x blobs.leases || not (is_listed x shards)))
  unfolding reclaim_shards is_listed
  reclaim_shards-Ends known [] blobs n x = λ m e. ground arith
  reclaim_shards-Ends known (err e ∷ shards) blobs n x = λ m g. absurd (cc g)
  reclaim_shards-Ends known (ok shard ∷ shards) blobs n x =
      let listed = is_listed x (ok shard ∷ shards) in
      let Q = IsFiled x blobs (text_mem x known || text_mem x blobs.leases || not listed) in
      let skipped = reclaim_shards-Ends known shards blobs n x in
      tried-Ends shard.plain blobs _ Q (λ u g.
        chosen-Ends (not shard.is_dir || is_incoming shard.name) _ _ Q
          (λ c m e. ground (arith, c, skipped m e))
          (λ c.
            named-Ends shard.name _ _ Q
              (λ o m e.
                let other : is_under x shard.name shard.blobs ≡ false =
                  ap (λ name. is_under x name shard.blobs) o in
                ground (arith, other, skipped m e))
              (λ prefix o. tried-Ends shard.blobs blobs _ Q (λ found b.
                let out = reclaim_shard regular unlink known prefix found blobs n in
                let here : is_under x shard.name shard.blobs ≡ is_found prefix x found =
                  ap (λ name. is_under x name shard.blobs) o ∙ ap (is_under x (some prefix)) b in
                tried-Ends out.0 out.1 _ Q (λ v w m e.
                  combine_shard known x blobs out.1
                    (reclaim_shards regular unlink known shards out.1 v).1 (is_found prefix x found)
                    (is_listed x shards) listed (ground (arith, c, here))
                    (reclaim_shard-IsReclaimed regular unlink known prefix found blobs n)
                    (reclaim_shard-Ends known prefix found blobs n x v w)
                    (reclaim_shards-Ends known shards out.1 v x m e))))))

  -- Where `reconcile` succeeds, the files that it leaves are exactly those that were there and that
  -- the index knows, that are leased, or that were not listed below the root.
  pub reconcile-collects :
      (store : Store) (shards : List (Io Shard)) (n : ℕ) (x : Text)
      → (reconcile regular unlink store (ok shards)).0 ≡ ok n
      → file_exists x (reconcile regular unlink store (ok shards)).1.blobs.files ≡ (
          file_exists x store.blobs.files
          && (text_mem x (known_digests store.tables)
              || text_mem x store.blobs.leases
              || not (is_listed x shards)))
  unfolding reconcile
  reconcile-collects store shards n x =
      reclaim_shards-Ends (known_digests store.tables) shards store.blobs 0 x n
