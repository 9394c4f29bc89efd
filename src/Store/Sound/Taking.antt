-- ===== src/Store/Sound/Taking.antt =====
-- What `accept` and `derive` of daemon/src/store/mod.rs take into the blobs is leased.
use rldyour_clipboard.Index.Tables.{Part, Facts}
use rldyour_clipboard.Index.Refs.Counts.{occurs, one_if, thumb_is}
use rldyour_clipboard.Index.Changes as Changes
use rldyour_clipboard.Io.{Input, Io}
use rldyour_clipboard.Kind.{is_text, is_image}
use rldyour_clipboard.Blobs.{Blobs, absorb}
use rldyour_clipboard.Blobs.Copying.{written-cases}
use rldyour_clipboard.Config.{is_valid_mime}
use rldyour_clipboard.Store.{StoreError, Accepted, accept, write_from, validate_mime}
use rldyour_clipboard.Store.Deriving.{
  Derived, Made, derive, derive_text, derive_image, store_thumb, cursor, open_read, best, read_text,
  indexed_text, thumbnailed_image,
}
use rldyour_clipboard.Store.Recording.{Store, thumb_digest}
use rldyour_clipboard.Store.Sound.{IsSound, finish-IsSound, weaken}
use rldyour_clipboard.Prelude.{
  ℕ, ◌+◌, ◌≤◌, ◌≡◌, refl, inl, inr, Option, none, List, [], arith, ltb, leb, Bool-cases,
  Option-cases, Result-cases, Result, ok, err, length, take, Text, text_eq,
}

-- The blobs of the store after an operation.
abbrev pub with_blobs : Store → Blobs → Store
with_blobs store blobs = record store { blobs = blobs }

-- On success a lease more is spoken for, and else none.
abbrev pub Leases {ℓ κ} :
    {E : Type ℓ} {A : Type κ} → (A → Text) → (Text → ℕ) → Store → Result E A → Type 0
Leases digest r store (ok a) = IsSound (λ x. r x + one_if (text_eq (digest a) x)) store
Leases digest r store (err e) = IsSound r store

abbrev facts_thumb : Result StoreError Facts → Option Part
facts_thumb (ok facts) = facts.thumb
facts_thumb (err e) = none

module _ (write_all : List ℕ → List ℕ → Io (Unit {0})) (digest_of : List ℕ → Text) where
  pub write_from-Leases :
      (r : Text → ℕ) (store : Store) (input : Input) (bytes : ℕ)
      → IsSound r store
      → let out = write_from write_all digest_of store.blobs input bytes in
        Leases (λ w. w.digest) r (with_blobs store out.0.1) out.0.0
  unfolding write_from
  write_from-Leases r store input bytes i =
      let out = absorb write_all input [] bytes in
      elim (written-cases out.result) [
        | inl (e, w) ↦ rw (w, write_from) i
        | inr w ↦ rw (w, write_from) (finish-IsSound r digest_of store out.content i)
      ]

  pub accept-Leases :
      (r : Text → ℕ) (store : Store) (mime : Text) (input : Input) (bytes : ℕ)
      → IsSound r store
      → let out = accept write_all digest_of store.blobs store.budget mime input bytes in
        Leases (λ a. a.digest) r (with_blobs store out.blobs) out.result
  unfolding accept validate_mime
  accept-Leases r store mime input bytes i = elim (Bool-cases (is_valid_mime mime)) [
    | inr v ↦ rw (v, validate_mime, accept) i
    | inl v ↦ elim (Bool-cases (ltb store.budget bytes)) [
      | inl b ↦ rw (v, b, validate_mime, accept) i
      | inr b ↦
          let wrote = write_from-Leases r store input bytes i in
          elim (Result-cases (write_from write_all digest_of store.blobs input bytes).0.0) [
            | inl (w, e) ↦ rw (v, b, e, validate_mime, accept) (rw e at wrote)
            | inr (er, e) ↦ rw (v, b, e, validate_mime, accept) (rw e at wrote)
          ]
    ]
  ]

  module _ (lossy : List ℕ → Text) (thumb_of_image : List ℕ → Made) where
    -- What is derived speaks for the lease of its thumbnail, which is the one of its facts.
    abbrev pub Derives : (Text → ℕ) → Store → Result StoreError (Derived × Blobs) → Type 0
    Derives r store (ok (d, blobs)) =
        IsSound (λ x. r x + occurs x (thumb_digest d.thumbnail)) (with_blobs store blobs)
        × ((x : Text)
            → thumb_is x (Changes.thumb_digest d.facts.thumb) ≤ occurs x (thumb_digest d.thumbnail))
    Derives r store (err e) = Unit

    store_thumb-Derives :
        (r : Text → ℕ) (store : Store) (facts : Facts) (made : Made)
        → facts.thumb ≡ none
        → IsSound r store
        → Derives r store
            (store_thumb write_all digest_of lossy thumb_of_image store.blobs facts made)
    unfolding store_thumb occurs
    store_thumb-Derives r store facts made f i = elim (Option-cases made.png) [
      | inl e ↦ rw (e, store_thumb) (weaken r _ store (λ x. omega arith) i, λ x. rw f (omega arith))
      | inr (png, e) ↦
          let wrote = write_from-Leases r store (cursor png) (length png) i in
          elim (Result-cases
            (write_from write_all digest_of store.blobs (cursor png) (length png)).0.0) [
              | inl (w, k) ↦
                  rw (e, k, store_thumb)
                    (
                      weaken _ _ (with_blobs store _) (λ x. omega arith) (rw k at wrote),
                      λ x. omega arith,
                    )
              | inr (er, k) ↦ rw (e, k, store_thumb) tt
            ]
    ]

    derive_image-Derives :
        (r : Text → ℕ) (store : Store) (parts : List Accepted) (facts : Facts)
        → facts.thumb ≡ none
        → IsSound r store
        → Derives r store
            (derive_image write_all digest_of lossy thumb_of_image store.blobs parts facts)
    unfolding derive_image occurs
    derive_image-Derives r store parts facts f i =
        let plain : Derives r store (ok (record { facts = facts; thumbnail = none }, store.blobs)) =
          (weaken r _ store (λ x. omega arith) i, λ x. rw f (omega arith)) in
        elim (Option-cases (best is_image parts)) [
          | inl e ↦ rw (e, derive_image) plain
          | inr (part, e) ↦ elim (Bool-cases (leb part.bytes thumbnailed_image)) [
            | inr large ↦ rw (e, large, derive_image) plain
            | inl small ↦ elim (Result-cases (open_read part.digest store.blobs.files)) [
              | inl (content, o) ↦
                  rw (e, small, o, derive_image)
                    (store_thumb-Derives r store facts (thumb_of_image (take part.bytes content)) f
                      i)
              | inr (er, o) ↦ rw (e, small, o, derive_image) tt
            ]
          ]
        ]

    derive_text-thumb :
        (blobs : Blobs) (parts : List Accepted)
        → facts_thumb (derive_text write_all digest_of lossy thumb_of_image blobs parts) ≡ none
    unfolding derive_text
    derive_text-thumb blobs parts = elim (Option-cases (best is_text parts)) [
      | inl e ↦ rw (e, derive_text) refl
      | inr (part, e) ↦
          elim (Result-cases
            (read_text write_all digest_of lossy thumb_of_image blobs part.digest indexed_text)) [
              | inl (t, k) ↦ rw (e, k, derive_text) refl
              | inr (er, k) ↦ rw (e, k, derive_text) refl
            ]
    ]

    pub derive-Derives :
        (r : Text → ℕ) (store : Store) (parts : List Accepted)
        → IsSound r store
        → Derives r store (derive write_all digest_of lossy thumb_of_image store.blobs parts)
    unfolding derive
    derive-Derives r store parts i =
        elim (Result-cases
          (derive_text write_all digest_of lossy thumb_of_image store.blobs parts)) [
            | inl (facts, e) ↦
                rw (e, derive)
                  (derive_image-Derives r store parts facts
                    (rw e at (derive_text-thumb store.blobs parts)) i)
            | inr (er, e) ↦ rw (e, derive) tt
          ]
