-- ===== src/System/Halves.antt =====
-- The steps that take something into the store or hand it on: the first half of a commit, and the
-- recorder's.
use rldyour_clipboard.System.Spoken.{spoken, IsSafe, held-middle, length-middle}
use rldyour_clipboard.Index.Refs.Counts.{one_if}
use rldyour_clipboard.Store.Sound.Taking.{Derives, derive-Derives}
use rldyour_clipboard.Store.Sound.Publishing.{with_parts}
use rldyour_clipboard.Session.Conversation.Keeping.{held_by-remove}
use rldyour_clipboard.Holds.{Work, committing, held_pending}
use rldyour_clipboard.System.{without_draft, taken_part}
use rldyour_clipboard.Store.Deriving.{Derived, identity, derive}
use rldyour_clipboard.Store.Recording.{thumb_digest}
use rldyour_clipboard.Store.Sound.Taking.{with_blobs}
use rldyour_clipboard.Index.Refs.Counts.{occurs}
use rldyour_clipboard.Blobs.{Blobs}
use rldyour_clipboard.Store.Recording.{Store}
use rldyour_clipboard.Store.Sound.{IsSound, weaken, discard-IsSound}
use rldyour_clipboard.Session.Drafts.{Draft, find_draft}
use rldyour_clipboard.Session.Conversation.{Outside, Session}
use rldyour_clipboard.Store.{Accepted, accept}
use rldyour_clipboard.Store.Deriving.{cursor}
use rldyour_clipboard.Store.Sound.Taking.{accept-Leases}
use rldyour_clipboard.Store.Sound.Publishing.{commit-IsSound}
use rldyour_clipboard.Store.Recording.{commit}
use rldyour_clipboard.Capture.{record_commit}
use rldyour_clipboard.Session.Conversation.Keeping.{held-append as held-snoc}
use rldyour_clipboard.Prelude.{
  ℕ, ◌+◌, ◌≡◌, sym, subst, inl, inr, Option, some, List, [], ◌∷◌, ◌++◌, append-nil, arith, ok,
  length, Text, text_eq, Result-cases,
}

module _ (o : Outside) where
  pub derives-IsSafe :
      (store : Store) (before after : List Session) (pending : List Work)
      (capturing : List Accepted) (session : Session) (draft now : ℕ) (d : Draft)
      (derived : Derived) (blobs : Blobs)
      → find_draft draft session.drafts.held ≡ some d
      → derive o.write_file o.digest_of o.lossy o.thumb_of_image store.blobs d.parts
        ≡ ok (derived, blobs)
      → IsSafe (record {
        store = store;
        connections = before ++ session ∷ after;
        pending = pending;
        capturing = capturing;
      })
      → IsSafe (record {
        store = with_blobs store blobs;
        connections =
            before ++ record session { drafts = without_draft draft session.drafts } ∷ after;
        pending =
            committing (record {
              parts = d.parts;
              name = identity o.digest_of d.parts;
              derived = derived;
              source = d.source;
              at = now;
            })
            ∷ pending;
        capturing = capturing;
      })
  derives-IsSafe store before after pending capturing session draft now d derived blobs f e i =
      let made =
        derive-Derives o.write_file o.digest_of o.lossy o.thumb_of_image
          (spoken (before ++ session ∷ after) pending capturing) store d.parts i.sound in
      let told : Derives o.write_file o.digest_of o.lossy o.thumb_of_image
          (spoken (before ++ session ∷ after) pending capturing) store (ok (derived, blobs)) =
        rw e at made in
      let left = record session { drafts = without_draft draft session.drafts } in
      record {
        sound =
            weaken
              (λ x.
                spoken (before ++ session ∷ after) pending capturing x
                + occurs x (thumb_digest derived.thumbnail))
              _ (with_blobs store blobs)
              (λ x.
                unfold held_pending in
                omega (
                  arith,
                  held-middle before after session pending capturing x,
                  held-middle before after left pending capturing x,
                  held_by-remove draft d session.drafts.held x f,
                ))
              told.0;
        owned = (told.1, i.owned);
        few =
            omega
              (arith, i.few, length-middle before after session, length-middle before after left);
      }

  pub offers-IsSound :
      (r : Text → ℕ) (store : Store) (capturing : List Accepted) (mime : Text) (content : List ℕ)
      → IsSound (with_parts r capturing) store
      → let taken =
          accept o.write_file o.digest_of store.blobs store.budget mime
            (cursor content)
            (length content) in
        IsSound (with_parts r (capturing ++ taken_part taken.result)) (with_blobs store taken.blobs)
  offers-IsSound r store capturing mime content i =
      let taken =
        accept o.write_file o.digest_of store.blobs store.budget mime (cursor content)
          (length content) in
      let l =
        accept-Leases o.write_file o.digest_of (with_parts r capturing) store mime (cursor content)
          (length content) i in
      elim (Result-cases taken.result) [
        | inl (a, e) ↦ rw e (
            weaken (λ x. with_parts r capturing x + one_if (text_eq a.digest x)) _
              (with_blobs store taken.blobs) (λ x. omega (arith, held-snoc x capturing a))
              (rw e at l))
        | inr (er, e) ↦ rw e (
            subst (λ ps. IsSound (with_parts r ps) (with_blobs store taken.blobs))
              (sym (append-nil capturing)) (rw e at l))
      ]

  pub captures-IsSound :
      (r : Text → ℕ) (store : Store) (capturing : List Accepted) (source : Option Text) (now : ℕ)
      → IsSound (with_parts r capturing) store
      → IsSound r (record_commit o (λ s. s) store capturing source now).0
  unfolding record_commit
  captures-IsSound r store capturing source now i =
      discard-IsSound r
        (commit o.write_file o.digest_of o.lossy o.thumb_of_image (λ s. s) store capturing source
          now).1
        capturing
        (commit-IsSound o.write_file o.digest_of o.lossy o.thumb_of_image (λ s. s) r store capturing
          source now (λ s other h. h) i)

  pub captures_derives-IsSafe :
      (store : Store) (connections : List Session) (pending : List Work) (capturing : List Accepted)
      (source : Option Text) (now : ℕ) (derived : Derived) (blobs : Blobs)
      → derive o.write_file o.digest_of o.lossy o.thumb_of_image store.blobs capturing
        ≡ ok (derived, blobs)
      → IsSafe (record {
        store = store;
        connections = connections;
        pending = pending;
        capturing = capturing;
      })
      → IsSafe (record {
        store = with_blobs store blobs;
        connections = connections;
        pending =
            committing (record {
              parts = capturing;
              name = identity o.digest_of capturing;
              derived = derived;
              source = source;
              at = now;
            })
            ∷ pending;
        capturing = [];
      })
  captures_derives-IsSafe store connections pending capturing source now derived blobs e i =
      let made =
        derive-Derives o.write_file o.digest_of o.lossy o.thumb_of_image
          (spoken connections pending capturing) store capturing i.sound in
      let told : Derives o.write_file o.digest_of o.lossy o.thumb_of_image
          (spoken connections pending capturing) store (ok (derived, blobs)) =
        rw e at made in
      record {
        sound =
            weaken
              (λ x.
                spoken connections pending capturing x + occurs x (thumb_digest derived.thumbnail))
              _ (with_blobs store blobs) (λ x. unfold held_pending occurs in omega arith) told.0;
        owned = (told.1, i.owned);
        few = i.few;
      }
