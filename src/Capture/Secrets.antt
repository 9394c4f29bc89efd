-- ===== src/Capture/Secrets.antt =====
-- What daemon/src/capture/mod.rs and daemon/src/session.rs do with content that is marked as secret.
use rldyour_clipboard.Index.Queries.{references}
use rldyour_clipboard.Io.{Io}
use rldyour_clipboard.Kind.{any_sensitive, is_empty}
use rldyour_clipboard.Blobs.{Blobs, file_exists, drop_lease}
use rldyour_clipboard.Store.{Accepted}
use rldyour_clipboard.Store.Sweeping.{drop_parts, discard, file_exists-sweep, leases-sweep}
use rldyour_clipboard.Store.Recording.{Store, commit}
use rldyour_clipboard.Store.Sound.{digests_of}
use rldyour_clipboard.Session.Drafts.{Draft, find_draft}
use rldyour_clipboard.Session.Conversation.{Outside, World, committed, reply, perform_commit}
use rldyour_clipboard.Capture.{Offered, record_event}
use rldyour_clipboard.Prelude.{
  ℕ, ◌≡◌, refl, ap, ◌∙◌, true, not, ◌&&◌, ◌||◌, Option, none, some, List, [], ◌∷◌, map, arith, ok,
  Text, text_mem,
}

module _ (o : Outside) where
  -- An event with a part that is marked as secret changes nothing and is not told to anyone, whatever
  -- its other parts are; nor does one without parts.
  pub record_event_secret :
      (meanwhile : Store → Store) (store : Store) (parts : List Offered) (source : Option Text)
      (now : ℕ)
      → (is_empty parts || any_sensitive (map (λ p. p.0) parts)) ≡ true
      → record_event o meanwhile store parts source now ≡ (store, [])
  unfolding record_event
  record_event_secret meanwhile store parts source now h = rw (h, record_event) refl

  commit_secret :
      (meanwhile : Store → Store) (store : Store) (parts : List Accepted) (source : Option Text)
      (now : ℕ)
      → any_sensitive (map (λ a. a.mime) parts) ≡ true
      → commit o.write_file o.digest_of o.lossy o.thumb_of_image meanwhile store parts source now
        ≡ (ok none, store)
  unfolding commit
  commit_secret meanwhile store parts source now h =
      let guarded : (is_empty parts || any_sensitive (map (λ a. a.mime) parts)) ≡ true =
        ground (arith, h) in
      rw (guarded, commit) refl

  files-drop_parts :
      (blobs : Blobs) (parts : List Accepted) → (drop_parts blobs parts).files ≡ blobs.files
  unfolding drop_parts drop_lease
  files-drop_parts blobs [] = refl
  files-drop_parts blobs (p ∷ parts) = files-drop_parts (drop_lease blobs p.digest) parts

  -- What a draft leaves of a file when it is discarded.
  file_exists-discard :
      (store : Store) (parts : List Accepted) (x : Text)
      → let after = discard store.tables store.blobs parts in
        file_exists x after.files ≡ (
          file_exists x store.blobs.files
          && not (
              text_mem x (digests_of parts)
              && not (references store.tables x)
              && not (text_mem x after.leases)))
  unfolding discard
  file_exists-discard store parts x =
      let dropped = drop_parts store.blobs parts in
      file_exists-sweep store.tables dropped (digests_of parts) x
      ∙ ground (
        arith,
        ap (file_exists x) (files-drop_parts store.blobs parts),
        ap (text_mem x) (leases-sweep store.tables dropped (digests_of parts)),
      )

  -- A draft with a part that is marked as secret leaves no trace when it is committed: the index is
  -- as it was, no watcher is told, and of the files that it wrote only those are left that the index
  -- refers to or that another draft holds.
  pub perform_commit_secret :
      (meanwhile : Store → Store) (now : ℕ) (w : World) (req draft : ℕ) (d : Draft)
      → find_draft draft w.session.drafts.held ≡ some d
      → any_sensitive (map (λ a. a.mime) d.parts) ≡ true
      → let out : Io (Unit {0}) × World = perform_commit o meanwhile now w req draft in
        (out.1.store.tables ≡ w.store.tables)
        × (out.1.events ≡ w.events)
        × ((x : Text)
            → file_exists x out.1.store.blobs.files ≡ (
                file_exists x w.store.blobs.files
                && not (
                    text_mem x (digests_of d.parts)
                    && not (references w.store.tables x)
                    && not (text_mem x out.1.store.blobs.leases))))
  unfolding perform_commit committed reply
  perform_commit_secret meanwhile now w req draft d f h =
      let quiet = commit_secret meanwhile w.store d.parts d.source now h in
      (
        rw (f, quiet, perform_commit) refl,
        rw (f, quiet, perform_commit) refl,
        λ x. rw (f, quiet, perform_commit) (file_exists-discard w.store d.parts x),
      )
