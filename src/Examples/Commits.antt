-- ===== src/Examples/Commits.antt =====
-- Commits of new and of secret content, and a bitmap of the Windows clipboard.
use rldyour_clipboard.Index.Queries.{references}
use rldyour_clipboard.Kind.{any_sensitive}
use rldyour_clipboard.Io.{Io}
use rldyour_clipboard.Blobs.{file_exists}
use rldyour_clipboard.Store.{StoreError, Accepted}
use rldyour_clipboard.Store.Deriving.{Derived, no_facts}
use rldyour_clipboard.Store.Recording.{Store, Committed, publish}
use rldyour_clipboard.Store.Recording.Fetched.{served, publish_serves}
use rldyour_clipboard.Store.Keeping.{open_part}
use rldyour_clipboard.Store.Sound.{digests_of}
use rldyour_clipboard.Session.Drafts.{Draft, find_draft}
use rldyour_clipboard.Session.Conversation.{World, perform_commit}
use rldyour_clipboard.Capture.Secrets.{perform_commit_secret}
use rldyour_clipboard.Capture.Windows.Bitmaps.{Quad}
use rldyour_clipboard.System.{world_of}
use rldyour_clipboard.Examples.Archive.{archive-IsConsistent}
use rldyour_clipboard.Examples.Disk.{store}
use rldyour_clipboard.Examples.Conversations.{outside, session, chunks}
use rldyour_clipboard.Prelude.{
  ℕ, ◌≡◌, refl, false, not, ◌&&◌, Option, none, some, List, [], ◌∷◌, Result, ok, err, All, Text,
  codes, text_eq, text_mem, to_ascii_lowercase,
}

-- The draft that holds the leased file, with room for it.
abbrev roomy : Store
roomy = record store { budget = 1000 }

abbrev drafted : List Accepted
drafted = record { mime = codes "text/plain"; digest = codes "f"; bytes = 5 } ∷ []

abbrev derived : Derived
derived = record { facts = no_facts; thumbnail = none }

abbrev published : Result StoreError (Option Committed) × Store
published = publish roomy (codes "i4") drafted derived none 50

abbrev nothing : Committed
nothing = record { entry = 0; created = false; summary = none; evicted = [] }

abbrev done_of : Result StoreError (Option Committed) → Committed
done_of (ok (some c)) = c
done_of (ok none) = nothing
done_of (err e) = nothing

abbrev landed : Committed
landed = done_of published.0

publish_serves_example :
    All (λ a. open_part published.1 4 (some a.mime) ≡ served a roomy.blobs) drafted
unfolding publish text_eq text_mem
publish_serves_example =
    publish_serves roomy (codes "i4") drafted derived none 50 landed published.1
      archive-IsConsistent refl refl refl refl

-- A draft with a representation that a password manager marked.
abbrev secret : Draft
secret = record {
  source = none;
  parts =
      record { mime = codes "text/plain"; digest = codes "f"; bytes = 5 }
      ∷ record { mime = codes "x-kde-passwordManagerHint"; digest = codes "e"; bytes = 6 }
      ∷ [];
}

abbrev guarded : World
guarded =
    world_of (record session { drafts = record { held = (1, secret) ∷ []; next = 2 } }) store chunks

perform_commit_secret_example :
    let out : Io (Unit {0}) × World = perform_commit outside (λ s. s) 0 guarded 7 1 in
    (out.1.store.tables ≡ store.tables)
    × (out.1.events ≡ [])
    × ((x : Text)
        → file_exists x out.1.store.blobs.files ≡ (
            file_exists x store.blobs.files
            && not (
                text_mem x (digests_of secret.parts)
                && not (references store.tables x)
                && not (text_mem x out.1.store.blobs.leases))))
unfolding find_draft any_sensitive text_mem to_ascii_lowercase text_eq
perform_commit_secret_example =
    perform_commit_secret outside (λ s. s) 0 guarded 7 1 secret refl refl

-- An info header of 40 bytes for a pixel of 8 bits, with a palette of two colours.
abbrev info : List ℕ
info =
    40 ∷ 0 ∷ 0 ∷ 0 ∷ 1 ∷ 0 ∷ 0 ∷ 0 ∷ 1 ∷ 0 ∷ 0 ∷ 0 ∷ 1 ∷ 0 ∷ 8 ∷ 0 ∷ 0 ∷ 0 ∷ 0 ∷ 0 ∷ 0 ∷ 0 ∷ 0 ∷ 0
    ∷ 0 ∷ 0 ∷ 0 ∷ 0 ∷ 0 ∷ 0 ∷ 0 ∷ 0 ∷ 2 ∷ 0 ∷ 0 ∷ 0 ∷ 0 ∷ 0 ∷ 0 ∷ 0 ∷ []

abbrev colours : List Quad
colours =
    record { blue = 1; green = 2; red = 3; reserved = 0 }
    ∷ record { blue = 4; green = 5; red = 6; reserved = 0 }
    ∷ []
