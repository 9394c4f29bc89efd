-- ===== src/Holds.antt =====
-- What the daemon has under way between its holds of the lock on the index (daemon/src/store/mod.rs,
-- daemon/src/session.rs): a commit between its two holds, and the ends of leases and the sweeps that
-- follow a hold.
use rldyour_clipboard.Index.Changes.{evict_to}
use rldyour_clipboard.Store.Deriving.{Derived}
use rldyour_clipboard.Store.Recording.{record_entry, with_source, thumb_digest}
use rldyour_clipboard.Index.Refs.Counts.{occurs, one_if}
use rldyour_clipboard.Store.{Accepted}
use rldyour_clipboard.Store.Recording.{Store}
use rldyour_clipboard.Store.Sweeping.{sweep}
use rldyour_clipboard.Blobs.{Written, drop_lease}
use rldyour_clipboard.Store.Sound.{holds}
use rldyour_clipboard.Session.Drafts.{Draft}
use rldyour_clipboard.Prelude.{
  ℕ, ◌+◌, Bool, Option, none, some, List, [], ◌∷◌, ◌++◌, map, if◌then◌else◌, ok, err, Text, text_eq,
}

-- A commit between its two holds of the lock on the index.
pub record Pending : Type 0 where
  pub parts : List Accepted
  pub name : Text
  pub derived : Derived
  pub source : Option Text
  pub at : ℕ

-- What a caller has still to do behind its last hold of the lock: a lease ends, or digests are swept,
-- which is a hold of its own.
pub data Action : Type 0 where
  releases : Text → Action
  sweeps : List Text → Action

-- What is under way: a commit between its two holds, or the actions behind a hold.
pub data Work : Type 0 where
  committing : Pending → Work
  doing : List Action → Work

unfoldable pub act : Action → Store → Store
unfolding drop_lease sweep
act (releases digest) store = record store { blobs = drop_lease store.blobs digest }
act (sweeps digests) store = record store { blobs = sweep store.tables store.blobs digests }

-- `discard`: the leases of the parts end, and then their digests are swept.
unfoldable pub release_parts : List Accepted → List Action
release_parts = map (λ p. releases p.digest)

unfoldable pub discard_actions : List Accepted → List Action
unfolding release_parts
discard_actions parts = release_parts parts ++ sweeps (map (λ p. p.digest) parts) ∷ []

-- Drop of a session: its drafts are discarded, one after the other.
unfoldable pub drop_drafts : List (ℕ × Draft) → List Action
unfolding discard_actions
drop_drafts [] = []
drop_drafts ((n, d) ∷ drafts) = discard_actions d.parts ++ drop_drafts drafts

-- How often the leases that are still to end hold a digest.
unfoldable pub held_actions : List Action → Text → ℕ
unfolding text_eq
held_actions [] x = 0
held_actions (releases d ∷ actions) x = one_if (text_eq d x) + held_actions actions x
held_actions (sweeps ds ∷ actions) x = held_actions actions x

-- The same of what is under way, a commit with its thumbnail.
abbrev pub held_work : Work → Text → ℕ
held_work (committing p) x = holds x p.parts + occurs x (thumb_digest p.derived.thumbnail)
held_work (doing actions) x = held_actions actions x

unfoldable pub held_pending : List Work → Text → ℕ
unfolding occurs held_actions
held_pending [] x = 0
held_pending (w ∷ ws) x = held_work w x + held_pending ws x

abbrev pub thumb_releases : Option Written → List Action
thumb_releases none = []
thumb_releases (some written) = releases written.digest ∷ []

-- The second hold of the lock, in which the entry is recorded and room is made, and what is done
-- behind it: the lease of the thumbnail ends, the orphans and the thumbnail are swept, each in a
-- hold of its own, and the draft is discarded, or, where the client cannot be told of an entry, its
-- leases end and nothing is swept.
unfoldable pub publish_hold : Bool → Pending → Store → Store × List Action
unfolding record_entry with_source evict_to discard_actions release_parts
publish_hold told p store =
    elim (record_entry store.tables p.name p.parts (with_source p.derived.facts p.source) p.at) [
      | err e ↦ (store, thumb_releases p.derived.thumbnail ++ discard_actions p.parts)
      | ok recorded ↦
          let out = evict_to recorded.0 store.budget in
          (
            record store { tables = out.tables },
            thumb_releases p.derived.thumbnail
                ++ sweeps out.orphaned
                  ∷ sweeps (thumb_digest p.derived.thumbnail)
                  ∷ (if told then discard_actions p.parts else release_parts p.parts),
          )
    ]
