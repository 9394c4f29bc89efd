-- ===== src/System/Spoken.antt =====
-- What the connections, the commits under way and the recorder hold of the store's leases.
use rldyour_clipboard.Index.Refs.Counts.{thumb_is}
use rldyour_clipboard.Index.Changes as Changes
use rldyour_clipboard.Store.Sound.Publishing.{with_parts, with_thumb, recorded-IsSound}
use rldyour_clipboard.Holds.{
  Pending, Action, releases, sweeps, Work, committing, doing, act, release_parts, discard_actions,
  drop_drafts, held_pending, held_actions, held_work, thumb_releases, publish_hold,
}
use rldyour_clipboard.System.{System, held, max_connections}
use rldyour_clipboard.Index.Changes.{touch, evict_to}
use rldyour_clipboard.Store.Recording.{record_entry, with_source, thumb_digest}
use rldyour_clipboard.Index.Refs.Counts.{occurs}
use rldyour_clipboard.Store.Recording.{Store}
use rldyour_clipboard.Store.Sound.{IsSound, weaken, holds, drop_lease-IsSound, sweep-IsSound}
use rldyour_clipboard.Blobs.{Written}
use rldyour_clipboard.Session.Drafts.{Draft}
use rldyour_clipboard.Session.Conversation.{Session}
use rldyour_clipboard.Session.Conversation.Keeping.{held_by, besides}
use rldyour_clipboard.Store.{Accepted}
use rldyour_clipboard.Prelude.{
  ℕ, suc, ◌+◌, ◌≤◌, ◌≡◌, Bool, true, false, List, [], ◌∷◌, ◌++◌, arith, length, All, length-append,
  Text, Option, none, some, map, if◌then◌else◌, inl, inr, refl, Result-cases,
}

-- What is spoken for in all: the drafts of the connections, the commits under way, and what the
-- recorder has taken.
abbrev pub spoken : List Session → List Work → List Accepted → Text → ℕ
spoken connections pending capturing x =
    held connections x + held_pending pending x + holds x capturing

-- A commit under way holds the lease of its thumbnail.
abbrev pub IsOwned : Work → Type 0
IsOwned (doing actions) = Unit
IsOwned (committing p) =
    (x : Text)
    → thumb_is x (Changes.thumb_digest p.derived.facts.thumb)
      ≤ occurs x (thumb_digest p.derived.thumbnail)

pub record IsSafe (s : System) : Type 0 where
  pub sound : IsSound (spoken s.connections s.pending s.capturing) s.store
  pub owned : All IsOwned s.pending
  -- no more connections than are admitted
  pub few : length s.connections ≤ max_connections

pub held-append :
    (before after : List Session) (x : Text)
    → held (before ++ after) x ≡ held before x + held after x
unfolding held
held-append [] after x = omega arith
held-append (s ∷ before) after x = omega (arith, held-append before after x)

pub held_pending-append :
    (before after : List Work) (x : Text)
    → held_pending (before ++ after) x ≡ held_pending before x + held_pending after x
unfolding held_pending
held_pending-append [] after x = omega arith
held_pending-append (p ∷ before) after x = omega (arith, held_pending-append before after x)

-- One connection, beside all others and the commits under way.
pub held-middle :
    (before after : List Session) (session : Session) (pending : List Work)
    (capturing : List Accepted) (x : Text)
    → spoken (before ++ session ∷ after) pending capturing x
      ≡ besides (spoken (before ++ after) pending capturing) session.drafts x
unfolding held
held-middle before after session pending capturing x =
    omega (arith, held-append before after x, held-append before (session ∷ after) x)

pub apart :
    (before after : List Session) (session : Session) (pending : List Work)
    (capturing : List Accepted) (store : Store)
    → IsSound (spoken (before ++ session ∷ after) pending capturing) store
    → IsSound (besides (spoken (before ++ after) pending capturing) session.drafts) store
apart before after session pending capturing store i =
    weaken (spoken (before ++ session ∷ after) pending capturing)
      (besides (spoken (before ++ after) pending capturing) session.drafts) store
      (λ x. omega (arith, held-middle before after session pending capturing x)) i

pub together :
    (before after : List Session) (session : Session) (pending : List Work)
    (capturing : List Accepted) (store : Store)
    → IsSound (besides (spoken (before ++ after) pending capturing) session.drafts) store
    → IsSound (spoken (before ++ session ∷ after) pending capturing) store
together before after session pending capturing store i =
    weaken (besides (spoken (before ++ after) pending capturing) session.drafts)
      (spoken (before ++ session ∷ after) pending capturing) store
      (λ x. omega (arith, held-middle before after session pending capturing x)) i

-- What one piece of work holds, beside everything else.
pub work-middle :
    (connections : List Session) (before after : List Work) (w : Work) (capturing : List Accepted)
    (x : Text)
    → spoken connections (before ++ w ∷ after) capturing x
      ≡ spoken connections (before ++ after) capturing x + held_work w x
unfolding held_pending
work-middle connections before after w capturing x =
    omega (arith, held_pending-append before after x, held_pending-append before (w ∷ after) x)

pub held_actions-append :
    (acts rest : List Action) (x : Text)
    → held_actions (acts ++ rest) x ≡ held_actions acts x + held_actions rest x
unfolding held_actions
held_actions-append [] rest x = omega arith
held_actions-append (releases d ∷ acts) rest x = omega (arith, held_actions-append acts rest x)
held_actions-append (sweeps ds ∷ acts) rest x = held_actions-append acts rest x

pub held_actions-release_parts :
    (parts : List Accepted) (x : Text) → held_actions (release_parts parts) x ≡ holds x parts
unfolding held_actions release_parts occurs
held_actions-release_parts [] x = refl
held_actions-release_parts (p ∷ parts) x = omega (arith, held_actions-release_parts parts x)

pub held_actions-discard_actions :
    (parts : List Accepted) (x : Text) → held_actions (discard_actions parts) x ≡ holds x parts
unfolding discard_actions held_actions
held_actions-discard_actions parts x =
    let split =
      held_actions-append (release_parts parts) (sweeps (map (λ p. p.digest) parts) ∷ []) x in
    omega (arith, split, held_actions-release_parts parts x)

pub held_actions-drop_drafts :
    (drafts : List (ℕ × Draft)) (x : Text) → held_actions (drop_drafts drafts) x ≡ held_by drafts x
unfolding drop_drafts held_actions held_by
held_actions-drop_drafts [] x = refl
held_actions-drop_drafts ((n, d) ∷ drafts) x = omega (
  arith,
  held_actions-append (discard_actions d.parts) (drop_drafts drafts) x,
  held_actions-discard_actions d.parts x,
  held_actions-drop_drafts drafts x,
)

-- An action gives up the lease that it held, and nothing else.
pub act-IsSound :
    (r : Text → ℕ) (action : Action) (actions : List Action) (store : Store)
    → IsSound (λ x. r x + held_actions (action ∷ actions) x) store
    → IsSound (λ x. r x + held_actions actions x) (act action store)
unfolding act held_actions
act-IsSound r (releases d) actions store i =
    drop_lease-IsSound (λ x. r x + held_actions actions x) store d
      (weaken _ _ store (λ x. omega arith) i)
act-IsSound r (sweeps ds) actions store i =
    sweep-IsSound (λ x. r x + held_actions actions x) store ds i

held_actions-thumb_releases :
    (thumbnail : Option Written) (x : Text)
    → held_actions (thumb_releases thumbnail) x ≡ occurs x (thumb_digest thumbnail)
unfolding held_actions occurs
held_actions-thumb_releases none x = refl
held_actions-thumb_releases (some written) x = refl

held_actions-ending :
    (told : Bool) (parts : List Accepted) (x : Text)
    → held_actions (if told then discard_actions parts else release_parts parts) x ≡ holds x parts
held_actions-ending true parts x = held_actions-discard_actions parts x
held_actions-ending false parts x = held_actions-release_parts parts x

-- Behind the second hold, all that the commit held is still to be given up.
pub publish_hold-IsSound :
    (r : Text → ℕ) (told : Bool) (p : Pending) (store : Store)
    → IsSound (with_thumb (with_parts r p.parts) p.derived.thumbnail) store
    → IsOwned (committing p)
    → let out = publish_hold told p store in IsSound (λ x. r x + held_actions out.1 x) out.0
unfolding publish_hold with_source
publish_hold-IsSound r told p store i own =
    let facts = with_source p.derived.facts p.source in
    let thumbs = thumb_releases p.derived.thumbnail in
    elim (Result-cases (record_entry store.tables p.name p.parts facts p.at)) [
      | inr (e, k) ↦
          rw (k, publish_hold)
            (weaken _ _ store
              (λ x. omega (
                arith,
                held_actions-append thumbs (discard_actions p.parts) x,
                held_actions-thumb_releases p.derived.thumbnail x,
                held_actions-discard_actions p.parts x,
              ))
              i)
      | inl ((t, entry, created), k) ↦
          let out = evict_to t store.budget in
          let ending = if told then discard_actions p.parts else release_parts p.parts in
          let rest = sweeps out.orphaned ∷ sweeps (thumb_digest p.derived.thumbnail) ∷ ending in
          rw (k, publish_hold)
            (weaken _ (λ x. r x + held_actions (thumbs ++ rest) x) _
              (λ x.
                let swept : held_actions rest x ≡ held_actions ending x =
                  unfold held_actions in refl in
                omega (
                  arith,
                  held_actions-append thumbs rest x,
                  held_actions-thumb_releases p.derived.thumbnail x,
                  held_actions-ending told p.parts x,
                  swept,
                ))
              (recorded-IsSound r store p.name p.parts facts p.at p.derived.thumbnail t entry
                created i own k))
    ]

pub length-middle :
    (before after : List Session) (session : Session)
    → length (before ++ session ∷ after) ≡ suc (length (before ++ after))
length-middle before after session =
    omega (arith, length-append before (session ∷ after), length-append before after)

pub All-middle :
    (before after : List Work) (p : Work)
    → All IsOwned (before ++ p ∷ after)
    → IsOwned p × All IsOwned (before ++ after)
All-middle [] after p h = h
All-middle (q ∷ before) after p h =
    let rest = All-middle before after p h.1 in (rest.0, (h.0, rest.1))

All-put :
    (before after : List Work) (w : Work)
    → IsOwned w
    → All IsOwned (before ++ after)
    → All IsOwned (before ++ w ∷ after)
All-put [] after w o h = (o, h)
All-put (q ∷ before) after w o h = (h.0, All-put before after w o h.1)

-- One piece of work goes on, and everything else is as it was.
pub work-IsSafe :
    (store store' : Store) (capturing : List Accepted) (connections : List Session)
    (before after : List Work) (w w' : Work)
    → ((r : Text → ℕ)
        → IsOwned w
        → IsSound (λ x. r x + held_work w x) store
        → IsSound (λ x. r x + held_work w' x) store')
    → IsOwned w'
    → IsSafe (record {
      store = store;
      connections = connections;
      pending = before ++ w ∷ after;
      capturing = capturing;
    })
    → IsSafe (record {
      store = store';
      connections = connections;
      pending = before ++ w' ∷ after;
      capturing = capturing;
    })
work-IsSafe store store' capturing connections before after w w' step own i =
    let parted = All-middle before after w i.owned in
    let others = spoken connections (before ++ after) capturing in
    record {
      sound =
          weaken _ _ store'
            (λ x. omega (arith, work-middle connections before after w' capturing x))
            (step others parted.0 (
              weaken _ _ store
                (λ x. omega (arith, work-middle connections before after w capturing x)) i.sound));
      owned = All-put before after w' own parted.1;
      few = i.few;
    }

-- Work that is begun and holds what the connections and the recorder hold no more.
pub begun-IsSafe :
    (store store' : Store) (capturing capturing' : List Accepted)
    (connections connections' : List Session) (pending : List Work) (actions : List Action)
    → ((x : Text)
        → held connections' x + holds x capturing' + held_actions actions x
          ≤ held connections x + holds x capturing)
    → ((r : Text → ℕ) → IsSound r store → IsSound r store')
    → length connections' ≤ max_connections
    → IsSafe (record {
      store = store;
      connections = connections;
      pending = pending;
      capturing = capturing;
    })
    → IsSafe (record {
      store = store';
      connections = connections';
      pending = doing actions ∷ pending;
      capturing = capturing';
    })
unfolding held_pending
begun-IsSafe store store' capturing capturing' connections connections' pending actions less step
      few i =
    record {
      sound =
          weaken (spoken connections pending capturing) _ store' (λ x. omega (arith, less x))
            (step _ i.sound);
      owned = (tt, i.owned);
      few = few;
    }
