-- ===== src/System/Composed.antt =====
-- What the daemon's steps are when no one comes between them: the functions of the store.
use rldyour_clipboard.Holds.{
  Pending, Action, sweeps, act, release_parts, discard_actions, thumb_releases, publish_hold,
}
use rldyour_clipboard.Index.Changes.{evict_to}
use rldyour_clipboard.Blobs.{Written, drop_lease}
use rldyour_clipboard.Store.{Accepted}
use rldyour_clipboard.Store.Sweeping.{discard, drop_parts}
use rldyour_clipboard.Store.Recording.{
  Store, publish, record_entry, make_room, with_source, drop_thumb, thumb_digest,
}
use rldyour_clipboard.Prelude.{
  ◌≡◌, refl, ap, ◌∙◌, inl, inr, true, Option, none, some, List, [], ◌∷◌, ◌++◌, map, Result-cases,
}

-- The actions, one behind the other.
abbrev pub act_all : List Action → Store → Store
act_all [] store = store
act_all (action ∷ actions) store = act_all actions (act action store)

act_all-append :
    (first next : List Action) (store : Store)
    → act_all (first ++ next) store ≡ act_all next (act_all first store)
act_all-append [] next store = refl
act_all-append (a ∷ first) next store = act_all-append first next (act a store)

act_all-release_parts :
    (parts : List Accepted) (store : Store)
    → act_all (release_parts parts) store ≡ record store { blobs = drop_parts store.blobs parts }
unfolding release_parts act drop_parts
act_all-release_parts [] store = refl
act_all-release_parts (p ∷ parts) store =
    act_all-release_parts parts (record store { blobs = drop_lease store.blobs p.digest })

act_all-discard_actions :
    (parts : List Accepted) (store : Store)
    → act_all (discard_actions parts) store
      ≡ record store { blobs = discard store.tables store.blobs parts }
unfolding discard_actions discard act
act_all-discard_actions parts store =
    act_all-append (release_parts parts) (sweeps (map (λ p. p.digest) parts) ∷ []) store
    ∙ ap (act (sweeps (map (λ p. p.digest) parts))) (act_all-release_parts parts store)

act_all-thumb_releases :
    (thumbnail : Option Written) (store : Store)
    → act_all (thumb_releases thumbnail) store
      ≡ record store { blobs = drop_thumb thumbnail store.blobs }
unfolding act drop_thumb
act_all-thumb_releases none store = refl
act_all-thumb_releases (some written) store = refl

-- The second hold of a commit and all that is done behind it are `publish`, and then `discard`.
publish_hold_lem :
    (p : Pending) (store : Store)
    → let out = publish_hold true p store in
      let published = (publish store p.name p.parts p.derived p.source p.at).1 in
      act_all out.1 out.0
      ≡ record published { blobs = discard published.tables published.blobs p.parts }
unfolding publish_hold publish make_room act with_source
publish_hold_lem p store =
    let facts = with_source p.derived.facts p.source in
    let thumbs = thumb_releases p.derived.thumbnail in
    elim (Result-cases (record_entry store.tables p.name p.parts facts p.at)) [
      | inr (e, k) ↦
          rw (k, publish_hold, publish)
            (act_all-append thumbs (discard_actions p.parts) store
              ∙ ap (act_all (discard_actions p.parts))
                  (act_all-thumb_releases p.derived.thumbnail store)
              ∙ act_all-discard_actions p.parts
                  (record store { blobs = drop_thumb p.derived.thumbnail store.blobs }))
      | inl ((t, entry, created), k) ↦
          let out = evict_to t store.budget in
          let rest =
            sweeps out.orphaned
            ∷ sweeps (thumb_digest p.derived.thumbnail)
            ∷ discard_actions p.parts in
          let held = record store { tables = out.tables } in
          rw (k, publish_hold, publish)
            (act_all-append thumbs rest held
              ∙ ap (act_all rest) (act_all-thumb_releases p.derived.thumbnail held)
              ∙ act_all-discard_actions p.parts _)
    ]
