-- ===== src/System/Safety.antt =====
-- Whatever the connections, the commits under way, the recorder and maintenance do, in any order, no
-- file is lost that the index refers to or that a draft still needs.
use rldyour_clipboard.System.Spoken.{
  spoken, IsSafe, apart, together, length-middle, held-append, held_actions-discard_actions,
  held_actions-drop_drafts, act-IsSound, publish_hold-IsSound, work-IsSafe, begun-IsSafe,
}
use rldyour_clipboard.System.Halves.{
  derives-IsSafe, offers-IsSound, captures-IsSound, captures_derives-IsSafe,
}
use rldyour_clipboard.Holds.{
  committing, doing, act, drop_drafts, discard_actions, publish_hold, held_actions, held_pending,
}
use rldyour_clipboard.System.{
  System, touched, without_draft, lets_go, acts, removes, clears, captures_lets_go, world_of, held,
  Step, connects, greets, requests, derives, publishes, ends, expires, offers, captures,
  captures_derives, taken_part, max_connections, Reach, begins, goes,
}
use rldyour_clipboard.Store.Sound.Taking.{with_blobs}
use rldyour_clipboard.Index.Queries.{references}
use rldyour_clipboard.Index.Refs.Counts.{occurs}
use rldyour_clipboard.Io.{Io}
use rldyour_clipboard.Blobs.{file_exists}
use rldyour_clipboard.Store.Keeping.Backed.{references-uses}
use rldyour_clipboard.Store.Sound.{IsSound, weaken, retabled-IsSound}
use rldyour_clipboard.Index.Marks.{touch-IsConsistent, uses-touch}
use rldyour_clipboard.Index.Changes.{touch}
use rldyour_clipboard.Store.Deriving.{identity}
use rldyour_clipboard.Store.{Accepted}
use rldyour_clipboard.Store.Sound.Dropping.{removed-IsSound, cleared-IsSound, expired-IsSound}
use rldyour_clipboard.Session.Conversation.{Outside, World, new_session}
use rldyour_clipboard.Session.Conversation.Keeping.{held_by, held_by-remove}
use rldyour_clipboard.Session.Conversation.Safety.{Keeps, perform-Keeps}
use rldyour_clipboard.Store.{Acceptance}
use rldyour_clipboard.Store.Recording.{Store}
use rldyour_clipboard.Store.Keeping.Backed.{IsBacked}
use rldyour_clipboard.Prelude.{
  ◌+◌, ◌≤◌, ◌≡◌, sym, ◌∙◌, subst, inl, inr, true, ◌||◌, [], ◌∷◌, ◌++◌, arith, ltb, Bool-cases,
  length, Text, ℕ, Bool, false, List,
}

module _ (o : Outside) where
  touched-IsSound :
      (r : Text → ℕ) (moved : Bool) (store : Store) (parts : List Accepted) (at : ℕ)
      → IsSound r store
      → IsSound r (touched o moved store parts at)
  touched-IsSound r false store parts at i = i
  touched-IsSound r true store parts at i =
      let name = identity o.digest_of parts in
      retabled-IsSound r store (touch store.tables name at).0
        (touch-IsConsistent store.tables name at i.backed.consistent)
        (λ x. uses-touch x store.tables name at) i

  Step-IsSafe : {s t : System} → Step o s t → IsSafe s → IsSafe t
  Step-IsSafe (connects store capturing before after pending few) i = record {
    sound = together before after new_session pending capturing store (
        weaken (spoken (before ++ after) pending capturing) _ store
          (λ x. unfold held_by in omega arith) i.sound);
    owned = i.owned;
    few = omega (arith, few, length-middle before after new_session);
  }
  Step-IsSafe (greets store capturing before after pending session role watch) i = record {
    sound =
        together before after (record session { role = role; watch = watch }) pending capturing
          store (apart before after session pending capturing store i.sound);
    owned = i.owned;
    few = omega (
      arith,
      i.few,
      length-middle before after session,
      length-middle before after (record session { role = role; watch = watch }),
    );
  }
  Step-IsSafe (requests store capturing before after pending session input request now days out e)
        i =
      record {
        sound = together before after out.1.session pending capturing out.1.store (
            subst
              (λ (r : Io (Unit {0}) × World).
                Keeps o (spoken (before ++ after) pending capturing) r.1.session r.1.store)
              e
              (perform-Keeps o (λ s. s) now days (spoken (before ++ after) pending capturing)
                (world_of session store input) request (λ s other h. h)
                (apart before after session pending capturing store i.sound)));
        owned = i.owned;
        few = omega (
          arith,
          i.few,
          length-middle before after session,
          length-middle before after out.1.session,
        );
      }
  Step-IsSafe
        (derives store capturing before after pending session draft now d derived blobs f new e) i =
      derives-IsSafe o store before after pending capturing session draft now d derived blobs f e i
  Step-IsSafe (lets_go store capturing before after pending session draft now d moved f) i =
      let left = record session { drafts = without_draft draft session.drafts } in
      begun-IsSafe store (touched o moved store d.parts now) capturing capturing
        (before ++ session ∷ after) (before ++ left ∷ after) pending (discard_actions d.parts)
        (λ x.
          unfold held in
          omega (
            arith,
            held-append before (session ∷ after) x,
            held-append before (left ∷ after) x,
            held_by-remove draft d session.drafts.held x f,
            held_actions-discard_actions d.parts x,
          ))
        (λ r. touched-IsSound r moved store d.parts now)
        (omega (arith, i.few, length-middle before after session, length-middle before after left))
        i
  Step-IsSafe (publishes store capturing connections before after p told) i =
      work-IsSafe store (publish_hold told p store).0 capturing connections before after
        (committing p) (doing (publish_hold told p store).1)
        (λ r own s. publish_hold-IsSound r told p store (weaken _ _ store (λ x. omega arith) s) own)
        tt i
  Step-IsSafe (acts store capturing connections before after action actions) i =
      work-IsSafe store (act action store) capturing connections before after
        (doing (action ∷ actions)) (doing actions) (λ r own s. act-IsSound r action actions store s)
        tt i
  Step-IsSafe (ends store capturing before after pending session) i =
      begun-IsSafe store store capturing capturing (before ++ session ∷ after) (before ++ after)
        pending (drop_drafts session.drafts.held)
        (λ x.
          unfold held in
          omega (
            arith,
            held-append before (session ∷ after) x,
            held-append before after x,
            held_actions-drop_drafts session.drafts.held x,
          ))
        (λ r s. s) (omega (arith, i.few, length-middle before after session)) i
  Step-IsSafe (removes store capturing connections pending entry) i =
      begun-IsSafe store _ capturing capturing connections connections pending _
        (λ x. unfold held_actions in omega arith) (λ r. removed-IsSound r store entry) i.few i
  Step-IsSafe (clears store capturing connections pending) i =
      begun-IsSafe store _ capturing capturing connections connections pending _
        (λ x. unfold held_actions in omega arith) (λ r. cleared-IsSound r store) i.few i
  Step-IsSafe (expires store capturing connections pending cutoff) i =
      begun-IsSafe store _ capturing capturing connections connections pending _
        (λ x. unfold held_actions in omega arith) (λ r. expired-IsSound r store cutoff) i.few i
  Step-IsSafe (offers store capturing connections pending mime content taken e) i = record {
    sound =
        subst
          (λ (out : Acceptance).
            IsSound (spoken connections pending (capturing ++ taken_part out.result))
              (with_blobs store out.blobs))
          e
          (offers-IsSound o (λ x. held connections x + held_pending pending x) store capturing mime
            content i.sound);
    owned = i.owned;
    few = i.few;
  }
  Step-IsSafe (captures store capturing connections pending source now) i = record {
    sound =
        weaken (λ x. held connections x + held_pending pending x) (spoken connections pending []) _
          (λ x. unfold occurs in omega arith)
          (captures-IsSound o (λ x. held connections x + held_pending pending x) store capturing
            source now i.sound);
    owned = i.owned;
    few = i.few;
  }
  Step-IsSafe (captures_lets_go store capturing connections pending now moved) i =
      begun-IsSafe store (touched o moved store capturing now) capturing [] connections connections
        pending (discard_actions capturing)
        (λ x. unfold occurs in omega (arith, held_actions-discard_actions capturing x))
        (λ r. touched-IsSound r moved store capturing now) i.few i
  Step-IsSafe (captures_derives store capturing connections pending source now derived blobs new e)
        i =
      captures_derives-IsSafe o store connections pending capturing source now derived blobs e i

  pub Reach-IsSafe : {start s : System} → IsSafe start → Reach o start s → IsSafe s
  Reach-IsSafe i begins = i
  Reach-IsSafe i (goes r step) = Step-IsSafe step (Reach-IsSafe i r)

  -- The daemon as it starts: no connection, and no lease.
  abbrev pub started : Store → System
  started store = record { store = store; connections = []; pending = []; capturing = [] }

  started-IsSafe :
      (store : Store) → IsBacked store → store.blobs.leases ≡ [] → IsSafe (started store)
  unfolding held held_pending occurs
  started-IsSafe store b none_held = record {
    sound = record {
      backed = b;
      reserved-le = λ x. omega arith;
      leased = λ x h.
          let free : ltb 0 (occurs x []) ≡ true =
            subst (λ ls. ltb 0 (occurs x ls) ≡ true) none_held h in
          absurd (cc free);
    };
    owned = tt;
    few = omega arith;
  }

  -- Whatever the connections, the commits under way, the recorder and maintenance did, in any order of
  -- their holds of the lock on the index and of the ends of their leases, since a start without leases on consistent tables whose files were there: a digest that the
  -- index refers to, or that an open draft, a commit under way or the recorder holds, has its file;
  -- and at most 32 connections are open.
  pub reached_has_files :
      (store : Store) (s : System) (x : Text)
      → IsBacked store
      → store.blobs.leases ≡ []
      → Reach o (started store) s
      → (references s.store.tables x || ltb 0 (spoken s.connections s.pending s.capturing x)) ≡ true
      → (file_exists x s.store.blobs.files ≡ true) × (length s.connections ≤ max_connections)
  reached_has_files store s x backed none_held r h =
      let reached = Reach-IsSafe (started-IsSafe store backed none_held) r in
      let i = reached.sound in
      (
        elim (Bool-cases (references s.store.tables x)) [
          | inl e ↦
              i.backed.backed x (sym (references-uses s.store.tables x i.backed.consistent) ∙ e)
          | inr e ↦ i.leased x (ground (arith, e, h, i.reserved-le x))
        ],
        reached.few,
      )
