-- ===== src/System.antt =====
-- The daemon as a whole: its connections (daemon/src/session.rs, daemon/src/server.rs), maintenance
-- (daemon/src/maintenance.rs) and the store that they share, as steps in any order.
pub mod Spoken
pub mod Halves
pub mod Safety
pub mod Composed
use rldyour_clipboard.Holds.{
  Action, Pending, Work, act, committing, discard_actions, doing, drop_drafts, held_actions,
  held_pending, held_work, publish_hold, release_parts, releases, sweeps, thumb_releases,
}
use rldyour_clipboard.Index.Changes.{touch, remove, clear, expire_before, evict_to}
use rldyour_clipboard.Kind.{any_sensitive, is_empty}
use rldyour_clipboard.Config.{u64_max}
use rldyour_clipboard.Proto.{Role}
use rldyour_clipboard.Store.Deriving.{Derived, identity, derive, cursor}
use rldyour_clipboard.Store.Recording.{record_entry, with_source, total, thumb_digest}
use rldyour_clipboard.Store.Sound.Taking.{with_blobs}
use rldyour_clipboard.Capture.{record_commit}
use rldyour_clipboard.Session.Drafts.{remove_draft}
use rldyour_clipboard.Index.Tables.{Tables}
use rldyour_clipboard.Index.Queries.{references}
use rldyour_clipboard.Index.Refs.Counts.{occurs, uses, one_if}
use rldyour_clipboard.Io.{IoError, Io, Input}
use rldyour_clipboard.Proto.{Request}
use rldyour_clipboard.Blobs.{Blobs, file_exists}
use rldyour_clipboard.Store.{StoreError, Accepted, Acceptance, accept}
use rldyour_clipboard.Store.Recording.{Store}
use rldyour_clipboard.Store.Sweeping.{sweep}
use rldyour_clipboard.Blobs.{Written, drop_lease}
use rldyour_clipboard.Store.Keeping.{batch}
use rldyour_clipboard.Store.Keeping.Backed.{IsBacked}
use rldyour_clipboard.Store.Sound.{IsSound, weaken, holds, discard-IsSound}
use rldyour_clipboard.Store.Sound.Dropping.{expire-IsSound}
use rldyour_clipboard.Session.Drafts.{Draft, Drafts, find_draft}
use rldyour_clipboard.Session.Conversation.{Outside, Session, World, new_session}
use rldyour_clipboard.Session.Conversation.Requests.{perform}
use rldyour_clipboard.Session.Conversation.Keeping.{held_by, besides}
use rldyour_clipboard.Session.Conversation.Safety.{Keeps, perform-Keeps}
use rldyour_clipboard.Prelude.{
  ℕ, zero, suc, ◌+◌, ◌-◌, ◌*◌, ◌/◌, ◌%◌, ◌^◌, ◌≤◌, ◌<◌, min, ◌≡◌, refl, sym, ap, ◌∙◌, subst, ◌≢◌,
  ◌↔◌, ◌⊎◌, inl, inr, Bool, true, false, not, ◌&&◌, ◌||◌, Option, none, some, List, [], ◌∷◌, ◌++◌,
  map, append-nil, append_assoc, reverse, arith, ltb, leb, ◌==◌, if◌then◌else◌, ltb→lt, lt→ltb,
  leb→le, le→leb, ==_iff, Bool-cases, Option-cases, is_some, Result, ok, err, ◌>>=◌, length, take,
  drop, head_of, any, all, keep, find, All, length-append, length-take, length-drop,
  take-append-drop, length-keep-le, any-append, All-append, All-map, Text, codes, text_eq,
  text_eq_iff, text_eq_refl, text_le, text_mem, lower_char, to_ascii_lowercase, is_whitespace, trim,
  starts_with, ends_with_char, strip_prefix_char, utf8, sort_by, insert_by, IsSorted,
  length-sort_by, any-sort_by, All-sort_by, sort_by-IsSorted, sort_by_of_IsSorted, keep-sort_by,
  insert_by_least, All-keep, keep-All, keep-keep, All-take, All-map₂, List-cases, keep_congr,
  take_of_length-lt, Result-cases,
}

pub record System : Type 0 where
  pub store : Store
  pub connections : List Session
  pub pending : List Work
  -- what the recorder has taken of the clipboard event at hand
  pub capturing : List Accepted

abbrev pub without_draft : ℕ → Drafts → Drafts
without_draft draft drafts = record drafts { held = remove_draft draft drafts.held }

-- The world of a connection at a request.
abbrev pub world_of : Session → Store → Input → World
world_of session store input = record {
  session = session;
  store = store;
  input = input;
  wire = [];
  events = [];
}

-- How often the drafts of all connections hold a digest.
unfoldable pub held : List Session → Text → ℕ
unfolding held_by
held [] x = 0
held (s ∷ ss) x = held_by s.drafts.held x + held ss x

abbrev pub taken_part : Result StoreError Accepted → List Accepted
taken_part (ok part) = part ∷ []
taken_part (err e) = []

abbrev pub max_connections : ℕ
max_connections = 32

module _ (o : Outside) where
  -- Whether `commit` comes to its second hold of the lock.
  abbrev pub IsNew : Store → List Accepted → ℕ → Type 0
  IsNew store parts at =
      ((is_empty parts || any_sensitive (map (λ a. a.mime) parts)) ≡ false)
      × ((ltb u64_max (total parts) || ltb store.budget (total parts)) ≡ false)
      × ((touch store.tables (identity o.digest_of parts) at).1 ≡ none)

  -- The first hold of the lock in a commit, where the index has the content already.
  abbrev pub touched : Bool → Store → List Accepted → ℕ → Store
  touched moved store parts at =
      if moved
      then record store { tables = (touch store.tables (identity o.digest_of parts) at).0 }
      else store

  -- One step of the daemon. Each hold of the lock on the index is a step, and so is each end of a
  -- lease. A connection is admitted where fewer than 32 are open. A draft goes (`lets_go`) by an abort, by a
  -- commit that records nothing, or by one of content that the index has. `derives` is the first half
  -- of any other commit and `publishes` its second hold; `removes`, `clears` and `expires`, one batch,
  -- are holds too; and `acts` is one action behind a hold. The recorder accepts one representation a
  -- step (`offers`), and then commits in the same way. `requests` and `captures` are a request and a
  -- commit of the recorder that no one else comes between.
  pub data Step : System → System → Type 0 where
    connects :
        (store : Store) (capturing : List Accepted) (before after : List Session)
        (pending : List Work)
        → length (before ++ after) < max_connections
        → Step
            (record {
              store = store;
              connections = before ++ after;
              pending = pending;
              capturing = capturing;
            })
            (record {
              store = store;
              connections = before ++ new_session ∷ after;
              pending = pending;
              capturing = capturing;
            })
    greets :
        (store : Store) (capturing : List Accepted) (before after : List Session)
        (pending : List Work) (session : Session) (role : Role) (watch : Bool)
        → Step
            (record {
              store = store;
              connections = before ++ session ∷ after;
              pending = pending;
              capturing = capturing;
            })
            (record {
              store = store;
              connections = before ++ record session { role = role; watch = watch } ∷ after;
              pending = pending;
              capturing = capturing;
            })
    requests :
        (store : Store) (capturing : List Accepted) (before after : List Session)
        (pending : List Work) (session : Session) (input : Input) (request : Request) (now : ℕ)
        (days : Option ℕ) (out : Io (Unit {0}) × World)
        → perform o (λ s. s) now days (world_of session store input) request ≡ out
        → Step
            (record {
              store = store;
              connections = before ++ session ∷ after;
              pending = pending;
              capturing = capturing;
            })
            (record {
              store = out.1.store;
              connections = before ++ out.1.session ∷ after;
              pending = pending;
              capturing = capturing;
            })
    derives :
        (store : Store) (capturing : List Accepted) (before after : List Session)
        (pending : List Work) (session : Session) (draft now : ℕ) (d : Draft) (derived : Derived)
        (blobs : Blobs)
        → find_draft draft session.drafts.held ≡ some d
        → IsNew store d.parts now
        → derive o.write_file o.digest_of o.lossy o.thumb_of_image store.blobs d.parts
          ≡ ok (derived, blobs)
        → Step
            (record {
              store = store;
              connections = before ++ session ∷ after;
              pending = pending;
              capturing = capturing;
            })
            (record {
              store = with_blobs store blobs;
              connections =
                  before ++ record session { drafts = without_draft draft session.drafts } ∷ after;
              pending =
                  committing (record {
                    parts = d.parts;
                    name = identity o.digest_of d.parts;
                    derived = derived;
                    source = d.source;
                    at = now;
                  })
                  ∷ pending;
              capturing = capturing;
            })
    lets_go :
        (store : Store) (capturing : List Accepted) (before after : List Session)
        (pending : List Work) (session : Session) (draft now : ℕ) (d : Draft) (moved : Bool)
        → find_draft draft session.drafts.held ≡ some d
        → Step
            (record {
              store = store;
              connections = before ++ session ∷ after;
              pending = pending;
              capturing = capturing;
            })
            (record {
              store = touched moved store d.parts now;
              connections =
                  before ++ record session { drafts = without_draft draft session.drafts } ∷ after;
              pending = doing (discard_actions d.parts) ∷ pending;
              capturing = capturing;
            })
    publishes :
        (store : Store) (capturing : List Accepted) (connections : List Session)
        (before after : List Work) (p : Pending) (told : Bool)
        → Step
            (record {
              store = store;
              connections = connections;
              pending = before ++ committing p ∷ after;
              capturing = capturing;
            })
            (record {
              store = (publish_hold told p store).0;
              connections = connections;
              pending = before ++ doing (publish_hold told p store).1 ∷ after;
              capturing = capturing;
            })
    acts :
        (store : Store) (capturing : List Accepted) (connections : List Session)
        (before after : List Work) (action : Action) (actions : List Action)
        → Step
            (record {
              store = store;
              connections = connections;
              pending = before ++ doing (action ∷ actions) ∷ after;
              capturing = capturing;
            })
            (record {
              store = act action store;
              connections = connections;
              pending = before ++ doing actions ∷ after;
              capturing = capturing;
            })
    ends :
        (store : Store) (capturing : List Accepted) (before after : List Session)
        (pending : List Work) (session : Session)
        → Step
            (record {
              store = store;
              connections = before ++ session ∷ after;
              pending = pending;
              capturing = capturing;
            })
            (record {
              store = store;
              connections = before ++ after;
              pending = doing (drop_drafts session.drafts.held) ∷ pending;
              capturing = capturing;
            })
    removes :
        (store : Store) (capturing : List Accepted) (connections : List Session)
        (pending : List Work) (entry : ℕ)
        → Step
            (record {
              store = store;
              connections = connections;
              pending = pending;
              capturing = capturing;
            })
            (record {
              store = record store { tables = (remove store.tables entry).0 };
              connections = connections;
              pending = doing (sweeps (remove store.tables entry).1 ∷ []) ∷ pending;
              capturing = capturing;
            })
    clears :
        (store : Store) (capturing : List Accepted) (connections : List Session)
        (pending : List Work)
        → Step
            (record {
              store = store;
              connections = connections;
              pending = pending;
              capturing = capturing;
            })
            (record {
              store = record store { tables = (clear store.tables).0 };
              connections = connections;
              pending = doing (sweeps (clear store.tables).1 ∷ []) ∷ pending;
              capturing = capturing;
            })
    expires :
        (store : Store) (capturing : List Accepted) (connections : List Session)
        (pending : List Work) (cutoff : ℕ)
        → Step
            (record {
              store = store;
              connections = connections;
              pending = pending;
              capturing = capturing;
            })
            (record {
              store = record store { tables = (expire_before store.tables cutoff batch).0 };
              connections = connections;
              pending = doing (sweeps (expire_before store.tables cutoff batch).1 ∷ []) ∷ pending;
              capturing = capturing;
            })
    offers :
        (store : Store) (capturing : List Accepted) (connections : List Session)
        (pending : List Work) (mime : Text) (content : List ℕ) (taken : Acceptance)
        → accept o.write_file o.digest_of store.blobs store.budget mime
            (cursor content)
            (length content)
          ≡ taken
        → Step
            (record {
              store = store;
              connections = connections;
              pending = pending;
              capturing = capturing;
            })
            (record {
              store = with_blobs store taken.blobs;
              connections = connections;
              pending = pending;
              capturing = capturing ++ taken_part taken.result;
            })
    captures :
        (store : Store) (capturing : List Accepted) (connections : List Session)
        (pending : List Work) (source : Option Text) (now : ℕ)
        → Step
            (record {
              store = store;
              connections = connections;
              pending = pending;
              capturing = capturing;
            })
            (record {
              store = (record_commit o (λ s. s) store capturing source now).0;
              connections = connections;
              pending = pending;
              capturing = [];
            })
    captures_lets_go :
        (store : Store) (capturing : List Accepted) (connections : List Session)
        (pending : List Work) (now : ℕ) (moved : Bool)
        → Step
            (record {
              store = store;
              connections = connections;
              pending = pending;
              capturing = capturing;
            })
            (record {
              store = touched moved store capturing now;
              connections = connections;
              pending = doing (discard_actions capturing) ∷ pending;
              capturing = [];
            })
    captures_derives :
        (store : Store) (capturing : List Accepted) (connections : List Session)
        (pending : List Work) (source : Option Text) (now : ℕ) (derived : Derived) (blobs : Blobs)
        → IsNew store capturing now
        → derive o.write_file o.digest_of o.lossy o.thumb_of_image store.blobs capturing
          ≡ ok (derived, blobs)
        → Step
            (record {
              store = store;
              connections = connections;
              pending = pending;
              capturing = capturing;
            })
            (record {
              store = with_blobs store blobs;
              connections = connections;
              pending =
                  committing (record {
                    parts = capturing;
                    name = identity o.digest_of capturing;
                    derived = derived;
                    source = source;
                    at = now;
                  })
                  ∷ pending;
              capturing = [];
            })

  pub data Reach (start : System) : System → Type 0 where
    begins : Reach start start
    goes : {s t : System} → Reach start s → Step s t → Reach start t
