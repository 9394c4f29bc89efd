-- ===== src/Session/Drafts.antt =====
-- daemon/src/session.rs: the drafts that a connection has open, from `begin` to `commit` or `abort`.
use rldyour_clipboard.Proto.{Role, records, Code, bad_frame, no_such_draft}
use rldyour_clipboard.Io.{Io, Input, Occupied, bytes_of}
use rldyour_clipboard.Kind.{max_representations}
use rldyour_clipboard.Store.{code_of, Accepted}
use rldyour_clipboard.Store.Recording.{Store}
use rldyour_clipboard.Store.Sweeping.{discard}
use rldyour_clipboard.Session.Parts.{
  PartOutcome, recorded, no_draft, failed, whole_part, Fits, whole_part-aligned, whole_part_ok,
}
use rldyour_clipboard.Prelude.{
  ℕ, ◌+◌, ◌≤◌, ◌<◌, ◌≡◌, refl, sym, subst, inl, inr, Bool, true, false, not, Option, none, some,
  List, [], ◌∷◌, ◌++◌, arith, ltb, leb, ◌==◌, if◌then◌else◌, Bool-cases, Option-cases, ok, err,
  length, take, drop, keep, All, length-append, length-keep-le, All-map, Text, All-keep,
}

pub record Draft : Type 0 where
  pub source : Option Text
  pub parts : List Accepted

-- The drafts by their number, no number twice, and the number of the next.
pub record Drafts : Type 0 where
  pub held : List (ℕ × Draft)
  pub next : ℕ

-- What a request is answered.
pub data Answer : Type 0 where
  began : ℕ → Answer
  done : Answer
  refused : Code → Answer

abbrev pub max_drafts : ℕ
max_drafts = 4

unfoldable pub find_draft : ℕ → List (ℕ × Draft) → Option Draft
find_draft id [] = none
find_draft id ((n, d) ∷ drafts) = if n == id then some d else find_draft id drafts

unfoldable pub remove_draft : ℕ → List (ℕ × Draft) → List (ℕ × Draft)
remove_draft id drafts = keep (λ d. not (d.0 == id)) drafts

-- The draft that is there, with one part more.
unfoldable pub push_part : ℕ → Accepted → List (ℕ × Draft) → List (ℕ × Draft)
push_part id accepted [] = []
push_part id accepted ((n, d) ∷ drafts) =
    if n == id
    then (n, record d { parts = d.parts ++ accepted ∷ [] }) ∷ drafts
    else (n, d) ∷ push_part id accepted drafts

unfoldable pub begin : Role → Drafts → Option Text → Answer × Drafts
unfolding records
begin role drafts source =
    let named : Option Text = elim source [ none ↦ none | some s ↦ some (take 128 s) ] in
    if not (records role)
    then (refused bad_frame, drafts)
    else if leb max_drafts (length drafts.held)
    then (refused bad_frame, drafts)
    else (
      began drafts.next,
      record {
        held = (drafts.next, record { source = named; parts = [] }) ∷ drafts.held;
        next = drafts.next + 1;
      },
    )

-- Whether `part` may record into the draft.
unfoldable pub is_open_for_part : ℕ → Drafts → Bool
unfolding find_draft
is_open_for_part id drafts = elim (find_draft id drafts.held) [
  | none ↦ false
  | some d ↦ ltb (length d.parts) max_representations
]

unfoldable pub answer_part : ℕ → Drafts → PartOutcome → Answer × Drafts
unfolding push_part code_of
answer_part id drafts (recorded accepted) =
    (done, record drafts { held = push_part id accepted drafts.held })
answer_part id drafts no_draft = (refused no_such_draft, drafts)
answer_part id drafts (failed error) = (refused (code_of error), drafts)

unfoldable pub abort : Drafts → Store → ℕ → Drafts × Store
unfolding find_draft remove_draft discard
abort drafts store id = elim (find_draft id drafts.held) [
  | none ↦ (drafts, store)
  | some d ↦ (
    record drafts { held = remove_draft id drafts.held },
    record store { blobs = discard store.tables store.blobs d.parts },
  )
]

module _ (write_all : List ℕ → List ℕ → Io (Unit {0})) (digest_of : List ℕ → Text) where
  -- `part`, of a part that declares its length. The connection ends where the drain fails.
  unfoldable pub part : Drafts → Store → ℕ → Text → ℕ → Input → Io (Answer × Drafts) × Store × Input
  unfolding is_open_for_part whole_part answer_part
  part drafts store id mime declared input =
      let out =
        whole_part write_all digest_of store.blobs store.budget mime (is_open_for_part id drafts)
          declared input in
      let after : Store = record store { blobs = out.blobs } in
      elim out.outcome [
        | err e ↦ (err e, after, out.input)
        | ok outcome ↦ (ok (answer_part id drafts outcome), after, out.input)
      ]

-- At most four drafts, of at most eight parts each, all numbered below the next.
abbrev pub IsWithin : ℕ → ℕ × Draft → Type 0
IsWithin next (n, d) = (n < next) × (length d.parts ≤ max_representations)

pub record IsBounded (drafts : Drafts) : Type 0 where
  pub few : length drafts.held ≤ max_drafts
  pub within : All (IsWithin drafts.next) drafts.held

pub begin-IsBounded :
    (role : Role) (drafts : Drafts) (source : Option Text)
    → IsBounded drafts
    → IsBounded (begin role drafts source).1
unfolding begin
begin-IsBounded role drafts source b = elim (Bool-cases (not (records role))) [
  | inl e ↦ rw (e, begin) b
  | inr e ↦ elim (Bool-cases (leb max_drafts (length drafts.held))) [
    | inl f ↦ rw (e, f, begin) b
    | inr f ↦
        rw (e, f, begin)
          (record {
            few = ground (arith, f);
            within = (
              (omega arith, omega arith),
              All-map _ _ (λ d w. (omega (arith, w.0), w.1)) drafts.held b.within,
            );
          })
  ]
]

length-push_part :
    (id : ℕ) (accepted : Accepted) (drafts : List (ℕ × Draft))
    → length (push_part id accepted drafts) ≡ length drafts
unfolding push_part
length-push_part id accepted [] = refl
length-push_part id accepted ((n, d) ∷ drafts) = ground (arith, length-push_part id accepted drafts)

push_part-IsWithin :
    (id next : ℕ) (accepted : Accepted) (drafts : List (ℕ × Draft))
    → elim (find_draft id drafts) [
      | none ↦ false
      | some d ↦ ltb (length d.parts) max_representations
    ]
      ≡ true
    → All (IsWithin next) drafts
    → All (IsWithin next) (push_part id accepted drafts)
unfolding push_part find_draft
push_part-IsWithin id next accepted [] h b = tt
push_part-IsWithin id next accepted ((n, d) ∷ drafts) h b = elim (Bool-cases (n == id)) [
  | inl e ↦ rw e (((b.0).0, ground (arith, h, e, length-append d.parts (accepted ∷ []))), b.1)
  | inr e ↦ rw e (b.0, push_part-IsWithin id next accepted drafts (ground (arith, h, e)) b.1)
]

answer_part-IsBounded :
    (id : ℕ) (drafts : Drafts) (accepted : Accepted)
    → is_open_for_part id drafts ≡ true
    → IsBounded drafts
    → IsBounded (answer_part id drafts (recorded accepted)).1
unfolding answer_part is_open_for_part
answer_part-IsBounded id drafts accepted h b = record {
  few = subst (λ n. n ≤ max_drafts) (sym (length-push_part id accepted drafts.held)) b.few;
  within = push_part-IsWithin id drafts.next accepted drafts.held h b.within;
}

pub abort-IsBounded :
    (drafts : Drafts) (store : Store) (id : ℕ)
    → IsBounded drafts
    → IsBounded (abort drafts store id).0
unfolding abort remove_draft
abort-IsBounded drafts store id b = elim (Option-cases (find_draft id drafts.held)) [
  | inl e ↦ rw (e, abort) b
  | inr (d, e) ↦
      rw (e, abort)
        (record {
          few =
              omega (arith, b.few, length-keep-le (λ (d : ℕ × Draft). not (d.0 == id)) drafts.held);
          within = All-keep _ (λ (d : ℕ × Draft). not (d.0 == id)) drafts.held b.within;
        })
]

module _ (write_all : List ℕ → List ℕ → Io (Unit {0})) (digest_of : List ℕ → Text) where
  pub answered-IsBounded :
      (id : ℕ) (drafts : Drafts) (o : PartOutcome)
      → Fits (is_open_for_part id drafts) o
      → IsBounded drafts
      → IsBounded (answer_part id drafts o).1
  unfolding answer_part
  answered-IsBounded id drafts (recorded a) h b = answer_part-IsBounded id drafts a h b
  answered-IsBounded id drafts no_draft h b = b
  answered-IsBounded id drafts (failed e) h b = b

  -- Where the drafts are within their bounds, four drafts of at most eight parts each, and the stream
  -- holds the bytes that a part declares, the part is answered, exactly those bytes are gone from the
  -- stream, and the drafts stay within their bounds.
  pub part-answers :
      (drafts : Drafts) (store : Store) (id : ℕ) (mime : Text) (declared : ℕ) (input : Input)
      → All Occupied input.buffers
      → declared ≤ length (bytes_of input)
      → IsBounded drafts
      → let out : Io (Answer × Drafts) × Store × Input =
          part write_all digest_of drafts store id mime declared input in
        (r : Answer × Drafts) × (out.0 ≡ ok r)
        × IsBounded r.1
        × (bytes_of out.2 ≡ drop declared (bytes_of input))
  unfolding part
  part-answers drafts store id mime declared input o h b =
      let known = is_open_for_part id drafts in
      let aligned =
        whole_part-aligned write_all digest_of store.blobs store.budget mime known declared input
          o in
      let (outcome, e, fits) =
        whole_part_ok write_all digest_of store.blobs store.budget mime known declared input o h in
      (
        answer_part id drafts outcome,
        rw (e, part) refl,
        answered-IsBounded id drafts outcome fits b,
        rw (e, part) aligned,
      )
