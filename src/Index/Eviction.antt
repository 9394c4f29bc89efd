-- ===== src/Index/Eviction.antt =====
-- What `evict_to` of daemon/src/store/index.rs removes and keeps, and that its loop ends by itself.
use rldyour_clipboard.Index.Tables.{EntryRow, Tables, bytes, i64_max}
use rldyour_clipboard.Index.Refs.Counts.{uses}
use rldyour_clipboard.Index.Changes.{drop_entry, older, victim, Evicted, evict_loop, evict_to}
use rldyour_clipboard.Index.Consistent.{IsConsistent}
use rldyour_clipboard.Index.Consistent.Rows.{without}
use rldyour_clipboard.Index.Refs.Orphans.{text_mem-append}
use rldyour_clipboard.Index.Dropping.{
  drop_entry-IsConsistent, entries-drop_entry, orphans-drop_entry, uses-drop_entry,
  bytes-drop_entry, id_mem,
}
use rldyour_clipboard.Index.Locating.{rows, rows-drop_entry}
use rldyour_clipboard.Index.Ids.{ids, not_in, keep_others, sort_dropped, id_mem_of_take}
use rldyour_clipboard.Prelude.{
  ℕ, zero, suc, ◌-◌, ◌≤◌, ◌<◌, ◌≡◌, refl, sym, ap, ◌∙◌, subst, ◌⊎◌, inl, inr, Bool, true, false,
  not, ◌&&◌, ◌||◌, List, [], ◌∷◌, ◌++◌, append-nil, append_assoc, arith, ltb, leb, ◌==◌,
  if◌then◌else◌, Bool-cases, Option-cases, length, take, drop, keep, length-keep-le, any-append,
  Text, text_mem, sort_by, length-sort_by, List-cases,
}

abbrev pub unpinned : EntryRow → Bool
unpinned e = not e.pinned

-- The unpinned rows, oldest first.
abbrev pub queue : Tables → List EntryRow
queue t = sort_by older (keep unpinned t.entries)

abbrev pub pins : Tables → List EntryRow
pins t = keep (λ e. not (unpinned e)) t.entries

pub record Evicts (budget : ℕ) (t : Tables) (s r : Evicted) : Type 0 where
  pub consistent : IsConsistent r.tables
  -- pinned rows stay as they are
  pub spared : pins r.tables ≡ pins t
  -- the loop ended by one of its tests
  pub ended : (bytes r.tables ≤ budget) ⊎ (queue r.tables ≡ [])
  -- the oldest rows went, in order
  pub count : ℕ
  pub removed : r.removed ≡ s.removed ++ ids (take count (queue t))
  pub left : queue r.tables ≡ drop count (queue t)
  -- orphaned is what something referred to and nothing does any more
  pub fewer : (x : Text) → uses x r.tables ≤ uses x t
  pub collected :
      (x : Text)
      → text_mem x r.orphaned
        ≡ (text_mem x s.orphaned || (ltb 0 (uses x t) && (uses x r.tables == 0)))

without_one : (id : ℕ) (es : List EntryRow) → without id es ≡ keep (not_in (id ∷ [])) es
without_one id [] = refl
without_one id (e ∷ es) = ground (arith, without_one id es)

-- One round: the queue loses its head, and nothing else changes in it.
round_queue :
    (t : Tables) (e : EntryRow) (es : List EntryRow)
    → IsConsistent t
    → queue t ≡ e ∷ es
    → queue (drop_entry t e.id).0 ≡ es
round_queue t e es c q =
    ap (λ rows. sort_by older (keep unpinned rows))
      (entries-drop_entry t e.id ∙ without_one e.id t.entries)
    ∙ ap (λ is. sort_by older (keep unpinned (keep (not_in is) t.entries)))
        (sym (ap (λ rows. ids (take 1 rows)) q))
    ∙ sort_dropped 1 unpinned t.entries c.distinct_ids
    ∙ ap (drop 1) q

round_pins :
    (t : Tables) (e : EntryRow) (es : List EntryRow)
    → IsConsistent t
    → queue t ≡ e ∷ es
    → pins (drop_entry t e.id).0 ≡ pins t
round_pins t e es c q =
    ap (keep (λ r. not (unpinned r))) (entries-drop_entry t e.id ∙ without_one e.id t.entries)
    ∙ keep_others unpinned (e.id ∷ []) t.entries c.distinct_ids (λ i.
      subst
        (λ rows.
          id_mem i (ids (take 1 rows)) ≡ true → id_mem i (ids (keep unpinned t.entries)) ≡ true)
        q (id_mem_of_take i 1 (keep unpinned t.entries)))

stay :
    (budget : ℕ) (s : Evicted)
    → IsConsistent s.tables
    → (bytes s.tables ≤ budget) ⊎ (queue s.tables ≡ [])
    → Evicts budget s.tables s s
stay budget s c h = record {
  consistent = c;
  spared = refl;
  ended = h;
  count = 0;
  removed = sym (append-nil s.removed);
  left = refl;
  fewer = λ x. omega arith;
  collected = λ x. ground arith;
}

-- The state after one round of the loop.
abbrev after_round : Evicted → EntryRow → Evicted
after_round s e = record {
  tables = (drop_entry s.tables e.id).0;
  orphaned = s.orphaned ++ (drop_entry s.tables e.id).1.digests;
  removed = s.removed ++ e.id ∷ [];
}

go_on :
    (budget : ℕ) (s r : Evicted) (e : EntryRow) (es : List EntryRow)
    → IsConsistent s.tables
    → queue s.tables ≡ e ∷ es
    → Evicts budget (drop_entry s.tables e.id).0 (after_round s e) r
    → Evicts budget s.tables s r
go_on budget s r e es c q v =
    let next = round_queue s.tables e es c q in
    record {
      consistent = v.consistent;
      spared = v.spared ∙ round_pins s.tables e es c q;
      ended = v.ended;
      count = suc v.count;
      removed =
          v.removed
          ∙ append_assoc s.removed (e.id ∷ []) _
          ∙ ap (λ is. s.removed ++ e.id ∷ is) (ap (λ rows. ids (take v.count rows)) next)
          ∙ ap (λ rows. s.removed ++ ids (take (suc v.count) rows)) (sym q);
      left = v.left ∙ ap (drop v.count) next ∙ ap (drop (suc v.count)) (sym q);
      fewer = λ x. omega (arith, v.fewer x, uses-drop_entry x s.tables e.id c.distinct_ids);
      collected = λ x. ground (
        arith,
        v.collected x,
        text_mem-append x s.orphaned (drop_entry s.tables e.id).1.digests,
        orphans-drop_entry x s.tables e.id c,
        uses-drop_entry x s.tables e.id c.distinct_ids,
        v.fewer x,
      );
    }

evict_loop-Evicts :
    (fuel budget used : ℕ) (s : Evicted)
    → IsConsistent s.tables
    → used ≡ bytes s.tables
    → bytes s.tables ≤ i64_max
    → length (queue s.tables) < fuel
    → Evicts budget s.tables s (evict_loop fuel budget used s)
unfolding evict_loop victim
evict_loop-Evicts zero budget used s c u fits enough = absurd (omega arith)
evict_loop-Evicts (suc fuel) budget used s c u fits enough = elim (Bool-cases (leb used budget)) [
  | inl small ↦ rw small (stay budget s c (inl (ground arith)))
  | inr large ↦ elim (List-cases (queue s.tables)) [
    | inl none_left ↦ rw (large, none_left) (stay budget s c (inr none_left))
    | inr (e, es, q) ↦
        let weighed = bytes-drop_entry s.tables e.id c fits in
        rw (large, q)
          (go_on budget s _ e es c q (
            evict_loop-Evicts fuel budget (used - (drop_entry s.tables e.id).1.bytes)
              (after_round s e) (drop_entry-IsConsistent s.tables e.id c) (omega arith)
              (omega arith)
              (omega (
                arith,
                ap (length {A = EntryRow}) (round_queue s.tables e es c q),
                ap (length {A = EntryRow}) q,
              ))))
  ]
]

-- Whatever the tables weigh, eviction keeps them consistent and adds no reference.
evict_loop-keeps :
    (fuel budget used : ℕ) (s : Evicted)
    → IsConsistent s.tables
    → let r = evict_loop fuel budget used s in
      IsConsistent r.tables × ((x : Text) → uses x r.tables ≤ uses x s.tables)
unfolding evict_loop
evict_loop-keeps zero budget used s c = (c, λ x. omega arith)
evict_loop-keeps (suc fuel) budget used s c = elim (Bool-cases (leb used budget)) [
  | inl small ↦ rw small (c, λ x. omega arith)
  | inr large ↦ elim (Option-cases (victim s.tables.entries)) [
    | inl gone ↦ rw (large, gone) (c, λ x. omega arith)
    | inr (e, found) ↦
        let later =
          evict_loop-keeps fuel budget (used - (drop_entry s.tables e.id).1.bytes) (after_round s e)
            (drop_entry-IsConsistent s.tables e.id c) in
        rw (large, found)
          (later.0, λ x. omega (arith, later.1 x, uses-drop_entry x s.tables e.id c.distinct_ids))
  ]
]

pub evict_to-keeps :
    (t : Tables) (budget : ℕ)
    → IsConsistent t
    → IsConsistent (evict_to t budget).tables
      × ((x : Text) → uses x (evict_to t budget).tables ≤ uses x t)
unfolding evict_to
evict_to-keeps t budget c = evict_loop-keeps (suc (length t.entries)) budget (bytes t) _ c

-- What was removed stays removed.
evict_loop_grows :
    (fuel budget used i : ℕ) (s : Evicted)
    → id_mem i s.removed ≡ true
    → id_mem i (evict_loop fuel budget used s).removed ≡ true
unfolding evict_loop
evict_loop_grows zero budget used i s h = h
evict_loop_grows (suc fuel) budget used i s h = elim (Bool-cases (leb used budget)) [
  | inl small ↦ rw small h
  | inr large ↦ elim (Option-cases (victim s.tables.entries)) [
    | inl gone ↦ rw (large, gone) h
    | inr (e, found) ↦
        rw (large, found)
          (evict_loop_grows fuel budget (used - (drop_entry s.tables e.id).1.bytes) i
            (after_round s e) (any-append (λ j. j == i) s.removed (e.id ∷ []) ∙ ground (arith, h)))
  ]
]

evict_loop-rows :
    (fuel budget used i : ℕ) (s : Evicted)
    → id_mem i (evict_loop fuel budget used s).removed ≡ false
    → rows i (evict_loop fuel budget used s).tables.parts ≡ rows i s.tables.parts
unfolding evict_loop
evict_loop-rows zero budget used i s h = refl
evict_loop-rows (suc fuel) budget used i s h = elim (Bool-cases (leb used budget)) [
  | inl small ↦ rw small refl
  | inr large ↦ elim (Option-cases (victim s.tables.entries)) [
    | inl gone ↦ rw (large, gone) refl
    | inr (e, found) ↦
        let left = used - (drop_entry s.tables e.id).1.bytes in
        let spared : id_mem i (evict_loop fuel budget left (after_round s e)).removed ≡ false =
          rw (large, found) at h in
        let other : (e.id == i) ≡ false = elim (Bool-cases (e.id == i)) [
          | inr q ↦ q
          | inl q ↦
              let gone =
                evict_loop_grows fuel budget left i (after_round s e)
                  (any-append (λ j. j == i) s.removed (e.id ∷ []) ∙ ground (arith, q)) in
              absurd (ground (arith, gone, spared))
        ] in
        rw (large, found)
          (evict_loop-rows fuel budget left i (after_round s e) spared
            ∙ rows-drop_entry s.tables i e.id
            ∙ ap (λ b. if b then [] else rows i s.tables.parts) other)
  ]
]

-- The parts of an entry that is not evicted stay as they are.
pub evict_to-rows :
    (t : Tables) (budget i : ℕ)
    → id_mem i (evict_to t budget).removed ≡ false
    → rows i (evict_to t budget).tables.parts ≡ rows i t.parts
unfolding evict_to
evict_to-rows t budget i h = evict_loop-rows (suc (length t.entries)) budget (bytes t) i _ h

-- On consistent tables that weigh no more than an i64 holds, eviction ends with the archive in the
-- budget or with no unpinned entry left. It keeps the tables consistent and every pinned row as it
-- was, removes entries oldest first, and reports exactly the digests that lost their last reference.
pub evict_to-Evicts :
    (t : Tables) (budget : ℕ)
    → IsConsistent t
    → bytes t ≤ i64_max
    → Evicts budget t (record { tables = t; orphaned = []; removed = [] }) (evict_to t budget)
unfolding evict_to
evict_to-Evicts t budget c fits =
    evict_loop-Evicts (suc (length t.entries)) budget (bytes t) _ c refl fits (
      omega
        (arith, length-sort_by older (keep unpinned t.entries), length-keep-le unpinned t.entries))
