-- ===== src/Index/Ids.antt =====
-- Rows and their ids: what holds of a table that is filtered by a list of ids, as the loops of
-- daemon/src/store/index.rs leave it.
use rldyour_clipboard.Index.Tables.{EntryRow, has_id}
use rldyour_clipboard.Index.Changes.{older}
use rldyour_clipboard.Index.Consistent.Rows.{DistinctIds}
use rldyour_clipboard.Index.Dropping.{id_mem}
use rldyour_clipboard.Index.Order.{older_total, older_trans}
use rldyour_clipboard.Prelude.{
  ℕ, zero, suc, ◌≡◌, refl, sym, ap, ◌∙◌, inl, inr, Bool, true, false, not, ◌||◌, List, [], ◌∷◌, map,
  arith, ◌==◌, Bool-cases, take, drop, keep, All, All-map, sort_by, insert_by, any-sort_by,
  keep-sort_by, keep-keep, All-map₂, keep_congr,
}

abbrev pub ids : List EntryRow → List ℕ
ids = map (λ e. e.id)

abbrev pub not_in : List ℕ → EntryRow → Bool
not_in is e = not (id_mem e.id is)

pub ids_ne : (i : ℕ) (es : List EntryRow) → has_id i es ≡ false → All (λ e. (i == e.id) ≡ false) es
ids_ne i [] h = tt
ids_ne i (e ∷ es) h = (ground arith, ids_ne i es (ground arith))

id_mem_of_keep :
    (i : ℕ) (p : EntryRow → Bool) (es : List EntryRow)
    → has_id i es ≡ false
    → id_mem i (ids (keep p es)) ≡ false
id_mem_of_keep i p [] h = refl
id_mem_of_keep i p (e ∷ es) h = ground (arith, id_mem_of_keep i p es)

-- With unique ids, a row's id is among those of the rows that pass a test exactly if it passes.
id_mem-keep :
    (p : EntryRow → Bool) (es : List EntryRow)
    → DistinctIds es
    → All (λ e. id_mem e.id (ids (keep p es)) ≡ p e) es
id_mem-keep p [] h = tt
id_mem-keep p (e ∷ es) h = (
  ground (arith, id_mem_of_keep e.id p es h.0),
  All-map₂ _ _ _
      (λ (r : EntryRow) (ne : (e.id == r.id) ≡ false) (ih : id_mem r.id (ids (keep p es)) ≡ p r).
        ground arith)
      es (ids_ne e.id es h.0) (id_mem-keep p es h.1),
)

-- Dropping ids of rows that pass a test leaves the other rows.
pub keep_others :
    (p : EntryRow → Bool) (is : List ℕ) (es : List EntryRow)
    → DistinctIds es
    → ((i : ℕ) → id_mem i is ≡ true → id_mem i (ids (keep p es)) ≡ true)
    → keep (λ e. not (p e)) (keep (not_in is) es) ≡ keep (λ e. not (p e)) es
keep_others p is es h sub =
    keep-keep (λ e. not (p e)) (not_in is) es
    ∙ keep_congr _ _ es (
        All-map _ _
          (λ (e : EntryRow) (k : id_mem e.id (ids (keep p es)) ≡ p e). ground (arith, sub e.id)) es
          (id_mem-keep p es h))

module _ (le : EntryRow → EntryRow → Bool) where
  has_id-insert_by :
      (i : ℕ) (e : EntryRow) (es : List EntryRow)
      → has_id i (insert_by le e es) ≡ ((e.id == i) || has_id i es)
  unfolding insert_by
  has_id-insert_by i e [] = refl
  has_id-insert_by i e (r ∷ es) = ground (arith, has_id-insert_by i e es)

  insert_by-DistinctIds :
      (e : EntryRow) (es : List EntryRow)
      → has_id e.id es ≡ false
      → DistinctIds es
      → DistinctIds (insert_by le e es)
  unfolding insert_by
  insert_by-DistinctIds e [] f h = (refl, tt)
  insert_by-DistinctIds e (r ∷ es) f h = elim (Bool-cases (le e r)) [
    | inl q ↦ rw q (f, h)
    | inr q ↦
        rw q (
          ground (arith, has_id-insert_by r.id e es),
          insert_by-DistinctIds e es (ground arith) h.1,
        )
  ]

  pub sort_by-DistinctIds : (es : List EntryRow) → DistinctIds es → DistinctIds (sort_by le es)
  unfolding sort_by
  sort_by-DistinctIds [] h = tt
  sort_by-DistinctIds (e ∷ es) h =
      insert_by-DistinctIds e (sort_by le es) (any-sort_by le (λ r. r.id == e.id) es ∙ h.0)
        (sort_by-DistinctIds es h.1)

has_id-keep :
    (i : ℕ) (p : EntryRow → Bool) (es : List EntryRow)
    → has_id i es ≡ false
    → has_id i (keep p es) ≡ false
has_id-keep i p [] h = refl
has_id-keep i p (e ∷ es) h = ground (arith, has_id-keep i p es)

pub keep-DistinctIds :
    (p : EntryRow → Bool) (es : List EntryRow) → DistinctIds es → DistinctIds (keep p es)
keep-DistinctIds p [] h = tt
keep-DistinctIds p (e ∷ es) h = elim (Bool-cases (p e)) [
  | inl q ↦ rw q (has_id-keep e.id p es h.0, keep-DistinctIds p es h.1)
  | inr q ↦ rw q (keep-DistinctIds p es h.1)
]

not_in_take :
    (n : ℕ) (i : ℕ) (es : List EntryRow) → has_id i es ≡ false → id_mem i (ids (take n es)) ≡ false
not_in_take zero i es h = refl
not_in_take (suc n) i [] h = refl
not_in_take (suc n) i (e ∷ es) h = ground (arith, not_in_take n i es)

keep-not_in_cons :
    (i : ℕ) (is : List ℕ) (es : List EntryRow)
    → has_id i es ≡ false
    → keep (not_in (i ∷ is)) es ≡ keep (not_in is) es
keep-not_in_cons i is [] h = refl
keep-not_in_cons i is (e ∷ es) h = ground (arith, keep-not_in_cons i is es)

keep-not_in_nil : (es : List EntryRow) → keep (not_in []) es ≡ es
keep-not_in_nil [] = refl
keep-not_in_nil (e ∷ es) = ap (◌∷◌ e) (keep-not_in_nil es)

-- Dropping the ids of the first rows leaves the rows behind them.
keep-not_in-take :
    (n : ℕ) (es : List EntryRow) → DistinctIds es → keep (not_in (ids (take n es))) es ≡ drop n es
keep-not_in-take zero es h = keep-not_in_nil es
keep-not_in-take (suc n) [] h = refl
keep-not_in-take (suc n) (e ∷ es) h =
    ground (arith, keep-not_in_cons e.id (ids (take n es)) es h.0, keep-not_in-take n es h.1)

keep_comm : (p q : EntryRow → Bool) (es : List EntryRow) → keep p (keep q es) ≡ keep q (keep p es)
keep_comm p q [] = refl
keep_comm p q (e ∷ es) = ground (arith, keep_comm p q es)

-- Dropping the oldest rows that pass a test leaves the younger ones that pass it.
pub sort_dropped :
    (n : ℕ) (p : EntryRow → Bool) (es : List EntryRow)
    → DistinctIds es
    → sort_by older (keep p (keep (not_in (ids (take n (sort_by older (keep p es))))) es))
      ≡ drop n (sort_by older (keep p es))
sort_dropped n p es h =
    let sorted = sort_by older (keep p es) in
    ap (sort_by older) (keep_comm p (not_in (ids (take n sorted))) es)
    ∙ sym (keep-sort_by older older_total older_trans (not_in (ids (take n sorted))) (keep p es))
    ∙ keep-not_in-take n sorted (sort_by-DistinctIds older (keep p es) (keep-DistinctIds p es h))

any-ids : (i : ℕ) (es : List EntryRow) → id_mem i (ids es) ≡ has_id i es
any-ids i [] = refl
any-ids i (e ∷ es) = ap (λ b. (e.id == i) || b) (any-ids i es)

pub id_mem_of_take :
    (i n : ℕ) (es : List EntryRow)
    → id_mem i (ids (take n (sort_by older es))) ≡ true
    → id_mem i (ids es) ≡ true
id_mem_of_take i n es h = elim (Bool-cases (has_id i (sort_by older es))) [
  | inl q ↦ any-ids i es ∙ sym (any-sort_by older (λ r. r.id == i) es) ∙ q
  | inr q ↦ cc (not_in_take n i (sort_by older es) q)
]
