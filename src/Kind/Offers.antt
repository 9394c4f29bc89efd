-- ===== src/Kind/Offers.antt =====
-- `recordable` of daemon/src/kind.rs: the targets of an X11 selection that are worth archiving.
pub mod Chosen
use rldyour_clipboard.Kind.{lower, rank, max_representations, is_empty}
use rldyour_clipboard.Prelude.{
  ℕ, zero, suc, ◌≤◌, ◌≡◌, refl, inl, inr, Bool, true, not, ◌&&◌, ◌||◌, List, [], ◌∷◌, arith, leb,
  ◌==◌, if◌then◌else◌, Bool-cases, length, take, any, All, length-take, All-map, Text, codes,
  text_eq, text_eq_refl, text_mem, trim, sort_by, IsSorted, All-sort_by, sort_by-IsSorted, All-take,
}

abbrev pub protocol_targets : List Text
protocol_targets =
    codes "targets"
    ∷ codes "timestamp"
    ∷ codes "multiple"
    ∷ codes "save_targets"
    ∷ codes "delete"
    ∷ codes "insert_selection"
    ∷ codes "insert_property"
    ∷ codes "atom"
    ∷ codes "atom_pair"
    ∷ codes "null"
    ∷ []

abbrev pub ranked_bare : List Text
ranked_bare = codes "utf8_string" ∷ codes "string" ∷ codes "text" ∷ []

-- The tests of a target's key behind the one for its first sight.
unfoldable pub is_wanted : Text → Bool
unfolding text_mem text_eq
is_wanted key =
    not (text_mem key protocol_targets) && (any (λ c. c == b'/') key || text_mem key ranked_bare)

-- The loop, with the keys seen so far.
unfoldable pub wanted_from : List Text → List Text → List Text
unfolding lower trim text_mem is_wanted
wanted_from seen [] = []
wanted_from seen (mime ∷ offered) =
    let key = lower mime in
    let later = wanted_from (key ∷ seen) offered in
    if is_empty key || text_mem key seen
    then wanted_from seen offered
    else if is_wanted key
    then trim mime ∷ later
    else later

-- The order of `sort_by_key`, which keeps the order of equal keys.
abbrev pub rank_le : Text → Text → Bool
rank_le a b = leb (rank a) (rank b)

unfoldable pub recordable : List Text → List Text
unfolding wanted_from sort_by
recordable offered = take max_representations (sort_by rank_le (wanted_from [] offered))

offers :
    recordable (
      codes "TARGETS"
      ∷ codes "UTF8_STRING"
      ∷ codes "text/html"
      ∷ codes " image/png"
      ∷ codes "FOO"
      ∷ codes "Text/HTML"
      ∷ [])
    ≡ codes "image/png" ∷ codes "text/html" ∷ codes "UTF8_STRING" ∷ []
unfolding recordable rank
offers = refl

-- A target comes from an offer whose key passes the tests.
abbrev pub Comes : List Text → Text → Type 0
Comes offered mime =
    (offer : Text) × (text_mem offer offered ≡ true)
    × (mime ≡ trim offer)
    × (is_wanted (lower offer) ≡ true)

Comes-cons : (o : Text) (offered : List Text) (m : Text) → Comes offered m → Comes (o ∷ offered) m
unfolding text_mem
Comes-cons o offered m (offer, h, e, w) = (offer, ground (arith, h), e, w)

pub wanted_from-Comes : (seen offered : List Text) → All (Comes offered) (wanted_from seen offered)
unfolding wanted_from text_mem
wanted_from-Comes seen [] = tt
wanted_from-Comes seen (o ∷ offered) =
    elim (Bool-cases (is_empty (lower o) || text_mem (lower o) seen)) [
      | inl e ↦ rw e (All-map _ _ (Comes-cons o offered) _ (wanted_from-Comes seen offered))
      | inr e ↦ elim (Bool-cases (is_wanted (lower o))) [
        | inl w ↦
            rw (e, w)
              (
                (o, ground (arith, text_eq_refl o), refl, w),
                All-map _ _ (Comes-cons o offered) _ (wanted_from-Comes (lower o ∷ seen) offered),
              )
        | inr w ↦
            rw (e, w)
              (All-map _ _ (Comes-cons o offered) _ (wanted_from-Comes (lower o ∷ seen) offered))
      ]
    ]

pub IsSorted-take {ℓ} :
    {A : Type ℓ} (le : A → A → Bool) (n : ℕ) (xs : List A)
    → IsSorted le xs
    → IsSorted le (take n xs)
IsSorted-take le zero xs h = tt
IsSorted-take le (suc n) [] h = tt
IsSorted-take le (suc n) (x ∷ xs) h = (All-take _ n xs h.0, IsSorted-take le n xs h.1)

-- What `recordable` keeps: at most eight targets, the preferred ones first, each the trimmed name of
-- an offer that is no protocol target and is a media type or a known bare atom.
pub recordable-Comes :
    (offered : List Text)
    → (length (recordable offered) ≤ 8)
      × IsSorted rank_le (recordable offered)
      × All (Comes offered) (recordable offered)
unfolding recordable
recordable-Comes offered = (
  ground (arith, length-take 8 (sort_by rank_le (wanted_from [] offered))),
  IsSorted-take rank_le 8 _ (
      sort_by-IsSorted rank_le (λ a b e. ground arith) (λ a b c p q. ground arith)
        (wanted_from [] offered)),
  All-take _ 8 _ (All-sort_by rank_le _ _ (wanted_from-Comes [] offered)),
)
