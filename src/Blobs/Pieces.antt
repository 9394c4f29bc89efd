-- ===== src/Blobs/Pieces.antt =====
-- The pieces of a stream that one round of `Writer::absorb` of daemon/src/store/blobs.rs takes.
use rldyour_clipboard.Io.{flat, consume, Occupied, drop-append}
use rldyour_clipboard.Prelude.{
  ℕ, zero, suc, ◌+◌, ◌-◌, ◌≤◌, ◌≡◌, refl, sym, ap, ◌∙◌, inl, inr, List, [], ◌∷◌, ◌++◌, arith, ltb,
  Bool-cases, length, take, drop, All, length-take, length-drop,
}

take-append-le : (n : ℕ) (xs ys : List ℕ) → n ≤ length xs → take n (xs ++ ys) ≡ take n xs
take-append-le zero xs ys h = refl
take-append-le (suc n) [] ys h = absurd (omega arith)
take-append-le (suc n) (x ∷ xs) ys h = ap (λ r. x ∷ r) (take-append-le n xs ys (omega arith))

take-nil : (k : ℕ) → take {A = ℕ} k [] ≡ []
take-nil zero = refl
take-nil (suc k) = refl

drop-nil : (k : ℕ) → drop {A = ℕ} k [] ≡ []
drop-nil zero = refl
drop-nil (suc k) = refl

pub take-split : (n m : ℕ) (xs : List ℕ) → n ≤ m → take n xs ++ take (m - n) (drop n xs) ≡ take m xs
take-split zero m xs h = ap (λ k. take k xs) (let e : m - 0 ≡ m = omega arith in e)
take-split (suc n) zero xs h = absurd (omega arith)
take-split (suc n) (suc m) [] h = take-nil (suc m - suc n)
take-split (suc n) (suc m) (x ∷ xs) h =
    ap (λ r. x ∷ r)
      (ap (λ k. take n xs ++ take k (drop n xs)) (let e : suc m - suc n ≡ m - n = omega arith in e)
        ∙ take-split n m xs (omega arith))

pub drop-drop : (n m : ℕ) (xs : List ℕ) → drop m (drop n xs) ≡ drop (n + m) xs
drop-drop zero m xs = ap (λ k. drop k xs) (let e : m ≡ 0 + m = omega arith in e)
drop-drop (suc n) m [] = drop-nil m ∙ sym (drop-nil (suc n + m))
drop-drop (suc n) m (x ∷ xs) =
    drop-drop n m xs
    ∙ ap (λ k. drop k (x ∷ xs)) (let e : suc (n + m) ≡ suc n + m = omega arith in e)

take-min : (w : ℕ) (b : List ℕ) → take w b ≡ take (length (take w b)) b
take-min zero b = refl
take-min (suc w) [] = refl
take-min (suc w) (x ∷ xs) = ap (λ r. x ∷ r) (take-min w xs)

pub consume-Occupied :
    (n : ℕ) (b : List ℕ) (bs : List (List ℕ)) → All Occupied bs → All Occupied (consume n b bs)
unfolding consume
consume-Occupied n b bs h = elim (Bool-cases (ltb n (length b))) [
  | inl e ↦ rw e (ground (arith, length-drop n b), h)
  | inr e ↦ rw e h
]

-- One round: the piece that `read` shows, and what is left behind it.
pub piece_length : (w : ℕ) (b : List ℕ) → (length (take w b) ≤ w) × (length (take w b) ≤ length b)
piece_length w b = ground (arith, length-take w b)

pub piece_of_stream :
    (w : ℕ) (b : List ℕ) (bs : List (List ℕ)) → take w b ≡ take (length (take w b)) (b ++ flat bs)
piece_of_stream w b bs =
    take-min w b ∙ sym (take-append-le (length (take w b)) b (flat bs) (piece_length w b).1)

drop_past : (w : ℕ) (b : List ℕ) → length b ≤ w → drop w b ≡ []
drop_past zero [] h = refl
drop_past zero (x ∷ xs) h = absurd (omega arith)
drop_past (suc w) [] h = refl
drop_past (suc w) (x ∷ xs) h = drop_past w xs (omega arith)

pub piece_behind :
    (w : ℕ) (b : List ℕ) (bs : List (List ℕ))
    → flat (consume w b bs) ≡ drop (length (take w b)) (b ++ flat bs)
unfolding flat consume
piece_behind w b bs = elim (Bool-cases (ltb w (length b))) [
  | inl e ↦
      let same : w ≡ length (take w b) = ground (arith, length-take w b) in
      let gone : w - length b ≡ 0 = ground arith in
      rw e (
        ap (λ k. drop w b ++ drop k (flat bs)) (sym gone)
        ∙ sym (drop-append w b (flat bs))
        ∙ ap (λ k. drop k (b ++ flat bs)) same)
  | inr e ↦
      let same : length b ≡ length (take w b) = ground (arith, length-take w b) in
      let gone : length b - length b ≡ 0 = omega arith in
      rw e (
        ap (λ r. r ++ flat bs) (sym (drop_past (length b) b (omega arith)))
        ∙ ap (λ k. drop (length b) b ++ drop k (flat bs)) (sym gone)
        ∙ sym (drop-append (length b) b (flat bs))
        ∙ ap (λ k. drop k (b ++ flat bs)) same)
]
