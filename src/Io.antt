-- ===== src/Io.antt =====
-- The buffered readers of daemon/src/session.rs, and the errors of std::io. A reader is the run of
-- buffers that `fill_buf` will show, each not empty, and how the stream ends behind them.
use native.Mathlib.Nat.{zero-sub, sub-zero}
use rldyour_clipboard.Prelude.{
  ℕ, zero, suc, ◌-◌, ◌≤◌, ◌<◌, ◌≡◌, refl, sym, ap, ◌∙◌, ◌⊎◌, inl, inr, Bool, false, List, [], ◌∷◌,
  ◌++◌, arith, ltb, leb, ◌==◌, if◌then◌else◌, Bool-cases, Result, ok, err, length, take, drop,
  length-append,
}

pub data IoError : Type 0 where
  unexpected_eof invalid_data invalid_input not_found other : IoError

pub record Input : Type 0 where
  pub buffers : List (List ℕ)
  -- the stream fails behind the last buffer, in place of ending
  pub broken : Bool

abbrev pub Io {ℓ} : Type ℓ → Type ℓ
Io A = Result IoError A

unfoldable pub flat : List (List ℕ) → List ℕ
flat [] = []
flat (b ∷ bs) = b ++ flat bs

-- The bytes that are still to be read.
abbrev pub bytes_of : Input → List ℕ
bytes_of input = flat input.buffers

abbrev pub Occupied : List ℕ → Type 0
Occupied b = 0 < length b

abbrev pub is_done : Bool → Io (Unit {0})
is_done broken = if broken then err other else ok tt

-- BufRead::consume, on the buffer that was shown
unfoldable pub consume : ℕ → List ℕ → List (List ℕ) → List (List ℕ)
consume n buffer rest = if ltb n (length buffer) then drop n buffer ∷ rest else rest

-- `io::copy` of a `take(bytes)` into the sink: it stops at the count or at the end of the stream.
unfoldable pub drain_buffers : Bool → List (List ℕ) → ℕ → Io (Unit {0}) × List (List ℕ)
unfolding consume
drain_buffers broken [] n = (if n == 0 then ok tt else is_done broken, [])
drain_buffers broken (b ∷ bs) n =
    let rest = drain_buffers broken bs (n - length b) in
    if n == 0 then (ok tt, b ∷ bs) else if leb n (length b) then (ok tt, consume n b bs) else rest

unfoldable pub drain : Input → ℕ → Io (Unit {0}) × Input
unfolding drain_buffers
drain input bytes =
    let out = drain_buffers input.broken input.buffers bytes in
    (out.0, record input { buffers = out.1 })

-- Read::read into a buffer of `want` bytes, `want` not 0: what the buffer at hand has of it.
unfoldable pub read : Input → ℕ → Io (List ℕ) × Input
unfolding consume
read input want = elim input.buffers [
  | [] ↦ (if input.broken then err other else ok [], input)
  | b ∷ bs ↦ (ok (take want b), record input { buffers = consume want b bs })
]

pub drop-append :
    (n : ℕ) (xs ys : List ℕ) → drop n (xs ++ ys) ≡ drop n xs ++ drop (n - length xs) ys
drop-append zero xs ys = ap (λ k. xs ++ drop k ys) (sym (zero-sub (length xs)))
drop-append (suc n) [] ys = ap (λ k. drop k ys) (sym (sub-zero (suc n)))
drop-append (suc n) (x ∷ xs) ys =
    drop-append n xs ys ∙ ap (λ k. drop n xs ++ drop k ys) (omega arith)

pub drop_of_length-le : (n : ℕ) (xs : List ℕ) → length xs ≤ n → drop n xs ≡ []
drop_of_length-le zero [] h = refl
drop_of_length-le zero (x ∷ xs) h = absurd (omega arith)
drop_of_length-le (suc n) [] h = refl
drop_of_length-le (suc n) (x ∷ xs) h = drop_of_length-le n xs (omega arith)

pub flat-consume :
    (n : ℕ) (b : List ℕ) (bs : List (List ℕ))
    → n ≤ length b
    → flat (consume n b bs) ≡ drop n b ++ flat bs
unfolding consume flat
flat-consume n b bs h = ground (arith, drop_of_length-le n b)

-- Draining takes the declared bytes off the stream and not a byte more, or all that is left.
pub flat-drain_buffers :
    (broken : Bool) (bs : List (List ℕ)) (n : ℕ)
    → flat (drain_buffers broken bs n).1 ≡ drop n (flat bs)
unfolding drain_buffers flat
flat-drain_buffers broken [] n = sym (drop_of_length-le n [] (omega arith))
flat-drain_buffers broken (b ∷ bs) n = elim (Bool-cases (n == 0)) [
  | inl z ↦ let e : 0 ≡ n = ground arith in rw z (ap (λ k. drop k (b ++ flat bs)) e)
  | inr nz ↦ elim (Bool-cases (leb n (length b))) [
    | inl small ↦
        rw (nz, small)
          (flat-consume n b bs (ground arith)
            ∙ ap (λ r. drop n b ++ r)
                (ap (λ k. drop k (flat bs)) (let e : 0 ≡ n - length b = ground arith in e))
            ∙ sym (drop-append n b (flat bs)))
    | inr large ↦
        rw (nz, large)
          (flat-drain_buffers broken bs (n - length b)
            ∙ ap (λ r. r ++ drop (n - length b) (flat bs))
                (sym (drop_of_length-le n b (ground arith)))
            ∙ sym (drop-append n b (flat bs)))
  ]
]

-- Where the stream holds the bytes, or ends and does not fail, draining succeeds.
pub drain_buffers_ok :
    (broken : Bool) (bs : List (List ℕ)) (n : ℕ)
    → (n ≤ length (flat bs)) ⊎ (broken ≡ false)
    → (drain_buffers broken bs n).0 ≡ ok tt
unfolding drain_buffers flat
drain_buffers_ok broken [] n h = ground arith
drain_buffers_ok broken (b ∷ bs) n h =
    ground (arith, length-append b (flat bs), drain_buffers_ok broken bs (n - length b))
