-- ===== src/Prelude/Trim.antt =====
-- Trimming twice is trimming once.
use mathlib.Core.Path.{◌≡◌, refl, sym, ap, ◌∙◌}
use mathlib.Core.Logic.{inl, inr}
use mathlib.Core.Bool.{false}
use mathlib.Core.List.{[], ◌∷◌, ◌++◌, reverse, reverse-cons, reverse-append, reverse-reverse}
use Prim.Native.Nat.{ℕ}
use rldyour_clipboard.Prelude.Tests.{Bool-cases}
use rldyour_clipboard.Prelude.Strings.{Text, is_whitespace, trim_start, trim}

trim_start-trim_start : (s : Text) → trim_start (trim_start s) ≡ trim_start s
unfolding trim_start
trim_start-trim_start [] = refl
trim_start-trim_start (c ∷ cs) = elim (Bool-cases (is_whitespace c)) [
  | inl w ↦ rw w (trim_start-trim_start cs)
  | inr w ↦ rw (w, w) refl
]

trim_start-snoc :
    (xs : Text) (c : ℕ)
    → is_whitespace c ≡ false
    → trim_start (xs ++ c ∷ []) ≡ trim_start xs ++ c ∷ []
unfolding trim_start
trim_start-snoc [] c h = rw h refl
trim_start-snoc (x ∷ xs) c h = elim (Bool-cases (is_whitespace x)) [
  | inl w ↦ rw w (trim_start-snoc xs c h)
  | inr w ↦ rw w refl
]

trim_end_bare :
    (t : Text)
    → let s = trim_start t in
      trim_start (reverse (trim_start (reverse s))) ≡ reverse (trim_start (reverse s))
unfolding trim_start
trim_end_bare [] = refl
trim_end_bare (c ∷ cs) = elim (Bool-cases (is_whitespace c)) [
  | inl w ↦ rw w (trim_end_bare cs)
  | inr w ↦
      let rest = trim_start (reverse cs) in
      let ended : reverse (trim_start (reverse (c ∷ cs))) ≡ c ∷ reverse rest =
        ap (λ l. reverse (trim_start l)) (reverse-cons c cs)
        ∙ ap reverse (trim_start-snoc (reverse cs) c w)
        ∙ reverse-append rest (c ∷ []) in
      let bare : trim_start (c ∷ reverse rest) ≡ c ∷ reverse rest = rw w refl in
      rw w (ap trim_start ended ∙ bare ∙ sym ended)
]

pub trim-trim : (s : Text) → trim (trim s) ≡ trim s
unfolding trim
trim-trim s =
    let begun = trim_start s in
    let ended = trim_start (reverse begun) in
    ap (λ l. reverse (trim_start (reverse l))) (trim_end_bare s)
    ∙ ap (λ l. reverse (trim_start l)) (reverse-reverse ended)
    ∙ ap reverse (trim_start-trim_start (reverse begun))
