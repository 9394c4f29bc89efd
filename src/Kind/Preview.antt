-- ===== src/Kind/Preview.antt =====
-- daemon/src/kind.rs: the one line that a list row shows of a text.
use rldyour_clipboard.Prelude.{
  ℕ, ◌+◌, ◌≤◌, ◌≡◌, refl, inl, inr, Bool, true, false, [], ◌∷◌, ◌++◌, arith, leb, if◌then◌else◌,
  Bool-cases, length, length-append, Text, codes, is_whitespace,
}

abbrev pub preview_chars : ℕ
preview_chars = 160

abbrev pub ellipsis : ℕ
ellipsis = 0x2026

abbrev occupied : Text → Bool
occupied [] = false
occupied (c ∷ cs) = true

-- The loop of `preview`: the text so far, whether a space is pending, and the characters taken.
unfoldable pub preview_from : Text → Text → Bool → ℕ → Text
unfolding is_whitespace
preview_from [] out pending_space taken = out
preview_from (c ∷ cs) out pending_space taken = elim (is_whitespace c) [
  | true ↦ preview_from cs out (occupied out) taken
  | false ↦
      let spaced = if pending_space then out ++ b' ' ∷ [] else out in
      let counted = if pending_space then taken + 1 else taken in
      elim (leb preview_chars counted) [
        | true ↦ spaced ++ ellipsis ∷ []
        | false ↦ preview_from cs (spaced ++ c ∷ []) false (counted + 1)
      ]
]

unfoldable pub preview : Text → Text
unfolding preview_from
preview s = preview_from s [] false 0

collapsed :
    (preview (codes "  git   rebase\n  -i HEAD~3 ") ≡ codes "git rebase -i HEAD~3")
    × (preview (codes "   \n\t ") ≡ [])
unfolding preview
collapsed = (refl, refl)

-- `taken` counts the characters of `out`.
preview_from-bounded :
    (cs out : Text) (pending : Bool) (taken : ℕ)
    → length out ≡ taken
    → taken ≤ preview_chars
    → length (preview_from cs out pending taken) ≤ 162
unfolding preview_from
preview_from-bounded [] out pending taken e h = omega (arith, e, h)
preview_from-bounded (c ∷ cs) out pending taken e h = elim (Bool-cases (is_whitespace c)) [
  | inl w ↦ rw (w, length) (preview_from-bounded cs out (occupied out) taken e h)
  | inr w ↦
      let spaced = if pending then out ++ b' ' ∷ [] else out in
      let counted = if pending then taken + 1 else taken in
      let same : length spaced ≡ counted = ground (arith, e, length-append out (b' ' ∷ [])) in
      let most : counted ≤ taken + 1 = ground arith in
      elim (Bool-cases (leb preview_chars counted)) [
        | inl f ↦
            rw (w, f, length) (omega (arith, same, most, h, length-append spaced (ellipsis ∷ [])))
        | inr f ↦
            rw (w, f, length)
              (preview_from-bounded cs (spaced ++ c ∷ []) false (counted + 1)
                (omega (arith, same, length-append spaced (c ∷ []))) (ground (arith, f)))
      ]
]

-- A preview has at most 162 characters: 160, a space and the ellipsis.
pub preview-bounded : (s : Text) → length (preview s) ≤ 162
unfolding preview
preview-bounded s = preview_from-bounded s [] false 0 refl (omega arith)
