-- ===== src/Index/Prefixes.antt =====
-- The prefix search of daemon/src/store/index.rs: what an escaped LIKE pattern matches.
use rldyour_clipboard.Index.Queries.{escape_like, like_char, like_one, like_run, like}
use rldyour_clipboard.Kind.{is_empty}
use rldyour_clipboard.Prelude.{
  ℕ, ◌≡◌, refl, ◌∙◌, ◌≢◌, inl, inr, Bool, true, false, ◌||◌, [], ◌∷◌, ◌++◌, arith, ◌==◌, Bool-cases,
  Text, to_ascii_lowercase, starts_with,
}

like_run_all : (s : Text) → like_run is_empty s ≡ true
unfolding like_run
like_run_all [] = refl
like_run_all (c ∷ cs) = like_run_all cs

abbrev is_special : ℕ → Bool
is_special c = (c == b'\\') || (c == b'%') || (c == b'_')

-- A pattern that goes on behind a plain character, or behind an escaped one.
like_plain :
    (c : ℕ) (ps s : Text)
    → is_special c ≡ false
    → ps ≢ []
    → like (c ∷ ps) s ≡ like_char c (like ps) s
unfolding like like_one
like_plain c [] s h ne = absurd (ne refl)
like_plain c (p ∷ ps) [] h ne = unfold like_char in ground arith
like_plain c (p ∷ ps) (x ∷ s) h ne = ground arith

like_escaped : (c : ℕ) (ps s : Text) → like (b'\\' ∷ c ∷ ps) s ≡ like_char c (like ps) s
unfolding like
like_escaped c ps s = refl

pattern_ne_nil : (prefix : Text) → escape_like prefix ++ b'%' ∷ [] ≢ []
unfolding escape_like
pattern_ne_nil [] = λ e. cc
pattern_ne_nil (c ∷ cs) = λ e. ground arith

starts_with_lower :
    (c : ℕ) (cs s : Text) (k : Text → Bool)
    → ((r : Text) → k r ≡ starts_with (to_ascii_lowercase r) (to_ascii_lowercase cs))
    → like_char c k s ≡ starts_with (to_ascii_lowercase s) (to_ascii_lowercase (c ∷ cs))
unfolding like_char starts_with to_ascii_lowercase
starts_with_lower c cs [] k h = refl
starts_with_lower c cs (x ∷ s) k h = rw h

-- Whatever characters the prefix holds, its escaped pattern matches exactly the texts that begin
-- with it, ASCII letters taken in either case.
pub like-escape_like :
    (prefix s : Text)
    → like (escape_like prefix ++ b'%' ∷ []) s
      ≡ starts_with (to_ascii_lowercase s) (to_ascii_lowercase prefix)
unfolding escape_like
like-escape_like [] s = unfold like starts_with to_ascii_lowercase in like_run_all s
like-escape_like (c ∷ cs) s = elim (Bool-cases (is_special c)) [
  | inl h ↦ rw h (
      like_escaped c (escape_like cs ++ b'%' ∷ []) s
      ∙ starts_with_lower c cs s _ (like-escape_like cs))
  | inr h ↦ rw h (
      like_plain c (escape_like cs ++ b'%' ∷ []) s h (pattern_ne_nil cs)
      ∙ starts_with_lower c cs s _ (like-escape_like cs))
]
