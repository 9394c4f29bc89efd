-- ===== src/Kind/Offers/Chosen.antt =====
-- What `recordable` of daemon/src/kind.rs keeps of an offer, and what it leaves out.
use rldyour_clipboard.Kind.{lower}
use rldyour_clipboard.Kind.Offers.{protocol_targets, ranked_bare}
use rldyour_clipboard.Prelude.{
  ◌≡◌, Bool, true, false, ◌||◌, List, [], ◌∷◌, ◌==◌, any, Text, text_eq, text_mem, trim,
}

-- Whether a target with this key is among the targets.
abbrev pub has_key : Text → List Text → Bool
has_key key = any (λ m. text_eq (lower m) key)

-- No two targets have the same key.
abbrev pub IsApart : List Text → Type 0
IsApart [] = Unit
IsApart (m ∷ ms) = (has_key (lower m) ms ≡ false) × IsApart ms

-- A target is the trimmed name of an offer that is no protocol target, and that is a media type or a
-- known bare atom.
abbrev pub IsMedia : List Text → Text → Type 0
IsMedia offered mime =
    (offer : Text) × (text_mem offer offered ≡ true)
    × (mime ≡ trim offer)
    × (text_mem (lower offer) protocol_targets ≡ false)
    × ((any (λ c. c == b'/') (lower offer) || text_mem (lower offer) ranked_bare) ≡ true)
