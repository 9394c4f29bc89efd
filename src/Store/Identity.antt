-- ===== src/Store/Identity.antt =====
-- `identity` of daemon/src/store/mod.rs names a draft by what it offers, in no order.
use mathlib.Core.List.{Permᴰ}
use rldyour_clipboard.Prelude.{sort_by_of_Perm, text_le_total, text_le_trans, text_le_antisym}
use rldyour_clipboard.Store.{Accepted}
use rldyour_clipboard.Store.Deriving.{identity, hashed, pair_of}
use rldyour_clipboard.Prelude.{ℕ, ◌≡◌, ap, List, map, Text, text_le}

map-Perm {ℓ κ} :
    {A : Type ℓ} {B : Type κ} (f : A → B) {xs ys : List A}
    → Permᴰ xs ys
    → Permᴰ (map f xs) (map f ys)
map-Perm f Permᴰ.nil = Permᴰ.nil
map-Perm f (Permᴰ.cons e d) = Permᴰ.cons (ap f e) (map-Perm f d)
map-Perm f (Permᴰ.swap e₁ e₂) = Permᴰ.swap (ap f e₁) (ap f e₂)
map-Perm f (Permᴰ.trans d₁ d₂) = Permᴰ.trans (map-Perm f d₁) (map-Perm f d₂)

-- Drafts that offer the same representations in another order have the same identity.
pub identity_of_Perm :
    (digest_of : List ℕ → Text) {accepted reordered : List Accepted}
    → Permᴰ accepted reordered
    → identity digest_of accepted ≡ identity digest_of reordered
unfolding identity
identity_of_Perm digest_of d =
    ap (λ pairs. digest_of (hashed pairs))
      (sort_by_of_Perm text_le text_le_total text_le_trans text_le_antisym (map-Perm pair_of d))
