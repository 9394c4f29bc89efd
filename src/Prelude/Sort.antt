-- ===== src/Prelude/Sort.antt =====
-- A stable sort, for `sort`, `sort_by_key` and ORDER BY, with the laws that its users need.
use Prim.Native.Nat.{suc}
use mathlib.Core.Path.{◌≡◌, refl, ap, ◌∙◌}
use mathlib.Core.Logic.{inl, inr}
use mathlib.Core.Bool.{Bool, true, false, ◌||◌}
use mathlib.Core.List.{List, [], ◌∷◌}
use native.Mathlib.Omega.{arith}
use mathlib.Core.List.{Permᴰ}
use rldyour_clipboard.Prelude.Tests.{if◌then◌else◌, Bool-cases}
use rldyour_clipboard.Prelude.Lists.{length, All, All-map, All-keep, keep, any}

module _ {ℓ} {A : Type ℓ} (le : A → A → Bool) where
  unfoldable pub insert_by : A → List A → List A
  insert_by x [] = x ∷ []
  insert_by x (y ∷ ys) = if le x y then x ∷ y ∷ ys else y ∷ insert_by x ys

  unfoldable pub sort_by : List A → List A
  unfolding insert_by
  sort_by [] = []
  sort_by (x ∷ xs) = insert_by x (sort_by xs)

  abbrev pub IsSorted : List A → Type 0
  IsSorted [] = Unit
  IsSorted (x ∷ xs) = All (λ y. le x y ≡ true) xs × IsSorted xs

  length-insert_by : (x : A) (ys : List A) → length (insert_by x ys) ≡ suc (length ys)
  unfolding insert_by
  length-insert_by x [] = refl
  length-insert_by x (y ∷ ys) = ground (arith, length-insert_by x ys)

  pub length-sort_by : (xs : List A) → length (sort_by xs) ≡ length xs
  unfolding sort_by
  length-sort_by [] = refl
  length-sort_by (x ∷ xs) = length-insert_by x (sort_by xs) ∙ ap suc (length-sort_by xs)

  pub any-insert_by :
      (p : A → Bool) (x : A) (ys : List A) → any p (insert_by x ys) ≡ (p x || any p ys)
  unfolding insert_by
  any-insert_by p x [] = refl
  any-insert_by p x (y ∷ ys) = ground (arith, any-insert_by p x ys)

  pub any-sort_by : (p : A → Bool) (xs : List A) → any p (sort_by xs) ≡ any p xs
  unfolding sort_by
  any-sort_by p [] = refl
  any-sort_by p (x ∷ xs) = any-insert_by p x (sort_by xs) ∙ ap (λ b. p x || b) (any-sort_by p xs)

  pub All-insert_by {κ} :
      (P : A → Type κ) (x : A) (ys : List A) → P x → All P ys → All P (insert_by x ys)
  unfolding insert_by
  All-insert_by P x [] hx h = (hx, tt)
  All-insert_by P x (y ∷ ys) hx h = elim (Bool-cases (le x y)) [
    | inl e ↦ rw e (hx, h)
    | inr e ↦ rw e (h.0, All-insert_by P x ys hx h.1)
  ]

  pub All-sort_by {κ} : (P : A → Type κ) (xs : List A) → All P xs → All P (sort_by xs)
  unfolding sort_by
  All-sort_by P [] h = tt
  All-sort_by P (x ∷ xs) h = All-insert_by P x (sort_by xs) h.0 (All-sort_by P xs h.1)

  module _ (total : (a b : A) → le a b ≡ false → le b a ≡ true)
      (trans : (a b c : A) → le a b ≡ true → le b c ≡ true → le a c ≡ true) where
    insert_by-IsSorted : (x : A) (ys : List A) → IsSorted ys → IsSorted (insert_by x ys)
    unfolding insert_by
    insert_by-IsSorted x [] h = (tt, tt)
    insert_by-IsSorted x (y ∷ ys) h = elim (Bool-cases (le x y)) [
      | inl e ↦ rw e ((e, All-map _ _ (λ z. trans x y z e) ys h.0), h)
      | inr e ↦ rw e (All-insert_by _ x ys (total x y e) h.0, insert_by-IsSorted x ys h.1)
    ]

    pub sort_by-IsSorted : (xs : List A) → IsSorted (sort_by xs)
    unfolding sort_by
    sort_by-IsSorted [] = tt
    sort_by-IsSorted (x ∷ xs) = insert_by-IsSorted x (sort_by xs) (sort_by-IsSorted xs)

  -- A list in order is left as it is.
  pub insert_by_least :
      (x : A) (ys : List A) → All (λ y. le x y ≡ true) ys → insert_by x ys ≡ x ∷ ys
  unfolding insert_by
  insert_by_least x [] h = refl
  insert_by_least x (y ∷ ys) h = rw h.0

  pub sort_by_of_IsSorted : (xs : List A) → IsSorted xs → sort_by xs ≡ xs
  unfolding sort_by
  sort_by_of_IsSorted [] h = refl
  sort_by_of_IsSorted (x ∷ xs) h = rw (sort_by_of_IsSorted xs h.1) (insert_by_least x xs h.0)

-- Sorting and filtering commute, and what sorts first goes first.
module _ {ℓ} {A : Type ℓ} (le : A → A → Bool) (total : (a b : A) → le a b ≡ false → le b a ≡ true)
    (trans : (a b c : A) → le a b ≡ true → le b c ≡ true → le a c ≡ true) where
  keep-insert_by :
      (p : A → Bool) (x : A) (ys : List A)
      → IsSorted le ys
      → keep p (insert_by le x ys) ≡ (if p x then insert_by le x (keep p ys) else keep p ys)
  unfolding insert_by
  keep-insert_by p x [] h = ground arith
  keep-insert_by p x (y ∷ ys) h = elim (Bool-cases (le x y)) [
    | inl e ↦ ground (
      arith,
      insert_by_least le x (keep p ys) (All-keep _ p ys (All-map _ _ (λ z. trans x y z e) ys h.0)),
    )
    | inr e ↦ ground (arith, keep-insert_by p x ys h.1)
  ]

  pub keep-sort_by : (p : A → Bool) (xs : List A) → keep p (sort_by le xs) ≡ sort_by le (keep p xs)
  unfolding sort_by
  keep-sort_by p [] = refl
  keep-sort_by p (x ∷ xs) = ground (
    arith,
    keep-insert_by p x (sort_by le xs) (sort_by-IsSorted le total trans xs),
    keep-sort_by p xs,
  )

-- Under an order of which no two elements are equal, sorting forgets the order of its input.
module _ {ℓ} {A : Type ℓ} (le : A → A → Bool) (total : (a b : A) → le a b ≡ false → le b a ≡ true)
    (trans : (a b c : A) → le a b ≡ true → le b c ≡ true → le a c ≡ true)
    (antisym : (a b : A) → le a b ≡ true → le b a ≡ true → a ≡ b) where
  insert_by-insert_by :
      (x y : A) (zs : List A)
      → insert_by le x (insert_by le y zs) ≡ insert_by le y (insert_by le x zs)
  unfolding insert_by
  insert_by-insert_by x y [] = ground (arith, total x y, antisym x y)
  insert_by-insert_by x y (z ∷ zs) =
      ground (arith, total x y, antisym x y, trans x y z, trans y x z, insert_by-insert_by x y zs)

  pub sort_by_of_Perm : {xs ys : List A} → Permᴰ xs ys → sort_by le xs ≡ sort_by le ys
  unfolding sort_by
  sort_by_of_Perm Permᴰ.nil = refl
  sort_by_of_Perm (Permᴰ.cons {a = a} {b = b} {l₁ = l₁} e d) =
      ap (λ c. insert_by le c (sort_by le l₁)) e ∙ ap (insert_by le b) (sort_by_of_Perm d)
  sort_by_of_Perm (Permᴰ.swap {a = a} {b = b} {a' = a'} {b' = b'} {l = l} e f) =
      ap (λ c. insert_by le c (insert_by le b (sort_by le l))) e
      ∙ ap (λ c. insert_by le b' (insert_by le c (sort_by le l))) f
      ∙ insert_by-insert_by b' a' (sort_by le l)
  sort_by_of_Perm (Permᴰ.trans d₁ d₂) = sort_by_of_Perm d₁ ∙ sort_by_of_Perm d₂
