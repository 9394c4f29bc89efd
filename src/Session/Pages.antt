-- ===== src/Session/Pages.antt =====
-- daemon/src/session.rs: the reply to `list`, cut to what fits a frame. `size` is the length of an
-- item's JSON.
pub mod Encoded
use rldyour_clipboard.Proto.{Summary, max_frame}
use rldyour_clipboard.Index.Listing.{clamp_limit}
use rldyour_clipboard.Prelude.{
  ℕ, zero, suc, ◌+◌, ◌≤◌, ◌<◌, ◌≡◌, refl, sym, ap, subst, inl, inr, Bool, true, ◌||◌, Option, none,
  some, List, [], ◌∷◌, arith, ltb, leb, if◌then◌else◌, Bool-cases, length, take, length-take,
  ltb→lt, ◌⊎◌, ltb→lt, ◌⊎◌,
}

-- What the code allows for the frame around its items.
abbrev pub frame_bytes : ℕ
frame_bytes = 128

abbrev pub default_page : ℕ
default_page = 50

abbrev pub requested : Option ℕ → ℕ
requested none = clamp_limit default_page
requested (some limit) = clamp_limit limit

module _ (size : Summary → ℕ) where
  -- The loop that counts the items that fit, with the bytes so far.
  unfoldable pub fitting : ℕ → List Summary → ℕ
  fitting bytes [] = 0
  fitting bytes (item ∷ items) =
      let counted = bytes + (size item + 1) in
      let more = fitting counted items in if ltb max_frame counted then 0 else suc more

  -- The items of the reply, and whether there may be more behind them.
  unfoldable pub list_reply : Option ℕ → List Summary → List Summary × Bool
  unfolding fitting
  list_reply limit items =
      let fits = fitting frame_bytes items in
      if ltb fits (length items)
      then (take fits items, true)
      else (items, leb (requested limit) (length items))

  -- The code's count of the bytes of a frame with these items.
  abbrev pub framed : ℕ → List Summary → ℕ
  framed bytes [] = bytes
  framed bytes (item ∷ items) = framed (bytes + (size item + 1)) items

  fitting-framed :
      (bytes : ℕ) (items : List Summary)
      → bytes ≤ max_frame
      → framed bytes (take (fitting bytes items) items) ≤ max_frame
  unfolding fitting
  fitting-framed bytes [] h = h
  fitting-framed bytes (item ∷ items) h =
      elim (Bool-cases (ltb max_frame (bytes + (size item + 1)))) [
        | inl e ↦ rw e h
        | inr e ↦ rw e (fitting-framed (bytes + (size item + 1)) items (ground (arith, e)))
      ]

  -- The bytes that the items take, each with its comma.
  unfoldable pub weight : List Summary → ℕ
  weight [] = 0
  weight (item ∷ items) = size item + 1 + weight items

  pub framed-weight : (bytes : ℕ) (items : List Summary) → framed bytes items ≡ bytes + weight items
  unfolding weight
  framed-weight bytes [] = omega arith
  framed-weight bytes (item ∷ items) = omega (arith, framed-weight (bytes + (size item + 1)) items)

  -- The count stops only before an item that does not fit.
  pub fitting-most :
      (bytes : ℕ) (items : List Summary)
      → fitting bytes items < length items
      → max_frame < bytes + weight (take (suc (fitting bytes items)) items)
  unfolding fitting weight
  fitting-most bytes [] h = absurd (omega (arith, h))
  fitting-most bytes (item ∷ items) h =
      let counted = bytes + (size item + 1) in
      elim (Bool-cases (ltb max_frame counted)) [
        | inl e ↦ rw e (ground (arith, e))
        | inr e ↦
            let shorter : suc (fitting counted items) < suc (length items) = rw e at h in
            rw e (omega (arith, fitting-most counted items (omega (arith, shorter))))
      ]

  pub fitting-le : (bytes : ℕ) (items : List Summary) → fitting bytes items ≤ length items
  unfolding fitting
  fitting-le bytes [] = omega arith
  fitting-le bytes (item ∷ items) = ground (arith, fitting-le (bytes + (size item + 1)) items)

  pub take-all : (n : ℕ) (items : List Summary) → n ≡ length items → take n items ≡ items
  take-all zero [] h = refl
  take-all zero (x ∷ xs) h = absurd (omega (arith, h))
  take-all (suc n) [] h = refl
  take-all (suc n) (x ∷ xs) h = ap (λ r. x ∷ r) (take-all n xs (omega (arith, h)))

  -- The items of a reply are the first of the page, the code's count of them is within the limit, and a
  -- reply that leaves items
  -- out says that there is more, as does a full page.
  pub list_reply_lem :
      (limit : Option ℕ) (items : List Summary)
      → let out : List Summary × Bool = list_reply limit items in
        (out.0 ≡ take (length out.0) items)
        × (framed frame_bytes out.0 ≤ max_frame)
        × (out.1 ≡ (ltb (length out.0) (length items) || leb (requested limit) (length items)))
  unfolding list_reply
  list_reply_lem limit items =
      let fits = fitting frame_bytes items in
      let room = fitting-framed frame_bytes items (omega arith) in
      let count : length (take fits items) ≡ fits =
        ground (arith, length-take fits items, fitting-le frame_bytes items) in
      elim (Bool-cases (ltb fits (length items))) [
        | inl e ↦ rw e (ap (λ n. take n items) (sym count), room, ground (arith, e, count))
        | inr e ↦
            let whole : fits ≡ length items = ground (arith, e, fitting-le frame_bytes items) in
            rw e (
              sym (take-all (length items) items refl),
              subst (λ is. framed frame_bytes is ≤ max_frame) (take-all fits items whole) room,
              ground arith,
            )
      ]

  -- Items are left out only where the next one does not fit the code's count.
  pub list_reply-most :
      (limit : Option ℕ) (items : List Summary)
      → let out : List Summary × Bool = list_reply limit items in
        (out.0 ≡ items) ⊎ (max_frame < frame_bytes + weight (take (suc (length out.0)) items))
  unfolding list_reply
  list_reply-most limit items =
      let fits = fitting frame_bytes items in
      elim (Bool-cases (ltb fits (length items))) [
        | inl e ↦
            let count : length (take fits items) ≡ fits =
              ground (arith, length-take fits items, fitting-le frame_bytes items) in
            rw (e, count) (inr (fitting-most frame_bytes items (ltb→lt _ _ e)))
        | inr e ↦ rw e (inl refl)
      ]
