-- ===== src/Session/Pages/Encoded.antt =====
-- The reply to `list` of daemon/src/session.rs as the frame that is sent. `json` is the writer of an
-- item and `decimal` that of a number.
use rldyour_clipboard.Io.{Io}
use rldyour_clipboard.Proto.{Response, Summary, list, max_frame}
use rldyour_clipboard.Outbox.{send}
use rldyour_clipboard.Session.Pages.{
  list_reply, frame_bytes, requested, weight, framed-weight, list_reply-most, list_reply_lem,
}
use rldyour_clipboard.Prelude.{
  ℕ, suc, ◌+◌, ◌≤◌, ◌<◌, ◌≡◌, refl, ap, ◌⊎◌, inl, inr, Bool, true, false, ◌||◌, Option, List, [],
  ◌∷◌, ◌++◌, map, arith, ltb, leb, length, take, length-append, codes,
}

-- The items of an array, with a comma between two.
unfoldable pub joined : List (List ℕ) → List ℕ
joined [] = []
joined (item ∷ []) = item
joined (item ∷ next ∷ items) = item ++ (b',' ∷ joined (next ∷ items))

abbrev pub spelled : Bool → List ℕ
spelled true = codes "true"
spelled false = codes "false"

-- `Response::List` in JSON, with its newline.
abbrev pub list_frame : List ℕ → List (List ℕ) → Bool → List ℕ
list_frame number items more =
    codes "{\"ev\":\"list\",\"req\":"
    ++ (number
        ++ (codes ",\"items\":["
            ++ (joined items ++ (codes "],\"more\":" ++ (spelled more ++ codes "}\n")))))

length-spelled : (more : Bool) → length (spelled more) ≤ 5
length-spelled true = omega arith
length-spelled false = omega arith

length-list_frame :
    (number : List ℕ) (items : List (List ℕ)) (more : Bool)
    → length (list_frame number items more)
      ≡ 40 + length number + length (joined items) + length (spelled more)
length-list_frame number items more =
    let end = spelled more ++ codes "}\n" in
    let closing = codes "],\"more\":" ++ end in
    omega (
      arith,
      length-append (codes "{\"ev\":\"list\",\"req\":")
          (number ++ (codes ",\"items\":[" ++ (joined items ++ closing))),
      length-append number (codes ",\"items\":[" ++ (joined items ++ closing)),
      length-append (codes ",\"items\":[") (joined items ++ closing),
      length-append (joined items) closing,
      length-append (codes "],\"more\":") end,
      length-append (spelled more) (codes "}\n"),
    )

module _ (json : Summary → List ℕ) where
  abbrev pub json_size : Summary → ℕ
  json_size item = length (json item)

  joined-weight :
      (items : List Summary)
      → (length (joined (map json items)) ≤ weight json_size items)
        × (weight json_size items ≤ length (joined (map json items)) + 1)
  unfolding joined weight
  joined-weight [] = (omega arith, omega arith)
  joined-weight (item ∷ []) = (omega arith, omega arith)
  joined-weight (item ∷ next ∷ items) =
      let rest = joined-weight (next ∷ items) in
      let split = length-append (json item) (b',' ∷ joined (map json (next ∷ items))) in
      (omega (arith, rest.0, split), omega (arith, rest.1, split))

  -- Where a frame of JSON is the reply's, and the number of a request has at most 20 digits, as an
  -- u64 has, the reply to `list` is a frame within the limit, so that `send` gives it to the socket. It
  -- holds the first items of the page and says whether there may be more, and it is the whole page, or
  -- a frame with one more item would come within 128 bytes of the limit or pass it.
  pub list_reply-sends :
      (decimal : ℕ → List ℕ) (encode : Response → List ℕ)
      (write_all : List ℕ → List ℕ → Io (Unit {0}) × List ℕ) (wire : List ℕ) (req : ℕ)
      (limit : Option ℕ) (items : List Summary)
      → ((is : List Summary) (more : Bool)
          → encode (list req is more) ≡ list_frame (decimal req) (map json is) more)
      → length (decimal req) ≤ 20
      → let out : List Summary × Bool = list_reply json_size limit items in
        (length (encode (list req out.0 out.1)) ≤ max_frame)
        × (send encode write_all wire (list req out.0 out.1)
            ≡ write_all wire (encode (list req out.0 out.1)))
        × (out.0 ≡ take (length out.0) items)
        × (out.1 ≡ (ltb (length out.0) (length items) || leb (requested limit) (length items)))
        × ((out.0 ≡ items)
            ⊎ (max_frame < 128 + length (encode (list req (take (suc (length out.0)) items) true))))
  unfolding send
  list_reply-sends decimal encode write_all wire req limit items encodes digits =
      let out : List Summary × Bool = list_reply json_size limit items in
      let cut = list_reply_lem json_size limit items in
      let frame = encode (list req out.0 out.1) in
      let fits : length frame ≤ max_frame = omega (
        arith,
        ap length (encodes out.0 out.1),
        length-list_frame (decimal req) (map json out.0) out.1,
        length-spelled out.1,
        digits,
        (joined-weight out.0).0,
        cut.1,
        framed-weight json_size frame_bytes out.0,
      ) in
      let sent : ltb max_frame (length frame) ≡ false = ground (arith, fits) in
      (
        fits,
        rw sent refl,
        cut.0,
        cut.2,
        elim (list_reply-most json_size limit items) [
          | inl whole ↦ inl whole
          | inr large ↦
              let next = take (suc (length out.0)) items in
              inr (
                omega (
                  arith,
                  large,
                  (joined-weight next).1,
                  ap length (encodes next true),
                  length-list_frame (decimal req) (map json next) true,
                ))
        ],
      )
