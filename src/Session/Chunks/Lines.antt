-- ===== src/Session/Chunks/Lines.antt =====
-- How the frames of daemon/src/session.rs are read off a stream of which the bytes are known.
use rldyour_clipboard.Io.{
  Input, Occupied, bytes_of, drain, drain_buffers, flat-drain_buffers, drain_buffers_ok,
}
use rldyour_clipboard.Proto.{max_frame}
use rldyour_clipboard.Blobs.Pieces.{consume-Occupied}
use rldyour_clipboard.Session.Frames.{newline, line_of, position, read_frame, read_frame_from}
use rldyour_clipboard.Session.Framing.{read_frame_lem, bytes-read_frame, frame_result}
use rldyour_clipboard.Prelude.{
  ℕ, ◌+◌, ◌-◌, ◌≤◌, ◌≡◌, refl, ap, ◌∙◌, inl, inr, Bool, false, Option, some, List, [], ◌∷◌, ◌++◌,
  arith, ltb, leb, ◌==◌, Bool-cases, Option-cases, ok, length, drop, any, All, Text,
}

-- A stream that ends where it does, and never shows an empty buffer in front.
abbrev pub IsClean : Input → Type 0
IsClean input = (input.broken ≡ false) × All Occupied input.buffers

drain_buffers-Occupied :
    (broken : Bool) (bs : List (List ℕ)) (n : ℕ)
    → All Occupied bs
    → All Occupied (drain_buffers broken bs n).1
unfolding drain_buffers
drain_buffers-Occupied broken [] n h = tt
drain_buffers-Occupied broken (b ∷ bs) n h = elim (Bool-cases (n == 0)) [
  | inl z ↦ rw z h
  | inr nz ↦ elim (Bool-cases (leb n (length b))) [
    | inl small ↦ rw (nz, small) (consume-Occupied n b bs h.1)
    | inr large ↦ rw (nz, large) (drain_buffers-Occupied broken bs (n - length b) h.1)
  ]
]

-- A drain of bytes that the stream holds.
pub drained :
    (input : Input) (n : ℕ)
    → IsClean input
    → n ≤ length (bytes_of input)
    → ((drain input n).0 ≡ ok tt)
      × (bytes_of (drain input n).1 ≡ drop n (bytes_of input))
      × IsClean (drain input n).1
unfolding drain
drained input n c h = (
  drain_buffers_ok input.broken input.buffers n (inl h),
  flat-drain_buffers input.broken input.buffers n,
  (c.0, drain_buffers-Occupied input.broken input.buffers n c.1),
)

line_of-append :
    (line rest : List ℕ)
    → any (λ b. b == newline) line ≡ false
    → line_of (line ++ newline ∷ rest) ≡ some (line, rest)
line_of-append [] rest h = refl
line_of-append (b ∷ line) rest h = ground (arith, line_of-append line rest)

module _ (from_utf8 : List ℕ → Option Text) where
  read_frame_from-Occupied :
      (broken : Bool) (frame : List ℕ) (bs : List (List ℕ))
      → All Occupied bs
      → All Occupied (read_frame_from from_utf8 broken frame bs).1
  unfolding read_frame_from
  read_frame_from-Occupied broken frame [] h = tt
  read_frame_from-Occupied broken frame (b ∷ bs) h = elim (Bool-cases (length b == 0)) [
    | inl z ↦ rw z h
    | inr nz ↦ elim (Option-cases (position b)) [
      | inl e ↦ elim (Bool-cases (ltb max_frame (length (frame ++ b)))) [
        | inl long ↦ rw (nz, e, long) h.1
        | inr short ↦ rw (nz, e, short) (read_frame_from-Occupied broken (frame ++ b) bs h.1)
      ]
      | inr (end, e) ↦ elim (Bool-cases (ltb max_frame (length frame + end))) [
        | inl long ↦ rw (nz, e, long) h
        | inr short ↦ rw (nz, e, short) (consume-Occupied (end + 1) b bs h.1)
      ]
    ]
  ]

  -- A line of a stream is read as a frame, and the stream stands behind its newline.
  pub read_line :
      (input : Input) (line rest : List ℕ) (s : Text)
      → IsClean input
      → bytes_of input ≡ line ++ newline ∷ rest
      → any (λ b. b == newline) line ≡ false
      → length line ≤ max_frame
      → from_utf8 line ≡ some s
      → ((read_frame from_utf8 input).0 ≡ ok (some s))
        × (bytes_of (read_frame from_utf8 input).1 ≡ rest)
        × IsClean (read_frame from_utf8 input).1
  read_line input line rest s c e one fits spelled =
      let found : line_of (bytes_of input) ≡ some (line, rest) =
        ap line_of e ∙ line_of-append line rest one in
      let got : (read_frame from_utf8 input).0 ≡ ok (some s) =
        read_frame_lem from_utf8 input c.0 c.1
        ∙ ap (λ l. frame_result from_utf8 [] l (bytes_of input)) found
        ∙ ground (arith, spelled, fits) in
      (
        got,
        bytes-read_frame from_utf8 input line rest s c.0 c.1 found got,
        unfold read_frame in (c.0, read_frame_from-Occupied input.broken [] input.buffers c.1),
      )
