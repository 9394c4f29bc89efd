-- ===== src/Session/Framing.antt =====
-- What `read_frame` of daemon/src/session.rs reads, whatever buffers the bytes arrive in.
use rldyour_clipboard.Io.{invalid_data, Input, Io, flat, bytes_of, flat-consume}
use rldyour_clipboard.Proto.{max_frame}
use rldyour_clipboard.Session.Frames.{position, line_of, decoded, read_frame_from, read_frame}
use rldyour_clipboard.Prelude.{
  ℕ, zero, suc, ◌+◌, ◌≤◌, ◌<◌, ◌≡◌, sym, ap, subst, inl, inr, true, false, Option, none, some, List,
  [], ◌∷◌, ◌++◌, append_assoc, arith, ltb, if◌then◌else◌, Bool-cases, Option-cases, ok, err, length,
  take, drop, All, length-append, length-take, Text,
}

abbrev extend : List ℕ → Option (List ℕ × List ℕ) → Option (List ℕ × List ℕ)
extend b none = none
extend b (some (line, rest)) = some (b ++ line, rest)

line_of-none : (b r : List ℕ) → position b ≡ none → line_of (b ++ r) ≡ extend b (line_of r)
unfolding position
line_of-none [] r h = elim (Option-cases (line_of r)) [ inl e ↦ rw e | inr (p, e) ↦ rw e ]
line_of-none (x ∷ b) r h = ground (arith, line_of-none b r, Option-cases (line_of r))

line_of-some :
    (b r : List ℕ) (i : ℕ)
    → position b ≡ some i
    → line_of (b ++ r) ≡ some (take i b, drop (suc i) b ++ r)
unfolding position
line_of-some [] r i h = cc
line_of-some (x ∷ b) r zero h = ground arith
line_of-some (x ∷ b) r (suc i) h = ground (arith, line_of-some b r i)

position_lt : (b : List ℕ) (i : ℕ) → position b ≡ some i → i < length b
unfolding position
position_lt [] i h = cc
position_lt (x ∷ b) zero h = omega arith
position_lt (x ∷ b) (suc i) h = ground (arith, position_lt b i)

module _ (from_utf8 : List ℕ → Option Text) where
  -- What a frame is: a line of at most `max_frame` bytes that is UTF-8, read behind the bytes
  -- `frame`. Bytes with no newline are no frame, and are refused once they are too many.
  abbrev pub frame_result : List ℕ → Option (List ℕ × List ℕ) → List ℕ → Io (Option Text)
  frame_result frame none bytes =
      if ltb max_frame (length frame + length bytes) then err invalid_data else ok none
  frame_result frame (some (line, rest)) bytes =
      if ltb max_frame (length frame + length line)
      then err invalid_data
      else decoded from_utf8 (from_utf8 (frame ++ line))

  frame_result-extend :
      (frame b : List ℕ) (l : Option (List ℕ × List ℕ)) (r : List ℕ)
      → frame_result (frame ++ b) l r ≡ frame_result frame (extend b l) (b ++ r)
  frame_result-extend frame b none r = ground (arith, length-append frame b, length-append b r)
  frame_result-extend frame b (some (line, rest)) r =
      ground (arith, length-append frame b, length-append b line, append_assoc frame b line)

  frame_result_long :
      (frame : List ℕ) (l : Option (List ℕ × List ℕ)) (r : List ℕ)
      → ltb max_frame (length frame) ≡ true
      → frame_result frame l r ≡ err invalid_data
  frame_result_long frame none r h = ground arith
  frame_result_long frame (some (line, rest)) r h = ground arith

  -- Over a stream that does not fail, a frame depends on the bytes alone and not on how they are
  -- buffered: it is what stands in front of the first newline, if that is at most `max_frame` bytes
  -- of UTF-8. A longer line, or as many bytes with no newline, is an error; a stream that ends
  -- first has no frame.
  pub read_frame_from_lem :
      (frame : List ℕ) (bs : List (List ℕ))
      → All (λ b. 0 < length b) bs
      → length frame ≤ max_frame
      → (read_frame_from from_utf8 false frame bs).0
        ≡ frame_result frame (line_of (flat bs)) (flat bs)
  unfolding read_frame_from flat
  read_frame_from_lem frame [] h fits = ground arith
  read_frame_from_lem frame (b ∷ bs) h fits = elim (Option-cases (position b)) [
    | inl e ↦
        rw
          (
            e,
            line_of-none b (flat bs) e,
            ← frame_result-extend frame b (line_of (flat bs)) (flat bs),
          )
          (elim (Bool-cases (ltb max_frame (length (frame ++ b)))) [
            | inl long ↦
                ground
                  (arith, h.0, frame_result_long (frame ++ b) (line_of (flat bs)) (flat bs) long)
            | inr short ↦
                ground (arith, h.0, read_frame_from_lem (frame ++ b) bs h.1 (ground arith))
          ])
    | inr (i, e) ↦
        rw (e, line_of-some b (flat bs) i e)
          (ground (arith, length-take i b, position_lt b i e, h.0))
  ]

  -- A frame that is read takes its line and the newline off the stream, and no byte behind it.
  pub read_frame_from_rest :
      (frame : List ℕ) (bs : List (List ℕ)) (line rest : List ℕ) (s : Text)
      → All (λ b. 0 < length b) bs
      → line_of (flat bs) ≡ some (line, rest)
      → (read_frame_from from_utf8 false frame bs).0 ≡ ok (some s)
      → flat (read_frame_from from_utf8 false frame bs).1 ≡ rest
  unfolding read_frame_from flat
  read_frame_from_rest frame [] line rest s h e k = cc
  read_frame_from_rest frame (b ∷ bs) line rest s h e k = elim (Option-cases (position b)) [
    | inl p ↦ elim (Option-cases (line_of (flat bs))) [
      | inl q ↦ absurd (ground (arith, line_of-none b (flat bs) p))
      | inr ((l, r), q) ↦
          ground (
            arith,
            h.0,
            line_of-none b (flat bs) p,
            read_frame_from_rest (frame ++ b) bs l r s h.1 q,
          )
    ]
    | inr (i, p) ↦
        let next : i + 1 ≡ suc i = omega arith in
        ground (
          arith,
          h.0,
          next,
          line_of-some b (flat bs) i p,
          position_lt b i p,
          flat-consume (i + 1) b bs (omega (arith, position_lt b i p)),
          ap (λ n. drop n b) next,
        )
  ]

  -- Over a stream that does not fail, the result of `read_frame` depends on the bytes alone and not
  -- on how they are buffered: the frame is what stands in front of the first newline, if that is
  -- at most `max_frame` bytes of UTF-8; a longer line, or as many bytes with no newline, is an
  -- error; a stream that ends first has no frame.
  pub read_frame_lem :
      (input : Input)
      → input.broken ≡ false
      → All (λ b. 0 < length b) input.buffers
      → (read_frame from_utf8 input).0 ≡ frame_result [] (line_of (bytes_of input)) (bytes_of input)
  unfolding read_frame
  read_frame_lem input sound h = rw sound (read_frame_from_lem [] input.buffers h (omega arith))

  -- A frame that is read takes its line and the newline off the stream, and no byte behind it.
  pub bytes-read_frame :
      (input : Input) (line rest : List ℕ) (s : Text)
      → input.broken ≡ false
      → All (λ b. 0 < length b) input.buffers
      → line_of (bytes_of input) ≡ some (line, rest)
      → (read_frame from_utf8 input).0 ≡ ok (some s)
      → bytes_of (read_frame from_utf8 input).1 ≡ rest
  unfolding read_frame
  bytes-read_frame input line rest s sound h e k =
      subst (λ b. flat (read_frame_from from_utf8 b [] input.buffers).1 ≡ rest) (sym sound)
        (read_frame_from_rest [] input.buffers line rest s h e
          (subst (λ b. (read_frame_from from_utf8 b [] input.buffers).0 ≡ ok (some s)) sound k))
