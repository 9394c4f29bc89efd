-- ===== src/Session/Frames.antt =====
-- `read_frame` of daemon/src/session.rs. `from_utf8` is `String::from_utf8`: the characters that the
-- bytes of a frame spell, or none.
use rldyour_clipboard.Io.{invalid_data, other, Input, Io, consume}
use rldyour_clipboard.Proto.{max_frame}
use rldyour_clipboard.Prelude.{
  ℕ, suc, ◌+◌, Bool, Option, none, some, List, [], ◌∷◌, ◌++◌, ltb, ◌==◌, if◌then◌else◌, ok, err,
  length, take, Text,
}

abbrev pub newline : ℕ
newline = b'\n'

-- `iter().position(|byte| *byte == b'\n')`
unfoldable pub position : List ℕ → Option ℕ
position [] = none
position (b ∷ bs) =
    if b == newline then some 0 else elim (position bs) [ none ↦ none | some i ↦ some (suc i) ]

-- The bytes in front of the first newline, and those behind it.
abbrev pub line_of : List ℕ → Option (List ℕ × List ℕ)
line_of [] = none
line_of (b ∷ bs) =
    if b == newline
    then some ([], bs)
    else elim (line_of bs) [ none ↦ none | some (line, rest) ↦ some (b ∷ line, rest) ]

module _ (from_utf8 : List ℕ → Option Text) where
  abbrev pub decoded : Option Text → Io (Option Text)
  decoded none = err invalid_data
  decoded (some s) = ok (some s)

  -- The loop of `read_frame`, with the bytes of the frame so far.
  unfoldable pub read_frame_from : Bool → List ℕ → List (List ℕ) → Io (Option Text) × List (List ℕ)
  unfolding position consume
  read_frame_from broken frame [] = (if broken then err other else ok none, [])
  read_frame_from broken frame (available ∷ rest) =
      let more = read_frame_from broken (frame ++ available) rest in
      if length available == 0 then (ok none, available ∷ rest) else elim (position available) [
        | some end ↦
            if ltb max_frame (length frame + end) then (err invalid_data, available ∷ rest) else (
              decoded (from_utf8 (frame ++ take end available)),
              consume (end + 1) available rest,
            )
        | none ↦
            if ltb max_frame (length (frame ++ available)) then (err invalid_data, rest) else more
      ]

  unfoldable pub read_frame : Input → Io (Option Text) × Input
  unfolding read_frame_from
  read_frame input =
      let out = read_frame_from input.broken [] input.buffers in
      (out.0, record input { buffers = out.1 })
