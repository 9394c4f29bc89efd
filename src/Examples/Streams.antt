-- ===== src/Examples/Streams.antt =====
-- Frames read from buffered bytes, as daemon/src/session.rs reads them.
use rldyour_clipboard.Io.{Input, flat, bytes_of}
use rldyour_clipboard.Session.Frames.{read_frame, line_of}
use rldyour_clipboard.Session.Framing.{frame_result, read_frame_lem, bytes-read_frame}
use rldyour_clipboard.Prelude.{◌≡◌, refl, false, some, [], ◌∷◌, arith, ok, codes}

-- A line that arrives in two buffers, the second with the first bytes of what follows.
abbrev split_line : Input
split_line = record { buffers = codes "{a" ∷ codes "}\nrest" ∷ []; broken = false }

split_line_read :
    read_frame (λ b. some b) split_line
    ≡ (ok (some (codes "{a}")), record { buffers = codes "rest" ∷ []; broken = false })
unfolding read_frame
split_line_read = refl

read_frame_lem_example :
    (read_frame (λ b. some b) split_line).0
    ≡ frame_result (λ b. some b) [] (line_of (bytes_of split_line)) (bytes_of split_line)
read_frame_lem_example = read_frame_lem (λ b. some b) split_line refl (omega arith)

bytes-read_frame_example : bytes_of (read_frame (λ b. some b) split_line).1 ≡ codes "rest"
unfolding read_frame flat
bytes-read_frame_example =
    bytes-read_frame (λ b. some b) split_line (codes "{a}") (codes "rest") (codes "{a}") refl
      (omega arith) refl refl
