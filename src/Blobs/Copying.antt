-- ===== src/Blobs/Copying.antt =====
-- What `Writer::absorb` of daemon/src/store/blobs.rs takes off the stream.
use rldyour_clipboard.Io.{
  IoError, unexpected_eof, other, Input, Io, flat, bytes_of, read, consume, Occupied,
}
use rldyour_clipboard.Blobs.{Copied, copy_buffer, absorb_from, absorb}
use rldyour_clipboard.Blobs.Pieces.{
  take-split, drop-drop, consume-Occupied, piece_length, piece_of_stream, piece_behind,
}
use rldyour_clipboard.Prelude.{
  ℕ, zero, suc, ◌+◌, ◌-◌, ◌≤◌, min, ◌≡◌, refl, sym, ap, ◌∙◌, subst, ◌≢◌, ◌⊎◌, inl, inr, Bool, true,
  false, List, [], ◌∷◌, ◌++◌, append-nil, append_assoc, arith, ◌==◌, Bool-cases, ok, err, length,
  take, drop, All, length-append, length-take, length-drop,
}

-- The outcome of a copy of `remaining` bytes: it took `k` of them off the stream, all of them where
-- it succeeded.
abbrev pub Takes : Input → List ℕ → ℕ → ℕ → Copied → ℕ → Type 0
Takes input content remaining taken out k =
    (k ≤ remaining)
    × (out.read ≡ taken + k)
    × (bytes_of out.input ≡ drop k (bytes_of input))
    × (out.input.broken ≡ input.broken)
    × All Occupied out.input.buffers
    × (out.result ≡ ok tt
        → (k ≡ remaining)
          × (remaining ≤ length (bytes_of input))
          × (out.content ≡ content ++ take remaining (bytes_of input)))

-- A piece of `n` bytes in front of a copy of the others.
Takes-step :
    (input next : Input) (content piece : List ℕ) (remaining taken n k : ℕ) (out : Copied)
    → n ≤ remaining
    → n ≤ length (bytes_of input)
    → piece ≡ take n (bytes_of input)
    → bytes_of next ≡ drop n (bytes_of input)
    → next.broken ≡ input.broken
    → Takes next (content ++ piece) (remaining - n) (taken + n) out k
    → Takes input content remaining taken out (n + k)
Takes-step input next content piece remaining taken n k out hr hl hp hn hb
      (ka, kb, kc, kd, ke, kf) =
    (
      omega arith,
      omega (arith, kb),
      kc ∙ ap (drop k) hn ∙ drop-drop n k (bytes_of input),
      kd ∙ hb,
      ke,
      λ e.
          let rest = kf e in
          let behind : length (bytes_of next) ≡ length (bytes_of input) - n =
            ap length hn ∙ length-drop n (bytes_of input) in
          (
            omega (arith, rest.0),
            omega (arith, rest.1, behind),
            rest.2
                ∙ ap (λ r. (content ++ piece) ++ take (remaining - n) r) hn
                ∙ append_assoc content piece (take (remaining - n) (drop n (bytes_of input)))
                ∙ ap (λ r. content ++ (r ++ take (remaining - n) (drop n (bytes_of input)))) hp
                ∙ ap (λ r. content ++ r) (take-split n remaining (bytes_of input) hr),
          ),
    )

abbrev of_buffers : List (List ℕ) → Bool → Input
of_buffers bs broken = record { buffers = bs; broken = broken }

Takes-stop :
    (input next : Input) (content : List ℕ) (remaining taken n : ℕ) (result : Io (Unit {0}))
    → n ≤ remaining
    → bytes_of next ≡ drop n (bytes_of input)
    → next.broken ≡ input.broken
    → All Occupied next.buffers
    → (result ≡ ok tt → (remaining ≡ 0) × (n ≡ 0))
    → Takes input content remaining taken
        (record { result = result; input = next; content = content; read = taken + n })
        n
Takes-stop input next content remaining taken n result hn hb hbr ho hr = (
  hn,
  refl,
  hb,
  hbr,
  ho,
  λ e.
      let z = hr e in
      (
        omega (arith, z.0, z.1),
        omega (arith, z.0),
        sym (append-nil content) ∙ ap (λ k. content ++ take k (bytes_of input)) (sym z.0),
      ),
)

Takes-none :
    (input : Input) (content : List ℕ) (remaining taken : ℕ) (result : Io (Unit {0}))
    → All Occupied input.buffers
    → (result ≡ ok tt → remaining ≡ 0)
    → Takes input content remaining taken
        (record { result = result; input = input; content = content; read = taken })
        0
Takes-none input content remaining taken result ho hr =
    subst
      (λ t.
        Takes input content remaining taken
          (record { result = result; input = input; content = content; read = t }) 0)
      (let e : taken + 0 ≡ taken = omega arith in e)
      (Takes-stop input input content remaining taken 0 result (omega arith) refl refl ho
        (λ e. (hr e, refl)))

not_ok : (e : IoError) → err e ≢ ok (tt {0})
not_ok e h = cc h

pub written-cases : (r : Io (Unit {0})) → ((e : IoError) × (r ≡ err e)) ⊎ (r ≡ ok tt)
written-cases (err e) = inl (e, refl)
written-cases (ok tt) = inr refl

module _ (write_all : List ℕ → List ℕ → Io (Unit {0})) where
  absorb_from-Takes :
      (fuel : ℕ) (bs : List (List ℕ)) (broken : Bool) (content : List ℕ) (remaining taken : ℕ)
      → remaining ≤ fuel
      → All Occupied bs
      → (k : ℕ) × Takes
          (of_buffers bs broken)
          content
          remaining
          taken
          (absorb_from write_all fuel (of_buffers bs broken) content remaining taken)
          k
  unfolding absorb_from read flat
  absorb_from-Takes zero bs broken content remaining taken h o = (
    0,
    ground (
      arith,
      Takes-stop (of_buffers bs broken) (of_buffers bs broken) content remaining taken 0 (ok tt),
      append-nil content,
    ),
  )
  absorb_from-Takes (suc fuel) [] true content remaining taken h o =
      elim (Bool-cases (remaining == 0)) [
        | inl e ↦ (
          0,
          rw e (
              Takes-none (of_buffers [] true) content remaining taken (ok tt) o
                (λ r. ground arith)),
        )
        | inr e ↦ (
          0,
          rw e (
              Takes-none (of_buffers [] true) content remaining taken (err other) o
                (λ r. absurd (not_ok other r))),
        )
      ]
  absorb_from-Takes (suc fuel) [] false content remaining taken h o =
      elim (Bool-cases (remaining == 0)) [
        | inl e ↦ (
          0,
          rw e (
              Takes-none (of_buffers [] false) content remaining taken (ok tt) o
                (λ r. ground arith)),
        )
        | inr e ↦ (
          0,
          rw e (
              Takes-none (of_buffers [] false) content remaining taken (err unexpected_eof) o
                (λ r. absurd (not_ok unexpected_eof r))),
        )
      ]
  absorb_from-Takes (suc fuel) (b ∷ bs) broken content remaining taken h o =
      elim (Bool-cases (remaining == 0)) [
        | inl e ↦ (
          0,
          rw e (
              Takes-none (of_buffers (b ∷ bs) broken) content remaining taken (ok tt) o
                (λ r. ground arith)),
        )
        | inr e ↦
            let w = min remaining copy_buffer in
            let n = length (take w b) in
            let nz : (n == 0) ≡ false = ground (arith, length-take w b, o.0) in
            let next = of_buffers (consume w b bs) broken in
            let small : n ≤ remaining = ground (arith, piece_length w b) in
            elim (written-cases (write_all content (take w b))) [
              | inl (er, wr) ↦ (
                n,
                rw (e, nz, wr)
                    (Takes-stop (of_buffers (b ∷ bs) broken) next content remaining taken n (err er)
                      small (piece_behind w b bs) refl (consume-Occupied w b bs o.1)
                      (λ no. absurd (not_ok er no))),
              )
              | inr wr ↦
                  let later =
                    absorb_from-Takes fuel (consume w b bs) broken (content ++ take w b)
                      (remaining - n) (taken + n) (ground arith) (consume-Occupied w b bs o.1) in
                  (
                    n + later.0,
                    rw (e, nz, wr)
                        (Takes-step (of_buffers (b ∷ bs) broken) next content (take w b) remaining
                          taken n later.0 _ small
                          (ground (arith, piece_length w b, length-append b (flat bs)))
                          (piece_of_stream w b bs) (piece_behind w b bs) refl later.1),
                  )
            ]
      ]

  absorb_from_ok :
      (fuel : ℕ) (bs : List (List ℕ)) (broken : Bool) (content : List ℕ) (remaining taken : ℕ)
      → remaining ≤ fuel
      → All Occupied bs
      → remaining ≤ length (flat bs)
      → ((held piece : List ℕ) → write_all held piece ≡ ok tt)
      → (absorb_from write_all fuel (of_buffers bs broken) content remaining taken).result ≡ ok tt
  unfolding absorb_from read flat
  absorb_from_ok zero bs broken content remaining taken h o enough w = ground arith
  absorb_from_ok (suc fuel) [] broken content remaining taken h o enough w = ground arith
  absorb_from_ok (suc fuel) (b ∷ bs) broken content remaining taken h o enough w =
      elim (Bool-cases (remaining == 0)) [
        | inl e ↦ rw e refl
        | inr e ↦
            let width = min remaining copy_buffer in
            let n = length (take width b) in
            let nz : (n == 0) ≡ false = ground (arith, length-take width b, o.0) in
            let behind : length (flat (consume width b bs)) ≡ length (b ++ flat bs) - n =
              ap length (piece_behind width b bs) ∙ length-drop n (b ++ flat bs) in
            rw (e, nz, w content (take width b))
              (absorb_from_ok fuel (consume width b bs) broken (content ++ take width b)
                (remaining - n) (taken + n) (ground arith) (consume-Occupied width b bs o.1)
                (omega (arith, enough, behind)) w)
      ]

  pub absorb-Takes :
      (input : Input) (content : List ℕ) (bytes : ℕ)
      → All Occupied input.buffers
      → (k : ℕ) × Takes input content bytes 0 (absorb write_all input content bytes) k
  unfolding absorb
  absorb-Takes input content bytes o =
      absorb_from-Takes bytes input.buffers input.broken content bytes 0 (omega arith) o

  -- Where the disk takes what it is given and the stream holds the bytes, the copy succeeds.
  pub absorb_ok :
      (input : Input) (content : List ℕ) (bytes : ℕ)
      → All Occupied input.buffers
      → bytes ≤ length (bytes_of input)
      → ((held piece : List ℕ) → write_all held piece ≡ ok tt)
      → (absorb write_all input content bytes).result ≡ ok tt
  unfolding absorb
  absorb_ok input content bytes o enough w =
      absorb_from_ok bytes input.buffers input.broken content bytes 0 (omega arith) o enough w
