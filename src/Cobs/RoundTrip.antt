-- ===== src/Cobs/RoundTrip.antt =====
-- Decoding what was encoded.
use embedded_serial_filler.Base.{
  ℕ, zero, suc, ◌+◌, ◌-◌, ◌≤◌, ◌<◌, ◌≡◌, refl, ◌∙◌, ap, List, [], ◌∷◌, ◌++◌, length, length-append,
  take_all, drop_all, append_assoc, append-nil, All, All-append, IsByte, ok, arith,
}
use embedded_serial_filler.Definitions.{max_packet_size, success}
use embedded_serial_filler.Etl.{Etl}
use embedded_serial_filler.Cobs.Decode.{
  VectorCopied, copy_vector_block, decode_vector_loop, decode_vector,
}
use embedded_serial_filler.Cobs.Frame.{
  frame, frame_nil, frame_zero, frame_full, frame_more, zero_byte, full, more, cases, length-snoc,
  length-frame,
}
use embedded_serial_filler.Cobs.Encoded.{IsCode}
use embedded_serial_filler.Cobs.Copying.{copy_vector_block-All}
use embedded_serial_filler.Cobs.Rounds.{vector_last, vector_zero, vector_full}

-- A frame begins with a count, which is not zero.
frame_head :
    (raw block : List ℕ)
    → length block ≤ 253
    → (y : ℕ) × (ys : List ℕ) × (frame block raw ≡ y ∷ ys) × (0 < y)
frame_head [] block h = (suc (length block), block ++ 0 ∷ [], frame_nil block, omega arith)
frame_head (x ∷ xs) block h = elim (cases x (length block) h) [
  | zero_byte z ↦ (suc (length block), block ++ frame [] xs, frame_zero block x xs z, omega arith)
  | full pos e ↦ (255, block ++ x ∷ frame [] xs, frame_full block x xs pos e, omega arith)
  | more pos l ↦
      let (y, ys, e, p) = frame_head xs (block ++ x ∷ []) (omega (arith, length-snoc block x)) in
      (y, ys, frame_more block x xs pos l ∙ e, p)
]

module _ (etl : Etl) where
  copy_whole :
      (block rest : List ℕ) (k pos : ℕ) (out : List ℕ)
      → k ≡ length block
      → All IsCode block
      → length out + length block ≤ max_packet_size
      → copy_vector_block etl (block ++ rest) 0 k pos out
        ≡ ok (VectorCopied.copied rest (pos + k) (out ++ block))
  copy_whole block rest k pos out e c r =
      rw (drop_all k block (omega arith), take_all k block (omega arith)) at
        (copy_vector_block-All etl block rest 0 k k pos out (omega arith) (omega arith) c
          (omega arith))

  -- Decoding goes on behind a block that a zero ended, and behind a full one.
  behind_zero :
      (block xs junk : List ℕ) (f n pos : ℕ) (out : List ℕ)
      → length block ≤ 253
      → All IsCode block
      → length out + length block < max_packet_size
      → pos < n
      → decode_vector_loop etl
          (suc f)
          n
          (suc (length block) ∷ (block ++ (frame [] xs ++ junk)))
          pos
          out
        ≡ decode_vector_loop etl f n
            (frame [] xs ++ junk)
            (pos + 1 + length block)
            ((out ++ block) ++ 0 ∷ [])
  behind_zero block xs junk f n pos out h c r l =
      let (y, ys, e, p) = frame_head xs [] (omega arith) in
      rw e (
        rw count at (
          vector_zero etl f n (suc (length block)) (block ++ y ∷ (ys ++ junk)) pos out l
            (ys ++ junk) (pos + 1 + (suc (length block) - 1)) (out ++ block) y
            (copy_whole block (y ∷ (ys ++ junk)) (suc (length block) - 1) (pos + 1) out
              (omega arith) c (omega arith))
            p (omega arith) (omega (arith, length-append out block))))
    where
      count : suc (length block) - 1 ≡ length block
      count = omega arith

  behind_full :
      (block xs junk : List ℕ) (f n pos : ℕ) (out : List ℕ)
      → length block ≡ 254
      → All IsCode block
      → length out + length block ≤ max_packet_size
      → pos < n
      → decode_vector_loop etl (suc f) n (255 ∷ (block ++ (frame [] xs ++ junk))) pos out
        ≡ decode_vector_loop etl f n (frame [] xs ++ junk) (pos + 1 + 254) (out ++ block)
  behind_full block xs junk f n pos out h c r l =
      let (y, ys, e, p) = frame_head xs [] (omega arith) in
      rw e (
        vector_full etl f n 255 (block ++ y ∷ (ys ++ junk)) pos out l (ys ++ junk) (pos + 1 + 254)
          (out ++ block) y (copy_whole block (y ∷ (ys ++ junk)) 254 (pos + 1) out (omega arith) c r)
          p refl)

  decode-frame :
      (raw block junk : List ℕ) (f n pos : ℕ) (out : List ℕ)
      → length block ≤ 253
      → All IsCode block
      → All IsByte raw
      → length out + length block + length raw ≤ max_packet_size
      → length raw < f
      → pos + length (frame block raw) ≤ n
      → decode_vector_loop etl f n (frame block raw ++ junk) pos out
        ≡ ok (success, out ++ (block ++ raw))
  decode-frame raw block junk zero n pos out h c b r l inside = absurd (omega arith)
  decode-frame [] block junk (suc f) n pos out h c b r l inside =
      rw (frame_nil block, append_assoc block (0 ∷ []) junk, append-nil)
        (vector_last etl f n (suc (length block)) (block ++ 0 ∷ junk) pos out
          (omega (arith, length-frame [] block)) junk (pos + 1 + (suc (length block) - 1))
          (out ++ block)
          (copy_whole block (0 ∷ junk) (suc (length block) - 1) (pos + 1) out (omega arith) c
            (omega arith)))
  decode-frame (x ∷ xs) block junk (suc f) n pos out h c b r l inside =
      elim (cases x (length block) h) [
        | zero_byte z ↦
            rw (frame_zero block x xs z, append_assoc block (frame [] xs) junk)
              (behind_zero block xs junk f n pos out h c (omega arith)
                  (omega (arith, length-frame (x ∷ xs) block))
                ∙ decode-frame xs [] junk f n (pos + 1 + length block) ((out ++ block) ++ 0 ∷ [])
                    (omega arith) tt b.1
                    (omega (arith, length-append (out ++ block) (0 ∷ []), length-append out block))
                    (omega arith)
                    (omega (
                      arith,
                      ap length (frame_zero block x xs z),
                      length-append block (frame [] xs),
                    ))
                ∙ ap (λ (t : List ℕ). ok (success, t))
                    (rw (z, append_assoc (out ++ block), append_assoc out block)))
        | full some e ↦
            rw
              (
                frame_full block x xs some e,
                append_assoc block (x ∷ frame [] xs) junk,
                ← append_assoc block (x ∷ []) (frame [] xs ++ junk),
              )
              (behind_full (block ++ x ∷ []) xs junk f n pos out
                  (omega (arith, length-snoc block x))
                  (All-append IsCode block (x ∷ []) c ((some, b.0), tt))
                  (omega (arith, length-snoc block x)) (omega (arith, length-frame (x ∷ xs) block))
                ∙ decode-frame xs [] junk f n (pos + 1 + 254) (out ++ (block ++ x ∷ []))
                    (omega arith) tt b.1
                    (omega (arith, length-append out (block ++ x ∷ []), length-snoc block x))
                    (omega arith)
                    (omega (
                      arith,
                      ap length (frame_full block x xs some e),
                      length-append block (x ∷ frame [] xs),
                    ))
                ∙ ap (λ (t : List ℕ). ok (success, t))
                    (rw (append_assoc out (block ++ x ∷ []) xs, append_assoc block (x ∷ []) xs)))
        | more some k ↦ rw (frame_more block x xs some k) (
            decode-frame xs (block ++ x ∷ []) junk (suc f) n pos out
              (omega (arith, length-snoc block x))
              (All-append IsCode block (x ∷ []) c ((some, b.0), tt)) b.1
              (omega (arith, length-snoc block x)) (omega arith)
              (rw (frame_more block x xs some k) at inside)
            ∙ ap (λ (t : List ℕ). ok (success, t)) (rw (append_assoc block (x ∷ []) xs)))
      ]

  -- Without `ESF_OPTIMISE`, decoding the frame of at most `ESF_MAX_PACKET_SIZE` bytes, whatever
  -- follows it, succeeds and gives the bytes back.
  pub decode_vector-frame :
      (raw junk : List ℕ)
      → All IsByte raw
      → length raw ≤ max_packet_size
      → decode_vector etl (frame [] raw ++ junk) ≡ ok (success, raw)
  unfolding decode_vector
  decode_vector-frame raw junk b h =
      decode-frame raw [] junk (suc (length (frame [] raw ++ junk))) (length (frame [] raw ++ junk))
        0 [] (omega arith) tt b (omega arith)
        (omega (arith, length-append (frame [] raw) junk, length-frame raw []))
        (omega (arith, length-append (frame [] raw) junk))
