-- ===== src/Cobs/Agreement.antt =====
-- The two decoders agree on every packet, that is, on every run of non-zero bytes that ends in a zero.
use embedded_serial_filler.Base.{
  ℕ, zero, suc, ◌+◌, ◌-◌, ◌≤◌, ◌<◌, ◌≡◌, ◌∙◌, ◌⊎◌, inl, inr, List, [], ◌∷◌, ◌++◌, length, take,
  drop, set, length-append, length-take, length-drop, All, Result, ok, arith,
}
use native.Mathlib.Decide.{dec_le, dec_lt}
use embedded_serial_filler.Definitions.{
  StatusCode, max_packet_size, success, zero_byte_not_expected,
}
use embedded_serial_filler.Etl.{Etl}
use embedded_serial_filler.Cobs.Decode.{
  Copied, VectorCopied, copy_block, copy_vector_block, decode_loop, decode_vector_loop,
}
use embedded_serial_filler.Cobs.Encoded.{IsCode}
use embedded_serial_filler.Cobs.Copying.{
  Mirrors, Mirrors-zero, copy_block-All, copy_block_short, copy_vector_block-All,
  copy_vector_block_short,
}
use embedded_serial_filler.Cobs.Rounds.{
  vector_short, vector_last, vector_zero, vector_full, bytes_short, bytes_last, bytes_zero,
  bytes_full,
}

-- What the decoders without and with `ESF_OPTIMISE` come to: both refuse the packet, or both accept
-- it and the memory mirrors the decoded bytes.
abbrev pub Agree : ℕ → Result (StatusCode × List ℕ) → Result (StatusCode × List ℕ) → Type 0
Agree size vector bytes =
    ((memory : List ℕ) × (vector ≡ ok (zero_byte_not_expected, []))
      × (bytes ≡ ok (zero_byte_not_expected, memory))
      × (length memory ≡ max_packet_size))
    ⊎ ((out : List ℕ) × (memory : List ℕ) × (vector ≡ ok (success, out))
        × (bytes ≡ ok (success, memory))
        × Mirrors size out memory)

All-drop {ℓ κ} : {A : Type ℓ} (P : A → Type κ) (n : ℕ) (xs : List A) → All P xs → All P (drop n xs)
All-drop P zero xs h = h
All-drop P (suc n) [] h = tt
All-drop P (suc n) (x ∷ xs) h = All-drop P n xs h.1

-- Where both decoders stand before a round: `body` is left of the packet of `n` bytes.
pub record Stand (size n : ℕ) (body : List ℕ) (pos d : ℕ) (out memory : List ℕ) : Type 0 where
  pub codes : All IsCode body
  pub inside : pos + length body < n
  pub fits : n ≤ max_packet_size
  pub written : d ≡ length out
  pub behind : d ≤ pos
  pub mirrors : Mirrors size out memory

module _ (etl : Etl) (size n : ℕ) (junk junk' : List ℕ) where
  abbrev pub AgreeFrom : ℕ → List ℕ → ℕ → ℕ → List ℕ → List ℕ → Type 0
  AgreeFrom f body pos d out memory =
      Agree size (decode_vector_loop etl f n (body ++ 0 ∷ junk) pos out)
        (decode_loop f n (body ++ 0 ∷ junk') pos d memory)

  -- A round that copies its block, by what is left behind the block.
  agree_left :
      (f x : ℕ) (b left : List ℕ) (pos pos' d d' : ℕ) (out out' memory memory' : List ℕ)
      → Stand size n (x ∷ b) pos d out memory
      → Stand size n left pos' d' out' memory'
      → length left < suc f
      → copy_vector_block etl (b ++ 0 ∷ junk) 0 (x - 1) (pos + 1) out
        ≡ ok (VectorCopied.copied (left ++ 0 ∷ junk) pos' out')
      → copy_block (b ++ 0 ∷ junk') 0 (x - 1) (pos + 1) d memory
        ≡ ok (Copied.copied (left ++ 0 ∷ junk') pos' d' memory')
      → ((pos' d' : ℕ) (out' memory' : List ℕ)
          → Stand size n left pos' d' out' memory'
          → 0 < length left
          → AgreeFrom f left pos' d' out' memory')
      → d' < pos'
      → AgreeFrom (suc f) (x ∷ b) pos d out memory
  agree_left f x b [] pos pos' d d' out out' memory memory' s s' l hv hb ih k = inr (
    out',
    memory',
    vector_last etl f n x (b ++ 0 ∷ junk) pos out (omega arith) junk pos' out' hv,
    bytes_last f n x (b ++ 0 ∷ junk') pos d memory (omega arith) (omega arith) (omega arith) junk'
        pos' d' memory' hb,
    s'.mirrors,
  )
  agree_left f x b (y ∷ left) pos pos' d d' out out' memory memory' s s' l hv hb ih k =
      elim (dec_lt x 255) [
        | yes small ↦
            rw
              (
                vector_zero etl f n x (b ++ 0 ∷ junk) pos out (omega arith) (left ++ 0 ∷ junk) pos'
                    out' y hv (omega arith) small (omega arith),
                bytes_zero f n x (b ++ 0 ∷ junk') pos d memory (omega arith) (omega arith)
                    (omega arith) (left ++ 0 ∷ junk') pos' d' memory' y hb (omega arith) small
                    (omega (arith, s'.mirrors.room)),
              )
              (ih pos' (d' + 1) (out' ++ 0 ∷ []) (set memory' pos' 0)
                (record {
                  codes = s'.codes;
                  inside = s'.inside;
                  fits = s'.fits;
                  written = omega (arith, length-append out' (0 ∷ []));
                  behind = omega arith;
                  mirrors = Mirrors-zero size out' memory' pos' (omega arith) s'.mirrors;
                })
                (omega arith))
        | no large ↦
            rw
              (
                vector_full etl f n x (b ++ 0 ∷ junk) pos out (omega arith) (left ++ 0 ∷ junk) pos'
                    out' y hv (omega arith) (omega arith),
                bytes_full f n x (b ++ 0 ∷ junk') pos d memory (omega arith) (omega arith)
                    (omega arith) (left ++ 0 ∷ junk') pos' d' memory' y hb (omega arith)
                    (omega arith),
              )
              (ih pos' d' out' memory' s' (omega arith))
      ]

  pub agree :
      (f : ℕ) (body : List ℕ) (pos d : ℕ) (out memory : List ℕ)
      → length body ≤ f
      → Stand size n body pos d out memory
      → 0 < length body
      → AgreeFrom f body pos d out memory
  agree f [] pos d out memory l s nonempty = absurd (omega arith)
  agree zero (x ∷ b) pos d out memory l s nonempty = absurd (omega arith)
  agree (suc f) (x ∷ b) pos d out memory l s nonempty = elim (dec_le (x - 1) (length b)) [
    | yes all ↦
        let (memory', copied, mirrors) =
          copy_block-All size b (0 ∷ junk') 0 (x - 1) (x - 1) (pos + 1) d out memory (omega arith)
            all s.codes.1 s.written (omega arith) s.mirrors in
        agree_left f x b (drop (x - 1) b) pos (pos + 1 + (x - 1)) d (d + (x - 1)) out
          (out ++ take (x - 1) b) memory memory' s
          (record {
            codes = All-drop IsCode (x - 1) b s.codes.1;
            inside = omega (arith, length-drop (x - 1) b);
            fits = s.fits;
            written = omega (arith, length-append out (take (x - 1) b), length-take (x - 1) b);
            behind = omega arith;
            mirrors = mirrors;
          })
          (omega (arith, length-drop (x - 1) b))
          (copy_vector_block-All etl b (0 ∷ junk) 0 (x - 1) (x - 1) (pos + 1) out (omega arith) all
            s.codes.1 (omega arith))
          copied
          (λ pos' d' out' memory' s' k.
            agree f (drop (x - 1) b) pos' d' out' memory' (omega (arith, length-drop (x - 1) b)) s'
              k)
          (omega arith)
    | no short ↦
        let (memory', stopped, kept) =
          copy_block_short b junk' 0 (x - 1) (x - 1) (pos + 1) d memory (omega arith) (omega arith)
            s.codes.1 (omega (arith, s.mirrors.room)) in
        inl (
          memory',
          vector_short etl f n x (b ++ 0 ∷ junk) pos out (omega arith) (
              copy_vector_block_short etl b junk 0 (x - 1) (x - 1) (pos + 1) out (omega arith)
                (omega arith) s.codes.1 (omega arith)),
          bytes_short f n x (b ++ 0 ∷ junk') pos d memory (omega arith) (omega arith) (omega arith)
              memory' stopped,
          kept ∙ s.mirrors.room,
        )
  ]
