-- ===== src/Cobs/Encoded.antt =====
-- What `Encode` leaves in an empty container: the frame, and the rest of the pre-sized container.
use embedded_serial_filler.Base.{
  ℕ, suc, ◌+◌, ◌-◌, ◌/◌, ◌≤◌, ◌<◌, ◌≡◌, ◌∙◌, ap, List, [], ◌∷◌, ◌++◌, length, take, drop, zeros,
  length-zeros, append_assoc, take-nil, take-append_more, take-drop, drop-replicate, All,
  All-append, ok, Bool-cases, inl, inr, arith, IsByte,
}
use embedded_serial_filler.Definitions.{Config, max_packet_size}
use embedded_serial_filler.Etl.{Etl}
use embedded_serial_filler.Cobs.Encode.{encode, encode_in_place, encode_vector}
use embedded_serial_filler.Cobs.Frame.{
  frame, frame_nil, frame_zero, frame_full, frame_more, zero_byte, full, more, cases, length-snoc,
  length-frame, full_blocks-le,
}
use embedded_serial_filler.Cobs.Framing.{encode_bytes-frame, encode_vector-encode_bytes}

-- The size that `Encode` gives the container.
abbrev pub encoded_size : ℕ → ℕ
encoded_size n = 2 + n + n / 254

-- The zeros that are left behind the frame.
abbrev pub padding : List ℕ → ℕ
padding raw = encoded_size (length raw) - length (frame [] raw)

pub length-frame-le : (raw : List ℕ) → length (frame [] raw) ≤ encoded_size (length raw)
length-frame-le raw =
    omega (arith, length-frame raw [] (omega arith), full_blocks-le raw 0 (omega arith))

-- A byte of an encoded packet before its end.
abbrev pub IsCode : ℕ → Type 0
IsCode x = (0 < x) × (x < 256)

-- The frame is a run of non-zero bytes and one zero.
pub frame_body :
    (raw block : List ℕ)
    → length block ≤ 253
    → All IsCode block
    → All IsByte raw
    → (body : List ℕ) × (frame block raw ≡ body ++ 0 ∷ []) × All IsCode body
frame_body [] block h c b = (suc (length block) ∷ block, frame_nil block, (omega arith, c))
frame_body (x ∷ xs) block h c b = elim (cases x (length block) h) [
  | zero_byte z ↦
      let (body, e, k) = frame_body xs [] (omega arith) tt b.1 in
      (
        suc (length block) ∷ (block ++ body),
        frame_zero block x xs z ∙ rw e (rw append_assoc),
        ((omega arith, omega arith), All-append IsCode block body c k),
      )
  | full pos l ↦
      let (body, e, k) = frame_body xs [] (omega arith) tt b.1 in
      (
        255 ∷ (block ++ x ∷ body),
        frame_full block x xs pos l ∙ rw e (rw append_assoc),
        ((omega arith, omega arith), All-append IsCode block (x ∷ body) c ((pos, b.0), k)),
      )
  | more pos l ↦
      let (body, e, k) =
        frame_body xs (block ++ x ∷ []) (omega (arith, length-snoc block x))
          (All-append IsCode block (x ∷ []) c ((pos, b.0), tt)) b.1 in
      (body, frame_more block x xs pos l ∙ e, k)
]

-- Filling the front of a memory leaves the rest of its first `n` elements.
take_filled :
    (n : ℕ) (front memory : List ℕ)
    → length front ≤ n
    → take n memory ≡ zeros n
    → take n (front ++ drop (length front) memory) ≡ front ++ zeros (n - length front)
take_filled n front memory h e = rw (
  take-append_more n front (drop (length front) memory) h,
  take-drop n (length front) memory,
  e,
  drop-replicate,
)

module _ (etl : Etl) where
  pub sized_lem : (n : ℕ) → n ≤ max_packet_size → etl.resize [] n ≡ ok (zeros n)
  sized_lem n h = etl.resize_fits [] n h ∙ rw (take-nil ℕ n) (ap (λ k. ok (zeros k)) (omega arith))

  pub memory_lem :
      (n : ℕ)
      → n ≤ max_packet_size
      → (take n (etl.memory (zeros n)) ≡ zeros n)
        × (length (etl.memory (zeros n)) ≡ max_packet_size)
  memory_lem n h =
      (rw (length-zeros n) at (etl.memory_prefix (zeros n) fits), etl.length-memory (zeros n) fits)
    where
      fits : length (zeros n) ≤ max_packet_size
      fits = rw (length-zeros n) h

  encode_in_place_lem :
      (raw : List ℕ)
      → encoded_size (length raw) ≤ max_packet_size
      → encode_in_place etl raw (zeros (encoded_size (length raw)))
        ≡ ok (frame [] raw ++ zeros (padding raw))
  unfolding encode_in_place
  encode_in_place_lem raw h =
      let (front, room) = memory_lem (encoded_size (length raw)) h in
      rw
        (
          encode_bytes-frame raw (etl.memory (zeros (encoded_size (length raw))))
              (omega (arith, length-frame-le raw)),
          length-zeros (encoded_size (length raw)),
        )
        (ap ok (
          take_filled (encoded_size (length raw)) (frame [] raw)
            (etl.memory (zeros (encoded_size (length raw)))) (length-frame-le raw) front))

  encode_vector_lem :
      (raw : List ℕ)
      → encode_vector raw (zeros (encoded_size (length raw)))
        ≡ ok (frame [] raw ++ zeros (padding raw))
  encode_vector_lem raw =
      encode_vector-encode_bytes raw (zeros (encoded_size (length raw)))
      ∙ rw (
        encode_bytes-frame raw (zeros (encoded_size (length raw)))
            (rw length-zeros (length-frame-le raw)),
        drop-replicate,
      )

  -- On an empty container `Encode` fills in the frame of the raw data and leaves the elements
  -- behind it zero, with either setting of `ESF_OPTIMISE`, if the container can hold its new size.
  pub encode-frame :
      (config : Config) (raw : List ℕ)
      → encoded_size (length raw) ≤ max_packet_size
      → encode etl config raw [] ≡ ok (frame [] raw ++ zeros (padding raw))
  unfolding encode
  encode-frame config raw h =
      rw (sized_lem (encoded_size (length raw)) h) (elim (Bool-cases config.optimise) [
        | inl fast ↦ rw fast (encode_in_place_lem raw h)
        | inr slow ↦ rw slow (encode_vector_lem raw)
      ])
