-- ===== src/Cobs/Presized.antt =====
-- The decoder that fills a container sized beforehand.
use embedded_serial_filler.Base.{
  ◌↔◌, ℕ, suc, ◌+◌, ◌-◌, ◌/◌, ◌≤◌, ◌<◌, ◌≡◌, refl, sym, ◌∙◌, ap, inl, inr, List, [], ◌∷◌, ◌++◌,
  length, take, drop, zeros, length-zeros, get_or, get_or-take, get_or-replicate, take-append-drop,
  take_ext, take_all, length-take, length-append, append_assoc, All, IsByte, true, Bool-cases, ok,
  ◌>>=◌, arith, le→ltb, append-nil,
}
use embedded_serial_filler.Definitions.{Config, max_packet_size, success}
use embedded_serial_filler.Etl.{Etl}
use embedded_serial_filler.Cobs.Encode.{encode}
use embedded_serial_filler.Cobs.Decode.{
  decoded_size, decode_bytes, decode_vector, decode_in_place, decode,
}
use embedded_serial_filler.Cobs.Frame.{frame, full_blocks, length-frame, full_blocks-le}
use embedded_serial_filler.Cobs.Encoded.{
  IsCode, frame_body, length-frame-le, encoded_size, padding, memory_lem, sized_lem, encode-frame,
}
use embedded_serial_filler.Cobs.Copying.{Mirrors}
use embedded_serial_filler.Cobs.Agreement.{Agree, agree}
use embedded_serial_filler.Cobs.RoundTrip.{decode_vector-frame}

-- The container is never sized beyond the raw data, whatever part of the padding arrives.
decoded_size-le :
    (raw : List ℕ) (n : ℕ)
    → n ≤ encoded_size (length raw)
    → encoded_size (length raw) ≤ max_packet_size
    → decoded_size n ≤ length raw
decoded_size-le raw n h k = omega arith

decoded_size-encoded_size :
    (n : ℕ) → encoded_size n ≤ max_packet_size → decoded_size (encoded_size n) ≡ n
decoded_size-encoded_size n h = omega arith

-- A fresh container mirrors nothing decoded yet.
zeros-Mirrors :
    (size : ℕ) (memory : List ℕ)
    → take size memory ≡ zeros size
    → length memory ≡ max_packet_size
    → Mirrors size [] memory
zeros-Mirrors size memory e h = record {
  same = λ i l.
      sym (get_or-take size memory i 0 l)
      ∙ ap (λ (xs : List ℕ). get_or xs i 0) e
      ∙ get_or-replicate size i 0;
  room = h;
}

module _ (etl : Etl) where
  memory_split :
      (xs : List ℕ)
      → length xs ≤ max_packet_size
      → etl.memory xs ≡ xs ++ drop (length xs) (etl.memory xs)
  memory_split xs h =
      sym (take-append-drop (length xs) (etl.memory xs))
      ∙ ap (λ (ys : List ℕ). ys ++ drop (length xs) (etl.memory xs)) (etl.memory_prefix xs h)

  -- On a packet, and into a fresh container of any size, the pointer version agrees with the other.
  pub decode_bytes_agrees :
      (body junk : List ℕ) (size : ℕ)
      → All IsCode body
      → 0 < length body
      → length (body ++ 0 ∷ junk) ≤ max_packet_size
      → size ≤ max_packet_size
      → Agree size (decode_vector etl (body ++ 0 ∷ junk)) (
          decode_bytes
            (etl.memory (body ++ 0 ∷ junk))
            (length (body ++ 0 ∷ junk))
            (etl.memory (zeros size)))
  unfolding decode_vector decode_bytes
  decode_bytes_agrees body junk size c some h k =
      let n = length (body ++ 0 ∷ junk) in
      let (front, room) = memory_lem etl size k in
      rw
        (
          memory_split (body ++ 0 ∷ junk) h,
          append_assoc body (0 ∷ junk) (drop n (etl.memory (body ++ 0 ∷ junk))),
        )
        (agree etl size n junk (junk ++ drop n (etl.memory (body ++ 0 ∷ junk))) (suc n) body 0 0 []
          (etl.memory (zeros size)) (omega (arith, length-append body (0 ∷ junk)))
          (record {
            codes = c;
            inside = omega (arith, length-append body (0 ∷ junk));
            fits = h;
            written = refl;
            behind = omega arith;
            mirrors = zeros-Mirrors size (etl.memory (zeros size)) front room;
          })
          some)

  -- What the pre-sized container holds afterwards, if it is no longer than the decoded data.
  decode_in_place_lem :
      (body junk raw : List ℕ)
      → All IsCode body
      → 0 < length body
      → length (body ++ 0 ∷ junk) ≤ max_packet_size
      → decoded_size (length (body ++ 0 ∷ junk)) ≤ length raw
      → decode_vector etl (body ++ 0 ∷ junk) ≡ ok (success, raw)
      → decode_in_place etl (body ++ 0 ∷ junk) []
        ≡ ok (success, take (decoded_size (length (body ++ 0 ∷ junk))) raw)
  unfolding decode_in_place
  decode_in_place_lem body junk raw c some h k e =
      rw (sized_lem etl size small) (elim (decode_bytes_agrees body junk size c some h small) [
        | inl (memory, p, q, _) ↦ cc
        | inr (out, memory, p, q, m) ↦
            rw (q, length-zeros size)
              (ap (λ (xs : List ℕ). ok (success, xs)) (filled out memory p m))
      ])
    where
      size : ℕ
      size = decoded_size (length (body ++ 0 ∷ junk))

      small : size ≤ max_packet_size
      small = omega arith

      filled :
          (out memory : List ℕ)
          → decode_vector etl (body ++ 0 ∷ junk) ≡ ok (success, out)
          → Mirrors size out memory
          → take size memory ≡ take size raw
      filled out memory p m =
          let same : raw ≡ out = cc in
          take_ext size memory raw 0 (omega (arith, m.room)) k (rw same m.same)

  -- A frame with `p` zeros behind it, as both the encoder and the line may leave them.
  decode_in_place-body :
      (raw body : List ℕ) (p : ℕ)
      → frame [] raw ≡ body ++ 0 ∷ []
      → All IsCode body
      → All IsByte raw
      → length (frame [] raw) + p ≤ encoded_size (length raw)
      → encoded_size (length raw) ≤ max_packet_size
      → decode_in_place etl (frame [] raw ++ zeros p) []
        ≡ ok (success, take (decoded_size (length (frame [] raw) + p)) raw)
  decode_in_place-body raw body p e c b h k = rw shape (
      rw size at (
        decode_in_place_lem body (zeros p) raw c
          (omega (arith, ap length e, length-append body (0 ∷ []), length-frame raw []))
          (omega (arith, size)) (rw size (decoded_size-le raw (length (frame [] raw) + p) h k))
          (rw shape at (decode_vector-frame etl raw (zeros p) b (omega arith)))))
    where
      shape : frame [] raw ++ zeros p ≡ body ++ 0 ∷ zeros p
      shape = ap (λ (xs : List ℕ). xs ++ zeros p) e ∙ append_assoc body (0 ∷ []) (zeros p)

      size : length (body ++ 0 ∷ zeros p) ≡ length (frame [] raw) + p
      size = omega (arith, ap length shape, length-append (frame [] raw) (zeros p), length-zeros p)

  pub decode_in_place-frame :
      (raw : List ℕ) (p : ℕ)
      → All IsByte raw
      → length (frame [] raw) + p ≤ encoded_size (length raw)
      → encoded_size (length raw) ≤ max_packet_size
      → decode_in_place etl (frame [] raw ++ zeros p) []
        ≡ ok (success, take (decoded_size (length (frame [] raw) + p)) raw)
  decode_in_place-frame raw p b h k =
      let (body, e, c) = frame_body raw [] (omega arith) tt b in
      decode_in_place-body raw body p e c b h k

  -- `Decode` undoes `Encode`, each into an empty container: for non-empty raw bytes whose encoding
  -- fits `ESF_MAX_PACKET_SIZE`, decoding the container that `Encode` filled, trailing zeros
  -- included, succeeds and gives the raw bytes back, whichever of the two are built with
  -- `ESF_OPTIMISE`.
  pub decode-encode :
      (config config' : Config) (raw : List ℕ)
      → All IsByte raw
      → 0 < length raw
      → encoded_size (length raw) ≤ max_packet_size
      → (encode etl config raw [] >>= λ encoded. decode etl config' encoded []) ≡ ok (success, raw)
  unfolding decode
  decode-encode config config' raw b some h =
      rw (encode-frame etl config raw h) (elim (Bool-cases config'.optimise) [
        | inl fast ↦
            rw (fast, le→ltb (length (frame [] raw ++ zeros (padding raw))) 3 (omega (arith, long)))
              (rw
                (
                  total,
                  decoded_size-encoded_size (length raw) h,
                  take_all (length raw) raw (omega arith),
                )
                at
                (decode_in_place-frame raw (padding raw) b (omega (arith, length-frame-le raw)) h))
        | inr slow ↦ rw slow (decode_vector-frame etl raw (zeros (padding raw)) b (omega arith))
      ])
    where
      total : length (frame [] raw) + padding raw ≡ encoded_size (length raw)
      total = omega (arith, length-frame-le raw)

      long : length (frame [] raw ++ zeros (padding raw)) ≡ encoded_size (length raw)
      long = omega (
        arith,
        length-append (frame [] raw) (zeros (padding raw)),
        length-zeros (padding raw),
        total,
      )

  -- With `ESF_OPTIMISE`, and for non-empty raw bytes whose encoding fits `ESF_MAX_PACKET_SIZE`:
  -- decoding their frame into an empty container succeeds, the frame being what `Encode` makes of
  -- them up to the zero where the receiver cuts, and gives a prefix of the raw bytes, which is all
  -- of them exactly if at least (length - 1) / 254 blocks ended full.
  pub decode-packet :
      (config : Config) (raw : List ℕ)
      → config.optimise ≡ true
      → All IsByte raw
      → 0 < length raw
      → encoded_size (length raw) ≤ max_packet_size
      → (n : ℕ) × (decode etl config (frame [] raw) [] ≡ ok (success, take n raw))
        × ((take n raw ≡ raw) ↔ ((length raw - 1) / 254 ≤ full_blocks 0 raw))
  unfolding decode
  decode-packet config raw fast b some h = (
    decoded_size (length (frame [] raw)),
    rw (fast, le→ltb (length (frame [] raw)) 3 (omega (arith, length-frame raw [])))
        (rw (append-nil, bare) at
          (decode_in_place-frame raw 0 b (omega (arith, length-frame-le raw)) h)),
    (
      λ e.
          omega
            (arith, ap length e, length-take size raw, length-frame raw [], full_blocks-le raw 0),
      λ k. take_all size raw (omega (arith, length-frame raw [], full_blocks-le raw 0)),
    ),
  )
    where
      bare : length (frame [] raw) + 0 ≡ length (frame [] raw)
      bare = omega arith

      size : ℕ
      size = decoded_size (length (frame [] raw))
