-- ===== src/Cobs/Safety.antt =====
-- Decoding what a line delivers: any non-zero bytes and a zero.
use embedded_serial_filler.Base.{
  ℕ, ◌+◌, ◌≤◌, ◌<◌, ◌≡◌, refl, inl, inr, ◌⊎◌, List, [], ◌∷◌, ◌++◌, length, length-append,
  length-take, take, All, true, false, Result, ok, le→ltb, arith, length-zeros,
}
use embedded_serial_filler.Definitions.{
  Config, StatusCode, success, zero_byte_not_expected, max_packet_size,
}
use embedded_serial_filler.Etl.{Etl}
use embedded_serial_filler.Cobs.Decode.{decoded_size, decode_vector, decode_in_place, decode}
use embedded_serial_filler.Cobs.Encoded.{IsCode, sized_lem}
use embedded_serial_filler.Cobs.Presized.{decode_bytes_agrees}

-- The outcome of both decoders on one packet: the same status; a refused packet leaves the container
-- empty without `ESF_OPTIMISE`, and with `decoded_size` elements in it otherwise.
abbrev pub SameStatus : ℕ → Result (StatusCode × List ℕ) → Result (StatusCode × List ℕ) → Type 0
SameStatus size slow fast =
    (s : StatusCode) × (out filled : List ℕ) × (slow ≡ ok (s, out))
    × (fast ≡ ok (s, filled))
    × (length filled ≡ size)
    × ((s ≡ success) ⊎ ((s ≡ zero_byte_not_expected) × (out ≡ [])))

module _ (etl : Etl) where
  in_place_outcome :
      (body : List ℕ)
      → All IsCode body
      → 0 < length body
      → length (body ++ 0 ∷ []) ≤ max_packet_size
      → SameStatus
          (decoded_size (length (body ++ 0 ∷ [])))
          (decode_vector etl (body ++ 0 ∷ []))
          (decode_in_place etl (body ++ 0 ∷ []) [])
  unfolding decode_in_place
  in_place_outcome body c some h =
      rw (sized_lem etl size small) (elim (decode_bytes_agrees etl body [] size c some h small) [
        | inl (memory, p, q, room) ↦ (
          zero_byte_not_expected,
          [],
          take size memory,
          p,
          rw (q, length-zeros size),
          omega (arith, length-take size memory, room),
          inr (refl, refl),
        )
        | inr (out, memory, p, q, m) ↦ (
          success,
          out,
          take size memory,
          p,
          rw (q, length-zeros size),
          omega (arith, length-take size memory, m.room),
          inl refl,
        )
      ])
    where
      size : ℕ
      size = decoded_size (length (body ++ 0 ∷ []))

      small : size ≤ max_packet_size
      small = omega arith

  -- On every packet of at least three and at most `ESF_MAX_PACKET_SIZE` bytes, non-zero but for
  -- its last one, `Decode` into an empty container comes to a result under both settings of
  -- `ESF_OPTIMISE`, with the same status, SUCCESS or ERROR_ZERO_BYTE_NOT_EXPECTED. With the second
  -- status the container is empty without `ESF_OPTIMISE`; with it the container always has the
  -- length it was given beforehand.
  pub decode-SameStatus :
      (fast slow : Config) (body : List ℕ)
      → fast.optimise ≡ true
      → slow.optimise ≡ false
      → All IsCode body
      → 2 ≤ length body
      → length body < max_packet_size
      → SameStatus
          (decoded_size (length body + 1))
          (decode etl slow (body ++ 0 ∷ []) [])
          (decode etl fast (body ++ 0 ∷ []) [])
  unfolding decode
  decode-SameStatus fast slow body f s c some h =
      rw (f, s, le→ltb (length (body ++ 0 ∷ [])) 3 (omega (arith, size)))
        (rw size at (in_place_outcome body c (omega arith) (omega (arith, size))))
    where
      size : length (body ++ 0 ∷ []) ≡ length body + 1
      size = length-append body (0 ∷ [])
