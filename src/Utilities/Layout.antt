-- ===== src/Utilities/Layout.antt =====
-- The fields of a packet: its checksum, its topic and its data.
use embedded_serial_filler.Base.{
  ℕ, ◌+◌, ◌-◌, ◌*◌, ◌/◌, ◌%◌, ◌^◌, ◌≤◌, ◌<◌, ◌≡◌, refl, ◌⊎◌, inl, inr, ◌↔◌, List, [], ◌∷◌, ◌++◌,
  length, length-append, append_assoc, take, drop, get_or, take-append, get_or-append, length-take,
  le→ltb, lt→ltb, ok, fault, bad_range, ◌==◌, if◌then◌else◌, arith,
}
use native.Mathlib.Decide.{dec_lt}
use embedded_serial_filler.Definitions.{
  max_packet_size, success, crc_check_failed, length_of_topic_too_long,
}
use embedded_serial_filler.Etl.{Etl}
use embedded_serial_filler.Utilities.Crc.{add_crc, verify_crc, sent_crc_val}
use embedded_serial_filler.Utilities.Split.{available_bytes, slice, split_packet}

-- The checksum, most significant byte first.
abbrev pub crc_bytes : ℕ → List ℕ
crc_bytes crc = (crc / 2 ^ 8) ∷ (crc % 2 ^ 8 ∷ [])

-- What `verify_crc` reads off a packet with two bytes behind its contents.
sent_crc_val_lem :
    (xs : List ℕ) (a b : ℕ) → a < 256 → b < 256 → sent_crc_val (xs ++ a ∷ (b ∷ [])) ≡ a * 256 + b
sent_crc_val_lem xs a b h k = rw (first, second) (omega arith)
  where
    total : length (xs ++ a ∷ (b ∷ [])) ≡ length xs + 2
    total = length-append xs (a ∷ (b ∷ []))

    first : get_or (xs ++ a ∷ (b ∷ [])) (length (xs ++ a ∷ (b ∷ [])) - 2) 0 ≡ a
    first = get_or-append xs a (b ∷ []) _ 0 (omega (arith, total))

    second : get_or (xs ++ a ∷ (b ∷ [])) (length (xs ++ a ∷ (b ∷ [])) - 1) 0 ≡ b
    second = rw (← append_assoc xs (a ∷ []) (b ∷ [])) (
        get_or-append (xs ++ a ∷ []) b [] _ 0
          (omega (arith, length-append (xs ++ a ∷ []) (b ∷ []))))

slice_lem :
    (packet : List ℕ) (first last : ℕ)
    → first ≤ last
    → last ≤ length packet
    → slice packet first last ≡ ok (take (last - first) (drop first packet))
unfolding slice
slice_lem packet first last h k = ground arith

slice_reversed :
    (packet : List ℕ) (first last : ℕ) → last < first → slice packet first last ≡ fault bad_range
unfolding slice
slice_reversed packet first last h = ground arith

module _ (etl : Etl) where
  pub add_crc_lem :
      (packet : List ℕ)
      → length packet + 2 ≤ max_packet_size
      → add_crc etl packet ≡ ok (packet ++ crc_bytes (etl.crc16_ccitt packet))
  unfolding add_crc
  add_crc_lem packet h = ground (
    arith,
    etl.crc16_ccitt_bound packet,
    etl.push_back_fits ℕ max_packet_size packet (etl.crc16_ccitt packet / 2 ^ 8),
    etl.push_back_fits ℕ max_packet_size (packet ++ (etl.crc16_ccitt packet / 2 ^ 8) ∷ [])
        (etl.crc16_ccitt packet % 2 ^ 8),
    length-append packet ((etl.crc16_ccitt packet / 2 ^ 8) ∷ []),
    append_assoc packet ((etl.crc16_ccitt packet / 2 ^ 8) ∷ [])
        (etl.crc16_ccitt packet % 2 ^ 8 ∷ []),
  )

  verify_crc_value :
      (xs : List ℕ) (a b : ℕ)
      → 0 < length xs
      → a < 256
      → b < 256
      → verify_crc etl (xs ++ a ∷ (b ∷ []))
        ≡ (if a * 256 + b == etl.crc16_ccitt xs then success else crc_check_failed)
  unfolding verify_crc
  verify_crc_value xs a b some h k = rw (
    le→ltb (length (xs ++ a ∷ (b ∷ []))) 3 (omega (arith, total)),
    sent_crc_val_lem xs a b h k,
    prefix,
  )
    where
      total : length (xs ++ a ∷ (b ∷ [])) ≡ length xs + 2
      total = length-append xs (a ∷ (b ∷ []))

      prefix : take (length (xs ++ a ∷ (b ∷ [])) - 2) (xs ++ a ∷ (b ∷ [])) ≡ xs
      prefix =
          take-append (length (xs ++ a ∷ (b ∷ [])) - 2) xs (a ∷ (b ∷ [])) (omega (arith, total))

  -- `VerifyCrc` accepts a packet, of two bytes behind at least one other, exactly if the two are
  -- the CRC of the others, most significant byte first.
  pub verify_crc-success :
      (xs : List ℕ) (a b : ℕ)
      → 0 < length xs
      → a < 256
      → b < 256
      → (verify_crc etl (xs ++ a ∷ (b ∷ [])) ≡ success) ↔ (a * 256 + b ≡ etl.crc16_ccitt xs)
  verify_crc-success xs a b some h k =
      rw (verify_crc_value xs a b some h k) (ground arith, ground arith)

  -- What `AddCrc` makes of a non-empty packet with room for two more bytes, `VerifyCrc` accepts;
  -- the packet stands unchanged before the checksum.
  pub verify_crc-add_crc :
      (packet : List ℕ)
      → 0 < length packet
      → length packet + 2 ≤ max_packet_size
      → (sent : List ℕ) × (add_crc etl packet ≡ ok sent)
        × (verify_crc etl sent ≡ success)
        × (take (length packet) sent ≡ packet)
        × (length sent ≡ length packet + 2)
  verify_crc-add_crc packet some h = (
    packet ++ crc_bytes (etl.crc16_ccitt packet),
    add_crc_lem packet h,
    (verify_crc-success packet (etl.crc16_ccitt packet / 2 ^ 8) (etl.crc16_ccitt packet % 2 ^ 8)
          some (omega (arith, etl.crc16_ccitt_bound packet)) (omega arith)).1
        (omega arith),
    take-append (length packet) packet (crc_bytes (etl.crc16_ccitt packet)) refl,
    length-append packet (crc_bytes (etl.crc16_ccitt packet)),
  )

  -- The ways through `SplitPacket`, by the topic length that the packet states.
  pub split_packet_ways :
      (packet : List ℕ) (start : ℕ) (topic payload : List ℕ)
      → start + 3 ≤ length packet
      → length packet ≤ max_packet_size
      → let n = get_or packet start 0 in
        let room = length packet - 3 - start in
        (n ≤ room
          → split_packet etl packet start topic payload
            ≡ ok (record {
              status = success;
              topic = etl.assign_string (take n (drop (1 + start) packet));
              payload = take (room - n) (drop (1 + start + n) packet);
            }))
        × (n ≡ room + 1 → split_packet etl packet start topic payload ≡ fault bad_range)
        × (room + 1 < n
            → split_packet etl packet start topic payload
              ≡ ok (record { status = length_of_topic_too_long; topic = topic; payload = payload }))
  unfolding split_packet
  split_packet_ways packet start topic payload h k = (
    λ fits.
        rw
          (
            le→ltb (available_bytes size start) n (omega (arith, available)),
            lt→ltb start size (omega arith),
            topic_slice (omega arith),
            slice_lem packet (1 + start + n) (size - 2) (omega arith) (omega arith),
            shorter,
          )
          (rw (
            etl.insert_end_fits [] (take (size - 3 - start - n) (drop (1 + start + n) packet))
              (omega (arith, length-take (size - 3 - start - n) (drop (1 + start + n) packet))))),
    λ e. rw (
      le→ltb (available_bytes size start) n (omega (arith, available)),
      lt→ltb start size (omega arith),
      topic_slice (omega arith),
      slice_reversed packet (1 + start + n) (size - 2) (omega arith),
    ),
    λ l. rw (
      lt→ltb (available_bytes size start) n (omega (arith, available)),
      lt→ltb start size (omega arith),
    ),
  )
    where
      size : ℕ
      size = length packet

      n : ℕ
      n = get_or packet start 0

      available : available_bytes size start ≡ size - 2 - start
      available = omega arith

      topic_slice :
          1 + start + n ≤ size
          → slice packet (1 + start) (1 + start + n) ≡ ok (take n (drop (1 + start) packet))
      topic_slice l =
          let e : 1 + start + n - (1 + start) ≡ n = omega arith in
          rw e at (slice_lem packet (1 + start) (1 + start + n) (omega arith) l)

      shorter : size - 2 - (1 + start + n) ≡ size - 3 - start - n
      shorter = omega arith

  -- The three ways in which `SplitPacket` comes out, by the topic length that the packet states, on
  -- a packet of at most `ESF_MAX_PACKET_SIZE` bytes that has three bytes from `startAt` on. If the
  -- topic and the checksum fit, the topic and the data are the bytes between; if the stated length is
  -- one more than what fits, it passes the check and the data end before they begin; if it is larger
  -- still, the call is refused and the containers keep their elements.
  split_packet_cases :
      (packet : List ℕ) (start : ℕ) (topic payload : List ℕ)
      → start + 3 ≤ length packet
      → length packet ≤ max_packet_size
      → let n = get_or packet start 0 in
        let room = length packet - 3 - start in
        ((n ≤ room)
          × (split_packet etl packet start topic payload
              ≡ ok (record {
                status = success;
                topic = etl.assign_string (take n (drop (1 + start) packet));
                payload = take (room - n) (drop (1 + start + n) packet);
              })))
        ⊎ (((n ≡ room + 1) × (split_packet etl packet start topic payload ≡ fault bad_range))
            ⊎ ((room + 1 < n)
                × (split_packet etl packet start topic payload
                    ≡ ok (record {
                      status = length_of_topic_too_long;
                      topic = topic;
                      payload = payload;
                    }))))
  split_packet_cases packet start topic payload h k =
      let (fits, one_more, longer) = split_packet_ways packet start topic payload h k in
      elim (dec_lt (length packet - 3 - start) (get_or packet start 0)) [
        | no l ↦ inl (omega arith, fits (omega arith))
        | yes l ↦ elim (dec_lt (length packet - 3 - start + 1) (get_or packet start 0)) [
          | no m ↦ inr (inl (omega arith, one_more (omega arith)))
          | yes m ↦ inr (inr (m, longer m))
        ]
      ]
