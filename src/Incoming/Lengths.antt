-- ===== src/Incoming/Lengths.antt =====
-- Packets with a right checksum that state any length of the topic, as another implementation, or an
-- attacker, may send them.
use embedded_serial_filler.Base.{
  ℕ, suc, ◌+◌, ◌-◌, ◌≤◌, ◌<◌, ◌≡◌, refl, ◌⊎◌, inl, inr, List, [], ◌∷◌, ◌++◌, length, take, drop,
  take-append, take-append_less, take-drop, All, IsByte, Bool, true, false, Result, ok, fault,
  bad_range, ◌>>=◌, arith,
}
use native.Mathlib.Decide.{dec_lt}
use embedded_serial_filler.Definitions.{Config, to_byte, length_of_topic_too_long}
use embedded_serial_filler.Etl.{Etl}
use embedded_serial_filler.Cobs.Frame.{frame}
use embedded_serial_filler.Utilities.Split.{split_packet}
use embedded_serial_filler.Utilities.Layout.{crc_bytes, split_packet_ways}
use embedded_serial_filler.Outgoing.Contents.{checked, length-checked, message_type}
use embedded_serial_filler.Incoming.{Parsed, message, refused, to_message, by_type, parse_packet}
use embedded_serial_filler.Incoming.Accepts.{of_byte-to_byte, parse_packet_lem}

-- The first three fields, and any bytes behind them.
abbrev pub stated : Bool → ℕ → ℕ → List ℕ → List ℕ
stated wants_ack packet_id n body = to_byte (message_type wants_ack) ∷ (packet_id ∷ (n ∷ body))

module _ (etl : Etl) (config : Config) (wants_ack : Bool) (packet_id n : ℕ) (body : List ℕ) where
  -- The outcome by the stated length.
  abbrev pub Outcome : Result Parsed → Type 0
  Outcome r =
      ((n ≤ length body)
        × (r ≡ ok (message wants_ack packet_id (etl.assign_string (take n body)) (drop n body))))
      ⊎ (((n ≡ length body + 1) × (r ≡ fault bad_range))
          ⊎ ((length body + 1 < n) × (r ≡ ok (refused length_of_topic_too_long))))

  abbrev crc : List ℕ
  crc = crc_bytes (etl.crc16_ccitt (stated wants_ack packet_id n body))

  by_type_lem :
      (packet old : List ℕ)
      → by_type etl config (message_type wants_ack) packet_id packet old
        ≡ (split_packet etl packet 2 [] old >>= λ parts. ok (to_message wants_ack packet_id parts))
  unfolding by_type
  by_type_lem packet old = go wants_ack
    where
      go :
          (w : Bool)
          → by_type etl config (message_type w) packet_id packet old
            ≡ (split_packet etl packet 2 [] old >>= λ parts. ok (to_message w packet_id parts))
      go true = refl
      go false = refl

  topic_field :
      n ≤ length body
      → take n (drop (1 + 2) (checked etl (stated wants_ack packet_id n body))) ≡ take n body
  topic_field h = take-append_less n body crc h

  payload_field :
      (room : ℕ)
      → room ≡ length body
      → take (room - n) (drop (1 + 2 + n) (checked etl (stated wants_ack packet_id n body)))
        ≡ drop n body
  payload_field room e =
      let three : 1 + 2 + n ≡ suc (suc (suc n)) = omega arith in
      rw (three, take-drop room n (body ++ crc), take-append room body crc e)

  split_packet-Outcome :
      (old : List ℕ)
      → length body ≤ 246
      → Outcome (
          split_packet etl (checked etl (stated wants_ack packet_id n body)) 2 [] old >>= λ parts.
          ok (to_message wants_ack packet_id parts))
  unfolding to_message
  split_packet-Outcome old h =
      let (fits, one_more, longer) =
        split_packet_ways etl packet 2 [] old (omega (arith, size)) (omega (arith, size)) in
      elim (dec_lt (length body) n) [
        | no l ↦ inl (
          omega arith,
          rw
              (
                fits (omega (arith, size)),
                topic_field (omega arith),
                payload_field (length packet - 3 - 2) (omega (arith, size)),
              )
              refl,
        )
        | yes l ↦ elim (dec_lt (length body + 1) n) [
          | no k ↦ inr (inl (omega arith, rw (one_more (omega (arith, size))) refl))
          | yes k ↦ inr (inr (k, rw (longer (omega (arith, size))) refl))
        ]
      ]
    where
      packet : List ℕ
      packet = checked etl (stated wants_ack packet_id n body)

      size : length packet ≡ length body + 5
      size = omega (arith, length-checked etl (stated wants_ack packet_id n body))

  -- The receiver parses a packet of a type that carries data, with a right checksum, any
  -- identifier, any stated length of the topic, and at most 246 bytes behind it, in one of three
  -- ways. If so many bytes are there, the first of them are the topic, as a `Topic` takes them,
  -- and the others the data; if the stated length is one too large, the call does not come to a
  -- value, for a range whose end lies before its begin; and if it is larger still, the packet is
  -- refused with ERROR_LENGTH_OF_TOPIC_TOO_LONG.
  pub parse_packet_lengths :
      packet_id < 256
      → n < 256
      → All IsByte body
      → length body ≤ 246
      → Outcome
          (parse_packet etl config (frame [] (checked etl (stated wants_ack packet_id n body))))
  parse_packet_lengths i k b h =
      let (named, byte) = of_byte-to_byte wants_ack in
      rw
        (
          parse_packet_lem etl config (stated wants_ack packet_id n body) (byte, (i, (k, b)))
              (omega arith) (omega arith) (omega arith),
          named,
          by_type_lem,
        )
        (split_packet-Outcome _ h)
