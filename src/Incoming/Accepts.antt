-- ===== src/Incoming/Accepts.antt =====
-- The receiver reads back what `PublishInternal` sent, and never stops without a result.
use embedded_serial_filler.Base.{
  ℕ, suc, ◌+◌, ◌-◌, ◌/◌, ◌≤◌, ◌<◌, ◌≡◌, refl, ◌∙◌, inl, inr, List, [], ◌++◌, length, length-append,
  append_assoc, take, drop, take-append, drop-append, append-nil, get_or, All, All-append, IsByte,
  Bool, true, false, Bool-cases, ok, arith,
}
use embedded_serial_filler.Definitions.{
  Config, to_byte, of_byte, success, max_packet_size, max_topic_length,
}
use embedded_serial_filler.Etl.{Etl}
use embedded_serial_filler.Cobs.Decode.{decode}
use embedded_serial_filler.Cobs.Frame.{frame, full_blocks}
use embedded_serial_filler.Cobs.Encoded.{encoded_size}
use embedded_serial_filler.Cobs.RoundTrip.{decode_vector-frame}
use embedded_serial_filler.Cobs.Presized.{decode-packet}
use embedded_serial_filler.Utilities.Crc.{verify_crc}
use embedded_serial_filler.Utilities.Split.{split_packet}
use embedded_serial_filler.Utilities.Layout.{crc_bytes, verify_crc-success, split_packet_ways}
use embedded_serial_filler.Outgoing.Contents.{
  contents, ack_contents, checked, length-checked, checked-IsByte, message_type,
}
use embedded_serial_filler.Incoming.{
  message, acknowledged, to_message, by_type, parse_decoded, parse_packet,
}

pub of_byte-to_byte :
    (w : Bool)
    → (of_byte (to_byte (message_type w)) ≡ message_type w) × (to_byte (message_type w) < 256)
unfolding of_byte to_byte
of_byte-to_byte true = (refl, omega arith)
of_byte-to_byte false = (refl, omega arith)

module _ (etl : Etl) where
  -- Enough of the blocks are full for the pre-sized container to hold all raw data.
  decode_whole :
      (config : Config) (raw : List ℕ)
      → All IsByte raw
      → 0 < length raw
      → encoded_size (length raw) ≤ max_packet_size
      → (length raw - 1) / 254 ≤ full_blocks 0 raw
      → decode etl config (frame [] raw) [] ≡ ok (success, raw)
  decode_whole config raw b some h k = elim (Bool-cases config.optimise) [
    | inl fast ↦
        let (n, e, whole) = decode-packet etl config raw fast b some h in rw (whole.1 k) at e
    | inr slow ↦ slow_case slow
  ]
    where
      slow_case : config.optimise ≡ false → decode etl config (frame [] raw) [] ≡ ok (success, raw)
      slow_case slow =
          unfold decode in
          rw slow (rw append-nil at (decode_vector-frame etl raw [] b (omega arith)))

  verify_checked :
      (packet : List ℕ) → 0 < length packet → verify_crc etl (checked etl packet) ≡ success
  verify_checked packet some =
      (verify_crc-success etl packet (etl.crc16_ccitt packet / 256) _ some
          (omega (arith, etl.crc16_ccitt_bound packet)) (omega arith)).1
        (omega arith)

  module _ (config : Config) where
    pub parse_packet_lem :
        (packet : List ℕ)
        → All IsByte packet
        → 0 < length packet
        → encoded_size (length packet + 2) ≤ max_packet_size
        → (length packet + 1) / 254 ≤ full_blocks 0 (checked etl packet)
        → parse_packet etl config (frame [] (checked etl packet))
          ≡ by_type etl config
              (of_byte (get_or (checked etl packet) 0 0))
              (get_or (checked etl packet) 1 0)
              (checked etl packet)
              (frame [] (checked etl packet))
    unfolding parse_packet parse_decoded
    parse_packet_lem packet b some h k = rw (
      decode_whole config (checked etl packet) (checked-IsByte etl packet b)
          (omega (arith, length-checked etl packet)) (rw (length-checked etl packet) h)
          (omega (arith, length-checked etl packet)),
      verify_checked packet some,
    )

    split_contents :
        (t packet_id : ℕ) (topic payload old : List ℕ)
        → length topic ≤ max_topic_length
        → encoded_size (5 + length topic + length payload) ≤ max_packet_size
        → split_packet etl (checked etl (contents t packet_id topic payload)) 2 [] old
          ≡ ok (record { status = success; topic = topic; payload = payload })
    split_contents t packet_id topic payload old h k =
        rw (topic_field, etl.assign_string_fits topic h, payload_field) at
          ((split_packet_ways etl packet 2 [] old (omega (arith, size)) (omega (arith, size))).0
            (omega (arith, size)))
      where
        packet : List ℕ
        packet = checked etl (contents t packet_id topic payload)

        crc : List ℕ
        crc = crc_bytes (etl.crc16_ccitt (contents t packet_id topic payload))

        size : length packet ≡ 5 + length topic + length payload
        size = omega (
          arith,
          length-checked etl (contents t packet_id topic payload),
          length-append topic payload,
        )

        topic_field : take (length topic) (drop (1 + 2) packet) ≡ topic
        topic_field =
            rw (append_assoc topic payload crc)
              (take-append (length topic) topic (payload ++ crc) refl)

        behind : drop (1 + 2 + length topic) packet ≡ payload ++ crc
        behind =
            let e : 1 + 2 + length topic ≡ suc (suc (suc (length topic))) = omega arith in
            rw (e, append_assoc topic payload crc)
              (drop-append (length topic) topic (payload ++ crc) refl)

        payload_field :
            take (length packet - 3 - 2 - length topic) (drop (1 + 2 + length topic) packet)
            ≡ payload
        payload_field =
            rw behind
              (take-append (length packet - 3 - 2 - length topic) payload crc (omega (arith, size)))

    by_type_message :
        (w : Bool) (t packet_id : ℕ) (topic payload old : List ℕ)
        → of_byte t ≡ message_type w
        → length topic ≤ max_topic_length
        → encoded_size (5 + length topic + length payload) ≤ max_packet_size
        → by_type etl config
            (of_byte t)
            packet_id
            (checked etl (contents t packet_id topic payload))
            old
          ≡ ok (message w packet_id topic payload)
    unfolding by_type to_message
    by_type_message true t packet_id topic payload old e h k =
        rw (e, split_contents t packet_id topic payload old h k)
    by_type_message false t packet_id topic payload old e h k =
        rw (e, split_contents t packet_id topic payload old h k)

    -- The receiver parses the packet of a broadcast or published message as that message: bytes
    -- whose packet fits `ESF_MAX_PACKET_SIZE`, with a topic that fits `ESF_MAX_TOPIC_LENGTH`, and
    -- with at least (length - 1) / 254 full blocks in the encoding.
    pub parse_packet-message :
        (wants_ack : Bool) (packet_id : ℕ) (topic payload : List ℕ)
        → packet_id < 256
        → All IsByte topic
        → All IsByte payload
        → length topic ≤ max_topic_length
        → encoded_size (5 + length topic + length payload) ≤ max_packet_size
        → (length topic + length payload + 4) / 254
          ≤ full_blocks 0
              (checked etl (contents (to_byte (message_type wants_ack)) packet_id topic payload))
        → parse_packet etl config (
            frame []
              (checked etl (contents (to_byte (message_type wants_ack)) packet_id topic payload)))
          ≡ ok (message wants_ack packet_id topic payload)
    parse_packet-message wants_ack packet_id topic payload i bt bp h k f =
        let t = to_byte (message_type wants_ack) in
        let (named, byte) = of_byte-to_byte wants_ack in
        parse_packet_lem (contents t packet_id topic payload)
          (byte, (i, (omega arith, All-append IsByte topic payload bt bp))) (omega arith)
          (rw size k) (rw plus f)
        ∙ by_type_message wants_ack t packet_id topic payload _ named h k
      where
        size :
            length (contents (to_byte (message_type wants_ack)) packet_id topic payload) + 2
            ≡ 5 + length topic + length payload
        size = omega (arith, length-append topic payload)

        plus :
            length (contents (to_byte (message_type wants_ack)) packet_id topic payload) + 1
            ≡ length topic + length payload + 4
        plus = omega (arith, length-append topic payload)

    pub parse_packet-ack :
        (packet_id : ℕ)
        → packet_id < 256
        → parse_packet etl config (frame [] (checked etl (ack_contents packet_id)))
          ≡ ok (acknowledged packet_id)
    unfolding by_type of_byte
    parse_packet-ack packet_id i =
        parse_packet_lem (ack_contents packet_id) (omega arith) (omega arith) (omega arith)
          (omega arith)
