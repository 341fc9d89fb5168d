-- ===== src/Outgoing/Contents.antt =====
-- What `PublishInternal` sends.
use embedded_serial_filler.Base.{
  >>=-ok, Option, ℕ, ◌+◌, ◌%◌, ◌≤◌, ◌<◌, ◌≡◌, List, [], ◌∷◌, ◌++◌, length, length-append,
  append_assoc, zeros, if◌then◌else◌, All, All-append, IsByte, Bool, true, false, none, some,
  Result, ok, ◌>>=◌, arith,
}
use embedded_serial_filler.Definitions.{
  Config, PacketType, broadcast, ack, publish, to_byte, max_packet_size, max_topic_length,
}
use embedded_serial_filler.Etl.{Etl}
use embedded_serial_filler.Cobs.Frame.{frame}
use embedded_serial_filler.Cobs.Encoded.{encoded_size, padding, encode-frame}
use embedded_serial_filler.Utilities.Crc.{add_crc}
use embedded_serial_filler.Cobs.Encode.{encode}
use embedded_serial_filler.Utilities.Packets.{append_each_lem}
use embedded_serial_filler.Utilities.Layout.{crc_bytes, add_crc_lem}
use embedded_serial_filler.Outgoing.{
  Published, tx_data_ready, next_id, add_topic, add_data, add_fields, make_packet, publish_internal,
}

-- Packet identifiers are the bytes but 0.
abbrev pub IsPacketId : ℕ → Type 0
IsPacketId packet_id = (0 < packet_id) × (packet_id < 256)

-- Behind an identifier from 1 to 255 comes one from 1 to 255: one more, and 1 behind 255.
pub next_id-IsPacketId :
    (packet_id : ℕ)
    → IsPacketId packet_id
    → IsPacketId (next_id packet_id) × (next_id packet_id ≡ packet_id % 255 + 1)
unfolding next_id
next_id-IsPacketId packet_id h = ground arith

-- The packet format that the class comment gives: type, identifier, length of the topic, topic, data.
abbrev pub contents : ℕ → ℕ → List ℕ → List ℕ → List ℕ
contents packet_type packet_id topic payload =
    packet_type ∷ (packet_id ∷ (length topic ∷ (topic ++ payload)))

abbrev pub ack_contents : ℕ → List ℕ
ack_contents packet_id = 0x41 ∷ (packet_id ∷ [])

-- The two types of packet that carry data.
abbrev pub message_type : Bool → PacketType
message_type true = publish
message_type false = broadcast

module _ (etl : Etl) where
  -- With the checksum behind it.
  abbrev pub checked : List ℕ → List ℕ
  checked packet = packet ++ crc_bytes (etl.crc16_ccitt packet)

  -- The bytes for the serial port: one frame, and at times zeros behind it.
  abbrev pub sent : List ℕ → List ℕ
  sent packet = frame [] (checked packet) ++ zeros (padding (checked packet))

  pub length-checked : (packet : List ℕ) → length (checked packet) ≡ length packet + 2
  length-checked packet = length-append packet (crc_bytes (etl.crc16_ccitt packet))

  pub checked-IsByte : (packet : List ℕ) → All IsByte packet → All IsByte (checked packet)
  checked-IsByte packet b =
      All-append IsByte packet (crc_bytes (etl.crc16_ccitt packet)) b
        (omega (arith, etl.crc16_ccitt_bound packet), (omega arith, tt))

  module _ (config : Config) where
    add_topic_lem :
        (packet topic : List ℕ)
        → length topic ≤ max_topic_length
        → length packet + 1 + length topic ≤ max_packet_size
        → add_topic etl config packet (some topic) ≡ ok (packet ++ length topic ∷ topic)
    unfolding add_topic
    add_topic_lem packet topic h k = ground (
      arith,
      etl.push_back_fits ℕ max_packet_size packet (length topic),
      length-append packet (length topic ∷ []),
      append_each_lem etl config (packet ++ length topic ∷ []) topic,
      etl.insert_end_fits (packet ++ length topic ∷ []) topic,
      append_assoc packet (length topic ∷ []) topic,
    )

    add_data_lem :
        (packet payload : List ℕ)
        → length packet + length payload ≤ max_packet_size
        → add_data etl config packet (some payload) ≡ ok (packet ++ payload)
    unfolding add_data
    add_data_lem packet payload h =
        ground
          (arith, append_each_lem etl config packet payload, etl.insert_end_fits packet payload)

    add_fields_lem :
        (wants_ack : Bool) (packet topic payload : List ℕ)
        → length topic ≤ max_topic_length
        → length packet + 1 + length topic + length payload ≤ max_packet_size
        → add_fields etl config (message_type wants_ack) packet (some topic) (some payload)
          ≡ ok ((packet ++ length topic ∷ topic) ++ payload)
    unfolding add_fields
    add_fields_lem true packet topic payload k l = rw (add_topic_lem packet topic k (omega arith)) (
        add_data_lem (packet ++ length topic ∷ topic) payload
          (omega (arith, length-append packet (length topic ∷ topic))))
    add_fields_lem false packet topic payload k l =
        rw (add_topic_lem packet topic k (omega arith)) (
          add_data_lem (packet ++ length topic ∷ topic) payload
            (omega (arith, length-append packet (length topic ∷ topic))))

    -- A packet from its first fields: the checksum, and the encoding.
    made : List ℕ → Result (List ℕ)
    made packet = add_crc etl packet >>= λ checked_packet. encode etl config checked_packet []

    made_lem :
        (packet : List ℕ)
        → encoded_size (length packet + 2) ≤ max_packet_size
        → made packet ≡ ok (sent packet)
    unfolding made
    made_lem packet h =
        rw (add_crc_lem etl packet (omega arith))
          (encode-frame etl config (checked packet) (rw (length-checked packet) h))

    typed_lem :
        (t id : ℕ)
        → (etl.push_back ℕ max_packet_size [] t ≡ ok (t ∷ []))
          × (etl.push_back ℕ max_packet_size (t ∷ []) id ≡ ok (t ∷ (id ∷ [])))
    typed_lem t id = (
      etl.push_back_fits ℕ max_packet_size [] t (omega arith),
      etl.push_back_fits ℕ max_packet_size (t ∷ []) id (omega arith),
    )

    -- The packet of a broadcast or published message.
    pub make_packet-message :
        (wants_ack : Bool) (packet_id : ℕ) (topic payload : List ℕ)
        → length topic ≤ max_topic_length
        → encoded_size (5 + length topic + length payload) ≤ max_packet_size
        → make_packet etl config (message_type wants_ack) packet_id (some topic) (some payload)
          ≡ ok (sent (contents (to_byte (message_type wants_ack)) packet_id topic payload))
    unfolding make_packet
    make_packet-message wants_ack packet_id topic payload h k =
        let t = to_byte (message_type wants_ack) in
        rw
          (
            (typed_lem t packet_id).0,
            (typed_lem t packet_id).1,
            add_fields_lem wants_ack (t ∷ (packet_id ∷ [])) topic payload h (omega arith),
          )
          (unfold made in made_lem (contents t packet_id topic payload) (rw size k))
      where
        size :
            length (contents (to_byte (message_type wants_ack)) packet_id topic payload) + 2
            ≡ 5 + length topic + length payload
        size = omega (arith, length-append topic payload)

    pub make_packet-ack :
        (packet_id : ℕ)
        → make_packet etl config ack packet_id none none ≡ ok (sent (ack_contents packet_id))
    unfolding make_packet add_fields to_byte
    make_packet-ack packet_id =
        rw ((typed_lem 0x41 packet_id).0, (typed_lem 0x41 packet_id).1)
          (unfold made in made_lem (ack_contents packet_id) (omega arith))

    -- `PublishInternal` with a topic that fits `ESF_MAX_TOPIC_LENGTH` and data whose packet fits
    -- `ESF_MAX_PACKET_SIZE` returns the identifier that it was given. With `txDataReady_` set it
    -- hands over the encoding of these bytes: the value of the packet's type in the enumeration
    -- `PacketType`, 0x50 where an acknowledgement is wanted and else 0x42 (not 0x04 and 0x01, as
    -- the comment of the class has it), the identifier, the length of the topic, the topic, the
    -- data, and the checksum; and the identifier moves on; otherwise nothing is sent and the
    -- identifier stays.
    pub publish_internal-message :
        (tx_set wants_ack : Bool) (packet_id : ℕ) (topic payload : List ℕ)
        → length topic ≤ max_topic_length
        → encoded_size (5 + length topic + length payload) ≤ max_packet_size
        → publish_internal etl config tx_set
            (message_type wants_ack)
            packet_id
            (some topic)
            (some payload)
          ≡ ok (
              if tx_set
              then record {
                ret_val = packet_id;
                packet_id = next_id packet_id;
                events =
                    tx_data_ready
                      (sent (contents (to_byte (message_type wants_ack)) packet_id topic payload))
                    ∷ [];
              }
              else record { ret_val = packet_id; packet_id = packet_id; events = [] })
    unfolding publish_internal
    publish_internal-message tx_set true packet_id topic payload h k =
        rw (make_packet-message true packet_id topic payload h k)
    publish_internal-message tx_set false packet_id topic payload h k =
        rw (make_packet-message false packet_id topic payload h k)

    -- Whatever is sent, the identifier stays in range.
    pub publish_internal-IsPacketId :
        (tx_set : Bool) (packet_type : PacketType) (packet_id : ℕ) (topic payload : Option (List ℕ))
        (p : Published)
        → publish_internal etl config tx_set packet_type packet_id topic payload ≡ ok p
        → IsPacketId packet_id
        → IsPacketId p.packet_id
    unfolding publish_internal
    publish_internal-IsPacketId tx_set packet_type packet_id topic payload p h v =
        let (encoded, e, k) =
          >>=-ok (make_packet etl config packet_type packet_id topic payload) _ p h in
        ground (arith, k, (next_id-IsPacketId packet_id v).0)

    -- An acknowledgement carries the identifier that it acknowledges, and leaves it alone.
    pub publish_internal-ack :
        (tx_set : Bool) (packet_id : ℕ)
        → publish_internal etl config tx_set ack packet_id none none
          ≡ ok (record {
            ret_val = packet_id;
            packet_id = packet_id;
            events = if tx_set then tx_data_ready (sent (ack_contents packet_id)) ∷ [] else [];
          })
    unfolding publish_internal
    publish_internal-ack true packet_id = rw (make_packet-ack packet_id)
    publish_internal-ack false packet_id = rw (make_packet-ack packet_id)
