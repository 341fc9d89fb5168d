-- ===== src/Outgoing.antt =====
-- `EmbeddedSerialFiller::PublishInternal`, which src/EmbeddedSerialFiller_NoRTOS.cpp and
-- src/EmbeddedSerialFiller_RTOS.cpp both hold in the same words. The static `packet` is cleared first,
-- so it keeps nothing from one call to the next.
pub mod Contents
use embedded_serial_filler.Base.{
  ℕ, ◌+◌, ◌%◌, List, [], ◌∷◌, length, leb, ◌==◌, if◌then◌else◌, Bool, true, false, Option, none,
  some, Result, ok, fault, assertion, ◌>>=◌,
}
use embedded_serial_filler.Definitions.{
  Config, PacketType, broadcast, ack, publish, to_byte, max_packet_size,
}
use embedded_serial_filler.Etl.{Etl}
use embedded_serial_filler.Cobs.Encode.{encode}
use embedded_serial_filler.Utilities.Receive.{append_each}
use embedded_serial_filler.Utilities.Crc.{add_crc}

-- What the library makes known to its user: bytes for the serial port, data for a callback, and data
-- that no subscriber listens to. A delegate is known by a number.
pub data Event : Type 0 where
  tx_data_ready : List ℕ → Event
  callback : ℕ → List ℕ → Event
  no_subscribers_for_topic : List ℕ → List ℕ → Event

-- The return value, the identifier that `packetId` refers to afterwards, and the calls of
-- `txDataReady_`.
pub record Published : Type 0 where
  pub ret_val : ℕ
  pub packet_id : ℕ
  pub events : List Event

-- `++packetId`, and once more at 0.
unfoldable pub next_id : ℕ → ℕ
next_id packet_id =
    if (packet_id + 1) % 256 == 0 then ((packet_id + 1) % 256 + 1) % 256 else (packet_id + 1) % 256

abbrev pub is_ack : PacketType → Bool
is_ack ack = true
is_ack _ = false

module _ (etl : Etl) (config : Config) where
  unfoldable pub add_topic : List ℕ → Option (List ℕ) → Result (List ℕ)
  add_topic packet none = ok packet
  add_topic packet (some topic) = do
    packet' ← etl.push_back ℕ max_packet_size packet (length topic % 256)
    if config.optimise then append_each etl config packet' topic else etl.insert_end packet' topic

  unfoldable pub add_data : List ℕ → Option (List ℕ) → Result (List ℕ)
  add_data packet none = ok packet
  add_data packet (some payload) =
      if config.optimise
      then (if leb (length payload) max_packet_size
          then etl.insert_end packet payload
          else fault assertion)
      else append_each etl config packet payload

  unfoldable pub add_fields :
      PacketType → List ℕ → Option (List ℕ) → Option (List ℕ) → Result (List ℕ)
  add_fields broadcast packet topic payload =
      add_topic packet topic >>= λ packet'. add_data packet' payload
  add_fields publish packet topic payload =
      add_topic packet topic >>= λ packet'. add_data packet' payload
  add_fields _ packet topic payload = ok packet

  -- The bytes for the serial port.
  unfoldable pub make_packet : PacketType → ℕ → Option (List ℕ) → Option (List ℕ) → Result (List ℕ)
  make_packet packet_type packet_id topic payload = do
    typed ← etl.push_back ℕ max_packet_size [] (to_byte packet_type)
    named ← etl.push_back ℕ max_packet_size typed packet_id
    packet ← add_fields packet_type named topic payload
    checked ← add_crc etl packet
    encode etl config checked []

  -- `tx_set` says whether `txDataReady_` is set.
  unfoldable pub publish_internal :
      Bool → PacketType → ℕ → Option (List ℕ) → Option (List ℕ) → Result Published
  publish_internal tx_set packet_type packet_id topic payload = do
    encoded_data ← make_packet packet_type packet_id topic payload
    ok (
        if tx_set
        then record {
          ret_val = packet_id;
          packet_id = if is_ack packet_type then packet_id else next_id packet_id;
          events = tx_data_ready encoded_data ∷ [];
        }
        else record { ret_val = packet_id; packet_id = packet_id; events = [] })
