-- ===== src/Incoming/Short.antt =====
-- Messages that fit one frame: what `PublishInternal` sends for them, and how the receiver takes the
-- frame from the front of the new data and parses it.
use embedded_serial_filler.Base.{
  ℕ, ◌+◌, ◌≤◌, ◌<◌, ◌≡◌, ◌∙◌, ap, List, [], ◌∷◌, ◌++◌, length, length-append, append_assoc,
  append-nil, All, All-append, IsByte, IsNonzero, Bool, ok, arith,
}
use embedded_serial_filler.Definitions.{Config, to_byte, success, max_packet_size, max_topic_length}
use embedded_serial_filler.Etl.{Etl}
use embedded_serial_filler.Cobs.Frame.{frame, length-frame, full_blocks-le}
use embedded_serial_filler.Cobs.Encoded.{IsCode, frame_body, padding}
use embedded_serial_filler.Utilities.Receive.{move_rx_data_in_buffer}
use embedded_serial_filler.Utilities.Packets.{move_rx_data_in_buffer_packet}
use embedded_serial_filler.Outgoing.Contents.{
  contents, checked, sent, length-checked, checked-IsByte, message_type,
}
use embedded_serial_filler.Incoming.{message, parse_packet}
use embedded_serial_filler.Incoming.Accepts.{parse_packet-message, of_byte-to_byte}

-- A message on its way.
pub record Message : Type 0 where
  pub wants_ack : Bool
  pub packet_id : ℕ
  pub topic : List ℕ
  pub payload : List ℕ

-- Bytes, a topic that fits, and no more than 253 bytes in all, so that no block is full.
pub record IsShort (m : Message) : Type 0 where
  pub byte : m.packet_id < 256
  pub topic_bytes : All IsByte m.topic
  pub payload_bytes : All IsByte m.payload
  pub topic_fits : length m.topic ≤ max_topic_length
  pub short : length m.topic + length m.payload ≤ 248

IsCode→IsNonzero : (xs : List ℕ) → All IsCode xs → All IsNonzero xs
IsCode→IsNonzero [] h = tt
IsCode→IsNonzero (x ∷ xs) h = (h.0.0, IsCode→IsNonzero xs h.1)

module _ (etl : Etl) where
  abbrev pub packet_of : Message → List ℕ
  packet_of m = contents (to_byte (message_type m.wants_ack)) m.packet_id m.topic m.payload

  -- What `PublishInternal` hands over for the message.
  abbrev pub wire : Message → List ℕ
  wire m = sent etl (packet_of m)

  abbrev pub wires : List Message → List ℕ
  wires [] = []
  wires (m ∷ ms) = wire m ++ wires ms

  pub length-packet_of :
      (m : Message) → length (packet_of m) ≡ length m.topic + length m.payload + 3
  length-packet_of m = omega (arith, length-append m.topic m.payload)

  -- A packet of fewer than 252 bytes goes out as one frame, with nothing behind it.
  pub sent-frame :
      (packet : List ℕ) → length packet ≤ 251 → sent etl packet ≡ frame [] (checked etl packet)
  sent-frame packet h =
      let none : padding (checked etl packet) ≡ 0 = omega (
        arith,
        length-checked etl packet,
        length-frame (checked etl packet) [],
        full_blocks-le (checked etl packet) 0,
      ) in
      rw (none, append-nil)

  -- `MoveRxDataInBuffer` finds the frame at the front of the new data.
  pub receive_frame :
      (config : Config) (raw rest : List ℕ)
      → All IsByte raw
      → length (frame [] raw) ≤ max_packet_size
      → move_rx_data_in_buffer etl config (frame [] raw ++ rest) []
        ≡ ok (record {
          status = success;
          new_rx_data = rest;
          rx_data_buffer = [];
          packet = frame [] raw;
        })
  receive_frame config raw rest b h = received (frame_body raw [] (omega arith) tt b)
    where
      received :
          (body : List ℕ) × (frame [] raw ≡ body ++ 0 ∷ []) × All IsCode body
          → move_rx_data_in_buffer etl config (frame [] raw ++ rest) []
            ≡ ok (record {
              status = success;
              new_rx_data = rest;
              rx_data_buffer = [];
              packet = frame [] raw;
            })
      received (body, e, c) =
          rw (e, append_assoc body (0 ∷ []) rest)
            (move_rx_data_in_buffer_packet etl config body rest [] (IsCode→IsNonzero body c)
              (omega (arith, ap length e, length-append body (0 ∷ []))))

  pub length-wire :
      (m : Message)
      → IsShort m
      → (0 < length (frame [] (checked etl (packet_of m))))
        × (length (frame [] (checked etl (packet_of m))) ≤ 255)
  length-wire m v = (
    omega (arith, length-frame (checked etl (packet_of m)) []),
    omega (
      arith,
      length-frame (checked etl (packet_of m)) [],
      length-checked etl (packet_of m),
      length-packet_of m,
      full_blocks-le (checked etl (packet_of m)) 0,
    ),
  )

  pub wire_lem : (m : Message) → IsShort m → wire m ≡ frame [] (checked etl (packet_of m))
  wire_lem m v = sent-frame (packet_of m) (omega (arith, length-packet_of m))

  pub length-wires : (ms : List Message) → All IsShort ms → length ms ≤ length (wires ms)
  length-wires [] vs = omega arith
  length-wires (m ∷ ms) vs = omega (
    arith,
    length-append (wire m) (wires ms),
    ap length (wire_lem m vs.0),
    (length-wire m vs.0).0,
    length-wires ms vs.1,
  )

  pub packet_of-IsByte : (m : Message) → IsShort m → All IsByte (packet_of m)
  packet_of-IsByte m v = typed m.wants_ack
    where
      typed :
          (w : Bool)
          → All IsByte (contents (to_byte (message_type w)) m.packet_id m.topic m.payload)
      typed w = (
        (of_byte-to_byte w).1,
        (v.byte, (omega arith, All-append IsByte m.topic m.payload v.topic_bytes v.payload_bytes)),
      )

  -- One zero, at the end.
  pub wire_body :
      (m : Message)
      → IsShort m
      → (body : List ℕ) × (wire m ≡ body ++ 0 ∷ [])
        × All IsNonzero body
        × (length body < max_packet_size)
  wire_body m v =
      let packet = checked etl (packet_of m) in
      let (body, e, c) =
        frame_body packet [] (omega arith) tt
          (checked-IsByte etl (packet_of m) (packet_of-IsByte m v)) in
      (
        body,
        wire_lem m v ∙ e,
        IsCode→IsNonzero body c,
        omega (arith, ap length e, length-append body (0 ∷ []), (length-wire m v).1),
      )

  module _ (config : Config) where
    pub receive_wire :
        (m : Message) (rest : List ℕ)
        → IsShort m
        → move_rx_data_in_buffer etl config (wire m ++ rest) []
          ≡ ok (record {
            status = success;
            new_rx_data = rest;
            rx_data_buffer = [];
            packet = frame [] (checked etl (packet_of m));
          })
    receive_wire m rest v = rw (wire_lem m v) (
        receive_frame config (checked etl (packet_of m)) rest
          (checked-IsByte etl (packet_of m) (packet_of-IsByte m v))
          (omega (arith, (length-wire m v).1)))

    pub parsed_message :
        (m : Message)
        → IsShort m
        → parse_packet etl config (frame [] (checked etl (packet_of m)))
          ≡ ok (message m.wants_ack m.packet_id m.topic m.payload)
    parsed_message m v =
        parse_packet-message etl config m.wants_ack m.packet_id m.topic m.payload v.byte
          v.topic_bytes v.payload_bytes v.topic_fits (omega arith) (omega arith)
