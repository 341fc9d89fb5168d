-- ===== src/NoRtos/Acks.antt =====
-- Acknowledgements: `GiveRxData` and `PublishWait` of src/EmbeddedSerialFiller_NoRTOS.cpp together.
use embedded_serial_filler.Base.{
  ℕ, suc, ◌+◌, ◌≤◌, ◌<◌, ◌≡◌, refl, sym, ap, List, [], ◌∷◌, ◌++◌, length, append-nil, All, IsByte,
  ◌==◌, if◌then◌else◌, true, ok, arith,
}
use embedded_serial_filler.Definitions.{
  Config, PublishResponse, to_byte, success, unexpected_ack, max_packet_size, max_topic_length,
}
use embedded_serial_filler.Etl.{Etl}
use embedded_serial_filler.Cobs.Frame.{frame, length-frame, full_blocks-le}
use embedded_serial_filler.Utilities.Receive.{move_rx_data_in_buffer}
use embedded_serial_filler.Cobs.Encoded.{encoded_size}
use embedded_serial_filler.Outgoing.{tx_data_ready, next_id}
use embedded_serial_filler.Outgoing.Contents.{
  ack_contents, sent, checked, length-checked, checked-IsByte, IsPacketId,
}
use embedded_serial_filler.Incoming.{acknowledged, parse_packet}
use embedded_serial_filler.Incoming.Accepts.{parse_packet-ack}
use embedded_serial_filler.Incoming.Short.{Message, wire, sent-frame, receive_frame}
use embedded_serial_filler.NoRtos.{
  Node, Statics, Given, entry_point, continuation_point, no_ack, got_ack, AckEvent, no_event,
  deliver, handle, next_packet, give_loop, give_rx_data, await_ack, finish_wait, publish_wait,
}
use embedded_serial_filler.NoRtos.Receiving.{give_rx_data-wires}
use embedded_serial_filler.NoRtos.Waiting.{
  first_events, publish_wait_first, publish_wait_acknowledged,
}

module _ (etl : Etl) (config : Config) (effect : ℕ → List ℕ → List ℕ) where
  -- The bytes of an acknowledgement.
  abbrev pub ack_wire : ℕ → List ℕ
  ack_wire packet_id = sent etl (ack_contents packet_id)

  -- What the node makes of an acknowledgement.
  abbrev pub after_ack : Node → ℕ → Given
  after_ack node packet_id =
      if node.ack_event.packet_id == packet_id
      then record {
        status = success;
        node = record node {
          ack_event = record { packet_id = node.ack_event.packet_id; state = got_ack };
        };
        rx_data = [];
        events = [];
      }
      else record { status = unexpected_ack; node = node; rx_data = []; events = [] }

  give_loop-ack :
      (f : ℕ) (node : Node) (packet_id : ℕ) (packet : List ℕ)
      → 0 < length packet
      → parse_packet etl config packet ≡ ok (acknowledged packet_id)
      → give_loop etl config effect (suc f) node [] packet ≡ ok (after_ack node packet_id)
  unfolding give_loop handle next_packet
  give_loop-ack f node packet_id [] h p = absurd (omega arith)
  give_loop-ack f node packet_id (x ∷ packet) h p = ground (arith, p)

  -- `GiveRxData` on an acknowledgement, with nothing in the buffer: with the identifier that the
  -- node waits for it returns SUCCESS, marks the event and does nothing else; with another
  -- identifier it returns ERROR_UNEXPECTED_ACK and changes nothing.
  pub give_rx_data-ack :
      (node : Node) (packet_id : ℕ)
      → node.rx_buffer ≡ []
      → packet_id < 256
      → give_rx_data etl config effect node (ack_wire packet_id) ≡ ok (after_ack node packet_id)
  unfolding give_rx_data
  give_rx_data-ack node packet_id e h =
      rw (framed, ap (move_rx_data_in_buffer etl config (frame [] raw)) e, received, quiet)
        (give_loop-ack (length (frame [] raw)) node packet_id (frame [] raw)
          (omega (arith, length-frame raw [])) (parse_packet-ack etl config packet_id h))
    where
      raw : List ℕ
      raw = checked etl (ack_contents packet_id)

      framed : ack_wire packet_id ≡ frame [] raw
      framed = sent-frame etl (ack_contents packet_id) (omega arith)

      quiet : record node { rx_buffer = [] } ≡ node
      quiet = ap (λ (b : List ℕ). record node { rx_buffer = b }) (sym e)

      received :
          move_rx_data_in_buffer etl config (frame [] raw) []
          ≡ ok (record {
            status = success;
            new_rx_data = [];
            rx_data_buffer = [];
            packet = frame [] raw;
          })
      received = rw append-nil at (
          receive_frame etl config raw []
            (checked-IsByte etl (ack_contents packet_id) (omega arith))
            (omega (
              arith,
              length-frame raw [],
              length-checked etl (ack_contents packet_id),
              full_blocks-le raw 0,
            )))

  -- A whole exchange between two nodes that have `txDataReady_` set and empty buffers, with a
  -- timeout of at least 2. An idle node `a` publishes at most 248 bytes of topic and data with
  -- `PublishWait` and gets PENDING; node `b`, given the bytes, answers with the acknowledgement
  -- before its callbacks; `a`, given that, takes it; and its next call of `PublishWait` returns
  -- SUCCESS, with `a` idle again and at its next identifier.
  pub acknowledged_exchange :
      (statics : Statics) (a b : Node) (topic payload : List ℕ) (timeout : ℕ)
      → statics.pw_state ≡ entry_point
      → a.ack_event ≡ no_event
      → IsPacketId a.next_packet_id
      → a.tx_data_ready_set ≡ true
      → b.tx_data_ready_set ≡ true
      → a.rx_buffer ≡ []
      → b.rx_buffer ≡ []
      → All IsByte topic
      → All IsByte payload
      → length topic ≤ max_topic_length
      → length topic + length payload ≤ 248
      → 2 ≤ timeout
      → (statics' statics'' : Statics) × (a' a'' : Node) × (bytes : List ℕ) × (publish_wait etl
            config statics a topic payload timeout
          ≡ ok ((PublishResponse.pending, statics', a'), tx_data_ready bytes ∷ []))
        × (give_rx_data etl config effect b bytes
            ≡ ok (record {
              status = success;
              node = b;
              rx_data = [];
              events =
                  tx_data_ready (ack_wire a.next_packet_id)
                  ∷ (deliver etl config effect b topic payload ++ []);
            }))
        × (give_rx_data etl config effect a' (ack_wire a.next_packet_id)
            ≡ ok (record { status = success; node = a''; rx_data = []; events = [] }))
        × (publish_wait etl config statics' a'' topic payload timeout
            ≡ ok (
              (
                PublishResponse.success,
                statics'',
                record a { next_packet_id = next_id a.next_packet_id; ack_event = no_event },
              ),
              [],
            ))
  unfolding await_ack finish_wait to_byte
  acknowledged_exchange statics a b topic payload timeout e idle id ta tb ra rb bt bp tf short two =
      (
        record { pw_state = continuation_point; timeout_count = 1 },
        record { pw_state = entry_point; timeout_count = 2 },
        waiting a,
        record (waiting a) { ack_event = record { packet_id = a.next_packet_id; state = got_ack } },
        wire etl m,
        published,
        answered,
        taken,
        publish_wait_acknowledged etl config topic payload tf (omega arith) _ _ timeout refl refl
            two,
      )
    where
      m : Message
      m = record {
        wants_ack = true;
        packet_id = a.next_packet_id;
        topic = topic;
        payload = payload;
      }

      waiting : Node → Node
      waiting n = record n {
        next_packet_id = next_id n.next_packet_id;
        ack_event = record { packet_id = n.next_packet_id; state = no_ack };
      }

      idle_id : a.ack_event.packet_id ≡ 0
      idle_id = ap (λ (v : AckEvent). v.packet_id) idle

      published :
          publish_wait etl config statics a topic payload timeout
          ≡ ok (
            (
              PublishResponse.pending,
              record { pw_state = continuation_point; timeout_count = 1 },
              waiting a,
            ),
            tx_data_ready (wire etl m) ∷ [],
          )
      published = ground (
        arith,
        publish_wait_first etl config topic payload tf (omega arith) statics a timeout e idle_id,
        idle,
      )

      answered :
          give_rx_data etl config effect b (wire etl m)
          ≡ ok (record {
            status = success;
            node = b;
            rx_data = [];
            events =
                tx_data_ready (ack_wire a.next_packet_id)
                ∷ (deliver etl config effect b topic payload ++ []);
          })
      answered = ground (
        arith,
        give_rx_data-wires etl config effect b rb m []
            (record {
              byte = id.1;
              topic_bytes = bt;
              payload_bytes = bp;
              topic_fits = tf;
              short = short;
            })
            tt,
        append-nil (wire etl m),
      )

      taken :
          give_rx_data etl config effect (waiting a) (ack_wire a.next_packet_id)
          ≡ ok (record {
            status = success;
            node = record (waiting a) {
              ack_event = record { packet_id = a.next_packet_id; state = got_ack };
            };
            rx_data = [];
            events = [];
          })
      taken = ground (arith, give_rx_data-ack (waiting a) a.next_packet_id ra id.1)

  -- An acknowledgement that nobody waits for, with the identifier 0: an idle node with nothing in
  -- its buffer takes it with SUCCESS, and the next message that it publishes with `PublishWait`,
  -- one that fits, with a timeout above 0, counts as acknowledged at once, before anything has
  -- come back.
  pub unsolicited_ack :
      (statics : Statics) (node : Node) (topic payload : List ℕ) (timeout : ℕ)
      → statics.pw_state ≡ entry_point
      → node.ack_event ≡ no_event
      → node.rx_buffer ≡ []
      → length topic ≤ max_topic_length
      → encoded_size (5 + length topic + length payload) ≤ max_packet_size
      → 0 < timeout
      → (node' node'' : Node) × (statics' : Statics) × (give_rx_data etl config effect node
            (ack_wire 0)
          ≡ ok (record { status = success; node = node'; rx_data = []; events = [] }))
        × (publish_wait etl config statics node' topic payload timeout
            ≡ ok (
              (PublishResponse.success, statics', node''),
              first_events etl config topic payload node,
            ))
  unfolding await_ack finish_wait
  unsolicited_ack statics node topic payload timeout e idle empty tf fits t = (
    record node { ack_event = record { packet_id = 0; state = got_ack } },
    record node {
      next_packet_id =
          if node.tx_data_ready_set then next_id node.next_packet_id else node.next_packet_id;
      ack_event = no_event;
    },
    record { pw_state = entry_point; timeout_count = 1 },
    ground (arith, give_rx_data-ack node 0 empty (omega arith), idle),
    ground (
      arith,
      publish_wait_first etl config topic payload tf fits statics
          (record node { ack_event = record { packet_id = 0; state = got_ack } }) timeout e refl,
    ),
  )
