-- ===== src/Rtos/Receiving.antt =====
-- `GiveRxData` of src/EmbeddedSerialFiller_RTOS.cpp on what `PublishInternal` sends.
use embedded_serial_filler.Base.{
  ℕ, zero, suc, ◌<◌, ◌≡◌, refl, sym, ◌∙◌, ap, List, [], ◌∷◌, ◌++◌, length, length-append, All,
  if◌then◌else◌, none, ok, ◌>>=◌, arith,
}
use embedded_serial_filler.Definitions.{Config, success}
use embedded_serial_filler.Etl.{Etl}
use embedded_serial_filler.Cobs.Frame.{frame}
use embedded_serial_filler.Utilities.Receive.{Received, move_rx_data_in_buffer}
use embedded_serial_filler.Outgoing.{tx_data_ready}
use embedded_serial_filler.Outgoing.Contents.{ack_contents, checked, sent, publish_internal-ack}
use embedded_serial_filler.Incoming.{Parsed, message, parse_packet}
use embedded_serial_filler.Incoming.Short.{
  Message, IsShort, packet_of, wire, wires, length-wire, wire_lem, length-wires, receive_wire,
  parsed_message,
}
use embedded_serial_filler.Rtos.{
  Action, emit, locked, give_body, Node, acknowledge, deliver, handle, next_packet, give_loop,
  give_rx_data, before,
}

module _ (etl : Etl) where
  module _ (config : Config) (effect : ℕ → List ℕ → List ℕ) (node : Node) where
    -- What a message sets off: the acknowledgement, if one is wanted, and then the callbacks.
    abbrev pub answer : Message → List Action
    answer m =
        (if m.wants_ack
          then (if node.tx_data_ready_set
              then emit (tx_data_ready (sent etl (ack_contents m.packet_id))) ∷ []
              else [])
          else [])
        ++ deliver etl config effect node m.topic m.payload

    abbrev pub answers : List Message → List Action
    answers [] = []
    answers (m ∷ ms) = answer m ++ answers ms

    -- A round that goes on.
    give_loop_step :
        (f : ℕ) (at_node : Node) (rx_data packet : List ℕ) (parsed : Parsed) (events : List Action)
        (r : Received)
        → 0 < length packet
        → parse_packet etl config packet ≡ ok parsed
        → handle etl config effect at_node parsed ≡ ok (none, events)
        → next_packet etl config effect at_node rx_data ≡ ok r
        → r.status ≡ success
        → give_loop etl config effect (suc f) at_node rx_data packet ≡ (
            give_loop etl config effect f
              (record at_node { rx_buffer = r.rx_data_buffer })
              r.new_rx_data
              r.packet
            >>= λ g. ok (before events g))
    unfolding give_loop
    give_loop_step f at_node rx_data [] parsed events r l p h n s = absurd (omega arith)
    give_loop_step f at_node rx_data (x ∷ packet) parsed events r l p h n s = rw (p, h, n, s)

    handle_message :
        (m : Message)
        → handle etl config effect node (message m.wants_ack m.packet_id m.topic m.payload)
          ≡ ok (none, answer m)
    unfolding handle acknowledge
    handle_message m =
        ground (arith, publish_internal-ack etl config node.tx_data_ready_set m.packet_id)

    module _ (empty : node.rx_buffer ≡ []) where
      quiet : record node { rx_buffer = [] } ≡ node
      quiet = ap (λ (b : List ℕ). record node { rx_buffer = b }) (sym empty)

      next_packet_lem :
          (rx_data : List ℕ)
          → 0 < length rx_data
          → next_packet etl config effect node rx_data
            ≡ move_rx_data_in_buffer etl config rx_data node.rx_buffer
      unfolding next_packet
      next_packet_lem [] h = absurd (omega arith)
      next_packet_lem (x ∷ rx_data) h = refl

      give_loop-wires :
          (ms : List Message) (m : Message) (f : ℕ)
          → length ms < f
          → IsShort m
          → All IsShort ms
          → give_loop etl config effect f node
              (wires etl ms)
              (frame [] (checked etl (packet_of etl m)))
            ≡ ok (record {
              status = success;
              node = node;
              rx_data = [];
              actions = answer m ++ answers ms;
            })
      unfolding give_loop next_packet
      give_loop-wires ms m zero l v vs = absurd (omega arith)
      give_loop-wires [] m (suc f) l v vs =
          give_loop_step f node [] (frame [] (checked etl (packet_of etl m)))
            (message m.wants_ack m.packet_id m.topic m.payload) (answer m) _ (length-wire etl m v).0
            (parsed_message etl config m v) (handle_message m) refl refl
      give_loop-wires (m' ∷ ms) m (suc f) l v vs =
          give_loop_step f node (wires etl (m' ∷ ms)) (frame [] (checked etl (packet_of etl m)))
            (message m.wants_ack m.packet_id m.topic m.payload) (answer m)
            (record {
              status = success;
              new_rx_data = wires etl ms;
              rx_data_buffer = [];
              packet = frame [] (checked etl (packet_of etl m'));
            })
            (length-wire etl m v).0 (parsed_message etl config m v) (handle_message m)
            (next_packet_lem (wires etl (m' ∷ ms)) (
                omega (
                  arith,
                  length-append (wire etl m') (wires etl ms),
                  ap length (wire_lem etl m' vs.0),
                  (length-wire etl m' vs.0).0,
                ))
              ∙ ap (move_rx_data_in_buffer etl config (wires etl (m' ∷ ms))) empty
              ∙ receive_wire etl config m' (wires etl ms) vs.0)
            refl
          ∙ rw (quiet, give_loop-wires ms m' f (omega arith) vs.0 vs.1)

      -- A call of `GiveRxData` of the node for several threads on the packets of short messages
      -- (at most 248 bytes of topic and data), one behind the other, with nothing in the buffer,
      -- succeeds: under the lock it takes all the bytes, leaves the node as it was, and for each
      -- message in turn sends the acknowledgement, where one is wanted and `txDataReady_` is set,
      -- before it calls, without the lock, the subscribers of the topic, or the callback for
      -- topics without an entry (an entry that `Unsubscribe` has left empty calls nothing).
      pub give_rx_data_messages :
          (m : Message) (ms : List Message)
          → IsShort m
          → All IsShort ms
          → give_rx_data etl config effect node (wires etl (m ∷ ms))
            ≡ ok (record {
              status = success;
              node = node;
              rx_data = [];
              actions = locked node (answers (m ∷ ms));
            })
      unfolding give_rx_data give_body
      give_rx_data_messages m ms v vs = rw (
        ap (move_rx_data_in_buffer etl config (wires etl (m ∷ ms))) empty,
        receive_wire etl config m (wires etl ms) v,
        quiet,
        give_loop-wires ms m (suc (length (wires etl (m ∷ ms))))
            (omega (arith, length-append (wire etl m) (wires etl ms), length-wires etl ms vs)) v vs,
      )
