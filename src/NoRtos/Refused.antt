-- ===== src/NoRtos/Refused.antt =====
-- `GiveRxData` of src/EmbeddedSerialFiller_NoRTOS.cpp on a packet that is refused, among others.
use embedded_serial_filler.Base.{
  ℕ, suc, ◌<◌, ◌≡◌, ◌≢◌, refl, sym, ◌∙◌, ap, subst, List, [], ◌∷◌, ◌++◌, append-nil, length,
  length-append, All, IsNonzero, false, ok, arith,
}
use embedded_serial_filler.Definitions.{Config, StatusCode, success, max_packet_size}
use embedded_serial_filler.Etl.{Etl}
use embedded_serial_filler.Utilities.Packets.{move_rx_data_in_buffer_packet}
use embedded_serial_filler.Incoming.{refused, parse_packet}
use embedded_serial_filler.Incoming.Total.{parse_packet-IsProper}
use embedded_serial_filler.Incoming.Short.{Message, IsShort, wires}
use embedded_serial_filler.Incoming.Loop.{before, behind, rest_of_round, loop, receive}
use embedded_serial_filler.Incoming.Loop.Partial.{receive-wires}
use embedded_serial_filler.NoRtos.{Node, handle, give_rx_data}
use embedded_serial_filler.NoRtos.Loop.{receiver, as_given, give_rx_data-receive}
use embedded_serial_filler.NoRtos.Receiving.{answer, answers}
use embedded_serial_filler.NoRtos.Link.Delivery.{receive-wire, all_answers-answers}

module _ (etl : Etl) (config : Config) (effect : ℕ → List ℕ → List ℕ) where
  loop-refused :
      (f : ℕ) (node : Node) (rx_data packet : List ℕ) (s : StatusCode)
      → 0 < length packet
      → parse_packet etl config packet ≡ ok (refused s)
      → loop etl config (receiver etl config effect) (suc f) node rx_data packet
        ≡ ok (record { status = s; node = node; rx_data = rx_data; actions = [] })
  unfolding loop rest_of_round handle
  loop-refused f node rx_data [] s l p = absurd (omega arith)
  loop-refused f node rx_data (x ∷ packet) s l p = rw p refl

  module _ (node : Node) (body rest : List ℕ) (s : StatusCode) (c : All IsNonzero body)
      (fits : length body < max_packet_size)
      (bad : parse_packet etl config (body ++ 0 ∷ []) ≡ ok (refused s)) where
    receive-refused :
        receive etl config
          (receiver etl config effect)
          (record node { rx_buffer = [] })
          (body ++ 0 ∷ rest)
        ≡ ok (record {
          status = s;
          node = record node { rx_buffer = [] };
          rx_data = rest;
          actions = [];
        })
    unfolding receive behind
    receive-refused = rw (move_rx_data_in_buffer_packet etl config body rest [] c (omega arith)) (
        ap (before etl config (receiver etl config effect) []) (
          loop-refused (length (body ++ 0 ∷ rest)) (record node { rx_buffer = [] }) rest
            (body ++ 0 ∷ []) s (omega (arith, length-append body (0 ∷ []))) bad))

    -- A packet that is refused costs only itself: from an empty buffer, without
    -- `ESF_REJECT_INCOMPLETE_PACKETS`, when the packets of short messages (at most 248 bytes of
    -- topic and data) are followed by non-zero bytes and a zero, within the capacity, that are
    -- refused as a packet, and by any other bytes, `GiveRxData` acknowledges and delivers each of
    -- the messages, returns the error of the refusal, which is not SUCCESS, leaves the node as it
    -- was, its buffer empty, and leaves in `rxData` just what is behind the packet.
    pub give_rx_data-refused :
        (ms : List Message)
        → config.reject_incomplete_packets ≡ false
        → node.rx_buffer ≡ []
        → All IsShort ms
        → (s ≢ success)
          × (give_rx_data etl config effect node (wires etl ms ++ (body ++ 0 ∷ rest))
              ≡ ok (record {
                status = s;
                node = node;
                rx_data = rest;
                events = answers etl config effect node ms;
              }))
    give_rx_data-refused ms lax empty v =
        (parse_packet-IsProper etl config (body ++ 0 ∷ []) (refused s) bad, subst At quiet at_empty)
      where
        quiet : record node { rx_buffer = [] } ≡ node
        quiet = ap (λ b. record node { rx_buffer = b }) (sym empty)

        At : Node → Type 0
        At n =
            give_rx_data etl config effect n (wires etl ms ++ (body ++ 0 ∷ rest))
            ≡ ok (record {
              status = s;
              node = n;
              rx_data = rest;
              events = answers etl config effect node ms;
            })

        at_empty : At (record node { rx_buffer = [] })
        at_empty =
            give_rx_data-receive etl config effect (record node { rx_buffer = [] })
              (wires etl ms ++ (body ++ 0 ∷ rest))
            ∙ ap (as_given etl config effect) (
                receive-wires etl config lax (receiver etl config effect)
                  (record node { rx_buffer = [] }) refl (answer etl config effect node)
                  (receive-wire etl config effect lax node) ms (body ++ 0 ∷ rest) v
                ∙ ap (before etl config (receiver etl config effect) _) receive-refused)
            ∙ ap
                (λ l. ok (record {
                  status = s;
                  node = record node { rx_buffer = [] };
                  rx_data = rest;
                  events = l;
                }))
                (append-nil _ ∙ all_answers-answers etl config effect lax node ms)
