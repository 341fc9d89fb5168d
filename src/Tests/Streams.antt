-- ===== src/Tests/Streams.antt =====
-- Streams of bytes that come in pieces, at concrete inputs.
use embedded_serial_filler.Base.{ℕ, ◌≡◌, ◌≢◌, ◌++◌, refl, List, [], ◌∷◌, ok, arith}
use embedded_serial_filler.Definitions.{success, not_enough_bytes}
use embedded_serial_filler.Cobs.Decode.{decode}
use embedded_serial_filler.Utilities.Receive.{
  end_of_packet, append_each, no_packet, move_loop, move_rx_data_in_buffer,
}
use embedded_serial_filler.Incoming.{refused, parse_packet}
use embedded_serial_filler.Incoming.Short.{wires}
use embedded_serial_filler.Incoming.Loop.Streams.{concat}
use embedded_serial_filler.NoRtos
use embedded_serial_filler.NoRtos.Receiving.{answers}
use embedded_serial_filler.NoRtos.Refused.{give_rx_data-refused}
use embedded_serial_filler.NoRtos.Streams.{resynchronised}
use embedded_serial_filler.Rtos
use embedded_serial_filler.Rtos.Streams.{seen, give_each_threaded-concat}
use embedded_serial_filler.Tests.Container.{test_etl}
use embedded_serial_filler.Tests.{
  fast, clear, idle_node, threaded_node, some_message, some_message-IsShort,
}

-- The end of one packet, and the start of the next.
abbrev some_pieces : List (List ℕ)
some_pieces = (2 ∷ (5 ∷ [])) ∷ ((1 ∷ (0 ∷ (9 ∷ []))) ∷ ((4 ∷ []) ∷ []))

give_each_threaded-concat_example :
    seen (Rtos.Streams.give_each test_etl fast clear threaded_node some_pieces)
    ≡ seen (Rtos.give_rx_data test_etl fast clear threaded_node (concat some_pieces))
give_each_threaded-concat_example =
    give_each_threaded-concat test_etl fast clear threaded_node some_pieces refl (tt, omega arith)

-- A packet that is too short.
short_packet :
    NoRtos.give_rx_data test_etl fast clear idle_node (5 ∷ (0 ∷ (9 ∷ [])))
    ≡ ok (record { status = not_enough_bytes; node = idle_node; rx_data = 9 ∷ []; events = [] })
unfolding NoRtos.give_rx_data NoRtos.give_loop NoRtos.handle move_rx_data_in_buffer move_loop
    end_of_packet append_each no_packet parse_packet decode
short_packet = refl

resynchronised_example :
    NoRtos.give_rx_data test_etl fast clear idle_node (wires test_etl (some_message ∷ []))
    ≡ ok (record {
      status = success;
      node = idle_node;
      rx_data = [];
      events = answers test_etl fast clear idle_node (some_message ∷ []);
    })
resynchronised_example =
    resynchronised test_etl fast clear idle_node (5 ∷ (0 ∷ (9 ∷ [])))
      (record { status = not_enough_bytes; node = idle_node; rx_data = 9 ∷ []; events = [] })
      some_message [] (tt, omega arith) short_packet (λ e. cc) (λ e. cc) some_message-IsShort tt

refused_packet : parse_packet test_etl fast (5 ∷ (0 ∷ [])) ≡ ok (refused not_enough_bytes)
unfolding parse_packet decode
refused_packet = refl

give_rx_data-refused_example :
    (not_enough_bytes ≢ success)
    × (NoRtos.give_rx_data test_etl fast clear idle_node
          (wires test_etl (some_message ∷ []) ++ (5 ∷ (0 ∷ (9 ∷ []))))
        ≡ ok (record {
          status = not_enough_bytes;
          node = idle_node;
          rx_data = 9 ∷ [];
          events = answers test_etl fast clear idle_node (some_message ∷ []);
        }))
give_rx_data-refused_example =
    give_rx_data-refused test_etl fast clear idle_node (5 ∷ []) (9 ∷ []) not_enough_bytes
      (omega arith) (omega arith) refused_packet (some_message ∷ []) refl refl
      (some_message-IsShort, tt)
