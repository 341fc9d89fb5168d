-- ===== src/Tests/Threads.antt =====
-- src/EmbeddedSerialFiller_RTOS.cpp at concrete inputs.
use embedded_serial_filler.Base.{ℕ, ◌≡◌, refl, List, [], ◌∷◌, same_bytes, false, some, ok, arith}
use embedded_serial_filler.Definitions.{success}
use embedded_serial_filler.Incoming.Short.{wires}
use embedded_serial_filler.Rtos
use embedded_serial_filler.Rtos.Receiving
use embedded_serial_filler.Rtos.Receiving.{give_rx_data_messages}
use embedded_serial_filler.Incoming.Total.{Ends}
use embedded_serial_filler.Rtos.Progress.{IsTaken, give_rx_data_threaded-Ends}
use embedded_serial_filler.Rtos.Locking.{run_lock, give_rx_data_locking}
use embedded_serial_filler.Tests.Container.{test_etl}
use embedded_serial_filler.Registry.{find_topic}
use embedded_serial_filler.Rtos.Subscribing.{subscribe-unsubscribe}
use embedded_serial_filler.Tests.{
  fast, clear, some_message, some_message-IsShort, some_topic, some_subscribers-IsRoomy, listener,
  threaded_node,
}

give_rx_data_messages_example :
    Rtos.give_rx_data test_etl fast clear threaded_node
      (wires test_etl (some_message ∷ (some_message ∷ [])))
    ≡ ok (record {
      status = success;
      node = threaded_node;
      rx_data = [];
      actions = Rtos.locked threaded_node (
          Receiving.answers test_etl fast clear threaded_node (some_message ∷ (some_message ∷ [])));
    })
give_rx_data_messages_example =
    give_rx_data_messages test_etl fast clear threaded_node refl some_message (some_message ∷ [])
      some_message-IsShort (some_message-IsShort, tt)

give_rx_data_locking_example :
    run_lock false (
      Rtos.locked threaded_node
        (Receiving.answers test_etl fast clear threaded_node (some_message ∷ (some_message ∷ []))))
    ≡ some false
give_rx_data_locking_example =
    give_rx_data_locking test_etl fast clear threaded_node
      (wires test_etl (some_message ∷ (some_message ∷ []))) _ refl
      (give_rx_data_messages test_etl fast clear threaded_node refl some_message (some_message ∷ [])
        some_message-IsShort (some_message-IsShort, tt))

-- Bytes that are no packet.
give_rx_data_threaded-Ends_example :
    Ends IsTaken (Rtos.give_rx_data test_etl fast clear threaded_node (5 ∷ (0 ∷ (9 ∷ []))))
give_rx_data_threaded-Ends_example =
    give_rx_data_threaded-Ends test_etl fast clear refl threaded_node (5 ∷ (0 ∷ (9 ∷ [])))
      (tt, omega arith) (omega arith)

-- A topic without an entry.
abbrev new_topic : List ℕ
new_topic = 117 ∷ []

subscribe-unsubscribe_example :
    (node' : Rtos.Node) × (Rtos.subscribe test_etl fast threaded_node new_topic 8 ≡ ok (1, node'))
    × (Rtos.unsubscribe node' 1 ≡ (
      success,
      record threaded_node {
        subscribers =
            record { topic = some_topic; subscribers = listener ∷ [] }
            ∷ (record { topic = new_topic; subscribers = [] } ∷ []);
        next_free_subscriber_id = 2;
      },
    ))
unfolding find_topic same_bytes
subscribe-unsubscribe_example =
    subscribe-unsubscribe test_etl fast threaded_node new_topic 8 some_subscribers-IsRoomy
      ((λ e. absurd (omega arith), tt), tt)
