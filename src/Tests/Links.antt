-- ===== src/Tests/Links.antt =====
-- Two nodes and the line between them, at concrete inputs.
use embedded_serial_filler.Base.{◌≡◌, refl, List, [], ◌∷◌, true, false, ok, arith}
use embedded_serial_filler.Definitions.{success}
use embedded_serial_filler.Outgoing.{Event, tx_data_ready, next_id}
use embedded_serial_filler.Outgoing.Contents.{publish_internal-message}
use embedded_serial_filler.Incoming.Short.{Message, IsShort, wire}
use embedded_serial_filler.NoRtos.{Node, no_event, new_node, publish_on, give_rx_data}
use embedded_serial_filler.NoRtos.Receiving.{answers}
use embedded_serial_filler.NoRtos.Reachable
use embedded_serial_filler.NoRtos.Link.{Link, bytes_of, Reach, here, next, publishes}
use embedded_serial_filler.NoRtos.Link.Order.{IsDelivered, Reach-IsDelivered, everything_arrives}
use embedded_serial_filler.Tests.Container.{test_etl}
use embedded_serial_filler.Tests.{fast, some_raw, clear, some_topic, idle_node}

abbrev first_message : Message
first_message = record { wants_ack = false; packet_id = 1; topic = some_topic; payload = some_raw }

first_message-IsShort : IsShort first_message
first_message-IsShort = record {
  byte = omega arith;
  topic_bytes = omega arith;
  payload_bytes = omega arith;
  topic_fits = omega arith;
  short = omega arith;
}

abbrev moved_node : Node
moved_node = record {
  rx_buffer = [];
  subscribers = [];
  next_packet_id = 2;
  ack_event = no_event;
  next_free_subscriber_id = 0;
  tx_data_ready_set = true;
  no_subscribers_set = true;
}

first_published :
    publish_on test_etl fast (new_node true true) some_topic some_raw
    ≡ ok (1, moved_node, tx_data_ready (wire test_etl first_message) ∷ [])
unfolding new_node publish_on next_id
first_published = ground (
  arith,
  publish_internal-message test_etl fast true false 1 some_topic some_raw (omega arith)
      (omega arith),
)

-- A message on its way to a node with a subscriber.
abbrev busy_line : Link
busy_line = record {
  sender = record (Reachable.start true true) { node = moved_node };
  line = bytes_of (tx_data_ready (wire test_etl first_message) ∷ []);
  receiver = idle_node;
  published = first_message ∷ [];
  heard = [];
}

busy_line-Reach : Reach test_etl fast clear busy_line
unfolding new_node
busy_line-Reach =
    next (here (Reachable.start true true) idle_node (Reachable.here true true) refl) (
      publishes some_topic some_raw 1 moved_node (tx_data_ready (wire test_etl first_message) ∷ [])
        first_message-IsShort first_published)

Reach-IsDelivered_example : IsDelivered test_etl fast clear busy_line
Reach-IsDelivered_example = Reach-IsDelivered test_etl fast clear refl refl busy_line-Reach

everything_arrives_example :
    (events : List Event) × (give_rx_data test_etl fast clear idle_node busy_line.line
      ≡ ok (record { status = success; node = idle_node; rx_data = []; events = events }))
    × (events ≡ answers test_etl fast clear idle_node (first_message ∷ []))
everything_arrives_example =
    everything_arrives test_etl fast clear refl refl busy_line busy_line-Reach
