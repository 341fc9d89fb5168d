-- ===== src/Tests.antt =====
-- The theorems at concrete inputs: the data that the children share.
mod Container
mod Cobs
mod Utilities
mod Packets
mod Nodes
mod Threads
mod Kernels
mod Os
mod Systems
mod Streams
mod Links
mod Objects
mod Reentrant
use embedded_serial_filler.Base.{ℕ, List, [], ◌∷◌, true, false, arith}
use embedded_serial_filler.Definitions.{Config}
use embedded_serial_filler.Incoming.Short.{Message, IsShort}
use embedded_serial_filler.Registry.{Subscriber, SubscriberList}
use embedded_serial_filler.NoRtos.{Node, Statics, entry_point, continuation_point, no_ack, no_event}
use embedded_serial_filler.NoRtos.Waiting.{IsInStep}
use embedded_serial_filler.Registry.Lookup.{IsRoomy}
use embedded_serial_filler.Rtos

abbrev pub fast : Config
fast = record { optimise = true; minimal_implementation = true; reject_incomplete_packets = false }

abbrev pub slow : Config
slow = record { optimise = false; minimal_implementation = true; reject_incomplete_packets = false }

abbrev pub some_raw : List ℕ
some_raw = 5 ∷ (0 ∷ (7 ∷ []))

abbrev pub some_body : List ℕ
some_body = 2 ∷ (5 ∷ (2 ∷ (7 ∷ [])))

-- A packet whose topic is stated one byte too long.
abbrev pub some_packet : List ℕ
some_packet = 80 ∷ (1 ∷ (2 ∷ (116 ∷ (9 ∷ (9 ∷ [])))))

-- The test subscriber, which clears the data that it is given.
abbrev pub clear : ℕ → List ℕ → List ℕ
clear delegate payload = []

abbrev pub listener : Subscriber
listener = record { id = 0; callback = 4 }

abbrev pub some_topic : List ℕ
some_topic = 116 ∷ (49 ∷ [])

abbrev pub some_subscribers : SubscriberList
some_subscribers = record { topic = some_topic; subscribers = listener ∷ [] } ∷ []

abbrev pub idle_node : Node
idle_node = record {
  rx_buffer = [];
  subscribers = some_subscribers;
  next_packet_id = 255;
  ack_event = no_event;
  next_free_subscriber_id = 1;
  tx_data_ready_set = true;
  no_subscribers_set = true;
}

abbrev pub busy_node : Node
busy_node = record idle_node { ack_event = record { packet_id = 9; state = no_ack } }

abbrev pub at_entry : Statics
at_entry = record { pw_state = entry_point; timeout_count = 0 }

abbrev pub at_continuation : Statics
at_continuation = record { pw_state = continuation_point; timeout_count = 3 }

abbrev pub some_message : Message
some_message = record { wants_ack = true; packet_id = 3; topic = some_topic; payload = some_raw }

pub some_message-IsShort : IsShort some_message
some_message-IsShort = record {
  byte = omega arith;
  topic_bytes = omega arith;
  payload_bytes = omega arith;
  topic_fits = omega arith;
  short = omega arith;
}

pub some_subscribers-IsRoomy : IsRoomy some_subscribers
some_subscribers-IsRoomy = record { topics = omega arith; each = (omega arith, tt) }

pub busy-IsInStep : IsInStep at_continuation busy_node
busy-IsInStep = record {
  idle = λ e. ground arith;
  waiting = λ e. (omega arith, omega arith);
  next = (omega arith, omega arith);
}

abbrev pub threaded_node : Rtos.Node
threaded_node = record {
  rx_buffer = [];
  subscribers = some_subscribers;
  next_packet_id = 9;
  thread_safety_enabled = true;
  ack_events = 1 ∷ [];
  events = 0 ∷ (4 ∷ (0 ∷ (0 ∷ (0 ∷ (0 ∷ (0 ∷ (0 ∷ [])))))));
  max_ack_packet_index = 1;
  next_free_subscriber_id = 1;
  tx_data_ready_set = true;
  no_subscribers_set = true;
}
