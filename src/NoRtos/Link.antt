-- ===== src/NoRtos/Link.antt =====
-- Two nodes of src/EmbeddedSerialFiller_NoRTOS.cpp and the serial line from one to the other, which hands
-- over the bytes in order but in pieces of any size.
pub mod Delivery
pub mod Sending
pub mod Order
use embedded_serial_filler.Base.{
  ℕ, ◌≡◌, List, [], ◌∷◌, ◌++◌, All, IsByte, if◌then◌else◌, Bool, true, false, ok,
}
use embedded_serial_filler.Definitions.{Config, PublishResponse}
use embedded_serial_filler.Etl.{Etl}
use embedded_serial_filler.Outgoing.{Event, tx_data_ready, callback, no_subscribers_for_topic}
use embedded_serial_filler.Incoming.Short.{Message, IsShort}
use embedded_serial_filler.NoRtos.{
  Node, Statics, PwState, entry_point, continuation_point, Given, publish_on, publish_wait,
  give_rx_data,
}
use embedded_serial_filler.NoRtos.Reachable
use embedded_serial_filler.NoRtos.Reachable.{World}

-- The sender with its program, the bytes that are on their way, the receiver, the messages that were
-- published, and what the receiver has made known.
pub record Link : Type 0 where
  pub sender : World
  pub line : List ℕ
  pub receiver : Node
  pub published : List Message
  pub heard : List Event

-- `txDataReady_` puts the bytes on the line.
abbrev pub bytes_of : List Event → List ℕ
bytes_of [] = []
bytes_of (tx_data_ready bytes ∷ events) = bytes ++ bytes_of events
bytes_of (callback delegate payload ∷ events) = bytes_of events
bytes_of (no_subscribers_for_topic topic payload ∷ events) = bytes_of events

-- The message of a call of `Publish`, or of the first one of `PublishWait`.
abbrev pub message_of : Bool → Node → List ℕ → List ℕ → Message
message_of wants_ack node topic payload = record {
  wants_ack = wants_ack;
  packet_id = node.next_packet_id;
  topic = topic;
  payload = payload;
}

abbrev pub if_sent : Node → Message → List Message
if_sent node m = if node.tx_data_ready_set then m ∷ [] else []

-- A later call of `PublishWait` publishes nothing.
abbrev pub published_by : PwState → Node → Message → List Message
published_by entry_point node m = if_sent node m
published_by continuation_point node m = []

module _ (etl : Etl) (config : Config) (effect : ℕ → List ℕ → List ℕ) where
  -- The sender publishes a short message, or waits for an acknowledgement, or receives bytes to which it
  -- answers nothing; or some of the bytes on the line arrive.
  pub data Step (l : Link) : Link → Type 0 where
    publishes :
        (topic payload : List ℕ) (packet_id : ℕ) (node' : Node) (events : List Event)
        → IsShort (message_of false l.sender.node topic payload)
        → publish_on etl config l.sender.node topic payload ≡ ok (packet_id, node', events)
        → Step l (record l {
          sender = record l.sender { node = node' };
          line = l.line ++ bytes_of events;
          published =
              l.published ++ if_sent l.sender.node (message_of false l.sender.node topic payload);
        })
    waits :
        (topic payload : List ℕ) (timeout : ℕ) (response : PublishResponse) (statics' : Statics)
        (node' : Node) (events : List Event)
        → IsShort (message_of true l.sender.node topic payload)
        → publish_wait etl config l.sender.statics l.sender.node topic payload timeout
          ≡ ok ((response, statics', node'), events)
        → Step l (record l {
          sender = record { statics = statics'; node = node' };
          line = l.line ++ bytes_of events;
          published =
              l.published
              ++ published_by l.sender.statics.pw_state l.sender.node
                  (message_of true l.sender.node topic payload);
        })
    hears :
        (rx_data : List ℕ) (g : Given)
        → All IsByte rx_data
        → give_rx_data etl config effect l.sender.node rx_data ≡ ok g
        → bytes_of g.events ≡ []
        → Step l (record l { sender = record l.sender { node = g.node } })
    arrives :
        (bytes rest : List ℕ) (g : Given)
        → l.line ≡ bytes ++ rest
        → give_rx_data etl config effect l.receiver bytes ≡ ok g
        → Step l (record l { line = rest; receiver = g.node; heard = l.heard ++ g.events })

  -- A line with nothing on it, from a sender in any state to a receiver with an empty buffer.
  abbrev pub quiet_line : World → Node → Link
  quiet_line sender receiver = record {
    sender = sender;
    line = [];
    receiver = receiver;
    published = [];
    heard = [];
  }

  pub data Reach : Link → Type 0 where
    here :
        (sender : World) (receiver : Node)
        → Reachable.Reach etl config effect sender
        → receiver.rx_buffer ≡ []
        → Reach (quiet_line sender receiver)
    next : {l l' : Link} → Reach l → Step l l' → Reach l'
