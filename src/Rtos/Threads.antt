-- ===== src/Rtos/Threads.antt =====
-- Threads that share one node of src/EmbeddedSerialFiller_RTOS.cpp: any calls, in any order. A call
-- counts as one step, but for those that release the lock: `PublishWait` is one step up to its wait and
-- another behind it, and `GiveRxData` may be cut at its callbacks.
pub mod Events
pub mod Tracked
pub mod Invariant
pub mod Acks
pub mod Collision
use embedded_serial_filler.Base.{
  ℕ, ◌≡◌, ◌≢◌, List, [], ◌∷◌, ◌++◌, All, Bool, Option, none, some, Result, ok,
}
use embedded_serial_filler.Definitions.{Config, StatusCode}
use embedded_serial_filler.Etl.{Etl}
use embedded_serial_filler.Rtos.{
  Action, Node, Given, new_node, find_free, set_thread_safety_enabled, unsubscribe, unsubscribe_all,
  publish_wait_end, publish_on, subscribe, publish_wait_start, give_rx_data,
}

-- A thread inside the wait of `PublishWait`: the event that it waits for, by its place in `events`, and
-- its local copy of the packet identifier.
pub record Thread : Type 0 where
  pub event_index : ℕ
  pub packet_id : ℕ

-- The node, and the threads that wait, in the order in which they came.
pub record System : Type 0 where
  pub node : Node
  pub waiting : List Thread

abbrev pub start : Bool → Bool → System
start tx_set no_subscribers_set = record { node = new_node tx_set no_subscribers_set; waiting = [] }

-- No thread waits for the identifier that is next.
abbrev pub IsFresh : System → Type 0
IsFresh s = All (λ (t : Thread). t.packet_id ≢ s.node.next_packet_id) s.waiting

-- A call that returns, or a part of one. A wait begins only with an identifier that no thread waits for,
-- as it is while fewer than 255 packets are sent during a wait; it may end at any time, notified or not.
pub data Step (etl : Etl) (config : Config) (effect : ℕ → List ℕ → List ℕ) (s : System)
    : System → Type 0 where
  publishes :
      (topic payload : List ℕ) (packet_id : ℕ) (node' : Node) (actions : List Action)
      → publish_on etl config s.node topic payload ≡ ok (packet_id, node', actions)
      → Step etl config effect s (record s { node = node' })
  waits :
      (topic payload : List ℕ) (event_index packet_id : ℕ) (node' : Node) (actions : List Action)
      → IsFresh s
      → find_free 0 s.node.events ≡ some event_index
      → publish_wait_start etl config s.node topic payload ≡ ok (some packet_id, node', actions)
      → Step etl config effect s (record {
        node = node';
        waiting = s.waiting ++ record { event_index = event_index; packet_id = packet_id } ∷ [];
      })
  gives_up :
      (topic payload : List ℕ) (node' : Node) (actions : List Action)
      → publish_wait_start etl config s.node topic payload ≡ ok (none, node', actions)
      → Step etl config effect s (record s { node = node' })
  resumes :
      (before : List Thread) (t : Thread) (after : List Thread) (got_ack : Bool)
      → s.waiting ≡ before ++ t ∷ after
      → Step etl config effect s (record {
        node = (publish_wait_end s.node t.packet_id got_ack).1;
        waiting = before ++ after;
      })
  subscribes :
      (topic : List ℕ) (delegate id : ℕ) (node' : Node)
      → subscribe etl config s.node topic delegate ≡ ok (id, node')
      → Step etl config effect s (record s { node = node' })
  unsubscribes : (id : ℕ) → Step etl config effect s (record s { node = (unsubscribe s.node id).1 })
  unsubscribes_all : Step etl config effect s (record s { node = unsubscribe_all s.node })
  sets_thread_safety :
      (value : Bool)
      → Step etl config effect s (record s { node = set_thread_safety_enabled s.node value })
  receives :
      (rx_data : List ℕ) (g : Given)
      → give_rx_data etl config effect s.node rx_data ≡ ok g
      → Step etl config effect s (record s { node = g.node })
  -- A part of `GiveRxData`, up to a callback, for which it releases the lock: it writes to the buffer
  -- only.
  receives_part :
      (rx_buffer : List ℕ)
      → Step etl config effect s (record s { node = record s.node { rx_buffer = rx_buffer } })

pub data Reach (etl : Etl) (config : Config) (effect : ℕ → List ℕ → List ℕ) : System → Type 0 where
  here :
      (tx_set no_subscribers_set : Bool) → Reach etl config effect (start tx_set no_subscribers_set)
  next :
      {s s' : System}
      → Reach etl config effect s
      → Step etl config effect s s'
      → Reach etl config effect s'
