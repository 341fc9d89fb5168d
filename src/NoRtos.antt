-- ===== src/NoRtos.antt =====
-- src/EmbeddedSerialFiller_NoRTOS.cpp and include/EmbeddedSerialFiller/EmbeddedSerialFiller_NoRTOS.h:
-- the node without an operating system, driven by calls from one loop.
pub mod Receiving
pub mod Waiting
pub mod Acks
pub mod Subscribing
pub mod Rounds
pub mod Loop
pub mod Streams
pub mod Progress
pub mod Reachable
pub mod Link
pub mod Topics
pub mod Refused
pub mod Reentrant
use embedded_serial_filler.Base.{
  ℕ, zero, suc, ◌+◌, ◌%◌, ◌^◌, List, [], ◌∷◌, ◌++◌, length, ltb, ◌==◌, if◌then◌else◌, Bool, not,
  Option, none, some, Result, ok, fault, assertion, fuel, ◌>>=◌,
}
use embedded_serial_filler.Definitions.{
  Config, broadcast, publish, ack, PublishResponse, StatusCode, success, unexpected_ack,
  unrecognised_subscriber,
}
use embedded_serial_filler.Etl.{Etl}
use embedded_serial_filler.Utilities.Receive.{Received, move_rx_data_in_buffer}
use embedded_serial_filler.Outgoing.{Event, callback, no_subscribers_for_topic, publish_internal}
use embedded_serial_filler.Incoming.{
  Parsed, refused, message, acknowledged, is_success, parse_packet,
}
use embedded_serial_filler.Registry.{
  Subscriber, SubscriberList, find_topic, add_subscriber, remove_subscriber,
}

-- `AckEvent::AckState`.
pub data AckState : Type 0 where
  no_ack got_ack : AckState

pub record AckEvent : Type 0 where
  pub packet_id : ℕ
  pub state : AckState

-- The members of `EmbeddedSerialFiller`; the last two say whether the delegates are set. The member
-- `events` is never used.
pub record Node : Type 0 where
  pub rx_buffer : List ℕ
  pub subscribers : SubscriberList
  pub next_packet_id : ℕ
  pub ack_event : AckEvent
  pub next_free_subscriber_id : ℕ
  pub tx_data_ready_set : Bool
  pub no_subscribers_set : Bool

abbrev pub no_event : AckEvent
no_event = record { packet_id = 0; state = no_ack }

-- The constructor, and the two delegates as the user sets them.
unfoldable pub new_node : Bool → Bool → Node
new_node tx_set no_subscribers_set = record {
  rx_buffer = [];
  subscribers = [];
  next_packet_id = 1;
  ack_event = no_event;
  next_free_subscriber_id = 0;
  tx_data_ready_set = tx_set;
  no_subscribers_set = no_subscribers_set;
}

-- `ENTRY_POINT` and `CONTINUATION_POINT`, and the static variables of `PublishWait`, which all nodes
-- of the program share.
pub data PwState : Type 0 where
  entry_point continuation_point : PwState

pub record Statics : Type 0 where
  pub pw_state : PwState
  pub timeout_count : ℕ

unfoldable pub task_pending : Node → Bool
task_pending node = not (node.ack_event.packet_id == 0)

-- The end of `PublishWait`: reset the event and the call state.
unfoldable pub finish_wait : PublishResponse → Statics → Node → PublishResponse × Statics × Node
finish_wait response statics node =
    (response, record statics { pw_state = entry_point }, record node { ack_event = no_event })

-- `case CONTINUATION_POINT`. The count stays at or below `timeout`, so it does not wrap.
unfoldable pub await_ack : Statics → Node → ℕ → PublishResponse × Statics × Node
await_ack statics node timeout =
    if ltb statics.timeout_count timeout
    then (let statics' = record statics { timeout_count = statics.timeout_count + 1 } in
        elim node.ack_event.state [
          | got_ack ↦ finish_wait PublishResponse.success statics' node
          | no_ack ↦ (PublishResponse.pending, statics', node)
        ])
    else finish_wait PublishResponse.timeout statics node

-- What `GiveRxData` comes to: the status, the node, what is left in `rxData`, and what was made known.
pub record Given : Type 0 where
  pub status : StatusCode
  pub node : Node
  pub rx_data : List ℕ
  pub events : List Event

abbrev before : List Event → Given → Given
before events g = record g { events = events ++ g.events }

-- In no build with `ESF_MINIMAL_IMPLEMENTATION`, which Definitions.h sets with `PROFILE_NO_RTOS`; nor is
-- `unsubscribe_all`.
unfoldable pub unsubscribe : Node → ℕ → StatusCode × Node
unsubscribe node subscriber_id =
    let (subscribers, found) = remove_subscriber subscriber_id node.subscribers in
    (
      (if found then StatusCode.success else unrecognised_subscriber),
      record node { subscribers = subscribers },
    )

unfoldable pub unsubscribe_all : Node → Node
unsubscribe_all node = record node { subscribers = [] }

module _ (etl : Etl) (config : Config) where
  unfoldable pub publish_on : Node → List ℕ → List ℕ → Result (ℕ × Node × List Event)
  publish_on node topic payload = do
    p ←
        publish_internal etl config node.tx_data_ready_set broadcast node.next_packet_id
          (some topic) (some payload)
    ok (p.ret_val, record node { next_packet_id = p.packet_id }, p.events)

  -- `case ENTRY_POINT`, up to where it falls through.
  unfoldable pub start_wait : Node → List ℕ → List ℕ → Result (Statics × Node × List Event)
  start_wait node topic payload =
      if node.ack_event.packet_id == 0
      then (do
        p ←
            publish_internal etl config node.tx_data_ready_set publish node.next_packet_id
              (some topic) (some payload)
        ok (
          record { pw_state = continuation_point; timeout_count = 0 },
          record node {
            next_packet_id = p.packet_id;
            ack_event = record { packet_id = node.next_packet_id; state = node.ack_event.state };
          },
          p.events,
        ))
      else fault assertion

  unfoldable pub publish_wait :
      Statics
      → Node
      → List ℕ
      → List ℕ
      → ℕ
      → Result ((PublishResponse × Statics × Node) × List Event)
  publish_wait statics node topic payload timeout = elim statics.pw_state [
    | entry_point ↦ do
      (statics', node', events) ← start_wait node topic payload
      ok (await_ack statics' node' timeout, events)
    | continuation_point ↦ ok (await_ack statics node timeout, [])
  ]

  unfoldable pub subscribe : Node → List ℕ → ℕ → Result (ℕ × Node)
  subscribe node topic delegate = do
    subscribers ←
        add_subscriber etl topic (record { id = node.next_free_subscriber_id; callback = delegate })
          node.subscribers
    ok (
      node.next_free_subscriber_id,
      record node {
        subscribers = subscribers;
        next_free_subscriber_id = (node.next_free_subscriber_id + 1) % 2 ^ 32;
      },
    )

  -- What a callback leaves in the array that it is given.
  module _ (effect : ℕ → List ℕ → List ℕ) where
    unfoldable pub call_each : List Subscriber → List ℕ → List Event
    call_each [] payload = []
    call_each (sub ∷ rest) payload =
        callback sub.callback payload ∷ call_each rest (effect sub.callback payload)

    unfoldable pub deliver : Node → List ℕ → List ℕ → List Event
    deliver node topic payload = elim (find_topic topic node.subscribers) [
      | none ↦ if node.no_subscribers_set then no_subscribers_for_topic topic payload ∷ [] else []
      | some it ↦ call_each it.subscribers payload
    ]

    -- A packet ends the call, or lets it go on.
    unfoldable pub acknowledge : Bool → Node → ℕ → Result (List Event)
    acknowledge wants_ack node packet_id =
        if wants_ack
        then (publish_internal etl config node.tx_data_ready_set ack packet_id none none >>= λ p.
            ok p.events)
        else ok []

    unfoldable pub handle : Node → Parsed → Result (Option StatusCode × Node × List Event)
    handle node (refused s) = ok (some s, node, [])
    handle node (message wants_ack packet_id topic payload) = do
      acks ← acknowledge wants_ack node packet_id
      ok (none, node, acks ++ deliver node topic payload)
    handle node (acknowledged packet_id) = ok (
        if node.ack_event.packet_id == packet_id
        then (
          none,
          record node {
            ack_event = record { packet_id = node.ack_event.packet_id; state = got_ack };
          },
          [],
        )
        else (some unexpected_ack, node, []))

    -- The end of the loop body: the next packet, if there is more data.
    unfoldable pub next_packet : Node → List ℕ → Result Received
    next_packet node [] = ok (record {
      status = success;
      new_rx_data = [];
      rx_data_buffer = node.rx_buffer;
      packet = [];
    })
    next_packet node (x ∷ rest) = move_rx_data_in_buffer etl config (x ∷ rest) node.rx_buffer

    -- `while( !packet.empty() )`, with fuel for its rounds.
    unfoldable pub give_loop : ℕ → Node → List ℕ → List ℕ → Result Given
    give_loop f node rx_data [] =
        ok (record { status = success; node = node; rx_data = rx_data; events = [] })
    give_loop zero node rx_data (x ∷ packet) = fault fuel
    give_loop (suc f) node rx_data (x ∷ packet) = do
      parsed ← parse_packet etl config (x ∷ packet)
      (stop, node', events) ← handle node parsed
      elim stop [
        | some s ↦ ok (record { status = s; node = node'; rx_data = rx_data; events = events })
        | none ↦ next_packet node' rx_data >>= λ r.
            let node'' = record node' { rx_buffer = r.rx_data_buffer } in
            let further = give_loop f node'' r.new_rx_data r.packet in
            if is_success r.status
            then (further >>= λ g. ok (before events g))
            else ok (record {
              status = r.status;
              node = node'';
              rx_data = r.new_rx_data;
              events = events;
            })
      ]

    -- Each round takes at least one byte of `rxData`.
    unfoldable pub give_rx_data : Node → List ℕ → Result Given
    give_rx_data node rx_data = do
      r ← move_rx_data_in_buffer etl config rx_data node.rx_buffer
      let node' = record node { rx_buffer = r.rx_data_buffer }
      if is_success r.status
          then give_loop (suc (length rx_data)) node' r.new_rx_data r.packet
          else ok (record { status = r.status; node = node'; rx_data = r.new_rx_data; events = [] })
