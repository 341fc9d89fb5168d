-- ===== src/Rtos.antt =====
-- src/EmbeddedSerialFiller_RTOS.cpp and include/EmbeddedSerialFiller/EmbeddedSerialFiller_RTOS.h: the
-- node for several threads. A call is the sequence of what it makes known: what it hands to the
-- user's delegates, the condition variables that it notifies, and its use of the lock. The lock and
-- the condition variables are those of the standard library.
pub mod Pending
pub mod Locking
pub mod Receiving
pub mod Rounds
pub mod Progress
pub mod Loop
pub mod Streams
pub mod Subscribing
pub mod Reentrant
pub mod Threads
use embedded_serial_filler.Base.{
  ℕ, zero, suc, ◌+◌, ◌%◌, ◌^◌, List, [], ◌∷◌, ◌++◌, map, length, get_or, set, replicate, ltb, leb,
  ◌==◌, if◌then◌else◌, Bool, true, Option, none, some, Result, ok, fault, fuel, ◌>>=◌,
}
use embedded_serial_filler.Definitions.{
  Config, broadcast, publish, ack, PublishResponse, StatusCode, success, unexpected_ack,
  unrecognised_subscriber, max_pending_acks,
}
use embedded_serial_filler.Etl.{Etl}
use embedded_serial_filler.Utilities.Receive.{Received, move_rx_data_in_buffer}
use embedded_serial_filler.Outgoing.{Event, callback, no_subscribers_for_topic, publish_internal}
use embedded_serial_filler.Incoming.{
  Parsed, refused, message, acknowledged, is_success, parse_packet,
}
use embedded_serial_filler.Registry.{
  Subscriber, SubscriberList, find_topic, add_subscriber, remove_subscriber,
}

-- `notify` names the event by its place in `events`.
pub data Action : Type 0 where
  emit : Event → Action
  notify : ℕ → Action
  take_lock release_lock : Action

-- The members. `ack_events` holds places in `events`, in place of pointers, and of an event only the
-- packet identifier is kept.
pub record Node : Type 0 where
  pub rx_buffer : List ℕ
  pub subscribers : SubscriberList
  pub next_packet_id : ℕ
  pub thread_safety_enabled : Bool
  pub ack_events : List ℕ
  pub events : List ℕ
  pub max_ack_packet_index : ℕ
  pub next_free_subscriber_id : ℕ
  pub tx_data_ready_set : Bool
  pub no_subscribers_set : Bool

-- The constructor, and the two delegates as the user sets them.
unfoldable pub new_node : Bool → Bool → Node
new_node tx_set no_subscribers_set = record {
  rx_buffer = [];
  subscribers = [];
  next_packet_id = 1;
  thread_safety_enabled = true;
  ack_events = [];
  events = replicate max_pending_acks 0;
  max_ack_packet_index = 0;
  next_free_subscriber_id = 0;
  tx_data_ready_set = tx_set;
  no_subscribers_set = no_subscribers_set;
}

-- The lock is taken at the start of a call, if thread safety is enabled, and released by the
-- destructor at its end, or by the wait.
abbrev pub locked : Node → List Action → List Action
locked node actions =
    if node.thread_safety_enabled then take_lock ∷ (actions ++ release_lock ∷ []) else actions

-- A call of a delegate of the user's from `GiveRxData`, which holds no lock meanwhile.
abbrev pub unlocked : Node → Event → List Action
unlocked node event =
    if node.thread_safety_enabled
    then release_lock ∷ (emit event ∷ (take_lock ∷ []))
    else emit event ∷ []

-- The place of the first event that is free, counted from `event_index` on.
unfoldable pub find_free : ℕ → List ℕ → Option ℕ
find_free event_index [] = none
find_free event_index (packet_id ∷ rest) =
    let further = find_free (event_index + 1) rest in
    if packet_id == 0 then some event_index else further

-- The first pending event with the packet identifier.
unfoldable pub find_pending : ℕ → List ℕ → List ℕ → Option ℕ
find_pending packet_id events [] = none
find_pending packet_id events (it ∷ rest) =
    if get_or events it 0 == packet_id then some it else find_pending packet_id events rest

-- Free the first pending event with the packet identifier, and take it off the list.
unfoldable pub remove_event : ℕ → List ℕ → List ℕ → List ℕ × List ℕ
remove_event packet_id events [] = (events, [])
remove_event packet_id events (it ∷ rest) =
    let (events', rest') = remove_event packet_id events rest in
    if get_or events it 0 == packet_id then (set events it 0, rest) else (events', it ∷ rest')

-- What `GiveRxData` comes to.
pub record Given : Type 0 where
  pub status : StatusCode
  pub node : Node
  pub rx_data : List ℕ
  pub actions : List Action

abbrev pub before : List Action → Given → Given
before actions g = record g { actions = actions ++ g.actions }

unfoldable pub num_threads_waiting : Node → ℕ
num_threads_waiting node = length node.ack_events

unfoldable pub set_thread_safety_enabled : Node → Bool → Node
set_thread_safety_enabled node value = record node { thread_safety_enabled = value }

unfoldable pub unsubscribe : Node → ℕ → StatusCode × Node
unsubscribe node subscriber_id =
    let (subscribers, found) = remove_subscriber subscriber_id node.subscribers in
    (
      (if found then StatusCode.success else unrecognised_subscriber),
      record node { subscribers = subscribers },
    )

unfoldable pub unsubscribe_all : Node → Node
unsubscribe_all node = record node { subscribers = [] }

-- `PublishWait` from the end of its wait on; `got_ack` says that `wait_for` did not time out.
unfoldable pub publish_wait_end : Node → ℕ → Bool → PublishResponse × Node
publish_wait_end node packet_id got_ack =
    let (events, ack_events) = remove_event packet_id node.events node.ack_events in
    (
      (if got_ack then PublishResponse.success else PublishResponse.timeout),
      record node { events = events; ack_events = ack_events },
    )

module _ (etl : Etl) (config : Config) where
  unfoldable pub publish_on : Node → List ℕ → List ℕ → Result (ℕ × Node × List Action)
  publish_on node topic payload = do
    p ←
        publish_internal etl config node.tx_data_ready_set broadcast node.next_packet_id
          (some topic) (some payload)
    ok (p.ret_val, record node { next_packet_id = p.packet_id }, locked node (map emit p.events))

  unfoldable pub subscribe : Node → List ℕ → ℕ → Result (ℕ × Node)
  subscribe node topic delegate = do
    subscribers ←
        add_subscriber etl topic (record { id = node.next_free_subscriber_id; callback = delegate })
          node.subscribers
    ok (
      node.next_free_subscriber_id,
      record node {
        subscribers = subscribers;
        next_free_subscriber_id = (node.next_free_subscriber_id + 1) % 2 ^ 32;
      },
    )

  -- `PublishWait` up to its wait: the packet identifier that it waits for, or nothing where all events
  -- are in use, which makes it return TIMEOUT.
  unfoldable pub publish_wait_start :
      Node → List ℕ → List ℕ → Result (Option ℕ × Node × List Action)
  publish_wait_start node topic payload =
      if leb max_pending_acks (length node.ack_events)
      then ok (none, node, locked node [])
      else elim (find_free 0 node.events) [
        | none ↦ ok (none, node, locked node [])
        | some event_index ↦ do
          ack_events ← etl.push_back ℕ max_pending_acks node.ack_events event_index
          p ←
              publish_internal etl config node.tx_data_ready_set publish node.next_packet_id
                (some topic) (some payload)
          ok (
            some node.next_packet_id,
            record node {
              next_packet_id = p.packet_id;
              ack_events = ack_events;
              events = set node.events event_index node.next_packet_id;
              max_ack_packet_index =
                  if ltb node.max_ack_packet_index event_index
                  then event_index
                  else node.max_ack_packet_index;
            },
            locked node (map emit p.events),
          )
      ]

  -- What a callback leaves in the array that it is given.
  module _ (effect : ℕ → List ℕ → List ℕ) where
    unfoldable pub call_each : Node → List Subscriber → List ℕ → List Action
    call_each node [] payload = []
    call_each node (sub ∷ rest) payload =
        unlocked node (callback sub.callback payload)
        ++ call_each node rest (effect sub.callback payload)

    unfoldable pub deliver : Node → List ℕ → List ℕ → List Action
    deliver node topic payload = elim (find_topic topic node.subscribers) [
      | none ↦
          if node.no_subscribers_set
          then unlocked node (no_subscribers_for_topic topic payload)
          else []
      | some it ↦ call_each node it.subscribers payload
    ]

    unfoldable pub acknowledge : Bool → Node → ℕ → Result (List Action)
    acknowledge wants_ack node packet_id =
        if wants_ack
        then (publish_internal etl config node.tx_data_ready_set ack packet_id none none >>= λ p.
            ok (map emit p.events))
        else ok []

    -- A packet ends the call, or lets it go on.
    unfoldable pub handle : Node → Parsed → Result (Option StatusCode × List Action)
    handle node (refused s) = ok (some s, [])
    handle node (message wants_ack packet_id topic payload) = do
      acks ← acknowledge wants_ack node packet_id
      ok (none, acks ++ deliver node topic payload)
    handle node (acknowledged packet_id) =
        elim (find_pending packet_id node.events node.ack_events) [
          | none ↦ ok (some unexpected_ack, [])
          | some it ↦ ok (none, notify it ∷ [])
        ]

    unfoldable pub next_packet : Node → List ℕ → Result Received
    next_packet node [] = ok (record {
      status = success;
      new_rx_data = [];
      rx_data_buffer = node.rx_buffer;
      packet = [];
    })
    next_packet node (x ∷ rest) = move_rx_data_in_buffer etl config (x ∷ rest) node.rx_buffer

    -- `while( !packet.empty() )`, with fuel for its rounds.
    unfoldable pub give_loop : ℕ → Node → List ℕ → List ℕ → Result Given
    give_loop f node rx_data [] =
        ok (record { status = success; node = node; rx_data = rx_data; actions = [] })
    give_loop zero node rx_data (x ∷ packet) = fault fuel
    give_loop (suc f) node rx_data (x ∷ packet) = do
      parsed ← parse_packet etl config (x ∷ packet)
      (stop, actions) ← handle node parsed
      elim stop [
        | some s ↦ ok (record { status = s; node = node; rx_data = rx_data; actions = actions })
        | none ↦ next_packet node rx_data >>= λ r.
            let node' = record node { rx_buffer = r.rx_data_buffer } in
            let further = give_loop f node' r.new_rx_data r.packet in
            if is_success r.status
            then (further >>= λ g. ok (before actions g))
            else ok (record {
              status = r.status;
              node = node';
              rx_data = r.new_rx_data;
              actions = actions;
            })
      ]

    -- The body of `GiveRxData`, with the lock held.
    unfoldable pub give_body : Node → List ℕ → Result Given
    give_body node rx_data = do
      r ← move_rx_data_in_buffer etl config rx_data node.rx_buffer
      let node' = record node { rx_buffer = r.rx_data_buffer }
      if is_success r.status
          then give_loop (suc (length rx_data)) node' r.new_rx_data r.packet
          else ok
              (record { status = r.status; node = node'; rx_data = r.new_rx_data; actions = [] })

    unfoldable pub give_rx_data : Node → List ℕ → Result Given
    give_rx_data node rx_data =
        give_body node rx_data >>= λ g. ok (record g { actions = locked node g.actions })
