-- ===== src/Rtos/Pending.antt =====
-- The events of `PublishWait` and of acknowledgements in src/EmbeddedSerialFiller_RTOS.cpp.
use embedded_serial_filler.Base.{
  ℕ, zero, suc, ◌+◌, ◌≤◌, ◌<◌, ◌≡◌, ◌≢◌, refl, sym, ap, List, [], ◌∷◌, ◌++◌, length, length-append,
  get_or, set, get_or-set_self, get_or-set_ne, All, ltb, if◌then◌else◌, Bool, true, none, some, ok,
  arith,
}
use native.Mathlib.Decide.{ℕ_discrete}
use embedded_serial_filler.Definitions.{
  Config, PublishResponse, to_byte, max_packet_size, max_topic_length, max_pending_acks,
}
use embedded_serial_filler.Etl.{Etl}
use embedded_serial_filler.Cobs.Encoded.{encoded_size}
use embedded_serial_filler.Outgoing.{tx_data_ready, next_id}
use embedded_serial_filler.Outgoing.Contents.{contents, sent, publish_internal-message}
use embedded_serial_filler.Incoming.{acknowledged}
use embedded_serial_filler.Rtos.{
  emit, Node, locked, find_free, find_pending, remove_event, num_threads_waiting,
  publish_wait_start, publish_wait_end, handle, notify,
}

-- Each pending event is in use, by another identifier than this.
abbrev pub IsOther : List ℕ → ℕ → ℕ → Type 0
IsOther events packet_id it = (0 < get_or events it 0) × (get_or events it 0 ≢ packet_id)

find_free_lem :
    (start : ℕ) (events : List ℕ) (free : ℕ)
    → free < length events
    → get_or events free 0 ≡ 0
    → (i : ℕ) × (find_free start events ≡ some (start + i))
      × (i < length events)
      × (get_or events i 0 ≡ 0)
unfolding find_free
find_free_lem start [] free l z = absurd (omega arith)
find_free_lem start (zero ∷ events) free l z = (0, ground arith, omega arith, refl)
find_free_lem start (suc x ∷ events) zero l z = absurd (omega arith)
find_free_lem start (suc x ∷ events) (suc free) l z =
    let (i, e, k, y) = find_free_lem (start + 1) events free (omega arith) z in
    (suc i, ground (arith, e), omega arith, y)

find_pending_last :
    (packet_id : ℕ) (events : List ℕ) (i : ℕ) (pending : List ℕ)
    → i < length events
    → get_or events i 0 ≡ 0
    → All (IsOther events packet_id) pending
    → find_pending packet_id (set events i packet_id) (pending ++ i ∷ []) ≡ some i
unfolding find_pending
find_pending_last packet_id events i [] l z h =
    ground (arith, get_or-set_self events i packet_id 0 l)
find_pending_last packet_id events i (it ∷ pending) l z h = elim (ℕ_discrete i it) [
  | yes e ↦ absurd (omega (arith, h.0.0, ap (λ k. get_or events k 0) e))
  | no ne ↦ ground (
    arith,
    find_pending_last packet_id events i pending l z h.1,
    get_or-set_ne events i it packet_id 0 ne,
    h.0.1,
  )
]

set_back : (events : List ℕ) (i v : ℕ) → get_or events i 0 ≡ 0 → set (set events i v) i 0 ≡ events
set_back [] i v h = refl
set_back (x ∷ events) zero v h = ap (λ y. y ∷ events) (sym h)
set_back (x ∷ events) (suc i) v h = ap (◌∷◌ x) (set_back events i v h)

-- The last event of the list is the one with the identifier.
remove_event_last :
    (packet_id : ℕ) (events : List ℕ) (i : ℕ) (pending : List ℕ)
    → i < length events
    → get_or events i 0 ≡ 0
    → All (IsOther events packet_id) pending
    → remove_event packet_id (set events i packet_id) (pending ++ i ∷ []) ≡ (events, pending)
unfolding remove_event
remove_event_last packet_id events i [] l z h =
    ground (arith, get_or-set_self events i packet_id 0 l, set_back events i packet_id z)
remove_event_last packet_id events i (it ∷ pending) l z h = elim (ℕ_discrete i it) [
  | yes e ↦ absurd (omega (arith, h.0.0, ap (λ k. get_or events k 0) e))
  | no ne ↦ ground (
    arith,
    remove_event_last packet_id events i pending l z h.1,
    get_or-set_ne events i it packet_id 0 ne,
    h.0.1,
  )
]

module _ (etl : Etl) (config : Config) (effect : ℕ → List ℕ → List ℕ) where
  -- A thread waits in `PublishWait`: with room on the list of pending events, a free event, a
  -- message that fits, and pending events that are in use by other identifiers than the node's
  -- next one, it publishes, is counted as waiting, and has an event with its identifier; an
  -- acknowledgement with that identifier notifies just this event; and when the wait ends, it
  -- returns SUCCESS if it was notified and TIMEOUT otherwise, and has put the events and the list
  -- back as they were.
  publish_wait_exchange :
      (node : Node) (topic payload : List ℕ) (free : ℕ) (got_ack : Bool)
      → length node.ack_events < max_pending_acks
      → free < length node.events
      → get_or node.events free 0 ≡ 0
      → All (IsOther node.events node.next_packet_id) node.ack_events
      → length topic ≤ max_topic_length
      → encoded_size (5 + length topic + length payload) ≤ max_packet_size
      → (node' : Node) × (event_index max_index : ℕ) × (publish_wait_start etl config node topic
            payload
          ≡ ok (
            some node.next_packet_id,
            node',
            locked node (
                if node.tx_data_ready_set
                then emit
                    (tx_data_ready (sent etl (contents 0x50 node.next_packet_id topic payload)))
                  ∷ []
                else []),
          ))
        × (num_threads_waiting node' ≡ num_threads_waiting node + 1)
        × (get_or node'.events event_index 0 ≡ node.next_packet_id)
        × (handle etl config effect node' (acknowledged node.next_packet_id)
            ≡ ok (none, notify event_index ∷ []))
        × (publish_wait_end node' node.next_packet_id got_ack ≡ (
          (if got_ack then PublishResponse.success else PublishResponse.timeout),
          record node {
            next_packet_id =
                if node.tx_data_ready_set then next_id node.next_packet_id else node.next_packet_id;
            max_ack_packet_index = max_index;
          },
        ))
  unfolding publish_wait_start publish_wait_end handle num_threads_waiting to_byte
  publish_wait_exchange node topic payload free got_ack room l z h tf fits =
      let (i, e, k, y) = find_free_lem 0 node.events free l z in
      let max_index : ℕ =
        if ltb node.max_ack_packet_index i then i else node.max_ack_packet_index in
      (
        record node {
          next_packet_id =
              if node.tx_data_ready_set then next_id node.next_packet_id else node.next_packet_id;
          ack_events = node.ack_events ++ i ∷ [];
          events = set node.events i node.next_packet_id;
          max_ack_packet_index = max_index;
        },
        i,
        max_index,
        ground (
          arith,
          e,
          etl.push_back_fits ℕ max_pending_acks node.ack_events i room,
          publish_internal-message etl config node.tx_data_ready_set true node.next_packet_id topic
              payload tf fits,
        ),
        length-append node.ack_events (i ∷ []),
        get_or-set_self node.events i node.next_packet_id 0 k,
        ground (arith, find_pending_last node.next_packet_id node.events i node.ack_events k y h),
        ground (arith, remove_event_last node.next_packet_id node.events i node.ack_events k y h),
      )
