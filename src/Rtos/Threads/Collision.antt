-- ===== src/Rtos/Threads/Collision.antt =====
-- A packet identifier that comes round while a thread still waits for it, in
-- src/EmbeddedSerialFiller_RTOS.cpp.
use embedded_serial_filler.Base.{
  ℕ, ◌+◌, ◌≤◌, ◌<◌, ◌≡◌, ◌≢◌, refl, sym, ◌∙◌, ap, List, [], ◌∷◌, length, get_or, set,
  get_or-set_self, get_or-set_ne, length-set, true, false, none, some, ok, arith, ltb,
  if◌then◌else◌,
}
use embedded_serial_filler.Definitions.{
  Config, PublishResponse, to_byte, max_packet_size, max_topic_length, max_pending_acks,
}
use embedded_serial_filler.Etl.{Etl}
use embedded_serial_filler.Cobs.Encoded.{encoded_size}
use embedded_serial_filler.Outgoing.{tx_data_ready, next_id}
use embedded_serial_filler.Outgoing.Contents.{contents, sent, publish_internal-message}
use embedded_serial_filler.Incoming.{acknowledged}
use embedded_serial_filler.Rtos.{
  Node, emit, notify, locked, find_pending, remove_event, publish_wait_start, publish_wait_end,
  handle,
}
use embedded_serial_filler.Rtos.Threads.Events.{in_use, find_free-some, find_free-in_use}

-- Two events on the list, both with the identifier.
module _ (events : List ℕ) (first second packet_id : ℕ) (ne : first ≢ second)
    (place : first < length events) (place' : second < length events)
    (same : get_or events first 0 ≡ packet_id) where
  find_pending_first :
      find_pending packet_id (set events second packet_id) (first ∷ second ∷ []) ≡ some first
  unfolding find_pending
  find_pending_first =
      ground (arith, get_or-set_ne events second first packet_id 0 (λ e. ne (sym e)), same)

  remove_event_first :
      remove_event packet_id (set events second packet_id) (first ∷ second ∷ [])
      ≡ (set (set events second packet_id) first 0, second ∷ [])
  unfolding remove_event
  remove_event_first =
      ground (arith, get_or-set_ne events second first packet_id 0 (λ e. ne (sym e)), same)

  first_freed : get_or (set (set events second packet_id) first 0) first 0 ≡ 0
  first_freed =
      get_or-set_self (set events second packet_id) first 0 0
        (omega (arith, length-set events second packet_id))

  second_left : get_or (set (set events second packet_id) first 0) second 0 ≡ packet_id
  second_left =
      get_or-set_ne (set events second packet_id) first second 0 0 ne
      ∙ get_or-set_self events second packet_id 0 place'

module _ (etl : Etl) (config : Config) (effect : ℕ → List ℕ → List ℕ) where
  -- One thread waits, with the identifier that the node has come round to, another event is free,
  -- and a second thread calls `PublishWait` with a message that fits. It publishes under the same
  -- identifier and waits with another event; an acknowledgement with the identifier notifies only
  -- the first thread's event; and if the second thread's wait times out first, it is the first
  -- thread's event that is freed and taken off the list, so that an acknowledgement with the
  -- identifier, which the first thread still waits for, then notifies the event of the second.
  pub packet_id_comes_round :
      (node : Node) (topic payload : List ℕ) (first : ℕ)
      → node.ack_events ≡ first ∷ []
      → first < length node.events
      → get_or node.events first 0 ≡ node.next_packet_id
      → 0 < node.next_packet_id
      → in_use node.events < length node.events
      → length topic ≤ max_topic_length
      → encoded_size (5 + length topic + length payload) ≤ max_packet_size
      → (second : ℕ) × (node' node'' : Node) × (second ≢ first)
        × (publish_wait_start etl config node topic payload
            ≡ ok (
              some node.next_packet_id,
              node',
              locked node (
                  if node.tx_data_ready_set
                  then emit
                      (tx_data_ready (sent etl (contents 0x50 node.next_packet_id topic payload)))
                    ∷ []
                  else []),
            ))
        × (handle etl config effect node' (acknowledged node.next_packet_id)
            ≡ ok (none, notify first ∷ []))
        × (publish_wait_end node' node.next_packet_id false ≡ (PublishResponse.timeout, node''))
        × (get_or node''.events first 0 ≡ 0)
        × (node''.ack_events ≡ second ∷ [])
        × (handle etl config effect node'' (acknowledged node.next_packet_id)
            ≡ ok (none, notify second ∷ []))
  unfolding publish_wait_start publish_wait_end handle to_byte find_pending
  packet_id_comes_round node topic payload first listed place same positive room tf fits =
      let (i, e) = find_free-in_use 0 node.events room in
      let (j, k, l, z) = find_free-some 0 node.events i e in
      let taken : i ≡ j = omega (arith, k) in
      let free : get_or node.events i 0 ≡ 0 = rw taken z in
      let place' : i < length node.events = rw taken l in
      let ne : first ≢ i =
        λ q. omega (arith, same, free, ap (λ n. get_or node.events n 0) q, positive) in
      let events' = set node.events i node.next_packet_id in
      let node' : Node = record node {
        next_packet_id =
            if node.tx_data_ready_set then next_id node.next_packet_id else node.next_packet_id;
        ack_events = first ∷ i ∷ [];
        events = events';
        max_ack_packet_index =
            if ltb node.max_ack_packet_index i then i else node.max_ack_packet_index;
      } in
      let node'' : Node = record node' { events = set events' first 0; ack_events = i ∷ [] } in
      (
        i,
        node',
        node'',
        (λ q. ne (sym q)),
        ground (
          arith,
          listed,
          e,
          etl.push_back_fits ℕ max_pending_acks node.ack_events i (omega (arith, ap length listed)),
          publish_internal-message etl config node.tx_data_ready_set true node.next_packet_id topic
              payload tf fits,
        ),
        ground (
          arith,
          find_pending_first node.events first i node.next_packet_id ne place place' same,
        ),
        ground (
          arith,
          remove_event_first node.events first i node.next_packet_id ne place place' same,
        ),
        first_freed node.events first i node.next_packet_id ne place place' same,
        refl,
        ground (arith, second_left node.events first i node.next_packet_id ne place place' same),
      )
