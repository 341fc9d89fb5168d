-- ===== src/Os/Calls.antt =====
-- Calls of src/EmbeddedSerialFiller_RTOS.cpp on an operating system, whichever it is.
use embedded_serial_filler.Base.{
  ℕ, ◌+◌, ◌≤◌, ◌<◌, ◌≡◌, ◌∙◌, ap, List, [], ◌∷◌, ◌++◌, length, set, Bool, true, false, ltb,
  if◌then◌else◌, some, ok, arith,
}
use embedded_serial_filler.Definitions.{
  Config, PublishResponse, to_byte, max_packet_size, max_topic_length, max_pending_acks,
}
use embedded_serial_filler.Etl.{Etl}
use embedded_serial_filler.Cobs.Encoded.{encoded_size}
use embedded_serial_filler.Outgoing.{tx_data_ready, callback, no_subscribers_for_topic, next_id}
use embedded_serial_filler.Outgoing.Contents.{publish_internal-message}
use embedded_serial_filler.Rtos.{
  Action, emit, notify, take_lock, release_lock, Node, Given, find_free, publish_wait_start,
  publish_wait_end, give_rx_data,
}
use embedded_serial_filler.Rtos.Locking.{run_lock, give_rx_data_locking}
use embedded_serial_filler.Rtos.Threads.Events.{in_use, find_free-in_use}
use embedded_serial_filler.Os.{Os, run, publish_wait}

-- How often the mutex is held.
abbrev times : Bool → ℕ
times held = if held then 1 else 0

module _ (os : Os) where
  -- A use of the lock that the abstract lock allows.
  run-uses :
      (held held' : Bool) (actions : List Action) (w : os.World)
      → run_lock held actions ≡ some held'
      → os.uses w ≡ times held
      → os.uses (run os actions w) ≡ times held'
  unfolding run run_lock
  run-uses held held' [] w h u = u ∙ ap times (ground (arith, h))
  run-uses true held' (take_lock ∷ actions) w h u = absurd (ground (arith, h))
  run-uses false held' (take_lock ∷ actions) w h u =
      run-uses true held' actions (os.lock w) h (os.uses-lock w u)
  run-uses true held' (release_lock ∷ actions) w h u =
      run-uses false held' actions (os.unlock w) h (os.uses-unlock w u)
  run-uses false held' (release_lock ∷ actions) w h u = absurd (ground (arith, h))
  run-uses true held' (notify i ∷ actions) w h u =
      run-uses true held' actions (os.notify_all i w) h (os.uses-notify_all i w ∙ u)
  run-uses false held' (notify i ∷ actions) w h u = absurd (ground (arith, h))
  run-uses true held' (emit (tx_data_ready bytes) ∷ actions) w h u =
      run-uses true held' actions w h u
  run-uses false held' (emit (tx_data_ready bytes) ∷ actions) w h u = absurd (ground (arith, h))
  run-uses true held' (emit (callback delegate payload) ∷ actions) w h u =
      absurd (ground (arith, h))
  run-uses false held' (emit (callback delegate payload) ∷ actions) w h u =
      run-uses false held' actions w h u
  run-uses true held' (emit (no_subscribers_for_topic topic payload) ∷ actions) w h u =
      absurd (ground (arith, h))
  run-uses false held' (emit (no_subscribers_for_topic topic payload) ∷ actions) w h u =
      run-uses false held' actions w h u

  module _ (etl : Etl) (config : Config) where
    -- The mutex of the operating system follows the lock that `GiveRxData` speaks of, on any
    -- operating system behind the macros: with thread safety enabled, a call that returns, made by
    -- a thread that does not hold the mutex, leaves the thread without it.
    pub give_rx_data-uses :
        (effect : ℕ → List ℕ → List ℕ) (node : Node) (rx_data : List ℕ) (g : Given) (w : os.World)
        → node.thread_safety_enabled ≡ true
        → give_rx_data etl config effect node rx_data ≡ ok g
        → os.uses w ≡ 0
        → os.uses (run os g.actions w) ≡ 0
    give_rx_data-uses effect node rx_data g w safe h u =
        run-uses false false g.actions w
          (give_rx_data_locking etl config effect node rx_data g safe h) u

    -- A wait.
    pub publish_wait_lem :
        (meanwhile : Node → Node) (node : Node) (topic payload : List ℕ) (timeout : ℕ)
        (w : os.World)
        → node.thread_safety_enabled ≡ true
        → os.uses w ≡ 0
        → length node.ack_events < max_pending_acks
        → in_use node.events < length node.events
        → length topic ≤ max_topic_length
        → encoded_size (5 + length topic + length payload) ≤ max_packet_size
        → (event_index : ℕ) × (node' : Node) × (find_free 0 node.events ≡ some event_index)
          × (publish_wait os etl config meanwhile node topic payload timeout w ≡ (
              let (got_ack, woken) = os.wait_for event_index timeout (os.lock w) in
              ok (
                (if got_ack then PublishResponse.success else PublishResponse.timeout),
                node',
                os.destroy woken,
              )))
          × (os.uses (os.lock w) ≡ 1)
          × (os.uses (os.destroy (os.wait_for event_index timeout (os.lock w)).1) ≡ 0)
    unfolding publish_wait publish_wait_start publish_wait_end to_byte
    publish_wait_lem meanwhile node topic payload timeout w safe u room free tf fits =
        let (i, e) = find_free-in_use 0 node.events free in
        let held = os.uses-lock w u in
        (
          i,
          (publish_wait_end
              (meanwhile (record node {
                next_packet_id =
                    if node.tx_data_ready_set
                    then next_id node.next_packet_id
                    else node.next_packet_id;
                ack_events = node.ack_events ++ i ∷ [];
                events = set node.events i node.next_packet_id;
                max_ack_packet_index =
                    if ltb node.max_ack_packet_index i then i else node.max_ack_packet_index;
              }))
              node.next_packet_id (os.wait_for i timeout (os.lock w)).0).1,
          e,
          ground (
            arith,
            safe,
            e,
            etl.push_back_fits ℕ max_pending_acks node.ack_events i room,
            publish_internal-message etl config node.tx_data_ready_set true node.next_packet_id
                topic payload tf fits,
          ),
          held,
          os.uses-destroy _ (os.uses-wait_for i timeout (os.lock w) held),
        )
