-- ===== src/Tests/Systems.antt =====
-- Reachable states of the nodes, with and without threads.
use embedded_serial_filler.Base.{
  ℕ, ◌≡◌, ◌≢◌, ◌⊎◌, refl, List, [], ◌∷◌, ◌++◌, length, ◌≤◌, ◌<◌, get_or, replicate, All, true,
  false, some, none, ok, arith,
}
use embedded_serial_filler.Definitions.{PublishResponse, unexpected_ack, to_byte, max_pending_acks}
use embedded_serial_filler.Outgoing.{tx_data_ready, next_id}
use embedded_serial_filler.Outgoing.Contents.{contents, sent, publish_internal-message}
use embedded_serial_filler.Incoming.{acknowledged}
use embedded_serial_filler.Incoming.Total.{Ends}
use embedded_serial_filler.NoRtos
use embedded_serial_filler.NoRtos.Rounds.{IsGiven}
use embedded_serial_filler.NoRtos.Progress.{give_rx_data-Ends}
use embedded_serial_filler.NoRtos.Reachable
use embedded_serial_filler.NoRtos.Reachable.{World, IsWell, Reach-IsWell}
use embedded_serial_filler.Rtos
use embedded_serial_filler.Rtos.Threads.{Thread, System, Reach, here, next, waits}
use embedded_serial_filler.Rtos.Threads.Events.{in_use}
use embedded_serial_filler.Rtos.Threads.Invariant.{Reach-IsTracked}
use embedded_serial_filler.Rtos.Threads.Tracked.{IsTracked}
use embedded_serial_filler.Rtos.Threads.Acks.{handle_acknowledged, publish_wait_start-waiting}
use embedded_serial_filler.Rtos.Threads.Collision.{packet_id_comes_round}
use embedded_serial_filler.Tests.Container.{test_etl}
use embedded_serial_filler.Tests.{fast, some_raw, clear, some_topic, busy_node}

-- Bytes that are no packet.
give_rx_data-Ends_example :
    Ends
      (IsGiven busy_node)
      (NoRtos.give_rx_data test_etl fast clear busy_node (5 ∷ (0 ∷ (9 ∷ []))))
give_rx_data-Ends_example =
    give_rx_data-Ends test_etl fast clear refl busy_node (5 ∷ (0 ∷ (9 ∷ []))) (tt, omega arith)
      (omega arith)

-- A call of `PublishWait` whose packet nobody acknowledges at once.
abbrev pending_world : World
pending_world = record {
  statics = record { pw_state = NoRtos.continuation_point; timeout_count = 1 };
  node = record {
    rx_buffer = [];
    subscribers = [];
    next_packet_id = 2;
    ack_event = record { packet_id = 1; state = NoRtos.no_ack };
    next_free_subscriber_id = 0;
    tx_data_ready_set = true;
    no_subscribers_set = true;
  };
}

pending-Reach : Reachable.Reach test_etl fast clear pending_world
unfolding NoRtos.new_node NoRtos.publish_wait NoRtos.start_wait NoRtos.await_ack to_byte next_id
pending-Reach = Reachable.next (Reachable.here true true) (
    Reachable.waits some_topic some_raw 3 PublishResponse.pending pending_world.statics
      pending_world.node (tx_data_ready (sent test_etl (contents 0x50 1 some_topic some_raw)) ∷ [])
      (ground (
        arith,
        publish_internal-message test_etl fast true true 1 some_topic some_raw (omega arith)
            (omega arith),
      )))

Reach-IsWell_example : IsWell pending_world
Reach-IsWell_example = Reach-IsWell test_etl fast clear refl pending-Reach

-- One thread waits.
abbrev one_thread : Thread
one_thread = record { event_index = 0; packet_id = 1 }

abbrev one_waiting : System
one_waiting = record {
  node = record {
    rx_buffer = [];
    subscribers = [];
    next_packet_id = 2;
    thread_safety_enabled = true;
    ack_events = 0 ∷ [];
    events = 1 ∷ replicate 7 0;
    max_ack_packet_index = 0;
    next_free_subscriber_id = 0;
    tx_data_ready_set = true;
    no_subscribers_set = true;
  };
  waiting = one_thread ∷ [];
}

one_waiting-Reach : Reach test_etl fast clear one_waiting
unfolding Rtos.new_node Rtos.find_free Rtos.publish_wait_start to_byte next_id
one_waiting-Reach = next (here true true) (
    waits some_topic some_raw 0 1 one_waiting.node
      (Rtos.locked one_waiting.node
        (Rtos.emit (tx_data_ready (sent test_etl (contents 0x50 1 some_topic some_raw))) ∷ []))
      tt refl
      (ground (
        arith,
        test_etl.push_back_fits ℕ max_pending_acks [] 0 (omega arith),
        publish_internal-message test_etl fast true true 1 some_topic some_raw (omega arith)
            (omega arith),
      )))

Reach-IsTracked_example : IsTracked one_waiting
Reach-IsTracked_example = Reach-IsTracked test_etl fast clear one_waiting-Reach

handle_acknowledged_example :
    ((before : List Thread) × (t : Thread) × (after : List Thread) × (one_thread ∷ []
        ≡ before ++ t ∷ after)
      × (t.packet_id ≡ 1)
      × All (λ (u : Thread). u.event_index ≢ t.event_index) (before ++ after)
      × (Rtos.handle test_etl fast clear one_waiting.node (acknowledged 1)
          ≡ ok (none, Rtos.notify t.event_index ∷ [])))
    ⊎ (All (λ (t : Thread). t.packet_id ≢ 1) (one_thread ∷ [])
        × (Rtos.handle test_etl fast clear one_waiting.node (acknowledged 1)
            ≡ ok (some unexpected_ack, [])))
handle_acknowledged_example =
    handle_acknowledged test_etl fast clear one_waiting 1 one_waiting-Reach

publish_wait_start-waiting_example :
    (Rtos.num_threads_waiting one_waiting.node ≡ 1)
    × (1 ≤ max_pending_acks)
    × (((1 < max_pending_acks)
          × (event_index : ℕ) × (node' : Rtos.Node) × (Rtos.find_free 0 (1 ∷ replicate 7 0)
              ≡ some event_index)
          × (Rtos.publish_wait_start test_etl fast one_waiting.node some_topic some_raw
              ≡ ok (
                some 2,
                node',
                Rtos.locked one_waiting.node (
                    Rtos.emit (tx_data_ready (sent test_etl (contents 0x50 2 some_topic some_raw)))
                    ∷ []),
              )))
        ⊎ ((length (one_thread ∷ []) ≡ max_pending_acks)
            × (Rtos.publish_wait_start test_etl fast one_waiting.node some_topic some_raw
                ≡ ok (none, one_waiting.node, Rtos.locked one_waiting.node []))))
publish_wait_start-waiting_example =
    publish_wait_start-waiting test_etl fast clear one_waiting some_topic some_raw one_waiting-Reach
      (omega arith) (omega arith)

-- The thread still waits when the node has come round to its identifier.
abbrev round_node : Rtos.Node
round_node = record one_waiting.node { next_packet_id = 1 }

packet_id_comes_round_example :
    (second : ℕ) × (node' node'' : Rtos.Node) × (second ≢ 0)
    × (Rtos.publish_wait_start test_etl fast round_node some_topic some_raw
        ≡ ok (
          some 1,
          node',
          Rtos.locked round_node (
              Rtos.emit (tx_data_ready (sent test_etl (contents 0x50 1 some_topic some_raw))) ∷ []),
        ))
    × (Rtos.handle test_etl fast clear node' (acknowledged 1) ≡ ok (none, Rtos.notify 0 ∷ []))
    × (Rtos.publish_wait_end node' 1 false ≡ (PublishResponse.timeout, node''))
    × (get_or node''.events 0 0 ≡ 0)
    × (node''.ack_events ≡ second ∷ [])
    × (Rtos.handle test_etl fast clear node'' (acknowledged 1) ≡ ok (none, Rtos.notify second ∷ []))
unfolding in_use
packet_id_comes_round_example =
    packet_id_comes_round test_etl fast clear round_node some_topic some_raw 0 refl (omega arith)
      refl (omega arith) (omega arith) (omega arith) (omega arith)
