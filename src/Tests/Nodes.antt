-- ===== src/Tests/Nodes.antt =====
-- src/EmbeddedSerialFiller_NoRTOS.cpp at concrete inputs.
use embedded_serial_filler.Base.{
  same_bytes, ℕ, ◌≡◌, refl, List, [], ◌∷◌, ◌++◌, replicate, ◌>>=◌, ok, fault, assertion, arith,
}
use embedded_serial_filler.Definitions.{PublishResponse, success}
use embedded_serial_filler.Outgoing.{Event, tx_data_ready, next_id}
use embedded_serial_filler.Incoming.Short.{wires}
use embedded_serial_filler.Registry.{SubscriberType, SubscriberList}
use embedded_serial_filler.Registry.Lookup.{IsAdded}
use embedded_serial_filler.NoRtos.{
  Node, Statics, entry_point, no_event, subscribe, deliver, publish_wait, give_rx_data,
}
use embedded_serial_filler.NoRtos.Topics.{
  with_subscribers, swap-IsSameMap, give_rx_data-with_subscribers,
}
use embedded_serial_filler.NoRtos.Receiving.{answers, give_rx_data-wires}
use embedded_serial_filler.NoRtos.Waiting.{
  IsInStep, first_events, calls, publish_wait_times_out, publish_wait-IsInStep,
  publish_wait_shared_state,
}
use embedded_serial_filler.NoRtos.Acks.{ack_wire, acknowledged_exchange, unsolicited_ack}
use embedded_serial_filler.NoRtos.Subscribing.{subscribe-IsAdded}
use embedded_serial_filler.Tests.Container.{test_etl}
use embedded_serial_filler.Tests.{
  listener, fast, some_raw, clear, some_topic, some_subscribers, idle_node, busy_node, at_entry,
  at_continuation, some_message, some_message-IsShort, some_subscribers-IsRoomy, busy-IsInStep,
}

give_rx_data-wires_example :
    give_rx_data test_etl fast clear idle_node (wires test_etl (some_message ∷ (some_message ∷ [])))
    ≡ ok (record {
      status = success;
      node = idle_node;
      rx_data = [];
      events = answers test_etl fast clear idle_node (some_message ∷ (some_message ∷ []));
    })
give_rx_data-wires_example =
    give_rx_data-wires test_etl fast clear idle_node refl some_message (some_message ∷ [])
      some_message-IsShort (some_message-IsShort, tt)

acknowledged_exchange_example :
    (statics' statics'' : Statics) × (a' a'' : Node) × (bytes : List ℕ) × (publish_wait test_etl
        fast at_entry idle_node some_topic some_raw 2
      ≡ ok ((PublishResponse.pending, statics', a'), tx_data_ready bytes ∷ []))
    × (give_rx_data test_etl fast clear busy_node bytes
        ≡ ok (record {
          status = success;
          node = busy_node;
          rx_data = [];
          events =
              tx_data_ready (ack_wire test_etl fast clear 255)
              ∷ (deliver test_etl fast clear busy_node some_topic some_raw ++ []);
        }))
    × (give_rx_data test_etl fast clear a' (ack_wire test_etl fast clear 255)
        ≡ ok (record { status = success; node = a''; rx_data = []; events = [] }))
    × (publish_wait test_etl fast statics' a'' some_topic some_raw 2
        ≡ ok (
          (
            PublishResponse.success,
            statics'',
            record idle_node { next_packet_id = next_id 255; ack_event = no_event },
          ),
          [],
        ))
acknowledged_exchange_example =
    acknowledged_exchange test_etl fast clear at_entry idle_node busy_node some_topic some_raw 2
      refl refl (omega arith, omega arith) refl refl refl refl (omega arith) (omega arith)
      (omega arith) (omega arith) (omega arith)

unsolicited_ack_example :
    (node' node'' : Node) × (statics' : Statics) × (give_rx_data test_etl fast clear idle_node
        (ack_wire test_etl fast clear 0)
      ≡ ok (record { status = success; node = node'; rx_data = []; events = [] }))
    × (publish_wait test_etl fast at_entry node' some_topic some_raw 1
        ≡ ok (
          (PublishResponse.success, statics', node''),
          first_events test_etl fast some_topic some_raw idle_node,
        ))
unsolicited_ack_example =
    unsolicited_ack test_etl fast clear at_entry idle_node some_topic some_raw 1 refl refl refl
      (omega arith) (omega arith) (omega arith)

publish_wait-IsInStep_example :
    (response : PublishResponse) × (statics' : Statics) × (node' : Node) × (events : List Event)
    × (publish_wait test_etl fast at_continuation busy_node some_topic some_raw 5
        ≡ ok ((response, statics', node'), events))
    × IsInStep statics' node'
publish_wait-IsInStep_example =
    publish_wait-IsInStep test_etl fast some_topic some_raw (omega arith) (omega arith)
      at_continuation busy_node 5 busy-IsInStep

publish_wait_times_out_example :
    calls test_etl fast some_topic some_raw (omega arith) (omega arith) 3 at_entry idle_node 2
    ≡ ok (
      replicate 2 PublishResponse.pending ++ PublishResponse.timeout ∷ [],
      record { pw_state = entry_point; timeout_count = 2 },
      record idle_node { next_packet_id = next_id 255; ack_event = no_event },
    )
publish_wait_times_out_example =
    publish_wait_times_out test_etl fast some_topic some_raw (omega arith) (omega arith) at_entry
      idle_node 2 refl refl

publish_wait_shared_state_example :
    (statics' : Statics) × (publish_wait test_etl fast at_continuation idle_node some_topic some_raw
        3
      ≡ ok ((PublishResponse.timeout, statics', record idle_node { ack_event = no_event }), []))
    × (publish_wait test_etl fast statics' busy_node some_topic some_raw 5 ≡ fault assertion)
publish_wait_shared_state_example =
    publish_wait_shared_state test_etl fast some_topic some_raw (omega arith) (omega arith)
      at_continuation busy_node idle_node 3 5 busy-IsInStep refl (omega arith)

subscribe-IsAdded_example :
    (subs' : SubscriberList) × (subscribe test_etl fast idle_node some_topic 8
      ≡ ok (1, record idle_node { subscribers = subs'; next_free_subscriber_id = 2 }))
    × IsAdded test_etl some_topic (record { id = 1; callback = 8 }) some_subscribers subs'
subscribe-IsAdded_example =
    subscribe-IsAdded test_etl fast idle_node some_topic 8 some_subscribers-IsRoomy

-- The same topics, subscribed to in another order.
abbrev other_topic : SubscriberType
other_topic = record { topic = 117 ∷ []; subscribers = record { id = 1; callback = 5 } ∷ [] }

abbrev two_topics_node : Node
two_topics_node = record idle_node { subscribers = other_topic ∷ some_subscribers }

give_rx_data-with_subscribers_example :
    give_rx_data test_etl fast clear
      (with_subscribers (some_subscribers ++ other_topic ∷ []) two_topics_node)
      (wires test_etl (some_message ∷ []))
    ≡ (give_rx_data test_etl fast clear two_topics_node (wires test_etl (some_message ∷ []))
        >>= λ g.
            ok (record g { node = with_subscribers (some_subscribers ++ other_topic ∷ []) g.node }))
unfolding same_bytes
give_rx_data-with_subscribers_example =
    give_rx_data-with_subscribers test_etl fast clear two_topics_node
      (some_subscribers ++ other_topic ∷ []) (wires test_etl (some_message ∷ []))
      (swap-IsSameMap other_topic (record { topic = some_topic; subscribers = listener ∷ [] }) []
        refl)
