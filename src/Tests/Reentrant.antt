-- ===== src/Tests/Reentrant.antt =====
-- Callbacks that call the node's methods, at concrete inputs.
use embedded_serial_filler.Base.{
  ℕ, ◌≡◌, ◌≢◌, refl, List, [], ◌∷◌, ◌==◌, same_bytes, if◌then◌else◌, ok, true, arith,
}
use embedded_serial_filler.Registry.{Subscriber, SubscriberType, find_topic}
use embedded_serial_filler.NoRtos
use embedded_serial_filler.NoRtos.{Node}
use embedded_serial_filler.NoRtos.Reentrant.{deliver}
use embedded_serial_filler.NoRtos.Reentrant.Quiet.{deliver-call_each}
use embedded_serial_filler.Outgoing.{Event, callback, no_subscribers_for_topic, tx_data_ready}
use embedded_serial_filler.Rtos
use embedded_serial_filler.Rtos.Reentrant
use embedded_serial_filler.Rtos.Reentrant.Rounds.{calls}
use embedded_serial_filler.Rtos.Reentrant.Unsubscribing.{deliver-visited}
use embedded_serial_filler.Tests.Container.{test_etl}
use embedded_serial_filler.Tests.{
  fast, some_raw, clear, some_topic, listener, some_subscribers, idle_node, threaded_node,
}

-- Callbacks that publish, and clear the data.
abbrev publishing : ℕ → Node → List ℕ → Node × List ℕ
publishing delegate node payload = (record node { next_packet_id = 7 }, clear delegate payload)

deliver-call_each_example :
    (node' : Node) × (node'.subscribers ≡ some_subscribers)
    × (deliver publishing idle_node some_topic some_raw
        ≡ ok (node', NoRtos.deliver test_etl fast clear idle_node some_topic some_raw))
deliver-call_each_example =
    deliver-call_each publishing clear (λ delegate node payload. (refl, refl)) test_etl fast
      idle_node some_topic some_raw (omega arith, tt)

-- Two listeners more, for the topic.
abbrev late : Subscriber
late = record { id = 1; callback = 5 }

abbrev later : Subscriber
later = record { id = 2; callback = 6 }

abbrev crowded_topic : SubscriberType
crowded_topic = record { topic = some_topic; subscribers = listener ∷ (late ∷ (later ∷ [])) }

abbrev crowded_node : Rtos.Node
crowded_node = record threaded_node { subscribers = crowded_topic ∷ [] }

-- The listener hears one message and then unsubscribes.
abbrev once : Event → Rtos.Node → List ℕ → Rtos.Node × List ℕ
once (callback delegate x) node payload =
    ((if delegate == 4 then (Rtos.unsubscribe node 0).1 else node), payload)
once (no_subscribers_for_topic topic x) node payload = (node, payload)
once (tx_data_ready x) node payload = (node, payload)

once-other :
    (delegate : ℕ) (node : Rtos.Node) (payload : List ℕ)
    → delegate ≢ 4
    → once (callback delegate payload) node payload ≡ (node, payload)
once-other delegate node payload h = ground (arith, h)

deliver-visited_example :
    Rtos.Reentrant.deliver once crowded_node some_topic some_raw
    ≡ ok ((Rtos.unsubscribe crowded_node 0).1, calls true (listener ∷ (later ∷ [])) some_raw)
unfolding find_topic same_bytes
deliver-visited_example =
    deliver-visited once listener once-other (λ node payload. refl) [] (late ∷ (later ∷ []))
      crowded_node some_topic some_raw crowded_topic refl refl (omega arith) tt tt
      (omega arith, (omega arith, tt))
