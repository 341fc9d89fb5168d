-- ===== src/NoRtos/Subscribing.antt =====
-- `Subscribe` of src/EmbeddedSerialFiller_NoRTOS.cpp.
use embedded_serial_filler.Base.{ℕ, ◌+◌, ◌%◌, ◌^◌, ◌≡◌, List, ok, arith}
use embedded_serial_filler.Definitions.{Config}
use embedded_serial_filler.Etl.{Etl}
use embedded_serial_filler.Registry.{Subscriber, SubscriberList}
use embedded_serial_filler.Registry.Lookup.{IsRoomy, IsAdded, add_subscriber-IsAdded}
use embedded_serial_filler.NoRtos.{Node, subscribe}

module _ (etl : Etl) (config : Config) where
  -- With room for one more topic, and for one more subscriber at each, `Subscribe` returns the
  -- node's next identifier, which moves on; the subscriber comes behind the others of its topic,
  -- and the subscribers of all other topics stay as they were.
  pub subscribe-IsAdded :
      (node : Node) (topic : List ℕ) (delegate : ℕ)
      → IsRoomy node.subscribers
      → (subs' : SubscriberList) × (subscribe etl config node topic delegate
          ≡ ok (
            node.next_free_subscriber_id,
            record node {
              subscribers = subs';
              next_free_subscriber_id = (node.next_free_subscriber_id + 1) % 2 ^ 32;
            },
          ))
        × IsAdded etl topic
            (record { id = node.next_free_subscriber_id; callback = delegate })
            node.subscribers
            subs'
  unfolding subscribe
  subscribe-IsAdded node topic delegate v =
      let sub : Subscriber = record { id = node.next_free_subscriber_id; callback = delegate } in
      let (subs', p, q) = add_subscriber-IsAdded etl topic sub node.subscribers v.topics v.each in
      (subs', ground (arith, p), q)
