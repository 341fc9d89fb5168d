-- ===== src/Rtos/Subscribing.antt =====
-- `Subscribe` and `Unsubscribe` of src/EmbeddedSerialFiller_RTOS.cpp.
use embedded_serial_filler.Base.{ℕ, ◌+◌, ◌%◌, ◌^◌, ◌≡◌, List, All, ok, arith}
use embedded_serial_filler.Definitions.{Config, success, unrecognised_subscriber}
use embedded_serial_filler.Etl.{Etl}
use embedded_serial_filler.Registry.{Subscriber}
use embedded_serial_filler.Registry.Lookup.{IsRoomy, IsFreeAt, remove_subscriber_unknown}
use embedded_serial_filler.Registry.Undo.{with_entry, add_subscriber_undone}
use embedded_serial_filler.Rtos.{Node, subscribe, unsubscribe}

-- `Unsubscribe` with an identifier that no subscriber has returns ERROR_UNRECOGNISED_SUBSCRIBER and
-- leaves the node as it was.
unsubscribe_unknown :
    (node : Node) (id : ℕ)
    → All (IsFreeAt id) node.subscribers
    → unsubscribe node id ≡ (unrecognised_subscriber, node)
unfolding unsubscribe
unsubscribe_unknown node id h = ground (arith, remove_subscriber_unknown id node.subscribers h)

-- In the node for several threads, `Unsubscribe` undoes `Subscribe`, but for the next identifier
-- and an empty entry: with room for one more topic, and for one more subscriber at each, and a
-- next identifier that no subscriber has yet, `Subscribe` returns that identifier, `Unsubscribe`
-- with it succeeds, and behind the two the list of subscribers is what it was where the topic had
-- an entry, and else has an entry without subscribers for the topic behind the others; the next
-- identifier has moved on by one, and nothing else has changed.
pub subscribe-unsubscribe :
    (etl : Etl) (config : Config) (node : Node) (topic : List ℕ) (delegate : ℕ)
    → IsRoomy node.subscribers
    → All (IsFreeAt node.next_free_subscriber_id) node.subscribers
    → (node' : Node) × (subscribe etl config node topic delegate
        ≡ ok (node.next_free_subscriber_id, node'))
      × (unsubscribe node' node.next_free_subscriber_id ≡ (
        success,
        record node {
          subscribers = with_entry topic node.subscribers;
          next_free_subscriber_id = (node.next_free_subscriber_id + 1) % 2 ^ 32;
        },
      ))
unfolding subscribe unsubscribe
subscribe-unsubscribe etl config node topic delegate v free =
    let sub : Subscriber = record { id = node.next_free_subscriber_id; callback = delegate } in
    let (subs', p, q) = add_subscriber_undone etl topic sub node.subscribers v free in
    (
      record node {
        subscribers = subs';
        next_free_subscriber_id = (node.next_free_subscriber_id + 1) % 2 ^ 32;
      },
      ground (arith, p),
      ground (arith, q),
    )
