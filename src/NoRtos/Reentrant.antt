-- ===== src/NoRtos/Reentrant.antt =====
-- Callbacks of src/EmbeddedSerialFiller_NoRTOS.cpp that call the node's methods. The iterators over
-- `subscribers_` and over a topic's subscribers are places in the lists, which the callbacks may
-- change: an element is read, and the end compared with, where the lists then stand.
pub mod Quiet
use embedded_serial_filler.Base.{
  ℕ, zero, suc, ◌+◌, List, [], ◌∷◌, length, get_elem?, same_bytes, ◌==◌, if◌then◌else◌, Option,
  none, some, Result, ok, fault, out_of_bounds, fuel, ◌>>=◌,
}
use embedded_serial_filler.Definitions.{max_subscribers}
use embedded_serial_filler.Outgoing.{Event, callback, no_subscribers_for_topic}
use embedded_serial_filler.Registry.{Subscriber, SubscriberType, SubscriberList, topic_index}
use embedded_serial_filler.NoRtos.{Node}

-- What the call of a delegate does to the node, and what it leaves in the array.
module _ (react : ℕ → Node → List ℕ → Node × List ℕ) where
  -- `for( auto subIter = …; subIter != it->subscribers.end(); ++subIter )`, with fuel for its rounds.
  unfoldable pub visit : ℕ → Node → ℕ → ℕ → List ℕ → Result (Node × List Event)
  visit zero node it sub_iter payload = fault fuel
  visit (suc f) node it sub_iter payload = elim (get_elem? node.subscribers it) [
    | none ↦ fault out_of_bounds
    | some entry ↦ elim (get_elem? entry.subscribers sub_iter) [
      | none ↦ if sub_iter == length entry.subscribers then ok (node, []) else fault out_of_bounds
      | some sub ↦
          let (node', payload') = react sub.callback node payload in
          visit f node' it (sub_iter + 1) payload' >>= λ (node'', events).
          ok (node'', callback sub.callback payload ∷ events)
    ]
  ]

  -- A list holds at most `ESF_MAX_SUBSCRIBERS` subscribers, so a round further than these is one
  -- behind its end.
  unfoldable pub deliver : Node → List ℕ → List ℕ → Result (Node × List Event)
  deliver node topic payload = elim (topic_index 0 topic node.subscribers) [
    | none ↦
        ok (
          node,
          if node.no_subscribers_set then no_subscribers_for_topic topic payload ∷ [] else [],
        )
    | some it ↦ visit (suc max_subscribers) node it 0 payload
  ]
