-- ===== src/Rtos/Reentrant.antt =====
-- Callbacks of src/EmbeddedSerialFiller_RTOS.cpp that call the node's methods, and other threads that
-- do so while a callback runs. The iterators over `subscribers_` and over a topic's subscribers are
-- places in the lists, which may change meanwhile: an element is read, and the end compared with, where
-- the lists then stand.
pub mod Rounds
pub mod Quiet
pub mod Unsubscribing
use embedded_serial_filler.Base.{
  ℕ, zero, suc, ◌+◌, List, [], ◌∷◌, ◌++◌, length, get_elem?, ◌==◌, if◌then◌else◌, Bool, none, some,
  Result, ok, fault, out_of_bounds, fuel, ◌>>=◌,
}
use embedded_serial_filler.Definitions.{max_subscribers}
use embedded_serial_filler.Outgoing.{Event, callback, no_subscribers_for_topic}
use embedded_serial_filler.Registry.{Subscriber, SubscriberType, SubscriberList, topic_index}
use embedded_serial_filler.Rtos.{Action, emit, take_lock, release_lock, Node}

-- A call of a delegate of the user's from `GiveRxData`, with `threadSafetyEnabled_` as it is before
-- the call and as it is behind it. What the call itself does to the lock is not listed.
abbrev pub called : Bool → Bool → Event → List Action
called enabled enabled' event =
    (if enabled then release_lock ∷ [] else [])
    ++ emit event ∷ (if enabled' then take_lock ∷ [] else [])

-- What becomes of the node during the call of a delegate, and what the call leaves in the array.
module _ (react : Event → Node → List ℕ → Node × List ℕ) where
  -- `for( auto subIter = …; subIter != it->subscribers.end(); ++subIter )`, with fuel for its rounds.
  unfoldable pub visit : ℕ → Node → ℕ → ℕ → List ℕ → Result (Node × List Action)
  visit zero node it sub_iter payload = fault fuel
  visit (suc f) node it sub_iter payload = elim (get_elem? node.subscribers it) [
    | none ↦ fault out_of_bounds
    | some entry ↦ elim (get_elem? entry.subscribers sub_iter) [
      | none ↦ if sub_iter == length entry.subscribers then ok (node, []) else fault out_of_bounds
      | some sub ↦
          let event = callback sub.callback payload in
          let (node', payload') = react event node payload in
          visit f node' it (sub_iter + 1) payload' >>= λ (node'', actions).
          ok
            (node'', called node.thread_safety_enabled node'.thread_safety_enabled event ++ actions)
    ]
  ]

  -- A list holds at most `ESF_MAX_SUBSCRIBERS` subscribers, so a round further than these is one
  -- behind its end.
  unfoldable pub deliver : Node → List ℕ → List ℕ → Result (Node × List Action)
  deliver node topic payload = elim (topic_index 0 topic node.subscribers) [
    | none ↦
        let event = no_subscribers_for_topic topic payload in
        let (node', payload') = react event node payload in
        if node.no_subscribers_set
        then ok (node', called node.thread_safety_enabled node'.thread_safety_enabled event)
        else ok (node, [])
    | some it ↦ visit (suc max_subscribers) node it 0 payload
  ]
