-- ===== src/Rtos/Reentrant/Quiet.antt =====
-- Callbacks of src/EmbeddedSerialFiller_RTOS.cpp, and other threads meanwhile, that leave the
-- subscribers and `threadSafetyEnabled_` alone.
use embedded_serial_filler.Base.{
  ℕ, zero, suc, ◌≤◌, ◌<◌, ◌≡◌, refl, sym, ◌∙◌, ap, inl, inr, All, List, [], ◌∷◌, ◌++◌, append_assoc,
  append-nil, length, length-append, get_elem?, get_elem?-append, eq→==, Bool-cases, Option-cases,
  some, ok, arith,
}
use embedded_serial_filler.Definitions.{Config, max_subscribers}
use embedded_serial_filler.Etl.{Etl}
use embedded_serial_filler.Outgoing.{Event, callback, no_subscribers_for_topic}
use embedded_serial_filler.Registry.{Subscriber, SubscriberType, find_topic}
use embedded_serial_filler.Registry.Places.{get_elem?-All, topic_index-find_topic, topic_index-none}
use embedded_serial_filler.Rtos
use embedded_serial_filler.Rtos.{Action, Node, unlocked, call_each}
use embedded_serial_filler.Rtos.Reentrant.{called, visit, deliver}
use embedded_serial_filler.Rtos.Reentrant.Rounds.{visit_step, visit_end}

-- What is listed for a call does not depend on the node but for its flag.
called-unlocked :
    (node node' : Node) (event : Event)
    → node'.thread_safety_enabled ≡ node.thread_safety_enabled
    → called node.thread_safety_enabled node'.thread_safety_enabled event ≡ unlocked node event
called-unlocked node node' event same = elim (Bool-cases node.thread_safety_enabled) [
  | inl e ↦ rw (same, e) refl
  | inr e ↦ rw (same, e) refl
]

module _ (react : Event → Node → List ℕ → Node × List ℕ) (effect : ℕ → List ℕ → List ℕ)
    (quiet : (event : Event) (node : Node) (payload : List ℕ)
      → ((react event node payload).0.subscribers ≡ node.subscribers)
        × ((react event node payload).0.thread_safety_enabled ≡ node.thread_safety_enabled))
    (left : (delegate : ℕ) (node : Node) (payload : List ℕ)
      → (react (callback delegate payload) node payload).1 ≡ effect delegate payload)
    (etl : Etl) (config : Config) where
  call_each_flag :
      (node node' : Node) (subs : List Subscriber) (payload : List ℕ)
      → node'.thread_safety_enabled ≡ node.thread_safety_enabled
      → call_each etl config effect node' subs payload
        ≡ call_each etl config effect node subs payload
  unfolding call_each
  call_each_flag node node' [] payload same = refl
  call_each_flag node node' (sub ∷ subs) payload same =
      rw (same, call_each_flag node node' subs (effect sub.callback payload) same) refl

  visit-call_each :
      (todo done : List Subscriber) (f : ℕ) (node : Node) (t : ℕ) (payload : List ℕ)
      (it : SubscriberType)
      → get_elem? node.subscribers t ≡ some it
      → it.subscribers ≡ done ++ todo
      → length todo < f
      → (node' : Node) × (node'.subscribers ≡ node.subscribers)
        × (visit react f node t (length done) payload
            ≡ ok (node', call_each etl config effect node todo payload))
  unfolding call_each
  visit-call_each todo done zero node t payload it e k h = absurd (omega arith)
  visit-call_each [] done (suc f) node t payload it e k h =
      let same : length it.subscribers ≡ length done = ap length (k ∙ append-nil done) in
      (
        node,
        refl,
        visit_end react f node t (length done) payload it e (omega (arith, same))
            ∙ rw (eq→== (length done) (length it.subscribers) (sym same)) refl,
      )
  visit-call_each (sub ∷ todo) done (suc f) node t payload it e k h =
      let event = callback sub.callback payload in
      let r = react event node payload in
      let (same, flag) = quiet event node payload in
      let (node', p, q) =
        visit-call_each todo (done ++ sub ∷ []) f r.0 t (effect sub.callback payload) it
          (ap (λ s. get_elem? s t) same ∙ e) (k ∙ sym (append_assoc done (sub ∷ []) todo))
          (omega arith) in
      (
        node',
        p ∙ same,
        visit_step react f node t (length done) payload it sub e
              (ap (λ s. get_elem? s (length done)) k ∙ get_elem?-append done sub todo)
            ∙ rw
                (
                  left sub.callback node payload,
                  sym (length-append done (sub ∷ [])),
                  q,
                  called-unlocked node r.0 event flag,
                  call_each_flag node r.0 todo (effect sub.callback payload) flag,
                )
                refl,
      )

  -- With at most `ESF_MAX_SUBSCRIBERS` subscribers for each topic, calls during which the list of
  -- subscribers and `threadSafetyEnabled_` stay as they are, and which leave in the array what
  -- depends on the array only: the loop over places in the lists comes to a value, and makes the
  -- calls, and takes and releases the lock, as the loop over the subscribers as they were before the
  -- first call does.
  deliver-call_each_unlocked :
      (node : Node) (topic payload : List ℕ)
      → All (λ (it : SubscriberType). length it.subscribers ≤ max_subscribers) node.subscribers
      → (node' : Node) × (node'.subscribers ≡ node.subscribers)
        × (deliver react node topic payload
            ≡ ok (node', Rtos.deliver etl config effect node topic payload))
  unfolding deliver Rtos.deliver
  deliver-call_each_unlocked node topic payload fits =
      elim (Option-cases (find_topic topic node.subscribers)) [
        | inl e ↦
            (let event = no_subscribers_for_topic topic payload in
              let (same, flag) = quiet event node payload in
              elim (Bool-cases node.no_subscribers_set) [
                | inl b ↦ (
                  (react event node payload).0,
                  same,
                  ground (
                    arith,
                    e,
                    b,
                    topic_index-none 0 topic node.subscribers e,
                    called-unlocked node (react event node payload).0 event flag,
                  ),
                )
                | inr b ↦ (
                  node,
                  refl,
                  rw (deliver, Rtos.deliver, topic_index-none 0 topic node.subscribers e, e, b)
                      refl,
                )
              ])
        | inr (it, e) ↦
            (let (i, p, q) = topic_index-find_topic 0 topic node.subscribers it e in
              let (node', same, r) =
                visit-call_each it.subscribers [] (suc max_subscribers) node i payload it q refl
                  (omega (arith, get_elem?-All _ node.subscribers i it q fits)) in
              (node', same, ground (arith, e, p, r)))
      ]
