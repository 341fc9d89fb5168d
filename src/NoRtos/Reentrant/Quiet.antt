-- ===== src/NoRtos/Reentrant/Quiet.antt =====
-- Callbacks of src/EmbeddedSerialFiller_NoRTOS.cpp that leave the subscribers alone.
use embedded_serial_filler.Base.{
  ℕ, zero, suc, ◌+◌, ◌≤◌, ◌<◌, ◌≡◌, refl, sym, ◌∙◌, ap, inl, inr, All, List, [], ◌∷◌, ◌++◌,
  append_assoc, append-nil, length, length-append, get_elem?, get_elem?-append, get_elem?-none,
  ◌==◌, eq→==, if◌then◌else◌, Option-cases, some, ok, fault, out_of_bounds, ◌>>=◌, arith,
}
use embedded_serial_filler.Definitions.{Config, max_subscribers}
use embedded_serial_filler.Etl.{Etl}
use embedded_serial_filler.Outgoing.{callback}
use embedded_serial_filler.Registry.{Subscriber, SubscriberType, find_topic}
use embedded_serial_filler.Registry.Places.{get_elem?-All, topic_index-find_topic, topic_index-none}
use embedded_serial_filler.NoRtos
use embedded_serial_filler.NoRtos.{Node, call_each}
use embedded_serial_filler.NoRtos.Reentrant.{visit, deliver}

module _ (react : ℕ → Node → List ℕ → Node × List ℕ) where
  -- A round.
  pub visit_step :
      (f : ℕ) (node : Node) (t i : ℕ) (payload : List ℕ) (it : SubscriberType) (sub : Subscriber)
      → get_elem? node.subscribers t ≡ some it
      → get_elem? it.subscribers i ≡ some sub
      → visit react (suc f) node t i payload ≡ (
          let (node', payload') = react sub.callback node payload in
          visit react f node' t (i + 1) payload' >>= λ (node'', events).
          ok (node'', callback sub.callback payload ∷ events))
  unfolding visit
  visit_step f node t i payload it sub e k = ground (arith, e, k)

  -- The end of the list, and behind it.
  pub visit_end :
      (f : ℕ) (node : Node) (t i : ℕ) (payload : List ℕ) (it : SubscriberType)
      → get_elem? node.subscribers t ≡ some it
      → length it.subscribers ≤ i
      → visit react (suc f) node t i payload
        ≡ (if i == length it.subscribers then ok (node, []) else fault out_of_bounds)
  unfolding visit
  visit_end f node t i payload it e h = ground (arith, e, get_elem?-none it.subscribers i h)

  module _ (effect : ℕ → List ℕ → List ℕ)
      (quiet : (delegate : ℕ) (node : Node) (payload : List ℕ)
        → ((react delegate node payload).0.subscribers ≡ node.subscribers)
          × ((react delegate node payload).1 ≡ effect delegate payload))
      (etl : Etl) (config : Config) where
    visit-call_each :
        (todo done : List Subscriber) (f : ℕ) (node : Node) (t : ℕ) (payload : List ℕ)
        (it : SubscriberType)
        → get_elem? node.subscribers t ≡ some it
        → it.subscribers ≡ done ++ todo
        → length todo < f
        → (node' : Node) × (node'.subscribers ≡ node.subscribers)
          × (visit react f node t (length done) payload
              ≡ ok (node', call_each etl config effect todo payload))
    unfolding call_each
    visit-call_each todo done zero node t payload it e k h = absurd (omega arith)
    visit-call_each [] done (suc f) node t payload it e k h =
        let same : length it.subscribers ≡ length done = ap length (k ∙ append-nil done) in
        (
          node,
          refl,
          visit_end f node t (length done) payload it e (omega (arith, same))
              ∙ rw (eq→== (length done) (length it.subscribers) (sym same)) refl,
        )
    visit-call_each (sub ∷ todo) done (suc f) node t payload it e k h =
        let r = react sub.callback node payload in
        let (same, left) = quiet sub.callback node payload in
        let (node', p, q) =
          visit-call_each todo (done ++ sub ∷ []) f r.0 t (effect sub.callback payload) it
            (ap (λ s. get_elem? s t) same ∙ e) (k ∙ sym (append_assoc done (sub ∷ []) todo))
            (omega arith) in
        (
          node',
          p ∙ same,
          visit_step f node t (length done) payload it sub e
                (ap (λ s. get_elem? s (length done)) k ∙ get_elem?-append done sub todo)
              ∙ rw (left, sym (length-append done (sub ∷ []))) (rw q refl),
        )

    -- Callbacks may call the node's methods as long as they leave the list of subscribers alone,
    -- and what they leave in the array depends on the array only: with at most
    -- `ESF_MAX_SUBSCRIBERS` subscribers for each topic, the loop over places in the lists, which
    -- reads each place and the end of the list anew, comes to a value, and what it calls is what
    -- the loop over the subscribers as they were before the first call does.
    pub deliver-call_each :
        (node : Node) (topic payload : List ℕ)
        → All (λ (it : SubscriberType). length it.subscribers ≤ max_subscribers) node.subscribers
        → (node' : Node) × (node'.subscribers ≡ node.subscribers)
          × (deliver react node topic payload
              ≡ ok (node', NoRtos.deliver etl config effect node topic payload))
    unfolding deliver NoRtos.deliver
    deliver-call_each node topic payload fits =
        elim (Option-cases (find_topic topic node.subscribers)) [
          | inl e ↦ (node, refl, ground (arith, e, topic_index-none 0 topic node.subscribers e))
          | inr (it, e) ↦
              (let (i, p, q) = topic_index-find_topic 0 topic node.subscribers it e in
                let (node', same, r) =
                  visit-call_each it.subscribers [] (suc max_subscribers) node i payload it q refl
                    (omega (arith, get_elem?-All _ node.subscribers i it q fits)) in
                (node', same, ground (arith, e, p, r)))
        ]
