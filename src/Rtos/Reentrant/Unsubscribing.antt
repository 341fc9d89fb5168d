-- ===== src/Rtos/Reentrant/Unsubscribing.antt =====
-- A subscriber that `Unsubscribe` of src/EmbeddedSerialFiller_RTOS.cpp takes off the list while
-- `GiveRxData` calls its delegate.
use embedded_serial_filler.Base.{
  ℕ, zero, suc, ◌+◌, ◌-◌, ◌≤◌, ◌<◌, ◌≡◌, ◌≢◌, refl, sym, ◌∙◌, ap, All, List, [], ◌∷◌, ◌++◌,
  append_assoc, append-nil, length, length-append, get_elem?, ◌==◌, true, false, some, Result, ok,
  fault, out_of_bounds, arith,
}
use embedded_serial_filler.Definitions.{max_subscribers}
use embedded_serial_filler.Outgoing.{Event, callback}
use embedded_serial_filler.Registry.{Subscriber, SubscriberType, find_topic, erase_id}
use embedded_serial_filler.Registry.Places.{
  topic_index-find_topic, get_elem?-remove_subscriber, erase_id-append,
}
use embedded_serial_filler.Rtos.{Action, Node, unsubscribe}
use embedded_serial_filler.Rtos.Reentrant.{called, visit, deliver}
use embedded_serial_filler.Rtos.Reentrant.Rounds.{
  calls, calls-append, led, at_place, visit_step, visit_end, visit-led,
}

-- What is called when `sub`, behind `before`, goes while it is called: the next one is passed over, and
-- if there is no next one, the loop runs off the end of the list.
abbrev pub visited :
    List Subscriber → Subscriber → List Subscriber → Node → List ℕ → Result (Node × List Action)
visited before sub [] node payload = fault out_of_bounds
visited before sub (passed_over ∷ rest) node payload =
    ok
      ((unsubscribe node sub.id).1, calls node.thread_safety_enabled (before ++ sub ∷ rest) payload)

module _ (react : Event → Node → List ℕ → Node × List ℕ) (sub : Subscriber)
    (other : (delegate : ℕ) (node : Node) (payload : List ℕ)
      → delegate ≢ sub.callback
      → react (callback delegate payload) node payload ≡ (node, payload))
    (leaves : (node : Node) (payload : List ℕ)
      → react (callback sub.callback payload) node payload
        ≡ ((unsubscribe node sub.id).1, payload)) where
  others :
      (node : Node) (payload : List ℕ) (subs : List Subscriber)
      → All (λ (s : Subscriber). s.callback ≢ sub.callback) subs
      → All
          (λ (s : Subscriber). react (callback s.callback payload) node payload ≡ (node, payload))
          subs
  others node payload [] h = tt
  others node payload (s ∷ subs) h =
      (other s.callback node payload h.0, others node payload subs h.1)

  -- The round in which `sub` goes.
  visit_leaving :
      (f : ℕ) (node : Node) (t i : ℕ) (payload : List ℕ) (it : SubscriberType)
      → get_elem? node.subscribers t ≡ some it
      → get_elem? it.subscribers i ≡ some sub
      → visit react (suc f) node t i payload
        ≡ led node.thread_safety_enabled
            (sub ∷ [])
            payload
            (visit react f (unsubscribe node sub.id).1 t (i + 1) payload)
  unfolding unsubscribe
  visit_leaving f node t i payload it e k =
      visit_step react f node t i payload it sub e k
      ∙ rw
          (
            leaves node payload,
            append-nil (
                called node.thread_safety_enabled node.thread_safety_enabled
                  (callback sub.callback payload)),
          )
          refl

  -- The rounds behind it, in the node without it.
  visit-visited :
      (before after : List Subscriber) (f : ℕ) (node gone : Node) (t i : ℕ) (payload : List ℕ)
      (it : SubscriberType)
      → gone ≡ (unsubscribe node sub.id).1
      → gone.thread_safety_enabled ≡ node.thread_safety_enabled
      → get_elem? gone.subscribers t ≡ some it
      → it.subscribers ≡ before ++ after
      → i ≡ length before + 1
      → length after < f
      → All (λ (s : Subscriber). s.callback ≢ sub.callback) after
      → led node.thread_safety_enabled before payload
          (led node.thread_safety_enabled (sub ∷ []) payload (visit react f gone t i payload))
        ≡ visited before sub after node payload
  unfolding unsubscribe
  visit-visited before after zero node gone t i payload it same flag e k a l h =
      absurd (omega arith)
  visit-visited before [] (suc f) node gone t i payload it same flag e k a l h =
      let size : length it.subscribers ≡ length before = ap length (k ∙ append-nil before) in
      let off : (i == length it.subscribers) ≡ false = ground (arith, a, size) in
      rw (visit_end react f gone t i payload it e (omega (arith, a, size)), off) refl
  visit-visited before (passed_over ∷ rest) (suc f) node gone t i payload it same flag e k a l h =
      let on = node.thread_safety_enabled in
      let size : length it.subscribers ≡ length before + suc (length rest) =
        ap length k ∙ length-append before (passed_over ∷ rest) in
      let last : (i + length rest == length it.subscribers) ≡ true = ground (arith, a, size) in
      rw
        (
          visit-led react rest (before ++ passed_over ∷ []) [] (suc (f - length rest)) (suc f) i
              (i + length rest) gone t payload it e
              (k
                ∙ ap (λ r. before ++ passed_over ∷ r) (sym (append-nil rest))
                ∙ sym (append_assoc before (passed_over ∷ []) (rest ++ [])))
              (omega (arith, a, length-append before (passed_over ∷ []))) refl (omega (arith, l))
              (others gone payload rest h.1),
          visit_end react (f - length rest) gone t (i + length rest) payload it e
              (omega (arith, a, size)),
          last,
          flag,
          same,
        )
        (ap (λ l. ok ((unsubscribe node sub.id).1, l))
          (ap (λ r. calls on before payload ++ (calls on (sub ∷ []) payload ++ r))
              (append-nil (calls on rest payload))
            ∙ ap (calls on before payload ++◌) (sym (calls-append on (sub ∷ []) rest payload))
            ∙ sym (calls-append on before (sub ∷ rest) payload)))

  module _ (before after : List Subscriber) (node : Node) (topic payload : List ℕ)
      (it : SubscriberType) (found : find_topic topic node.subscribers ≡ some it)
      (subs : it.subscribers ≡ before ++ sub ∷ after)
      (fits : length it.subscribers ≤ max_subscribers)
      (ids : All (λ (s : Subscriber). s.id ≢ sub.id) before)
      (callbacks : All (λ (s : Subscriber). s.callback ≢ sub.callback) before)
      (callbacks' : All (λ (s : Subscriber). s.callback ≢ sub.callback) after) where
    -- The topic, once `sub` is gone.
    left_over :
        (t : ℕ)
        → get_elem? node.subscribers t ≡ some it
        → get_elem? (unsubscribe node sub.id).1.subscribers t
          ≡ some (record it { subscribers = before ++ after })
    unfolding unsubscribe
    left_over t e =
        get_elem?-remove_subscriber node.subscribers sub.id t it e
        ∙ ap (λ s. some (record it { subscribers = s }))
            (ap (λ s. (erase_id sub.id s).0) subs ∙ erase_id-append before sub after ids)

    -- A message on a topic with a subscriber that is unsubscribed while the node for several
    -- threads calls its delegate, by the delegate itself or by another thread, where the topic has
    -- at most `ESF_MAX_SUBSCRIBERS` subscribers, the other calls change nothing, none changes the
    -- data, and the subscriber's identifier and delegate are not those of the subscribers before
    -- it, nor its delegate that of those behind it: the next subscriber is passed over and does
    -- not get the message, while all others do, each with the lock released around the call if
    -- thread safety is enabled; and if there is no next one, the loop runs off the end of the
    -- list.
    pub deliver-visited : deliver react node topic payload ≡ visited before sub after node payload
    unfolding deliver
    deliver-visited =
        let (t, p, q) = topic_index-find_topic 0 topic node.subscribers it found in
        let n = length before in
        let size : length it.subscribers ≡ n + suc (length after) =
          ap length subs ∙ length-append before (sub ∷ after) in
        let f : ℕ = max_subscribers - n in
        let chosen : deliver react node topic payload
            ≡ visit react (suc max_subscribers) node t 0 payload =
          ground (arith, p) in
        chosen
        ∙ visit-led react before [] (sub ∷ after) (suc f) (suc max_subscribers) 0 n node t payload
            it q subs refl (omega arith) (omega (arith, size))
            (others node payload before callbacks)
        ∙ ap (led node.thread_safety_enabled before payload)
            (visit_leaving f node t n payload it q (at_place before sub after n it subs refl))
        ∙ visit-visited before after f node (unsubscribe node sub.id).1 t (n + 1) payload
            (record it { subscribers = before ++ after }) refl (unfold unsubscribe in refl)
            (left_over t q) refl refl (omega (arith, size)) callbacks'
