-- ===== src/Rtos/Reentrant/Rounds.antt =====
-- The rounds of the loop of src/EmbeddedSerialFiller_RTOS.cpp that calls a topic's subscribers.
use embedded_serial_filler.Base.{
  ℕ, zero, suc, ◌+◌, ◌≤◌, ◌≡◌, refl, sym, ◌∙◌, ap, ap₂, All, List, [], ◌∷◌, ◌++◌, append_assoc,
  length, length-append, get_elem?, get_elem?-append, get_elem?-none, ◌==◌, if◌then◌else◌, Bool,
  some, Result, ok, fault, out_of_bounds, ◌>>=◌, arith,
}
use embedded_serial_filler.Outgoing.{Event, callback}
use embedded_serial_filler.Registry.{Subscriber, SubscriberType}
use embedded_serial_filler.Rtos.{Action, Node}
use embedded_serial_filler.Rtos.Reentrant.{called, visit}

-- The calls of the subscribers' delegates, each with the same data and the same
-- `threadSafetyEnabled_`.
abbrev pub calls : Bool → List Subscriber → List ℕ → List Action
calls enabled [] payload = []
calls enabled (sub ∷ subs) payload =
    called enabled enabled (callback sub.callback payload) ++ calls enabled subs payload

pub calls-append :
    (enabled : Bool) (a b : List Subscriber) (payload : List ℕ)
    → calls enabled (a ++ b) payload ≡ calls enabled a payload ++ calls enabled b payload
calls-append enabled [] b payload = refl
calls-append enabled (s ∷ a) b payload =
    ap (◌++◌ (called enabled enabled (callback s.callback payload)))
      (calls-append enabled a b payload)
    ∙ sym (
        append_assoc (called enabled enabled (callback s.callback payload))
          (calls enabled a payload) (calls enabled b payload))

-- Calls before a result.
abbrev pub led :
    Bool → List Subscriber → List ℕ → Result (Node × List Action) → Result (Node × List Action)
led enabled subs payload r =
    r >>= λ (node, actions). ok (node, calls enabled subs payload ++ actions)

pub led_nil :
    (enabled : Bool) (payload : List ℕ) (r : Result (Node × List Action))
    → led enabled [] payload r ≡ r
led_nil enabled payload (ok r) = refl
led_nil enabled payload (fault f) = refl

led_cons :
    (enabled : Bool) (sub : Subscriber) (subs : List Subscriber) (payload : List ℕ)
    (r : Result (Node × List Action))
    → (led enabled subs payload r >>= λ (node, actions).
        ok (node, called enabled enabled (callback sub.callback payload) ++ actions))
      ≡ led enabled (sub ∷ subs) payload r
led_cons enabled sub subs payload (ok (node, actions)) =
    ap (λ l. ok (node, l))
      (sym (
        append_assoc (called enabled enabled (callback sub.callback payload))
          (calls enabled subs payload) actions))
led_cons enabled sub subs payload (fault f) = refl

pub at_place :
    (done : List Subscriber) (s : Subscriber) (rest : List Subscriber) (i : ℕ) (it : SubscriberType)
    → it.subscribers ≡ done ++ s ∷ rest
    → i ≡ length done
    → get_elem? it.subscribers i ≡ some s
at_place done s rest i it k a = ap₂ (λ l n. get_elem? l n) k a ∙ get_elem?-append done s rest

module _ (react : Event → Node → List ℕ → Node × List ℕ) where
  -- A round.
  pub visit_step :
      (f : ℕ) (node : Node) (t i : ℕ) (payload : List ℕ) (it : SubscriberType) (sub : Subscriber)
      → get_elem? node.subscribers t ≡ some it
      → get_elem? it.subscribers i ≡ some sub
      → visit react (suc f) node t i payload ≡ (
          let (node', payload') = react (callback sub.callback payload) node payload in
          visit react f node' t (i + 1) payload' >>= λ (node'', actions). ok (
            node'',
            called node.thread_safety_enabled node'.thread_safety_enabled
                  (callback sub.callback payload)
                ++ actions,
          ))
  unfolding visit
  visit_step f node t i payload it sub e k = ground (arith, e, k)

  -- The end of the list, and behind it.
  pub visit_end :
      (f : ℕ) (node : Node) (t i : ℕ) (payload : List ℕ) (it : SubscriberType)
      → get_elem? node.subscribers t ≡ some it
      → length it.subscribers ≤ i
      → visit react (suc f) node t i payload
        ≡ (if i == length it.subscribers then ok (node, []) else fault out_of_bounds)
  unfolding visit
  visit_end f node t i payload it e h = ground (arith, e, get_elem?-none it.subscribers i h)

  -- A round whose call leaves the node as it is.
  still_round :
      (f : ℕ) (node : Node) (t i : ℕ) (payload : List ℕ) (it : SubscriberType) (sub : Subscriber)
      → get_elem? node.subscribers t ≡ some it
      → get_elem? it.subscribers i ≡ some sub
      → react (callback sub.callback payload) node payload ≡ (node, payload)
      → visit react (suc f) node t i payload ≡ (
          visit react f node t (i + 1) payload >>= λ (node'', actions). ok (
            node'',
            called node.thread_safety_enabled node.thread_safety_enabled
                  (callback sub.callback payload)
                ++ actions,
          ))
  still_round f node t i payload it sub e k h = visit_step f node t i payload it sub e k ∙ rw h refl

  -- Rounds whose calls leave the node as it is.
  pub visit-led :
      (todo done rest : List Subscriber) (f g i j : ℕ) (node : Node) (t : ℕ) (payload : List ℕ)
      (it : SubscriberType)
      → get_elem? node.subscribers t ≡ some it
      → it.subscribers ≡ done ++ (todo ++ rest)
      → i ≡ length done
      → j ≡ i + length todo
      → g ≡ length todo + f
      → All
          (λ (s : Subscriber). react (callback s.callback payload) node payload ≡ (node, payload))
          todo
      → visit react g node t i payload
        ≡ led node.thread_safety_enabled todo payload (visit react f node t j payload)
  visit-led [] done rest f g i j node t payload it e k a b c h =
      let same_f : g ≡ f = omega (arith, c) in
      let same_j : i ≡ j = omega (arith, b) in
      rw (same_f, same_j)
        (sym (led_nil node.thread_safety_enabled payload (visit react f node t j payload)))
  visit-led (s ∷ todo) done rest f zero i j node t payload it e k a b c h =
      absurd (omega (arith, c))
  visit-led (s ∷ todo) done rest f (suc g) i j node t payload it e k a b c h =
      still_round g node t i payload it s e (at_place done s (todo ++ rest) i it k a) h.0
      ∙ rw
          (visit-led todo (done ++ s ∷ []) rest f g (i + 1) j node t payload it e
            (k ∙ sym (append_assoc done (s ∷ []) (todo ++ rest)))
            (omega (arith, a, length-append done (s ∷ []))) (omega (arith, b)) (omega (arith, c))
            h.1)
          (led_cons node.thread_safety_enabled s todo payload (visit react f node t j payload))
