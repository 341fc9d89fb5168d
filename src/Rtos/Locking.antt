-- ===== src/Rtos/Locking.antt =====
-- The lock of src/EmbeddedSerialFiller_RTOS.cpp.
use embedded_serial_filler.Base.{
  ℕ, zero, suc, ◌≡◌, refl, ◌∙◌, ◌⊎◌, inl, inr, List, [], ◌∷◌, ◌++◌, length, if◌then◌else◌, Bool,
  true, false, Bool-cases, Option, none, some, Result, ok, fault, ◌>>=◌, Result-cases, arith,
}
use embedded_serial_filler.Definitions.{Config, StatusCode, unexpected_ack}
use embedded_serial_filler.Etl.{Etl}
use embedded_serial_filler.Utilities.Receive.{Received, move_rx_data_in_buffer}
use embedded_serial_filler.Outgoing.{Event, tx_data_ready, callback, no_subscribers_for_topic}
use embedded_serial_filler.Outgoing.Contents.{sent, ack_contents, publish_internal-ack}
use embedded_serial_filler.Incoming.{
  Parsed, refused, message, acknowledged, is_success, parse_packet,
}
use embedded_serial_filler.Registry.{Subscriber, SubscriberType, find_topic}
use embedded_serial_filler.Rtos.{
  Action, emit, notify, take_lock, release_lock, Node, Given, before, locked, unlocked,
  find_pending, call_each, deliver, acknowledge, handle, next_packet, give_loop, give_body,
  give_rx_data,
}

-- Follow the lock through a call: it is taken only where it is free and released only where it is
-- held; bytes are handed over and events notified with the lock, and the callbacks called without.
unfoldable pub run_lock : Bool → List Action → Option Bool
run_lock held [] = some held
run_lock true (take_lock ∷ actions) = none
run_lock false (take_lock ∷ actions) = run_lock true actions
run_lock true (release_lock ∷ actions) = run_lock false actions
run_lock false (release_lock ∷ actions) = none
run_lock true (notify i ∷ actions) = run_lock true actions
run_lock false (notify i ∷ actions) = none
run_lock true (emit (tx_data_ready bytes) ∷ actions) = run_lock true actions
run_lock false (emit (tx_data_ready bytes) ∷ actions) = none
run_lock true (emit (callback delegate payload) ∷ actions) = none
run_lock false (emit (callback delegate payload) ∷ actions) = run_lock false actions
run_lock true (emit (no_subscribers_for_topic topic payload) ∷ actions) = none
run_lock false (emit (no_subscribers_for_topic topic payload) ∷ actions) = run_lock false actions

run_lock-append :
    (held : Bool) (a b : List Action) (held' : Bool)
    → run_lock held a ≡ some held'
    → run_lock held (a ++ b) ≡ run_lock held' b
unfolding run_lock
run_lock-append held [] b held' h = ground arith
run_lock-append true (take_lock ∷ a) b held' h = ground arith
run_lock-append false (take_lock ∷ a) b held' h = run_lock-append true a b held' h
run_lock-append true (release_lock ∷ a) b held' h = run_lock-append false a b held' h
run_lock-append false (release_lock ∷ a) b held' h = ground arith
run_lock-append true (notify i ∷ a) b held' h = run_lock-append true a b held' h
run_lock-append false (notify i ∷ a) b held' h = ground arith
run_lock-append true (emit (tx_data_ready bytes) ∷ a) b held' h = run_lock-append true a b held' h
run_lock-append false (emit (tx_data_ready bytes) ∷ a) b held' h = ground arith
run_lock-append true (emit (callback delegate payload) ∷ a) b held' h = ground arith
run_lock-append false (emit (callback delegate payload) ∷ a) b held' h =
    run_lock-append false a b held' h
run_lock-append true (emit (no_subscribers_for_topic topic payload) ∷ a) b held' h = ground arith
run_lock-append false (emit (no_subscribers_for_topic topic payload) ∷ a) b held' h =
    run_lock-append false a b held' h

-- The lock is held before and after.
abbrev IsKept : List Action → Type 0
IsKept actions = run_lock true actions ≡ some true

IsKept-append : (a b : List Action) → IsKept a → IsKept b → IsKept (a ++ b)
IsKept-append a b h k = run_lock-append true a b true h ∙ k

abbrev Keeps : Result Given → Type 0
Keeps (ok g) = IsKept g.actions
Keeps (fault f) = Unit

module _ (etl : Etl) (config : Config) (effect : ℕ → List ℕ → List ℕ) where
  module _ (node : Node) (safe : node.thread_safety_enabled ≡ true) where
    call_each-IsKept :
        (subs : List Subscriber) (payload : List ℕ)
        → IsKept (call_each etl config effect node subs payload)
    unfolding call_each run_lock
    call_each-IsKept [] payload = refl
    call_each-IsKept (sub ∷ subs) payload =
        rw safe (call_each-IsKept subs (effect sub.callback payload))

    unlocked-IsKept :
        (event : Event)
        → run_lock false (emit event ∷ []) ≡ some false
        → IsKept (unlocked node event)
    unfolding run_lock
    unlocked-IsKept (tx_data_ready bytes) h = absurd (ground arith)
    unlocked-IsKept (callback delegate payload) h = rw safe refl
    unlocked-IsKept (no_subscribers_for_topic topic payload) h = rw safe refl

    none-IsKept :
        (topic payload : List ℕ)
        → IsKept (
            if node.no_subscribers_set
            then unlocked node (no_subscribers_for_topic topic payload)
            else [])
    none-IsKept topic payload = elim (Bool-cases node.no_subscribers_set) [
      | inl set ↦
          rw set (unfold run_lock in unlocked-IsKept (no_subscribers_for_topic topic payload) refl)
      | inr unset ↦ rw unset (unfold run_lock in refl)
    ]

    deliver-IsKept :
        (topic payload : List ℕ) → IsKept (deliver etl config effect node topic payload)
    unfolding deliver
    deliver-IsKept topic payload = go (find_topic topic node.subscribers)
      where
        go :
            (found : Option SubscriberType)
            → IsKept (elim found [
              | none ↦
                  if node.no_subscribers_set
                  then unlocked node (no_subscribers_for_topic topic payload)
                  else []
              | some it ↦ call_each etl config effect node it.subscribers payload
            ])
        go (some it) = call_each-IsKept it.subscribers payload
        go none = none-IsKept topic payload

    acks_of : Bool → Bool → ℕ → List Action
    acks_of wants_ack set packet_id =
        if wants_ack
        then (if set then emit (tx_data_ready (sent etl (ack_contents packet_id))) ∷ [] else [])
        else []

    acknowledge_lem :
        (wants_ack : Bool) (packet_id : ℕ)
        → acknowledge etl config effect wants_ack node packet_id
          ≡ ok (acks_of wants_ack node.tx_data_ready_set packet_id)
    unfolding acknowledge acks_of
    acknowledge_lem wants_ack packet_id =
        ground (arith, publish_internal-ack etl config node.tx_data_ready_set packet_id)

    acks-IsKept : (wants_ack set : Bool) (packet_id : ℕ) → IsKept (acks_of wants_ack set packet_id)
    unfolding acks_of run_lock
    acks-IsKept false set packet_id = refl
    acks-IsKept true true packet_id = refl
    acks-IsKept true false packet_id = refl

    KeepsActions : Result (Option StatusCode × List Action) → Type 0
    KeepsActions (ok r) = IsKept r.1
    KeepsActions (fault f) = Unit

    handle-KeepsActions : (parsed : Parsed) → KeepsActions (handle etl config effect node parsed)
    unfolding handle KeepsActions run_lock
    handle-KeepsActions (refused s) = refl
    handle-KeepsActions (message wants_ack packet_id topic payload) =
        rw (acknowledge_lem wants_ack packet_id) (
          IsKept-append (acks_of wants_ack node.tx_data_ready_set packet_id)
            (deliver etl config effect node topic payload)
            (acks-IsKept wants_ack node.tx_data_ready_set packet_id) (deliver-IsKept topic payload))
    handle-KeepsActions (acknowledged packet_id) =
        go (find_pending packet_id node.events node.ack_events)
      where
        go :
            (found : Option ℕ)
            → KeepsActions (elim found [
              | none ↦ ok (some unexpected_ack, [])
              | some it ↦ ok (none, notify it ∷ [])
            ])
        go none = refl
        go (some it) = refl

  before-Keeps :
      (actions : List Action) (further : Result Given)
      → IsKept actions
      → Keeps further
      → Keeps (further >>= λ g. ok (before actions g))
  before-Keeps actions (ok g) h k = IsKept-append actions g.actions h k
  before-Keeps actions (fault f) h k = tt

  -- The rest of a round, behind the packet.
  rest_of_round :
      (f : ℕ) (node : Node) (rx_data : List ℕ) (stop : Option StatusCode) (actions : List Action)
      → Result Given
  rest_of_round f node rx_data stop actions = elim stop [
    | some s ↦ ok (record { status = s; node = node; rx_data = rx_data; actions = actions })
    | none ↦ next_packet etl config effect node rx_data >>= λ r.
        let node' = record node { rx_buffer = r.rx_data_buffer } in
        let further = give_loop etl config effect f node' r.new_rx_data r.packet in
        if is_success r.status
        then (further >>= λ g. ok (before actions g))
        else ok
            (record { status = r.status; node = node'; rx_data = r.new_rx_data; actions = actions })
  ]

  behind_packet :
      (f : ℕ) (node : Node) (actions : List Action) (r : Received)
      → IsKept actions
      → Keeps (
          give_loop etl config effect f
            (record node { rx_buffer = r.rx_data_buffer })
            r.new_rx_data
            r.packet)
      → Keeps (
          if is_success r.status
          then (give_loop etl config effect f
                (record node { rx_buffer = r.rx_data_buffer })
                r.new_rx_data
                r.packet
              >>= λ g. ok (before actions g))
          else ok (record {
            status = r.status;
            node = record node { rx_buffer = r.rx_data_buffer };
            rx_data = r.new_rx_data;
            actions = actions;
          }))
  behind_packet f node actions r h k = elim (Bool-cases (is_success r.status)) [
    | inl e ↦ rw e (before-Keeps actions _ h k)
    | inr e ↦ rw e h
  ]

  module _ (f : ℕ) (node : Node) (rx_data : List ℕ) (safe : node.thread_safety_enabled ≡ true)
      (loop : (r : Received)
        → Keeps (
            give_loop etl config effect f
              (record node { rx_buffer = r.rx_data_buffer })
              r.new_rx_data
              r.packet)) where
    continued :
        (stop : Option StatusCode) (actions : List Action)
        → IsKept actions
        → Keeps (rest_of_round f node rx_data stop actions)
    unfolding rest_of_round
    continued (some s) actions h = h
    continued none actions h = elim (Result-cases (next_packet etl config effect node rx_data)) [
      | inr (fa, p) ↦ rw p tt
      | inl (r, p) ↦ rw p (behind_packet f node actions r h (loop r))
    ]

    handled :
        (parsed : Parsed)
        → Keeps (handle etl config effect node parsed >>= λ r. rest_of_round f node rx_data r.0 r.1)
    unfolding KeepsActions
    handled parsed = elim (Result-cases (handle etl config effect node parsed)) [
      | inr (fa, p) ↦ rw p tt
      | inl ((stop, actions), p) ↦
          rw p (continued stop actions (rw p at (handle-KeepsActions node safe parsed)))
    ]

  give_loop-Keeps :
      (f : ℕ) (node : Node) (rx_data packet : List ℕ)
      → node.thread_safety_enabled ≡ true
      → Keeps (give_loop etl config effect f node rx_data packet)
  unfolding give_loop run_lock rest_of_round
  give_loop-Keeps f node rx_data [] safe = refl
  give_loop-Keeps zero node rx_data (x ∷ packet) safe = tt
  give_loop-Keeps (suc f) node rx_data (x ∷ packet) safe =
      elim (Result-cases (parse_packet etl config (x ∷ packet))) [
        | inr (fa, p) ↦ rw p tt
        | inl (parsed, p) ↦ rw p (
            handled f node rx_data safe
              (λ r.
                give_loop-Keeps f (record node { rx_buffer = r.rx_data_buffer }) r.new_rx_data
                  r.packet safe)
              parsed)
      ]

  give_body-Keeps :
      (node : Node) (rx_data : List ℕ)
      → node.thread_safety_enabled ≡ true
      → Keeps (give_body etl config effect node rx_data)
  unfolding give_body
  give_body-Keeps node rx_data safe =
      elim (Result-cases (move_rx_data_in_buffer etl config rx_data node.rx_buffer)) [
        | inr (fa, p) ↦ rw p tt
        | inl (r, p) ↦ rw p (received r (Bool-cases (is_success r.status)))
      ]
    where
      received :
          (r : Received)
          → (is_success r.status ≡ true) ⊎ (is_success r.status ≡ false)
          → Keeps (
              if is_success r.status
              then give_loop etl config effect
                  (suc (length rx_data))
                  (record node { rx_buffer = r.rx_data_buffer })
                  r.new_rx_data
                  r.packet
              else ok (record {
                status = r.status;
                node = record node { rx_buffer = r.rx_data_buffer };
                rx_data = r.new_rx_data;
                actions = [];
              }))
      received r (inl e) = rw e (
          give_loop-Keeps (suc (length rx_data)) (record node { rx_buffer = r.rx_data_buffer })
            r.new_rx_data r.packet safe)
      received r (inr e) = rw e (unfold run_lock in refl)

  -- With thread safety enabled, a call of `GiveRxData` that returns, on any bytes, has taken the
  -- lock only where it was free and released it only where it was held, has sent acknowledgements
  -- and notified events only with the lock, and called callbacks only without it, and holds no
  -- lock at its end.
  pub give_rx_data_locking :
      (node : Node) (rx_data : List ℕ) (g : Given)
      → node.thread_safety_enabled ≡ true
      → give_rx_data etl config effect node rx_data ≡ ok g
      → run_lock false g.actions ≡ some false
  unfolding give_rx_data
  give_rx_data_locking node rx_data g safe e =
      elim (Result-cases (give_body etl config effect node rx_data)) [
        | inr (fa, p) ↦ absurd (ground (arith, e, p))
        | inl (b, p) ↦
            (let kept : IsKept b.actions = rw p at (give_body-Keeps node rx_data safe) in
              let shape : g.actions ≡ locked node b.actions = ground (arith, e, p) in
              rw (shape, safe) (wrapped b.actions kept))
      ]
    where
      wrapped :
          (actions : List Action)
          → IsKept actions
          → run_lock false (take_lock ∷ (actions ++ release_lock ∷ [])) ≡ some false
      wrapped actions k = unfold run_lock in run_lock-append true actions (release_lock ∷ []) true k
