-- ===== src/NoRtos/Topics.antt =====
-- `GiveRxData` of src/EmbeddedSerialFiller_NoRTOS.cpp sees of the member `subscribers_` only the map from
-- topics to subscribers.
use embedded_serial_filler.Base.{
  ℕ, ◌≡◌, refl, sym, ◌∙◌, ap, inl, inr, List, [], ◌∷◌, ◌++◌, ◌==◌, if◌then◌else◌, Bool, true, false,
  same_bytes, same_bytes→eq, Bool-cases, Option, Option-cases, none, some, Result, ok, fault, ◌>>=◌,
  >>=-ok, arith,
}
use mathlib.Core.Option.{map}
use embedded_serial_filler.Definitions.{Config, StatusCode}
use embedded_serial_filler.Etl.{Etl}
use embedded_serial_filler.Outgoing.{Event, no_subscribers_for_topic}
use embedded_serial_filler.Incoming.{Parsed, refused, message, acknowledged}
use embedded_serial_filler.Incoming.Loop.{Outcome, receive}
use embedded_serial_filler.Incoming.Loop.Mapped.{Change, receive-change}
use embedded_serial_filler.Registry.{Subscriber, SubscriberType, SubscriberList, find_topic}
use embedded_serial_filler.NoRtos.{
  Node, Given, acknowledge, call_each, deliver, handle, give_rx_data,
}
use embedded_serial_filler.NoRtos.Loop.{receiver, as_given, give_rx_data-receive}

-- The subscribers of the topic, if it has an entry.
abbrev pub entry : List ℕ → SubscriberList → Option (List Subscriber)
entry topic subscribers =
    map (λ (it : SubscriberType). it.subscribers) (find_topic topic subscribers)

-- The same map, however the entries are arranged.
abbrev pub IsSameMap : SubscriberList → SubscriberList → Type 0
IsSameMap a b = (topic : List ℕ) → entry topic a ≡ entry topic b

-- Two neighbours with different topics may change places.
pub swap-IsSameMap :
    (x y : SubscriberType) (rest : SubscriberList)
    → same_bytes x.topic y.topic ≡ false
    → IsSameMap (x ∷ (y ∷ rest)) (y ∷ (x ∷ rest))
unfolding find_topic
swap-IsSameMap x y rest differ topic = elim (Bool-cases (same_bytes x.topic topic)) [
  | inl e ↦ elim (Bool-cases (same_bytes y.topic topic)) [
    | inl k ↦
        (let same : same_bytes x.topic y.topic ≡ true =
            ap (same_bytes x.topic) (same_bytes→eq y.topic topic k) ∙ e in
          absurd (ground (arith, same, differ)))
    | inr k ↦ rw (e, k) refl
  ]
  | inr e ↦ elim (Bool-cases (same_bytes y.topic topic)) [
    | inl k ↦ rw (e, k) refl
    | inr k ↦ rw (e, k) refl
  ]
]

abbrev pub with_subscribers : SubscriberList → Node → Node
with_subscribers b node = record node { subscribers = b }

module _ (etl : Etl) (config : Config) (effect : ℕ → List ℕ → List ℕ) where
  -- What a message sets off, by the entry of its topic.
  abbrev set_off : Bool → List ℕ → List ℕ → Option (List Subscriber) → List Event
  set_off no_subscribers_set topic payload none =
      if no_subscribers_set then no_subscribers_for_topic topic payload ∷ [] else []
  set_off no_subscribers_set topic payload (some subscribers) =
      call_each etl config effect subscribers payload

  deliver-set_off :
      (node : Node) (topic payload : List ℕ)
      → deliver etl config effect node topic payload
        ≡ set_off node.no_subscribers_set topic payload (entry topic node.subscribers)
  unfolding deliver
  deliver-set_off node topic payload = elim (Option-cases (find_topic topic node.subscribers)) [
    | inl p ↦ rw (deliver, p) refl
    | inr (it, p) ↦ rw (deliver, p) refl
  ]

  module _ (a b : SubscriberList) (same : IsSameMap a b) where
    deliver-with_subscribers :
        (node : Node) (topic payload : List ℕ)
        → node.subscribers ≡ a
        → deliver etl config effect (with_subscribers b node) topic payload
          ≡ deliver etl config effect node topic payload
    deliver-with_subscribers node topic payload e =
        deliver-set_off (with_subscribers b node) topic payload
        ∙ ap (set_off node.no_subscribers_set topic payload)
            (sym (same topic) ∙ ap (entry topic) (sym e))
        ∙ sym (deliver-set_off node topic payload)

    handle-with_subscribers :
        (node : Node) (parsed : Parsed)
        → node.subscribers ≡ a
        → handle etl config effect (with_subscribers b node) parsed ≡ (
            handle etl config effect node parsed >>= λ (stop, node', events).
            ok (stop, with_subscribers b node', events))
    unfolding handle acknowledge
    handle-with_subscribers node (refused s) e = refl
    handle-with_subscribers node (message wants_ack packet_id topic payload) e =
        rw (deliver-with_subscribers node topic payload e)
          (acked (acknowledge etl config effect wants_ack node packet_id))
      where
        acked :
            (r : Result (List Event))
            → ◌≡◌ {A = Result (Option StatusCode × Node × List Event)}
                (r >>= λ acks. ok (
                  none,
                  with_subscribers b node,
                  acks ++ deliver etl config effect node topic payload,
                ))
                ((r >>= λ acks.
                    ok (none, node, acks ++ deliver etl config effect node topic payload))
                  >>= λ (stop, node', events). ok (stop, with_subscribers b node', events))
        acked (ok acks) = refl
        acked (fault f) = refl
    handle-with_subscribers node (acknowledged packet_id) e =
        elim (Bool-cases (node.ack_event.packet_id == packet_id)) [
          | inl y ↦ rw y refl
          | inr n ↦ rw n refl
        ]

    handle-subscribers :
        (node : Node) (parsed : Parsed) (stop : Option StatusCode) (node' : Node)
        (events : List Event)
        → handle etl config effect node parsed ≡ ok (stop, node', events)
        → node.subscribers ≡ a
        → node'.subscribers ≡ a
    unfolding handle
    handle-subscribers node (refused s) stop node' events e h = ground (arith, e, h)
    handle-subscribers node (message wants_ack packet_id topic payload) stop node' events e h =
        let (acks, p, k) = >>=-ok (acknowledge etl config effect wants_ack node packet_id) _ _ e in
        ground (arith, k, h)
    handle-subscribers node (acknowledged packet_id) stop node' events e h =
        elim (Bool-cases (node.ack_event.packet_id == packet_id)) [
          | inl y ↦ ground (arith, y, e, h)
          | inr n ↦ ground (arith, n, e, h)
        ]

    rearranged : Change (receiver etl config effect) (λ node. node.subscribers ≡ a)
    rearranged = record {
      change = with_subscribers b;
      change-buffer = λ node. refl;
      change-with_buffer = λ node rx. refl;
      with_buffer-In = λ node rx h. h;
      handle-In = handle-subscribers;
      change-handle = handle-with_subscribers;
    }

  -- `GiveRxData` depends on the member `subscribers_` only as a map: on any bytes and from any
  -- node, it comes to the same status, acknowledgements, callbacks, buffer and left-over data, or
  -- the same fault, if `subscribers_` is exchanged for any list that has an entry for the same
  -- topics with the same subscribers in the same order, however the entries are arranged, and it
  -- leaves the list as it was.
  pub give_rx_data-with_subscribers :
      (node : Node) (b : SubscriberList) (rx_data : List ℕ)
      → IsSameMap node.subscribers b
      → give_rx_data etl config effect (with_subscribers b node) rx_data ≡ (
          give_rx_data etl config effect node rx_data >>= λ g.
          ok (record g { node = with_subscribers b g.node }))
  unfolding rearranged
  give_rx_data-with_subscribers node b rx_data same =
      give_rx_data-receive etl config effect (with_subscribers b node) rx_data
      ∙ ap (as_given etl config effect) (
          receive-change etl config (receiver etl config effect) _
            (rearranged node.subscribers b same) node rx_data refl)
      ∙ moved (receive etl config (receiver etl config effect) node rx_data)
      ∙ ap
          (λ (r : Result Given).
            ◌>>=◌ {B = Given} r (λ g. ok (record g { node = with_subscribers b g.node })))
          (sym (give_rx_data-receive etl config effect node rx_data))
    where
      moved :
          (r : Result (Outcome (receiver etl config effect)))
          → as_given etl config effect
              (r >>= λ g. ok (record g { node = with_subscribers b g.node }))
            ≡ (as_given etl config effect r >>= λ g.
                ok (record g { node = with_subscribers b g.node }))
      moved (ok g) = refl
      moved (fault e) = refl
