-- ===== src/NoRtos/Loop.antt =====
-- `GiveRxData` of src/EmbeddedSerialFiller_NoRTOS.cpp as the packet loop that both profiles share.
use embedded_serial_filler.Base.{
  ℕ, zero, suc, ◌≡◌, ◌≢◌, refl, sym, ◌∙◌, ap, inl, inr, List, [], ◌∷◌, length, ◌==◌, if◌then◌else◌,
  Bool-cases, Option, none, some, Result, ok, ok_inj, fault, ◌>>=◌, >>=-ok, >>=-through, arith,
}
use embedded_serial_filler.Definitions.{Config, StatusCode, success}
use embedded_serial_filler.Etl.{Etl}
use embedded_serial_filler.Utilities.Receive.{Received, move_rx_data_in_buffer}
use embedded_serial_filler.Outgoing.{Event}
use embedded_serial_filler.Incoming.{
  Parsed, refused, message, acknowledged, is_success, parse_packet,
}
use embedded_serial_filler.Incoming.Total.{IsProper}
use embedded_serial_filler.Incoming.Loop
use embedded_serial_filler.Incoming.Loop.{Receiver, Outcome, behind, loop, receive}
use embedded_serial_filler.NoRtos.{
  Node, Given, before, acknowledge, handle, next_packet, give_loop, give_rx_data,
}
use embedded_serial_filler.NoRtos.Rounds.{handle-IsHandled, rest_of_round, give_loop_round}

module _ (etl : Etl) (config : Config) (effect : ℕ → List ℕ → List ℕ) where
  pub handle-buffer :
      (node : Node) (parsed : Parsed) (stop : Option StatusCode) (node' : Node)
      (events : List Event)
      → handle etl config effect node parsed ≡ ok (stop, node', events)
      → node'.rx_buffer ≡ node.rx_buffer
  unfolding handle
  handle-buffer node (refused s) stop node' events e = ground (arith, e)
  handle-buffer node (message wants_ack packet_id topic payload) stop node' events e =
      let (acks, p, k) = >>=-ok (acknowledge etl config effect wants_ack node packet_id) _ _ e in
      ground (arith, k)
  handle-buffer node (acknowledged packet_id) stop node' events e =
      elim (Bool-cases (node.ack_event.packet_id == packet_id)) [
        | inl y ↦ ground (arith, y, e)
        | inr n ↦ ground (arith, n, e)
      ]

  pub handle-stop :
      (node : Node) (parsed : Parsed) (s : StatusCode) (node' : Node) (events : List Event)
      → IsProper parsed
      → handle etl config effect node parsed ≡ ok (some s, node', events)
      → s ≢ success
  handle-stop node parsed s node' events proper e k =
      let h = handle-IsHandled etl config effect node parsed proper in
      h.error (ap (λ t. t.0) (ok_inj (sym h.value ∙ e)) ∙ ap some k)

  abbrev pub receiver : Receiver
  receiver = record {
    Node = Node;
    Action = Event;
    buffer = λ node. node.rx_buffer;
    with_buffer = λ node b. record node { rx_buffer = b };
    handle = handle etl config effect;
    buffer-with_buffer = λ node b. refl;
    with_buffer-buffer = λ node. refl;
    with_buffer-with_buffer = λ node a b. refl;
    handle-buffer = handle-buffer;
    handle-stop = handle-stop;
  }

  abbrev pub given : Outcome receiver → Given
  given g = record { status = g.status; node = g.node; rx_data = g.rx_data; events = g.actions }

  abbrev pub as_given : Result (Outcome receiver) → Result Given
  as_given r = r >>= λ g. ok (given g)

  as_given-before :
      (a : List Event) (r : Result (Outcome receiver))
      → (as_given r >>= λ g. ok (before a g)) ≡ as_given (Loop.before etl config receiver a r)
  as_given-before a (ok g) = refl
  as_given-before a (fault e) = refl

  next_packet-next_packet :
      (node : Node) (rx_data : List ℕ)
      → next_packet etl config effect node rx_data
        ≡ Loop.next_packet etl config receiver node rx_data
  unfolding next_packet Loop.next_packet
  next_packet-next_packet node [] = refl
  next_packet-next_packet node (x ∷ rest) = refl

  behind_lem :
      (node : Node) (a : List Event) (r : Received) (further : Result Given)
      (go : Node → List ℕ → List ℕ → Result (Outcome receiver))
      → further
        ≡ as_given (go (record node { rx_buffer = r.rx_data_buffer }) r.new_rx_data r.packet)
      → (if is_success r.status
          then (further >>= λ g. ok (before a g))
          else ok (record {
            status = r.status;
            node = record node { rx_buffer = r.rx_data_buffer };
            rx_data = r.new_rx_data;
            events = a;
          }))
        ≡ as_given (behind etl config receiver go node a r)
  unfolding behind
  behind_lem node a r further go h = elim (Bool-cases (is_success r.status)) [
    | inl y ↦
        rw (y, h)
          (as_given-before a
            (go (record node { rx_buffer = r.rx_data_buffer }) r.new_rx_data r.packet))
    | inr n ↦ rw n refl
  ]

  module _ (f : ℕ) (rx_data : List ℕ)
      (ih : (node : Node) (rx packet : List ℕ)
        → give_loop etl config effect f node rx packet
          ≡ as_given (loop etl config receiver f node rx packet)) where
    rest_of_round_lem :
        (stop : Option StatusCode) (node : Node) (a : List Event)
        → rest_of_round etl config effect f rx_data (stop, node, a)
          ≡ as_given (
              Loop.rest_of_round etl config receiver
                (loop etl config receiver f)
                rx_data
                (stop, node, a))
    unfolding rest_of_round Loop.rest_of_round
    rest_of_round_lem (some s) node a = refl
    rest_of_round_lem none node a = rw (next_packet-next_packet node rx_data) (
        >>=-through (Loop.next_packet etl config receiver node rx_data) _ _ _ (λ r.
          behind_lem node a r _ (loop etl config receiver f)
            (ih (record node { rx_buffer = r.rx_data_buffer }) r.new_rx_data r.packet)))

  give_loop-loop :
      (f : ℕ) (node : Node) (rx_data packet : List ℕ)
      → give_loop etl config effect f node rx_data packet
        ≡ as_given (loop etl config receiver f node rx_data packet)
  unfolding loop
  give_loop-loop f node rx_data [] = unfold give_loop in refl
  give_loop-loop zero node rx_data (x ∷ packet) = unfold give_loop in refl
  give_loop-loop (suc f) node rx_data (x ∷ packet) =
      give_loop_round etl config effect f node rx_data x packet
      ∙ >>=-through (parse_packet etl config (x ∷ packet)) _ _ _ (λ parsed.
        >>=-through (handle etl config effect node parsed) _ _ _ (λ (stop, node', a).
          rest_of_round_lem f rx_data (λ next rx more. give_loop-loop f next rx more) stop node' a))

  as_given-nothing :
      (r : Result (Outcome receiver)) → as_given r ≡ as_given (Loop.before etl config receiver [] r)
  as_given-nothing (ok g) = refl
  as_given-nothing (fault e) = refl

  first_packet_lem :
      (f : ℕ) (node : Node) (r : Received)
      → (if is_success r.status
          then give_loop etl config effect f
              (record node { rx_buffer = r.rx_data_buffer })
              r.new_rx_data
              r.packet
          else ok (record {
            status = r.status;
            node = record node { rx_buffer = r.rx_data_buffer };
            rx_data = r.new_rx_data;
            events = [];
          }))
        ≡ as_given (behind etl config receiver (loop etl config receiver f) node [] r)
  unfolding behind
  first_packet_lem f node r = elim (Bool-cases (is_success r.status)) [
    | inl y ↦ rw y (
        give_loop-loop f (record node { rx_buffer = r.rx_data_buffer }) r.new_rx_data r.packet
        ∙ as_given-nothing (
            loop etl config receiver f (record node { rx_buffer = r.rx_data_buffer }) r.new_rx_data
              r.packet))
    | inr n ↦ rw n refl
  ]

  -- The whole call.
  pub give_rx_data-receive :
      (node : Node) (rx_data : List ℕ)
      → give_rx_data etl config effect node rx_data
        ≡ as_given (receive etl config receiver node rx_data)
  unfolding give_rx_data receive
  give_rx_data-receive node rx_data =
      >>=-through (move_rx_data_in_buffer etl config rx_data node.rx_buffer) _ _ _
        (λ r. first_packet_lem (suc (length rx_data)) node r)
