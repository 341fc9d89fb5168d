-- ===== src/Rtos/Loop.antt =====
-- `GiveRxData` of src/EmbeddedSerialFiller_RTOS.cpp as the packet loop that both profiles share.
use embedded_serial_filler.Base.{
  ℕ, zero, suc, ◌≡◌, ◌≢◌, refl, sym, ◌∙◌, ap, inl, inr, List, [], ◌∷◌, length, if◌then◌else◌,
  Bool-cases, Option, none, some, Result, ok, ok_inj, fault, ◌>>=◌, >>=-ok, Result-cases,
  >>=-through,
}
use embedded_serial_filler.Definitions.{Config, StatusCode, success}
use embedded_serial_filler.Etl.{Etl}
use embedded_serial_filler.Utilities.Receive.{Received, move_rx_data_in_buffer}
use embedded_serial_filler.Incoming.{Parsed, is_success, parse_packet}
use embedded_serial_filler.Incoming.Total.{IsProper}
use embedded_serial_filler.Incoming.Loop
use embedded_serial_filler.Incoming.Loop.{Receiver, Outcome, behind, loop, receive}
use embedded_serial_filler.Rtos.{
  Node, Action, Given, before, handle, next_packet, give_loop, give_body,
}
use embedded_serial_filler.Rtos.Rounds.{rest_of_round, give_loop_round}
use embedded_serial_filler.Rtos.Progress.{handle-ok}

module _ (etl : Etl) (config : Config) (effect : ℕ → List ℕ → List ℕ) where
  -- Handling a packet changes nothing of the node.
  abbrev pub handle_at : Node → Parsed → Result (Option StatusCode × Node × List Action)
  handle_at node parsed =
      handle etl config effect node parsed >>= λ (stop, actions). ok (stop, node, actions)

  pub handle_at-buffer :
      (node : Node) (parsed : Parsed) (stop : Option StatusCode) (node' : Node)
      (actions : List Action)
      → handle_at node parsed ≡ ok (stop, node', actions)
      → node'.rx_buffer ≡ node.rx_buffer
  handle_at-buffer node parsed stop node' actions e =
      let ((stop', actions'), p, k) = >>=-ok (handle etl config effect node parsed) _ _ e in
      ap (λ (t : Option StatusCode × Node × List Action). t.1.rx_buffer) (sym (ok_inj k))

  pub handle_at-stop :
      (node : Node) (parsed : Parsed) (s : StatusCode) (node' : Node) (actions : List Action)
      → IsProper parsed
      → handle_at node parsed ≡ ok (some s, node', actions)
      → s ≢ success
  handle_at-stop node parsed s node' actions proper e k =
      let (stop, actions', value, error) = handle-ok etl config effect node parsed proper in
      let ((stop', actions''), p, k') = >>=-ok (handle etl config effect node parsed) _ _ e in
      error (
        ap (λ t. t.0) (ok_inj (sym value ∙ p))
        ∙ ap (λ (t : Option StatusCode × Node × List Action). t.0) (ok_inj k')
        ∙ ap some k)

  abbrev pub receiver : Receiver
  receiver = record {
    Node = Node;
    Action = Action;
    buffer = λ node. node.rx_buffer;
    with_buffer = λ node b. record node { rx_buffer = b };
    handle = handle_at;
    buffer-with_buffer = λ node b. refl;
    with_buffer-buffer = λ node. refl;
    with_buffer-with_buffer = λ node a b. refl;
    handle-buffer = handle_at-buffer;
    handle-stop = handle_at-stop;
  }

  abbrev pub given : Outcome receiver → Given
  given g = record { status = g.status; node = g.node; rx_data = g.rx_data; actions = g.actions }

  abbrev pub as_given : Result (Outcome receiver) → Result Given
  as_given r = r >>= λ g. ok (given g)

  as_given-before :
      (a : List Action) (r : Result (Outcome receiver))
      → (as_given r >>= λ g. ok (before a g)) ≡ as_given (Loop.before etl config receiver a r)
  as_given-before a (ok g) = refl
  as_given-before a (fault e) = refl

  next_packet-next_packet :
      (node : Node) (rx_data : List ℕ)
      → next_packet etl config effect node rx_data
        ≡ Loop.next_packet etl config receiver node rx_data
  unfolding next_packet Loop.next_packet
  next_packet-next_packet node [] = refl
  next_packet-next_packet node (x ∷ rest) = refl

  behind_lem :
      (node : Node) (a : List Action) (r : Received) (further : Result Given)
      (go : Node → List ℕ → List ℕ → Result (Outcome receiver))
      → further
        ≡ as_given (go (record node { rx_buffer = r.rx_data_buffer }) r.new_rx_data r.packet)
      → (if is_success r.status
          then (further >>= λ g. ok (before a g))
          else ok (record {
            status = r.status;
            node = record node { rx_buffer = r.rx_data_buffer };
            rx_data = r.new_rx_data;
            actions = a;
          }))
        ≡ as_given (behind etl config receiver go node a r)
  unfolding behind
  behind_lem node a r further go h = elim (Bool-cases (is_success r.status)) [
    | inl y ↦
        rw (y, h)
          (as_given-before a
            (go (record node { rx_buffer = r.rx_data_buffer }) r.new_rx_data r.packet))
    | inr n ↦ rw n refl
  ]

  module _ (f : ℕ) (rx_data : List ℕ)
      (ih : (node : Node) (rx packet : List ℕ)
        → give_loop etl config effect f node rx packet
          ≡ as_given (loop etl config receiver f node rx packet)) where
    rest_of_round_lem :
        (stop : Option StatusCode) (node : Node) (a : List Action)
        → rest_of_round etl config effect f node rx_data (stop, a)
          ≡ as_given (
              Loop.rest_of_round etl config receiver
                (loop etl config receiver f)
                rx_data
                (stop, node, a))
    unfolding rest_of_round Loop.rest_of_round
    rest_of_round_lem (some s) node a = refl
    rest_of_round_lem none node a = rw (next_packet-next_packet node rx_data) (
        >>=-through (Loop.next_packet etl config receiver node rx_data) _ _ _ (λ r.
          behind_lem node a r _ (loop etl config receiver f)
            (ih (record node { rx_buffer = r.rx_data_buffer }) r.new_rx_data r.packet)))

  handled_lem :
      (f : ℕ) (node : Node) (rx_data : List ℕ) (parsed : Parsed)
      → ((next : Node) (rx packet : List ℕ)
          → give_loop etl config effect f next rx packet
            ≡ as_given (loop etl config receiver f next rx packet))
      → (handle etl config effect node parsed >>= rest_of_round etl config effect f node rx_data)
        ≡ as_given (
            handle_at node parsed
            >>= Loop.rest_of_round etl config receiver (loop etl config receiver f) rx_data)
  handled_lem f node rx_data parsed ih =
      elim (Result-cases (handle etl config effect node parsed)) [
        | inl ((stop, a), e) ↦ rw e (rest_of_round_lem f rx_data ih stop node a)
        | inr (fail, e) ↦ rw e refl
      ]

  give_loop-loop :
      (f : ℕ) (node : Node) (rx_data packet : List ℕ)
      → give_loop etl config effect f node rx_data packet
        ≡ as_given (loop etl config receiver f node rx_data packet)
  unfolding loop
  give_loop-loop f node rx_data [] = unfold give_loop in refl
  give_loop-loop zero node rx_data (x ∷ packet) = unfold give_loop in refl
  give_loop-loop (suc f) node rx_data (x ∷ packet) =
      give_loop_round etl config effect f node rx_data x packet
      ∙ >>=-through (parse_packet etl config (x ∷ packet)) _ _ _ (λ parsed.
        handled_lem f node rx_data parsed (λ next rx more. give_loop-loop f next rx more))

  as_given-nothing :
      (r : Result (Outcome receiver)) → as_given r ≡ as_given (Loop.before etl config receiver [] r)
  as_given-nothing (ok g) = refl
  as_given-nothing (fault e) = refl

  first_packet_lem :
      (f : ℕ) (node : Node) (r : Received)
      → (if is_success r.status
          then give_loop etl config effect f
              (record node { rx_buffer = r.rx_data_buffer })
              r.new_rx_data
              r.packet
          else ok (record {
            status = r.status;
            node = record node { rx_buffer = r.rx_data_buffer };
            rx_data = r.new_rx_data;
            actions = [];
          }))
        ≡ as_given (behind etl config receiver (loop etl config receiver f) node [] r)
  unfolding behind
  first_packet_lem f node r = elim (Bool-cases (is_success r.status)) [
    | inl y ↦ rw y (
        give_loop-loop f (record node { rx_buffer = r.rx_data_buffer }) r.new_rx_data r.packet
        ∙ as_given-nothing (
            loop etl config receiver f (record node { rx_buffer = r.rx_data_buffer }) r.new_rx_data
              r.packet))
    | inr n ↦ rw n refl
  ]

  -- The whole call.
  pub give_body-receive :
      (node : Node) (rx_data : List ℕ)
      → give_body etl config effect node rx_data
        ≡ as_given (receive etl config receiver node rx_data)
  unfolding give_body receive
  give_body-receive node rx_data =
      >>=-through (move_rx_data_in_buffer etl config rx_data node.rx_buffer) _ _ _
        (λ r. first_packet_lem (suc (length rx_data)) node r)
