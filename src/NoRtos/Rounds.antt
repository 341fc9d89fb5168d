-- ===== src/NoRtos/Rounds.antt =====
-- The rounds of the packet loop of src/EmbeddedSerialFiller_NoRTOS.cpp: what one packet can change.
use embedded_serial_filler.Base.{
  ℕ, suc, ◌<◌, ◌≡◌, ◌≢◌, refl, ◌∙◌, ap, ◌⊎◌, inl, inr, List, [], ◌∷◌, ◌++◌, length, All, IsByte,
  ◌==◌, if◌then◌else◌, Bool-cases, Option, none, some, Result, ok, ◌>>=◌, arith,
}
use embedded_serial_filler.Definitions.{Config, StatusCode, success, unexpected_ack}
use embedded_serial_filler.Etl.{Etl}
use embedded_serial_filler.Utilities.Receive.{Received}
use embedded_serial_filler.Utilities.Bytes.{
  IsBuffer, Shape, Shape-left, move_rx_data_in_buffer-IsSound,
}
use embedded_serial_filler.Outgoing.{Event, tx_data_ready}
use embedded_serial_filler.Outgoing.Contents.{sent, ack_contents, publish_internal-ack}
use embedded_serial_filler.Incoming.{
  Parsed, refused, message, acknowledged, is_success, parse_packet,
}
use embedded_serial_filler.Incoming.Total.{IsProper}
use embedded_serial_filler.NoRtos.{
  Node, Given, got_ack, before, acknowledge, deliver, handle, next_packet, give_loop,
}

-- The same node, but for its buffer and the state of its event.
abbrev pub IsQuiet : Node → Node → Type 0
IsQuiet node node' = node' ≡ record node {
  rx_buffer = node'.rx_buffer;
  ack_event = record { packet_id = node.ack_event.packet_id; state = node'.ack_event.state };
}

pub record IsGiven (node : Node) (g : Given) : Type 0 where
  pub buffer : IsBuffer g.node.rx_buffer
  pub bytes : All IsByte g.rx_data
  pub taken : (g.status ≢ success) ⊎ (g.rx_data ≡ [])
  pub same : IsQuiet node g.node

module _ (etl : Etl) (config : Config) (effect : ℕ → List ℕ → List ℕ) where
  -- What handling one packet comes to.
  pub record IsHandled (node : Node) (r : Result (Option StatusCode × Node × List Event))
      : Type 0 where
    pub stop : Option StatusCode
    pub node' : Node
    pub events : List Event
    pub value : r ≡ ok (stop, node', events)
    pub same : IsQuiet node node'
    pub kept : node'.rx_buffer ≡ node.rx_buffer
    pub error : stop ≢ some success

  pub handle-IsHandled :
      (node : Node) (parsed : Parsed)
      → IsProper parsed
      → IsHandled node (handle etl config effect node parsed)
  unfolding handle acknowledge
  handle-IsHandled node (refused s) h = record {
    stop = some s;
    node' = node;
    events = [];
    value = refl;
    same = refl;
    kept = refl;
    error = λ e. h (ground (arith, e));
  }
  handle-IsHandled node (message wants_ack packet_id topic payload) h = record {
    stop = none;
    node' = node;
    events =
        (if wants_ack
          then (if node.tx_data_ready_set
              then tx_data_ready (sent etl (ack_contents packet_id)) ∷ []
              else [])
          else [])
        ++ deliver etl config effect node topic payload;
    value = ground (arith, publish_internal-ack etl config node.tx_data_ready_set packet_id);
    same = refl;
    kept = refl;
    error = λ e. cc;
  }
  handle-IsHandled node (acknowledged packet_id) h =
      elim (Bool-cases (node.ack_event.packet_id == packet_id)) [
        | inl e ↦ record {
          stop = none;
          node' = record node {
            ack_event = record { packet_id = node.ack_event.packet_id; state = got_ack };
          };
          events = [];
          value = rw e;
          same = refl;
          kept = refl;
          error = λ k. cc;
        }
        | inr e ↦ record {
          stop = some unexpected_ack;
          node' = node;
          events = [];
          value = rw e;
          same = refl;
          kept = refl;
          error = λ k. cc;
        }
      ]

  -- The rest of a round, behind the packet.
  unfoldable pub rest_of_round : ℕ → List ℕ → Option StatusCode × Node × List Event → Result Given
  rest_of_round f rx_data (stop, node', events) = elim stop [
    | some s ↦ ok (record { status = s; node = node'; rx_data = rx_data; events = events })
    | none ↦ next_packet etl config effect node' rx_data >>= λ r.
        let node'' = record node' { rx_buffer = r.rx_data_buffer } in
        let further = give_loop etl config effect f node'' r.new_rx_data r.packet in
        if is_success r.status
        then (further >>= λ g. ok (before events g))
        else ok
            (record { status = r.status; node = node''; rx_data = r.new_rx_data; events = events })
  ]

  pub give_loop_round :
      (f : ℕ) (node : Node) (rx_data : List ℕ) (x : ℕ) (packet : List ℕ)
      → give_loop etl config effect (suc f) node rx_data (x ∷ packet) ≡ (
          parse_packet etl config (x ∷ packet) >>= λ parsed.
          handle etl config effect node parsed >>= rest_of_round f rx_data)
  unfolding give_loop rest_of_round
  give_loop_round f node rx_data x packet = refl

  pub next_packet_lem :
      (node : Node) (rx_data : List ℕ)
      → IsBuffer node.rx_buffer
      → All IsByte rx_data
      → (r : Received) × (next_packet etl config effect node rx_data ≡ ok r)
        × IsBuffer r.rx_data_buffer
        × All IsByte r.new_rx_data
        × Shape r.new_rx_data r.packet
        × ((r.packet ≡ []) ⊎ (length r.new_rx_data < length rx_data))
  unfolding next_packet
  next_packet_lem node [] (c, l) b = (
    record { status = success; new_rx_data = []; rx_data_buffer = node.rx_buffer; packet = [] },
    refl,
    (c, l),
    tt,
    inl (refl, refl),
    inl refl,
  )
  next_packet_lem node (x ∷ rest) (c, l) b =
      let (r, e, v) = move_rx_data_in_buffer-IsSound etl config (x ∷ rest) node.rx_buffer b c l in
      let (shape, less) = Shape-left r v in (r, e, (v.code, v.fits), v.bytes, shape, less)

  IsQuiet-trans : (a b c : Node) → IsQuiet a b → IsQuiet b c → IsQuiet a c
  IsQuiet-trans a b c h k =
      k
      ∙ ap
          (λ (n : Node). record n {
            rx_buffer = c.rx_buffer;
            ack_event = record { packet_id = n.ack_event.packet_id; state = c.ack_event.state };
          })
          h

  pub IsGiven-before :
      (node node' : Node) (events : List Event) (g : Given)
      → IsQuiet node node'
      → IsGiven node' g
      → IsGiven node (before events g)
  IsGiven-before node node' events g h v = record {
    buffer = v.buffer;
    bytes = v.bytes;
    taken = v.taken;
    same = IsQuiet-trans node node' g.node h v.same;
  }
