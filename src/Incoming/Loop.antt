-- ===== src/Incoming/Loop.antt =====
-- The packet loop of `GiveRxData`, which src/EmbeddedSerialFiller_NoRTOS.cpp and
-- src/EmbeddedSerialFiller_RTOS.cpp have alike: over any node that has a receive buffer and handles
-- parsed packets. The loop of each of the two is shown to be this one.
pub mod Fuel
pub mod Pieces
pub mod Streams
pub mod Clearing
pub mod Partial
pub mod Mapped
use embedded_serial_filler.Base.{
  ℕ, zero, suc, ◌≡◌, ◌≢◌, List, [], ◌∷◌, ◌++◌, length, if◌then◌else◌, Option, none, some, Result,
  ok, fault, fuel, ◌>>=◌,
}
use embedded_serial_filler.Definitions.{Config, StatusCode, success}
use embedded_serial_filler.Etl.{Etl}
use embedded_serial_filler.Utilities.Receive.{Received, move_rx_data_in_buffer}
use embedded_serial_filler.Incoming.{Parsed, is_success, parse_packet}
use embedded_serial_filler.Incoming.Total.{IsProper}

-- A node, as the loop sees it. Handling a packet leaves the buffer alone, and
-- stops the call only with an error.
pub record Receiver : Type 1 where
  pub Node : Type 0
  pub Action : Type 0
  pub buffer : Node → List ℕ
  pub with_buffer : Node → List ℕ → Node
  pub handle : Node → Parsed → Result (Option StatusCode × Node × List Action)
  pub buffer-with_buffer : (node : Node) (b : List ℕ) → buffer (with_buffer node b) ≡ b
  pub with_buffer-buffer : (node : Node) → with_buffer node (buffer node) ≡ node
  pub with_buffer-with_buffer :
      (node : Node) (a b : List ℕ) → with_buffer (with_buffer node a) b ≡ with_buffer node b
  pub handle-buffer :
      (node : Node) (parsed : Parsed) (stop : Option StatusCode) (node' : Node)
      (actions : List Action)
      → handle node parsed ≡ ok (stop, node', actions)
      → buffer node' ≡ buffer node
  pub handle-stop :
      (node : Node) (parsed : Parsed) (s : StatusCode) (node' : Node) (actions : List Action)
      → IsProper parsed
      → handle node parsed ≡ ok (some s, node', actions)
      → s ≢ success

-- What a call comes to.
pub record Outcome (receiver : Receiver) : Type 0 where
  pub status : StatusCode
  pub node : receiver.Node
  pub rx_data : List ℕ
  pub actions : List receiver.Action

module _ (etl : Etl) (config : Config) (receiver : Receiver) where
  open receiver use {Node, Action, buffer, with_buffer, handle}

  abbrev pub Outcomes : Type 0
  Outcomes = Result (Outcome receiver)

  abbrev pub before : List Action → Outcomes → Outcomes
  before actions r = r >>= λ g. ok (record g { actions = actions ++ g.actions })

  -- The next packet, if there is more data.
  unfoldable pub next_packet : Node → List ℕ → Result Received
  next_packet node [] =
      ok (record { status = success; new_rx_data = []; rx_data_buffer = buffer node; packet = [] })
  next_packet node (x ∷ rest) = move_rx_data_in_buffer etl config (x ∷ rest) (buffer node)

  -- A packet, or an error, behind `actions`. `go` is the loop.
  unfoldable pub behind :
      (Node → List ℕ → List ℕ → Outcomes) → Node → List Action → Received → Outcomes
  behind go node actions r =
      if is_success r.status
      then before actions (go (with_buffer node r.rx_data_buffer) r.new_rx_data r.packet)
      else ok (record {
        status = r.status;
        node = with_buffer node r.rx_data_buffer;
        rx_data = r.new_rx_data;
        actions = actions;
      })

  -- What handling a packet leads to.
  unfoldable pub rest_of_round :
      (Node → List ℕ → List ℕ → Outcomes)
      → List ℕ
      → Option StatusCode × Node × List Action
      → Outcomes
  rest_of_round go rx_data (stop, node, actions) = elim stop [
    | some s ↦ ok (record { status = s; node = node; rx_data = rx_data; actions = actions })
    | none ↦ next_packet node rx_data >>= behind go node actions
  ]

  unfoldable pub loop : ℕ → Node → List ℕ → List ℕ → Outcomes
  loop f node rx_data [] =
      ok (record { status = success; node = node; rx_data = rx_data; actions = [] })
  loop zero node rx_data (x ∷ packet) = fault fuel
  loop (suc f) node rx_data (x ∷ packet) = parse_packet etl config (x ∷ packet) >>= λ parsed.
      handle node parsed >>= rest_of_round (loop f) rx_data

  unfoldable pub receive : Node → List ℕ → Outcomes
  receive node rx_data =
      move_rx_data_in_buffer etl config rx_data (buffer node)
      >>= behind (loop (suc (length rx_data))) node []
