-- ===== src/Incoming/Loop/Mapped.antt =====
-- `GiveRxData` of either profile at two nodes that differ in what handling a packet does not show.
use embedded_serial_filler.Base.{
  ℕ, zero, suc, ◌≡◌, refl, inl, inr, List, [], ◌∷◌, length, Bool-cases, Option, none, some, Result,
  Result-cases, ok, fault, ◌>>=◌,
}
use embedded_serial_filler.Definitions.{Config, StatusCode}
use embedded_serial_filler.Etl.{Etl}
use embedded_serial_filler.Utilities.Receive.{Received, move_rx_data_in_buffer}
use embedded_serial_filler.Incoming.{Parsed, is_success, parse_packet}
use embedded_serial_filler.Incoming.Loop.{
  Receiver, Outcomes, before, next_packet, behind, rest_of_round, loop, receive,
}

-- A change to a node, for the nodes that `In` holds of, that goes through every packet.
pub record Change (receiver : Receiver) (In : receiver.Node → Type 0) : Type 0 where
  pub change : receiver.Node → receiver.Node
  pub change-buffer : (node : receiver.Node) → receiver.buffer (change node) ≡ receiver.buffer node
  pub change-with_buffer :
      (node : receiver.Node) (b : List ℕ)
      → receiver.with_buffer (change node) b ≡ change (receiver.with_buffer node b)
  pub with_buffer-In :
      (node : receiver.Node) (b : List ℕ) → In node → In (receiver.with_buffer node b)
  pub handle-In :
      (node : receiver.Node) (parsed : Parsed) (stop : Option StatusCode) (node' : receiver.Node)
      (actions : List receiver.Action)
      → receiver.handle node parsed ≡ ok (stop, node', actions)
      → In node
      → In node'
  pub change-handle :
      (node : receiver.Node) (parsed : Parsed)
      → In node
      → receiver.handle (change node) parsed ≡ (
          receiver.handle node parsed >>= λ (stop, node', actions).
          ok (stop, change node', actions))

module _ (etl : Etl) (config : Config) (receiver : Receiver) (In : receiver.Node → Type 0)
    (c : Change receiver In) where
  open receiver use {Node, Action, buffer, with_buffer, handle}

  abbrev pub mapped : Outcomes etl config receiver → Outcomes etl config receiver
  mapped r = r >>= λ g. ok (record g { node = c.change g.node })

  mapped-before :
      (a : List Action) (r : Outcomes etl config receiver)
      → before etl config receiver a (mapped r) ≡ mapped (before etl config receiver a r)
  mapped-before a (ok g) = refl
  mapped-before a (fault e) = refl

  next_packet-change :
      (node : Node) (rx_data : List ℕ)
      → next_packet etl config receiver (c.change node) rx_data
        ≡ next_packet etl config receiver node rx_data
  unfolding next_packet
  next_packet-change node [] = rw (c.change-buffer node) refl
  next_packet-change node (x ∷ rest) = rw (c.change-buffer node) refl

  module _ (go : Node → List ℕ → List ℕ → Outcomes etl config receiver)
      (ih : (node : Node) (rx packet : List ℕ)
        → In node
        → go (c.change node) rx packet ≡ mapped (go node rx packet)) where
    behind-change :
        (node : Node) (a : List Action) (r : Received)
        → In node
        → behind etl config receiver go (c.change node) a r
          ≡ mapped (behind etl config receiver go node a r)
    unfolding behind
    behind-change node a r h = elim (Bool-cases (is_success r.status)) [
      | inl y ↦
          rw
            (
              y,
              c.change-with_buffer node r.rx_data_buffer,
              ih (with_buffer node r.rx_data_buffer) r.new_rx_data r.packet
                  (c.with_buffer-In node r.rx_data_buffer h),
            )
            (mapped-before a (go (with_buffer node r.rx_data_buffer) r.new_rx_data r.packet))
      | inr n ↦ rw (n, c.change-with_buffer node r.rx_data_buffer) refl
    ]

    mapped->>= :
        (m : Result Received) (k k' : Received → Outcomes etl config receiver)
        → ((r : Received) → k r ≡ mapped (k' r))
        → (m >>= k) ≡ mapped (m >>= k')
    mapped->>= (ok r) k k' h = h r
    mapped->>= (fault e) k k' h = refl

    rest_of_round-change :
        (rx_data : List ℕ) (stop : Option StatusCode) (node : Node) (a : List Action)
        → In node
        → rest_of_round etl config receiver go rx_data (stop, c.change node, a)
          ≡ mapped (rest_of_round etl config receiver go rx_data (stop, node, a))
    unfolding rest_of_round
    rest_of_round-change rx_data (some s) node a h = refl
    rest_of_round-change rx_data none node a h = rw (next_packet-change node rx_data) (
        mapped->>= (next_packet etl config receiver node rx_data) _ _
          (λ r. behind-change node a r h))

  loop-change :
      (f : ℕ) (node : Node) (rx_data packet : List ℕ)
      → In node
      → loop etl config receiver f (c.change node) rx_data packet
        ≡ mapped (loop etl config receiver f node rx_data packet)
  unfolding loop
  loop-change f node rx_data [] h = refl
  loop-change zero node rx_data (x ∷ packet) h = refl
  loop-change (suc f) node rx_data (x ∷ packet) h =
      elim (Result-cases (parse_packet etl config (x ∷ packet))) [
        | inr (e, p) ↦ rw p refl
        | inl (parsed, p) ↦ elim (Result-cases (handle node parsed)) [
          | inr (e, q) ↦ rw (p, c.change-handle node parsed h, q) refl
          | inl ((stop, node', a), q) ↦
              rw (p, c.change-handle node parsed h, q)
                (rest_of_round-change (loop etl config receiver f)
                  (λ next rx more h'. loop-change f next rx more h') rx_data stop node' a
                  (c.handle-In node parsed stop node' a q h))
        ]
      ]

  -- The change goes through a whole call.
  pub receive-change :
      (node : Node) (rx_data : List ℕ)
      → In node
      → receive etl config receiver (c.change node) rx_data
        ≡ mapped (receive etl config receiver node rx_data)
  unfolding receive
  receive-change node rx_data h = rw (c.change-buffer node) (
      mapped->>= (loop etl config receiver (suc (length rx_data)))
        (λ next rx more h'. loop-change (suc (length rx_data)) next rx more h')
        (move_rx_data_in_buffer etl config rx_data (buffer node)) _ _
        (λ r.
          behind-change (loop etl config receiver (suc (length rx_data)))
            (λ next rx more h'. loop-change (suc (length rx_data)) next rx more h') node [] r h))
