-- ===== src/Rtos/Rounds.antt =====
-- The rounds of the packet loop of src/EmbeddedSerialFiller_RTOS.cpp, and what they change of the node.
use embedded_serial_filler.Base.{
  ℕ, zero, suc, ◌≡◌, refl, sym, ◌∙◌, inl, inr, List, [], ◌∷◌, length, Bool-cases, Option, none,
  some, Result, ok, ◌>>=◌, >>=-ok, if◌then◌else◌, arith,
}
use embedded_serial_filler.Definitions.{Config, StatusCode}
use embedded_serial_filler.Etl.{Etl}
use embedded_serial_filler.Utilities.Receive.{Received, move_rx_data_in_buffer}
use embedded_serial_filler.Incoming.{is_success, parse_packet}
use embedded_serial_filler.Rtos.{
  Node, Action, Given, before, handle, next_packet, give_loop, give_body, give_rx_data,
}

-- The same node, but for its buffer.
abbrev pub IsQuiet : Node → Node → Type 0
IsQuiet node node' = node' ≡ record node { rx_buffer = node'.rx_buffer }

module _ (etl : Etl) (config : Config) (effect : ℕ → List ℕ → List ℕ) where
  -- The rest of a round, behind the packet.
  unfoldable pub rest_of_round : ℕ → Node → List ℕ → Option StatusCode × List Action → Result Given
  rest_of_round f node rx_data (stop, actions) = elim stop [
    | some s ↦ ok (record { status = s; node = node; rx_data = rx_data; actions = actions })
    | none ↦ next_packet etl config effect node rx_data >>= λ r.
        let node' = record node { rx_buffer = r.rx_data_buffer } in
        let further = give_loop etl config effect f node' r.new_rx_data r.packet in
        if is_success r.status
        then (further >>= λ g. ok (before actions g))
        else ok
            (record { status = r.status; node = node'; rx_data = r.new_rx_data; actions = actions })
  ]

  pub give_loop_round :
      (f : ℕ) (node : Node) (rx_data : List ℕ) (x : ℕ) (packet : List ℕ)
      → give_loop etl config effect (suc f) node rx_data (x ∷ packet) ≡ (
          parse_packet etl config (x ∷ packet) >>= λ parsed.
          handle etl config effect node parsed >>= rest_of_round f node rx_data)
  unfolding give_loop rest_of_round
  give_loop_round f node rx_data x packet = refl

  behind-IsQuiet :
      (node : Node) (r : Received) (actions : List Action) (further : Result Given) (g : Given)
      → ((g' : Given)
          → further ≡ ok g'
          → IsQuiet (record node { rx_buffer = r.rx_data_buffer }) g'.node)
      → (if is_success r.status
          then (further >>= λ g. ok (before actions g))
          else ok (record {
            status = r.status;
            node = record node { rx_buffer = r.rx_data_buffer };
            rx_data = r.new_rx_data;
            actions = actions;
          }))
        ≡ ok g
      → IsQuiet node g.node
  behind-IsQuiet node r actions further g k h = elim (Bool-cases (is_success r.status)) [
    | inl e ↦
        (let (g', q, s) = >>=-ok further (λ g. ok (before actions g)) g (ground (arith, e, h)) in
          ground (arith, k g' q, s))
    | inr e ↦ ground (arith, e, h)
  ]

  rest_of_round-IsQuiet :
      (f : ℕ) (node : Node) (rx_data : List ℕ) (stop : Option StatusCode) (actions : List Action)
      (g : Given)
      → ((next : Node) (rx more : List ℕ) (g' : Given)
          → give_loop etl config effect f next rx more ≡ ok g'
          → IsQuiet next g'.node)
      → rest_of_round f node rx_data (stop, actions) ≡ ok g
      → IsQuiet node g.node
  unfolding rest_of_round
  rest_of_round-IsQuiet f node rx_data (some s) actions g loop k = ground (arith, k)
  rest_of_round-IsQuiet f node rx_data none actions g loop k =
      let (r, e, k') = >>=-ok (next_packet etl config effect node rx_data) _ g k in
      behind-IsQuiet node r actions _ g
        (λ g' s. loop (record node { rx_buffer = r.rx_data_buffer }) r.new_rx_data r.packet g' s) k'

  give_loop-IsQuiet :
      (f : ℕ) (node : Node) (rx_data packet : List ℕ) (g : Given)
      → give_loop etl config effect f node rx_data packet ≡ ok g
      → IsQuiet node g.node
  give_loop-IsQuiet f node rx_data [] g h = unfold give_loop in ground (arith, h)
  give_loop-IsQuiet zero node rx_data (x ∷ packet) g h =
      unfold give_loop in absurd (ground (arith, h))
  give_loop-IsQuiet (suc f) node rx_data (x ∷ packet) g h =
      let (parsed, p, h') =
        >>=-ok (parse_packet etl config (x ∷ packet)) _ g
          (sym (give_loop_round f node rx_data x packet) ∙ h) in
      let ((stop, actions), q, k) = >>=-ok (handle etl config effect node parsed) _ g h' in
      rest_of_round-IsQuiet f node rx_data stop actions g
        (λ next rx more g' s. give_loop-IsQuiet f next rx more g' s) k

  -- Whatever comes in.
  pub give_rx_data-IsQuiet :
      (node : Node) (rx_data : List ℕ) (g : Given)
      → give_rx_data etl config effect node rx_data ≡ ok g
      → IsQuiet node g.node
  unfolding give_rx_data give_body
  give_rx_data-IsQuiet node rx_data g h =
      let (b, p, k) = >>=-ok (give_body etl config effect node rx_data) _ g h in
      let (r, e, s) = >>=-ok (move_rx_data_in_buffer etl config rx_data node.rx_buffer) _ b p in
      elim (Bool-cases (is_success r.status)) [
        | inl y ↦ ground (
          arith,
          k,
          give_loop-IsQuiet (suc (length rx_data)) (record node { rx_buffer = r.rx_data_buffer })
              r.new_rx_data r.packet b (ground (arith, y, s)),
        )
        | inr n ↦ ground (arith, k, n, s)
      ]
