-- ===== src/NoRtos/Streams.antt =====
-- `GiveRxData` of src/EmbeddedSerialFiller_NoRTOS.cpp on a stream of bytes that comes in pieces, and behind
-- an error.
use embedded_serial_filler.Base.{
  ℕ, ◌≡◌, ◌≢◌, refl, sym, ◌∙◌, ap, subst, inl, inr, List, [], ◌∷◌, ◌++◌, All, if◌then◌else◌,
  Bool-cases, false, Result, ok, ok_inj, fault, ◌>>=◌, >>=-ok,
}
use embedded_serial_filler.Definitions.{Config, success, rx_data_buffer_full}
use embedded_serial_filler.Etl.{Etl}
use embedded_serial_filler.Incoming.{is_success}
use embedded_serial_filler.Incoming.Short.{Message, IsShort, wires}
use embedded_serial_filler.Incoming.Loop
use embedded_serial_filler.Incoming.Loop.{Outcome, receive}
use embedded_serial_filler.Incoming.Loop.Fuel.{IsFit}
use embedded_serial_filler.Incoming.Loop.Streams
use embedded_serial_filler.Incoming.Loop.Streams.{concat, receive_each, receive_each-concat}
use embedded_serial_filler.Incoming.Loop.Clearing.{IsCleared, receive-IsCleared}
use embedded_serial_filler.NoRtos.{Node, Given, before, give_rx_data}
use embedded_serial_filler.NoRtos.Loop.{receiver, given, as_given, give_rx_data-receive}
use embedded_serial_filler.NoRtos.Receiving.{answers, give_rx_data-wires}

module _ (etl : Etl) (config : Config) (effect : ℕ → List ℕ → List ℕ) where
  -- A call for each piece, up to the first one that fails.
  abbrev pub give_each : Node → List (List ℕ) → Result Given
  give_each node [] = ok (record { status = success; node = node; rx_data = []; events = [] })
  give_each node (xs ∷ pieces) = give_rx_data etl config effect node xs >>= λ g.
      let further = give_each g.node pieces >>= (λ g'. ok (before g.events g')) in
      if is_success g.status then further else ok g

  -- All but what is left in `rxData`.
  abbrev pub without_rx_data : Result Given → Result Given
  without_rx_data r = r >>= λ g. ok (record g { rx_data = [] })

  as_given-further :
      (g : Outcome (receiver etl config effect)) (r : Result (Outcome (receiver etl config effect)))
      → (if is_success g.status
          then (as_given etl config effect r >>= λ g'. ok (before g.actions g'))
          else ok (given etl config effect g))
        ≡ as_given etl config effect (
            if is_success g.status
            then (r >>= λ g'. ok (record g' { actions = g.actions ++ g'.actions }))
            else ok g)
  as_given-further g (ok g') = elim (Bool-cases (is_success g.status)) [
    | inl y ↦ rw y refl
    | inr n ↦ rw n refl
  ]
  as_given-further g (fault e) = elim (Bool-cases (is_success g.status)) [
    | inl y ↦ rw y refl
    | inr n ↦ rw n refl
  ]

  give_each-receive_each :
      (node : Node) (pieces : List (List ℕ))
      → give_each node pieces
        ≡ as_given etl config effect
            (receive_each etl config (receiver etl config effect) node pieces)
  give_each-receive_each node [] = refl
  give_each-receive_each node (xs ∷ pieces) = rw (give_rx_data-receive etl config effect node xs) (
      each (receive etl config (receiver etl config effect) node xs)
        (λ next. give_each-receive_each next pieces))
    where
      each :
          (r : Result (Outcome (receiver etl config effect)))
          → ((next : Node)
              → give_each next pieces
                ≡ as_given etl config effect
                    (receive_each etl config (receiver etl config effect) next pieces))
          → (as_given etl config effect r >>= λ g.
              if is_success g.status
              then (give_each g.node pieces >>= λ g'. ok (before g.events g'))
              else ok g)
            ≡ as_given etl config effect (
                r >>= λ g.
                if is_success g.status
                then Loop.before etl config
                    (receiver etl config effect)
                    g.actions
                    (receive_each etl config (receiver etl config effect) g.node pieces)
                else ok g)
      each (fault e) ih = refl
      each (ok g) ih =
          rw (ih g.node) (
            as_given-further g (receive_each etl config (receiver etl config effect) g.node pieces))

  as_given-without_rx_data :
      (r : Result (Outcome (receiver etl config effect)))
      → without_rx_data (as_given etl config effect r)
        ≡ as_given etl config effect
            (Streams.without_rx_data etl config (receiver etl config effect) r)
  as_given-without_rx_data (ok g) = refl
  as_given-without_rx_data (fault e) = refl

  -- However any bytes at all are cut into pieces, with any non-zero bytes within the capacity in
  -- the buffer and without `ESF_REJECT_INCOMPLETE_PACKETS`: calls of `GiveRxData` on each piece in
  -- turn, up to the first call that fails, come to the same as one call on all the bytes, with the
  -- same status, node, acknowledgements and callbacks, or the same fault. They may differ in what
  -- is left in `rxData`.
  give_each-concat :
      (node : Node) (pieces : List (List ℕ))
      → config.reject_incomplete_packets ≡ false
      → IsFit node.rx_buffer
      → without_rx_data (give_each node pieces)
        ≡ without_rx_data (give_rx_data etl config effect node (concat pieces))
  give_each-concat node pieces lax fit =
      ap without_rx_data (give_each-receive_each node pieces)
      ∙ as_given-without_rx_data _
      ∙ ap (as_given etl config effect)
          (receive_each-concat etl config (receiver etl config effect) lax node pieces fit)
      ∙ sym (as_given-without_rx_data _)
      ∙ ap without_rx_data (sym (give_rx_data-receive etl config effect node (concat pieces)))

  give_rx_data-IsCleared :
      (node : Node) (rx_data : List ℕ) (g : Given)
      → IsFit node.rx_buffer
      → give_rx_data etl config effect node rx_data ≡ ok g
      → IsCleared g.status g.node.rx_buffer
  give_rx_data-IsCleared node rx_data g fit e =
      let (g', p, same) =
        >>=-ok (receive etl config (receiver etl config effect) node rx_data) _ g
          (sym (give_rx_data-receive etl config effect node rx_data) ∙ e) in
      subst (λ (g : Given). IsCleared g.status g.node.rx_buffer) (ok_inj same)
        (receive-IsCleared etl config (receiver etl config effect) node rx_data g' fit p)

  -- The receiver finds its way back: if a call of `GiveRxData` on any bytes, with non-zero bytes
  -- within the capacity in the buffer, fails with an error other than ERROR_RX_DATA_BUFFER_FULL,
  -- then the next call, on the packets of short messages (at most 248 bytes of topic and data),
  -- one behind the other, succeeds, takes all of them, and acknowledges and delivers each in turn,
  -- with the node otherwise as the failed call left it.
  pub resynchronised :
      (node : Node) (rx_data : List ℕ) (g : Given) (m : Message) (ms : List Message)
      → IsFit node.rx_buffer
      → give_rx_data etl config effect node rx_data ≡ ok g
      → g.status ≢ success
      → g.status ≢ rx_data_buffer_full
      → IsShort m
      → All IsShort ms
      → give_rx_data etl config effect g.node (wires etl (m ∷ ms))
        ≡ ok (record {
          status = success;
          node = g.node;
          rx_data = [];
          events = answers etl config effect g.node (m ∷ ms);
        })
  resynchronised node rx_data g m ms fit e failed n v vs =
      elim (give_rx_data-IsCleared node rx_data g fit e) [
        | inl y ↦ absurd (failed y)
        | inr (inl full) ↦ absurd (n full)
        | inr (inr empty) ↦ give_rx_data-wires etl config effect g.node empty m ms v vs
      ]
