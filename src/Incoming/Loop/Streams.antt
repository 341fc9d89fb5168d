-- ===== src/Incoming/Loop/Streams.antt =====
-- Several calls of `GiveRxData`, of either profile, on the pieces of a stream of bytes.
use embedded_serial_filler.Base.{
  ℕ, ◌≡◌, ◌≢◌, refl, sym, ◌∙◌, ap, inl, inr, List, [], ◌∷◌, ◌++◌, if◌then◌else◌, Bool-cases, false,
  ok, fault, ◌>>=◌,
}
use embedded_serial_filler.Definitions.{Config, StatusCode, success}
use embedded_serial_filler.Etl.{Etl}
use embedded_serial_filler.Utilities.Receive.{move_loop, move_rx_data_in_buffer}
use embedded_serial_filler.Utilities.Packets.{no_packet_lax}
use embedded_serial_filler.Incoming.{is_success}
use embedded_serial_filler.Incoming.Total.{is_success-eq}
use embedded_serial_filler.Incoming.Loop.{Receiver, Outcomes, before, behind, loop, receive}
use embedded_serial_filler.Incoming.Loop.Fuel.{IsFit}
use embedded_serial_filler.Incoming.Loop.Pieces.{goes_on, stops, Continues, receive-Continues}

abbrev pub concat : List (List ℕ) → List ℕ
concat [] = []
concat (xs ∷ pieces) = xs ++ concat pieces

module _ (etl : Etl) (config : Config) (receiver : Receiver) where
  open receiver use {Node, Action, buffer, with_buffer, handle}

  -- A call for each piece, up to the first one that fails.
  abbrev pub receive_each : Node → List (List ℕ) → Outcomes etl config receiver
  receive_each node [] = ok (record { status = success; node = node; rx_data = []; actions = [] })
  receive_each node (xs ∷ pieces) = receive etl config receiver node xs >>= λ g.
      let further = before etl config receiver g.actions (receive_each g.node pieces) in
      if is_success g.status then further else ok g

  -- All but the data that is left over.
  abbrev pub without_rx_data : Outcomes etl config receiver → Outcomes etl config receiver
  without_rx_data r = r >>= λ g. ok (record g { rx_data = [] })

  without_rx_data-before :
      (a : List Action) (r : Outcomes etl config receiver)
      → without_rx_data (before etl config receiver a r)
        ≡ before etl config receiver a (without_rx_data r)
  without_rx_data-before a (ok g) = refl
  without_rx_data-before a (fault e) = refl

  failed : (s : StatusCode) → s ≢ success → is_success s ≡ false
  failed s h = elim (Bool-cases (is_success s)) [
    | inl e ↦ absurd (h (is_success-eq s e))
    | inr e ↦ e
  ]

  module _ (lax : config.reject_incomplete_packets ≡ false) where
    pub receive-nil :
        (node : Node)
        → receive etl config receiver node []
          ≡ ok (record { status = success; node = node; rx_data = []; actions = [] })
    unfolding receive move_rx_data_in_buffer move_loop behind loop
    receive-nil node = rw (no_packet_lax etl config success (buffer node) lax) (
        ap (λ n. ok (record { status = success; node = n; rx_data = []; actions = [] }))
          (receiver.with_buffer-buffer node))

    -- One piece, and the rest.
    receive_each-cons :
        (node : Node) (xs ys : List ℕ) (pieces : List (List ℕ))
        → ((next : Node)
            → IsFit (buffer next)
            → without_rx_data (receive_each next pieces)
              ≡ without_rx_data (receive etl config receiver next ys))
        → (first both : Outcomes etl config receiver) → receive etl config receiver node xs ≡ first
        → Continues etl config receiver ys first both
        → without_rx_data (receive_each node (xs ∷ pieces)) ≡ without_rx_data both
    receive_each-cons node xs ys pieces ih (fault f) both e h = rw (e, h) refl
    receive_each-cons node xs ys pieces ih (ok g) both e (goes_on s fit h) =
        rw (e, s, h)
          (without_rx_data-before g.actions (receive_each g.node pieces)
            ∙ ap (before etl config receiver g.actions) (ih g.node fit)
            ∙ sym (without_rx_data-before g.actions (receive etl config receiver g.node ys)))
    receive_each-cons node xs ys pieces ih (ok g) both e (stops rx_data n h) =
        rw (e, failed g.status n, h) refl

    pub receive_each-concat :
        (node : Node) (pieces : List (List ℕ))
        → IsFit (buffer node)
        → without_rx_data (receive_each node pieces)
          ≡ without_rx_data (receive etl config receiver node (concat pieces))
    receive_each-concat node [] fit = rw (receive-nil node) refl
    receive_each-concat node (xs ∷ pieces) fit =
        receive_each-cons node xs (concat pieces) pieces
          (λ next fit'. receive_each-concat next pieces fit') (receive etl config receiver node xs)
          (receive etl config receiver node (xs ++ concat pieces)) refl
          (receive-Continues etl config receiver lax node xs (concat pieces) fit)
