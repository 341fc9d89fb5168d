-- ===== src/Incoming/Loop/Fuel.antt =====
-- The fuel of the packet loop of `GiveRxData` of both profiles, and its buffer.
use embedded_serial_filler.Base.{
  ℕ, zero, suc, ◌≤◌, ◌<◌, ◌≡◌, refl, sym, ◌∙◌, ap, subst, ◌⊎◌, inl, inr, List, [], ◌∷◌, length, All,
  IsNonzero, Option, none, some, ok, ok_inj, >>=-cong, arith,
}
use embedded_serial_filler.Definitions.{Config, StatusCode, max_packet_size}
use embedded_serial_filler.Etl.{Etl}
use embedded_serial_filler.Utilities.Receive.{Received, move_rx_data_in_buffer}
use embedded_serial_filler.Utilities.Packets.{move_rx_data_in_buffer-IsReceived}
use embedded_serial_filler.Incoming.{parse_packet}
use embedded_serial_filler.Incoming.Loop.{
  Receiver, Outcomes, next_packet, behind, rest_of_round, loop,
}

-- Non-zero bytes, within the capacity.
abbrev pub IsFit : List ℕ → Type 0
IsFit rx_buffer = All IsNonzero rx_buffer × (length rx_buffer ≤ max_packet_size)

-- What the next packet leaves, and whether there is one.
pub record IsNext (rx_data : List ℕ) (r : Received) : Type 0 where
  pub fit : IsFit r.rx_data_buffer
  pub less :
      ((r.packet ≡ []) × (r.new_rx_data ≡ []))
      ⊎ ((r.rx_data_buffer ≡ []) × (length r.new_rx_data < length rx_data))

module _ (etl : Etl) (config : Config) where
  pub move-IsNext :
      (rx_data rx_buffer : List ℕ) (r : Received)
      → IsFit rx_buffer
      → move_rx_data_in_buffer etl config rx_data rx_buffer ≡ ok r
      → IsNext rx_data r
  move-IsNext rx_data rx_buffer r fit e =
      let (r', e', v) =
        move_rx_data_in_buffer-IsReceived etl config rx_data rx_buffer fit.0 fit.1 in
      subst (IsNext rx_data) (ok_inj (sym e' ∙ e)) (record {
        fit = (v.nonzero, v.fits);
        less = elim v.framed [
          | inl empty ↦ inl empty
          | inr (packet, s, b, f, less) ↦ inr (b, less)
        ];
      })

  module _ (receiver : Receiver) where
    open receiver use {Node, Action, buffer, with_buffer, handle}

    pub next_packet-IsNext :
        (node : Node) (rx_data : List ℕ) (r : Received)
        → IsFit (buffer node)
        → next_packet etl config receiver node rx_data ≡ ok r
        → IsNext rx_data r
    unfolding next_packet
    next_packet-IsNext node [] r fit e =
        subst (IsNext []) (ok_inj e) (record { fit = fit; less = inl (refl, refl) })
    next_packet-IsNext node (x ∷ rest) r fit e = move-IsNext (x ∷ rest) (buffer node) r fit e

    pub with_buffer-IsFit :
        (node : Node) (b : List ℕ) → IsFit b → IsFit (buffer (with_buffer node b))
    with_buffer-IsFit node b h = rw (receiver.buffer-with_buffer node b) h

    -- Two loops that agree on what they are given here.
    pub behind-cong :
        (go go' : Node → List ℕ → List ℕ → Outcomes etl config receiver) (node : Node)
        (actions : List Action) (r : Received)
        → go (with_buffer node r.rx_data_buffer) r.new_rx_data r.packet
          ≡ go' (with_buffer node r.rx_data_buffer) r.new_rx_data r.packet
        → behind etl config receiver go node actions r
          ≡ behind etl config receiver go' node actions r
    unfolding behind
    behind-cong go go' node actions r h = rw h refl

    none_left : (x : ℕ) (packet rx_data : List ℕ) → ¬ ((x ∷ packet ≡ []) ⊎ (length rx_data < 0))
    none_left x packet rx_data (inl e) = omega (arith, ap length e)
    none_left x packet rx_data (inr l) = omega arith

    below :
        (x : ℕ) (packet rx_data : List ℕ) (f : ℕ)
        → (x ∷ packet ≡ []) ⊎ (length rx_data < suc f)
        → length rx_data < suc f
    below x packet rx_data f (inl e) = absurd (omega (arith, ap length e))
    below x packet rx_data f (inr l) = l

    rest_of_round-cong :
        (stop : Option StatusCode) (node : Node) (actions : List Action) (f g : ℕ)
        (rx_data : List ℕ)
        → IsFit (buffer node)
        → ((next : Node) (rx more : List ℕ)
            → IsFit (buffer next)
            → (more ≡ []) ⊎ (length rx < f)
            → (more ≡ []) ⊎ (length rx < g)
            → loop etl config receiver f next rx more ≡ loop etl config receiver g next rx more)
        → length rx_data < suc f
        → length rx_data < suc g
        → rest_of_round etl config receiver
            (loop etl config receiver f)
            rx_data
            (stop, node, actions)
          ≡ rest_of_round etl config receiver
              (loop etl config receiver g)
              rx_data
              (stop, node, actions)
    unfolding rest_of_round
    rest_of_round-cong (some s) node actions f g rx_data fit ih h k = refl
    rest_of_round-cong none node actions f g rx_data fit ih h k =
        >>=-cong (next_packet etl config receiver node rx_data) _ _ (λ r e.
          let v = next_packet-IsNext node rx_data r fit e in
          behind-cong (loop etl config receiver f) (loop etl config receiver g) node actions r (
            ih (with_buffer node r.rx_data_buffer) r.new_rx_data r.packet
              (with_buffer-IsFit node r.rx_data_buffer v.fit)
              (elim v.less [ inl (empty, _) ↦ inl empty | inr (_, less) ↦ inr (omega arith) ])
              (elim v.less [ inl (empty, _) ↦ inl empty | inr (_, less) ↦ inr (omega arith) ])))

    -- Enough fuel is enough.
    pub loop_fuel :
        (f g : ℕ) (node : Node) (rx_data packet : List ℕ)
        → IsFit (buffer node)
        → (packet ≡ []) ⊎ (length rx_data < f)
        → (packet ≡ []) ⊎ (length rx_data < g)
        → loop etl config receiver f node rx_data packet
          ≡ loop etl config receiver g node rx_data packet
    unfolding loop
    loop_fuel f g node rx_data [] fit h k = refl
    loop_fuel zero g node rx_data (x ∷ packet) fit h k = absurd (none_left x packet rx_data h)
    loop_fuel (suc f) zero node rx_data (x ∷ packet) fit h k = absurd (none_left x packet rx_data k)
    loop_fuel (suc f) (suc g) node rx_data (x ∷ packet) fit h k =
        >>=-cong (parse_packet etl config (x ∷ packet)) _ _ (λ parsed e.
          >>=-cong (handle node parsed) _ _ (λ (stop, node', actions) e'.
            rest_of_round-cong stop node' actions f g rx_data
              (rw (receiver.handle-buffer node parsed stop node' actions e') fit)
              (λ next rx more fit' less less'. loop_fuel f g next rx more fit' less less')
              (below x packet rx_data f h) (below x packet rx_data g k)))
