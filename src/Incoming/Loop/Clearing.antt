-- ===== src/Incoming/Loop/Clearing.antt =====
-- What is in the receive buffer behind a call of `GiveRxData`, of either profile, that fails.
use embedded_serial_filler.Base.{
  ℕ, zero, suc, ◌≤◌, ◌<◌, ◌≡◌, refl, sym, ◌∙◌, ap, subst, ◌⊎◌, inl, inr, List, [], ◌∷◌, ◌++◌,
  length, length-append, Bool-cases, Option, none, some, ok, ok_inj, >>=-ok, arith,
}
use native.Mathlib.Decide.{ℕ_discrete}
use embedded_serial_filler.Definitions.{
  Config, StatusCode, success, rx_data_buffer_full, max_packet_size,
}
use embedded_serial_filler.Etl.{Etl}
use embedded_serial_filler.Utilities.Receive.{
  Received, no_packet, move_loop, move_rx_data_in_buffer,
}
use embedded_serial_filler.Utilities.Packets.{move_full, move_zero, move_more}
use embedded_serial_filler.Incoming.{is_success, parse_packet}
use embedded_serial_filler.Incoming.Loop.{
  Receiver, Outcome, Outcomes, before, next_packet, behind, rest_of_round, loop, receive,
}
use embedded_serial_filler.Incoming.Loop.Fuel.{
  IsFit, IsNext, move-IsNext, next_packet-IsNext, with_buffer-IsFit,
}

-- Success, a full buffer, or an empty one.
abbrev pub IsCleared : StatusCode → List ℕ → Type 0
IsCleared s rx_buffer = (s ≡ success) ⊎ (s ≡ rx_data_buffer_full) ⊎ (rx_buffer ≡ [])

module _ (etl : Etl) (config : Config) where
  no_packet-IsCleared :
      (s : StatusCode) (rx : List ℕ)
      → (s ≡ success) ⊎ (s ≡ rx_data_buffer_full)
      → IsCleared (no_packet etl config s rx).status (no_packet etl config s rx).rx_data_buffer
  unfolding no_packet
  no_packet-IsCleared s rx h = elim (Bool-cases config.reject_incomplete_packets) [
    | inl strict ↦ rw strict (inr (inr refl))
    | inr lax ↦ rw lax (elim h [ inl e ↦ inl e | inr e ↦ inr (inl e) ])
  ]

  move_loop-IsCleared :
      (new rx : List ℕ) (r : Received)
      → length rx ≤ max_packet_size
      → move_loop etl config new rx ≡ ok r
      → IsCleared r.status r.rx_data_buffer
  move_loop-IsCleared [] rx r h e =
      let same : no_packet etl config success rx ≡ r = ok_inj (unfold move_loop in e) in
      subst (λ (r : Received). IsCleared r.status r.rx_data_buffer) same
        (no_packet-IsCleared success rx (inl refl))
  move_loop-IsCleared (x ∷ rest) rx r h e = elim (ℕ_discrete (length rx) max_packet_size) [
    | yes full ↦
        subst (λ (r : Received). IsCleared r.status r.rx_data_buffer)
          (ok_inj (sym (move_full etl config x rest rx full) ∙ e))
          (no_packet-IsCleared rx_data_buffer_full rx (inr refl))
    | no room ↦
        (let less : length rx < max_packet_size = omega arith in
          elim (ℕ_discrete x 0) [
            | yes z ↦
                subst (λ (r : Received). IsCleared r.status r.rx_data_buffer)
                  (ok_inj (sym (move_zero etl config rest rx less) ∙ (rw z at e))) (inl refl)
            | no pos ↦
                move_loop-IsCleared rest (rx ++ x ∷ []) r (omega (arith, length-append rx (x ∷ [])))
                  (sym (move_more etl config x rest rx less (omega arith)) ∙ e)
          ])
  ]

  move-IsCleared :
      (new rx : List ℕ) (r : Received)
      → length rx ≤ max_packet_size
      → move_rx_data_in_buffer etl config new rx ≡ ok r
      → IsCleared r.status r.rx_data_buffer
  unfolding move_rx_data_in_buffer
  move-IsCleared new rx r h e = move_loop-IsCleared new rx r h e

  module _ (receiver : Receiver) where
    open receiver use {Node, Action, buffer, with_buffer, handle}

    before-IsCleared :
        (a : List Action) (r : Outcomes etl config receiver) (g : Outcome receiver)
        → ((g' : Outcome receiver) → r ≡ ok g' → IsCleared g'.status (buffer g'.node))
        → before etl config receiver a r ≡ ok g
        → IsCleared g.status (buffer g.node)
    before-IsCleared a r g k e =
        let (g', p, same) = >>=-ok r _ g e in
        subst (λ (g : Outcome receiver). IsCleared g.status (buffer g.node)) (ok_inj same) (k g' p)

    -- With a packet in hand, nothing is in the buffer.
    behind-IsCleared :
        (f : ℕ) (node : Node) (a : List Action) (rx_data : List ℕ) (r : Received)
        (g : Outcome receiver)
        → ((next : Node) (rx packet : List ℕ) (g' : Outcome receiver)
            → IsFit (buffer next)
            → (packet ≡ []) ⊎ (buffer next ≡ [])
            → loop etl config receiver f next rx packet ≡ ok g'
            → IsCleared g'.status (buffer g'.node))
        → IsNext rx_data r
        → IsCleared r.status r.rx_data_buffer
        → behind etl config receiver (loop etl config receiver f) node a r ≡ ok g
        → IsCleared g.status (buffer g.node)
    unfolding behind
    behind-IsCleared f node a rx_data r g ih v c e = elim (Bool-cases (is_success r.status)) [
      | inl y ↦
          before-IsCleared a
            (loop etl config receiver f (with_buffer node r.rx_data_buffer) r.new_rx_data r.packet)
            g
            (λ g' p.
              ih (with_buffer node r.rx_data_buffer) r.new_rx_data r.packet g'
                (with_buffer-IsFit etl config receiver node r.rx_data_buffer v.fit)
                (elim v.less [
                  | inl (none_left, _) ↦ inl none_left
                  | inr (empty, _) ↦ inr (receiver.buffer-with_buffer node r.rx_data_buffer ∙ empty)
                ])
                p)
            (rw y at e)
      | inr n ↦
          subst (λ (g : Outcome receiver). IsCleared g.status (buffer g.node)) (ok_inj (rw n at e))
            (rw (receiver.buffer-with_buffer node r.rx_data_buffer) c)
    ]

    next_packet-IsCleared :
        (node : Node) (rx_data : List ℕ) (r : Received)
        → IsFit (buffer node)
        → next_packet etl config receiver node rx_data ≡ ok r
        → IsCleared r.status r.rx_data_buffer
    unfolding next_packet
    next_packet-IsCleared node [] r fit e =
        subst (λ (r : Received). IsCleared r.status r.rx_data_buffer) (ok_inj e) (inl refl)
    next_packet-IsCleared node (x ∷ rest) r fit e =
        move-IsCleared (x ∷ rest) (buffer node) r fit.1 e

    rest_of_round-IsCleared :
        (f : ℕ) (stop : Option StatusCode) (node : Node) (a : List Action) (rx_data : List ℕ)
        (g : Outcome receiver)
        → ((next : Node) (rx packet : List ℕ) (g' : Outcome receiver)
            → IsFit (buffer next)
            → (packet ≡ []) ⊎ (buffer next ≡ [])
            → loop etl config receiver f next rx packet ≡ ok g'
            → IsCleared g'.status (buffer g'.node))
        → IsFit (buffer node)
        → buffer node ≡ []
        → rest_of_round etl config receiver (loop etl config receiver f) rx_data (stop, node, a)
          ≡ ok g
        → IsCleared g.status (buffer g.node)
    unfolding rest_of_round
    rest_of_round-IsCleared f (some s) node a rx_data g ih fit empty e =
        subst (λ (g : Outcome receiver). IsCleared g.status (buffer g.node)) (ok_inj e)
          (inr (inr empty))
    rest_of_round-IsCleared f none node a rx_data g ih fit empty e =
        let (r, p, k) = >>=-ok (next_packet etl config receiver node rx_data) _ g e in
        behind-IsCleared f node a rx_data r g ih
          (next_packet-IsNext etl config receiver node rx_data r fit p)
          (next_packet-IsCleared node rx_data r fit p) k

    loop-IsCleared :
        (f : ℕ) (node : Node) (rx_data packet : List ℕ) (g : Outcome receiver)
        → IsFit (buffer node)
        → (packet ≡ []) ⊎ (buffer node ≡ [])
        → loop etl config receiver f node rx_data packet ≡ ok g
        → IsCleared g.status (buffer g.node)
    unfolding loop
    loop-IsCleared f node rx_data [] g fit h e =
        subst (λ (g : Outcome receiver). IsCleared g.status (buffer g.node)) (ok_inj e) (inl refl)
    loop-IsCleared zero node rx_data (x ∷ packet) g fit h e = absurd (ground (arith, e))
    loop-IsCleared (suc f) node rx_data (x ∷ packet) g fit (inl none_left) e =
        absurd (omega (arith, ap length none_left))
    loop-IsCleared (suc f) node rx_data (x ∷ packet) g fit (inr empty) e =
        let (parsed, p, k) = >>=-ok (parse_packet etl config (x ∷ packet)) _ g e in
        let ((stop, node', a), q, k') = >>=-ok (handle node parsed) _ g k in
        let kept = receiver.handle-buffer node parsed stop node' a q in
        rest_of_round-IsCleared f stop node' a rx_data g
          (λ next rx more g' fit' h' e'. loop-IsCleared f next rx more g' fit' h' e') (rw kept fit)
          (kept ∙ empty) k'

    pub receive-IsCleared :
        (node : Node) (rx_data : List ℕ) (g : Outcome receiver)
        → IsFit (buffer node)
        → receive etl config receiver node rx_data ≡ ok g
        → IsCleared g.status (buffer g.node)
    unfolding receive
    receive-IsCleared node rx_data g fit e =
        let (r, p, k) = >>=-ok (move_rx_data_in_buffer etl config rx_data (buffer node)) _ g e in
        behind-IsCleared (suc (length rx_data)) node [] rx_data r g
          (λ next rx more g' fit' h' e'.
            loop-IsCleared (suc (length rx_data)) next rx more g' fit' h' e')
          (move-IsNext etl config rx_data (buffer node) r fit p)
          (move-IsCleared rx_data (buffer node) r fit.1 p) k
