-- ===== src/Rtos/Progress.antt =====
-- `GiveRxData` of src/EmbeddedSerialFiller_RTOS.cpp on any bytes at all.
use embedded_serial_filler.Base.{
  ℕ, zero, suc, ◌<◌, ◌≡◌, ◌≢◌, refl, ap, ◌⊎◌, inl, inr, List, [], ◌∷◌, ◌++◌, map, length,
  length-append, All, IsByte, if◌then◌else◌, Bool-cases, true, Option, Option-cases, none, some, ok,
  arith,
}
use embedded_serial_filler.Definitions.{Config, StatusCode, success, unexpected_ack}
use embedded_serial_filler.Etl.{Etl}
use embedded_serial_filler.Utilities.Receive.{Received}
use embedded_serial_filler.Utilities.Bytes.{
  IsBuffer, Shape, Shape-left, move_rx_data_in_buffer-IsSound,
}
use embedded_serial_filler.Outgoing.{tx_data_ready}
use embedded_serial_filler.Outgoing.Contents.{sent, ack_contents, publish_internal-ack}
use embedded_serial_filler.Incoming.{
  Parsed, refused, message, acknowledged, is_success, parse_packet,
}
use embedded_serial_filler.Incoming.Total.{IsProper, Ends, returns, Ends-bind, parse_packet-Ends}
use embedded_serial_filler.Rtos.{
  Node, Action, Given, emit, notify, find_pending, acknowledge, deliver, handle, next_packet,
  give_loop, give_body, give_rx_data,
}
use embedded_serial_filler.Rtos.Rounds.{rest_of_round, give_loop_round}

-- What a call leaves of the buffer and of the data.
pub record IsTaken (g : Given) : Type 0 where
  pub buffer : IsBuffer g.node.rx_buffer
  pub bytes : All IsByte g.rx_data
  pub taken : (g.status ≢ success) ⊎ (g.rx_data ≡ [])

module _ (etl : Etl) (config : Config) (effect : ℕ → List ℕ → List ℕ) where
  -- A packet that has been parsed is handled.
  pub handle-ok :
      (node : Node) (parsed : Parsed)
      → IsProper parsed
      → (stop : Option StatusCode) × (actions : List Action) × (handle etl config effect node parsed
          ≡ ok (stop, actions))
        × (stop ≢ some success)
  unfolding handle acknowledge
  handle-ok node (refused s) h = (some s, [], refl, λ e. h (ground (arith, e)))
  handle-ok node (message wants_ack packet_id topic payload) h = (
    none,
    (if wants_ack
          then map emit (
              if node.tx_data_ready_set
              then tx_data_ready (sent etl (ack_contents packet_id)) ∷ []
              else [])
          else [])
        ++ deliver etl config effect node topic payload,
    ground (arith, publish_internal-ack etl config node.tx_data_ready_set packet_id),
    λ e. cc,
  )
  handle-ok node (acknowledged packet_id) h =
      elim (Option-cases (find_pending packet_id node.events node.ack_events)) [
        | inl e ↦ (some unexpected_ack, [], ground (arith, e), λ k. cc)
        | inr (it, e) ↦ (none, notify it ∷ [], ground (arith, e), λ k. cc)
      ]

  -- Less is left behind each packet.
  next_packet_lem :
      (node : Node) (rx_data : List ℕ)
      → IsBuffer node.rx_buffer
      → All IsByte rx_data
      → (r : Received) × (next_packet etl config effect node rx_data ≡ ok r)
        × IsBuffer r.rx_data_buffer
        × All IsByte r.new_rx_data
        × Shape r.new_rx_data r.packet
        × ((r.packet ≡ []) ⊎ (length r.new_rx_data < length rx_data))
  unfolding next_packet
  next_packet_lem node [] b d = (_, refl, b, tt, inl (refl, refl), inl refl)
  next_packet_lem node (x ∷ rest) b d =
      let (r, e, v) =
        move_rx_data_in_buffer-IsSound etl config (x ∷ rest) node.rx_buffer d b.0 b.1 in
      let (shape, less) = Shape-left r v in (r, e, (v.code, v.fits), v.bytes, shape, less)

  module _ (f : ℕ) (node : Node) (rx_data : List ℕ) (buffer : IsBuffer node.rx_buffer)
      (bytes : All IsByte rx_data) (enough : length rx_data < suc f)
      (loop : (next : Node) (rx packet : List ℕ)
        → IsBuffer next.rx_buffer
        → All IsByte rx
        → Shape rx packet
        → (packet ≡ []) ⊎ (length rx < f)
        → Ends IsTaken (give_loop etl config effect f next rx packet)) where
    rest_of_round-Ends :
        (stop : Option StatusCode) (actions : List Action)
        → stop ≢ some success
        → Ends IsTaken (rest_of_round etl config effect f node rx_data (stop, actions))
    unfolding rest_of_round
    rest_of_round-Ends (some s) actions error =
        returns _ (record { buffer = buffer; bytes = bytes; taken = inl (λ e. error (ap some e)) })
    rest_of_round-Ends none actions error =
        let (r, e, b, d, shape, l) = next_packet_lem node rx_data buffer bytes in
        rw e (elim (Bool-cases (is_success r.status)) [
          | inl y ↦ rw y (
              Ends-bind IsTaken IsTaken _ _
                (loop (record node { rx_buffer = r.rx_data_buffer }) r.new_rx_data r.packet b d
                  shape (elim l [ inl empty ↦ inl empty | inr less ↦ inr (omega arith) ]))
                (λ g p v.
                  returns _ (record { buffer = v.buffer; bytes = v.bytes; taken = v.taken })))
          | inr n ↦ rw n (
              returns _ (record { buffer = b; bytes = d; taken = inl (λ k. ground (arith, n, k)) }))
        ])

  module _ (fast : config.optimise ≡ true) where
    give_loop-Ends :
        (f : ℕ) (node : Node) (rx_data packet : List ℕ)
        → IsBuffer node.rx_buffer
        → All IsByte rx_data
        → Shape rx_data packet
        → (packet ≡ []) ⊎ (length rx_data < f)
        → Ends IsTaken (give_loop etl config effect f node rx_data packet)
    give_loop-Ends f node rx_data [] b d (inr (body, e, _, _)) l =
        absurd (omega (arith, ap length e, length-append body (0 ∷ [])))
    give_loop-Ends f node rx_data [] b d (inl (e, k)) l =
        unfold give_loop in returns _ (record { buffer = b; bytes = d; taken = inr k })
    give_loop-Ends f node rx_data (x ∷ packet) b d (inl (e, k)) l =
        absurd (omega (arith, ap length e))
    give_loop-Ends zero node rx_data (x ∷ packet) b d (inr s) (inl e) =
        absurd (omega (arith, ap length e))
    give_loop-Ends zero node rx_data (x ∷ packet) b d (inr s) (inr l) = absurd (omega arith)
    give_loop-Ends (suc f) node rx_data (x ∷ packet) b d (inr s) (inl e) =
        absurd (omega (arith, ap length e))
    give_loop-Ends (suc f) node rx_data (x ∷ packet) b d (inr (body, e, c, h)) (inr l) =
        rw (give_loop_round etl config effect f node rx_data x packet) (
          Ends-bind IsProper IsTaken (parse_packet etl config (x ∷ packet)) _
            (rw e (parse_packet-Ends etl config body fast c h))
            (λ parsed p proper.
              let (stop, actions, value, error) = handle-ok node parsed proper in
              rw value (
                rest_of_round-Ends f node rx_data b d l
                  (λ next rx further. give_loop-Ends f next rx further) stop actions error)))

    give_body-Ends :
        (node : Node) (rx_data : List ℕ)
        → IsBuffer node.rx_buffer
        → All IsByte rx_data
        → Ends IsTaken (give_body etl config effect node rx_data)
    unfolding give_body
    give_body-Ends node rx_data b d =
        let (r, e, v) =
          move_rx_data_in_buffer-IsSound etl config rx_data node.rx_buffer d b.0 b.1 in
        let (shape, less) = Shape-left r v in
        rw e (elim (Bool-cases (is_success r.status)) [
          | inl y ↦ rw y (
              give_loop-Ends (suc (length rx_data)) (record node { rx_buffer = r.rx_data_buffer })
                r.new_rx_data r.packet (v.code, v.fits) v.bytes shape
                (elim less [ inl empty ↦ inl empty | inr l ↦ inr (omega arith) ]))
          | inr n ↦ rw n (
              returns _ (record {
                buffer = (v.code, v.fits);
                bytes = v.bytes;
                taken = inl (λ k. ground (arith, n, k));
              }))
        ])

    -- With `ESF_OPTIMISE`, `GiveRxData` of the node for several threads ends on any received
    -- bytes, from a buffer that holds non-zero bytes within its capacity: it comes to a value, or
    -- to one of the two faults of a wrong length of the topic, a reversed range or one that is out
    -- of bounds, and never runs out of fuel. With a value, the buffer is again so, the bytes that
    -- are left are bytes, and none are left if the status is SUCCESS.
    pub give_rx_data_threaded-Ends :
        (node : Node) (rx_data : List ℕ)
        → IsBuffer node.rx_buffer
        → All IsByte rx_data
        → Ends IsTaken (give_rx_data etl config effect node rx_data)
    unfolding give_rx_data
    give_rx_data_threaded-Ends node rx_data b d =
        Ends-bind IsTaken IsTaken (give_body etl config effect node rx_data) _
          (give_body-Ends node rx_data b d)
          (λ g p v. returns _ (record { buffer = v.buffer; bytes = v.bytes; taken = v.taken }))
