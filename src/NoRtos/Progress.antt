-- ===== src/NoRtos/Progress.antt =====
-- `GiveRxData` of src/EmbeddedSerialFiller_NoRTOS.cpp on any bytes at all.
use embedded_serial_filler.Base.{
  ℕ, zero, suc, ◌<◌, ◌≡◌, ◌≢◌, refl, ap, ◌⊎◌, inl, inr, List, [], ◌∷◌, length, length-append, All,
  IsByte, if◌then◌else◌, true, Bool-cases, Option, none, some, ok, ◌>>=◌, arith,
}
use embedded_serial_filler.Definitions.{Config, StatusCode, success}
use embedded_serial_filler.Etl.{Etl}
use embedded_serial_filler.Utilities.Receive.{Received}
use embedded_serial_filler.Utilities.Bytes.{
  IsBuffer, Shape, Shape-left, move_rx_data_in_buffer-IsSound,
}
use embedded_serial_filler.Outgoing.{Event}
use embedded_serial_filler.Incoming.{is_success, parse_packet}
use embedded_serial_filler.Incoming.Total.{
  IsProper, Ends, returns, Ends-bind, Ends-map, parse_packet-Ends,
}
use embedded_serial_filler.NoRtos.{Node, before, give_loop, give_rx_data}
use embedded_serial_filler.NoRtos.Rounds.{
  IsQuiet, IsGiven, handle-IsHandled, rest_of_round, give_loop_round, next_packet_lem,
  IsGiven-before,
}

module _ (etl : Etl) (config : Config) (effect : ℕ → List ℕ → List ℕ)
    (fast : config.optimise ≡ true) where
  module _ (f : ℕ) (node : Node) (rx_data : List ℕ) (buffer : IsBuffer node.rx_buffer)
      (bytes : All IsByte rx_data) (enough : length rx_data < suc f)
      (loop : (next : Node) (rx packet : List ℕ)
        → IsBuffer next.rx_buffer
        → All IsByte rx
        → Shape rx packet
        → (packet ≡ []) ⊎ (length rx < f)
        → Ends (IsGiven next) (give_loop etl config effect f next rx packet)) where
    behind :
        (node' : Node) (events : List Event) (r : Received)
        → IsQuiet node node'
        → IsBuffer r.rx_data_buffer
        → All IsByte r.new_rx_data
        → Shape r.new_rx_data r.packet
        → (r.packet ≡ []) ⊎ (length r.new_rx_data < f)
        → Ends (IsGiven node) (
            if is_success r.status
            then (give_loop etl config effect f
                  (record node' { rx_buffer = r.rx_data_buffer })
                  r.new_rx_data
                  r.packet
                >>= λ g. ok (before events g))
            else ok (record {
              status = r.status;
              node = record node' { rx_buffer = r.rx_data_buffer };
              rx_data = r.new_rx_data;
              events = events;
            }))
    behind node' events r quiet b d shape l =
        let next : Node = record node' { rx_buffer = r.rx_data_buffer } in
        let still : IsQuiet node next =
          ap (λ (n : Node). record n { rx_buffer = r.rx_data_buffer }) quiet in
        elim (Bool-cases (is_success r.status)) [
          | inl e ↦ rw e (
              Ends-bind (IsGiven next) (IsGiven node) _ _
                (loop next r.new_rx_data r.packet b d shape l)
                (λ g p v. returns _ (IsGiven-before etl config effect node next events g still v)))
          | inr e ↦ rw e (
              returns _ (record {
                buffer = b;
                bytes = d;
                taken = inl (λ k. ground (arith, e, k));
                same = still;
              }))
        ]

    round :
        (stop : Option StatusCode) (node' : Node) (events : List Event)
        → IsQuiet node node'
        → node'.rx_buffer ≡ node.rx_buffer
        → stop ≢ some success
        → Ends (IsGiven node) (rest_of_round etl config effect f rx_data (stop, node', events))
    unfolding rest_of_round
    round (some s) node' events quiet k error = returns _ (record {
      buffer = rw k buffer;
      bytes = bytes;
      taken = inl (λ e. error (ap some e));
      same = quiet;
    })
    round none node' events quiet k error =
        let (r, e, b, d, shape, l) =
          next_packet_lem etl config effect node' rx_data (rw k buffer) bytes in
        rw e (
          behind node' events r quiet b d shape
            (elim l [ inl empty ↦ inl empty | inr less ↦ inr (omega arith) ]))

  give_loop-Ends :
      (f : ℕ) (node : Node) (rx_data packet : List ℕ)
      → IsBuffer node.rx_buffer
      → All IsByte rx_data
      → Shape rx_data packet
      → (packet ≡ []) ⊎ (length rx_data < f)
      → Ends (IsGiven node) (give_loop etl config effect f node rx_data packet)
  give_loop-Ends f node rx_data [] b d (inr (body, e, _, _)) l =
      absurd (omega (arith, ap length e, length-append body (0 ∷ [])))
  give_loop-Ends f node rx_data [] b d (inl (e, k)) l =
      unfold give_loop in returns _ (record { buffer = b; bytes = d; taken = inr k; same = refl })
  give_loop-Ends f node rx_data (x ∷ packet) b d (inl (e, k)) l =
      absurd (omega (arith, ap length e))
  give_loop-Ends zero node rx_data (x ∷ packet) b d (inr s) (inl e) =
      absurd (omega (arith, ap length e))
  give_loop-Ends zero node rx_data (x ∷ packet) b d (inr s) (inr l) = absurd (omega arith)
  give_loop-Ends (suc f) node rx_data (x ∷ packet) b d (inr s) (inl e) =
      absurd (omega (arith, ap length e))
  give_loop-Ends (suc f) node rx_data (x ∷ packet) b d (inr (body, e, c, h)) (inr l) =
      rw (give_loop_round etl config effect f node rx_data x packet) (
        Ends-bind IsProper (IsGiven node) (parse_packet etl config (x ∷ packet)) _
          (rw e (parse_packet-Ends etl config body fast c h))
          (λ parsed p proper.
            let v = handle-IsHandled etl config effect node parsed proper in
            rw v.value (
              round f node rx_data b d l (λ next rx further. give_loop-Ends f next rx further)
                v.stop v.node' v.events v.same v.kept v.error)))

  -- With `ESF_OPTIMISE`, `GiveRxData` ends on any received bytes, from a node whose buffer holds
  -- non-zero bytes within its capacity: it comes to a value, or to one of the two faults of a
  -- wrong length of the topic, a reversed range or one that is out of bounds, and never runs out
  -- of fuel. With a value, the buffer is again so, the bytes that are left are bytes, none are
  -- left if the status is SUCCESS, and the node is the same but for its buffer and the state of
  -- its event.
  pub give_rx_data-Ends :
      (node : Node) (rx_data : List ℕ)
      → IsBuffer node.rx_buffer
      → All IsByte rx_data
      → Ends (IsGiven node) (give_rx_data etl config effect node rx_data)
  unfolding give_rx_data
  give_rx_data-Ends node rx_data (c, l) d =
      let (r, e, v) = move_rx_data_in_buffer-IsSound etl config rx_data node.rx_buffer d c l in
      let (shape, less) = Shape-left r v in
      rw e (elim (Bool-cases (is_success r.status)) [
        | inl y ↦ rw y (
            Ends-map (IsGiven (record node { rx_buffer = r.rx_data_buffer })) (IsGiven node) _
              (give_loop-Ends (suc (length rx_data)) (record node { rx_buffer = r.rx_data_buffer })
                r.new_rx_data r.packet (v.code, v.fits) v.bytes shape
                (elim less [ inl empty ↦ inl empty | inr shorter ↦ inr (omega arith) ]))
              (λ g h. record {
                buffer = h.buffer;
                bytes = h.bytes;
                taken = h.taken;
                same = h.same;
              }))
        | inr n ↦ rw n (
            returns _ (record {
              buffer = (v.code, v.fits);
              bytes = v.bytes;
              taken = inl (λ k. ground (arith, n, k));
              same = refl;
            }))
      ])
