-- ===== src/Incoming/Loop/Partial.antt =====
-- `GiveRxData` of either profile on the first bytes of packets that are sent one behind the other, cut
-- off anywhere.
use embedded_serial_filler.Base.{
  ℕ, ◌+◌, ◌≤◌, ◌≡◌, refl, sym, ◌∙◌, ap, ◌⊎◌, inl, inr, List, [], ◌∷◌, ◌++◌, append_assoc,
  append-nil, length, length-append, All, IsNonzero, false, ok, fault, arith,
}
use embedded_serial_filler.Definitions.{Config, success, max_packet_size}
use embedded_serial_filler.Etl.{Etl}
use embedded_serial_filler.Utilities.Receive.{no_packet, move_loop, move_rx_data_in_buffer}
use embedded_serial_filler.Utilities.Packets.{no_packet_lax, move_more}
use embedded_serial_filler.Incoming.Short.{Message, IsShort, wire, wires, wire_body}
use embedded_serial_filler.Incoming.Loop.{
  Receiver, Outcome, Outcomes, before, behind, loop, receive,
}
use embedded_serial_filler.Incoming.Loop.Fuel.{IsFit}
use embedded_serial_filler.Incoming.Loop.Pieces.{
  Onward, goes_on, stops, before-before, receive-Continues,
}

same_heads : {x y : ℕ} {xs ys : List ℕ} → x ∷ xs ≡ y ∷ ys → (x ≡ y) × (xs ≡ ys)
same_heads e = (cc, cc)

-- Where the bytes of a packet and what follows it are cut.
cut_packet :
    (body xs rest ws : List ℕ)
    → All IsNonzero body
    → xs ++ rest ≡ body ++ 0 ∷ ws
    → (All IsNonzero xs × (length xs ≤ length body))
      ⊎ ((ys : List ℕ) × (xs ≡ body ++ 0 ∷ ys) × (ys ++ rest ≡ ws))
cut_packet body [] rest ws c e = inl (tt, omega arith)
cut_packet [] (x ∷ xs) rest ws c e = inr (xs, ap (λ l. l ∷ xs) (same_heads e).0, (same_heads e).1)
cut_packet (b ∷ body) (x ∷ xs) rest ws c e =
    elim (cut_packet body xs rest ws c.1 (same_heads e).1) [
      | inl (n, l) ↦ inl ((omega (arith, (same_heads e).0, c.0), n), omega arith)
      | inr (ys, p, q) ↦ inr (ys, rw ((same_heads e).0, p) refl, q)
    ]

module _ (etl : Etl) (config : Config) (lax : config.reject_incomplete_packets ≡ false) where
  move_loop_nonzero :
      (xs rx : List ℕ)
      → All IsNonzero xs
      → length rx + length xs ≤ max_packet_size
      → move_loop etl config xs rx ≡ ok (no_packet etl config success (rx ++ xs))
  move_loop_nonzero [] rx c h =
      unfold move_loop in ap (λ l. ok (no_packet etl config success l)) (sym (append-nil rx))
  move_loop_nonzero (x ∷ xs) rx c h =
      move_more etl config x xs rx (omega arith) c.0
      ∙ move_loop_nonzero xs (rx ++ x ∷ []) c.1 (omega (arith, length-append rx (x ∷ [])))
      ∙ ap (λ l. ok (no_packet etl config success l)) (append_assoc rx (x ∷ []) xs)

  module _ (receiver : Receiver) (node : receiver.Node) (empty : receiver.buffer node ≡ []) where
    open receiver use {Node, Action, buffer, with_buffer}

    -- Bytes without a zero wait in the buffer.
    pub receive_nonzero :
        (xs : List ℕ)
        → IsFit xs
        → receive etl config receiver node xs
          ≡ ok (record { status = success; node = with_buffer node xs; rx_data = []; actions = [] })
    unfolding receive behind loop move_rx_data_in_buffer
    receive_nonzero xs fit =
        rw
          (
            empty,
            move_loop_nonzero xs [] fit.0 (omega (arith, fit.1)),
            no_packet_lax etl config success xs lax,
          )
          refl

    onwards :
        (ys : List ℕ) (g : Outcome receiver) (r : Outcomes etl config receiver)
        → g.status ≡ success
        → Onward etl config receiver ys g r
        → r ≡ before etl config receiver g.actions (receive etl config receiver g.node ys)
    onwards ys g r s (goes_on e fit h) = h
    onwards ys g r s (stops rx_data n h) = absurd (n s)

    before-nothing : (r : Outcomes etl config receiver) → before etl config receiver [] r ≡ r
    before-nothing (ok g) = refl
    before-nothing (fault e) = refl

    -- What is in the buffer might as well stand before the data.
    pub receive_buffered :
        (xs ys : List ℕ)
        → IsFit xs
        → receive etl config receiver node (xs ++ ys)
          ≡ receive etl config receiver (with_buffer node xs) ys
    receive_buffered xs ys fit =
        onwards ys _ _ refl (
          rw (receive_nonzero xs fit) at
            (receive-Continues etl config receiver lax node xs ys (rw empty (tt, omega arith))))
        ∙ before-nothing (receive etl config receiver (with_buffer node xs) ys)

    module _ (answer : Message → List Action)
        (one : (m : Message)
          → IsShort m
          → receive etl config receiver node (wire etl m)
            ≡ ok (record { status = success; node = node; rx_data = []; actions = answer m })) where
      abbrev pub all_answers : List Message → List Action
      all_answers [] = []
      all_answers (m ∷ ms) = answer m ++ all_answers ms

      -- Packets as a whole, and what is behind them.
      pub receive-wires :
          (ms : List Message) (rest : List ℕ)
          → All IsShort ms
          → receive etl config receiver node (wires etl ms ++ rest)
            ≡ before etl config receiver (all_answers ms) (receive etl config receiver node rest)
      receive-wires [] rest v = sym (before-nothing (receive etl config receiver node rest))
      receive-wires (m ∷ ms) rest v = rw (append_assoc (wire etl m) (wires etl ms) rest) (
          onwards (wires etl ms ++ rest) _ _ refl (
            rw (one m v.0) at (
              receive-Continues etl config receiver lax node (wire etl m) (wires etl ms ++ rest)
                (rw empty (tt, omega arith))))
          ∙ ap (before etl config receiver (answer m)) (receive-wires ms rest v.1)
          ∙ before-before etl config receiver (answer m) (all_answers ms)
              (receive etl config receiver node rest))

      -- The messages whose packets are there as a whole, those behind them, and the bytes in the buffer.
      pub record IsCut (pending : List Message) (xs rest : List ℕ) : Type 0 where
        pub now : List Message
        pub later : List Message
        pub rx_buffer : List ℕ
        pub split : pending ≡ now ++ later
        pub value :
            receive etl config receiver node xs
            ≡ ok (record {
              status = success;
              node = with_buffer node rx_buffer;
              rx_data = [];
              actions = all_answers now;
            })
        pub fit : IsFit rx_buffer
        pub left : rx_buffer ++ rest ≡ wires etl later

      longer :
          (m : Message) (ms : List Message) (xs ys rest : List ℕ)
          → All IsShort (m ∷ ms)
          → xs ≡ wire etl m ++ ys
          → IsCut ms ys rest
          → IsCut (m ∷ ms) xs rest
      longer m ms xs ys rest v e c = record {
        now = m ∷ c.now;
        later = c.later;
        rx_buffer = c.rx_buffer;
        split = ap (λ l. m ∷ l) c.split;
        value = rw e (
            onwards ys _ _ refl (
              rw (one m v.0) at (
                receive-Continues etl config receiver lax node (wire etl m) ys
                  (rw empty (tt, omega arith))))
            ∙ ap (before etl config receiver (answer m)) c.value);
        fit = c.fit;
        left = c.left;
      }

      pub receive-IsCut :
          (pending : List Message) (xs rest : List ℕ)
          → All IsShort pending
          → xs ++ rest ≡ wires etl pending
          → IsCut pending xs rest
      receive-IsCut [] (x ∷ xs) rest v e = absurd (omega (arith, ap length e))
      receive-IsCut [] [] rest v e = record {
        now = [];
        later = [];
        rx_buffer = [];
        split = refl;
        value = receive_nonzero [] (tt, omega arith);
        fit = (tt, omega arith);
        left = e;
      }
      receive-IsCut (m ∷ ms) xs rest v e =
          let (body, w, c, l) = wire_body etl m v.0 in
          elim (cut_packet body xs rest (wires etl ms) c
            (e ∙ ap (λ b. b ++ wires etl ms) w ∙ append_assoc body (0 ∷ []) (wires etl ms))) [
              | inl (n, k) ↦ record {
                now = [];
                later = m ∷ ms;
                rx_buffer = xs;
                split = refl;
                value = receive_nonzero xs (n, omega arith);
                fit = (n, omega arith);
                left = e;
              }
              | inr (ys, p, q) ↦
                  longer m ms xs ys rest v
                    (p ∙ sym (ap (λ b. b ++ ys) w ∙ append_assoc body (0 ∷ []) ys))
                    (receive-IsCut ms ys rest v.1 q)
            ]
