-- ===== src/Utilities/Cuts.antt =====
-- `MoveRxDataInBuffer` of src/Utilities.cpp on bytes that come in two pieces.
use embedded_serial_filler.Base.{
  ℕ, ◌≤◌, ◌<◌, ◌≡◌, refl, sym, ◌∙◌, ap, subst, List, [], ◌∷◌, ◌++◌, length, length-append, false,
  Result, ok, ok_inj, arith,
}
use native.Mathlib.Decide.{ℕ_discrete}
use embedded_serial_filler.Definitions.{Config, max_packet_size, success, rx_data_buffer_full}
use embedded_serial_filler.Etl.{Etl}
use embedded_serial_filler.Utilities.Receive.{
  Received, no_packet, move_loop, move_rx_data_in_buffer,
}
use embedded_serial_filler.Utilities.Packets.{no_packet_lax, move_full, move_zero, move_more}

-- How a call on `xs` goes on with `ys` behind them: the packet is found in `xs`; or all of `xs` goes to
-- the buffer; or the buffer is full.
pub data Cut (etl : Etl) (config : Config) (ys : List ℕ) (more : Result Received) (r : Received)
    : Type 0 where
  found :
      (x : ℕ) (packet : List ℕ)
      → r.status ≡ success
      → r.packet ≡ x ∷ packet
      → more ≡ ok (record r { new_rx_data = r.new_rx_data ++ ys })
      → Cut etl config ys more r
  pending :
      r.status ≡ success
      → r.packet ≡ []
      → r.new_rx_data ≡ []
      → more ≡ move_rx_data_in_buffer etl config ys r.rx_data_buffer
      → Cut etl config ys more r
  overflows : r.status ≡ rx_data_buffer_full → more ≡ ok r → Cut etl config ys more r

first_of : (xs : List ℕ) (z : ℕ) → (x : ℕ) × (rest : List ℕ) × (xs ++ z ∷ [] ≡ x ∷ rest)
first_of [] z = (z, [], refl)
first_of (x ∷ xs) z = (x, xs ++ z ∷ [], refl)

module _ (etl : Etl) (config : Config) (lax : config.reject_incomplete_packets ≡ false) where
  move_loop-Cut :
      (xs ys rx : List ℕ) (r : Received)
      → length rx ≤ max_packet_size
      → move_loop etl config xs rx ≡ ok r
      → Cut etl config ys (move_loop etl config (xs ++ ys) rx) r
  unfolding move_rx_data_in_buffer
  move_loop-Cut [] ys rx r fits e =
      subst (Cut etl config ys (move_loop etl config ys rx))
        (sym (no_packet_lax etl config success rx lax) ∙ ok_inj (unfold move_loop in e))
        (pending refl refl refl refl)
  move_loop-Cut (x ∷ xs) ys rx r fits e = elim (ℕ_discrete (length rx) max_packet_size) [
    | yes full ↦
        (let same : no_packet etl config rx_data_buffer_full rx ≡ r =
            ok_inj (sym (move_full etl config x xs rx full) ∙ e) in
          subst (Cut etl config ys (move_loop etl config (x ∷ xs ++ ys) rx)) same (
            overflows
              (ap (λ (s : Received). s.status)
                (no_packet_lax etl config rx_data_buffer_full rx lax))
              (move_full etl config x (xs ++ ys) rx full)))
    | no room ↦
        (let less : length rx < max_packet_size = omega arith in
          elim (ℕ_discrete x 0) [
            | yes zero ↦
                (let (y, rest, first) = first_of rx 0 in
                  subst (Cut etl config ys (move_loop etl config (x ∷ xs ++ ys) rx))
                    (ok_inj (sym (move_zero etl config xs rx less) ∙ (rw zero at e)))
                    (found y rest refl first (rw zero (move_zero etl config (xs ++ ys) rx less))))
            | no pos ↦
                subst (λ m. Cut etl config ys m r)
                  (sym (move_more etl config x (xs ++ ys) rx less (omega arith)))
                  (move_loop-Cut xs ys (rx ++ x ∷ []) r (omega (arith, length-append rx (x ∷ [])))
                    (sym (move_more etl config x xs rx less (omega arith)) ∙ e))
          ])
  ]

  -- A call on both pieces.
  pub move_rx_data_in_buffer-Cut :
      (xs ys rx : List ℕ) (r : Received)
      → length rx ≤ max_packet_size
      → move_rx_data_in_buffer etl config xs rx ≡ ok r
      → Cut etl config ys (move_rx_data_in_buffer etl config (xs ++ ys) rx) r
  unfolding move_rx_data_in_buffer
  move_rx_data_in_buffer-Cut xs ys rx r fits e = move_loop-Cut xs ys rx r fits e
