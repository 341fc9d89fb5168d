-- ===== src/Tests/Utilities.antt =====
-- src/Utilities.cpp at concrete inputs.
use embedded_serial_filler.Base.{
  ℕ, ◌≡◌, refl, [], ◌∷◌, ◌++◌, replicate, length-replicate, ok, arith,
}
use embedded_serial_filler.Definitions.{rx_data_buffer_full}
use embedded_serial_filler.Utilities.Receive.{Received, move_rx_data_in_buffer}
use embedded_serial_filler.Utilities.Packets.{
  IsReceived, move_rx_data_in_buffer-IsReceived, full_buffer_stays_full,
}
use embedded_serial_filler.Tests.Container.{test_etl}
use embedded_serial_filler.Tests.{fast, some_body}

move_rx_data_in_buffer-IsReceived_example :
    (r : Received) × (move_rx_data_in_buffer test_etl fast (7 ∷ (0 ∷ (2 ∷ []))) some_body ≡ ok r)
    × IsReceived (7 ∷ (0 ∷ (2 ∷ []))) some_body r
move_rx_data_in_buffer-IsReceived_example =
    move_rx_data_in_buffer-IsReceived test_etl fast (7 ∷ (0 ∷ (2 ∷ []))) some_body (omega arith)
      (omega arith)

full_buffer_stays_full_example :
    (r : Received) × (move_rx_data_in_buffer test_etl fast
        (some_body ++ 1 ∷ (0 ∷ []))
        (replicate 1020 1)
      ≡ ok r)
    × (r.status ≡ rx_data_buffer_full)
    × (r.new_rx_data ≡ [])
    × (move_rx_data_in_buffer test_etl fast (0 ∷ some_body) r.rx_data_buffer ≡ ok r)
full_buffer_stays_full_example =
    full_buffer_stays_full test_etl fast some_body 1 (0 ∷ []) (replicate 1020 1) 0 some_body refl
      (omega arith) (omega (arith, length-replicate {A = ℕ} 1020 1))
