-- ===== src/Utilities/Receive.antt =====
-- `Utilities::MoveRxDataInBuffer` of src/Utilities.cpp. The loop stands before `rest`, what
-- `newRxData` holds from `idx` on.
use embedded_serial_filler.Base.{ℕ, List, [], ◌∷◌, length, ◌==◌, if◌then◌else◌, Result, ok, ◌>>=◌}
use embedded_serial_filler.Definitions.{
  Config, StatusCode, max_packet_size, success, rx_data_buffer_full, packet_incomplete,
}
use embedded_serial_filler.Etl.{Etl}

-- The return value, and what the three containers hold afterwards.
pub record Received : Type 0 where
  pub status : StatusCode
  pub new_rx_data : List ℕ
  pub rx_data_buffer : List ℕ
  pub packet : List ℕ

module _ (etl : Etl) (config : Config) where
  -- `for( ; iter < endIter; ++iter ) packet.emplace_back( *iter )`.
  unfoldable pub append_each : List ℕ → List ℕ → Result (List ℕ)
  append_each packet [] = ok packet
  append_each packet (x ∷ xs) =
      etl.push_back ℕ max_packet_size packet x >>= λ packet'. append_each packet' xs

  -- The end-of-packet byte has been found; `rest` is what follows it.
  unfoldable pub end_of_packet : List ℕ → List ℕ → Result Received
  end_of_packet rest rx_data_buffer = do
    packet ←
        if config.optimise then append_each [] rx_data_buffer else etl.insert_end [] rx_data_buffer
    ok (record { status = success; new_rx_data = rest; rx_data_buffer = []; packet = packet })

  -- The statements behind the loop.
  unfoldable pub no_packet : StatusCode → List ℕ → Received
  no_packet ret_val rx_data_buffer =
      if config.reject_incomplete_packets
      then record { status = packet_incomplete; new_rx_data = []; rx_data_buffer = []; packet = [] }
      else record {
        status = ret_val;
        new_rx_data = [];
        rx_data_buffer = rx_data_buffer;
        packet = [];
      }

  unfoldable pub move_loop : List ℕ → List ℕ → Result Received
  move_loop [] rx_data_buffer = ok (no_packet success rx_data_buffer)
  move_loop (byte_of_data ∷ rest) rx_data_buffer =
      if length rx_data_buffer == max_packet_size
      then ok (no_packet rx_data_buffer_full rx_data_buffer)
      else (do
        rx_data_buffer' ← etl.push_back ℕ max_packet_size rx_data_buffer byte_of_data
        let further = move_loop rest rx_data_buffer'
        if byte_of_data == 0 then end_of_packet rest rx_data_buffer' else further)

  -- `packet` is cleared first, so its old elements play no part.
  unfoldable pub move_rx_data_in_buffer : List ℕ → List ℕ → Result Received
  move_rx_data_in_buffer new_rx_data rx_data_buffer = move_loop new_rx_data rx_data_buffer
