-- ===== src/Utilities/Crc.antt =====
-- `Utilities::AddCrc` and `Utilities::VerifyCrc` of src/Utilities.cpp.
use embedded_serial_filler.Base.{
  ℕ, ◌+◌, ◌-◌, ◌*◌, ◌/◌, ◌%◌, ◌^◌, List, length, take, get_or, ltb, ◌==◌, if◌then◌else◌, Result,
  ◌>>=◌,
}
use embedded_serial_filler.Definitions.{
  StatusCode, max_packet_size, min_bytes, success, not_enough_bytes, crc_check_failed,
}
use embedded_serial_filler.Etl.{Etl}

-- `( msb << 8 ) | lsb` of two bytes is their sum, since they share no bit.
abbrev pub sent_crc_val : List ℕ → ℕ
sent_crc_val packet =
    (get_or packet (length packet - 2) 0 % 256 * 2 ^ 8 + get_or packet (length packet - 1) 0 % 256)
    % 2 ^ 16

module _ (etl : Etl) where
  unfoldable pub add_crc : List ℕ → Result (List ℕ)
  add_crc packet = do
    let crc_val = etl.crc16_ccitt packet
    packet' ← etl.push_back ℕ max_packet_size packet (crc_val / 2 ^ 8 % 256)
    etl.push_back ℕ max_packet_size packet' (crc_val / 2 ^ 0 % 256)

  -- Both reads lie inside a packet of at least `ESF_MIN_BYTES`.
  unfoldable pub verify_crc : List ℕ → StatusCode
  verify_crc packet =
      if ltb (length packet) min_bytes
      then not_enough_bytes
      else if sent_crc_val packet == etl.crc16_ccitt (take (length packet - 2) packet)
      then success
      else crc_check_failed
