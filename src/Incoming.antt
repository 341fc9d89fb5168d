-- ===== src/Incoming.antt =====
-- What `GiveRxData` of both profiles makes of one packet: the COBS decoding, the checksum, the packet
-- type, and the split into topic and data.
pub mod Accepts
pub mod Short
pub mod Lengths
pub mod Total
pub mod Loop
use embedded_serial_filler.Base.{
  ℕ, List, [], get_or, Bool, true, false, if◌then◌else◌, Result, ok, ◌>>=◌,
}
use embedded_serial_filler.Definitions.{
  Config, PacketType, broadcast, ack, publish, of_byte, StatusCode, success,
  unrecognised_packet_type,
}
use embedded_serial_filler.Etl.{Etl}
use embedded_serial_filler.Cobs.Decode.{decode}
use embedded_serial_filler.Utilities.Crc.{verify_crc}
use embedded_serial_filler.Utilities.Split.{Parts, split_packet}

abbrev pub is_success : StatusCode → Bool
is_success success = true
is_success _ = false

-- The packet ends the call with a status; or it carries data, and wants an acknowledgement or not;
-- or it is an acknowledgement.
pub data Parsed : Type 0 where
  refused : StatusCode → Parsed
  message : Bool → ℕ → List ℕ → List ℕ → Parsed
  acknowledged : ℕ → Parsed

unfoldable pub to_message : Bool → ℕ → Parts → Parsed
to_message wants_ack packet_id parts =
    if is_success parts.status
    then message wants_ack packet_id parts.topic parts.payload
    else refused parts.status

module _ (etl : Etl) (config : Config) where
  -- The container of the packet is used again for the data.
  unfoldable pub by_type : PacketType → ℕ → List ℕ → List ℕ → Result Parsed
  by_type broadcast packet_id decoded_data packet =
      split_packet etl decoded_data 2 [] packet >>= λ parts. ok (to_message false packet_id parts)
  by_type publish packet_id decoded_data packet =
      split_packet etl decoded_data 2 [] packet >>= λ parts. ok (to_message true packet_id parts)
  by_type ack packet_id decoded_data packet = ok (acknowledged packet_id)
  by_type _ packet_id decoded_data packet = ok (refused unrecognised_packet_type)

  -- A packet that passes `VerifyCrc` has the two bytes that are read here.
  unfoldable pub parse_decoded : List ℕ → List ℕ → Result Parsed
  parse_decoded decoded_data packet =
      let result = verify_crc etl decoded_data in
      if is_success result
      then by_type (of_byte (get_or decoded_data 0 0)) (get_or decoded_data 1 0) decoded_data packet
      else ok (refused result)

  unfoldable pub parse_packet : List ℕ → Result Parsed
  parse_packet packet = do
    (result, decoded_data) ← decode etl config packet []
    if is_success result then parse_decoded decoded_data packet else ok (refused result)
