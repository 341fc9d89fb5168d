-- ===== src/Tests/Packets.antt =====
-- Sending and parsing of single packets at concrete inputs.
use embedded_serial_filler.Base.{◌+◌, ◌%◌, ◌≡◌, [], ◌∷◌, true, some, ok, arith}
use embedded_serial_filler.Definitions.{publish, to_byte}
use embedded_serial_filler.Cobs.Frame.{frame}
use embedded_serial_filler.Outgoing.{tx_data_ready, next_id, publish_internal}
use embedded_serial_filler.Outgoing.Contents.{
  IsPacketId, next_id-IsPacketId, contents, checked, sent, publish_internal-message,
}
use embedded_serial_filler.Incoming.{parse_packet}
use embedded_serial_filler.Incoming.Lengths.{stated, Outcome, parse_packet_lengths}
use embedded_serial_filler.Tests.Container.{test_etl}
use embedded_serial_filler.Tests.{fast, some_raw, some_topic}

next_id-IsPacketId_example : IsPacketId (next_id 255) × (next_id 255 ≡ 255 % 255 + 1)
next_id-IsPacketId_example = next_id-IsPacketId 255 (omega arith, omega arith)

publish_internal-message_example :
    publish_internal test_etl fast true publish 255 (some some_topic) (some some_raw)
    ≡ ok (record {
      ret_val = 255;
      packet_id = next_id 255;
      events =
          tx_data_ready (sent test_etl (contents (to_byte publish) 255 some_topic some_raw)) ∷ [];
    })
publish_internal-message_example =
    publish_internal-message test_etl fast true true 255 some_topic some_raw (omega arith)
      (omega arith)

parse_packet_lengths_example :
    Outcome test_etl fast true 3 4 some_raw
      (parse_packet test_etl fast (frame [] (checked test_etl (stated true 3 4 some_raw))))
parse_packet_lengths_example =
    parse_packet_lengths test_etl fast true 3 4 some_raw (omega arith) (omega arith) (omega arith)
      (omega arith)
