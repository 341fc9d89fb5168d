-- ===== src/Definitions.antt =====
-- include/EmbeddedSerialFiller/Definitions.h: the build switches, the enumerations, and their bytes;
-- `StatusCodeToString` of src/Utilities.cpp.
use Prim.Native.String.{String}
use embedded_serial_filler.Base.{ℕ, ◌^◌, ◌==◌, if◌then◌else◌, Bool}

-- `ESF_MAX_PACKET_SIZE`, the capacity of a `ByteArray`.
abbrev pub max_packet_size : ℕ
max_packet_size = 1024

-- `ESF_MAX_TOPIC_LENGTH`, the capacity of a `Topic`.
abbrev pub max_topic_length : ℕ
max_topic_length = 16

-- `ESF_MAX_SUBSCRIBERS`, the capacity of the subscriber lists.
abbrev pub max_subscribers : ℕ
max_subscribers = 8

-- `ESF_MAX_PENDING_ACKS`.
abbrev pub max_pending_acks : ℕ
max_pending_acks = 8

-- `ESF_MIN_BYTES`.
abbrev pub min_bytes : ℕ
min_bytes = 3

-- One more than the largest `size_t` of the x86-64 build.
abbrev pub size_t_mod : ℕ
size_t_mod = 2 ^ 64

-- The switches `ESF_OPTIMISE` (on unless the header is edited), `ESF_MINIMAL_IMPLEMENTATION` (always
-- on with `PROFILE_NO_RTOS`, and otherwise off unless the header is edited), and
-- `ESF_REJECT_INCOMPLETE_PACKETS` (off unless it is).
pub record Config : Type 0 where
  pub optimise : Bool
  pub minimal_implementation : Bool
  pub reject_incomplete_packets : Bool

-- `enum class PacketType : uint8_t`; `unnamed b` is a value of the underlying type that has no
-- enumerator, as a cast from a received byte may give.
pub data PacketType : Type 0 where
  unknown broadcast ack publish : PacketType
  unnamed : ℕ → PacketType

-- `static_cast<uint8_t>( packetType )`.
unfoldable pub to_byte : PacketType → ℕ
to_byte unknown = 0x0
to_byte broadcast = 0x42
to_byte ack = 0x41
to_byte publish = 0x50
to_byte (unnamed b) = b

-- `static_cast<PacketType>( byte )`.
unfoldable pub of_byte : ℕ → PacketType
of_byte b =
    if b == 0x0
    then unknown
    else if b == 0x42
    then broadcast
    else if b == 0x41
    then ack
    else if b == 0x50
    then publish
    else unnamed b

pub data PublishResponse : Type 0 where
  unknown success pending timeout : PublishResponse

pub data StatusCode : Type 0 where
  success crc_check_failed not_enough_bytes unrecognised_packet_type unexpected_ack : StatusCode
  length_of_topic_too_long unrecognised_subscriber zero_byte_not_expected : StatusCode
  rx_data_buffer_full packet_incomplete : StatusCode

unfoldable pub status_code_to_string : StatusCode → String
status_code_to_string success = "SUCCESS"
status_code_to_string crc_check_failed = "ERROR_CRC_CHECK_FAILED"
status_code_to_string not_enough_bytes = "ERROR_NOT_ENOUGH_BYTES"
status_code_to_string unrecognised_packet_type = "ERROR_UNRECOGNISED_PACKET_TYPE"
status_code_to_string unexpected_ack = "ERROR_UNEXPECTED_ACK"
status_code_to_string length_of_topic_too_long = "ERROR_LENGTH_OF_TOPIC_TOO_LONG"
status_code_to_string unrecognised_subscriber = "ERROR_UNRECOGNISED_SUBSCRIBER"
status_code_to_string zero_byte_not_expected = "ERROR_ZERO_BYTE_NOT_EXPECTED"
status_code_to_string rx_data_buffer_full = "ERROR_RX_DATA_BUFFER_FULL"
status_code_to_string packet_incomplete = "ERROR_PACKET_INCOMPLETE"
