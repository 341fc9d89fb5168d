-- ===== src/Tests/Cobs.antt =====
-- src/CobsTranscoder.cpp at concrete inputs.
use embedded_serial_filler.Base.{
  ℕ, ◌+◌, ◌-◌, ◌/◌, ◌≤◌, ◌≡◌, ◌↔◌, refl, [], ◌∷◌, ◌++◌, length, take, zeros, ok, ◌>>=◌, arith,
}
use embedded_serial_filler.Definitions.{success}
use embedded_serial_filler.Cobs.Encode.{encode}
use embedded_serial_filler.Cobs.Decode.{decode, decoded_size}
use embedded_serial_filler.Cobs.Frame.{frame, full_blocks}
use embedded_serial_filler.Cobs.Encoded.{padding, encode-frame}
use embedded_serial_filler.Cobs.Presized.{decode-encode, decode-packet}
use embedded_serial_filler.Cobs.Safety.{SameStatus, decode-SameStatus}
use embedded_serial_filler.Tests.Container.{test_etl}
use embedded_serial_filler.Tests.{fast, slow, some_raw, some_body}

decode-encode_example :
    (encode test_etl fast some_raw [] >>= λ encoded. decode test_etl slow encoded [])
    ≡ ok (success, some_raw)
decode-encode_example =
    decode-encode test_etl fast slow some_raw (omega arith) (omega arith) (omega arith)

decode-packet_example :
    (n : ℕ) × (decode test_etl fast (frame [] some_raw) [] ≡ ok (success, take n some_raw))
    × ((take n some_raw ≡ some_raw) ↔ ((length some_raw - 1) / 254 ≤ full_blocks 0 some_raw))
decode-packet_example =
    decode-packet test_etl fast some_raw refl (omega arith) (omega arith) (omega arith)

decode-SameStatus_example :
    SameStatus
      (decoded_size (length some_body + 1))
      (decode test_etl slow (some_body ++ 0 ∷ []) [])
      (decode test_etl fast (some_body ++ 0 ∷ []) [])
decode-SameStatus_example =
    decode-SameStatus test_etl fast slow some_body refl refl (omega arith) (omega arith)
      (omega arith)

encode-frame_example :
    encode test_etl fast some_raw [] ≡ ok (frame [] some_raw ++ zeros (padding some_raw))
encode-frame_example = encode-frame test_etl fast some_raw (omega arith)
