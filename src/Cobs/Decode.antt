-- ===== src/Cobs/Decode.antt =====
-- The two decoders of src/CobsTranscoder.cpp. Both walk over `encodedData` from the front; `rest` is
-- the encoded data from `encodedDataPos` on.
use embedded_serial_filler.Base.{
  ℕ, zero, suc, ◌+◌, ◌-◌, ◌/◌, ◌%◌, List, [], ◌∷◌, length, take, ltb, ◌==◌, if◌then◌else◌, Result,
  ok, fault, out_of_bounds, fuel, ◌>>=◌, write,
}
use embedded_serial_filler.Definitions.{
  Config, StatusCode, success, not_enough_bytes, zero_byte_not_expected, max_packet_size, min_bytes,
  size_t_mod,
}
use embedded_serial_filler.Etl.{Etl}

-- `encodedData[ encodedDataPos ]`.
unfoldable pub head : List ℕ → Result ℕ
head [] = fault out_of_bounds
head (x ∷ rest) = ok x

abbrev pub tail : List ℕ → List ℕ
tail [] = []
tail (x ∷ rest) = rest

-- The loop over one block returns from the function, or ends.
pub data Copied : Type 0 where
  zero_found : List ℕ → Copied
  -- `rest`, `encodedDataPos`, `decodedDataPos`, and the memory of `decodedData`.
  copied : List ℕ → ℕ → ℕ → List ℕ → Copied

unfoldable pub copy_block : List ℕ → ℕ → ℕ → ℕ → ℕ → List ℕ → Result Copied
copy_block [] i elements_in_block pos decoded_pos decoded =
    if ltb i elements_in_block then fault out_of_bounds else ok (copied [] pos decoded_pos decoded)
copy_block (x ∷ rest) i elements_in_block pos decoded_pos decoded =
    if ltb i elements_in_block
    then (if x == 0 then ok (zero_found decoded) else (do
      decoded' ← write decoded decoded_pos x
      copy_block rest (i + 1) elements_in_block (pos + 1) (decoded_pos + 1) decoded'))
    else ok (copied (x ∷ rest) pos decoded_pos decoded)

-- A zero between two blocks. It is written at `encodedDataPos`.
unfoldable pub add_zero : ℕ → ℕ → ℕ → List ℕ → Result (List ℕ × ℕ)
add_zero elements_in_block pos decoded_pos decoded =
    if ltb elements_in_block 0xFE
    then (do decoded' ← write decoded pos 0; ok (decoded', decoded_pos + 1))
    else ok (decoded, decoded_pos)

-- `encodedData[ encodedDataPos ] - 1` is an `int` that becomes a `size_t`.
abbrev pub block_size : ℕ → ℕ
block_size x = (x + size_t_mod - 1) % size_t_mod

-- A round of the outer loop returns, breaks off with SUCCESS, or goes on.
pub data Round : Type 0 where
  finished : StatusCode → List ℕ → Round
  more : List ℕ → ℕ → ℕ → List ℕ → Round

-- The round behind the copy loop: look for the end of the packet.
unfoldable pub after_block : ℕ → Copied → Result Round
after_block elements_in_block (zero_found decoded) = ok (finished zero_byte_not_expected decoded)
after_block elements_in_block (copied rest pos decoded_pos decoded) = do
  y ← head rest
  if y == 0 then ok (finished success decoded) else (do
    next ← add_zero elements_in_block pos decoded_pos decoded
    ok (more rest pos next.1 next.0))

unfoldable pub decode_round : List ℕ → ℕ → ℕ → List ℕ → Result Round
decode_round rest pos decoded_pos decoded = do
  x ← head rest
  block ← copy_block (tail rest) 0 (block_size x) (pos + 1) decoded_pos decoded
  after_block (block_size x) block

-- The outer loop, with fuel for its rounds.
unfoldable pub decode_loop : ℕ → ℕ → List ℕ → ℕ → ℕ → List ℕ → Result (StatusCode × List ℕ)
decode_loop zero length_ rest pos decoded_pos decoded = fault fuel
decode_loop (suc f) length_ rest pos decoded_pos decoded =
    if ltb pos length_
    then (decode_round rest pos decoded_pos decoded >>= elim [
      | finished s decoded' ↦ ok (s, decoded')
      | more rest' pos' decoded_pos' decoded' ↦
          decode_loop f length_ rest' pos' decoded_pos' decoded'
    ])
    else ok (success, decoded)

-- `Decode( const uint8_t*, size_t, uint8_t* )`. Every round but the last moves on, so the length is
-- fuel enough.
unfoldable pub decode_bytes : List ℕ → ℕ → List ℕ → Result (StatusCode × List ℕ)
decode_bytes encoded_data length_ decoded_data =
    decode_loop (suc length_) length_ encoded_data 0 0 decoded_data

-- How many elements the decoded data is given for so many encoded ones.
abbrev pub decoded_size : ℕ → ℕ
decoded_size n = n - 2 - (n - 2 - (n - 2) / 254) / 254

-- The version without `ESF_OPTIMISE`, on the elements of the containers.
pub data VectorCopied : Type 0 where
  zero_found : VectorCopied
  copied : List ℕ → ℕ → List ℕ → VectorCopied

pub data VectorRound : Type 0 where
  finished : StatusCode → List ℕ → VectorRound
  more : List ℕ → ℕ → List ℕ → VectorRound

module _ (etl : Etl) where
  unfoldable pub copy_vector_block : List ℕ → ℕ → ℕ → ℕ → List ℕ → Result VectorCopied
  copy_vector_block [] i num_elements pos decoded =
      if ltb i num_elements then fault out_of_bounds else ok (copied [] pos decoded)
  copy_vector_block (x ∷ rest) i num_elements pos decoded =
      if ltb i num_elements
      then (if x == 0 then ok zero_found else (do
        decoded' ← etl.push_back ℕ max_packet_size decoded x
        copy_vector_block rest (i + 1) num_elements (pos + 1) decoded'))
      else ok (copied (x ∷ rest) pos decoded)

  unfoldable pub add_vector_zero : ℕ → List ℕ → Result (List ℕ)
  add_vector_zero num_elements decoded =
      if ltb num_elements 0xFE then etl.push_back ℕ max_packet_size decoded 0 else ok decoded

  unfoldable pub after_vector_block : ℕ → VectorCopied → Result VectorRound
  after_vector_block num_elements zero_found = ok (finished zero_byte_not_expected [])
  after_vector_block num_elements (copied rest pos decoded) = do
    y ← head rest
    if y == 0
        then ok (finished success decoded)
        else (do next ← add_vector_zero num_elements decoded; ok (more rest pos next))

  -- `int numElementsInBlock` is -1 for a count of 0, and 0 here: both end the block at once, and
  -- both are below 0xFE.
  unfoldable pub decode_vector_round : List ℕ → ℕ → List ℕ → Result VectorRound
  decode_vector_round rest pos decoded = do
    x ← head rest
    block ← copy_vector_block (tail rest) 0 (x - 1) (pos + 1) decoded
    after_vector_block (x - 1) block

  unfoldable pub decode_vector_loop : ℕ → ℕ → List ℕ → ℕ → List ℕ → Result (StatusCode × List ℕ)
  decode_vector_loop zero size rest pos decoded = fault fuel
  decode_vector_loop (suc f) size rest pos decoded =
      if ltb pos size
      then (decode_vector_round rest pos decoded >>= elim [
        | finished s decoded' ↦ ok (s, decoded')
        | more rest' pos' decoded' ↦ decode_vector_loop f size rest' pos' decoded'
      ])
      else ok (success, decoded)

  unfoldable pub decode_vector : List ℕ → Result (StatusCode × List ℕ)
  decode_vector encoded_data =
      decode_vector_loop (suc (length encoded_data)) (length encoded_data) encoded_data 0 []

  -- The call of the pointer version on the pre-sized container.
  unfoldable pub decode_in_place : List ℕ → List ℕ → Result (StatusCode × List ℕ)
  decode_in_place encoded_data decoded_data = do
    sized ← etl.resize decoded_data (decoded_size (length encoded_data))
    r ← decode_bytes (etl.memory encoded_data) (length encoded_data) (etl.memory sized)
    ok (r.0, take (length sized) r.1)

  -- `Decode( const ByteArray&, ByteArray& )`: the status and the new elements of `decodedData`.
  unfoldable pub decode : Config → List ℕ → List ℕ → Result (StatusCode × List ℕ)
  decode config encoded_data decoded_data =
      if config.optimise
      then (if ltb (length encoded_data) min_bytes
          then ok (not_enough_bytes, decoded_data)
          else decode_in_place encoded_data decoded_data)
      else decode_vector encoded_data
