-- ===== src/Cobs/Encode.antt =====
-- The two encoders of src/CobsTranscoder.cpp. The pointer version works on the memory from
-- `encodedData` on, the other one on the elements of the container. Every index is checked against
-- that memory, so the `size_t` counters never come near their limit.
use embedded_serial_filler.Base.{
  ℕ, ◌+◌, ◌-◌, ◌/◌, ◌%◌, List, [], ◌∷◌, length, take, ◌==◌, if◌then◌else◌, Result, ok, ◌>>=◌, write,
}
use embedded_serial_filler.Definitions.{Config}
use embedded_serial_filler.Etl.{Etl}

-- The variables of `Encode( const uint8_t*, size_t, uint8_t* )`.
pub record Encoder : Type 0 where
  pub start_of_block : ℕ
  pub elements_in_block : ℕ
  pub encoded_data_size : ℕ
  pub encoded_data : List ℕ

-- Fill in the count of the block, and open the next one behind it.
unfoldable pub next_block : Encoder → Result Encoder
next_block e = do
  counted ← write e.encoded_data e.start_of_block ((e.elements_in_block + 1) % 256)
  opened ← write counted e.encoded_data_size 0
  ok (record {
    start_of_block = e.encoded_data_size;
    elements_in_block = 0;
    encoded_data_size = e.encoded_data_size + 1;
    encoded_data = opened;
  })

-- One round of the loop, for the byte `rawData[ i ]`.
unfoldable pub encode_byte : Encoder → ℕ → Result Encoder
encode_byte e x = if x == 0 then next_block e else (do
  copied ← write e.encoded_data e.encoded_data_size x
  let e' = record e {
    elements_in_block = (e.elements_in_block + 1) % 256;
    encoded_data_size = e.encoded_data_size + 1;
    encoded_data = copied;
  }
  if e'.elements_in_block == 254 then next_block e' else ok e')

unfoldable pub encode_loop : List ℕ → Encoder → Result Encoder
encode_loop [] e = ok e
encode_loop (x ∷ xs) e = encode_byte e x >>= λ e'. encode_loop xs e'

-- The count of the last block, and the terminator.
unfoldable pub finish : Encoder → Result (List ℕ)
finish e = do
  counted ← write e.encoded_data e.start_of_block ((e.elements_in_block + 1) % 256)
  write counted e.encoded_data_size 0

unfoldable pub encode_bytes : List ℕ → List ℕ → Result (List ℕ)
encode_bytes raw_data encoded_data = do
  opened ← write encoded_data 0 0
  e ← encode_loop raw_data (record {
    start_of_block = 0;
    elements_in_block = 0;
    encoded_data_size = 1;
    encoded_data = opened;
  })
  finish e

-- The variables of the version without `ESF_OPTIMISE`; `encoded_iter` is the index that the iterator
-- stands at.
pub record VectorEncoder : Type 0 where
  pub start_of_curr_block : ℕ
  pub num_elements_in_curr_block : ℕ
  pub encoded_iter : ℕ
  pub encoded_data_size : ℕ
  pub encoded_data : List ℕ

unfoldable pub next_vector_block : VectorEncoder → Result VectorEncoder
next_vector_block e = do
  counted ← write e.encoded_data e.start_of_curr_block ((e.num_elements_in_curr_block + 1) % 256)
  opened ← write counted e.encoded_iter 0
  ok (record {
    start_of_curr_block = e.encoded_data_size + 1 - 1;
    num_elements_in_curr_block = 0;
    encoded_iter = e.encoded_iter + 1;
    encoded_data_size = e.encoded_data_size + 1;
    encoded_data = opened;
  })

unfoldable pub encode_vector_byte : VectorEncoder → ℕ → Result VectorEncoder
encode_vector_byte e x = if x == 0 then next_vector_block e else (do
  copied ← write e.encoded_data e.encoded_iter x
  let e' = record e {
    num_elements_in_curr_block = (e.num_elements_in_curr_block + 1) % 256;
    encoded_iter = e.encoded_iter + 1;
    encoded_data_size = e.encoded_data_size + 1;
    encoded_data = copied;
  }
  if e'.num_elements_in_curr_block == 254 then next_vector_block e' else ok e')

unfoldable pub encode_vector_loop : List ℕ → VectorEncoder → Result VectorEncoder
encode_vector_loop [] e = ok e
encode_vector_loop (x ∷ xs) e = encode_vector_byte e x >>= λ e'. encode_vector_loop xs e'

unfoldable pub finish_vector : VectorEncoder → Result (List ℕ)
finish_vector e = do
  counted ← write e.encoded_data e.start_of_curr_block ((e.num_elements_in_curr_block + 1) % 256)
  write counted e.encoded_iter 0

-- `encodedData` has been resized.
unfoldable pub encode_vector : List ℕ → List ℕ → Result (List ℕ)
encode_vector raw_data encoded_data = do
  opened ← write encoded_data 0 0
  e ← encode_vector_loop raw_data (record {
    start_of_curr_block = 0;
    num_elements_in_curr_block = 0;
    encoded_iter = 1;
    encoded_data_size = 1;
    encoded_data = opened;
  })
  finish_vector e

-- The call of the pointer version on `encodedData.data()`.
unfoldable pub encode_in_place : Etl → List ℕ → List ℕ → Result (List ℕ)
encode_in_place etl raw_data sized = do
  filled ← encode_bytes raw_data (etl.memory sized)
  ok (take (length sized) filled)

-- `Encode( const ByteArray&, ByteArray& )`: the new elements of `encodedData`.
unfoldable pub encode : Etl → Config → List ℕ → List ℕ → Result (List ℕ)
encode etl config raw_data encoded_data = do
  sized ← etl.resize encoded_data (2 + length raw_data + length raw_data / 254)
  if config.optimise then encode_in_place etl raw_data sized else encode_vector raw_data sized
