-- ===== src/Etl.antt =====
-- What the program relies on of the Embedded Template Library (the git submodule etl): the
-- documented behaviour of `etl::vector`, `etl::string` and `etl::crc16_ccitt`. A sequence container
-- is the list of its elements. A law speaks only of calls within the container's capacity; what a
-- call beyond it does depends on how ETL is built, and stays open.
use embedded_serial_filler.Base.{
  ℕ, ◌+◌, ◌-◌, ◌≤◌, ◌<◌, ◌^◌, ◌≡◌, List, [], ◌∷◌, ◌++◌, length, take, replicate, Result, ok,
}
use embedded_serial_filler.Definitions.{max_packet_size, max_topic_length}

pub record Etl : Type 1 where
  -- `push_back`, `emplace_back` on a vector of the given capacity.
  pub push_back : (A : Type 0) → ℕ → List A → A → Result (List A)
  pub push_back_fits :
      (A : Type 0) (capacity : ℕ) (xs : List A) (x : A)
      → length xs < capacity
      → push_back A capacity xs x ≡ ok (xs ++ x ∷ [])
  -- `v.insert( v.end(), first, last )` on a `ByteArray`.
  pub insert_end : List ℕ → List ℕ → Result (List ℕ)
  pub insert_end_fits :
      (xs ys : List ℕ) → length xs + length ys ≤ max_packet_size → insert_end xs ys ≡ ok (xs ++ ys)
  -- `resize` on a `ByteArray`: new elements are zero.
  pub resize : List ℕ → ℕ → Result (List ℕ)
  pub resize_fits :
      (xs : List ℕ) (n : ℕ)
      → n ≤ max_packet_size
      → resize xs n ≡ ok (take n xs ++ replicate (n - length xs) 0)
  -- The memory behind `data()`: the elements, and then the rest of the fixed storage.
  pub memory : List ℕ → List ℕ
  pub memory_prefix :
      (xs : List ℕ) → length xs ≤ max_packet_size → take (length xs) (memory xs) ≡ xs
  pub length-memory :
      (xs : List ℕ) → length xs ≤ max_packet_size → length (memory xs) ≡ max_packet_size
  -- `s.clear()` and `s.insert( s.end(), first, last )` on a `Topic`.
  pub assign_string : List ℕ → List ℕ
  pub assign_string_fits : (xs : List ℕ) → length xs ≤ max_topic_length → assign_string xs ≡ xs
  -- `crc16_ccitt( first, last )`, a 16-bit number.
  pub crc16_ccitt : List ℕ → ℕ
  pub crc16_ccitt_bound : (xs : List ℕ) → crc16_ccitt xs < 2 ^ 16
