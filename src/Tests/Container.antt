-- ===== src/Tests/Container.antt =====
-- A concrete library of containers, with the documented behaviour: within the capacity an element is
-- added, and beyond it the call faults. The checksum is the sum of the bytes, which is all that the
-- tests need of one.
use embedded_serial_filler.Base.{
  ℕ, ◌+◌, ◌-◌, ◌%◌, ◌^◌, ◌≤◌, ◌<◌, ◌≡◌, refl, List, [], ◌∷◌, ◌++◌, length, length-append,
  length-replicate, take, take-append, take_all, replicate, ltb, leb, if◌then◌else◌, Result, ok,
  fault, vector_full, arith,
}
use embedded_serial_filler.Definitions.{max_packet_size, max_topic_length}
use embedded_serial_filler.Etl.{Etl}

abbrev add_last : (A : Type 0) → ℕ → List A → A → Result (List A)
add_last A capacity xs x = if ltb (length xs) capacity then ok (xs ++ x ∷ []) else fault vector_full

pub add_last_fits :
    (A : Type 0) (capacity : ℕ) (xs : List A) (x : A)
    → length xs < capacity
    → add_last A capacity xs x ≡ ok (xs ++ x ∷ [])
add_last_fits A capacity xs x h = ground arith

abbrev add_all : List ℕ → List ℕ → Result (List ℕ)
add_all xs ys =
    if leb (length xs + length ys) max_packet_size then ok (xs ++ ys) else fault vector_full

pub add_all_fits :
    (xs ys : List ℕ) → length xs + length ys ≤ max_packet_size → add_all xs ys ≡ ok (xs ++ ys)
add_all_fits xs ys h = ground arith

abbrev make_size : List ℕ → ℕ → Result (List ℕ)
make_size xs n =
    if leb n max_packet_size
    then ok (take n xs ++ replicate (n - length xs) 0)
    else fault vector_full

pub make_size_fits :
    (xs : List ℕ) (n : ℕ)
    → n ≤ max_packet_size
    → make_size xs n ≡ ok (take n xs ++ replicate (n - length xs) 0)
make_size_fits xs n h = ground arith

abbrev storage : List ℕ → List ℕ
storage xs = xs ++ replicate (max_packet_size - length xs) 0

abbrev sum : List ℕ → ℕ
sum [] = 0
sum (x ∷ xs) = x + sum xs

pub sum_bound : (xs : List ℕ) → sum xs % 2 ^ 16 < 2 ^ 16
sum_bound xs = omega arith

abbrev pub test_etl : Etl
test_etl = record {
  push_back = add_last;
  push_back_fits = add_last_fits;
  insert_end = add_all;
  insert_end_fits = add_all_fits;
  resize = make_size;
  resize_fits = make_size_fits;
  memory = storage;
  memory_prefix =
      λ xs h. take-append (length xs) xs (replicate (max_packet_size - length xs) 0) refl;
  length-memory = λ xs h. omega (
    arith,
    length-append xs (replicate (max_packet_size - length xs) 0),
    length-replicate {A = ℕ} (max_packet_size - length xs) 0,
  );
  assign_string = take max_topic_length;
  assign_string_fits = λ xs h. take_all max_topic_length xs h;
  crc16_ccitt = λ xs. sum xs % 2 ^ 16;
  crc16_ccitt_bound = sum_bound;
}
