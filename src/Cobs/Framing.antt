-- ===== src/Cobs/Framing.antt =====
-- Both encoders write the frame of the raw data, and nothing else.
use embedded_serial_filler.Base.{
  ℕ, suc, ◌+◌, ◌%◌, ◌≤◌, ◌<◌, ◌≡◌, refl, List, [], ◌∷◌, ◌++◌, length, drop, write_lem,
  length-append, append_assoc, Result, Result-cases, inl, inr, ok, fault, ◌>>=◌, write,
  write-append, arith,
}
use embedded_serial_filler.Cobs.Encode.{
  Encoder, VectorEncoder, next_block, encode_byte, encode_loop, finish, encode_bytes,
  next_vector_block, encode_vector_byte, encode_vector_loop, finish_vector, encode_vector,
}
use embedded_serial_filler.Cobs.Frame.{
  frame, full_blocks, frame_nil, full_blocks_nil, frame_zero, frame_full, frame_more,
  full_blocks_zero, full_blocks_full, full_blocks_more, zero_byte, full, more, cases, length-snoc,
  length-frame,
}

-- The encoder behind the blocks `done`, inside a block of which `block` is written, with the memory
-- `slack` ahead of it; `p` is the placeholder of the block's count.
abbrev encoder : List ℕ → ℕ → List ℕ → List ℕ → Encoder
encoder done p block slack = record {
  start_of_block = length done;
  elements_in_block = length block;
  encoded_data_size = length done + suc (length block);
  encoded_data = done ++ (p ∷ (block ++ slack));
}

-- Writing at `encodedDataSize`.
write_next :
    (done : List ℕ) (p : ℕ) (block : List ℕ) (y : ℕ) (slack : List ℕ) (v : ℕ)
    → write (done ++ (p ∷ (block ++ y ∷ slack))) (length done + suc (length block)) v
      ≡ ok (done ++ (p ∷ (block ++ v ∷ slack)))
write_next done p block y slack v =
    rw (← append_assoc done (p ∷ block) (y ∷ slack), ← append_assoc done (p ∷ block) (v ∷ slack))
      (write-append (done ++ p ∷ block) y slack (length done + suc (length block)) v
        (omega (arith, length-append done (p ∷ block))))

next_block_lem :
    (done : List ℕ) (p : ℕ) (block : List ℕ) (y : ℕ) (slack : List ℕ)
    → length block ≤ 254
    → next_block (encoder done p block (y ∷ slack))
      ≡ ok (encoder (done ++ (suc (length block) ∷ block)) 0 [] slack)
unfolding next_block
next_block_lem done p block y slack h = ground (
  arith,
  write-append done p (block ++ y ∷ slack) (length done) ((length block + 1) % 256) refl,
  write_next done (suc (length block)) block y slack 0,
  length-append done (suc (length block) ∷ block),
  append_assoc done (suc (length block) ∷ block) (0 ∷ slack),
)

finish_lem :
    (done : List ℕ) (p : ℕ) (block : List ℕ) (y : ℕ) (slack : List ℕ)
    → length block ≤ 254
    → finish (encoder done p block (y ∷ slack))
      ≡ ok (done ++ (suc (length block) ∷ (block ++ 0 ∷ slack)))
unfolding finish
finish_lem done p block y slack h = ground (
  arith,
  write-append done p (block ++ y ∷ slack) (length done) ((length block + 1) % 256) refl,
  write_next done (suc (length block)) block y slack 0,
)

-- The three branches of a round.
encode_byte_zero :
    (done : List ℕ) (p : ℕ) (block : List ℕ) (y : ℕ) (slack : List ℕ) (x : ℕ)
    → length block ≤ 253
    → x ≡ 0
    → encode_byte (encoder done p block (y ∷ slack)) x
      ≡ ok (encoder (done ++ (suc (length block) ∷ block)) 0 [] slack)
unfolding encode_byte
encode_byte_zero done p block y slack x h z = ground (arith, next_block_lem done p block y slack)

encode_byte_full :
    (done : List ℕ) (p : ℕ) (block : List ℕ) (y z : ℕ) (slack : List ℕ) (x : ℕ)
    → length block ≡ 253
    → 0 < x
    → encode_byte (encoder done p block (y ∷ (z ∷ slack))) x
      ≡ ok (encoder (done ++ (255 ∷ (block ++ x ∷ []))) 0 [] slack)
unfolding encode_byte
encode_byte_full done p block y z slack x h pos = ground (
  arith,
  write_next done p block y (z ∷ slack) x,
  append_assoc block (x ∷ []) (z ∷ slack),
  length-snoc block x,
  next_block_lem done p (block ++ x ∷ []) z slack,
)

encode_byte_more :
    (done : List ℕ) (p : ℕ) (block : List ℕ) (y : ℕ) (slack : List ℕ) (x : ℕ)
    → length block < 253
    → 0 < x
    → encode_byte (encoder done p block (y ∷ slack)) x ≡ ok (encoder done p (block ++ x ∷ []) slack)
unfolding encode_byte
encode_byte_more done p block y slack x h pos = ground (
  arith,
  write_next done p block y slack x,
  append_assoc block (x ∷ []) slack,
  length-snoc block x,
)

-- What is left of the memory: as much as the loop and the end of it take is gone.
abbrev room : ℕ → List ℕ → ℕ
room n raw = suc (length raw + full_blocks n raw)

-- The encoder from `e` on leaves the frame of what is left, behind `done`.
abbrev Completes : List ℕ → List ℕ → ℕ → List ℕ → List ℕ → Type 0
Completes raw done p block slack =
    (encode_loop raw (encoder done p block slack) >>= finish)
    ≡ ok (done ++ (frame block raw ++ drop (room (length block) raw) slack))

-- The round that fills a block.
full_Completes :
    (x : ℕ) (xs done : List ℕ) (p : ℕ) (block : List ℕ) (y : ℕ) (slack : List ℕ)
    → length block ≡ 253
    → 0 < x
    → suc (room 0 xs) ≤ length slack
    → ((rest : List ℕ)
        → room 0 xs ≤ length rest
        → Completes xs (done ++ (255 ∷ (block ++ x ∷ []))) 0 [] rest)
    → Completes (x ∷ xs) done p block (y ∷ slack)
unfolding encode_loop
full_Completes x xs done p block y [] e pos r ih = absurd (omega arith)
full_Completes x xs done p block y (z ∷ slack) e pos r ih = ground (
  arith,
  encode_byte_full done p block y z slack x e pos,
  frame_full block x xs pos e,
  full_blocks_full (length block) x xs pos e,
  ih slack,
  append_assoc done (255 ∷ (block ++ x ∷ [])) (frame [] xs ++ drop (room 0 xs) slack),
  append_assoc block (x ∷ []) (frame [] xs ++ drop (room 0 xs) slack),
  append_assoc block (x ∷ frame [] xs) (drop (room 0 xs) slack),
)

encode_loop_lem :
    (raw done : List ℕ) (p : ℕ) (block slack : List ℕ)
    → length block ≤ 253
    → room (length block) raw ≤ length slack
    → Completes raw done p block slack
unfolding encode_loop
encode_loop_lem [] done p block [] h r = absurd (omega arith)
encode_loop_lem [] done p block (y ∷ slack) h r =
    rw (frame_nil block, full_blocks_nil (length block), append_assoc block (0 ∷ []) slack)
      (finish_lem done p block y slack (omega arith))
encode_loop_lem (x ∷ xs) done p block [] h r = absurd (omega arith)
encode_loop_lem (x ∷ xs) done p block (y ∷ slack) h r = elim (cases x (length block) h) [
  | zero_byte z ↦ ground (
    arith,
    encode_byte_zero done p block y slack x h z,
    frame_zero block x xs z,
    full_blocks_zero (length block) x xs z,
    encode_loop_lem xs (done ++ (suc (length block) ∷ block)) 0 [] slack,
    append_assoc done (suc (length block) ∷ block) (frame [] xs ++ drop (room 0 xs) slack),
    append_assoc block (frame [] xs) (drop (room 0 xs) slack),
  )
  | full pos e ↦
      full_Completes x xs done p block y slack e pos
        (omega (arith, full_blocks_full (length block) x xs pos e))
        (λ rest k. encode_loop_lem xs (done ++ (255 ∷ (block ++ x ∷ []))) 0 [] rest (omega arith) k)
  | more pos l ↦ ground (
    arith,
    encode_byte_more done p block y slack x l pos,
    frame_more block x xs pos l,
    full_blocks_more (length block) x xs pos l,
    length-snoc block x,
    encode_loop_lem xs done p (block ++ x ∷ []) slack,
  )
]

-- The pointer version, in memory with room for the frame, writes the frame at its start and leaves
-- the rest of the memory alone.
pub encode_bytes-frame :
    (raw memory : List ℕ)
    → length (frame [] raw) ≤ length memory
    → encode_bytes raw memory ≡ ok (frame [] raw ++ drop (length (frame [] raw)) memory)
unfolding encode_bytes
encode_bytes-frame raw [] h = absurd (omega (arith, length-frame raw []))
encode_bytes-frame raw (y ∷ memory) h =
    rw (fits, write_lem (y ∷ memory) 0 0 (omega arith))
      (encode_loop_lem raw [] 0 [] memory (omega arith) (omega (arith, fits)))
  where
    fits : length (frame [] raw) ≡ suc (room 0 raw)
    fits = omega (arith, length-frame raw [])

-- The two encoders keep the same variables, once the iterator is seen as an index.
abbrev as_vector : Encoder → VectorEncoder
as_vector e = record {
  start_of_curr_block = e.start_of_block;
  num_elements_in_curr_block = e.elements_in_block;
  encoded_iter = e.encoded_data_size;
  encoded_data_size = e.encoded_data_size;
  encoded_data = e.encoded_data;
}

next_vector_block_lem :
    (e : Encoder) → next_vector_block (as_vector e) ≡ (next_block e >>= λ e'. ok (as_vector e'))
unfolding next_vector_block next_block
next_vector_block_lem e = ground arith

encode_vector_byte_lem :
    (e : Encoder) (x : ℕ)
    → encode_vector_byte (as_vector e) x ≡ (encode_byte e x >>= λ e'. ok (as_vector e'))
unfolding encode_vector_byte encode_byte next_vector_block next_block
encode_vector_byte_lem e x = ground arith

encode_vector_loop_lem :
    (raw : List ℕ) (e : Encoder)
    → encode_vector_loop raw (as_vector e) ≡ (encode_loop raw e >>= λ e'. ok (as_vector e'))
unfolding encode_vector_loop encode_loop
encode_vector_loop_lem [] e = refl
encode_vector_loop_lem (x ∷ xs) e = elim (Result-cases (encode_byte e x)) [
  | inl (e', h) ↦ rw (encode_vector_byte_lem e x, h) (encode_vector_loop_lem xs e')
  | inr (f, h) ↦ rw (encode_vector_byte_lem e x, h)
]

finish_vector_lem :
    (r : Result Encoder) → ((r >>= λ e. ok (as_vector e)) >>= finish_vector) ≡ (r >>= finish)
unfolding finish_vector finish
finish_vector_lem (ok e) = refl
finish_vector_lem (fault f) = refl

abbrev opening : List ℕ → Encoder
opening opened = record {
  start_of_block = 0;
  elements_in_block = 0;
  encoded_data_size = 1;
  encoded_data = opened;
}

-- The loops of both versions of `Encode` do the same on every memory, also where they run off its
-- end.
pub encode_vector-encode_bytes :
    (raw memory : List ℕ) → encode_vector raw memory ≡ encode_bytes raw memory
unfolding encode_vector encode_bytes
encode_vector-encode_bytes raw memory = elim (Result-cases (write memory 0 0)) [
  | inl (opened, h) ↦
      rw (h, encode_vector_loop_lem raw (opening opened))
        (finish_vector_lem (encode_loop raw (opening opened)))
  | inr (f, h) ↦ rw h
]
