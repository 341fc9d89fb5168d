-- ===== src/Cobs/Rounds.antt =====
-- One round of each decoder's outer loop, by the ways in which it can end.
use embedded_serial_filler.Base.{
  ℕ, suc, ◌+◌, ◌-◌, ◌<◌, ◌≡◌, List, [], ◌∷◌, ◌++◌, length, set, ok, write_lem, arith,
}
use embedded_serial_filler.Definitions.{max_packet_size, success, zero_byte_not_expected}
use embedded_serial_filler.Etl.{Etl}
use embedded_serial_filler.Cobs.Decode.{
  Copied, VectorCopied, head, block_size, copy_block, add_zero, after_block, decode_round,
  decode_loop, copy_vector_block, add_vector_zero, after_vector_block, decode_vector_round,
  decode_vector_loop,
}

module _ (etl : Etl) (f n x : ℕ) (rest : List ℕ) (pos : ℕ) (out : List ℕ) (inside : pos < n) where
  pub vector_short :
      copy_vector_block etl rest 0 (x - 1) (pos + 1) out ≡ ok VectorCopied.zero_found
      → decode_vector_loop etl (suc f) n (x ∷ rest) pos out ≡ ok (zero_byte_not_expected, [])
  unfolding decode_vector_loop decode_vector_round after_vector_block head
  vector_short h = ground arith

  module _ (left : List ℕ) (pos' : ℕ) (out' : List ℕ) where
    pub vector_last :
        copy_vector_block etl rest 0 (x - 1) (pos + 1) out
          ≡ ok (VectorCopied.copied (0 ∷ left) pos' out')
        → decode_vector_loop etl (suc f) n (x ∷ rest) pos out ≡ ok (success, out')
    unfolding decode_vector_loop decode_vector_round after_vector_block head
    vector_last h = ground arith

    pub vector_zero :
        (y : ℕ)
        → copy_vector_block etl rest 0 (x - 1) (pos + 1) out
          ≡ ok (VectorCopied.copied (y ∷ left) pos' out')
        → 0 < y
        → x < 255
        → length out' < max_packet_size
        → decode_vector_loop etl (suc f) n (x ∷ rest) pos out
          ≡ decode_vector_loop etl f n (y ∷ left) pos' (out' ++ 0 ∷ [])
    unfolding decode_vector_loop decode_vector_round after_vector_block head add_vector_zero
    vector_zero y h p l r = ground (arith, etl.push_back_fits ℕ max_packet_size out' 0)

    pub vector_full :
        (y : ℕ)
        → copy_vector_block etl rest 0 (x - 1) (pos + 1) out
          ≡ ok (VectorCopied.copied (y ∷ left) pos' out')
        → 0 < y
        → x ≡ 255
        → decode_vector_loop etl (suc f) n (x ∷ rest) pos out
          ≡ decode_vector_loop etl f n (y ∷ left) pos' out'
    unfolding decode_vector_loop decode_vector_round after_vector_block head add_vector_zero
    vector_full y h p l = ground arith

-- The count of a block, below 256 and not zero, does not wrap.
pub block_size_lem : (x : ℕ) → 0 < x → x < 256 → block_size x ≡ x - 1
block_size_lem x p l = omega arith

module _ (f n x : ℕ) (rest : List ℕ) (pos d : ℕ) (memory : List ℕ) (inside : pos < n) (some : 0 < x)
    (byte : x < 256) where
  pub bytes_short :
      (memory' : List ℕ)
      → copy_block rest 0 (x - 1) (pos + 1) d memory ≡ ok (Copied.zero_found memory')
      → decode_loop (suc f) n (x ∷ rest) pos d memory ≡ ok (zero_byte_not_expected, memory')
  unfolding decode_loop decode_round after_block head
  bytes_short memory' h = ground (arith, block_size_lem x)

  module _ (left : List ℕ) (pos' d' : ℕ) (memory' : List ℕ) where
    pub bytes_last :
        copy_block rest 0 (x - 1) (pos + 1) d memory ≡ ok (Copied.copied (0 ∷ left) pos' d' memory')
        → decode_loop (suc f) n (x ∷ rest) pos d memory ≡ ok (success, memory')
    unfolding decode_loop decode_round after_block head
    bytes_last h = ground (arith, block_size_lem x)

    pub bytes_zero :
        (y : ℕ)
        → copy_block rest 0 (x - 1) (pos + 1) d memory
          ≡ ok (Copied.copied (y ∷ left) pos' d' memory')
        → 0 < y
        → x < 255
        → pos' < length memory'
        → decode_loop (suc f) n (x ∷ rest) pos d memory
          ≡ decode_loop f n (y ∷ left) pos' (d' + 1) (set memory' pos' 0)
    unfolding decode_loop decode_round after_block head add_zero
    bytes_zero y h p l r = ground (arith, block_size_lem x, write_lem memory' pos' 0)

    pub bytes_full :
        (y : ℕ)
        → copy_block rest 0 (x - 1) (pos + 1) d memory
          ≡ ok (Copied.copied (y ∷ left) pos' d' memory')
        → 0 < y
        → x ≡ 255
        → decode_loop (suc f) n (x ∷ rest) pos d memory ≡ decode_loop f n (y ∷ left) pos' d' memory'
    unfolding decode_loop decode_round after_block head add_zero
    bytes_full y h p l = ground (arith, block_size_lem x)
