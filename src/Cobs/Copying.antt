-- ===== src/Cobs/Copying.antt =====
-- The loops over one block, on a packet: a run of non-zero bytes and then a zero.
use embedded_serial_filler.Base.{
  ℕ, zero, suc, ◌+◌, ◌≤◌, ◌<◌, ◌≡◌, refl, sym, ◌∙◌, List, [], ◌∷◌, ◌++◌, length, take, drop, get_or,
  set, length-append, length-set, append_assoc, append-nil, get_or-append, get_or-append_left,
  get_or_above, get_or-set_self, get_or-set_ne, All, ok, write_lem, arith,
}
use native.Mathlib.Decide.{dec_lt, ℕ_discrete}
use embedded_serial_filler.Definitions.{max_packet_size}
use embedded_serial_filler.Etl.{Etl}
use embedded_serial_filler.Cobs.Encoded.{IsCode}
use embedded_serial_filler.Cobs.Decode.{Copied, VectorCopied, copy_block, copy_vector_block}

module _ (etl : Etl) where
  copy_vector_block_stop :
      (rest : List ℕ) (i n pos : ℕ) (out : List ℕ)
      → n ≤ i
      → copy_vector_block etl rest i n pos out ≡ ok (VectorCopied.copied rest pos out)
  unfolding copy_vector_block
  copy_vector_block_stop [] i n pos out h = ground arith
  copy_vector_block_stop (x ∷ rest) i n pos out h = ground arith

  -- The block is there: it is appended to the decoded data.
  pub copy_vector_block-All :
      (body rest : List ℕ) (i k n pos : ℕ) (out : List ℕ)
      → i + k ≡ n
      → k ≤ length body
      → All IsCode body
      → length out + k ≤ max_packet_size
      → copy_vector_block etl (body ++ rest) i n pos out
        ≡ ok (VectorCopied.copied (drop k body ++ rest) (pos + k) (out ++ take k body))
  unfolding copy_vector_block
  copy_vector_block-All body rest i zero n pos out e h c r =
      ground (arith, copy_vector_block_stop (body ++ rest) i n pos out, append-nil out)
  copy_vector_block-All [] rest i (suc k) n pos out e h c r = absurd (omega arith)
  copy_vector_block-All (x ∷ body) rest i (suc k) n pos out e h c r = ground (
    arith,
    etl.push_back_fits ℕ max_packet_size out x,
    length-append out (x ∷ []),
    append_assoc out (x ∷ []) (take k body),
    copy_vector_block-All body rest (i + 1) k n (pos + 1) (out ++ x ∷ []),
  )

  -- The packet ends inside the block.
  pub copy_vector_block_short :
      (body rest : List ℕ) (i k n pos : ℕ) (out : List ℕ)
      → i + k ≡ n
      → length body < k
      → All IsCode body
      → length out + length body ≤ max_packet_size
      → copy_vector_block etl (body ++ 0 ∷ rest) i n pos out ≡ ok VectorCopied.zero_found
  unfolding copy_vector_block
  copy_vector_block_short [] rest i k n pos out e h c r = ground arith
  copy_vector_block_short (x ∷ body) rest i zero n pos out e h c r = absurd (omega arith)
  copy_vector_block_short (x ∷ body) rest i (suc k) n pos out e h c r = ground (
    arith,
    etl.push_back_fits ℕ max_packet_size out x,
    length-append out (x ∷ []),
    copy_vector_block_short body rest (i + 1) k n (pos + 1) (out ++ x ∷ []),
  )

-- The first `size` bytes of the memory are those decoded so far, and then zeros.
pub record Mirrors (size : ℕ) (out memory : List ℕ) : Type 0 where
  pub same : (i : ℕ) → i < size → get_or memory i 0 ≡ get_or out i 0
  pub room : length memory ≡ max_packet_size

get_or-snoc_above : (out : List ℕ) (x i : ℕ) → length out < i → get_or (out ++ x ∷ []) i 0 ≡ 0
get_or-snoc_above out x i h =
    get_or_above (out ++ x ∷ []) i 0 (omega (arith, length-append out (x ∷ [])))

get_or-snoc : (out : List ℕ) (x : ℕ) → get_or (out ++ x ∷ []) (length out) 0 ≡ x
get_or-snoc out x = get_or-append out x [] (length out) 0 refl

get_or-set_zero :
    (memory : List ℕ) (pos i : ℕ) → get_or memory i 0 ≡ 0 → get_or (set memory pos 0) i 0 ≡ 0
get_or-set_zero [] pos i h = h
get_or-set_zero (x ∷ memory) zero zero h = refl
get_or-set_zero (x ∷ memory) zero (suc i) h = h
get_or-set_zero (x ∷ memory) (suc pos) zero h = h
get_or-set_zero (x ∷ memory) (suc pos) (suc i) h = get_or-set_zero memory pos i h

-- The next decoded byte, written at `decodedDataPos`.
pub Mirrors-push :
    (size : ℕ) (out memory : List ℕ) (x : ℕ)
    → length out < max_packet_size
    → Mirrors size out memory
    → Mirrors size (out ++ x ∷ []) (set memory (length out) x)
Mirrors-push size out memory x h m = record {
  same = λ i l. elim (dec_lt i (length out)) [
    | yes below ↦
        get_or-set_ne memory (length out) i x 0 (omega arith)
        ∙ m.same i l
        ∙ sym (get_or-append_left out (x ∷ []) i 0 below)
    | no above ↦ elim (ℕ_discrete i (length out)) [
      | yes e ↦
          rw (e, get_or-snoc out x)
            (get_or-set_self memory (length out) x 0 (omega (arith, m.room)))
      | no ne ↦
          get_or-set_ne memory (length out) i x 0 (omega arith)
          ∙ m.same i l
          ∙ get_or_above out i 0 (omega arith)
          ∙ sym (get_or-snoc_above out x i (omega arith))
    ]
  ];
  room = length-set memory (length out) x ∙ m.room;
}

-- The zero between two blocks, written somewhere at or behind `decodedDataPos`.
pub Mirrors-zero :
    (size : ℕ) (out memory : List ℕ) (pos : ℕ)
    → length out ≤ pos
    → Mirrors size out memory
    → Mirrors size (out ++ 0 ∷ []) (set memory pos 0)
Mirrors-zero size out memory pos h m = record {
  same = λ i l. elim (dec_lt i (length out)) [
    | yes below ↦
        get_or-set_ne memory pos i 0 0 (omega arith)
        ∙ m.same i l
        ∙ sym (get_or-append_left out (0 ∷ []) i 0 below)
    | no above ↦
        get_or-set_zero memory pos i (m.same i l ∙ get_or_above out i 0 (omega arith))
        ∙ sym (padded i (omega arith))
  ];
  room = length-set memory pos 0 ∙ m.room;
}
  where
    padded : (i : ℕ) → length out ≤ i → get_or (out ++ 0 ∷ []) i 0 ≡ 0
    padded i k = elim (ℕ_discrete i (length out)) [
      | yes e ↦ rw e (get_or-snoc out 0)
      | no ne ↦ get_or-snoc_above out 0 i (omega arith)
    ]

copy_block_stop :
    (rest : List ℕ) (i n pos d : ℕ) (memory : List ℕ)
    → n ≤ i
    → copy_block rest i n pos d memory ≡ ok (Copied.copied rest pos d memory)
unfolding copy_block
copy_block_stop [] i n pos d memory h = ground arith
copy_block_stop (x ∷ rest) i n pos d memory h = ground arith

pub copy_block-All :
    (size : ℕ) (body rest : List ℕ) (i k n pos d : ℕ) (out memory : List ℕ)
    → i + k ≡ n
    → k ≤ length body
    → All IsCode body
    → d ≡ length out
    → d + k ≤ max_packet_size
    → Mirrors size out memory
    → (memory' : List ℕ) × (copy_block (body ++ rest) i n pos d memory
        ≡ ok (Copied.copied (drop k body ++ rest) (pos + k) (d + k) memory'))
      × Mirrors size (out ++ take k body) memory'
unfolding copy_block
copy_block-All size body rest i zero n pos d out memory e h c q r m =
    (memory, ground (arith, copy_block_stop (body ++ rest) i n pos d memory), rw append-nil m)
copy_block-All size [] rest i (suc k) n pos d out memory e h c q r m = absurd (omega arith)
copy_block-All size (x ∷ body) rest i (suc k) n pos d out memory e h c q r m =
    let (memory', step, m') =
      copy_block-All size body rest (i + 1) k n (pos + 1) (d + 1) (out ++ x ∷ []) (set memory d x)
        (omega arith) (omega arith) c.1 (omega (arith, length-append out (x ∷ []))) (omega arith)
        (rw q (Mirrors-push size out memory x (omega arith) m)) in
    (memory', ground (arith, write_lem memory d x, m.room, step), rw append_assoc at m')

pub copy_block_short :
    (body rest : List ℕ) (i k n pos d : ℕ) (memory : List ℕ)
    → i + k ≡ n
    → length body < k
    → All IsCode body
    → d + length body ≤ length memory
    → (memory' : List ℕ) × (copy_block (body ++ 0 ∷ rest) i n pos d memory
        ≡ ok (Copied.zero_found memory'))
      × (length memory' ≡ length memory)
unfolding copy_block
copy_block_short [] rest i k n pos d memory e h c r = (memory, ground arith, refl)
copy_block_short (x ∷ body) rest i zero n pos d memory e h c r = absurd (omega arith)
copy_block_short (x ∷ body) rest i (suc k) n pos d memory e h c r =
    let (memory', step, size) =
      copy_block_short body rest (i + 1) k n (pos + 1) (d + 1) (set memory d x) (omega arith)
        (omega arith) c.1 (omega (arith, length-set memory d x)) in
    (memory', ground (arith, write_lem memory d x, step), size ∙ length-set memory d x)
