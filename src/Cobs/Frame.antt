-- ===== src/Cobs/Frame.antt =====
-- The encoding as a function of the raw bytes alone, block by block.
use native.Mathlib.Decide.{ℕ_discrete}
use embedded_serial_filler.Base.{
  ℕ, zero, suc, ◌+◌, ◌*◌, ◌≤◌, ◌<◌, ◌≡◌, refl, List, [], ◌∷◌, ◌++◌, length, length-append, ◌==◌,
  if◌then◌else◌, arith,
}

-- `block` holds the bytes since the last block began, fewer than 254.
unfoldable pub frame : List ℕ → List ℕ → List ℕ
frame block [] = suc (length block) ∷ (block ++ 0 ∷ [])
frame block (x ∷ xs) =
    let after = frame [] xs in
    let longer = frame (block ++ x ∷ []) xs in
    if x == 0
    then suc (length block) ∷ (block ++ after)
    else if length block == 253
    then 255 ∷ (block ++ x ∷ after)
    else longer

-- How many blocks end because they are full.
unfoldable pub full_blocks : ℕ → List ℕ → ℕ
full_blocks n [] = 0
full_blocks n (x ∷ xs) =
    let after = full_blocks 0 xs in
    let longer = full_blocks (suc n) xs in
    if x == 0 then after else if n == 253 then suc after else longer

pub frame_nil : (block : List ℕ) → frame block [] ≡ suc (length block) ∷ (block ++ 0 ∷ [])
unfolding frame
frame_nil block = refl

pub full_blocks_nil : (n : ℕ) → full_blocks n [] ≡ 0
unfolding full_blocks
full_blocks_nil n = refl

module _ (block : List ℕ) (x : ℕ) (xs : List ℕ) where
  pub frame_zero : x ≡ 0 → frame block (x ∷ xs) ≡ suc (length block) ∷ (block ++ frame [] xs)
  unfolding frame
  frame_zero z = ground arith

  pub frame_full :
      0 < x → length block ≡ 253 → frame block (x ∷ xs) ≡ 255 ∷ (block ++ x ∷ frame [] xs)
  unfolding frame
  frame_full pos h = ground arith

  pub frame_more : 0 < x → length block < 253 → frame block (x ∷ xs) ≡ frame (block ++ x ∷ []) xs
  unfolding frame
  frame_more pos h = ground arith

module _ (n x : ℕ) (xs : List ℕ) where
  pub full_blocks_zero : x ≡ 0 → full_blocks n (x ∷ xs) ≡ full_blocks 0 xs
  unfolding full_blocks
  full_blocks_zero z = ground arith

  pub full_blocks_full : 0 < x → n ≡ 253 → full_blocks n (x ∷ xs) ≡ suc (full_blocks 0 xs)
  unfolding full_blocks
  full_blocks_full pos h = ground arith

  pub full_blocks_more : 0 < x → n < 253 → full_blocks n (x ∷ xs) ≡ full_blocks (suc n) xs
  unfolding full_blocks
  full_blocks_more pos h = ground arith

-- The cases of one byte.
pub data Case (x n : ℕ) : Type 0 where
  zero_byte : x ≡ 0 → Case x n
  full : 0 < x → n ≡ 253 → Case x n
  more : 0 < x → n < 253 → Case x n

pub cases : (x n : ℕ) → n ≤ 253 → Case x n
cases zero n h = zero_byte refl
cases (suc x) n h = elim (ℕ_discrete n 253) [
  | yes e ↦ full (omega arith) e
  | no ne ↦ more (omega arith) (omega arith)
]

pub length-snoc : (block : List ℕ) (x : ℕ) → length (block ++ x ∷ []) ≡ suc (length block)
length-snoc block x = omega (arith, length-append block (x ∷ []))

pub length-frame :
    (raw block : List ℕ)
    → length block ≤ 253
    → length (frame block raw) ≡ length block + length raw + full_blocks (length block) raw + 2
unfolding frame full_blocks
length-frame [] block h = omega (arith, length-append block (0 ∷ []))
length-frame (x ∷ xs) block h = elim (cases x (length block) h) [
  | zero_byte z ↦
      rw (frame_zero block x xs z, full_blocks_zero (length block) x xs z)
        (omega (arith, length-append block (frame [] xs), length-frame xs [] (omega arith)))
  | full pos e ↦
      rw (frame_full block x xs pos e, full_blocks_full (length block) x xs pos e)
        (omega (arith, length-append block (x ∷ frame [] xs), length-frame xs [] (omega arith)))
  | more pos l ↦
      rw (frame_more block x xs pos l, full_blocks_more (length block) x xs pos l)
        (ground (arith, length-snoc block x, length-frame xs (block ++ x ∷ [])))
]

-- Each full block takes 254 of the raw bytes.
pub full_blocks-le : (raw : List ℕ) (n : ℕ) → n ≤ 253 → 254 * full_blocks n raw ≤ n + length raw
unfolding full_blocks
full_blocks-le [] n h = omega arith
full_blocks-le (x ∷ xs) n h = elim (cases x n h) [
  | zero_byte z ↦ rw (full_blocks_zero n x xs z) (omega (arith, full_blocks-le xs 0 (omega arith)))
  | full pos e ↦
      rw (full_blocks_full n x xs pos e) (omega (arith, full_blocks-le xs 0 (omega arith)))
  | more pos l ↦
      rw (full_blocks_more n x xs pos l) (omega (arith, full_blocks-le xs (suc n) (omega arith)))
]
