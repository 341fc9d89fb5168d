-- ===== src/Base/Lists.antt =====
-- Sequences measured and indexed by native numbers, under the library's names.
use Prim.Native.Nat.{ℕ, zero, suc, ◌+◌, ◌-◌, ◌≤◌, ◌<◌, min}
use mathlib.Core.Path.{◌≡◌, refl, ap, ◌∙◌}
use mathlib.Core.Logic.{◌≢◌}
use mathlib.Core.Option.{Option, none, some}
use mathlib.Core.List.{List, [], ◌∷◌, ◌++◌}
use native.Mathlib.Omega.{arith}

module _ {ℓ} {A : Type ℓ} where
  abbrev pub length : List A → ℕ
  length [] = 0
  length (x ∷ xs) = suc (length xs)

  abbrev pub get_or : List A → ℕ → A → A
  get_or [] i d = d
  get_or (x ∷ xs) zero d = x
  get_or (x ∷ xs) (suc i) d = get_or xs i d

  abbrev pub get_elem? : List A → ℕ → Option A
  get_elem? [] i = none
  get_elem? (x ∷ xs) zero = some x
  get_elem? (x ∷ xs) (suc i) = get_elem? xs i

  pub get_elem?-append :
      (xs : List A) (y : A) (ys : List A) → get_elem? (xs ++ y ∷ ys) (length xs) ≡ some y
  get_elem?-append [] y ys = refl
  get_elem?-append (x ∷ xs) y ys = get_elem?-append xs y ys

  pub get_elem?-none : (xs : List A) (i : ℕ) → length xs ≤ i → get_elem? xs i ≡ none
  get_elem?-none [] i h = refl
  get_elem?-none (x ∷ xs) zero h = absurd (omega arith)
  get_elem?-none (x ∷ xs) (suc i) h = get_elem?-none xs i (omega arith)

  -- A write out of bounds changes nothing.
  abbrev pub set : List A → ℕ → A → List A
  set [] i v = []
  set (x ∷ xs) zero v = v ∷ xs
  set (x ∷ xs) (suc i) v = x ∷ set xs i v

  abbrev pub take : ℕ → List A → List A
  take zero xs = []
  take (suc n) [] = []
  take (suc n) (x ∷ xs) = x ∷ take n xs

  abbrev pub drop : ℕ → List A → List A
  drop zero xs = xs
  drop (suc n) [] = []
  drop (suc n) (x ∷ xs) = drop n xs

  abbrev pub replicate : ℕ → A → List A
  replicate zero a = []
  replicate (suc n) a = a ∷ replicate n a

  pub length-append : (xs ys : List A) → length (xs ++ ys) ≡ length xs + length ys
  length-append [] ys = omega arith
  length-append (x ∷ xs) ys = omega (arith, length-append xs ys)

  pub length-set : (xs : List A) (i : ℕ) (v : A) → length (set xs i v) ≡ length xs
  length-set [] i v = refl
  length-set (x ∷ xs) zero v = refl
  length-set (x ∷ xs) (suc i) v = ap suc (length-set xs i v)

  pub length-take : (n : ℕ) (xs : List A) → length (take n xs) ≡ min n (length xs)
  length-take zero xs = omega arith
  length-take (suc n) [] = omega arith
  length-take (suc n) (x ∷ xs) = omega (arith, length-take n xs)

  pub length-drop : (n : ℕ) (xs : List A) → length (drop n xs) ≡ length xs - n
  length-drop zero xs = omega arith
  length-drop (suc n) [] = omega arith
  length-drop (suc n) (x ∷ xs) = omega (arith, length-drop n xs)

  pub length-replicate : (n : ℕ) (a : A) → length (replicate n a) ≡ n
  length-replicate zero a = refl
  length-replicate (suc n) a = ap suc (length-replicate n a)

  pub take-append : (n : ℕ) (xs ys : List A) → n ≡ length xs → take n (xs ++ ys) ≡ xs
  take-append zero [] ys h = refl
  take-append zero (x ∷ xs) ys h = absurd (omega arith)
  take-append (suc n) [] ys h = absurd (omega arith)
  take-append (suc n) (x ∷ xs) ys h = ap (◌∷◌ x) (take-append n xs ys (omega arith))

  pub drop-append : (n : ℕ) (xs ys : List A) → n ≡ length xs → drop n (xs ++ ys) ≡ ys
  drop-append zero [] ys h = refl
  drop-append zero (x ∷ xs) ys h = absurd (omega arith)
  drop-append (suc n) [] ys h = absurd (omega arith)
  drop-append (suc n) (x ∷ xs) ys h = drop-append n xs ys (omega arith)

  pub take_all : (n : ℕ) (xs : List A) → length xs ≤ n → take n xs ≡ xs
  take_all zero [] h = refl
  take_all zero (x ∷ xs) h = absurd (omega arith)
  take_all (suc n) [] h = refl
  take_all (suc n) (x ∷ xs) h = ap (◌∷◌ x) (take_all n xs (omega arith))

pub take-nil {ℓ} : (A : Type ℓ) (n : ℕ) → take {A = A} n [] ≡ []
take-nil A zero = refl
take-nil A (suc n) = refl

module _ {ℓ} {A : Type ℓ} where
  pub take-append_more :
      (n : ℕ) (xs ys : List A) → length xs ≤ n → take n (xs ++ ys) ≡ xs ++ take (n - length xs) ys
  take-append_more n [] ys h = ap (λ k. take k ys) (omega arith)
  take-append_more zero (x ∷ xs) ys h = absurd (omega arith)
  take-append_more (suc n) (x ∷ xs) ys h =
      ap (◌∷◌ x) (take-append_more n xs ys (omega arith) ∙ ap (λ k. xs ++ take k ys) (omega arith))

  pub take-append_less : (n : ℕ) (xs ys : List A) → n ≤ length xs → take n (xs ++ ys) ≡ take n xs
  take-append_less zero xs ys h = refl
  take-append_less (suc n) [] ys h = absurd (omega arith)
  take-append_less (suc n) (x ∷ xs) ys h = ap (◌∷◌ x) (take-append_less n xs ys (omega arith))

  pub take-append-drop : (n : ℕ) (xs : List A) → take n xs ++ drop n xs ≡ xs
  take-append-drop zero xs = refl
  take-append-drop (suc n) [] = refl
  take-append-drop (suc n) (x ∷ xs) = ap (◌∷◌ x) (take-append-drop n xs)

  pub drop_all : (n : ℕ) (xs : List A) → length xs ≤ n → drop n xs ≡ []
  drop_all zero [] h = refl
  drop_all zero (x ∷ xs) h = absurd (omega arith)
  drop_all (suc n) [] h = refl
  drop_all (suc n) (x ∷ xs) h = drop_all n xs (omega arith)

  pub get_or-take :
      (n : ℕ) (xs : List A) (i : ℕ) (d : A) → i < n → get_or (take n xs) i d ≡ get_or xs i d
  get_or-take zero xs i d h = absurd (omega arith)
  get_or-take (suc n) [] i d h = refl
  get_or-take (suc n) (x ∷ xs) zero d h = refl
  get_or-take (suc n) (x ∷ xs) (suc i) d h = get_or-take n xs i d (omega arith)

  pub get_or-replicate : (n i : ℕ) (a : A) → get_or (replicate n a) i a ≡ a
  get_or-replicate zero i a = refl
  get_or-replicate (suc n) zero a = refl
  get_or-replicate (suc n) (suc i) a = get_or-replicate n i a

  pub take-drop : (n k : ℕ) (xs : List A) → take (n - k) (drop k xs) ≡ drop k (take n xs)
  take-drop n zero xs = ap (λ k. take k xs) (omega arith)
  take-drop zero (suc k) xs = let e : zero - suc k ≡ zero = omega arith in rw e
  take-drop (suc n) (suc k) [] = take-nil A (suc n - suc k)
  take-drop (suc n) (suc k) (x ∷ xs) =
      let e : suc n - suc k ≡ n - k = omega arith in rw e (take-drop n k xs)

  pub drop-replicate : (k n : ℕ) (a : A) → drop k (replicate n a) ≡ replicate (n - k) a
  drop-replicate zero n a = ap (λ m. replicate m a) (omega arith)
  drop-replicate (suc k) zero a = let e : zero - suc k ≡ zero = omega arith in rw e
  drop-replicate (suc k) (suc n) a =
      let e : suc n - suc k ≡ n - k = omega arith in rw e (drop-replicate k n a)

  -- Writing just behind a prefix.
  pub set-append :
      (xs : List A) (y : A) (ys : List A) (i : ℕ) (v : A)
      → i ≡ length xs
      → set (xs ++ y ∷ ys) i v ≡ xs ++ v ∷ ys
  set-append [] y ys zero v h = refl
  set-append [] y ys (suc i) v h = absurd (omega arith)
  set-append (x ∷ xs) y ys zero v h = absurd (omega arith)
  set-append (x ∷ xs) y ys (suc i) v h = ap (◌∷◌ x) (set-append xs y ys i v (omega arith))

  pub get_or-append :
      (xs : List A) (y : A) (ys : List A) (i : ℕ) (d : A)
      → i ≡ length xs
      → get_or (xs ++ y ∷ ys) i d ≡ y
  get_or-append [] y ys zero d h = refl
  get_or-append [] y ys (suc i) d h = absurd (omega arith)
  get_or-append (x ∷ xs) y ys zero d h = absurd (omega arith)
  get_or-append (x ∷ xs) y ys (suc i) d h = get_or-append xs y ys i d (omega arith)

  pub get_or-append_left :
      (xs ys : List A) (i : ℕ) (d : A) → i < length xs → get_or (xs ++ ys) i d ≡ get_or xs i d
  get_or-append_left [] ys i d h = absurd (omega arith)
  get_or-append_left (x ∷ xs) ys zero d h = refl
  get_or-append_left (x ∷ xs) ys (suc i) d h = get_or-append_left xs ys i d (omega arith)

  pub get_or_above : (xs : List A) (i : ℕ) (d : A) → length xs ≤ i → get_or xs i d ≡ d
  get_or_above [] i d h = refl
  get_or_above (x ∷ xs) zero d h = absurd (omega arith)
  get_or_above (x ∷ xs) (suc i) d h = get_or_above xs i d (omega arith)

  pub get_or-set_self :
      (xs : List A) (i : ℕ) (v d : A) → i < length xs → get_or (set xs i v) i d ≡ v
  get_or-set_self [] i v d h = absurd (omega arith)
  get_or-set_self (x ∷ xs) zero v d h = refl
  get_or-set_self (x ∷ xs) (suc i) v d h = get_or-set_self xs i v d (omega arith)

  pub get_or-set_ne :
      (xs : List A) (i j : ℕ) (v d : A) → i ≢ j → get_or (set xs i v) j d ≡ get_or xs j d
  get_or-set_ne [] i j v d h = refl
  get_or-set_ne (x ∷ xs) zero zero v d h = absurd (h refl)
  get_or-set_ne (x ∷ xs) zero (suc j) v d h = refl
  get_or-set_ne (x ∷ xs) (suc i) zero v d h = refl
  get_or-set_ne (x ∷ xs) (suc i) (suc j) v d h = get_or-set_ne xs i j v d (λ e. h (ap suc e))

  -- Two sequences that agree below `n`, and reach so far, have the same first `n` elements.
  pub take_ext :
      (n : ℕ) (xs ys : List A) (d : A)
      → n ≤ length xs
      → n ≤ length ys
      → ((i : ℕ) → i < n → get_or xs i d ≡ get_or ys i d)
      → take n xs ≡ take n ys
  take_ext zero xs ys d p q h = refl
  take_ext (suc n) [] ys d p q h = absurd (omega arith)
  take_ext (suc n) (x ∷ xs) [] d p q h = absurd (omega arith)
  take_ext (suc n) (x ∷ xs) (y ∷ ys) d p q h = ground (
    arith,
    h 0 (omega arith),
    take_ext n xs ys d (omega arith) (omega arith) (λ i l. h (suc i) (omega arith)),
  )

-- Every element of a sequence.
abbrev pub All {ℓ κ} : {A : Type ℓ} → (A → Type κ) → List A → Type κ
All P [] = Unit
All P (x ∷ xs) = P x × All P xs

abbrev pub IsByte : ℕ → Type 0
IsByte x = x < 256

abbrev pub IsNonzero : ℕ → Type 0
IsNonzero x = 0 < x

pub All-append {ℓ κ} :
    {A : Type ℓ} (P : A → Type κ) (xs ys : List A) → All P xs → All P ys → All P (xs ++ ys)
All-append P [] ys h k = k
All-append P (x ∷ xs) ys h k = (h.0, All-append P xs ys h.1 k)

pub All-append_left {ℓ κ} :
    {A : Type ℓ} (P : A → Type κ) (xs ys : List A) → All P (xs ++ ys) → All P xs
All-append_left P [] ys h = tt
All-append_left P (x ∷ xs) ys h = (h.0, All-append_left P xs ys h.1)

pub All-append_right {ℓ κ} :
    {A : Type ℓ} (P : A → Type κ) (xs ys : List A) → All P (xs ++ ys) → All P ys
All-append_right P [] ys h = h
All-append_right P (x ∷ xs) ys h = All-append_right P xs ys h.1

abbrev pub zeros : ℕ → List ℕ
zeros n = replicate n 0

pub length-zeros : (n : ℕ) → length (zeros n) ≡ n
length-zeros n = length-replicate n 0
