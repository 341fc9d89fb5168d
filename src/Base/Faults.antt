-- ===== src/Base/Faults.antt =====
-- What a routine comes to: a value, or a step that the C++ language or a container leaves undefined.
use mathlib.Core.Path.{◌≡◌, refl}
use Prim.Native.Nat.{ℕ, ◌<◌}
use mathlib.Core.Logic.{◌⊎◌, inl, inr}
use mathlib.Core.Option.{Option, none, some}
use mathlib.Core.List.{List, ◌∷◌, ◌++◌}
use native.Mathlib.Omega.{arith}
use embedded_serial_filler.Base.Tests.{ltb, if◌then◌else◌}
use embedded_serial_filler.Base.Lists.{length, length-append, set, set-append}

-- `assertion`: an `assert` that fails. `fuel`: the model's bound on a loop ran out.
pub data Fault : Type 0 where
  out_of_bounds vector_full bad_range assertion fuel : Fault

pub data Result {ℓ} (A : Type ℓ) : Type ℓ where
  ok : A → Result A
  fault : Fault → Result A

infixl 5 ◌>>=◌ ◌>>◌
abbrev pub ◌>>=◌ {ℓ κ} : {A : Type ℓ} {B : Type κ} → Result A → (A → Result B) → Result B
ok a >>= f = f a
fault e >>= f = fault e

abbrev pub ◌>>◌ {ℓ} : {B : Type ℓ} → Result (Unit {0}) → Result B → Result B
m >> k = m >>= λ _. k

pub Result-cases {ℓ} :
    {A : Type ℓ} (r : Result A) → ((a : A) × (r ≡ ok a)) ⊎ ((f : Fault) × (r ≡ fault f))
Result-cases (ok a) = inl (a, refl)
Result-cases (fault f) = inr (f, refl)

pub Option-cases {ℓ} : {A : Type ℓ} (o : Option A) → (o ≡ none) ⊎ ((a : A) × (o ≡ some a))
Option-cases none = inl refl
Option-cases (some a) = inr (a, refl)

pub ok_inj {ℓ} : {A : Type ℓ} {a b : A} → ok a ≡ ok b → a ≡ b
ok_inj h = cc

-- A step that succeeds, in a chain that does.
pub >>=-ok {ℓ κ} :
    {A : Type ℓ} {B : Type κ} (first : Result A) (further : A → Result B) (result : B)
    → (first >>= further) ≡ ok result
    → (value : A) × (first ≡ ok value) × (further value ≡ ok result)
>>=-ok (ok value) further result e = (value, refl, e)
>>=-ok (fault f) further result e = absurd (ground (arith, e))

-- Two chains that go on alike from the value that the step comes to.
pub >>=-cong {ℓ κ} :
    {A : Type ℓ} {B : Type κ} (r : Result A) (f g : A → Result B)
    → ((a : A) → r ≡ ok a → f a ≡ g a)
    → (r >>= f) ≡ (r >>= g)
>>=-cong (ok a) f g h = h a refl
>>=-cong (fault e) f g h = refl

-- `a[ i ] = v` in memory that holds `length a` elements.
unfoldable pub write : List ℕ → ℕ → ℕ → Result (List ℕ)
write a i v = if ltb i (length a) then ok (set a i v) else fault out_of_bounds

pub write_lem : (a : List ℕ) (i v : ℕ) → i < length a → write a i v ≡ ok (set a i v)
unfolding write
write_lem a i v h = ground arith

-- Writing over the first element behind a prefix.
pub write-append :
    (xs : List ℕ) (y : ℕ) (ys : List ℕ) (i v : ℕ)
    → i ≡ length xs
    → write (xs ++ y ∷ ys) i v ≡ ok (xs ++ v ∷ ys)
unfolding write
write-append xs y ys i v h = ground (arith, length-append xs (y ∷ ys), set-append xs y ys i v h)

-- A function put behind a chain of results.
pub >>=-through {ℓ κ μ} :
    {A : Type ℓ} {B : Type κ} {C : Type μ} (r : Result A) (f : A → Result B) (g : B → Result C)
    (h : A → Result C)
    → ((a : A) → h a ≡ (f a >>= g))
    → (r >>= h) ≡ ((r >>= f) >>= g)
>>=-through (ok a) f g h k = k a
>>=-through (fault e) f g h k = refl
