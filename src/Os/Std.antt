-- ===== src/Os/Std.antt =====
-- include/esf_full_std_support.h: the classes of the standard library of C++, which stand for the macros
-- on Windows and Linux.
use embedded_serial_filler.Base.{
  ℕ, ◌≡◌, refl, inl, inr, Bool, Bool-cases, true, false, if◌then◌else◌, arith,
}
use embedded_serial_filler.Os.{Os}

-- `std::cv_status`.
pub data CvStatus : Type 0 where
  no_timeout timeout : CvStatus

-- The standard library, as C++ has it, seen by one thread. A mutex and a condition variable are known by
-- a number. `holds` says whether the thread's lock on the mutex owns it. A wait that begins with the mutex
-- may end without a notification; `wakes` says whether it ends before the time is over.
pub record Std : Type 1 where
  pub World : Type 0
  pub holds : ℕ → World → Bool
  pub wakes : ℕ → ℕ → ℕ → World → Bool
  pub mutex_lock : ℕ → World → World
  pub mutex_unlock : ℕ → World → World
  pub cv_wait_for : ℕ → ℕ → ℕ → World → CvStatus × World
  pub cv_notify_all : ℕ → World → World
  pub lock_holds :
      (mutex : ℕ) (w : World) → holds mutex w ≡ false → holds mutex (mutex_lock mutex w) ≡ true
  pub unlock_holds :
      (mutex : ℕ) (w : World) → holds mutex w ≡ true → holds mutex (mutex_unlock mutex w) ≡ false
  pub wait_for_result :
      (cv mutex milliseconds : ℕ) (w : World)
      → holds mutex w ≡ true
      → (cv_wait_for cv mutex milliseconds w).0
        ≡ (if wakes cv mutex milliseconds w then no_timeout else timeout)
  pub wait_for_holds :
      (cv mutex milliseconds : ℕ) (w : World)
      → holds mutex w ≡ true
      → holds mutex (cv_wait_for cv mutex milliseconds w).1 ≡ true
  pub notify_all_holds :
      (mutex cv : ℕ) (w : World) → holds mutex (cv_notify_all cv w) ≡ holds mutex w

-- The comparison with `ESF_NO_TIMEOUT`.
abbrev pub is_no_timeout : CvStatus → Bool
is_no_timeout no_timeout = true
is_no_timeout timeout = false

module _ (os : Std) where
  abbrev pub uses : ℕ → os.World → ℕ
  uses mutex w = if os.holds mutex w then 1 else 0

  -- The destructor of `std::unique_lock` unlocks a mutex that the lock owns.
  unfoldable pub destroy_lock : ℕ → os.World → os.World
  destroy_lock mutex w = if os.holds mutex w then os.mutex_unlock mutex w else w

  pub uses_none : (mutex : ℕ) (w : os.World) → uses mutex w ≡ 0 → os.holds mutex w ≡ false
  uses_none mutex w h = elim (Bool-cases (os.holds mutex w)) [
    | inl e ↦ absurd (ground (arith, e, h))
    | inr e ↦ e
  ]

  pub uses_one : (mutex : ℕ) (w : os.World) → uses mutex w ≡ 1 → os.holds mutex w ≡ true
  uses_one mutex w h = elim (Bool-cases (os.holds mutex w)) [
    | inl e ↦ e
    | inr e ↦ absurd (ground (arith, e, h))
  ]

  pub uses-lock :
      (mutex : ℕ) (w : os.World) → uses mutex w ≡ 0 → uses mutex (os.mutex_lock mutex w) ≡ 1
  uses-lock mutex w h = rw (os.lock_holds mutex w (uses_none mutex w h)) refl

  pub uses-unlock :
      (mutex : ℕ) (w : os.World) → uses mutex w ≡ 1 → uses mutex (os.mutex_unlock mutex w) ≡ 0
  uses-unlock mutex w h = rw (os.unlock_holds mutex w (uses_one mutex w h)) refl

  pub uses-destroy_lock :
      (mutex : ℕ) (w : os.World) → uses mutex w ≡ 1 → uses mutex (destroy_lock mutex w) ≡ 0
  unfolding destroy_lock
  uses-destroy_lock mutex w h =
      let held = uses_one mutex w h in rw (held, os.unlock_holds mutex w held) refl

  pub uses-wait_for :
      (cv mutex milliseconds : ℕ) (w : os.World)
      → uses mutex w ≡ 1
      → uses mutex (os.cv_wait_for cv mutex milliseconds w).1 ≡ 1
  uses-wait_for cv mutex milliseconds w h =
      rw (os.wait_for_holds cv mutex milliseconds w (uses_one mutex w h)) refl

  pub uses-notify_all :
      (mutex cv : ℕ) (w : os.World) → uses mutex (os.cv_notify_all cv w) ≡ uses mutex w
  uses-notify_all mutex cv w = rw (os.notify_all_holds mutex cv w) refl

-- The standard library as an operating system for the node; `cv_of` gives the condition variable of a
-- place in `events`.
abbrev pub std : Std → ℕ → (ℕ → ℕ) → Os
std os class_mutex cv_of = record {
  World = os.World;
  uses = uses os class_mutex;
  lock = os.mutex_lock class_mutex;
  unlock = os.mutex_unlock class_mutex;
  destroy = destroy_lock os class_mutex;
  wait_for = λ event_index milliseconds w.
      let (status, woken) = os.cv_wait_for (cv_of event_index) class_mutex milliseconds w in
      (is_no_timeout status, woken);
  notify_all = λ event_index w. os.cv_notify_all (cv_of event_index) w;
  uses-lock = uses-lock os class_mutex;
  uses-unlock = uses-unlock os class_mutex;
  uses-destroy = uses-destroy_lock os class_mutex;
  uses-wait_for = λ event_index milliseconds w h.
      uses-wait_for os (cv_of event_index) class_mutex milliseconds w h;
  uses-notify_all = λ event_index w. uses-notify_all os class_mutex (cv_of event_index) w;
}
