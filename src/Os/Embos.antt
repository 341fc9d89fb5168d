-- ===== src/Os/Embos.antt =====
-- src/esf_embos_abstraction.cpp and include/esf_embos_abstraction.h: a mutex, a lock and a condition
-- variable from those of embOS.
use embedded_serial_filler.Base.{
  ℕ, ◌+◌, ◌%◌, ◌^◌, ◌≡◌, ◌∙◌, Bool, true, false, not, ◌==◌, if◌then◌else◌, Bool-cases, inl, inr,
  arith,
}
use embedded_serial_filler.Os.{Os}

pub data ResetMode : Type 0 where
  semiauto manual auto : ResetMode

-- embOS, as the documentation has it, seen by one task. A mutex and an event are known by a number.
-- `uses` is the use counter of a mutex that the task owns, `waiting` the number of tasks that wait for
-- an event, and `comes` says whether it is signaled or becomes so within the time.
pub record EmbOs : Type 1 where
  pub World : Type 0
  pub uses : ℕ → World → ℕ
  pub signaled : ℕ → World → Bool
  pub waiting : ℕ → World → ℕ
  pub mode : ℕ → World → ResetMode
  pub comes : ℕ → ℕ → World → Bool
  pub to_time : ℕ → ℕ
  pub mutex_create : ℕ → World → World
  pub mutex_lock_blocked : ℕ → World → World
  pub mutex_unlock : ℕ → World → World
  pub event_create : ℕ → World → World
  pub event_set_reset_mode : ℕ → ResetMode → World → World
  pub event_get_timed : ℕ → ℕ → World → ℕ × World
  pub event_reset : ℕ → World → World
  pub event_set : ℕ → World → World
  -- A mutex counts the uses of its owner, and releasing it leaves an event as it is.
  pub lock_uses :
      (mutex : ℕ) (w : World) → uses mutex (mutex_lock_blocked mutex w) ≡ uses mutex w + 1
  pub unlock_uses :
      (mutex : ℕ) (w : World) (n : ℕ) → uses mutex w ≡ n + 1 → uses mutex (mutex_unlock mutex w) ≡ n
  pub unlock_signaled :
      (mutex event : ℕ) (w : World)
      → signaled event w ≡ true
      → signaled event (mutex_unlock mutex w) ≡ true
  pub unlock_mode : (mutex event : ℕ) (w : World) → mode event (mutex_unlock mutex w) ≡ mode event w
  -- An event: new ones are not signaled; a wait returns 0 in time and 1 otherwise, and takes the
  -- signal with it in the automatic mode.
  pub create_signaled : (event : ℕ) (w : World) → signaled event (event_create event w) ≡ false
  pub set_reset_mode_mode :
      (event : ℕ) (m : ResetMode) (w : World) → mode event (event_set_reset_mode event m w) ≡ m
  pub set_reset_mode_signaled :
      (event : ℕ) (m : ResetMode) (w : World)
      → signaled event (event_set_reset_mode event m w) ≡ signaled event w
  pub get_timed_result :
      (event timeout : ℕ) (w : World)
      → (event_get_timed event timeout w).0 ≡ (if comes event timeout w then 0 else 1)
  pub get_timed_signaled :
      (event timeout : ℕ) (w : World)
      → mode event w ≡ auto
      → comes event timeout w ≡ true
      → signaled event (event_get_timed event timeout w).1 ≡ false
  pub get_timed_uses :
      (mutex event timeout : ℕ) (w : World)
      → uses mutex (event_get_timed event timeout w).1 ≡ uses mutex w
  pub signaled_comes :
      (event timeout : ℕ) (w : World) → signaled event w ≡ true → comes event timeout w ≡ true
  pub reset_signaled : (event : ℕ) (w : World) → signaled event (event_reset event w) ≡ false
  pub reset_uses : (mutex event : ℕ) (w : World) → uses mutex (event_reset event w) ≡ uses mutex w
  pub set_signaled :
      (event : ℕ) (w : World) → waiting event w ≡ 0 → signaled event (event_set event w) ≡ true
  pub set_mode : (event : ℕ) (w : World) → mode event (event_set event w) ≡ mode event w
  pub set_uses : (mutex event : ℕ) (w : World) → uses mutex (event_set event w) ≡ uses mutex w

-- `ESF_NO_TIMEOUT`.
abbrev pub esf_no_timeout : ℕ
esf_no_timeout = 0

module _ (os : EmbOs) where
  -- `Embos_Builder`.
  unfoldable pub builder : ℕ → os.World → os.World
  builder mutex w = os.mutex_create mutex w

  unfoldable pub lock : ℕ → os.World → os.World
  lock mutex w = os.mutex_lock_blocked mutex w

  unfoldable pub unlock : ℕ → os.World → os.World
  unlock mutex w = os.mutex_unlock mutex w

  -- The constructor and the destructor of `Embos_Lock`.
  unfoldable pub new_lock : ℕ → Bool → os.World → os.World
  new_lock mutex defer_lock w = if defer_lock then w else lock mutex w

  unfoldable pub destroy_lock : ℕ → os.World → os.World
  destroy_lock mutex w = unlock mutex w

  -- The constructor of `Embos_ConditionVariable`.
  unfoldable pub new_condition_variable : ℕ → os.World → os.World
  new_condition_variable event w = os.event_set_reset_mode event auto (os.event_create event w)

  -- After a timeout the event is reset.
  unfoldable pub after_wait : ℕ → ℕ → os.World → os.World
  after_wait event result w = if not (result == esf_no_timeout) then os.event_reset event w else w

  -- The result is an `int8_t`.
  unfoldable pub wait_for : ℕ → ℕ → ℕ → os.World → ℕ × os.World
  wait_for event mutex timeout w =
      let (got, waited) = os.event_get_timed event (os.to_time timeout) (unlock mutex w) in
      let result = got % 2 ^ 8 in (result, lock mutex (after_wait event result waited))

  unfoldable pub notify_all : ℕ → os.World → os.World
  notify_all event w = os.event_set event w

  uses-after_wait :
      (mutex event result : ℕ) (w : os.World)
      → os.uses mutex (after_wait event result w) ≡ os.uses mutex w
  unfolding after_wait
  uses-after_wait mutex event result w = ground (arith, os.reset_uses mutex event w)

  -- The mutex is free while the task waits, and its own again when `wait_for` returns.
  pub uses-wait_for :
      (mutex event timeout : ℕ) (w : os.World)
      → os.uses mutex w ≡ 1
      → os.uses mutex (wait_for event mutex timeout w).1 ≡ 1
  unfolding wait_for lock unlock
  uses-wait_for mutex event timeout w h =
      let unlocked = os.mutex_unlock mutex w in
      let r = os.event_get_timed event (os.to_time timeout) unlocked in
      omega (
        arith,
        os.unlock_uses mutex w 0 h,
        os.get_timed_uses mutex event (os.to_time timeout) unlocked,
        uses-after_wait mutex event (r.0 % 2 ^ 8) r.1,
        os.lock_uses mutex (after_wait event (r.0 % 2 ^ 8) r.1),
      )

  pub uses-lock :
      (mutex : ℕ) (w : os.World) → os.uses mutex w ≡ 0 → os.uses mutex (lock mutex w) ≡ 1
  unfolding lock
  uses-lock mutex w h = omega (arith, h, os.lock_uses mutex w)

  pub uses-unlock :
      (mutex : ℕ) (w : os.World) → os.uses mutex w ≡ 1 → os.uses mutex (unlock mutex w) ≡ 0
  unfolding unlock
  uses-unlock mutex w h = os.unlock_uses mutex w 0 h

  pub uses-destroy_lock :
      (mutex : ℕ) (w : os.World) → os.uses mutex w ≡ 1 → os.uses mutex (destroy_lock mutex w) ≡ 0
  unfolding destroy_lock
  uses-destroy_lock mutex w h = uses-unlock mutex w h

  pub uses-notify_all :
      (mutex event : ℕ) (w : os.World) → os.uses mutex (notify_all event w) ≡ os.uses mutex w
  unfolding notify_all
  uses-notify_all mutex event w = os.set_uses mutex event w

  -- `Embos_ConditionVariable::wait_for`, on an event in the automatic mode and a mutex that the
  -- task holds once: it returns ESF_NO_TIMEOUT exactly if the event is signaled within the time,
  -- and 1 otherwise; the mutex is free during the wait; when it is taken again the event is no
  -- longer signaled, after a timeout too; and the task then holds it once, as before.
  wait_for_lem :
      (event mutex timeout : ℕ) (w : os.World)
      → os.mode event w ≡ auto
      → os.uses mutex w ≡ 1
      → let unlocked = os.mutex_unlock mutex w in
        (waited : os.World) × (wait_for event mutex timeout w ≡ (
          (if os.comes event (os.to_time timeout) unlocked then esf_no_timeout else 1),
          os.mutex_lock_blocked mutex waited,
        ))
        × (os.uses mutex unlocked ≡ 0)
        × (os.uses mutex waited ≡ 0)
        × (os.signaled event waited ≡ false)
        × (os.uses mutex (wait_for event mutex timeout w).1 ≡ 1)
  unfolding wait_for lock unlock after_wait
  wait_for_lem event mutex timeout w m h =
      let unlocked = os.mutex_unlock mutex w in
      let r = os.event_get_timed event (os.to_time timeout) unlocked in
      let result = os.get_timed_result event (os.to_time timeout) unlocked in
      let free = os.unlock_uses mutex w 0 h in
      (
        after_wait event (r.0 % 2 ^ 8) r.1,
        ground (arith, result),
        free,
        omega (
          arith,
          free,
          os.get_timed_uses mutex event (os.to_time timeout) unlocked,
          uses-after_wait mutex event (r.0 % 2 ^ 8) r.1,
        ),
        elim (Bool-cases (os.comes event (os.to_time timeout) unlocked)) [
          | inl e ↦ ground (
            arith,
            e,
            result,
            os.get_timed_signaled event (os.to_time timeout) unlocked
                (os.unlock_mode mutex event w ∙ m) e,
          )
          | inr e ↦ ground (arith, e, result, os.reset_signaled event r.1)
        ],
        uses-wait_for mutex event timeout w h,
      )

  -- A notification for which no task waits yet is not lost on embOS: `notify_all` and then
  -- `wait_for` returns ESF_NO_TIMEOUT, whatever the timeout.
  pub notify_all-wait_for :
      (event mutex timeout : ℕ) (w : os.World)
      → os.waiting event w ≡ 0
      → (wait_for event mutex timeout (notify_all event w)).0 ≡ esf_no_timeout
  unfolding wait_for unlock notify_all
  notify_all-wait_for event mutex timeout w h =
      let unlocked = os.mutex_unlock mutex (os.event_set event w) in
      ground (
        arith,
        os.get_timed_result event (os.to_time timeout) unlocked,
        os.signaled_comes event (os.to_time timeout) unlocked
            (os.unlock_signaled mutex event (os.event_set event w) (os.set_signaled event w h)),
      )

-- embOS as an operating system for the node; the events' numbers are their places in `events`.
abbrev pub embos : EmbOs → ℕ → Os
embos os class_mutex = record {
  World = os.World;
  uses = os.uses class_mutex;
  lock = lock os class_mutex;
  unlock = unlock os class_mutex;
  destroy = destroy_lock os class_mutex;
  wait_for = λ event_index timeout w.
      let (result, woken) = wait_for os event_index class_mutex timeout w in
      (result == esf_no_timeout, woken);
  notify_all = notify_all os;
  uses-lock = uses-lock os class_mutex;
  uses-unlock = uses-unlock os class_mutex;
  uses-destroy = uses-destroy_lock os class_mutex;
  uses-wait_for = λ event_index timeout w h. uses-wait_for os class_mutex event_index timeout w h;
  uses-notify_all = λ event_index w. uses-notify_all os class_mutex event_index w;
}
