-- ===== src/Os/FreeRtos.antt =====
-- src/esf_freertos_abstraction.cpp and include/esf_freertos_abstraction.h: a lock and a condition
-- variable from a semaphore and an event group of FreeRTOS.
use embedded_serial_filler.Base.{
  ℕ, ◌^◌, ◌%◌, ◌≡◌, ◌∙◌, Bool, true, false, Option, none, some, ◌==◌, if◌then◌else◌,
}
use embedded_serial_filler.Os.{Os}

-- FreeRTOS, as the documentation has it, seen by one task. A semaphore, an event group and the memory
-- for one are known by a number. `uses` says how often the task holds a mutex, `bits` is the value of
-- an event group, and `comes` says whether a bit that is waited for is set, or becomes so within the
-- time.
pub record FreeRtos : Type 1 where
  pub World : Type 0
  pub uses : ℕ → World → ℕ
  pub comes : ℕ → ℕ → ℕ → World → Bool
  pub tick_bits : ℕ
  pub port_max_delay : ℕ
  pub semaphore_create_mutex_static : ℕ → World → ℕ × World
  pub semaphore_take : ℕ → ℕ → World → World
  pub semaphore_give : ℕ → World → World
  pub event_group_create_static : ℕ → World → ℕ × World
  pub event_group_wait_bits : ℕ → ℕ → Bool → Bool → ℕ → World → ℕ × World
  pub event_group_set_bits : ℕ → ℕ → World → World
  -- A mutex is taken once at most; without a limit of time, it is taken in the end.
  pub take_uses :
      (mutex : ℕ) (w : World)
      → uses mutex w ≡ 0
      → uses mutex (semaphore_take mutex port_max_delay w) ≡ 1
  pub give_uses :
      (mutex : ℕ) (w : World) → uses mutex w ≡ 1 → uses mutex (semaphore_give mutex w) ≡ 0
  -- The value of the group, of which no other bit is used, when the bit became set, or else when the
  -- time was over.
  pub wait_bits_result :
      (group ticks : ℕ) (w : World)
      → (event_group_wait_bits group 1 true false ticks w).0
        ≡ (if comes group 1 ticks w then 1 else 0)
  pub wait_bits_uses :
      (mutex group ticks : ℕ) (w : World)
      → uses mutex (event_group_wait_bits group 1 true false ticks w).1 ≡ uses mutex w
  pub set_bits_uses :
      (mutex group : ℕ) (w : World) → uses mutex (event_group_set_bits group 1 w) ≡ uses mutex w

-- `ESF_NO_TIMEOUT`.
abbrev pub esf_no_timeout : ℕ
esf_no_timeout = 0

module _ (os : FreeRtos) where
  unfoldable pub lock : ℕ → os.World → os.World
  lock mutex w = os.semaphore_take mutex os.port_max_delay w

  unfoldable pub unlock : ℕ → os.World → os.World
  unlock mutex w = os.semaphore_give mutex w

  -- The constructor of `FreeRTOS_Lock`: the first one creates the mutex, in memory of its own.
  unfoldable pub new_lock : Option ℕ → ℕ → Bool → os.World → ℕ × os.World
  new_lock mutex mutex_buffer defer_lock w =
      let (handle, created) = create mutex in
      (handle, if defer_lock then created else lock handle created)
    where
      create : Option ℕ → ℕ × os.World
      create none = os.semaphore_create_mutex_static mutex_buffer w
      create (some handle) = (handle, w)

  -- Its destructor.
  unfoldable pub destroy_lock : ℕ → os.World → os.World
  destroy_lock mutex w = unlock mutex w

  -- The constructor of `FreeRTOS_ConditionVariable`.
  unfoldable pub new_condition_variable : ℕ → os.World → ℕ × os.World
  new_condition_variable event_group_buffer w = os.event_group_create_static event_group_buffer w

  -- The lock is not used; the result is a `char`.
  unfoldable pub wait_for : ℕ → ℕ → ℕ → os.World → ℕ × os.World
  wait_for event_group mutex timeout w =
      let (bits, woken) =
        os.event_group_wait_bits event_group 1 true false (timeout % 2 ^ os.tick_bits) w in
      (bits % 2 ^ 8, woken)

  unfoldable pub notify_all : ℕ → os.World → os.World
  notify_all event_group w = os.event_group_set_bits event_group 1 w

  pub uses-lock :
      (mutex : ℕ) (w : os.World) → os.uses mutex w ≡ 0 → os.uses mutex (lock mutex w) ≡ 1
  unfolding lock
  uses-lock mutex w h = os.take_uses mutex w h

  pub uses-unlock :
      (mutex : ℕ) (w : os.World) → os.uses mutex w ≡ 1 → os.uses mutex (unlock mutex w) ≡ 0
  unfolding unlock
  uses-unlock mutex w h = os.give_uses mutex w h

  pub uses-destroy_lock :
      (mutex : ℕ) (w : os.World) → os.uses mutex w ≡ 1 → os.uses mutex (destroy_lock mutex w) ≡ 0
  unfolding destroy_lock
  uses-destroy_lock mutex w h = uses-unlock mutex w h

  pub uses-wait_for :
      (event_group mutex timeout : ℕ) (w : os.World)
      → os.uses mutex w ≡ 1
      → os.uses mutex (wait_for event_group mutex timeout w).1 ≡ 1
  unfolding wait_for
  uses-wait_for event_group mutex timeout w h =
      os.wait_bits_uses mutex event_group (timeout % 2 ^ os.tick_bits) w ∙ h

  pub uses-notify_all :
      (mutex event_group : ℕ) (w : os.World)
      → os.uses mutex (notify_all event_group w) ≡ os.uses mutex w
  unfolding notify_all
  uses-notify_all mutex event_group w = os.set_bits_uses mutex event_group w

-- FreeRTOS as an operating system for the node; `group_of` gives the event group of a place in
-- `events`.
abbrev pub freertos : FreeRtos → ℕ → (ℕ → ℕ) → Os
freertos os class_mutex group_of = record {
  World = os.World;
  uses = os.uses class_mutex;
  lock = lock os class_mutex;
  unlock = unlock os class_mutex;
  destroy = destroy_lock os class_mutex;
  wait_for = λ event_index timeout w.
      let (result, woken) = wait_for os (group_of event_index) class_mutex timeout w in
      (result == esf_no_timeout, woken);
  notify_all = λ event_index w. notify_all os (group_of event_index) w;
  uses-lock = uses-lock os class_mutex;
  uses-unlock = uses-unlock os class_mutex;
  uses-destroy = uses-destroy_lock os class_mutex;
  uses-wait_for =
      λ event_index timeout w h. uses-wait_for os (group_of event_index) class_mutex timeout w h;
  uses-notify_all = λ event_index w. uses-notify_all os class_mutex (group_of event_index) w;
}
