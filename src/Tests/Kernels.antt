-- ===== src/Tests/Kernels.antt =====
-- Three small operating systems with the documented behaviour, in which nothing else runs: an event that
-- is not signaled stays so during a wait.
use embedded_serial_filler.Base.{
  ℕ, ◌+◌, ◌-◌, ◌≡◌, refl, ap, Bool, true, false, ◌==◌, eq→==, if◌then◌else◌, arith,
}
use embedded_serial_filler.Os.Embos.{EmbOs, ResetMode, manual, auto}
use embedded_serial_filler.Os.FreeRtos.{FreeRtos}
use embedded_serial_filler.Os.Std.{Std, CvStatus}

abbrev pub put {ℓ} : {A : Type ℓ} → (ℕ → A) → ℕ → A → ℕ → A
put f i v = λ k. if k == i then v else f k

pub put_same {ℓ} : {A : Type ℓ} (f : ℕ → A) (i : ℕ) (v : A) → put f i v i ≡ v
put_same f i v = rw (eq→== i i refl) refl

pub record Tasks : Type 0 where
  pub mutexes : ℕ → ℕ
  pub signals : ℕ → Bool
  pub modes : ℕ → ResetMode

abbrev pub free_tasks : Tasks
free_tasks = record { mutexes = λ m. 0; signals = λ e. false; modes = λ e. auto }

-- All events are signaled.
abbrev pub signaled_tasks : Tasks
signaled_tasks = record free_tasks { signals = λ e. true }

abbrev test_get_timed : ℕ → ℕ → Tasks → ℕ × Tasks
test_get_timed event timeout w =
    ((if w.signals event then 0 else 1), record w { signals = put w.signals event false })

abbrev pub test_embos : EmbOs
test_embos = record {
  World = Tasks;
  uses = λ m w. w.mutexes m;
  signaled = λ e w. w.signals e;
  waiting = λ e w. 0;
  mode = λ e w. w.modes e;
  comes = λ e t w. w.signals e;
  to_time = λ t. t;
  mutex_create = λ m w. record w { mutexes = put w.mutexes m 0 };
  mutex_lock_blocked = λ m w. record w { mutexes = put w.mutexes m (w.mutexes m + 1) };
  mutex_unlock = λ m w. record w { mutexes = put w.mutexes m (w.mutexes m - 1) };
  event_create = λ e w. record w { signals = put w.signals e false; modes = put w.modes e manual };
  event_set_reset_mode = λ e m w. record w { modes = put w.modes e m };
  event_get_timed = test_get_timed;
  event_reset = λ e w. record w { signals = put w.signals e false };
  event_set = λ e w. record w { signals = put w.signals e true };
  lock_uses = λ m w. put_same w.mutexes m (w.mutexes m + 1);
  unlock_uses = λ m w n h. omega (arith, h, put_same w.mutexes m (w.mutexes m - 1));
  unlock_signaled = λ m e w h. h;
  unlock_mode = λ m e w. refl;
  create_signaled = λ e w. put_same w.signals e false;
  set_reset_mode_mode = λ e m w. put_same w.modes e m;
  set_reset_mode_signaled = λ e m w. refl;
  get_timed_result = λ e t w. refl;
  get_timed_signaled = λ e t w h k. put_same w.signals e false;
  get_timed_uses = λ m e t w. refl;
  signaled_comes = λ e t w h. h;
  reset_signaled = λ e w. put_same w.signals e false;
  reset_uses = λ m e w. refl;
  set_signaled = λ e w h. put_same w.signals e true;
  set_mode = λ e w. refl;
  set_uses = λ m e w. refl;
}

abbrev pub test_freertos : FreeRtos
test_freertos = record {
  World = Tasks;
  uses = λ m w. w.mutexes m;
  comes = λ g b t w. w.signals g;
  tick_bits = 32;
  port_max_delay = 0xffffffff;
  semaphore_create_mutex_static = λ b w. (b, record w { mutexes = put w.mutexes b 0 });
  semaphore_take = λ m t w. record w { mutexes = put w.mutexes m 1 };
  semaphore_give = λ m w. record w { mutexes = put w.mutexes m 0 };
  event_group_create_static = λ b w. (b, record w { signals = put w.signals b false });
  event_group_wait_bits = λ g b clear all t w.
      ((if w.signals g then 1 else 0), record w { signals = put w.signals g false });
  event_group_set_bits = λ g b w. record w { signals = put w.signals g true };
  take_uses = λ m w h. put_same w.mutexes m 1;
  give_uses = λ m w h. put_same w.mutexes m 0;
  wait_bits_result = λ g t w. refl;
  wait_bits_uses = λ m g t w. refl;
  set_bits_uses = λ m g w. refl;
}

abbrev pub test_std : Std
test_std = record {
  World = Tasks;
  holds = λ m w. w.mutexes m == 1;
  wakes = λ c m t w. w.signals c;
  mutex_lock = λ m w. record w { mutexes = put w.mutexes m 1 };
  mutex_unlock = λ m w. record w { mutexes = put w.mutexes m 0 };
  cv_wait_for = λ c m t w. (
    (if w.signals c then CvStatus.no_timeout else CvStatus.timeout),
    record w { signals = put w.signals c false },
  );
  cv_notify_all = λ c w. record w { signals = put w.signals c true };
  lock_holds = λ m w h. ap (λ n. n == 1) (put_same w.mutexes m 1);
  unlock_holds = λ m w h. ap (λ n. n == 1) (put_same w.mutexes m 0);
  wait_for_result = λ c m t w h. refl;
  wait_for_holds = λ c m t w h. h;
  notify_all_holds = λ m c w. refl;
}
