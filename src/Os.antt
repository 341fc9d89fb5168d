-- ===== src/Os.antt =====
-- What src/EmbeddedSerialFiller_RTOS.cpp relies on of an operating system, behind the macros that
-- include/esf_abstraction.h brings in, and its calls on top of it.
pub mod Calls
pub mod Embos
pub mod FreeRtos
pub mod Std
pub mod Profiles
use embedded_serial_filler.Base.{
  ℕ, ◌≡◌, List, [], ◌∷◌, Bool, true, false, if◌then◌else◌, Option, none, some, Result, ok, ◌>>=◌,
}
use embedded_serial_filler.Definitions.{Config, PublishResponse}
use embedded_serial_filler.Etl.{Etl}
use embedded_serial_filler.Rtos.{
  Action, emit, notify, take_lock, release_lock, Node, find_free, publish_wait_start,
  publish_wait_end,
}

-- An `ESF_LOCK` on `classMutex_`, and the condition variables of the events, seen by one thread. What
-- other threads do while a call blocks is part of the call. `uses` says how often the thread holds the
-- mutex, `destroy` is the destructor of the lock, and the result of `wait_for` says whether it is
-- `ESF_NO_TIMEOUT`.
pub record Os : Type 1 where
  pub World : Type 0
  pub uses : World → ℕ
  pub lock : World → World
  pub unlock : World → World
  pub destroy : World → World
  pub wait_for : ℕ → ℕ → World → Bool × World
  pub notify_all : ℕ → World → World
  pub uses-lock : (w : World) → uses w ≡ 0 → uses (lock w) ≡ 1
  pub uses-unlock : (w : World) → uses w ≡ 1 → uses (unlock w) ≡ 0
  pub uses-destroy : (w : World) → uses w ≡ 1 → uses (destroy w) ≡ 0
  pub uses-wait_for :
      (event_index timeout : ℕ) (w : World)
      → uses w ≡ 1
      → uses (wait_for event_index timeout w).1 ≡ 1
  pub uses-notify_all : (event_index : ℕ) (w : World) → uses (notify_all event_index w) ≡ uses w

module _ (os : Os) where
  -- A call's use of the operating system, in its order.
  unfoldable pub run : List Action → os.World → os.World
  run [] w = w
  run (emit event ∷ actions) w = run actions w
  run (notify event_index ∷ actions) w = run actions (os.notify_all event_index w)
  run (take_lock ∷ actions) w = run actions (os.lock w)
  run (release_lock ∷ actions) w = run actions (os.unlock w)

  -- `PublishWait`, which waits for the event that `publish_wait_start` took; what it hands over is said
  -- there. `meanwhile` is what the other threads do to the node during the wait.
  unfoldable pub publish_wait :
      Etl
      → Config
      → (Node → Node)
      → Node
      → List ℕ
      → List ℕ
      → ℕ
      → os.World
      → Result (PublishResponse × Node × os.World)
  publish_wait etl config meanwhile node topic payload timeout w =
      let entered = if node.thread_safety_enabled then os.lock w else w in
      publish_wait_start etl config node topic payload >>= λ (packet_id, node', actions).
      elim packet_id [
        | none ↦ ok (PublishResponse.timeout, node', os.destroy entered)
        | some packet_id ↦ elim (find_free 0 node.events) [
          | none ↦ ok (PublishResponse.timeout, node', os.destroy entered)
          | some event_index ↦
              let (got_ack, woken) = os.wait_for event_index timeout entered in
              let (response, node'') = publish_wait_end (meanwhile node') packet_id got_ack in
              ok (response, node'', os.destroy woken)
        ]
      ]
