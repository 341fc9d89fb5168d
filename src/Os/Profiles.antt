-- ===== src/Os/Profiles.antt =====
-- `PublishWait` of src/EmbeddedSerialFiller_RTOS.cpp on embOS, on FreeRTOS and on the standard library of C++.
use embedded_serial_filler.Base.{
  ℕ, ◌+◌, ◌%◌, ◌^◌, ◌≤◌, ◌<◌, ◌≡◌, true, false, refl, List, length, if◌then◌else◌, some, ok, arith,
}
use embedded_serial_filler.Definitions.{
  Config, PublishResponse, max_packet_size, max_topic_length, max_pending_acks,
}
use embedded_serial_filler.Etl.{Etl}
use embedded_serial_filler.Cobs.Encoded.{encoded_size}
use embedded_serial_filler.Rtos.{Node, find_free}
use embedded_serial_filler.Rtos.Threads.Events.{in_use}
use embedded_serial_filler.Os.{publish_wait}
use embedded_serial_filler.Os.Embos
use embedded_serial_filler.Os.FreeRtos
use embedded_serial_filler.Os.Calls.{publish_wait_lem}
use embedded_serial_filler.Os.Embos.{EmbOs, embos}
use embedded_serial_filler.Os.Std.{Std, std, uses_none}
use embedded_serial_filler.Os.FreeRtos.{FreeRtos, freertos}

module _ (etl : Etl) (config : Config) (meanwhile : Node → Node) (node : Node)
    (topic payload : List ℕ) (timeout : ℕ) (safe : node.thread_safety_enabled ≡ true)
    (room : length node.ack_events < max_pending_acks)
    (free : in_use node.events < length node.events) (topic_fits : length topic ≤ max_topic_length)
    (fits : encoded_size (5 + length topic + length payload) ≤ max_packet_size) where
  -- `PublishWait` on embOS, with thread safety enabled, room on the list of pending events, a free
  -- event, and a message that fits, called by a task that does not hold the mutex: it waits for
  -- the first free event, without the mutex, returns SUCCESS exactly if the event is signaled
  -- within the time and TIMEOUT otherwise, whatever other threads do to the node meanwhile, and
  -- leaves the task without the mutex.
  pub publish_wait-embos :
      (os : EmbOs) (mutex : ℕ) (w : os.World)
      → os.uses mutex w ≡ 0
      → let unlocked = os.mutex_unlock mutex (os.mutex_lock_blocked mutex w) in
        (event_index : ℕ) × (node' : Node) × (w' : os.World) × (find_free 0 node.events
          ≡ some event_index)
        × (publish_wait (embos os mutex) etl config meanwhile node topic payload timeout w
            ≡ ok (
              (if os.comes event_index (os.to_time timeout) unlocked
                  then PublishResponse.success
                  else PublishResponse.timeout),
              node',
              w',
            ))
        × (os.uses mutex unlocked ≡ 0)
        × (os.uses mutex w' ≡ 0)
  unfolding Embos.wait_for Embos.lock Embos.unlock
  publish_wait-embos os mutex w u =
      let (i, node', e, p, held, after) =
        publish_wait_lem (embos os mutex) etl config meanwhile node topic payload timeout w safe u
          room free topic_fits fits in
      let result =
        os.get_timed_result i (os.to_time timeout)
          (os.mutex_unlock mutex (os.mutex_lock_blocked mutex w)) in
      (
        i,
        node',
        _,
        e,
        ground (arith, p, result),
        os.unlock_uses mutex (os.mutex_lock_blocked mutex w) 0 held,
        after,
      )

  -- `PublishWait` on FreeRTOS, with thread safety enabled, room on the list of pending events, a
  -- free event, and a message that fits, called by a task that does not hold the mutex, has its
  -- result the wrong way round: it returns TIMEOUT exactly if the bit of the first free event's
  -- group is set within the time, and SUCCESS otherwise. It waits with the mutex held, and leaves
  -- the task without it.
  pub publish_wait-freertos :
      (os : FreeRtos) (mutex : ℕ) (group_of : ℕ → ℕ) (w : os.World)
      → os.uses mutex w ≡ 0
      → let locked = os.semaphore_take mutex os.port_max_delay w in
        (event_index : ℕ) × (node' : Node) × (w' : os.World) × (find_free 0 node.events
          ≡ some event_index)
        × (publish_wait
              (freertos os mutex group_of)
              etl
              config
              meanwhile
              node
              topic
              payload
              timeout
              w
            ≡ ok (
              (if os.comes (group_of event_index) 1 (timeout % 2 ^ os.tick_bits) locked
                  then PublishResponse.timeout
                  else PublishResponse.success),
              node',
              w',
            ))
        × (os.uses mutex locked ≡ 1)
        × (os.uses mutex w' ≡ 0)
  unfolding FreeRtos.wait_for FreeRtos.lock
  publish_wait-freertos os mutex group_of w u =
      let (i, node', e, p, held, after) =
        publish_wait_lem (freertos os mutex group_of) etl config meanwhile node topic payload
          timeout w safe u room free topic_fits fits in
      let result =
        os.wait_bits_result (group_of i) (timeout % 2 ^ os.tick_bits)
          (os.semaphore_take mutex os.port_max_delay w) in
      (i, node', _, e, ground (arith, p, result), held, after)

  -- `PublishWait` on the standard library of C++, with thread safety enabled, room on the list of
  -- pending events, a free event, and a message that fits, called by a thread that does not hold
  -- the mutex: it waits for the condition variable of the first free event, with a lock that owns
  -- the mutex when the wait begins, returns SUCCESS exactly if the wait ends before the time is
  -- over, notified or not, and TIMEOUT otherwise, whatever other threads do to the node meanwhile,
  -- and leaves the thread without the mutex.
  pub publish_wait-std :
      (os : Std) (mutex : ℕ) (cv_of : ℕ → ℕ) (w : os.World)
      → os.holds mutex w ≡ false
      → let locked = os.mutex_lock mutex w in
        (event_index : ℕ) × (node' : Node) × (w' : os.World) × (find_free 0 node.events
          ≡ some event_index)
        × (publish_wait (std os mutex cv_of) etl config meanwhile node topic payload timeout w
            ≡ ok (
              (if os.wakes (cv_of event_index) mutex timeout locked
                  then PublishResponse.success
                  else PublishResponse.timeout),
              node',
              w',
            ))
        × (os.holds mutex locked ≡ true)
        × (os.holds mutex w' ≡ false)
  publish_wait-std os mutex cv_of w u =
      let (i, node', e, p, held, after) =
        publish_wait_lem (std os mutex cv_of) etl config meanwhile node topic payload timeout w safe
          (rw u refl) room free topic_fits fits in
      let owned = os.lock_holds mutex w u in
      (
        i,
        node',
        _,
        e,
        ground (arith, p, os.wait_for_result (cv_of i) mutex timeout (os.mutex_lock mutex w) owned),
        owned,
        uses_none os mutex _ after,
      )
