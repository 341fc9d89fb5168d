-- ===== src/Tests/Os.antt =====
-- The operating systems of include/esf_abstraction.h at concrete inputs.
use embedded_serial_filler.Base.{ℕ, ◌≡◌, refl, [], ◌∷◌, ok, some, true, false, arith}
use embedded_serial_filler.Definitions.{PublishResponse}
use embedded_serial_filler.Incoming.Short.{wires}
use embedded_serial_filler.Rtos
use embedded_serial_filler.Rtos.Receiving
use embedded_serial_filler.Rtos.Receiving.{give_rx_data_messages}
use embedded_serial_filler.Rtos.Threads.Events.{in_use}
use embedded_serial_filler.Os
use embedded_serial_filler.Os.{run}
use embedded_serial_filler.Os.Calls.{give_rx_data-uses}
use embedded_serial_filler.Os.Embos.{
  embos, notify_all, wait_for, esf_no_timeout, notify_all-wait_for,
}
use embedded_serial_filler.Os.FreeRtos.{freertos}
use embedded_serial_filler.Os.Std.{std}
use embedded_serial_filler.Os.Profiles.{publish_wait-embos, publish_wait-freertos, publish_wait-std}
use embedded_serial_filler.Tests.Container.{test_etl}
use embedded_serial_filler.Tests.Kernels.{
  put, Tasks, free_tasks, signaled_tasks, test_embos, test_freertos, test_std,
}
use embedded_serial_filler.Tests.{
  fast, some_raw, clear, some_topic, some_message, some_message-IsShort, threaded_node,
}

-- The task holds the mutex 7, and the event 2 is signaled.
abbrev holding : Tasks
holding = record free_tasks {
  mutexes = put free_tasks.mutexes 7 1;
  signals = put free_tasks.signals 2 true;
}

give_rx_data-uses_example :
    (run
        (embos test_embos 7)
        (Rtos.locked threaded_node
          (Receiving.answers test_etl fast clear threaded_node (some_message ∷ some_message ∷ [])))
        free_tasks).mutexes
      7
    ≡ 0
give_rx_data-uses_example =
    give_rx_data-uses (embos test_embos 7) test_etl fast clear threaded_node
      (wires test_etl (some_message ∷ (some_message ∷ []))) _ free_tasks refl
      (give_rx_data_messages test_etl fast clear threaded_node refl some_message (some_message ∷ [])
        some_message-IsShort (some_message-IsShort, tt))
      refl

notify_all-wait_for_example :
    (wait_for test_embos 5 7 0 (notify_all test_embos 5 holding)).0 ≡ esf_no_timeout
notify_all-wait_for_example = notify_all-wait_for test_embos 5 7 0 holding refl

-- In `threaded_node`, the first event is the one that is free.
publish_wait-embos_example :
    (event_index : ℕ) × (node' : Rtos.Node) × (w' : Tasks) × (Rtos.find_free 0 threaded_node.events
      ≡ some event_index)
    × (Os.publish_wait
          (embos test_embos 7)
          test_etl
          fast
          (λ n. n)
          threaded_node
          some_topic
          some_raw
          100
          signaled_tasks
        ≡ ok (PublishResponse.success, node', w'))
    × (test_embos.uses 7
          (test_embos.mutex_unlock 7 (test_embos.mutex_lock_blocked 7 signaled_tasks))
        ≡ 0)
    × (w'.mutexes 7 ≡ 0)
unfolding in_use
publish_wait-embos_example =
    publish_wait-embos test_etl fast (λ n. n) threaded_node some_topic some_raw 100 refl
      (omega arith) (omega arith) (omega arith) (omega arith) test_embos 7 signaled_tasks refl

publish_wait-freertos_example :
    (event_index : ℕ) × (node' : Rtos.Node) × (w' : Tasks) × (Rtos.find_free 0 threaded_node.events
      ≡ some event_index)
    × (Os.publish_wait
          (freertos test_freertos 7 (λ i. i))
          test_etl
          fast
          (λ n. n)
          threaded_node
          some_topic
          some_raw
          100
          signaled_tasks
        ≡ ok (PublishResponse.timeout, node', w'))
    × (test_freertos.uses 7
          (test_freertos.semaphore_take 7 test_freertos.port_max_delay signaled_tasks)
        ≡ 1)
    × (w'.mutexes 7 ≡ 0)
unfolding in_use
publish_wait-freertos_example =
    publish_wait-freertos test_etl fast (λ n. n) threaded_node some_topic some_raw 100 refl
      (omega arith) (omega arith) (omega arith) (omega arith) test_freertos 7 (λ i. i)
      signaled_tasks refl

publish_wait-std_example :
    (event_index : ℕ) × (node' : Rtos.Node) × (w' : Tasks) × (Rtos.find_free 0 threaded_node.events
      ≡ some event_index)
    × (Os.publish_wait
          (std test_std 7 (λ i. i))
          test_etl
          fast
          (λ n. n)
          threaded_node
          some_topic
          some_raw
          100
          signaled_tasks
        ≡ ok (PublishResponse.success, node', w'))
    × (test_std.holds 7 (test_std.mutex_lock 7 signaled_tasks) ≡ true)
    × (test_std.holds 7 w' ≡ false)
unfolding in_use
publish_wait-std_example =
    publish_wait-std test_etl fast (λ n. n) threaded_node some_topic some_raw 100 refl (omega arith)
      (omega arith) (omega arith) (omega arith) test_std 7 (λ i. i) signaled_tasks refl
