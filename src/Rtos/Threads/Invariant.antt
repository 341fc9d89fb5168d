-- ===== src/Rtos/Threads/Invariant.antt =====
-- Every call of src/EmbeddedSerialFiller_RTOS.cpp keeps what holds of the node and the threads.
use embedded_serial_filler.Base.{
  ℕ, ◌<◌, ◌≡◌, refl, sym, ◌∙◌, ap, List, [], ◌∷◌, ◌++◌, length, length-append, get_or, set,
  get_or-set_self, length-set, All-append, Bool-cases, leb, none, some, Option-cases, ok, >>=-ok,
  inl, inr, arith,
}
use embedded_serial_filler.Definitions.{Config, broadcast, publish, max_pending_acks}
use embedded_serial_filler.Etl.{Etl}
use embedded_serial_filler.Outgoing.{publish_internal}
use embedded_serial_filler.Outgoing.Contents.{IsPacketId, publish_internal-IsPacketId}
use embedded_serial_filler.Registry.{add_subscriber}
use embedded_serial_filler.Rtos.{
  Node, Action, find_free, publish_wait_start, publish_on, subscribe, unsubscribe, unsubscribe_all,
  set_thread_safety_enabled,
}
use embedded_serial_filler.Rtos.Threads.{
  Thread, System, IsFresh, Step, publishes, waits, gives_up, resumes, subscribes, unsubscribes,
  unsubscribes_all, sets_thread_safety, receives, receives_part, Reach, here, next,
}
use embedded_serial_filler.Rtos.Threads.Events.{in_use, find_free-some, in_use-set}
use embedded_serial_filler.Rtos.Rounds.{give_rx_data-IsQuiet}
use embedded_serial_filler.Rtos.Threads.Tracked.{
  IsTracked, start-IsTracked, kept-IsTracked, resumes-IsTracked, owners-set, places-append,
  Distinct-append,
}

module _ (etl : Etl) (config : Config) (effect : ℕ → List ℕ → List ℕ) where
  -- A wait that begins: the event that it takes, and the node.
  record IsWaiting (node : Node) (event_index packet_id : ℕ) (node' : Node) : Type 0 where
    room : length node.ack_events < max_pending_acks
    packet : packet_id ≡ node.next_packet_id
    listed : node'.ack_events ≡ node.ack_events ++ event_index ∷ []
    events : node'.events ≡ set node.events event_index packet_id
    next_id : IsPacketId node'.next_packet_id

  publish_wait_start-IsWaiting :
      (node : Node) (topic payload : List ℕ) (event_index packet_id : ℕ) (node' : Node)
      (actions : List Action)
      → find_free 0 node.events ≡ some event_index
      → publish_wait_start etl config node topic payload ≡ ok (some packet_id, node', actions)
      → IsPacketId node.next_packet_id
      → IsWaiting node event_index packet_id node'
  unfolding publish_wait_start
  publish_wait_start-IsWaiting node topic payload event_index packet_id node' actions e h v =
      elim (Bool-cases (leb max_pending_acks (length node.ack_events))) [
        | inl full ↦ absurd (ground (arith, full, h))
        | inr less ↦
            (let room : length node.ack_events < max_pending_acks = ground (arith, less) in
              let pushed = etl.push_back_fits ℕ max_pending_acks node.ack_events event_index room in
              let (p, q, k) =
                >>=-ok
                  (publish_internal etl config node.tx_data_ready_set publish node.next_packet_id
                    (some topic) (some payload))
                  _ _ (rw (less, e, pushed) at h) in
              record {
                room = room;
                packet = ground (arith, k);
                listed = ground (arith, k);
                events = ground (arith, k);
                next_id = ground (
                  arith,
                  k,
                  publish_internal-IsPacketId etl config node.tx_data_ready_set publish
                      node.next_packet_id (some topic) (some payload) p q v,
                );
              })
      ]

  waits-IsTracked :
      (s : System) (topic payload : List ℕ) (event_index packet_id : ℕ) (node' : Node)
      (actions : List Action)
      → IsFresh s
      → find_free 0 s.node.events ≡ some event_index
      → publish_wait_start etl config s.node topic payload ≡ ok (some packet_id, node', actions)
      → IsTracked s
      → IsTracked (record {
        node = node';
        waiting = s.waiting ++ record { event_index = event_index; packet_id = packet_id } ∷ [];
      })
  waits-IsTracked s topic payload event_index packet_id node' actions fresh e h v =
      let t : Thread = record { event_index = event_index; packet_id = packet_id } in
      let w =
        publish_wait_start-IsWaiting s.node topic payload event_index packet_id node' actions e h
          v.next_id in
      let (i, same, l, z) = find_free-some 0 s.node.events event_index e in
      let taken : event_index ≡ i = omega (arith, same) in
      let free : get_or s.node.events event_index 0 ≡ 0 = rw taken z in
      let place : event_index < length s.node.events = rw taken l in
      let positive : 0 < packet_id = omega (arith, w.packet, v.next_id.0) in
      record {
        listed =
            w.listed
            ∙ ap (λ a. a ++ event_index ∷ []) v.listed
            ∙ sym (places-append s.waiting (t ∷ []));
        events = ap length w.events ∙ length-set s.node.events event_index packet_id ∙ v.events;
        owners = rw w.events (
            All-append _ s.waiting (t ∷ [])
              (owners-set s.node.events event_index packet_id s.waiting free v.owners)
              (
                record {
                  place = omega (arith, place, length-set s.node.events event_index packet_id);
                  packet = get_or-set_self s.node.events event_index packet_id 0 place;
                  positive = positive;
                },
                tt,
              ));
        distinct = Distinct-append s.waiting t v.distinct (rw w.packet fresh);
        used = omega (
          arith,
          ap in_use w.events,
          in_use-set s.node.events event_index packet_id place free positive,
          v.used,
          length-append s.waiting (t ∷ []),
        );
        next_id = w.next_id;
      }

  -- A call that gives up leaves the node as it was.
  pub publish_wait_start-none :
      (node : Node) (topic payload : List ℕ) (node' : Node) (actions : List Action)
      → publish_wait_start etl config node topic payload ≡ ok (none, node', actions)
      → node' ≡ node
  unfolding publish_wait_start
  publish_wait_start-none node topic payload node' actions h =
      elim (Bool-cases (leb max_pending_acks (length node.ack_events))) [
        | inl full ↦ ground (arith, full, h)
        | inr less ↦ elim (Option-cases (find_free 0 node.events)) [
          | inl e ↦ ground (arith, less, e, h)
          | inr (i, e) ↦
              (let (a, q, k) =
                  >>=-ok (etl.push_back ℕ max_pending_acks node.ack_events i) _ _
                    (rw (less, e) at h) in
                let (p, q', k') =
                  >>=-ok
                    (publish_internal etl config node.tx_data_ready_set publish node.next_packet_id
                      (some topic) (some payload))
                    _ _ k in
                absurd (ground (arith, k')))
        ]
      ]

  publishes-IsTracked :
      (s : System) (topic payload : List ℕ) (packet_id : ℕ) (node' : Node) (actions : List Action)
      → publish_on etl config s.node topic payload ≡ ok (packet_id, node', actions)
      → IsTracked s
      → IsTracked (record s { node = node' })
  unfolding publish_on
  publishes-IsTracked s topic payload packet_id node' actions h v =
      let (p, e, k) =
        >>=-ok
          (publish_internal etl config s.node.tx_data_ready_set broadcast s.node.next_packet_id
            (some topic) (some payload))
          _ _ h in
      kept-IsTracked s node' (ground (arith, k)) (ground (arith, k))
        (ground (
          arith,
          k,
          publish_internal-IsPacketId etl config s.node.tx_data_ready_set broadcast
              s.node.next_packet_id (some topic) (some payload) p e v.next_id,
        ))
        v

  subscribes-IsTracked :
      (s : System) (topic : List ℕ) (delegate id : ℕ) (node' : Node)
      → subscribe etl config s.node topic delegate ≡ ok (id, node')
      → IsTracked s
      → IsTracked (record s { node = node' })
  unfolding subscribe
  subscribes-IsTracked s topic delegate id node' h v =
      let (subscribers, e, k) =
        >>=-ok
          (add_subscriber etl topic
            (record { id = s.node.next_free_subscriber_id; callback = delegate })
            s.node.subscribers)
          _ _ h in
      kept-IsTracked s node' (ground (arith, k)) (ground (arith, k)) (ground (arith, k, v.next_id))
        v

  pub Step-IsTracked : {s s' : System} → Step etl config effect s s' → IsTracked s → IsTracked s'
  unfolding unsubscribe unsubscribe_all set_thread_safety_enabled
  Step-IsTracked {s} (publishes topic payload packet_id node' actions h) v =
      publishes-IsTracked s topic payload packet_id node' actions h v
  Step-IsTracked {s} (waits topic payload event_index packet_id node' actions fresh e h) v =
      waits-IsTracked s topic payload event_index packet_id node' actions fresh e h v
  Step-IsTracked {s} (gives_up topic payload node' actions h) v =
      rw (publish_wait_start-none s.node topic payload node' actions h) v
  Step-IsTracked {s} (resumes before t after got_ack e) v =
      resumes-IsTracked s before t after got_ack e v
  Step-IsTracked {s} (subscribes topic delegate id node' h) v =
      subscribes-IsTracked s topic delegate id node' h v
  Step-IsTracked {s} (unsubscribes id) v = kept-IsTracked s _ refl refl v.next_id v
  Step-IsTracked {s} unsubscribes_all v = kept-IsTracked s _ refl refl v.next_id v
  Step-IsTracked {s} (sets_thread_safety value) v = kept-IsTracked s _ refl refl v.next_id v
  Step-IsTracked {s} (receives_part rx_buffer) v = kept-IsTracked s _ refl refl v.next_id v
  Step-IsTracked {s} (receives rx_data g h) v =
      let quiet = give_rx_data-IsQuiet etl config effect s.node rx_data g h in
      kept-IsTracked s g.node (ap (λ (n : Node). n.ack_events) quiet)
        (ap (λ (n : Node). n.events) quiet)
        (rw (ap (λ (n : Node). n.next_packet_id) quiet) v.next_id) v

  -- After any sequence of calls by any threads, in which a `GiveRxData` may be cut at its
  -- callbacks, and a wait begins only with an identifier that no thread waits for, and may end at
  -- any time: the list of pending events holds exactly the events of the threads that wait, in the
  -- order in which they came; each of these events has its thread's identifier, which is not 0,
  -- and no two have the same; no other event is in use; and the identifier that is next is from 1
  -- to 255.
  pub Reach-IsTracked : {s : System} → Reach etl config effect s → IsTracked s
  Reach-IsTracked (here tx_set no_subscribers_set) = start-IsTracked tx_set no_subscribers_set
  Reach-IsTracked (next reach step) = Step-IsTracked step (Reach-IsTracked reach)
