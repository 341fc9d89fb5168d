-- ===== src/Rtos/Threads/Acks.antt =====
-- `PublishWait` and acknowledgements of src/EmbeddedSerialFiller_RTOS.cpp, for any number of threads.
use embedded_serial_filler.Base.{
  ℕ, ◌+◌, ◌≤◌, ◌<◌, ◌≡◌, ◌≢◌, refl, sym, ◌∙◌, ap, ap₂, subst, ◌⊎◌, inl, inr, List, [], ◌∷◌, ◌++◌,
  length, replicate, get_or, set, All, true, none, some, ok, arith, ltb, if◌then◌else◌,
}
use native.Mathlib.Decide.{ℕ_discrete, dec_lt}
use embedded_serial_filler.Definitions.{
  Config, to_byte, unexpected_ack, max_packet_size, max_topic_length, max_pending_acks,
}
use embedded_serial_filler.Etl.{Etl}
use embedded_serial_filler.Cobs.Encoded.{encoded_size}
use embedded_serial_filler.Outgoing.{tx_data_ready, next_id}
use embedded_serial_filler.Outgoing.Contents.{contents, sent, publish_internal-message}
use embedded_serial_filler.Incoming.{acknowledged}
use embedded_serial_filler.Rtos.{
  Node, emit, notify, locked, find_free, find_pending, num_threads_waiting, publish_wait_start,
  handle,
}
use embedded_serial_filler.Rtos.Threads.{Thread, System, Reach}
use embedded_serial_filler.Rtos.Threads.Events.{
  IsOwner, places, Others, find_free-in_use, find_pending-places, find_pending-none, in_use_zero,
  in_use-le,
}
use embedded_serial_filler.Rtos.Threads.Invariant.{Reach-IsTracked}
use embedded_serial_filler.Rtos.Threads.Tracked.{
  middle-IsAmong, Others-All, length-places, Distinct,
}

-- The thread that waits for a packet, if there is one.
abbrev Awaits : ℕ → List Thread → Type 0
Awaits packet_id ts =
    ((before : List Thread) × (t : Thread) × (after : List Thread) × (ts ≡ before ++ t ∷ after)
      × (t.packet_id ≡ packet_id))
    ⊎ All (λ (t : Thread). t.packet_id ≢ packet_id) ts

awaits : (packet_id : ℕ) (ts : List Thread) → Awaits packet_id ts
awaits packet_id [] = inr tt
awaits packet_id (t ∷ ts) = elim (ℕ_discrete t.packet_id packet_id) [
  | yes e ↦ inl ([], t, ts, refl, e)
  | no ne ↦ elim (awaits packet_id ts) [
    | inl (before, u, after, e, k) ↦ inl (t ∷ before, u, after, ap (◌∷◌ t) e, k)
    | inr all ↦ inr (ne, all)
  ]
]

-- Threads that wait for other packets wait at other events.
Others-places :
    (events : List ℕ) (t : Thread) (ts : List Thread)
    → IsOwner events t
    → Others events t.packet_id ts
    → All (λ (u : Thread). u.event_index ≢ t.event_index) ts
Others-places events t [] v h = tt
Others-places events t (u ∷ ts) v h = (
  (λ e. h.0.1 (sym h.0.0.packet ∙ ap (λ i. get_or events i 0) e ∙ v.packet)),
  Others-places events t ts v h.1,
)

module _ (etl : Etl) (config : Config) (effect : ℕ → List ℕ → List ℕ) where
  -- In any state that calls by any threads lead to from a new node, where a wait begins only with
  -- an identifier that no thread waits for: an acknowledgement, with any identifier, either
  -- notifies the event of the one thread that waits for it, while all other waiting threads have
  -- other events, or, if no thread waits for it, is refused with ERROR_UNEXPECTED_ACK and notifies
  -- nobody.
  pub handle_acknowledged :
      (s : System) (packet_id : ℕ)
      → Reach etl config effect s
      → ((before : List Thread) × (t : Thread) × (after : List Thread) × (s.waiting
            ≡ before ++ t ∷ after)
          × (t.packet_id ≡ packet_id)
          × All (λ (u : Thread). u.event_index ≢ t.event_index) (before ++ after)
          × (handle etl config effect s.node (acknowledged packet_id)
              ≡ ok (none, notify t.event_index ∷ [])))
        ⊎ (All (λ (t : Thread). t.packet_id ≢ packet_id) s.waiting
            × (handle etl config effect s.node (acknowledged packet_id)
                ≡ ok (some unexpected_ack, [])))
  unfolding handle
  handle_acknowledged s packet_id reach =
      let v = Reach-IsTracked etl config effect reach in
      elim (awaits packet_id s.waiting) [
        | inl (before, t, after, e, k) ↦
            (let a =
                middle-IsAmong s.node.events before t after
                  (subst (All (IsOwner s.node.events)) e v.owners) (subst Distinct e v.distinct) in
              let found : find_pending packet_id s.node.events s.node.ack_events
                  ≡ some t.event_index =
                ap₂ (λ n l. find_pending n s.node.events l) (sym k) (v.listed ∙ ap places e)
                ∙ find_pending-places s.node.events before t after a.earlier a.owner in
              inl (
                before,
                t,
                after,
                e,
                k,
                Others-places s.node.events t (before ++ after) a.owner a.others,
                ground (arith, found),
              ))
        | inr all ↦ inr (
          all,
          ground (
            arith,
            ap (find_pending packet_id s.node.events) v.listed
                ∙ find_pending-none s.node.events packet_id s.waiting
                    (Others-All s.node.events packet_id s.waiting v.owners all),
          ),
        )
      ]

  -- In any state that calls by any threads lead to from a new node, where a wait begins only with
  -- an identifier that no thread waits for, and in which no thread waits, the list of pending
  -- events is empty and all events are free.
  events_released :
      (s : System)
      → Reach etl config effect s
      → s.waiting ≡ []
      → (s.node.ack_events ≡ []) × (s.node.events ≡ replicate max_pending_acks 0)
  events_released s reach e =
      let v = Reach-IsTracked etl config effect reach in
      (
        v.listed ∙ ap places e,
        in_use_zero s.node.events (v.used ∙ ap length e) ∙ ap (λ n. replicate n 0) v.events,
      )

  -- In any state that calls by any threads lead to from a new node, where a wait begins only with
  -- an identifier that no thread waits for: `NumThreadsWaiting` is the number of threads that
  -- wait, which is at most `ESF_MAX_PENDING_ACKS`; and `PublishWait` with a message that fits
  -- finds a free event, publishes under the node's next identifier and waits if fewer threads wait
  -- than that, and otherwise publishes nothing and gives up, with the node as it was.
  pub publish_wait_start-waiting :
      (s : System) (topic payload : List ℕ)
      → Reach etl config effect s
      → length topic ≤ max_topic_length
      → encoded_size (5 + length topic + length payload) ≤ max_packet_size
      → (num_threads_waiting s.node ≡ length s.waiting)
        × (length s.waiting ≤ max_pending_acks)
        × (((length s.waiting < max_pending_acks)
              × (event_index : ℕ) × (node' : Node) × (find_free 0 s.node.events ≡ some event_index)
              × (publish_wait_start etl config s.node topic payload
                  ≡ ok (
                    some s.node.next_packet_id,
                    node',
                    locked s.node (
                        if s.node.tx_data_ready_set
                        then emit (
                            tx_data_ready
                              (sent etl (contents 0x50 s.node.next_packet_id topic payload)))
                          ∷ []
                        else []),
                  )))
            ⊎ ((length s.waiting ≡ max_pending_acks)
                × (publish_wait_start etl config s.node topic payload
                    ≡ ok (none, s.node, locked s.node []))))
  unfolding publish_wait_start num_threads_waiting to_byte
  publish_wait_start-waiting s topic payload reach topic_fits fits =
      let v = Reach-IsTracked etl config effect reach in
      let count : length s.node.ack_events ≡ length s.waiting =
        ap length v.listed ∙ length-places s.waiting in
      let most : length s.waiting ≤ max_pending_acks =
        omega (arith, v.used, v.events, in_use-le s.node.events) in
      (
        count,
        most,
        elim (dec_lt (length s.waiting) max_pending_acks) [
          | yes less ↦
              (let (i, e) = find_free-in_use 0 s.node.events (omega (arith, v.used, v.events)) in
                inl (
                  less,
                  i,
                  record s.node {
                    next_packet_id =
                        if s.node.tx_data_ready_set
                        then next_id s.node.next_packet_id
                        else s.node.next_packet_id;
                    ack_events = s.node.ack_events ++ i ∷ [];
                    events = set s.node.events i s.node.next_packet_id;
                    max_ack_packet_index =
                        if ltb s.node.max_ack_packet_index i
                        then i
                        else s.node.max_ack_packet_index;
                  },
                  e,
                  ground (
                    arith,
                    count,
                    e,
                    etl.push_back_fits ℕ max_pending_acks s.node.ack_events i
                        (omega (arith, count)),
                    publish_internal-message etl config s.node.tx_data_ready_set true
                        s.node.next_packet_id topic payload topic_fits fits,
                  ),
                ))
          | no more ↦ inr (omega arith, ground (arith, count))
        ],
      )
