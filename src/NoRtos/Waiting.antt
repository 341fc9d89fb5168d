-- ===== src/NoRtos/Waiting.antt =====
-- `PublishWait` of src/EmbeddedSerialFiller_NoRTOS.cpp over several calls.
use embedded_serial_filler.Base.{
  ℕ, zero, suc, ◌+◌, ◌≤◌, ◌<◌, ◌≡◌, refl, List, [], ◌∷◌, ◌++◌, length, replicate, if◌then◌else◌,
  Bool, true, false, Result, ok, fault, assertion, ◌>>=◌, arith, ◌⊎◌, inl, inr,
}
use embedded_serial_filler.Definitions.{
  Config, PublishResponse, to_byte, max_packet_size, max_topic_length,
}
use embedded_serial_filler.Etl.{Etl}
use embedded_serial_filler.Cobs.Encoded.{encoded_size}
use embedded_serial_filler.Outgoing.{Event, tx_data_ready, next_id}
use embedded_serial_filler.Outgoing.Contents.{
  contents, sent, IsPacketId, next_id-IsPacketId, publish_internal-message,
}
use embedded_serial_filler.NoRtos.{
  Node, Statics, PwState, entry_point, continuation_point, no_ack, got_ack, no_event, finish_wait,
  await_ack, start_wait, publish_wait,
}

-- Between two calls the state variable and the node agree on whether an acknowledgement is awaited.
pub record IsInStep (statics : Statics) (node : Node) : Type 0 where
  pub idle : statics.pw_state ≡ entry_point → node.ack_event.packet_id ≡ 0
  pub waiting : statics.pw_state ≡ continuation_point → IsPacketId node.ack_event.packet_id
  pub next : IsPacketId node.next_packet_id

pub PwState-cases : (s : PwState) → (s ≡ entry_point) ⊎ (s ≡ continuation_point)
PwState-cases entry_point = inl refl
PwState-cases continuation_point = inr refl

pub await_ack-IsInStep :
    (statics : Statics) (node : Node) (timeout : ℕ)
    → statics.pw_state ≡ continuation_point
    → IsPacketId node.ack_event.packet_id
    → IsPacketId node.next_packet_id
    → let r = await_ack statics node timeout in IsInStep r.1 r.2
unfolding await_ack finish_wait
await_ack-IsInStep statics node timeout e h k = ground arith

module _ (etl : Etl) (config : Config) (topic payload : List ℕ) where
  -- The node that waits for the acknowledgement of its packet.
  abbrev pub waiting_node : Node → Node
  waiting_node node = record node {
    next_packet_id =
        if node.tx_data_ready_set then next_id node.next_packet_id else node.next_packet_id;
    ack_event = record { packet_id = node.next_packet_id; state = node.ack_event.state };
  }

  -- What the first call hands over.
  abbrev pub first_events : Node → List Event
  first_events node =
      if node.tx_data_ready_set
      then tx_data_ready (sent etl (contents 0x50 node.next_packet_id topic payload)) ∷ []
      else []

  module _ (topic_fits : length topic ≤ max_topic_length)
      (fits : encoded_size (5 + length topic + length payload) ≤ max_packet_size) where
    start_wait_lem :
        (node : Node)
        → node.ack_event.packet_id ≡ 0
        → start_wait etl config node topic payload
          ≡ ok (
            record { pw_state = continuation_point; timeout_count = 0 },
            waiting_node node,
            first_events node,
          )
    unfolding start_wait to_byte
    start_wait_lem node e = ground (
      arith,
      publish_internal-message etl config node.tx_data_ready_set true node.next_packet_id topic
          payload topic_fits fits,
    )

    pub publish_wait_first :
        (statics : Statics) (node : Node) (timeout : ℕ)
        → statics.pw_state ≡ entry_point
        → node.ack_event.packet_id ≡ 0
        → publish_wait etl config statics node topic payload timeout
          ≡ ok (
            await_ack
                (record { pw_state = continuation_point; timeout_count = 0 })
                (waiting_node node)
                timeout,
            first_events node,
          )
    unfolding publish_wait
    publish_wait_first statics node timeout e h = ground (arith, start_wait_lem node h)

    publish_wait_again :
        (statics : Statics) (node : Node) (timeout : ℕ)
        → statics.pw_state ≡ continuation_point
        → publish_wait etl config statics node topic payload timeout
          ≡ ok (await_ack statics node timeout, [])
    unfolding publish_wait
    publish_wait_again statics node timeout e = ground arith

    -- So many further calls, with nothing received in between: their responses, the static
    -- variables and the node.
    pub calls : ℕ → Statics → Node → ℕ → Result (List PublishResponse × Statics × Node)
    calls zero statics node timeout = ok ([], statics, node)
    calls (suc n) statics node timeout = do
      ((response, statics', node'), _) ← publish_wait etl config statics node topic payload timeout
      (responses, statics'', node'') ← calls n statics' node' timeout
      ok (response ∷ responses, statics'', node'')

    calls_pending :
        (n count timeout : ℕ) (node : Node)
        → node.ack_event.state ≡ no_ack
        → count + n ≡ timeout
        → calls
            (suc n)
            (record { pw_state = continuation_point; timeout_count = count })
            node
            timeout
          ≡ ok (
            replicate n PublishResponse.pending ++ PublishResponse.timeout ∷ [],
            record { pw_state = entry_point; timeout_count = timeout },
            record node { ack_event = no_event },
          )
    unfolding calls await_ack finish_wait
    calls_pending zero count timeout node e h = ground (
      arith,
      publish_wait_again (record { pw_state = continuation_point; timeout_count = count }) node
          timeout refl,
    )
    calls_pending (suc n) count timeout node e h = ground (
      arith,
      publish_wait_again (record { pw_state = continuation_point; timeout_count = count }) node
          timeout refl,
      calls_pending n (count + 1) timeout node,
    )

    -- Without an acknowledgement, `PublishWait`, called again and again from an idle node with a
    -- message that fits, returns PENDING as often as `timeout` says and then TIMEOUT; the node is
    -- idle again, and has moved on to its next identifier if `txDataReady_` is set.
    pub publish_wait_times_out :
        (statics : Statics) (node : Node) (timeout : ℕ)
        → statics.pw_state ≡ entry_point
        → node.ack_event ≡ no_event
        → calls (suc timeout) statics node timeout
          ≡ ok (
            replicate timeout PublishResponse.pending ++ PublishResponse.timeout ∷ [],
            record { pw_state = entry_point; timeout_count = timeout },
            record node {
              next_packet_id =
                  if node.tx_data_ready_set
                  then next_id node.next_packet_id
                  else node.next_packet_id;
              ack_event = no_event;
            },
          )
    unfolding calls await_ack finish_wait
    publish_wait_times_out statics node zero e h =
        ground (arith, publish_wait_first statics node zero e)
    publish_wait_times_out statics node (suc t) e h = ground (
      arith,
      publish_wait_first statics node (suc t) e,
      calls_pending t 1 (suc t) (waiting_node node),
    )

    -- Once the acknowledgement is there, the next call of `PublishWait` within the timeout returns
    -- SUCCESS, publishes nothing, and leaves the node idle.
    pub publish_wait_acknowledged :
        (statics : Statics) (node : Node) (timeout : ℕ)
        → statics.pw_state ≡ continuation_point
        → node.ack_event.state ≡ got_ack
        → statics.timeout_count < timeout
        → publish_wait etl config statics node topic payload timeout
          ≡ ok (
            (
              PublishResponse.success,
              record { pw_state = entry_point; timeout_count = statics.timeout_count + 1 },
              record node { ack_event = no_event },
            ),
            [],
          )
    unfolding await_ack finish_wait
    publish_wait_acknowledged statics node timeout e h l =
        ground (arith, publish_wait_again statics node timeout e)

    -- With one node in the program, `PublishWait` with a message that fits never meets its
    -- assertion: from a state where the static variables and the node agree on whether an
    -- acknowledgement is awaited, and the identifiers are from 1 to 255, it returns, in such a
    -- state.
    pub publish_wait-IsInStep :
        (statics : Statics) (node : Node) (timeout : ℕ)
        → IsInStep statics node
        → (response : PublishResponse) × (statics' : Statics) × (node' : Node) × (events : List
            Event)
          × (publish_wait etl config statics node topic payload timeout
              ≡ ok ((response, statics', node'), events))
          × IsInStep statics' node'
    publish_wait-IsInStep statics node timeout v = elim (PwState-cases statics.pw_state) [
      | inl e ↦ (
        _,
        _,
        _,
        first_events node,
        publish_wait_first statics node timeout e (v.idle e),
        await_ack-IsInStep (record { pw_state = continuation_point; timeout_count = 0 })
            (waiting_node node) timeout refl v.next (moved node.tx_data_ready_set),
      )
      | inr e ↦ (
        _,
        _,
        _,
        [],
        publish_wait_again statics node timeout e,
        await_ack-IsInStep statics node timeout e (v.waiting e) v.next,
      )
    ]
      where
        moved :
            (set : Bool)
            → IsPacketId (if set then next_id node.next_packet_id else node.next_packet_id)
        moved true = (next_id-IsPacketId node.next_packet_id v.next).0
        moved false = v.next

    -- Two nodes share the static variables of `PublishWait`. While node `a` waits, a call on
    -- another node `b` with a timeout that the calls on `a` have used up publishes nothing and
    -- returns TIMEOUT; it resets the shared state, and the next call on `a` fails its assertion.
    pub publish_wait_shared_state :
        (statics : Statics) (a b : Node) (timeout timeout' : ℕ)
        → IsInStep statics a
        → statics.pw_state ≡ continuation_point
        → timeout ≤ statics.timeout_count
        → (statics' : Statics) × (publish_wait etl config statics b topic payload timeout
            ≡ ok ((PublishResponse.timeout, statics', record b { ack_event = no_event }), []))
          × (publish_wait etl config statics' a topic payload timeout' ≡ fault assertion)
    unfolding await_ack finish_wait
    publish_wait_shared_state statics a b timeout timeout' v e h = (
      record statics { pw_state = entry_point },
      ground (arith, publish_wait_again statics b timeout e),
      refused (v.waiting e).0,
    )
      where
        refused :
            0 < a.ack_event.packet_id
            → publish_wait etl config
                (record statics { pw_state = entry_point })
                a
                topic
                payload
                timeout'
              ≡ fault assertion
        refused p = unfold publish_wait start_wait in ground arith
