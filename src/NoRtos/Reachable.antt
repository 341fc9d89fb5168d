-- ===== src/NoRtos/Reachable.antt =====
-- A program with one node of src/EmbeddedSerialFiller_NoRTOS.cpp: any calls, in any order.
use embedded_serial_filler.Base.{
  ℕ, ◌≡◌, refl, sym, ◌∙◌, ap, some, subst, inl, inr, List, [], All, IsByte, ◌==◌, Bool, true, false,
  Bool-cases, Result, ok, ◌>>=◌, >>=-ok, arith,
}
use embedded_serial_filler.Definitions.{Config, PublishResponse, broadcast, publish}
use embedded_serial_filler.Etl.{Etl}
use embedded_serial_filler.Outgoing.{Event, publish_internal}
use embedded_serial_filler.Outgoing.Contents.{IsPacketId, publish_internal-IsPacketId}
use embedded_serial_filler.Incoming.Total.{Ends-ok}
use embedded_serial_filler.Registry.{add_subscriber}
use embedded_serial_filler.NoRtos.{
  Node, Statics, Given, entry_point, continuation_point, new_node, publish_on, start_wait,
  await_ack, finish_wait, publish_wait, subscribe, unsubscribe, unsubscribe_all, give_rx_data,
}
use embedded_serial_filler.NoRtos.Waiting.{PwState-cases, IsInStep, await_ack-IsInStep}
use embedded_serial_filler.Utilities.Bytes.{IsBuffer}
use embedded_serial_filler.NoRtos.Rounds.{IsGiven}
use embedded_serial_filler.NoRtos.Progress.{give_rx_data-Ends}

-- The static variables of `PublishWait`, and the node.
pub record World : Type 0 where
  pub statics : Statics
  pub node : Node

-- Before the first call.
abbrev pub start : Bool → Bool → World
start tx_set no_subscribers_set = record {
  statics = record { pw_state = entry_point; timeout_count = 0 };
  node = new_node tx_set no_subscribers_set;
}

-- A call of a method that returns; bytes come from the serial port.
pub data Step (etl : Etl) (config : Config) (effect : ℕ → List ℕ → List ℕ) (w : World)
    : World → Type 0 where
  publishes :
      (topic payload : List ℕ) (packet_id : ℕ) (node' : Node) (events : List Event)
      → publish_on etl config w.node topic payload ≡ ok (packet_id, node', events)
      → Step etl config effect w (record w { node = node' })
  waits :
      (topic payload : List ℕ) (timeout : ℕ) (response : PublishResponse) (statics' : Statics)
      (node' : Node) (events : List Event)
      → publish_wait etl config w.statics w.node topic payload timeout
        ≡ ok ((response, statics', node'), events)
      → Step etl config effect w (record { statics = statics'; node = node' })
  subscribes :
      (topic : List ℕ) (delegate id : ℕ) (node' : Node)
      → subscribe etl config w.node topic delegate ≡ ok (id, node')
      → Step etl config effect w (record w { node = node' })
  unsubscribes :
      (id : ℕ)
      → config.minimal_implementation ≡ false
      → Step etl config effect w (record w { node = (unsubscribe w.node id).1 })
  unsubscribes_all :
      config.minimal_implementation ≡ false
      → Step etl config effect w (record w { node = unsubscribe_all w.node })
  receives :
      (rx_data : List ℕ) (g : Given)
      → All IsByte rx_data
      → give_rx_data etl config effect w.node rx_data ≡ ok g
      → Step etl config effect w (record w { node = g.node })

pub data Reach (etl : Etl) (config : Config) (effect : ℕ → List ℕ → List ℕ) : World → Type 0 where
  here :
      (tx_set no_subscribers_set : Bool) → Reach etl config effect (start tx_set no_subscribers_set)
  next :
      {w w' : World}
      → Reach etl config effect w
      → Step etl config effect w w'
      → Reach etl config effect w'

-- What holds between two calls.
pub record IsWell (w : World) : Type 0 where
  pub in_step : IsInStep w.statics w.node
  pub buffer : IsBuffer w.node.rx_buffer

abbrev Same : Node → Node → Type 0
Same a b = (b.ack_event.packet_id ≡ a.ack_event.packet_id) × (b.next_packet_id ≡ a.next_packet_id)

IsInStep-Same :
    (statics : Statics) (a b : Node) → Same a b → IsInStep statics a → IsInStep statics b
IsInStep-Same statics a b (e, k) v = record {
  idle = λ h. e ∙ v.idle h;
  waiting = λ h. rw e (v.waiting h);
  next = rw k v.next;
}

start-IsWell : (tx_set no_subscribers_set : Bool) → IsWell (start tx_set no_subscribers_set)
unfolding new_node
start-IsWell tx_set no_subscribers_set = record {
  in_step = record { idle = λ e. refl; waiting = λ e. cc; next = (omega arith, omega arith) };
  buffer = (tt, omega arith);
}

module _ (etl : Etl) (config : Config) (effect : ℕ → List ℕ → List ℕ) where
  publishes-IsWell :
      (w : World) (topic payload : List ℕ) (packet_id : ℕ) (node' : Node) (events : List Event)
      → publish_on etl config w.node topic payload ≡ ok (packet_id, node', events)
      → IsWell w
      → IsWell (record w { node = node' })
  unfolding publish_on
  publishes-IsWell w topic payload packet_id node' events h v =
      let (p, e, k) =
        >>=-ok
          (publish_internal etl config w.node.tx_data_ready_set broadcast w.node.next_packet_id
            (some topic) (some payload))
          _ _ h in
      record {
        in_step = record {
          idle = λ q. ground (arith, k, v.in_step.idle q);
          waiting = λ q. ground (arith, k, v.in_step.waiting q);
          next = ground (
            arith,
            k,
            publish_internal-IsPacketId etl config w.node.tx_data_ready_set broadcast
                w.node.next_packet_id (some topic) (some payload) p e v.in_step.next,
          );
        };
        buffer = ground (arith, k, v.buffer);
      }

  await_ack-IsWell :
      (statics : Statics) (node : Node) (timeout : ℕ)
      → statics.pw_state ≡ continuation_point
      → IsPacketId node.ack_event.packet_id
      → IsPacketId node.next_packet_id
      → IsBuffer node.rx_buffer
      → let r = await_ack statics node timeout in IsWell (record { statics = r.1; node = r.2 })
  await_ack-IsWell statics node timeout e h k b = record {
    in_step = await_ack-IsInStep statics node timeout e h k;
    buffer = unfold await_ack finish_wait in ground (arith, b);
  }

  -- The first call of `PublishWait`, where it returns.
  start_wait-ok :
      (node : Node) (topic payload : List ℕ) (statics' : Statics) (node' : Node)
      (events : List Event)
      → start_wait etl config node topic payload ≡ ok (statics', node', events)
      → IsPacketId node.next_packet_id
      → (statics'.pw_state ≡ continuation_point)
        × IsPacketId node'.ack_event.packet_id
        × IsPacketId node'.next_packet_id
        × (node'.rx_buffer ≡ node.rx_buffer)
  unfolding start_wait
  start_wait-ok node topic payload statics' node' events h v =
      elim (Bool-cases (node.ack_event.packet_id == 0)) [
        | inr e ↦ absurd (ground (arith, e, h))
        | inl e ↦
            (let (p, q, k) =
                >>=-ok
                  (publish_internal etl config node.tx_data_ready_set publish node.next_packet_id
                    (some topic) (some payload))
                  _ _ (rw e at h) in
              (
                ground (arith, k),
                ground (arith, k, v),
                ground (
                  arith,
                  k,
                  publish_internal-IsPacketId etl config node.tx_data_ready_set publish
                      node.next_packet_id (some topic) (some payload) p q v,
                ),
                ground (arith, k),
              ))
      ]

  -- A call that goes on with a wait.
  pub publish_wait-continuation :
      (statics : Statics) (node : Node) (topic payload : List ℕ) (timeout : ℕ)
      → statics.pw_state ≡ continuation_point
      → publish_wait etl config statics node topic payload timeout
        ≡ ok (await_ack statics node timeout, [])
  unfolding publish_wait
  publish_wait-continuation statics node topic payload timeout e = ground (arith, e)

  publish_wait-entry :
      (statics : Statics) (node : Node) (topic payload : List ℕ) (timeout : ℕ)
      → statics.pw_state ≡ entry_point
      → publish_wait etl config statics node topic payload timeout ≡ (
          start_wait etl config node topic payload >>= λ (s, n, es). ok (await_ack s n timeout, es))
  unfolding publish_wait
  publish_wait-entry statics node topic payload timeout e = ground (arith, e)

  waits-IsWell :
      (w : World) (topic payload : List ℕ) (timeout : ℕ) (response : PublishResponse)
      (statics' : Statics) (node' : Node) (events : List Event)
      → publish_wait etl config w.statics w.node topic payload timeout
        ≡ ok ((response, statics', node'), events)
      → IsWell w
      → IsWell (record { statics = statics'; node = node' })
  waits-IsWell w topic payload timeout response statics' node' events h v =
      elim (PwState-cases w.statics.pw_state) [
        | inl e ↦
            (let ((s, n, es), q, k) =
                >>=-ok (start_wait etl config w.node topic payload) _ _
                  (sym (publish_wait-entry w.statics w.node topic payload timeout e) ∙ h) in
              let (a, b, c, d) = start_wait-ok w.node topic payload s n es q v.in_step.next in
              subst IsWell (same es (await_ack s n timeout) k)
                (await_ack-IsWell s n timeout a b c (rw d v.buffer)))
        | inr e ↦
            subst IsWell
              (same [] (await_ack w.statics w.node timeout)
                (sym (publish_wait-continuation w.statics w.node topic payload timeout e) ∙ h))
              (await_ack-IsWell w.statics w.node timeout e (v.in_step.waiting e) v.in_step.next
                v.buffer)
      ]
    where
      same :
          (es : List Event) (r : PublishResponse × Statics × Node)
          → ◌≡◌ {A = Result ((PublishResponse × Statics × Node) × List Event)}
              (ok (r, es))
              (ok ((response, statics', node'), events))
          → ◌≡◌ {A = World}
              (record { statics = r.1; node = r.2 })
              (record { statics = statics'; node = node' })
      same es r k = ground (arith, k)

  subscribe-Same :
      (node : Node) (topic : List ℕ) (delegate id : ℕ) (node' : Node)
      → subscribe etl config node topic delegate ≡ ok (id, node')
      → Same node node' × (node'.rx_buffer ≡ node.rx_buffer)
  unfolding subscribe
  subscribe-Same node topic delegate id node' h =
      let (subscribers, e, k) =
        >>=-ok
          (add_subscriber etl topic
            (record { id = node.next_free_subscriber_id; callback = delegate }) node.subscribers)
          _ _ h in
      ((ground (arith, k), ground (arith, k)), ground (arith, k))

  Same-IsWell :
      (w : World) (node' : Node)
      → Same w.node node'
      → IsBuffer node'.rx_buffer
      → IsWell w
      → IsWell (record w { node = node' })
  Same-IsWell w node' same buffer v = record {
    in_step = IsInStep-Same w.statics w.node node' same v.in_step;
    buffer = buffer;
  }

  -- A node alone in its program.
  pub Step-IsWell :
      {w w' : World} → config.optimise ≡ true → Step etl config effect w w' → IsWell w → IsWell w'
  Step-IsWell {w} fast (publishes topic payload packet_id node' events h) v =
      publishes-IsWell w topic payload packet_id node' events h v
  Step-IsWell {w} fast (waits topic payload timeout response statics' node' events h) v =
      waits-IsWell w topic payload timeout response statics' node' events h v
  Step-IsWell {w} fast (subscribes topic delegate id node' h) v =
      let (same, k) = subscribe-Same w.node topic delegate id node' h in
      Same-IsWell w node' same (rw k v.buffer) v
  Step-IsWell {w} fast (unsubscribes id _) v =
      Same-IsWell w _ (unfold unsubscribe in (refl, refl)) (unfold unsubscribe in v.buffer) v
  Step-IsWell {w} fast (unsubscribes_all _) v =
      Same-IsWell w _ (unfold unsubscribe_all in (refl, refl)) (unfold unsubscribe_all in v.buffer)
        v
  Step-IsWell {w} fast (receives rx_data g bytes h) v =
      let given =
        Ends-ok (IsGiven w.node) _ g
          (give_rx_data-Ends etl config effect fast w.node rx_data v.buffer bytes) h in
      Same-IsWell w g.node
        (
          ap (λ (n : Node). n.ack_event.packet_id) given.same,
          ap (λ (n : Node). n.next_packet_id) given.same,
        )
        given.buffer v

  -- A node that is alone in its program, with `ESF_OPTIMISE`: after any sequence of calls that
  -- return, of `Publish`, `PublishWait`, `Subscribe` and `GiveRxData` on any bytes, and of
  -- `Unsubscribe` and `UnsubscribeAll` in a build without `ESF_MINIMAL_IMPLEMENTATION`, the static
  -- variables of `PublishWait` and the node agree on whether an acknowledgement is awaited, the
  -- identifier that is next, and one that is awaited, are from 1 to 255, and the buffer holds
  -- non-zero bytes within its capacity.
  pub Reach-IsWell : {w : World} → config.optimise ≡ true → Reach etl config effect w → IsWell w
  Reach-IsWell fast (here tx_set no_subscribers_set) = start-IsWell tx_set no_subscribers_set
  Reach-IsWell fast (next reach step) = Step-IsWell fast step (Reach-IsWell fast reach)
