-- ===== src/NoRtos/Link/Sending.antt =====
-- What the calls of the sender put on a serial line: the packets of the messages that it publishes.
use embedded_serial_filler.Base.{
  ℕ, ◌≡◌, refl, sym, ◌∙◌, ap, inl, inr, List, [], ◌∷◌, All, if◌then◌else◌, Bool-cases, false, true,
  some, ok, ok_inj, >>=-ok, arith,
}
use embedded_serial_filler.Definitions.{Config, PublishResponse, broadcast, to_byte}
use embedded_serial_filler.Etl.{Etl}
use embedded_serial_filler.Outgoing.{Event, tx_data_ready, Published, next_id, publish_internal}
use embedded_serial_filler.Outgoing.Contents.{publish_internal-message}
use embedded_serial_filler.Incoming.Short.{Message, IsShort, wire, wires}
use embedded_serial_filler.NoRtos.{
  Node, Statics, PwState, entry_point, continuation_point, publish_on, publish_wait,
}
use embedded_serial_filler.NoRtos.Waiting.{PwState-cases, IsInStep, publish_wait_first}
use embedded_serial_filler.NoRtos.Reachable.{publish_wait-continuation}
use embedded_serial_filler.NoRtos.Link.{bytes_of, message_of, if_sent, published_by}

module _ (etl : Etl) (config : Config) (effect : ℕ → List ℕ → List ℕ) where
  pub if_sent-IsShort : (node : Node) (m : Message) → IsShort m → All IsShort (if_sent node m)
  if_sent-IsShort node m v = elim (Bool-cases node.tx_data_ready_set) [
    | inl e ↦ rw e (v, tt)
    | inr e ↦ rw e tt
  ]

  pub published_by-IsShort :
      (state : PwState) (node : Node) (m : Message)
      → IsShort m
      → All IsShort (published_by state node m)
  published_by-IsShort entry_point node m v = if_sent-IsShort node m v
  published_by-IsShort continuation_point node m v = tt

  bytes_of-sent :
      (node : Node) (m : Message)
      → bytes_of (if node.tx_data_ready_set then tx_data_ready (wire etl m) ∷ [] else [])
        ≡ wires etl (if_sent node m)
  bytes_of-sent node m = elim (Bool-cases node.tx_data_ready_set) [
    | inl e ↦ rw e refl
    | inr e ↦ rw e refl
  ]

  pub publish_on-bytes :
      (node : Node) (topic payload : List ℕ) (packet_id : ℕ) (node' : Node) (events : List Event)
      → IsShort (message_of false node topic payload)
      → publish_on etl config node topic payload ≡ ok (packet_id, node', events)
      → bytes_of events ≡ wires etl (if_sent node (message_of false node topic payload))
  unfolding publish_on
  publish_on-bytes node topic payload packet_id node' events v h =
      let (p, e, k) =
        >>=-ok
          (publish_internal etl config node.tx_data_ready_set broadcast node.next_packet_id
            (some topic) (some payload))
          _ _ h in
      let same : p ≡ (
          if node.tx_data_ready_set
          then record {
            ret_val = node.next_packet_id;
            packet_id = next_id node.next_packet_id;
            events = tx_data_ready (wire etl (message_of false node topic payload)) ∷ [];
          }
          else record {
            ret_val = node.next_packet_id;
            packet_id = node.next_packet_id;
            events = [];
          }) =
        ok_inj (
          sym e
          ∙ publish_internal-message etl config node.tx_data_ready_set false node.next_packet_id
              topic payload v.topic_fits (omega (arith, v.short))) in
      let made : bytes_of events ≡ bytes_of p.events =
        ap (λ (t : ℕ × Node × List Event). bytes_of t.2) (sym (ok_inj k)) in
      elim (Bool-cases node.tx_data_ready_set) [
        | inl y ↦ rw y (made ∙ ap (λ (p : Published). bytes_of p.events) (rw y at same))
        | inr n ↦ rw n (made ∙ ap (λ (p : Published). bytes_of p.events) (rw n at same))
      ]

  pub publish_wait-bytes :
      (statics : Statics) (node : Node) (topic payload : List ℕ) (timeout : ℕ)
      (response : PublishResponse) (statics' : Statics) (node' : Node) (events : List Event)
      → IsInStep statics node
      → IsShort (message_of true node topic payload)
      → publish_wait etl config statics node topic payload timeout
        ≡ ok ((response, statics', node'), events)
      → bytes_of events
        ≡ wires etl (published_by statics.pw_state node (message_of true node topic payload))
  unfolding to_byte
  publish_wait-bytes statics node topic payload timeout response statics' node' events well v h =
      elim (PwState-cases statics.pw_state) [
        | inl e ↦ rw e (
            ap (λ t. bytes_of t.1)
              (ok_inj (
                sym h
                ∙ publish_wait_first etl config topic payload v.topic_fits (omega (arith, v.short))
                    statics node timeout e (well.idle e)))
            ∙ bytes_of-sent node (message_of true node topic payload))
        | inr e ↦ rw e (
            ap (λ t. bytes_of t.1)
              (ok_inj (
                sym h
                ∙ publish_wait-continuation etl config effect statics node topic payload timeout
                    e)))
      ]
