-- ===== src/NoRtos/Link/Order.antt =====
-- The messages that the sender at a serial line publishes, and those that the receiver makes known.
use embedded_serial_filler.Base.{
  ℕ, ◌≡◌, refl, sym, ◌∙◌, ap, subst, List, [], ◌∷◌, ◌++◌, append_assoc, append-nil, All, All-append,
  IsNonzero, false, true, ok, ok_inj, arith,
}
use embedded_serial_filler.Definitions.{Config, success}
use embedded_serial_filler.Etl.{Etl}
use embedded_serial_filler.Outgoing.{Event}
use embedded_serial_filler.Incoming.Short.{Message, IsShort, wire, wires, wire_body}
use embedded_serial_filler.Incoming.Loop.Fuel.{IsFit}
use embedded_serial_filler.NoRtos.{Node, Given, give_rx_data}
use embedded_serial_filler.NoRtos.Receiving.{answer, answers}
use embedded_serial_filler.NoRtos.Reachable
use embedded_serial_filler.NoRtos.Reachable.{
  World, IsWell, Step-IsWell, Reach-IsWell, publish_wait-continuation,
}
use embedded_serial_filler.NoRtos.Link.{
  Link, bytes_of, Step, publishes, waits, hears, arrives, quiet_line, Reach, here, next,
}
use embedded_serial_filler.NoRtos.Link.Sending.{
  if_sent-IsShort, published_by-IsShort, publish_on-bytes, publish_wait-bytes,
}
use embedded_serial_filler.NoRtos.Link.Delivery.{IsTaken, answers-with_buffer, give_rx_data-IsTaken}

module _ (etl : Etl) (config : Config) (effect : ℕ → List ℕ → List ℕ) where
  -- The messages that the receiver has taken, and those that are still in its buffer and on the line.
  pub record IsDelivered (l : Link) : Type 0 where
    pub taken : List Message
    pub pending : List Message
    pub in_order : l.published ≡ taken ++ pending
    pub heard : l.heard ≡ answers etl config effect l.receiver taken
    pub bytes : l.receiver.rx_buffer ++ l.line ≡ wires etl pending
    pub short : All IsShort pending
    pub fit : IsFit l.receiver.rx_buffer
    pub sender : IsWell l.sender

  wires-append : (a b : List Message) → wires etl (a ++ b) ≡ wires etl a ++ wires etl b
  wires-append [] b = refl
  wires-append (m ∷ a) b =
      ap (λ w. wire etl m ++ w) (wires-append a b)
      ∙ sym (append_assoc (wire etl m) (wires etl a) (wires etl b))

  answers-append :
      (node : Node) (a b : List Message)
      → answers etl config effect node (a ++ b)
        ≡ answers etl config effect node a ++ answers etl config effect node b
  answers-append node [] b = refl
  answers-append node (m ∷ a) b =
      ap (λ l. answer etl config effect node m ++ l) (answers-append node a b)
      ∙ sym (
          append_assoc (answer etl config effect node m) (answers etl config effect node a)
            (answers etl config effect node b))

  -- More messages go on the line.
  sends-IsDelivered :
      (l : Link) (sender : World) (events : List Event) (ms : List Message)
      → IsDelivered l
      → IsWell sender
      → All IsShort ms
      → bytes_of events ≡ wires etl ms
      → IsDelivered (record l {
        sender = sender;
        line = l.line ++ bytes_of events;
        published = l.published ++ ms;
      })
  sends-IsDelivered l sender events ms v w s e = record {
    taken = v.taken;
    pending = v.pending ++ ms;
    in_order = ap (λ p. p ++ ms) v.in_order ∙ append_assoc v.taken v.pending ms;
    heard = v.heard;
    bytes =
        sym (append_assoc l.receiver.rx_buffer l.line (bytes_of events))
        ∙ ap (λ b. b ++ bytes_of events) v.bytes
        ∙ ap (λ b. wires etl v.pending ++ b) e
        ∙ sym (wires-append v.pending ms);
    short = All-append IsShort v.pending ms v.short s;
    fit = v.fit;
    sender = w;
  }

  behind-IsShort : (now later : List Message) → All IsShort (now ++ later) → All IsShort later
  behind-IsShort [] later h = h
  behind-IsShort (m ∷ now) later h = behind-IsShort now later h.1

  arrives-IsDelivered :
      (l : Link) (bytes rest : List ℕ) (g : Given) (v : IsDelivered l)
      → give_rx_data etl config effect l.receiver bytes ≡ ok g
      → IsTaken etl config effect l.receiver v.pending bytes rest
      → IsDelivered (record l { line = rest; receiver = g.node; heard = l.heard ++ g.events })
  arrives-IsDelivered l bytes rest g v e t =
      subst
        (λ (g : Given).
          IsDelivered (record l { line = rest; receiver = g.node; heard = l.heard ++ g.events }))
        (ok_inj (sym t.value ∙ e))
        (record {
          taken = v.taken ++ t.now;
          pending = t.later;
          in_order =
              v.in_order
              ∙ ap (λ p. v.taken ++ p) t.split
              ∙ sym (append_assoc v.taken t.now t.later);
          heard =
              ap (λ h. h ++ answers etl config effect l.receiver t.now) v.heard
              ∙ sym (answers-append l.receiver v.taken t.now)
              ∙ sym
                  (answers-with_buffer etl config effect l.receiver t.rx_buffer (v.taken ++ t.now));
          bytes = t.left;
          short = behind-IsShort t.now t.later (subst (All IsShort) t.split v.short);
          fit = t.fit;
          sender = v.sender;
        })

  here-IsDelivered :
      (sender : World) (receiver : Node)
      → IsWell sender
      → receiver.rx_buffer ≡ []
      → IsDelivered (quiet_line etl config effect sender receiver)
  here-IsDelivered sender receiver w e = record {
    taken = [];
    pending = [];
    in_order = refl;
    heard = refl;
    bytes = rw e refl;
    short = tt;
    fit = rw e (tt, omega arith);
    sender = w;
  }

  module _ (fast : config.optimise ≡ true) (lax : config.reject_incomplete_packets ≡ false) where
    Step-IsDelivered : {l l' : Link} → Step etl config effect l l' → IsDelivered l → IsDelivered l'
    Step-IsDelivered {l} (publishes topic payload packet_id node' events short h) v =
        sends-IsDelivered l _ events _ v
          (Step-IsWell etl config effect fast
            (Reachable.publishes topic payload packet_id node' events h) v.sender)
          (if_sent-IsShort etl config effect l.sender.node _ short)
          (publish_on-bytes etl config effect l.sender.node topic payload packet_id node' events
            short h)
    Step-IsDelivered {l} (waits topic payload timeout response statics' node' events short h) v =
        sends-IsDelivered l _ events _ v
          (Step-IsWell etl config effect fast
            (Reachable.waits topic payload timeout response statics' node' events h) v.sender)
          (published_by-IsShort etl config effect l.sender.statics.pw_state l.sender.node _ short)
          (publish_wait-bytes etl config effect l.sender.statics l.sender.node topic payload timeout
            response statics' node' events v.sender.in_step short h)
    Step-IsDelivered {l} (hears rx_data g bytes h quiet) v = record {
      taken = v.taken;
      pending = v.pending;
      in_order = v.in_order;
      heard = v.heard;
      bytes = v.bytes;
      short = v.short;
      fit = v.fit;
      sender = Step-IsWell etl config effect fast (Reachable.receives rx_data g bytes h) v.sender;
    }
    Step-IsDelivered {l} (arrives bytes rest g split h) v = arrives-IsDelivered l bytes rest g v h (
        give_rx_data-IsTaken etl config effect lax l.receiver v.pending bytes rest v.fit v.short
          (ap (λ b. l.receiver.rx_buffer ++ b) (sym split) ∙ v.bytes))

    -- From one node to another over a serial line, with `ESF_OPTIMISE` and without
    -- `ESF_REJECT_INCOMPLETE_PACKETS`, from a sender in any state that calls lead to, an empty
    -- line and an empty buffer, after any steps in which the sender publishes short messages (at
    -- most 248 bytes of topic and data) or receives any bytes to which it answers nothing, or
    -- bytes arrive in pieces of any size: the messages published while the sender's `txDataReady_`
    -- was set are those that the receiver has taken, followed by those that are pending; what the
    -- receiver has made known is the acknowledgements and callbacks of the first; the bytes in its
    -- buffer and on the line are the packets of the others; its buffer holds non-zero bytes within
    -- the capacity; and the sender is well-formed.
    pub Reach-IsDelivered : {l : Link} → Reach etl config effect l → IsDelivered l
    Reach-IsDelivered (here sender receiver reach empty) =
        here-IsDelivered sender receiver (Reach-IsWell etl config effect fast reach) empty
    Reach-IsDelivered (next reach step) = Step-IsDelivered step (Reach-IsDelivered reach)

    no_zero : (body ws : List ℕ) → ¬ All IsNonzero (body ++ 0 ∷ ws)
    no_zero [] ws c = omega (arith, c.0)
    no_zero (b ∷ body) ws c = no_zero body ws c.1

    -- Without a zero, there is no packet as a whole.
    none_left :
        (ms : List Message) (b : List ℕ)
        → All IsShort ms
        → All IsNonzero b
        → b ≡ wires etl ms
        → ms ≡ []
    none_left [] b v c e = refl
    none_left (m ∷ ms) b v c e =
        let (body, w, _, _) = wire_body etl m v.0 in
        absurd (
          no_zero body (wires etl ms) (
            subst (All IsNonzero)
              (e ∙ ap (λ l. l ++ wires etl ms) w ∙ append_assoc body (0 ∷ []) (wires etl ms)) c))

    -- From one node to another over a serial line, with `ESF_OPTIMISE` and without
    -- `ESF_REJECT_INCOMPLETE_PACKETS`: the sender starts in any state that calls lead to, the line
    -- and the receiver's buffer are empty, then the sender publishes short messages (at most 248
    -- bytes of topic and data) with `Publish` and `PublishWait`, and receives any bytes to which
    -- it answers nothing, while bytes arrive in pieces of any size, in any order of these steps.
    -- Whenever all that is left on the line then arrives, the call of `GiveRxData` succeeds, the
    -- receiver is left with an empty buffer, and what it has made known in all is, for each
    -- message published while the sender's `txDataReady_` was set, in order and once, the
    -- acknowledgement, where one is wanted and the receiver's `txDataReady_` is set, and the
    -- callbacks of its topic, or the one for topics without an entry.
    pub everything_arrives :
        (l : Link)
        → Reach etl config effect l
        → (events : List Event) × (give_rx_data etl config effect l.receiver l.line
            ≡ ok (record {
              status = success;
              node = record l.receiver { rx_buffer = [] };
              rx_data = [];
              events = events;
            }))
          × (l.heard ++ events ≡ answers etl config effect l.receiver l.published)
    everything_arrives l reach =
        let v = Reach-IsDelivered reach in
        let t =
          give_rx_data-IsTaken etl config effect lax l.receiver v.pending l.line [] v.fit v.short
            (ap (λ b. l.receiver.rx_buffer ++ b) (append-nil l.line) ∙ v.bytes) in
        let left = sym (append-nil t.rx_buffer) ∙ t.left in
        let none_later : t.later ≡ [] =
          none_left t.later t.rx_buffer
            (behind-IsShort t.now t.later (subst (All IsShort) t.split v.short)) t.fit.0 left in
        let all : l.published ≡ v.taken ++ t.now =
          v.in_order
          ∙ ap (λ p. v.taken ++ p) (t.split ∙ ap (λ p. t.now ++ p) none_later ∙ append-nil t.now) in
        (
          answers etl config effect l.receiver t.now,
          t.value
              ∙ ap
                  (λ b. ok (record {
                    status = success;
                    node = record l.receiver { rx_buffer = b };
                    rx_data = [];
                    events = answers etl config effect l.receiver t.now;
                  }))
                  (left ∙ ap (wires etl) none_later),
          ap (λ h. h ++ answers etl config effect l.receiver t.now) v.heard
              ∙ sym (answers-append l.receiver v.taken t.now)
              ∙ ap (answers etl config effect l.receiver) (sym all),
        )
