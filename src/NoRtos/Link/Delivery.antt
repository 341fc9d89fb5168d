-- ===== src/NoRtos/Link/Delivery.antt =====
-- What the receiver at the end of a serial line makes of the next bytes on it.
use embedded_serial_filler.Base.{
  ℕ, ◌≡◌, refl, sym, ◌∙◌, ap, List, [], ◌∷◌, ◌++◌, append_assoc, append-nil, All, false, Result, ok,
  fault, ◌>>=◌, arith,
}
use embedded_serial_filler.Definitions.{Config, success}
use embedded_serial_filler.Etl.{Etl}
use embedded_serial_filler.Incoming.Short.{Message, IsShort, wire, wires}
use embedded_serial_filler.Incoming.Loop.{Outcome, receive}
use embedded_serial_filler.Incoming.Loop.Fuel.{IsFit}
use embedded_serial_filler.Incoming.Loop.Partial.{all_answers, receive-IsCut, receive_buffered}
use embedded_serial_filler.NoRtos.{Node, Given, deliver, give_rx_data}
use embedded_serial_filler.NoRtos.Loop.{receiver, as_given, give_rx_data-receive}
use embedded_serial_filler.NoRtos.Receiving.{answer, answers, give_rx_data-wires}

module _ (etl : Etl) (config : Config) (effect : ℕ → List ℕ → List ℕ) where
  -- The buffer plays no part in what the receiver makes known.
  pub answers-with_buffer :
      (node : Node) (b : List ℕ) (ms : List Message)
      → answers etl config effect (record node { rx_buffer = b }) ms
        ≡ answers etl config effect node ms
  unfolding deliver
  answers-with_buffer node b [] = refl
  answers-with_buffer node b (m ∷ ms) =
      ap (λ l. answer etl config effect node m ++ l) (answers-with_buffer node b ms)

  -- What a call on the next bytes of the line comes to.
  pub record IsTaken (node : Node) (pending : List Message) (bytes rest : List ℕ) : Type 0 where
    pub now : List Message
    pub later : List Message
    pub rx_buffer : List ℕ
    pub split : pending ≡ now ++ later
    pub value :
        give_rx_data etl config effect node bytes
        ≡ ok (record {
          status = success;
          node = record node { rx_buffer = rx_buffer };
          rx_data = [];
          events = answers etl config effect node now;
        })
    pub fit : IsFit rx_buffer
    pub left : rx_buffer ++ rest ≡ wires etl later

  as_given-ok :
      (r : Result (Outcome (receiver etl config effect))) (g : Given)
      → as_given etl config effect r ≡ ok g
      → r
        ≡ ok (record { status = g.status; node = g.node; rx_data = g.rx_data; actions = g.events })
  as_given-ok (ok o) g e =
      ap
        (λ (r : Result Given). r >>= λ g.
          ok (record { status = g.status; node = g.node; rx_data = g.rx_data; actions = g.events }))
        e
  as_given-ok (fault f) g e = absurd (ground (arith, e))

  module _ (lax : config.reject_incomplete_packets ≡ false) where
    module _ (node : Node) where
      pub receive-wire :
          (m : Message)
          → IsShort m
          → receive etl config
              (receiver etl config effect)
              (record node { rx_buffer = [] })
              (wire etl m)
            ≡ ok (record {
              status = success;
              node = record node { rx_buffer = [] };
              rx_data = [];
              actions = answer etl config effect node m;
            })
      receive-wire m v = as_given-ok _ _ (
          sym (give_rx_data-receive etl config effect (record node { rx_buffer = [] }) (wire etl m))
          ∙ ap (give_rx_data etl config effect (record node { rx_buffer = [] }))
              (sym (append-nil (wire etl m)))
          ∙ give_rx_data-wires etl config effect (record node { rx_buffer = [] }) refl m [] v tt
          ∙ ap
              (λ l. ok (record {
                status = success;
                node = record node { rx_buffer = [] };
                rx_data = [];
                events = l;
              }))
              (answers-with_buffer node [] (m ∷ []) ∙ append-nil (answer etl config effect node m)))

      pub all_answers-answers :
          (ms : List Message)
          → all_answers etl config lax
              (receiver etl config effect)
              (record node { rx_buffer = [] })
              refl
              (answer etl config effect node)
              receive-wire
              ms
            ≡ answers etl config effect node ms
      all_answers-answers [] = refl
      all_answers-answers (m ∷ ms) =
          ap (λ l. answer etl config effect node m ++ l) (all_answers-answers ms)

    pub give_rx_data-IsTaken :
        (node : Node) (pending : List Message) (bytes rest : List ℕ)
        → IsFit node.rx_buffer
        → All IsShort pending
        → node.rx_buffer ++ (bytes ++ rest) ≡ wires etl pending
        → IsTaken node pending bytes rest
    give_rx_data-IsTaken node pending bytes rest fit v e =
        let cut =
          receive-IsCut etl config lax (receiver etl config effect) (record node { rx_buffer = [] })
            refl (answer etl config effect node) (receive-wire node) pending
            (node.rx_buffer ++ bytes) rest v (append_assoc node.rx_buffer bytes rest ∙ e) in
        record {
          now = cut.now;
          later = cut.later;
          rx_buffer = cut.rx_buffer;
          split = cut.split;
          value =
              give_rx_data-receive etl config effect node bytes
              ∙ ap (as_given etl config effect) (
                  sym (
                    receive_buffered etl config lax (receiver etl config effect)
                      (record node { rx_buffer = [] }) refl node.rx_buffer bytes fit)
                  ∙ cut.value)
              ∙ ap
                  (λ l. ok (record {
                    status = success;
                    node = record node { rx_buffer = cut.rx_buffer };
                    rx_data = [];
                    events = l;
                  }))
                  (all_answers-answers node cut.now);
          fit = cut.fit;
          left = cut.left;
        }
