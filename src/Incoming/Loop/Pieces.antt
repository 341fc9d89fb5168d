-- ===== src/Incoming/Loop/Pieces.antt =====
-- Received bytes that come in pieces, for `GiveRxData` of both profiles.
use embedded_serial_filler.Base.{
  ℕ, zero, suc, ◌≤◌, ◌<◌, ◌≡◌, ◌≢◌, refl, sym, ◌∙◌, ap, inl, inr, List, [], ◌∷◌, ◌++◌, append_assoc,
  append-nil, length, length-append, Bool-cases, true, false, Option, none, some, Result,
  Result-cases, ok, fault, ◌>>=◌, >>=-cong, arith,
}
use embedded_serial_filler.Definitions.{Config, StatusCode, success}
use embedded_serial_filler.Etl.{Etl}
use embedded_serial_filler.Utilities.Receive.{Received, move_loop, move_rx_data_in_buffer}
use embedded_serial_filler.Utilities.Packets.{no_packet_lax, move_rx_data_in_buffer-IsReceived}
use embedded_serial_filler.Utilities.Cuts.{
  Cut, found, pending, overflows, move_rx_data_in_buffer-Cut,
}
use embedded_serial_filler.Incoming.{is_success, parse_packet}
use embedded_serial_filler.Incoming.Total.{parse_packet-IsProper}
use embedded_serial_filler.Incoming.Loop.{
  Receiver, Outcome, Outcomes, before, next_packet, behind, rest_of_round, loop, receive,
}
use embedded_serial_filler.Incoming.Loop.Fuel.{
  IsFit, IsNext, move-IsNext, behind-cong, loop_fuel, with_buffer-IsFit,
}

module _ (etl : Etl) (config : Config) (receiver : Receiver) where
  open receiver use {Node, Action, buffer, with_buffer, handle}

  -- How a call that comes to `g` goes on with `ys` behind its data.
  pub data Onward (ys : List ℕ) (g : Outcome receiver) (r : Outcomes etl config receiver)
      : Type 0 where
    goes_on :
        g.status ≡ success
        → IsFit (buffer g.node)
        → r ≡ before etl config receiver g.actions (receive etl config receiver g.node ys)
        → Onward ys g r
    stops :
        (rx_data : List ℕ)
        → g.status ≢ success
        → r ≡ ok (record g { rx_data = rx_data })
        → Onward ys g r

  abbrev pub Continues :
      List ℕ → Outcomes etl config receiver → Outcomes etl config receiver → Type 0
  Continues ys (ok g) r = Onward ys g r
  Continues ys (fault e) r = r ≡ fault e

  pub before-before :
      (a b : List Action) (r : Outcomes etl config receiver)
      → before etl config receiver a (before etl config receiver b r)
        ≡ before etl config receiver (a ++ b) r
  before-before a b (ok g) =
      ap (λ l. ok (record g { actions = l })) (sym (append_assoc a b g.actions))
  before-before a b (fault e) = refl

  Continues-before :
      (ys : List ℕ) (a : List Action) (r r' : Outcomes etl config receiver)
      → Continues ys r r'
      → Continues ys (before etl config receiver a r) (before etl config receiver a r')
  Continues-before ys a (fault e) r' h = rw h refl
  Continues-before ys a (ok g) r' (goes_on e fit h) =
      goes_on e fit (ap (before etl config receiver a) h ∙ before-before a g.actions _)
  Continues-before ys a (ok g) r' (stops rx_data n h) =
      stops rx_data n (ap (before etl config receiver a) h)

  -- The actions of a round come before the rest.
  behind-before :
      (go : Node → List ℕ → List ℕ → Outcomes etl config receiver) (node : Node) (a : List Action)
      (r : Received)
      → behind etl config receiver go node a r
        ≡ before etl config receiver a (behind etl config receiver go node [] r)
  unfolding behind
  behind-before go node a r = elim (Bool-cases (is_success r.status)) [
    | inl e ↦
        rw e (sym (before-before a [] _ ∙ ap (λ l. before etl config receiver l _) (append-nil a)))
    | inr e ↦ rw e (
        ap
          (λ l. ok (record {
            status = r.status;
            node = with_buffer node r.rx_data_buffer;
            rx_data = r.new_rx_data;
            actions = l;
          }))
          (sym (append-nil a)))
  ]

  before->>= :
      (a : List Action) (m : Result Received) (k : Received → Outcomes etl config receiver)
      → before etl config receiver a (m >>= k) ≡ (m >>= λ r. before etl config receiver a (k r))
  before->>= a (ok r) k = refl
  before->>= a (fault e) k = refl

  behind-with_buffer :
      (go : Node → List ℕ → List ℕ → Outcomes etl config receiver) (node : Node) (b : List ℕ)
      (r : Received)
      → behind etl config receiver go (with_buffer node b) [] r
        ≡ behind etl config receiver go node [] r
  unfolding behind
  behind-with_buffer go node b r =
      rw (receiver.with_buffer-with_buffer node b r.rx_data_buffer) refl

  success-is_success : (s : StatusCode) → s ≡ success → is_success s ≡ true
  success-is_success s e = rw e refl

  shorter :
      (rx_data : List ℕ) (r : Received) (x : ℕ) (packet : List ℕ)
      → IsNext rx_data r
      → r.packet ≡ x ∷ packet
      → length r.new_rx_data < length rx_data
  shorter rx_data r x packet v p = elim v.less [
    | inl (empty, _) ↦ absurd (omega (arith, ap length p, ap length empty))
    | inr (_, less) ↦ less
  ]

  module _ (lax : config.reject_incomplete_packets ≡ false) where
    next_packet-move :
        (node : Node) (rx_data : List ℕ)
        → next_packet etl config receiver node rx_data
          ≡ move_rx_data_in_buffer etl config rx_data (buffer node)
    unfolding next_packet move_rx_data_in_buffer move_loop
    next_packet-move node [] = ap ok (sym (no_packet_lax etl config success (buffer node) lax))
    next_packet-move node (x ∷ rest) = refl

    -- A call that begins with what is in the buffer, in the middle of another.
    move-receive :
        (node : Node) (b : List ℕ) (a : List Action) (ys : List ℕ) (f : ℕ)
        → IsFit b
        → length ys ≤ f
        → (move_rx_data_in_buffer etl config ys b
            >>= behind etl config receiver (loop etl config receiver f) node a)
          ≡ before etl config receiver a (receive etl config receiver (with_buffer node b) ys)
    unfolding receive
    move-receive node b a ys f fit l =
        >>=-cong (move_rx_data_in_buffer etl config ys b) _ _ (λ r e.
          let v = move-IsNext etl config ys b r fit e in
          behind-before (loop etl config receiver f) node a r
          ∙ ap (before etl config receiver a) (
              behind-cong etl config receiver (loop etl config receiver f)
                (loop etl config receiver (suc (length ys))) node [] r
                (loop_fuel etl config receiver f (suc (length ys))
                  (with_buffer node r.rx_data_buffer) r.new_rx_data r.packet
                  (with_buffer-IsFit etl config receiver node r.rx_data_buffer v.fit)
                  (elim v.less [ inl (empty, _) ↦ inl empty | inr (_, less) ↦ inr (omega arith) ])
                  (elim v.less [ inl (empty, _) ↦ inl empty | inr (_, less) ↦ inr (omega arith) ]))
              ∙ sym (behind-with_buffer (loop etl config receiver (suc (length ys))) node b r)))
        ∙ sym (before->>= a (move_rx_data_in_buffer etl config ys b) _)
        ∙ rw (receiver.buffer-with_buffer node b) refl

    -- One round, and its two calls of the loop.
    module _ (f g : ℕ) (ys : List ℕ)
        (ih : (node : Node) (rx_data packet : List ℕ) (x : ℕ)
          → IsFit (buffer node)
          → length rx_data < f
          → length (rx_data ++ ys) < g
          → Continues ys
              (loop etl config receiver f node rx_data (x ∷ packet))
              (loop etl config receiver g node (rx_data ++ ys) (x ∷ packet))) where
      behind-Continues :
          (node : Node) (a : List Action) (rx_data : List ℕ) (r : Received) (more : Result Received)
          → IsFit (buffer node)
          → IsNext rx_data r
          → length rx_data < suc f
          → length (rx_data ++ ys) < suc g
          → Cut etl config ys more r
          → Continues ys
              (behind etl config receiver (loop etl config receiver f) node a r)
              (more >>= behind etl config receiver (loop etl config receiver g) node a)
      unfolding behind loop
      behind-Continues node a rx_data r more fit v h k (found x packet s p m) =
          let step = Continues-before ys a _ _ (
            ih (with_buffer node r.rx_data_buffer) r.new_rx_data packet x
              (with_buffer-IsFit etl config receiver node r.rx_data_buffer v.fit)
              (omega (arith, shorter rx_data r x packet v p))
              (omega (
                arith,
                shorter rx_data r x packet v p,
                length-append rx_data ys,
                length-append r.new_rx_data ys,
              ))) in
          rw (m, success-is_success r.status s, p) step
      behind-Continues node a rx_data r more fit v h k (pending s p n m) =
          rw (m, success-is_success r.status s, p)
            (goes_on refl (with_buffer-IsFit etl config receiver node r.rx_data_buffer v.fit) (
              move-receive node r.rx_data_buffer a ys g v.fit
                (omega (arith, k, length-append rx_data ys))
              ∙ ap
                  (λ l.
                    before etl config receiver l
                      (receive etl config receiver (with_buffer node r.rx_data_buffer) ys))
                  (sym (append-nil a))))
      behind-Continues node a rx_data r more fit v h k (overflows s m) =
          rw (m, s) (stops r.new_rx_data (λ e. cc) refl)

      rest_of_round-Continues :
          (stop : Option StatusCode) (node : Node) (a : List Action) (rx_data : List ℕ)
          → IsFit (buffer node)
          → length rx_data < suc f
          → length (rx_data ++ ys) < suc g
          → ((s : StatusCode) → stop ≡ some s → s ≢ success)
          → Continues ys
              (rest_of_round etl config receiver
                (loop etl config receiver f)
                rx_data
                (stop, node, a))
              (rest_of_round etl config receiver
                (loop etl config receiver g)
                (rx_data ++ ys)
                (stop, node, a))
      unfolding rest_of_round
      rest_of_round-Continues (some s) node a rx_data fit h k error =
          stops (rx_data ++ ys) (error s refl) refl
      rest_of_round-Continues none node a rx_data fit h k error =
          let (r, e, v) =
            move_rx_data_in_buffer-IsReceived etl config rx_data (buffer node) fit.0 fit.1 in
          rw (next_packet-move node rx_data, next_packet-move node (rx_data ++ ys), e)
            (behind-Continues node a rx_data r
              (move_rx_data_in_buffer etl config (rx_data ++ ys) (buffer node)) fit
              (move-IsNext etl config rx_data (buffer node) r fit e) h k
              (move_rx_data_in_buffer-Cut etl config lax rx_data ys (buffer node) r fit.1 e))

    loop-Continues :
        (f g : ℕ) (ys : List ℕ) (node : Node) (rx_data packet : List ℕ) (x : ℕ)
        → IsFit (buffer node)
        → length rx_data < f
        → length (rx_data ++ ys) < g
        → Continues ys
            (loop etl config receiver f node rx_data (x ∷ packet))
            (loop etl config receiver g node (rx_data ++ ys) (x ∷ packet))
    unfolding loop
    loop-Continues zero g ys node rx_data packet x fit h k = absurd (omega arith)
    loop-Continues (suc f) zero ys node rx_data packet x fit h k = absurd (omega arith)
    loop-Continues (suc f) (suc g) ys node rx_data packet x fit h k =
        elim (Result-cases (parse_packet etl config (x ∷ packet))) [
          | inr (e, p) ↦ rw p refl
          | inl (parsed, p) ↦ elim (Result-cases (handle node parsed)) [
            | inr (e, q) ↦ rw (p, q) refl
            | inl ((stop, node', a), q) ↦
                rw (p, q)
                  (rest_of_round-Continues f g ys
                    (λ n rx more y fit' l l'. loop-Continues f g ys n rx more y fit' l l') stop
                    node' a rx_data (rw (receiver.handle-buffer node parsed stop node' a q) fit) h k
                    (λ s e.
                      receiver.handle-stop node parsed s node' a
                        (parse_packet-IsProper etl config (x ∷ packet) parsed p)
                        (q ∙ ap (λ t. ok (t, node', a)) e)))
          ]
        ]

    -- A call on both pieces goes on as one on the first did.
    pub receive-Continues :
        (node : Node) (xs ys : List ℕ)
        → IsFit (buffer node)
        → Continues ys
            (receive etl config receiver node xs)
            (receive etl config receiver node (xs ++ ys))
    unfolding receive
    receive-Continues node xs ys fit =
        let (r, e, v) = move_rx_data_in_buffer-IsReceived etl config xs (buffer node) fit.0 fit.1 in
        rw e (
          behind-Continues (suc (length xs)) (suc (length (xs ++ ys))) ys
            (λ n rx more y fit' l l'.
              loop-Continues (suc (length xs)) (suc (length (xs ++ ys))) ys n rx more y fit' l l')
            node [] xs r (move_rx_data_in_buffer etl config (xs ++ ys) (buffer node)) fit
            (move-IsNext etl config xs (buffer node) r fit e) (omega arith) (omega arith)
            (move_rx_data_in_buffer-Cut etl config lax xs ys (buffer node) r fit.1 e))
