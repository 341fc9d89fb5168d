-- ===== src/Rtos/Streams.antt =====
-- `GiveRxData` of src/EmbeddedSerialFiller_RTOS.cpp on a stream of bytes that comes in pieces, and behind
-- an error.
use embedded_serial_filler.Base.{
  ℕ, ◌≡◌, refl, sym, ◌∙◌, ap, inl, inr, List, [], ◌∷◌, ◌++◌, append-nil, if◌then◌else◌, Bool-cases,
  false, Result, Result-cases, ok, fault, ◌>>=◌,
}
use embedded_serial_filler.Definitions.{Config, success}
use embedded_serial_filler.Etl.{Etl}
use embedded_serial_filler.Incoming.{is_success}
use embedded_serial_filler.Incoming.Loop
use embedded_serial_filler.Incoming.Loop.{Outcome, receive}
use embedded_serial_filler.Incoming.Loop.Fuel.{IsFit}
use embedded_serial_filler.Incoming.Loop.Streams
use embedded_serial_filler.Incoming.Loop.Streams.{concat, receive_each, receive_each-concat}
use embedded_serial_filler.Rtos.{
  Node, Action, emit, notify, take_lock, release_lock, locked, Given, before, give_body,
  give_rx_data,
}
use embedded_serial_filler.Rtos.Loop.{receiver, given, as_given, give_body-receive}

-- All actions but the use of the lock.
abbrev pub visible : List Action → List Action
visible [] = []
visible (emit event ∷ actions) = emit event ∷ visible actions
visible (notify it ∷ actions) = notify it ∷ visible actions
visible (take_lock ∷ actions) = visible actions
visible (release_lock ∷ actions) = visible actions

visible-append : (a b : List Action) → visible (a ++ b) ≡ visible a ++ visible b
visible-append [] b = refl
visible-append (emit event ∷ a) b = ap (λ l. emit event ∷ l) (visible-append a b)
visible-append (notify it ∷ a) b = ap (λ l. notify it ∷ l) (visible-append a b)
visible-append (take_lock ∷ a) b = visible-append a b
visible-append (release_lock ∷ a) b = visible-append a b

visible-locked : (node : Node) (a : List Action) → visible (locked node a) ≡ visible a
visible-locked node a = elim (Bool-cases node.thread_safety_enabled) [
  | inl y ↦ rw y (visible-append a (release_lock ∷ []) ∙ append-nil (visible a))
  | inr n ↦ rw n refl
]

-- A call, but for what is left in `rxData` and for the lock.
abbrev pub seen : Result Given → Result Given
seen r = r >>= λ g. ok (record g { rx_data = []; actions = visible g.actions })

module _ (etl : Etl) (config : Config) (effect : ℕ → List ℕ → List ℕ) where
  -- The body of a call for each piece.
  abbrev body_each : Node → List (List ℕ) → Result Given
  body_each node [] = ok (record { status = success; node = node; rx_data = []; actions = [] })
  body_each node (xs ∷ pieces) = give_body etl config effect node xs >>= λ g.
      let further = body_each g.node pieces >>= (λ g'. ok (before g.actions g')) in
      if is_success g.status then further else ok g

  -- All but what is left in `rxData`.
  abbrev without_rx_data : Result Given → Result Given
  without_rx_data r = r >>= λ g. ok (record g { rx_data = [] })

  as_given-further :
      (g : Outcome (receiver etl config effect)) (r : Result (Outcome (receiver etl config effect)))
      → (if is_success g.status
          then (as_given etl config effect r >>= λ g'. ok (before g.actions g'))
          else ok (given etl config effect g))
        ≡ as_given etl config effect (
            if is_success g.status
            then (r >>= λ g'. ok (record g' { actions = g.actions ++ g'.actions }))
            else ok g)
  as_given-further g (ok g') = elim (Bool-cases (is_success g.status)) [
    | inl y ↦ rw y refl
    | inr n ↦ rw n refl
  ]
  as_given-further g (fault e) = elim (Bool-cases (is_success g.status)) [
    | inl y ↦ rw y refl
    | inr n ↦ rw n refl
  ]

  body_each-receive_each :
      (node : Node) (pieces : List (List ℕ))
      → body_each node pieces
        ≡ as_given etl config effect
            (receive_each etl config (receiver etl config effect) node pieces)
  body_each-receive_each node [] = refl
  body_each-receive_each node (xs ∷ pieces) = rw (give_body-receive etl config effect node xs) (
      each (receive etl config (receiver etl config effect) node xs)
        (λ next. body_each-receive_each next pieces))
    where
      each :
          (r : Result (Outcome (receiver etl config effect)))
          → ((next : Node)
              → body_each next pieces
                ≡ as_given etl config effect
                    (receive_each etl config (receiver etl config effect) next pieces))
          → (as_given etl config effect r >>= λ g.
              if is_success g.status
              then (body_each g.node pieces >>= λ g'. ok (before g.actions g'))
              else ok g)
            ≡ as_given etl config effect (
                r >>= λ g.
                if is_success g.status
                then Loop.before etl config
                    (receiver etl config effect)
                    g.actions
                    (receive_each etl config (receiver etl config effect) g.node pieces)
                else ok g)
      each (fault e) ih = refl
      each (ok g) ih =
          rw (ih g.node) (
            as_given-further g (receive_each etl config (receiver etl config effect) g.node pieces))

  as_given-without_rx_data :
      (r : Result (Outcome (receiver etl config effect)))
      → without_rx_data (as_given etl config effect r)
        ≡ as_given etl config effect
            (Streams.without_rx_data etl config (receiver etl config effect) r)
  as_given-without_rx_data (ok g) = refl
  as_given-without_rx_data (fault e) = refl

  -- A call for each piece, up to the first one that fails.
  abbrev pub give_each : Node → List (List ℕ) → Result Given
  give_each node [] = ok (record { status = success; node = node; rx_data = []; actions = [] })
  give_each node (xs ∷ pieces) = give_rx_data etl config effect node xs >>= λ g.
      let further = give_each g.node pieces >>= (λ g'. ok (before g.actions g')) in
      if is_success g.status then further else ok g

  seen-before :
      (a : List Action) (r : Result Given)
      → seen (r >>= λ g. ok (before a g))
        ≡ (seen r >>= λ g. ok (record g { actions = visible a ++ g.actions }))
  seen-before a (ok g) =
      ap (λ l. ok (record g { rx_data = []; actions = l })) (visible-append a g.actions)
  seen-before a (fault e) = refl

  seen-further :
      (node : Node) (g : Given) (r r' : Result Given)
      → seen r ≡ seen r'
      → seen (
          if is_success g.status
          then (r >>= λ g'. ok (before (locked node g.actions) g'))
          else ok (record g { actions = locked node g.actions }))
        ≡ seen (if is_success g.status then (r' >>= λ g'. ok (before g.actions g')) else ok g)
  seen-further node g r r' h = elim (Bool-cases (is_success g.status)) [
    | inl y ↦ rw y (
        seen-before (locked node g.actions) r
        ∙ rw (h, visible-locked node g.actions) (sym (seen-before g.actions r')))
    | inr n ↦
        rw n (ap (λ l. ok (record g { rx_data = []; actions = l })) (visible-locked node g.actions))
  ]

  give_each-body_each :
      (node : Node) (pieces : List (List ℕ))
      → seen (give_each node pieces) ≡ seen (body_each node pieces)
  unfolding give_rx_data
  give_each-body_each node [] = refl
  give_each-body_each node (xs ∷ pieces) =
      elim (Result-cases (give_body etl config effect node xs)) [
        | inl (g, e) ↦ rw e (
            seen-further node g (give_each g.node pieces) (body_each g.node pieces)
              (give_each-body_each g.node pieces))
        | inr (fail, e) ↦ rw e refl
      ]

  give_rx_data-seen :
      (node : Node) (rx_data : List ℕ)
      → seen (give_rx_data etl config effect node rx_data)
        ≡ seen (give_body etl config effect node rx_data)
  unfolding give_rx_data
  give_rx_data-seen node rx_data = elim (Result-cases (give_body etl config effect node rx_data)) [
    | inl (g, e) ↦
        rw e (ap (λ l. ok (record g { rx_data = []; actions = l })) (visible-locked node g.actions))
    | inr (fail, e) ↦ rw e refl
  ]

  seen-without_rx_data :
      (r r' : Result Given) → without_rx_data r ≡ without_rx_data r' → seen r ≡ seen r'
  seen-without_rx_data r r' h = seen_again r ∙ ap seen h ∙ sym (seen_again r')
    where
      seen_again : (r : Result Given) → seen r ≡ seen (without_rx_data r)
      seen_again (ok g) = refl
      seen_again (fault e) = refl

  -- However any bytes at all are cut into pieces, with any non-zero bytes within the capacity in
  -- the buffer and without `ESF_REJECT_INCOMPLETE_PACKETS`: calls of `GiveRxData` of the node for
  -- several threads on each piece in turn, up to the first call that fails, and one call on all
  -- the bytes come to the same status and node, and to the same acknowledgements, callbacks and
  -- notifications, or to the same fault. They may differ in the use of the lock and in what is
  -- left in `rxData`.
  pub give_each_threaded-concat :
      (node : Node) (pieces : List (List ℕ))
      → config.reject_incomplete_packets ≡ false
      → IsFit node.rx_buffer
      → seen (give_each node pieces) ≡ seen (give_rx_data etl config effect node (concat pieces))
  give_each_threaded-concat node pieces lax fit =
      give_each-body_each node pieces
      ∙ seen-without_rx_data _ _ (
          ap without_rx_data (body_each-receive_each node pieces)
          ∙ as_given-without_rx_data _
          ∙ ap (as_given etl config effect)
              (receive_each-concat etl config (receiver etl config effect) lax node pieces fit)
          ∙ sym (as_given-without_rx_data _)
          ∙ ap without_rx_data (sym (give_body-receive etl config effect node (concat pieces))))
      ∙ sym (give_rx_data-seen node (concat pieces))
