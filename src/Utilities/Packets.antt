-- ===== src/Utilities/Packets.antt =====
-- How `MoveRxDataInBuffer` cuts the received bytes into packets.
use embedded_serial_filler.Base.{
  ℕ, ◌+◌, ◌≤◌, ◌<◌, ◌≡◌, ◌≢◌, refl, sym, ◌∙◌, ap, inl, inr, ◌⊎◌, List, [], ◌∷◌, ◌++◌, length,
  length-append, append_assoc, append-nil, All, All-append, IsNonzero, false, Bool-cases, ok, arith,
}
use native.Mathlib.Decide.{ℕ_discrete}
use embedded_serial_filler.Definitions.{
  Config, max_packet_size, StatusCode, success, rx_data_buffer_full,
}
use embedded_serial_filler.Etl.{Etl}
use embedded_serial_filler.Utilities.Receive.{
  Received, append_each, end_of_packet, no_packet, move_loop, move_rx_data_in_buffer,
}

-- A packet, as it arrives: non-zero bytes, and the zero that ends them.
abbrev pub IsPacket : List ℕ → Type 0
IsPacket packet = (body : List ℕ) × (packet ≡ body ++ 0 ∷ []) × All IsNonzero body

-- What a call on `new` comes to, with `rx` in the buffer: a packet and the bytes behind it, or no
-- packet and no bytes; the buffer holds no zero and stays within its capacity; and with SUCCESS no
-- byte is lost or changed.
pub record IsReceived (new rx : List ℕ) (r : Received) : Type 0 where
  pub nonzero : All IsNonzero r.rx_data_buffer
  pub fits : length r.rx_data_buffer ≤ max_packet_size
  pub framed :
      ((r.packet ≡ []) × (r.new_rx_data ≡ []))
      ⊎ (IsPacket r.packet
          × (r.status ≡ success)
          × (r.rx_data_buffer ≡ [])
          × (length r.packet ≤ max_packet_size)
          × (length r.new_rx_data < length new))
  pub kept : (r.status ≢ success) ⊎ (rx ++ new ≡ r.packet ++ (r.rx_data_buffer ++ r.new_rx_data))

module _ (etl : Etl) (config : Config) where
  pub append_each_lem :
      (packet xs : List ℕ)
      → length packet + length xs ≤ max_packet_size
      → append_each etl config packet xs ≡ ok (packet ++ xs)
  unfolding append_each
  append_each_lem packet [] h = ground (arith, append-nil packet)
  append_each_lem packet (x ∷ xs) h = ground (
    arith,
    etl.push_back_fits ℕ max_packet_size packet x,
    append_each_lem (packet ++ x ∷ []) xs,
    length-append packet (x ∷ []),
    append_assoc packet (x ∷ []) xs,
  )

  end_of_packet_lem :
      (rest rx : List ℕ)
      → length rx ≤ max_packet_size
      → end_of_packet etl config rest rx
        ≡ ok (record { status = success; new_rx_data = rest; rx_data_buffer = []; packet = rx })
  unfolding end_of_packet
  end_of_packet_lem rest rx h = ground (arith, append_each_lem [] rx, etl.insert_end_fits [] rx)

  -- The three ways through one round.
  pub move_full :
      (x : ℕ) (rest rx : List ℕ)
      → length rx ≡ max_packet_size
      → move_loop etl config (x ∷ rest) rx ≡ ok (no_packet etl config rx_data_buffer_full rx)
  unfolding move_loop
  move_full x rest rx h = ground arith

  pub move_zero :
      (rest rx : List ℕ)
      → length rx < max_packet_size
      → move_loop etl config (0 ∷ rest) rx
        ≡ ok (record {
          status = success;
          new_rx_data = rest;
          rx_data_buffer = [];
          packet = rx ++ 0 ∷ [];
        })
  unfolding move_loop
  move_zero rest rx h = ground (
    arith,
    etl.push_back_fits ℕ max_packet_size rx 0,
    length-append rx (0 ∷ []),
    end_of_packet_lem rest (rx ++ 0 ∷ []),
  )

  pub move_more :
      (x : ℕ) (rest rx : List ℕ)
      → length rx < max_packet_size
      → 0 < x
      → move_loop etl config (x ∷ rest) rx ≡ move_loop etl config rest (rx ++ x ∷ [])
  unfolding move_loop
  move_more x rest rx h pos = ground (arith, etl.push_back_fits ℕ max_packet_size rx x)

  pub no_packet_lax :
      (s : StatusCode) (rx : List ℕ)
      → config.reject_incomplete_packets ≡ false
      → no_packet etl config s rx
        ≡ record { status = s; new_rx_data = []; rx_data_buffer = rx; packet = [] }
  unfolding no_packet
  no_packet_lax s rx lax = rw lax

  no_packet-IsReceived :
      (s : StatusCode) (new rx : List ℕ)
      → All IsNonzero rx
      → length rx ≤ max_packet_size
      → (s ≢ success) ⊎ (new ≡ [])
      → IsReceived new rx (no_packet etl config s rx)
  unfolding no_packet
  no_packet-IsReceived s new rx c h k = elim (Bool-cases config.reject_incomplete_packets) [
    | inl strict ↦ rw strict (record {
      nonzero = tt;
      fits = omega arith;
      framed = inl (refl, refl);
      kept = inl (λ e. cc);
    })
    | inr lax ↦ rw lax (record {
      nonzero = c;
      fits = h;
      framed = inl (refl, refl);
      kept = elim k [ inl bad ↦ inl bad | inr none ↦ inr (rw none) ];
    })
  ]

  move_loop-IsReceived :
      (new rx : List ℕ)
      → All IsNonzero rx
      → length rx ≤ max_packet_size
      → (r : Received) × (move_loop etl config new rx ≡ ok r) × IsReceived new rx r
  unfolding move_loop
  move_loop-IsReceived [] rx c h =
      (no_packet etl config success rx, refl, no_packet-IsReceived success [] rx c h (inr refl))
  move_loop-IsReceived (x ∷ rest) rx c h = elim (ℕ_discrete (length rx) max_packet_size) [
    | yes e ↦ (
      no_packet etl config rx_data_buffer_full rx,
      move_full x rest rx e,
      no_packet-IsReceived rx_data_buffer_full (x ∷ rest) rx c h (inl (λ e. cc)),
    )
    | no ne ↦ elim (ℕ_discrete x 0) [
      | yes z ↦ (
        record { status = success; new_rx_data = rest; rx_data_buffer = []; packet = rx ++ 0 ∷ [] },
        rw z (move_zero rest rx (omega arith)),
        record {
          nonzero = tt;
          fits = omega arith;
          framed =
              inr
                ((rx, refl, c), refl, refl, omega (arith, length-append rx (0 ∷ [])), omega arith);
          kept = inr (rw z (sym (append_assoc rx (0 ∷ []) rest)));
        },
      )
      | no nz ↦ further (omega arith) (omega arith) (
          move_loop-IsReceived rest (rx ++ x ∷ [])
            (All-append IsNonzero rx (x ∷ []) c (omega arith, tt))
            (omega (arith, length-append rx (x ∷ []))))
    ]
  ]
    where
      further :
          length rx < max_packet_size
          → 0 < x
          → (r : Received) × (move_loop etl config rest (rx ++ x ∷ []) ≡ ok r)
            × IsReceived rest (rx ++ x ∷ []) r
          → (r : Received) × (move_loop etl config (x ∷ rest) rx ≡ ok r)
            × IsReceived (x ∷ rest) rx r
      further l p (r, e, v) = (
        r,
        move_more x rest rx l p ∙ e,
        record {
          nonzero = v.nonzero;
          fits = v.fits;
          framed = elim v.framed [
            | inl none ↦ inl none
            | inr (packet, s, b, f, t) ↦ inr (packet, s, b, f, omega arith)
          ];
          kept = elim v.kept [
            | inl bad ↦ inl bad
            | inr same ↦ inr (sym (append_assoc rx (x ∷ []) rest) ∙ same)
          ];
        },
      )

  -- A call of `MoveRxDataInBuffer`, with no zero in the buffer, which is within its capacity,
  -- comes to a value, and `IsReceived` holds of it: there is a packet, non-zero bytes up to one
  -- zero at its end, or none and nothing left of `newRxData`; the buffer still holds no zero and
  -- is within its capacity; and with SUCCESS no byte is lost or changed.
  pub move_rx_data_in_buffer-IsReceived :
      (new rx : List ℕ)
      → All IsNonzero rx
      → length rx ≤ max_packet_size
      → (r : Received) × (move_rx_data_in_buffer etl config new rx ≡ ok r) × IsReceived new rx r
  unfolding move_rx_data_in_buffer
  move_rx_data_in_buffer-IsReceived new rx c h = move_loop-IsReceived new rx c h

  -- Bytes without a zero go to the buffer; the loop goes on behind them.
  pub move_loop-append :
      (a b rx : List ℕ)
      → All IsNonzero a
      → length rx + length a ≤ max_packet_size
      → move_loop etl config (a ++ b) rx ≡ move_loop etl config b (rx ++ a)
  move_loop-append [] b rx c h = rw append-nil
  move_loop-append (x ∷ a) b rx c h =
      move_more x (a ++ b) rx (omega arith) c.0
      ∙ move_loop-append a b (rx ++ x ∷ []) c.1 (omega (arith, length-append rx (x ∷ [])))
      ∙ ap (move_loop etl config b) (append_assoc rx (x ∷ []) a)

  -- The bytes up to the first zero, behind those in the buffer, become the packet, zero included,
  -- if the buffer has room for them; the buffer is left empty, and the bytes behind the zero stay
  -- in `newRxData`.
  pub move_rx_data_in_buffer_packet :
      (body rest rx : List ℕ)
      → All IsNonzero body
      → length rx + length body < max_packet_size
      → move_rx_data_in_buffer etl config (body ++ 0 ∷ rest) rx
        ≡ ok (record {
          status = success;
          new_rx_data = rest;
          rx_data_buffer = [];
          packet = (rx ++ body) ++ 0 ∷ [];
        })
  unfolding move_rx_data_in_buffer
  move_rx_data_in_buffer_packet body rest rx c h =
      move_loop-append body (0 ∷ rest) rx c (omega arith)
      ∙ move_zero rest (rx ++ body) (omega (arith, length-append rx body))

  -- Where incomplete packets are not rejected, a packet may arrive in pieces: a call on bytes
  -- without a zero, for which the buffer has room, empties `newRxData`, and a call on what follows
  -- then does what one call on all of it does.
  move_rx_data_in_buffer-append :
      (a b rx : List ℕ)
      → config.reject_incomplete_packets ≡ false
      → All IsNonzero a
      → length rx + length a ≤ max_packet_size
      → (r : Received) × (move_rx_data_in_buffer etl config a rx ≡ ok r)
        × (r.new_rx_data ≡ [])
        × (move_rx_data_in_buffer etl config (a ++ b) rx
            ≡ move_rx_data_in_buffer etl config b r.rx_data_buffer)
  unfolding move_rx_data_in_buffer move_loop no_packet
  move_rx_data_in_buffer-append a b rx lax c h = (
    record { status = success; new_rx_data = []; rx_data_buffer = rx ++ a; packet = [] },
    ap (λ (xs : List ℕ). move_loop etl config xs rx) (sym (append-nil a))
        ∙ move_loop-append a [] rx c h
        ∙ rw lax,
    refl,
    move_loop-append a b rx c h,
  )

  -- Where incomplete packets are not rejected, a buffer that fills up before a zero comes stays full:
  -- this call drops the bytes that it has not stored, and each later one returns
  -- ERROR_RX_DATA_BUFFER_FULL, drops all its bytes, zeros included, and leaves the buffer as it is.
  pub full_buffer_stays_full :
      (body : List ℕ) (x : ℕ) (rest rx : List ℕ) (y : ℕ) (later : List ℕ)
      → config.reject_incomplete_packets ≡ false
      → All IsNonzero body
      → length rx + length body ≡ max_packet_size
      → (r : Received) × (move_rx_data_in_buffer etl config (body ++ x ∷ rest) rx ≡ ok r)
        × (r.status ≡ rx_data_buffer_full)
        × (r.new_rx_data ≡ [])
        × (move_rx_data_in_buffer etl config (y ∷ later) r.rx_data_buffer ≡ ok r)
  unfolding move_rx_data_in_buffer
  full_buffer_stays_full body x rest rx y later lax c h = (
    no_packet etl config rx_data_buffer_full (rx ++ body),
    move_loop-append body (x ∷ rest) rx c (omega arith) ∙ move_full x rest (rx ++ body) full,
    rw stays,
    rw stays,
    rw stays (move_full y later (rx ++ body) full ∙ ap ok stays),
  )
    where
      stays : no_packet etl config rx_data_buffer_full (rx ++ body) ≡ record {
        status = rx_data_buffer_full;
        new_rx_data = [];
        rx_data_buffer = rx ++ body;
        packet = [];
      }
      stays = no_packet_lax rx_data_buffer_full (rx ++ body) lax

      full : length (rx ++ body) ≡ max_packet_size
      full = omega (arith, length-append rx body)
