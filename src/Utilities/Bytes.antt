-- ===== src/Utilities/Bytes.antt =====
-- What holds of each byte that `MoveRxDataInBuffer` takes holds of each that it leaves.
use embedded_serial_filler.Base.{
  ℕ, ◌≤◌, ◌<◌, ◌≡◌, refl, ◌∙◌, List, [], ◌∷◌, ◌++◌, length, ap, subst, ◌⊎◌, IsByte, IsNonzero,
  All-append_left, length-append, All, All-append, Bool-cases, inl, inr, ok, arith,
}
use native.Mathlib.Decide.{ℕ_discrete}
use embedded_serial_filler.Definitions.{
  Config, StatusCode, success, rx_data_buffer_full, max_packet_size,
}
use embedded_serial_filler.Etl.{Etl}
use embedded_serial_filler.Cobs.Encoded.{IsCode}
use embedded_serial_filler.Utilities.Receive.{
  Received, no_packet, move_loop, move_rx_data_in_buffer,
}
use embedded_serial_filler.Utilities.Packets.{
  IsReceived, move_rx_data_in_buffer-IsReceived, move_full, move_zero, move_more,
}

-- The buffer holds non-zero bytes, within its capacity.
abbrev pub IsBuffer : List ℕ → Type 0
IsBuffer rx_buffer = All IsCode rx_buffer × (length rx_buffer ≤ max_packet_size)

-- A packet that the loop may meet.
abbrev pub Shape : List ℕ → List ℕ → Type 0
Shape rx_data packet =
    ((packet ≡ []) × (rx_data ≡ []))
    ⊎ ((body : List ℕ) × (packet ≡ body ++ 0 ∷ [])
        × All IsCode body
        × (length body < max_packet_size))

module _ (etl : Etl) (config : Config) (P : ℕ → Type 0) where
  abbrev pub Throughout : Received → Type 0
  Throughout r = All P r.packet × All P r.rx_data_buffer × All P r.new_rx_data

  no_packet-Throughout :
      (s : StatusCode) (rx : List ℕ) → All P rx → Throughout (no_packet etl config s rx)
  unfolding no_packet
  no_packet-Throughout s rx h = elim (Bool-cases config.reject_incomplete_packets) [
    | inl e ↦ rw e (tt, tt, tt)
    | inr e ↦ rw e (tt, h, tt)
  ]

  move_loop-Throughout :
      (new rx : List ℕ)
      → All P new
      → All P rx
      → length rx ≤ max_packet_size
      → (r : Received) × (move_loop etl config new rx ≡ ok r) × Throughout r
  move_loop-Throughout [] rx n h l =
      (no_packet etl config success rx, unfold move_loop in refl, no_packet-Throughout success rx h)
  move_loop-Throughout (x ∷ rest) rx n h l = elim (ℕ_discrete (length rx) max_packet_size) [
    | yes full ↦ (
      no_packet etl config rx_data_buffer_full rx,
      move_full etl config x rest rx full,
      no_packet-Throughout rx_data_buffer_full rx h,
    )
    | no room ↦ elim (ℕ_discrete x 0) [
      | yes z ↦ (
        record { status = success; new_rx_data = rest; rx_data_buffer = []; packet = rx ++ 0 ∷ [] },
        rw z (move_zero etl config rest rx (omega arith)),
        (All-append P rx (0 ∷ []) h (rw z at n.0, tt), tt, n.1),
      )
      | no nz ↦
          (let (r, e, t) =
              move_loop-Throughout rest (rx ++ x ∷ []) n.1 (All-append P rx (x ∷ []) h (n.0, tt))
                (omega (arith, length-append rx (x ∷ []))) in
            (r, move_more etl config x rest rx (omega arith) (omega arith) ∙ e, t))
    ]
  ]

  pub move_rx_data_in_buffer-Throughout :
      (new rx : List ℕ)
      → All P new
      → All P rx
      → length rx ≤ max_packet_size
      → (r : Received) × (move_rx_data_in_buffer etl config new rx ≡ ok r) × Throughout r
  unfolding move_rx_data_in_buffer
  move_rx_data_in_buffer-Throughout new rx n h l = move_loop-Throughout new rx n h l

-- A call on bytes, for the loop of `GiveRxData`: the buffer holds non-zero bytes again, and there is
-- a packet and less data, or no packet and no data.
pub record IsSound (new : List ℕ) (r : Received) : Type 0 where
  pub code : All IsCode r.rx_data_buffer
  pub fits : length r.rx_data_buffer ≤ max_packet_size
  pub bytes : All IsByte r.new_rx_data
  pub packet :
      ((r.packet ≡ []) × (r.new_rx_data ≡ []))
      ⊎ ((body : List ℕ) × (r.packet ≡ body ++ 0 ∷ [])
          × All IsCode body
          × (length body < max_packet_size)
          × (length r.new_rx_data < length new))

IsCode-both : (xs : List ℕ) → All IsNonzero xs → All IsByte xs → All IsCode xs
IsCode-both [] h k = tt
IsCode-both (x ∷ xs) h k = ((h.0, k.0), IsCode-both xs h.1 k.1)

IsCode-IsNonzero : (xs : List ℕ) → All IsCode xs → All IsNonzero xs
IsCode-IsNonzero [] h = tt
IsCode-IsNonzero (x ∷ xs) h = (h.0.0, IsCode-IsNonzero xs h.1)

IsCode-IsByte : (xs : List ℕ) → All IsCode xs → All IsByte xs
IsCode-IsByte [] h = tt
IsCode-IsByte (x ∷ xs) h = (h.0.1, IsCode-IsByte xs h.1)

module _ (etl : Etl) (config : Config) where
  sound :
      (new : List ℕ) (rx : List ℕ) (r : Received)
      → IsReceived new rx r
      → Throughout etl config IsByte r
      → IsSound new r
  sound new rx r v t = record {
    code = IsCode-both r.rx_data_buffer v.nonzero t.1;
    fits = v.fits;
    bytes = t.2;
    packet = elim v.framed [
      | inl no_packet ↦ inl no_packet
      | inr ((body, e, c), _, _, l, shorter) ↦ inr (
        body,
        e,
        IsCode-both body c (All-append_left IsByte body (0 ∷ []) (rw e at t.0)),
        omega (arith, ap length e, length-append body (0 ∷ [])),
        shorter,
      )
    ];
  }

  pub move_rx_data_in_buffer-IsSound :
      (new rx : List ℕ)
      → All IsByte new
      → All IsCode rx
      → length rx ≤ max_packet_size
      → (r : Received) × (move_rx_data_in_buffer etl config new rx ≡ ok r) × IsSound new r
  move_rx_data_in_buffer-IsSound new rx n c l =
      let (r, e, v) =
        move_rx_data_in_buffer-IsReceived etl config new rx (IsCode-IsNonzero rx c) l in
      let (r', e', t) =
        move_rx_data_in_buffer-Throughout etl config IsByte new rx n (IsCode-IsByte rx c) l in
      let same : r' ≡ r = ground (arith, e, e') in
      (r, e, sound new rx r v (subst (Throughout etl config IsByte) same t))

-- Whether the loop goes on, and with what.
pub Shape-left :
    {new : List ℕ} (r : Received)
    → IsSound new r
    → Shape r.new_rx_data r.packet × ((r.packet ≡ []) ⊎ (length r.new_rx_data < length new))
Shape-left r v = elim v.packet [
  | inl h ↦ (inl h, inl h.0)
  | inr (body, p, q, s, t) ↦ (inr (body, p, q, s), inr t)
]
