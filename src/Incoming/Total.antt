-- ===== src/Incoming/Total.antt =====
-- The receiver on any packet at all: parsing comes to a value, or to one of the two faults that a wrong
-- length of the topic can lead to.
use embedded_serial_filler.Base.{
  ℕ, ◌+◌, ◌-◌, ◌≤◌, ◌<◌, ◌≡◌, ◌≢◌, refl, subst, ap, inl, inr, List, [], ◌∷◌, ◌++◌, length,
  length-append, length-take, length-drop, take, drop, get_or, All, Bool, true, false, Bool-cases,
  ltb, lt→ltb, Result, ok, fault, bad_range, out_of_bounds, ◌>>=◌, >>=-ok, ok_inj, arith,
}
use native.Mathlib.Decide.{dec_lt}
use embedded_serial_filler.Definitions.{
  Config, PacketType, unknown, broadcast, ack, publish, unnamed, of_byte, StatusCode, success,
  crc_check_failed, not_enough_bytes, unrecognised_packet_type, unexpected_ack,
  length_of_topic_too_long, unrecognised_subscriber, zero_byte_not_expected, rx_data_buffer_full,
  packet_incomplete, max_packet_size,
}
use embedded_serial_filler.Etl.{Etl}
use embedded_serial_filler.Cobs.Encoded.{IsCode}
use embedded_serial_filler.Cobs.Decode.{decode}
use embedded_serial_filler.Cobs.Safety.{decode-SameStatus}
use embedded_serial_filler.Utilities.Crc.{verify_crc}
use embedded_serial_filler.Utilities.Split.{Parts, available_bytes, slice, split_packet}
use embedded_serial_filler.Incoming.{
  Parsed, refused, message, acknowledged, to_message, by_type, parse_decoded, parse_packet,
  is_success,
}

-- A value of which `P` holds, or a range that a wrong length of the topic has put out of order or out
-- of bounds.
pub data Ends {ℓ} {A : Type ℓ} (P : A → Type 0) : Result A → Type ℓ where
  returns : (a : A) → P a → Ends P (ok a)
  reversed : Ends P (fault bad_range)
  outside : Ends P (fault out_of_bounds)

abbrev pub Any {ℓ} : {A : Type ℓ} → A → Type 0
Any a = Unit

pub Ends-bind {ℓ κ} :
    {A : Type ℓ} {B : Type κ} (P : A → Type 0) (Q : B → Type 0) (first : Result A)
    (further : A → Result B)
    → Ends P first
    → ((value : A) → first ≡ ok value → P value → Ends Q (further value))
    → Ends Q (first >>= further)
Ends-bind P Q r f (returns a h) k = k a refl h
Ends-bind P Q r f reversed k = reversed
Ends-bind P Q r f outside k = outside

pub Ends-map {ℓ} :
    {A : Type ℓ} (P Q : A → Type 0) (r : Result A) → Ends P r → ((a : A) → P a → Q a) → Ends Q r
Ends-map P Q r (returns a h) k = returns a (k a h)
Ends-map P Q r reversed k = reversed
Ends-map P Q r outside k = outside

pub Ends-ok {ℓ} : {A : Type ℓ} (P : A → Type 0) (r : Result A) (a : A) → Ends P r → r ≡ ok a → P a
Ends-ok P r a (returns b h) e = let same : b ≡ a = ground (arith, e) in subst P same h
Ends-ok P r a reversed e = absurd (ground (arith, e))
Ends-ok P r a outside e = absurd (ground (arith, e))

slice-Ends : (packet : List ℕ) (first last : ℕ) → Ends {A = List ℕ} Any (slice packet first last)
unfolding slice
slice-Ends packet first last = elim (Bool-cases (ltb last first)) [
  | inl e ↦ rw e reversed
  | inr e ↦ elim (Bool-cases (ltb (length packet) last)) [
    | inl k ↦ rw (e, k) outside
    | inr k ↦ rw (e, k) (returns _ tt)
  ]
]

length-slice :
    (packet : List ℕ) (first last : ℕ) (xs : List ℕ)
    → slice packet first last ≡ ok xs
    → length xs ≤ length packet
unfolding slice
length-slice packet first last xs h = elim (Bool-cases (ltb last first)) [
  | inl e ↦ absurd (ground (arith, e, h))
  | inr e ↦ elim (Bool-cases (ltb (length packet) last)) [
    | inl k ↦ absurd (ground (arith, e, k, h))
    | inr k ↦
        (let same : xs ≡ take (last - first) (drop first packet) = ground (arith, e, k, h) in
          omega (
            arith,
            ap length same,
            length-take (last - first) (drop first packet),
            length-drop first packet,
          ))
  ]
]

-- A refusal comes with an error.
abbrev pub IsProper : Parsed → Type 0
IsProper (refused s) = s ≢ success
IsProper (message wants_ack packet_id topic payload) = Unit
IsProper (acknowledged packet_id) = Unit

pub is_success-ne : (s : StatusCode) → is_success s ≡ false → s ≢ success
is_success-ne s h e = ground (arith, h, e)

pub is_success-eq : (s : StatusCode) → is_success s ≡ true → s ≡ success
is_success-eq success h = refl
is_success-eq crc_check_failed h = cc
is_success-eq not_enough_bytes h = cc
is_success-eq unrecognised_packet_type h = cc
is_success-eq unexpected_ack h = cc
is_success-eq length_of_topic_too_long h = cc
is_success-eq unrecognised_subscriber h = cc
is_success-eq zero_byte_not_expected h = cc
is_success-eq rx_data_buffer_full h = cc
is_success-eq packet_incomplete h = cc

to_message-IsProper :
    (wants_ack : Bool) (packet_id : ℕ) (parts : Parts)
    → IsProper (to_message wants_ack packet_id parts)
unfolding to_message
to_message-IsProper wants_ack packet_id parts = elim (Bool-cases (is_success parts.status)) [
  | inl e ↦ rw e tt
  | inr e ↦ rw e (is_success-ne parts.status e)
]

-- Whatever is parsed, if it is: a refusal has an error.
module _ (etl : Etl) (config : Config) where
  proper : (p p' : Parsed) → IsProper p → ok p ≡ ok p' → IsProper p'
  proper p p' h e = subst IsProper (ok_inj e) h

  by_type-IsProper :
      (t : PacketType) (packet_id : ℕ) (decoded_data packet : List ℕ) (p : Parsed)
      → by_type etl config t packet_id decoded_data packet ≡ ok p
      → IsProper p
  unfolding by_type
  by_type-IsProper broadcast packet_id decoded_data packet p h =
      let (parts, e, k) = >>=-ok (split_packet etl decoded_data 2 [] packet) _ p h in
      proper (to_message false packet_id parts) p (to_message-IsProper false packet_id parts) k
  by_type-IsProper publish packet_id decoded_data packet p h =
      let (parts, e, k) = >>=-ok (split_packet etl decoded_data 2 [] packet) _ p h in
      proper (to_message true packet_id parts) p (to_message-IsProper true packet_id parts) k
  by_type-IsProper ack packet_id decoded_data packet p h = proper (acknowledged packet_id) p tt h
  by_type-IsProper unknown packet_id decoded_data packet p h =
      proper (refused unrecognised_packet_type) p (λ e. cc) h
  by_type-IsProper (unnamed b) packet_id decoded_data packet p h =
      proper (refused unrecognised_packet_type) p (λ e. cc) h

  pub parse_packet-IsProper :
      (packet : List ℕ) (p : Parsed) → parse_packet etl config packet ≡ ok p → IsProper p
  unfolding parse_packet parse_decoded
  parse_packet-IsProper packet p h =
      let ((result, decoded_data), e, k) = >>=-ok (decode etl config packet []) _ p h in
      elim (Bool-cases (is_success result)) [
        | inr n ↦ proper (refused result) p (is_success-ne result n) (rw n at k)
        | inl y ↦ elim (Bool-cases (is_success (verify_crc etl decoded_data))) [
          | inr n ↦
              proper (refused (verify_crc etl decoded_data)) p (is_success-ne _ n) (rw (y, n) at k)
          | inl z ↦
              by_type-IsProper (of_byte (get_or decoded_data 0 0)) (get_or decoded_data 1 0)
                decoded_data packet p (rw (y, z) at k)
        ]
      ]

module _ (etl : Etl) where
  split_packet-Ends :
      (packet : List ℕ) (start : ℕ) (topic payload : List ℕ)
      → start < length packet
      → length packet ≤ max_packet_size
      → Ends {A = Parts} Any (split_packet etl packet start topic payload)
  unfolding split_packet
  split_packet-Ends packet start topic payload h k =
      rw (lt→ltb start (length packet) h)
        (elim (Bool-cases (ltb (available_bytes (length packet) start) (get_or packet start 0))) [
          | inl e ↦ rw e (returns _ tt)
          | inr e ↦ rw e (
              Ends-bind Any Any (slice packet (1 + start) (1 + start + get_or packet start 0)) _
                (slice-Ends packet (1 + start) (1 + start + get_or packet start 0))
                (λ new_topic p _.
                  Ends-bind Any Any
                    (slice packet (1 + start + get_or packet start 0) (length packet - 2)) _
                    (slice-Ends packet (1 + start + get_or packet start 0) (length packet - 2))
                    (λ rest q _.
                      rw
                        (etl.insert_end_fits [] rest (
                          omega (
                            arith,
                            length-slice packet (1 + start + get_or packet start 0)
                                (length packet - 2) rest q,
                          )))
                        (returns _ tt))))
        ])

  verify_crc_long : (packet : List ℕ) → verify_crc etl packet ≡ success → 3 ≤ length packet
  unfolding verify_crc
  verify_crc_long packet h = elim (Bool-cases (ltb (length packet) 3)) [
    | inl e ↦ absurd (ground (arith, e, h))
    | inr e ↦ ground (arith, e)
  ]

  module _ (config : Config) where
    by_type-Ends :
        (t : PacketType) (packet_id : ℕ) (packet old : List ℕ)
        → 3 ≤ length packet
        → length packet ≤ max_packet_size
        → Ends IsProper (by_type etl config t packet_id packet old)
    unfolding by_type
    by_type-Ends broadcast packet_id packet old h k =
        Ends-bind Any IsProper _ _ (split_packet-Ends packet 2 [] old (omega arith) k)
          (λ parts p _. returns _ (to_message-IsProper _ packet_id parts))
    by_type-Ends publish packet_id packet old h k =
        Ends-bind Any IsProper _ _ (split_packet-Ends packet 2 [] old (omega arith) k)
          (λ parts p _. returns _ (to_message-IsProper _ packet_id parts))
    by_type-Ends ack packet_id packet old h k = returns _ tt
    by_type-Ends unknown packet_id packet old h k = returns _ (λ e. cc)
    by_type-Ends (unnamed b) packet_id packet old h k = returns _ (λ e. cc)

    parse_decoded-Ends :
        (decoded packet : List ℕ)
        → length decoded ≤ max_packet_size
        → Ends IsProper (parse_decoded etl config decoded packet)
    unfolding parse_decoded
    parse_decoded-Ends decoded packet h = elim (Bool-cases (is_success (verify_crc etl decoded))) [
      | inl e ↦ rw e (
          by_type-Ends (of_byte (get_or decoded 0 0)) (get_or decoded 1 0) decoded packet
            (verify_crc_long decoded (is_success-eq (verify_crc etl decoded) e)) h)
      | inr e ↦ rw e (returns _ (is_success-ne (verify_crc etl decoded) e))
    ]

    decode_lem :
        (body : List ℕ)
        → config.optimise ≡ true
        → All IsCode body
        → length body < max_packet_size
        → (s : StatusCode) × (decoded : List ℕ) × (decode etl config (body ++ 0 ∷ []) []
            ≡ ok (s, decoded))
          × (length decoded ≤ max_packet_size)
    decode_lem body fast c h = elim (dec_lt (length body) 2) [
      | yes l ↦ (
        not_enough_bytes,
        [],
        unfold decode in
            rw (
              fast,
              lt→ltb (length (body ++ 0 ∷ [])) 3 (omega (arith, length-append body (0 ∷ []))),
            ),
        omega arith,
      )
      | no l ↦
          (let (s, out, filled, _, e, size, _) =
              decode-SameStatus etl config (record config { optimise = false }) body fast refl c
                (omega arith) h in
            (s, filled, e, omega arith))
    ]

    -- With `ESF_OPTIMISE`.
    pub parse_packet-Ends :
        (body : List ℕ)
        → config.optimise ≡ true
        → All IsCode body
        → length body < max_packet_size
        → Ends IsProper (parse_packet etl config (body ++ 0 ∷ []))
    unfolding parse_packet
    parse_packet-Ends body fast c h =
        let (s, decoded, e, size) = decode_lem body fast c h in
        rw e (elim (Bool-cases (is_success s)) [
          | inl y ↦ rw y (parse_decoded-Ends decoded (body ++ 0 ∷ []) size)
          | inr n ↦ rw n (returns _ (is_success-ne s n))
        ])
