-- ===== src/Rtos/Threads/Events.antt =====
-- The events of src/EmbeddedSerialFiller_RTOS.cpp that threads wait for.
use embedded_serial_filler.Base.{
  ℕ, zero, suc, ◌+◌, ◌≤◌, ◌<◌, ◌≡◌, ◌≢◌, refl, ◌∙◌, ap, List, [], ◌∷◌, ◌++◌, map, length, replicate,
  get_or, set, get_or-set_ne, length-set, All, none, some, arith,
}
use embedded_serial_filler.Rtos.{find_free, find_pending, remove_event}
use embedded_serial_filler.Rtos.Threads.{Thread}

-- The events with a packet identifier.
unfoldable pub in_use : List ℕ → ℕ
in_use [] = 0
in_use (zero ∷ events) = in_use events
in_use (suc x ∷ events) = suc (in_use events)

-- The thread's event has the thread's identifier.
pub record IsOwner (events : List ℕ) (t : Thread) : Type 0 where
  pub place : t.event_index < length events
  pub packet : get_or events t.event_index 0 ≡ t.packet_id
  pub positive : 0 < t.packet_id

pub find_free-some :
    (start : ℕ) (events : List ℕ) (k : ℕ)
    → find_free start events ≡ some k
    → (i : ℕ) × (k ≡ start + i) × (i < length events) × (get_or events i 0 ≡ 0)
unfolding find_free
find_free-some start [] k h = absurd (ground (arith, h))
find_free-some start (zero ∷ events) k h = (0, ground (arith, h), omega arith, refl)
find_free-some start (suc x ∷ events) k h =
    let (i, e, l, z) = find_free-some (start + 1) events k (ground (arith, h)) in
    (suc i, omega arith, omega arith, z)

pub find_free-in_use :
    (start : ℕ) (events : List ℕ)
    → in_use events < length events
    → (k : ℕ) × (find_free start events ≡ some k)
unfolding find_free in_use
find_free-in_use start [] h = absurd (omega arith)
find_free-in_use start (zero ∷ events) h = (start, ground arith)
find_free-in_use start (suc x ∷ events) h =
    let (k, e) = find_free-in_use (start + 1) events (omega arith) in (k, ground (arith, e))

pub in_use-set :
    (events : List ℕ) (i v : ℕ)
    → i < length events
    → get_or events i 0 ≡ 0
    → 0 < v
    → in_use (set events i v) ≡ suc (in_use events)
unfolding in_use
in_use-set [] i v l z p = absurd (omega arith)
in_use-set (x ∷ events) i zero l z p = absurd (omega arith)
in_use-set (zero ∷ events) zero (suc v) l z p = refl
in_use-set (suc x ∷ events) zero (suc v) l z p = absurd (omega arith)
in_use-set (zero ∷ events) (suc i) (suc v) l z p = in_use-set events i (suc v) (omega arith) z p
in_use-set (suc x ∷ events) (suc i) (suc v) l z p =
    ap suc (in_use-set events i (suc v) (omega arith) z p)

pub in_use-clear :
    (events : List ℕ) (i : ℕ)
    → 0 < get_or events i 0
    → suc (in_use (set events i 0)) ≡ in_use events
unfolding in_use
in_use-clear [] i p = absurd (omega arith)
in_use-clear (zero ∷ events) zero p = absurd (omega arith)
in_use-clear (suc x ∷ events) zero p = refl
in_use-clear (zero ∷ events) (suc i) p = in_use-clear events i p
in_use-clear (suc x ∷ events) (suc i) p = ap suc (in_use-clear events i p)

pub in_use-le : (events : List ℕ) → in_use events ≤ length events
unfolding in_use
in_use-le [] = omega arith
in_use-le (zero ∷ events) = omega (arith, in_use-le events)
in_use-le (suc x ∷ events) = omega (arith, in_use-le events)

pub in_use-replicate : (n : ℕ) → in_use (replicate n 0) ≡ 0
unfolding in_use
in_use-replicate zero = refl
in_use-replicate (suc n) = in_use-replicate n

pub in_use_zero : (events : List ℕ) → in_use events ≡ 0 → events ≡ replicate (length events) 0
unfolding in_use
in_use_zero [] h = refl
in_use_zero (zero ∷ events) h = ap (◌∷◌ zero) (in_use_zero events h)
in_use_zero (suc x ∷ events) h = absurd (omega arith)

-- The places of the threads' events.
abbrev pub places : List Thread → List ℕ
places = map (λ (t : Thread). t.event_index)

-- Threads that own their events and wait for other packets.
abbrev pub Others : List ℕ → ℕ → List Thread → Type 0
Others events packet_id ts = All (λ (t : Thread). IsOwner events t × (t.packet_id ≢ packet_id)) ts

-- The place of the thread's event is found among the others'.
pub find_pending-places :
    (events : List ℕ) (before : List Thread) (t : Thread) (after : List Thread)
    → Others events t.packet_id before
    → IsOwner events t
    → find_pending t.packet_id events (places (before ++ t ∷ after)) ≡ some t.event_index
unfolding find_pending
find_pending-places events [] t after h v = ground (arith, v.packet)
find_pending-places events (u ∷ before) t after h v =
    ground (arith, h.0.0.packet, h.0.1, find_pending-places events before t after h.1 v)

pub find_pending-none :
    (events : List ℕ) (packet_id : ℕ) (ts : List Thread)
    → Others events packet_id ts
    → find_pending packet_id events (places ts) ≡ none
unfolding find_pending
find_pending-none events packet_id [] h = refl
find_pending-none events packet_id (u ∷ ts) h =
    ground (arith, h.0.0.packet, h.0.1, find_pending-none events packet_id ts h.1)

-- Its event is freed, and its place taken off.
pub remove_event-places :
    (events : List ℕ) (before : List Thread) (t : Thread) (after : List Thread)
    → Others events t.packet_id before
    → IsOwner events t
    → remove_event t.packet_id events (places (before ++ t ∷ after))
      ≡ (set events t.event_index 0, places (before ++ after))
unfolding remove_event
remove_event-places events [] t after h v = ground (arith, v.packet)
remove_event-places events (u ∷ before) t after h v =
    ground (arith, h.0.0.packet, h.0.1, remove_event-places events before t after h.1 v)

-- A write to an event that the thread does not own.
pub IsOwner-set :
    (events : List ℕ) (i v : ℕ) (t : Thread)
    → i ≢ t.event_index
    → IsOwner events t
    → IsOwner (set events i v) t
IsOwner-set events i v t ne h = record {
  place = omega (arith, h.place, length-set events i v);
  packet = get_or-set_ne events i t.event_index v 0 ne ∙ h.packet;
  positive = h.positive;
}
