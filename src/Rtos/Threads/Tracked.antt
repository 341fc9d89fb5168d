-- ===== src/Rtos/Threads/Tracked.antt =====
-- What holds of a node of src/EmbeddedSerialFiller_RTOS.cpp and the threads that wait, between any calls.
use embedded_serial_filler.Base.{
  ℕ, suc, ◌≡◌, ◌≢◌, refl, sym, ◌∙◌, ap, List, [], ◌∷◌, ◌++◌, length, length-append, get_or, set,
  length-set, All, All-append, Bool, subst, arith,
}
use embedded_serial_filler.Definitions.{max_pending_acks}
use embedded_serial_filler.Outgoing.Contents.{IsPacketId}
use embedded_serial_filler.Rtos.{Node, new_node, remove_event, publish_wait_end}
use embedded_serial_filler.Rtos.Threads.{Thread, System, start}
use embedded_serial_filler.Rtos.Threads.Events.{
  in_use, IsOwner, in_use-clear, in_use-replicate, places, Others, remove_event-places, IsOwner-set,
}

-- No two threads wait for the same packet.
abbrev pub Distinct : List Thread → Type 0
Distinct [] = Unit
Distinct (t ∷ ts) = All (λ (u : Thread). u.packet_id ≢ t.packet_id) ts × Distinct ts

-- The list holds the waiting threads' events, in order; each has its thread's identifier, and no other
-- event is in use.
pub record IsTracked (s : System) : Type 0 where
  pub listed : s.node.ack_events ≡ places s.waiting
  pub events : length s.node.events ≡ max_pending_acks
  pub owners : All (IsOwner s.node.events) s.waiting
  pub distinct : Distinct s.waiting
  pub used : in_use s.node.events ≡ length s.waiting
  pub next_id : IsPacketId s.node.next_packet_id

All-middle :
    (P : Thread → Type 0) (before : List Thread) (t : Thread) (after : List Thread)
    → All P (before ++ t ∷ after)
    → P t × All P (before ++ after)
All-middle P [] t after h = h
All-middle P (u ∷ before) t after h = let (p, q) = All-middle P before t after h.1 in (p, (h.0, q))

pub Others-All :
    (events : List ℕ) (packet_id : ℕ) (ts : List Thread)
    → All (IsOwner events) ts
    → All (λ (u : Thread). u.packet_id ≢ packet_id) ts
    → Others events packet_id ts
Others-All events packet_id [] h k = tt
Others-All events packet_id (t ∷ ts) h k = ((h.0, k.0), Others-All events packet_id ts h.1 k.1)

-- One of the threads, and the others.
pub record IsAmong (events : List ℕ) (before : List Thread) (t : Thread) (after : List Thread)
    : Type 0 where
  pub owner : IsOwner events t
  pub earlier : Others events t.packet_id before
  pub others : Others events t.packet_id (before ++ after)
  pub distinct : Distinct (before ++ after)

pub middle-IsAmong :
    (events : List ℕ) (before : List Thread) (t : Thread) (after : List Thread)
    → All (IsOwner events) (before ++ t ∷ after)
    → Distinct (before ++ t ∷ after)
    → IsAmong events before t after
middle-IsAmong events [] t after h d = record {
  owner = h.0;
  earlier = tt;
  others = Others-All events t.packet_id after h.1 d.0;
  distinct = d.1;
}
middle-IsAmong events (u ∷ before) t after h d =
    let v = middle-IsAmong events before t after h.1 d.1 in
    let (ne, further) = All-middle _ before t after d.0 in
    let other : IsOwner events u × (u.packet_id ≢ t.packet_id) = (h.0, λ e. ne (sym e)) in
    record {
      owner = v.owner;
      earlier = (other, v.earlier);
      others = (other, v.others);
      distinct = (further, v.distinct);
    }

-- Freeing an event leaves the others' alone.
owners-clear :
    (events : List ℕ) (t : Thread) (ts : List Thread)
    → IsOwner events t
    → Others events t.packet_id ts
    → All (IsOwner (set events t.event_index 0)) ts
owners-clear events t [] v h = tt
owners-clear events t (u ∷ ts) v h = (
  IsOwner-set events t.event_index 0 u
      (λ e. h.0.1 (sym h.0.0.packet ∙ sym (ap (λ i. get_or events i 0) e) ∙ v.packet)) h.0.0,
  owners-clear events t ts v h.1,
)

-- So does taking one that is free.
pub owners-set :
    (events : List ℕ) (i packet_id : ℕ) (ts : List Thread)
    → get_or events i 0 ≡ 0
    → All (IsOwner events) ts
    → All (IsOwner (set events i packet_id)) ts
owners-set events i packet_id [] z h = tt
owners-set events i packet_id (t ∷ ts) z h = (
  IsOwner-set events i packet_id t
      (λ e. omega (arith, h.0.positive, h.0.packet, ap (λ k. get_or events k 0) e, z)) h.0,
  owners-set events i packet_id ts z h.1,
)

pub places-append : (a b : List Thread) → places (a ++ b) ≡ places a ++ places b
places-append [] b = refl
places-append (t ∷ a) b = ap (◌∷◌ t.event_index) (places-append a b)

pub length-places : (ts : List Thread) → length (places ts) ≡ length ts
length-places [] = refl
length-places (t ∷ ts) = ap suc (length-places ts)

pub Distinct-append :
    (ts : List Thread) (t : Thread)
    → Distinct ts
    → All (λ (u : Thread). u.packet_id ≢ t.packet_id) ts
    → Distinct (ts ++ t ∷ [])
Distinct-append [] t d h = (tt, tt)
Distinct-append (u ∷ ts) t d h =
    (All-append _ ts (t ∷ []) d.0 ((λ e. h.0 (sym e)), tt), Distinct-append ts t d.1 h.1)

pub start-IsTracked :
    (tx_set no_subscribers_set : Bool) → IsTracked (start tx_set no_subscribers_set)
unfolding new_node
start-IsTracked tx_set no_subscribers_set = record {
  listed = refl;
  events = refl;
  owners = tt;
  distinct = tt;
  used = in_use-replicate max_pending_acks;
  next_id = (omega arith, omega arith);
}

-- A node that differs in other members only.
pub kept-IsTracked :
    (s : System) (node' : Node)
    → node'.ack_events ≡ s.node.ack_events
    → node'.events ≡ s.node.events
    → IsPacketId node'.next_packet_id
    → IsTracked s
    → IsTracked (record s { node = node' })
kept-IsTracked s node' a e k v = record {
  listed = a ∙ v.listed;
  events = ap length e ∙ v.events;
  owners = rw e v.owners;
  distinct = v.distinct;
  used = ap in_use e ∙ v.used;
  next_id = k;
}

-- The end of a wait frees the thread's event, and takes it off the list.
pub publish_wait_end-node :
    (s : System) (before : List Thread) (t : Thread) (after : List Thread) (got_ack : Bool)
    → s.waiting ≡ before ++ t ∷ after
    → IsTracked s
    → (publish_wait_end s.node t.packet_id got_ack).1 ≡ record s.node {
      events = set s.node.events t.event_index 0;
      ack_events = places (before ++ after);
    }
unfolding publish_wait_end
publish_wait_end-node s before t after got_ack e v =
    let a =
      middle-IsAmong s.node.events before t after (subst (All (IsOwner s.node.events)) e v.owners)
        (subst Distinct e v.distinct) in
    let removed =
      ap (remove_event t.packet_id s.node.events) (v.listed ∙ ap places e)
      ∙ remove_event-places s.node.events before t after a.earlier a.owner in
    ap (λ (r : List ℕ × List ℕ). record s.node { events = r.0; ack_events = r.1 }) removed

length-middle :
    (before : List Thread) (t : Thread) (after : List Thread)
    → length (before ++ t ∷ after) ≡ suc (length (before ++ after))
length-middle before t after =
    omega (arith, length-append before (t ∷ after), length-append before after)

pub resumes-IsTracked :
    (s : System) (before : List Thread) (t : Thread) (after : List Thread) (got_ack : Bool)
    → s.waiting ≡ before ++ t ∷ after
    → IsTracked s
    → IsTracked (record {
      node = (publish_wait_end s.node t.packet_id got_ack).1;
      waiting = before ++ after;
    })
resumes-IsTracked s before t after got_ack e v =
    let a =
      middle-IsAmong s.node.events before t after (subst (All (IsOwner s.node.events)) e v.owners)
        (subst Distinct e v.distinct) in
    rw (publish_wait_end-node s before t after got_ack e v) (record {
      listed = refl;
      events = length-set s.node.events t.event_index 0 ∙ v.events;
      owners = owners-clear s.node.events t (before ++ after) a.owner a.others;
      distinct = a.distinct;
      used = omega (
        arith,
        in_use-clear s.node.events t.event_index (omega (arith, a.owner.packet, a.owner.positive)),
        v.used,
        ap length e,
        length-middle before t after,
      );
      next_id = v.next_id;
    })
