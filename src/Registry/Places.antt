-- ===== src/Registry/Places.antt =====
-- Places in the subscriber list of both profiles, as iterators are.
use embedded_serial_filler.Base.{
  ℕ, zero, suc, ◌+◌, ◌≡◌, ◌≢◌, refl, subst, inl, inr, All, List, [], ◌∷◌, ◌++◌, get_elem?,
  same_bytes, Bool-cases, none, some, arith,
}
use embedded_serial_filler.Registry.{
  Subscriber, SubscriberType, SubscriberList, find_topic, topic_index, erase_id, remove_subscriber,
}

pub get_elem?-All :
    (P : SubscriberType → Type 0) (subs : SubscriberList) (i : ℕ) (it : SubscriberType)
    → get_elem? subs i ≡ some it
    → All P subs
    → P it
get_elem?-All P [] i it h k = absurd (ground (arith, h))
get_elem?-All P (entry ∷ subs) zero it h k =
    let same : entry ≡ it = ground (arith, h) in subst P same k.0
get_elem?-All P (entry ∷ subs) (suc i) it h k = get_elem?-All P subs i it h k.1

-- The search by place and the search for the entry agree.
pub topic_index-find_topic :
    (index : ℕ) (topic : List ℕ) (subs : SubscriberList) (it : SubscriberType)
    → find_topic topic subs ≡ some it
    → (i : ℕ) × (topic_index index topic subs ≡ some (index + i)) × (get_elem? subs i ≡ some it)
unfolding topic_index find_topic
topic_index-find_topic index topic [] it h = absurd (ground (arith, h))
topic_index-find_topic index topic (entry ∷ subs) it h =
    elim (Bool-cases (same_bytes entry.topic topic)) [
      | inl e ↦ (0, ground (arith, e), ground (arith, e, h))
      | inr e ↦
          (let (i, p, q) =
              topic_index-find_topic (index + 1) topic subs it (ground (arith, e, h)) in
            (suc i, ground (arith, e, p), q))
    ]

pub topic_index-none :
    (index : ℕ) (topic : List ℕ) (subs : SubscriberList)
    → find_topic topic subs ≡ none
    → topic_index index topic subs ≡ none
unfolding topic_index find_topic
topic_index-none index topic [] h = refl
topic_index-none index topic (entry ∷ subs) h = elim (Bool-cases (same_bytes entry.topic topic)) [
  | inl e ↦ absurd (ground (arith, e, h))
  | inr e ↦ ground (arith, e, topic_index-none (index + 1) topic subs (ground (arith, e, h)))
]

pub get_elem?-remove_subscriber :
    (subs : SubscriberList) (id t : ℕ) (it : SubscriberType)
    → get_elem? subs t ≡ some it
    → get_elem? (remove_subscriber id subs).0 t
      ≡ some (record it { subscribers = (erase_id id it.subscribers).0 })
unfolding remove_subscriber
get_elem?-remove_subscriber [] id t it h = absurd (ground (arith, h))
get_elem?-remove_subscriber (entry ∷ subs) id zero it h = ground (arith, h)
get_elem?-remove_subscriber (entry ∷ subs) id (suc t) it h =
    get_elem?-remove_subscriber subs id t it h

pub erase_id-append :
    (before : List Subscriber) (sub : Subscriber) (after : List Subscriber)
    → All (λ (s : Subscriber). s.id ≢ sub.id) before
    → (erase_id sub.id (before ++ sub ∷ after)).0 ≡ before ++ after
unfolding erase_id
erase_id-append [] sub after h = ground arith
erase_id-append (s ∷ before) sub after h = ground (arith, h.0, erase_id-append before sub after h.1)
