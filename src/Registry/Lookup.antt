-- ===== src/Registry/Lookup.antt =====
-- The subscriber list of both profiles as a map from topics to subscribers.
use embedded_serial_filler.Base.{
  ℕ, ◌<◌, ◌≡◌, ◌≢◌, refl, sym, ◌∙◌, ap, inl, inr, List, [], ◌∷◌, ◌++◌, append-nil, if◌then◌else◌,
  length, All, same_bytes, same_bytes→eq, same_bytes_self, true, false, Bool-cases, Option, none,
  some, ok, arith,
}
use embedded_serial_filler.Definitions.{max_subscribers}
use embedded_serial_filler.Etl.{Etl}
use embedded_serial_filler.Registry.{
  Subscriber, SubscriberType, SubscriberList, find_topic, add_existing, add_subscriber, erase_id,
  remove_subscriber, subscribers_of,
}

-- Room for one more subscriber at the entry.
abbrev pub HasRoom : SubscriberType → Type 0
HasRoom it = length it.subscribers < max_subscribers

-- Room for one more topic, and for one more subscriber at each.
pub record IsRoomy (subs : SubscriberList) : Type 0 where
  pub topics : length subs < max_subscribers
  pub each : All HasRoom subs

-- No subscriber of the entry has the identifier.
abbrev pub IsFreeAt : ℕ → SubscriberType → Type 0
IsFreeAt id it = All (λ sub. sub.id ≢ id) it.subscribers

subscribers_of_hit :
    (topic : List ℕ) (it : SubscriberType) (subs : SubscriberList)
    → same_bytes it.topic topic ≡ true
    → subscribers_of topic (it ∷ subs) ≡ it.subscribers
unfolding find_topic
subscribers_of_hit topic it subs h = ground (arith, h)

subscribers_of_miss :
    (topic : List ℕ) (it : SubscriberType) (subs : SubscriberList)
    → same_bytes it.topic topic ≡ false
    → subscribers_of topic (it ∷ subs) ≡ subscribers_of topic subs
unfolding find_topic
subscribers_of_miss topic it subs h = ground (arith, h)

pub erase_id_append :
    (id : ℕ) (subs : List Subscriber) (sub : Subscriber)
    → All (λ s. s.id ≢ id) subs
    → sub.id ≡ id
    → erase_id id (subs ++ sub ∷ []) ≡ (subs, true)
unfolding erase_id
erase_id_append id [] sub h e = ground arith
erase_id_append id (s ∷ subs) sub h e = ground (arith, erase_id_append id subs sub h.1 e, h.0)

pub erase_id_free :
    (id : ℕ) (subs : List Subscriber) → All (λ s. s.id ≢ id) subs → erase_id id subs ≡ (subs, false)
unfolding erase_id
erase_id_free id [] h = ground arith
erase_id_free id (s ∷ subs) h = ground (arith, erase_id_free id subs h.1, h.0)

-- `Unsubscribe` takes the first subscriber with the identifier from each topic that has one, and
-- leaves the other subscribers in their order.
pub remove_subscriber-subscribers_of :
    (id : ℕ) (topic : List ℕ) (subs : SubscriberList)
    → subscribers_of topic (remove_subscriber id subs).0
      ≡ (erase_id id (subscribers_of topic subs)).0
unfolding remove_subscriber find_topic erase_id
remove_subscriber-subscribers_of id topic [] = refl
remove_subscriber-subscribers_of id topic (it ∷ subs) =
    elim (Bool-cases (same_bytes it.topic topic)) [
      | inl e ↦
          subscribers_of_hit topic (kept it) (remove_subscriber id subs).0 e
          ∙ ap (λ l. (erase_id id l).0) (sym (subscribers_of_hit topic it subs e))
      | inr e ↦
          subscribers_of_miss topic (kept it) (remove_subscriber id subs).0 e
          ∙ remove_subscriber-subscribers_of id topic subs
          ∙ ap (λ l. (erase_id id l).0) (sym (subscribers_of_miss topic it subs e))
    ]
  where
    kept : SubscriberType → SubscriberType
    kept it = record it { subscribers = (erase_id id it.subscribers).0 }

-- Where nobody has the identifier, it changes nothing and reports so.
pub remove_subscriber_unknown :
    (id : ℕ) (subs : SubscriberList)
    → All (IsFreeAt id) subs
    → remove_subscriber id subs ≡ (subs, false)
unfolding remove_subscriber
remove_subscriber_unknown id [] h = refl
remove_subscriber_unknown id (it ∷ subs) h =
    ground (arith, erase_id_free id it.subscribers h.0, remove_subscriber_unknown id subs h.1)

module _ (etl : Etl) (topic : List ℕ) (sub : Subscriber) where
  -- What `Subscribe` is to do to the map: the new subscriber comes behind those of its topic, and no
  -- other topic changes.
  abbrev pub IsAdded : SubscriberList → SubscriberList → Type 0
  IsAdded subs subs' =
      (t : List ℕ)
      → subscribers_of t subs'
        ≡ subscribers_of t subs ++ (if same_bytes topic t then sub ∷ [] else [])

  -- The first entry takes the subscriber, or stays, and the rest of the list follows it.
  add_here :
      (it : SubscriberType) (subs : SubscriberList)
      → same_bytes it.topic topic ≡ true
      → IsAdded (it ∷ subs) (record it { subscribers = it.subscribers ++ sub ∷ [] } ∷ subs)
  add_here it subs b t =
      let same : it.topic ≡ topic = same_bytes→eq it.topic topic b in
      elim (Bool-cases (same_bytes it.topic t)) [
        | inl c ↦ rw (
          subscribers_of_hit t (record it { subscribers = it.subscribers ++ sub ∷ [] }) subs c,
          subscribers_of_hit t it subs c,
          ← same,
          c,
        )
        | inr c ↦ rw (
          subscribers_of_miss t (record it { subscribers = it.subscribers ++ sub ∷ [] }) subs c,
          subscribers_of_miss t it subs c,
          ← same,
          c,
          append-nil,
        )
      ]

  add_further :
      (it : SubscriberType) (subs subs' : SubscriberList)
      → same_bytes it.topic topic ≡ false
      → IsAdded subs subs'
      → IsAdded (it ∷ subs) (it ∷ subs')
  add_further it subs subs' b h t = elim (Bool-cases (same_bytes it.topic t)) [
    | inl c ↦ rw (
      subscribers_of_hit t it subs c,
      subscribers_of_hit t it subs' c,
      ap (same_bytes topic) (sym (same_bytes→eq it.topic t c)),
      differs,
      append-nil,
    )
    | inr c ↦ rw (subscribers_of_miss t it subs c, subscribers_of_miss t it subs' c) (h t)
  ]
    where
      differs : same_bytes topic it.topic ≡ false
      differs = elim (Bool-cases (same_bytes topic it.topic)) [
        | inl e ↦ ground (
          arith,
          b,
          same_bytes_self topic,
          ap (λ x. same_bytes x topic) (same_bytes→eq topic it.topic e),
        )
        | inr e ↦ e
      ]

  add_existing_lem :
      (subs : SubscriberList) (it : SubscriberType)
      → All HasRoom subs
      → find_topic topic subs ≡ some it
      → (subs' : SubscriberList) × (add_existing etl topic sub subs ≡ ok subs') × IsAdded subs subs'
  unfolding add_existing find_topic
  add_existing_lem [] it h e = absurd (ground arith)
  add_existing_lem (first ∷ subs) it h e = elim (Bool-cases (same_bytes first.topic topic)) [
    | inl b ↦ (
      record first { subscribers = first.subscribers ++ sub ∷ [] } ∷ subs,
      ground (arith, etl.push_back_fits Subscriber max_subscribers first.subscribers sub h.0),
      add_here first subs b,
    )
    | inr b ↦
        (let (subs', p, q) = add_existing_lem subs it h.1 (ground arith) in
          (first ∷ subs', ground (arith, p), add_further first subs subs' b q))
  ]

  -- An entry at the end for a topic that has none.
  append_entry :
      (subs : SubscriberList)
      → find_topic topic subs ≡ none
      → IsAdded subs (subs ++ record { topic = topic; subscribers = sub ∷ [] } ∷ [])
  unfolding find_topic
  append_entry [] e t = ground arith
  append_entry (first ∷ subs) e t = elim (Bool-cases (same_bytes first.topic topic)) [
    | inl b ↦ absurd (ground arith)
    | inr b ↦
        add_further first subs (subs ++ record { topic = topic; subscribers = sub ∷ [] } ∷ []) b
          (append_entry subs (ground arith)) t
  ]

  -- With room for a topic and at each topic, `Subscribe` puts the new subscriber behind those of its
  -- topic, and changes no other topic.
  pub add_subscriber-IsAdded :
      (subs : SubscriberList)
      → length subs < max_subscribers
      → All HasRoom subs
      → (subs' : SubscriberList) × (add_subscriber etl topic sub subs ≡ ok subs')
        × IsAdded subs subs'
  unfolding add_subscriber
  add_subscriber-IsAdded subs l h = go (find_topic topic subs) refl
    where
      go :
          (found : Option SubscriberType)
          → find_topic topic subs ≡ found
          → (subs' : SubscriberList) × (add_subscriber etl topic sub subs ≡ ok subs')
            × IsAdded subs subs'
      go (some it) e =
          let (subs', p, q) = add_existing_lem subs it h e in (subs', ground (arith, p), q)
      go none e =
          let it : SubscriberType = record { topic = topic; subscribers = sub ∷ [] } in
          (
            subs ++ it ∷ [],
            ground (
              arith,
              etl.push_back_fits Subscriber max_subscribers [] sub (omega arith),
              etl.push_back_fits SubscriberType max_subscribers subs it l,
            ),
            append_entry subs e,
          )
