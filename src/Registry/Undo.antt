-- ===== src/Registry/Undo.antt =====
-- `Unsubscribe` behind `Subscribe`, on the subscriber list of both profiles.
use embedded_serial_filler.Base.{
  ℕ, ◌≡◌, refl, inl, inr, List, [], ◌∷◌, ◌++◌, All, same_bytes, true, Bool-cases, Option-cases,
  none, some, ok, arith,
}
use embedded_serial_filler.Definitions.{max_subscribers}
use embedded_serial_filler.Etl.{Etl}
use embedded_serial_filler.Registry.{
  Subscriber, SubscriberType, SubscriberList, find_topic, add_existing, add_subscriber,
  remove_subscriber,
}
use embedded_serial_filler.Registry.Lookup.{
  HasRoom, IsRoomy, IsFreeAt, erase_id_append, erase_id_free, remove_subscriber_unknown,
}

-- The list with an entry for the topic: as it is where there is one, and else with an empty one
-- behind the others.
abbrev pub with_entry : List ℕ → SubscriberList → SubscriberList
with_entry topic subs = elim (find_topic topic subs) [
  | some it ↦ subs
  | none ↦ subs ++ record { topic = topic; subscribers = [] } ∷ []
]

module _ (etl : Etl) (topic : List ℕ) (sub : Subscriber) where
  -- A subscriber that comes to an entry and goes again.
  existing_undone :
      (subs : SubscriberList) (it : SubscriberType)
      → All HasRoom subs
      → All (IsFreeAt sub.id) subs
      → find_topic topic subs ≡ some it
      → (subs' : SubscriberList) × (add_existing etl topic sub subs ≡ ok subs')
        × (remove_subscriber sub.id subs' ≡ (subs, true))
  unfolding add_existing find_topic remove_subscriber
  existing_undone [] it h free e = absurd (ground arith)
  existing_undone (first ∷ subs) it h free e = elim (Bool-cases (same_bytes first.topic topic)) [
    | inl b ↦ (
      record first { subscribers = first.subscribers ++ sub ∷ [] } ∷ subs,
      ground (arith, etl.push_back_fits Subscriber max_subscribers first.subscribers sub h.0),
      rw
          (
            erase_id_append sub.id first.subscribers sub free.0 refl,
            remove_subscriber_unknown sub.id subs free.1,
          )
          refl,
    )
    | inr b ↦
        (let (subs', p, q) = existing_undone subs it h.1 free.1 (ground arith) in
          (
            first ∷ subs',
            ground (arith, p),
            rw (erase_id_free sub.id first.subscribers free.0, q) refl,
          ))
  ]

  -- One that comes to an entry of its own.
  own_entry_undone :
      (subs : SubscriberList)
      → All (IsFreeAt sub.id) subs
      → remove_subscriber sub.id (subs ++ record { topic = topic; subscribers = sub ∷ [] } ∷ [])
        ≡ (subs ++ record { topic = topic; subscribers = [] } ∷ [], true)
  unfolding remove_subscriber
  own_entry_undone [] free = rw (erase_id_append sub.id [] sub tt refl) refl
  own_entry_undone (first ∷ subs) free =
      rw (erase_id_free sub.id first.subscribers free.0, own_entry_undone subs free.1) refl

  -- `Unsubscribe` puts the list back, but for an entry that stays.
  pub add_subscriber_undone :
      (subs : SubscriberList)
      → IsRoomy subs
      → All (IsFreeAt sub.id) subs
      → (subs' : SubscriberList) × (add_subscriber etl topic sub subs ≡ ok subs')
        × (remove_subscriber sub.id subs' ≡ (with_entry topic subs, true))
  unfolding add_subscriber
  add_subscriber_undone subs v free = elim (Option-cases (find_topic topic subs)) [
    | inl e ↦
        (let it : SubscriberType = record { topic = topic; subscribers = sub ∷ [] } in
          (
            subs ++ it ∷ [],
            ground (
              arith,
              e,
              etl.push_back_fits Subscriber max_subscribers [] sub (omega arith),
              etl.push_back_fits SubscriberType max_subscribers subs it v.topics,
            ),
            rw (with_entry, e) (own_entry_undone subs free),
          ))
    | inr (it, e) ↦
        (let (subs', p, q) = existing_undone subs it v.each free e in
          (subs', ground (arith, e, p), rw (with_entry, e) q))
  ]
