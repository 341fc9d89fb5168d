-- ===== src/Registry.antt =====
-- The list `subscribers_` of both profiles: a list of topics, each with its subscribers, and the
-- routines that search and change it.
pub mod Lookup
pub mod Places
pub mod Undo
use embedded_serial_filler.Base.{
  ℕ, ◌+◌, List, [], ◌∷◌, ◌==◌, same_bytes, if◌then◌else◌, Bool, true, false, ◌||◌, Option, none,
  some, Result, ok, ◌>>=◌,
}
use embedded_serial_filler.Definitions.{max_subscribers}
use embedded_serial_filler.Etl.{Etl}

-- `struct Subscriber`; a delegate is known by a number.
pub record Subscriber : Type 0 where
  pub id : ℕ
  pub callback : ℕ

pub record SubscriberType : Type 0 where
  pub topic : List ℕ
  pub subscribers : List Subscriber

abbrev pub SubscriberList : Type 0
SubscriberList = List SubscriberType

-- The search for the first entry with the topic.
unfoldable pub find_topic : List ℕ → SubscriberList → Option SubscriberType
find_topic topic [] = none
find_topic topic (it ∷ rest) = if same_bytes it.topic topic then some it else find_topic topic rest

-- The place of the first entry with the topic, counted from `index` on.
unfoldable pub topic_index : ℕ → List ℕ → SubscriberList → Option ℕ
topic_index index topic [] = none
topic_index index topic (it ∷ rest) =
    let further = topic_index (index + 1) topic rest in
    if same_bytes it.topic topic then some index else further

module _ (etl : Etl) where
  -- `Subscribe` with the new subscriber made up: into the first entry with the topic.
  unfoldable pub add_existing : List ℕ → Subscriber → SubscriberList → Result SubscriberList
  add_existing topic subscriber [] = ok []
  add_existing topic subscriber (it ∷ rest) =
      let further = add_existing topic subscriber rest in
      if same_bytes it.topic topic
      then (do
        subscribers ← etl.push_back Subscriber max_subscribers it.subscribers subscriber
        ok (record it { subscribers = subscribers } ∷ rest))
      else (further >>= λ rest'. ok (it ∷ rest'))

  -- Into a new entry at the end, if no entry has the topic.
  unfoldable pub add_subscriber : List ℕ → Subscriber → SubscriberList → Result SubscriberList
  add_subscriber topic subscriber subscribers = elim (find_topic topic subscribers) [
    | some it ↦ add_existing topic subscriber subscribers
    | none ↦ do
      first ← etl.push_back Subscriber max_subscribers [] subscriber
      etl.push_back SubscriberType max_subscribers subscribers
          (record { topic = topic; subscribers = first })
  ]

-- The inner loop of `Unsubscribe`: erase the first subscriber with the identifier.
unfoldable pub erase_id : ℕ → List Subscriber → List Subscriber × Bool
erase_id subscriber_id [] = ([], false)
erase_id subscriber_id (sub ∷ rest) =
    let (rest', found) = erase_id subscriber_id rest in
    if sub.id == subscriber_id then (rest, true) else (sub ∷ rest', found)

-- The outer loop goes on to the end, also behind an entry where it found the identifier.
unfoldable pub remove_subscriber : ℕ → SubscriberList → SubscriberList × Bool
remove_subscriber subscriber_id [] = ([], false)
remove_subscriber subscriber_id (it ∷ rest) =
    let (kept, here) = erase_id subscriber_id it.subscribers in
    let (rest', further) = remove_subscriber subscriber_id rest in
    (record it { subscribers = kept } ∷ rest', here || further)

-- What the list stands for: each topic's subscribers, in the order in which they are called.
abbrev pub subscribers_of : List ℕ → SubscriberList → List Subscriber
subscribers_of topic subscribers = elim (find_topic topic subscribers) [
  | some it ↦ it.subscribers
  | none ↦ []
]
