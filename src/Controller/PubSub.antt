-- ===== src/Controller/PubSub.antt =====
-- pkg/util/pubsub.go: topics, to which the controllers subscribe under an id, each with a channel. The
-- channels are a store that numbers them, since a subscriber keeps its channel when it is no longer
-- subscribed.
pub mod Safety
pub mod Soundness
pub mod Sending
pub mod Subscriptions
pub mod Delivery
pub mod Queues
pub mod Refinement
mod Tests
use etcdauto.Prelude.{
  ℕ, suc, ◌<◌, String, Bool, true, false, Option, none, some, Map, lookup, insert, delete, is_empty,
  length, List, [], ◌∷◌, ◌++◌, ltb, eqb, if◌then◌else◌,
}

abbrev pub channel_capacity : ℕ
channel_capacity = 10

module _ (D : Type 0) where
  -- A message carries its topic; a channel is that of one topic.
  pub record Channel : Type 0 where
    pub messages : List D
    pub closed : Bool

  pub record PubSub : Type 0 where
    pub subscribers : Map (Map ℕ)
    pub channels : ℕ → Channel
    pub used : ℕ

  abbrev pub new_pub_sub : PubSub
  new_pub_sub = record {
    subscribers = [];
    channels = λ c. record { messages = []; closed = false };
    used = 0;
  }

  unfoldable pub topic_of : Option (Map ℕ) → Map ℕ
  topic_of none = []
  topic_of (some subs) = subs

  unfoldable pub set_channel : ℕ → Channel → (ℕ → Channel) → ℕ → Channel
  set_channel c new channels i = if eqb i c then new else channels i

  -- `none` is the error that the id is subscribed; else the number of the new channel
  unfoldable pub subscribe_free : String → String → Map ℕ → Option ℕ → PubSub → Option ℕ × PubSub
  unfolding set_channel
  subscribe_free topic id subs (some c) ps = (none, ps)
  subscribe_free topic id subs none ps = (
    some ps.used,
    record {
      subscribers = insert topic (insert id ps.used subs) ps.subscribers;
      channels = set_channel ps.used (record { messages = []; closed = false }) ps.channels;
      used = suc ps.used;
    },
  )

  unfoldable pub subscribe : String → String → PubSub → Option ℕ × PubSub
  unfolding subscribe_free topic_of
  subscribe topic id ps =
      let subs = topic_of (lookup topic ps.subscribers) in
      subscribe_free topic id subs (lookup id subs) ps

  unfoldable pub close : ℕ → PubSub → PubSub
  unfolding set_channel
  close c ps = record {
    subscribers = ps.subscribers;
    channels =
        set_channel c (record { messages = (ps.channels c).messages; closed = true }) ps.channels;
    used = ps.used;
  }

  -- The topic goes with its last subscriber.
  unfoldable pub without_topic : String → Map ℕ → Map (Map ℕ) → Map (Map ℕ)
  without_topic topic subs all = if is_empty subs then delete topic all else insert topic subs all

  unfoldable pub with_subscribers : Map (Map ℕ) → PubSub → PubSub
  with_subscribers all ps = record { subscribers = all; channels = ps.channels; used = ps.used }

  unfoldable pub drop_id : String → String → Map ℕ → Option ℕ → PubSub → PubSub
  unfolding close without_topic with_subscribers
  drop_id topic id subs none ps = with_subscribers (without_topic topic subs ps.subscribers) ps
  drop_id topic id subs (some c) ps =
      close c (with_subscribers (without_topic topic (delete id subs) ps.subscribers) ps)

  unfoldable pub drop_from : String → String → Option (Map ℕ) → PubSub → PubSub
  unfolding drop_id
  drop_from topic id none ps = ps
  drop_from topic id (some subs) ps = drop_id topic id subs (lookup id subs) ps

  unfoldable pub unsubscribe : String → String → PubSub → PubSub
  unfolding drop_from
  unsubscribe topic id ps = drop_from topic id (lookup topic ps.subscribers) ps

  -- A message to a full channel is dropped.
  unfoldable pub enqueue : D → Channel → Channel
  enqueue d ch =
      if ltb (length ch.messages) channel_capacity
      then record { messages = ch.messages ++ (d ∷ []); closed = ch.closed }
      else ch

  -- A send to a closed channel panics: `none`.
  unfoldable pub send : D → ℕ → PubSub → Option PubSub
  unfolding enqueue set_channel
  send d c ps =
      if (ps.channels c).closed
      then none
      else some (record {
        subscribers = ps.subscribers;
        channels = set_channel c (enqueue d (ps.channels c)) ps.channels;
        used = ps.used;
      })

  unfoldable pub then_all : (PubSub → Option PubSub) → Option PubSub → Option PubSub
  then_all rest none = none
  then_all rest (some ps) = rest ps

  unfoldable pub send_all : D → Map ℕ → PubSub → Option PubSub
  unfolding send then_all
  send_all d [] ps = some ps
  send_all d ((id, c) ∷ subs) ps = then_all (send_all d subs) (send d c ps)

  unfoldable pub publish_to : D → Option (Map ℕ) → PubSub → Option PubSub
  unfolding send_all
  publish_to d none ps = some ps
  publish_to d (some subs) ps = send_all d subs ps

  unfoldable pub publish_on : String → D → PubSub → Option PubSub
  unfolding publish_to
  publish_on topic d ps = publish_to d (lookup topic ps.subscribers) ps

  unfoldable pub tail_of : List D → List D
  tail_of [] = []
  tail_of (m ∷ ms) = ms

  -- A subscriber takes the oldest message of its channel, which it waits for while there is none.
  unfoldable pub take_message : ℕ → PubSub → PubSub
  unfolding tail_of set_channel
  take_message c ps = record {
    subscribers = ps.subscribers;
    channels =
        set_channel c
          (record { messages = tail_of (ps.channels c).messages; closed = (ps.channels c).closed })
          ps.channels;
    used = ps.used;
  }
