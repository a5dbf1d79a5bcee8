-- ===== src/Controller/PubSub/Queues.antt =====
-- A queue for every subscribed id, without the numbers of the channels, and how subscribing and its
-- end change the queues.
use etcdauto.Prelude.{
  ℕ, ◌<◌, ◌≡◌, ◌≢◌, refl, sym, ap, ◌∙◌, inl, inr, String, Bool, true, false, ◌&&◌, Option, none,
  some, Map, lookup, insert, delete, length, List, [], ◌∷◌, ◌++◌, ltb, eqb, eqb_iff, ◌==◌, eq_iff,
  arith, if◌then◌else◌, Bool-cases, if_true, if_false,
}
use etcdauto.Controller.PubSub.{
  Channel, PubSub, topic_of, set_channel, subscribe_free, close, without_topic, with_subscribers,
  drop_id, drop_from,
}
use etcdauto.Controller.PubSub.Subscriptions.{
  channel_of, subscribed_channels, dropped_channels, kept_channels, topic_of-insert,
  topic_of-without,
}
use etcdauto.Controller.PubSub.Soundness.{Sound}

module _ (D : Type 0) where
  -- The messages that wait for an id that is subscribed to a topic
  abbrev pub Queues : Type 0
  Queues = String → String → Option (List D)

  abbrev pub queue_at : PubSub D → Option ℕ → Option (List D)
  queue_at ps none = none
  queue_at ps (some c) = some (ps.channels c).messages

  unfoldable pub queues : PubSub D → Queues
  queues ps topic id = queue_at ps (channel_of D topic id ps)

  abbrev pub or_empty : Option (List D) → Option (List D)
  or_empty none = some []
  or_empty (some ms) = some ms

  abbrev pub offer : D → Option (List D) → Option (List D)
  offer d none = none
  offer d (some ms) = some (if ltb (length ms) 10 then ms ++ (d ∷ []) else ms)

  -- Whether the second pair is the first one
  abbrev pub at_id : String → String → String → String → Bool
  at_id topic id other key = (topic == other) && (id == key)

  pub none_is_not {κ} : {A : Type 0} {B : Type κ} {a : A} → none ≡ some a → B
  none_is_not e = ground (arith, e)

  queue_if :
      (b : Bool) (ps : PubSub D) (o p : Option ℕ)
      → queue_at ps (if b then o else p) ≡ (if b then queue_at ps o else queue_at ps p)
  queue_if true ps o p = refl
  queue_if false ps o p = refl

  pub same_branches : {A : Type 0} (b : Bool) (a : A) → a ≡ (if b then a else a)
  same_branches true a = refl
  same_branches false a = refl

  pub differ : (a b : String) → (a == b) ≡ false → a ≢ b
  differ a b h = ground (arith, h, eq_iff a b)

  same_channel :
      (topic id other key : String) (ps : PubSub D)
      → at_id topic id other key ≡ true
      → channel_of D other key ps ≡ channel_of D topic id ps
  same_channel topic id other key ps e = sym (
      ap (λ t. channel_of D t id ps) ((eq_iff topic other).0 (ground (arith, e)))
      ∙ ap (λ i. channel_of D other i ps) ((eq_iff id key).0 (ground (arith, e))))

  -- Subscribing
  new_here :
      (ps : PubSub D) (all : Map (Map ℕ)) (ch : Channel D)
      → (set_channel D ps.used ch ps.channels ps.used).messages ≡ ch.messages
  unfolding set_channel
  new_here ps all ch =
      ap (λ x. x.messages) (if_true (eqb ps.used ps.used) ch _ ((eqb_iff ps.used ps.used).1 refl))

  old_kept :
      (ps : PubSub D) (ch : Channel D) (o : Option ℕ) (subs : Map (Map ℕ)) (n : ℕ)
      → ((c : ℕ) → o ≡ some c → c < ps.used)
      → queue_at
          (record { subscribers = subs; channels = set_channel D ps.used ch ps.channels; used = n })
          o
        ≡ queue_at ps o
  unfolding set_channel
  old_kept ps ch none subs n small = refl
  old_kept ps ch (some c) subs n small =
      ap (λ x. some x.messages)
        (if_false (eqb c ps.used) ch _ (ground (arith, small c refl, eqb_iff c ps.used)))

  pub subscribed_queues :
      (topic id other key : String) (ps : PubSub D) (found : Option ℕ)
      → Sound D ps
      → found ≡ channel_of D topic id ps
      → queues
          (subscribe_free D topic id (topic_of D (lookup topic ps.subscribers)) found ps).1
          other
          key
        ≡ (if at_id topic id other key then or_empty (queues ps other key) else queues ps other key)
  unfolding subscribe_free queues
  subscribed_queues topic id other key ps (some c) h e =
      elim (Bool-cases (at_id topic id other key)) [
        | inl same ↦
            let o = same_channel topic id other key ps same ∙ sym e in
            ap (queue_at ps) o ∙ sym (if_true _ _ _ same ∙ ap (λ x. or_empty (queue_at ps x)) o)
        | inr apart ↦ sym (if_false _ _ _ apart)
      ]
  subscribed_queues topic id other key ps none h e =
      let subs = topic_of D (lookup topic ps.subscribers) in
      let ps' = (subscribe_free D topic id subs none ps).1 in
      let are =
        subscribed_channels D topic id ps.used ps ps'
          (λ t. topic_of-insert D topic t (insert id ps.used subs) ps.subscribers) other key in
      elim (Bool-cases (at_id topic id other key)) [
        | inl same ↦
            ap (queue_at ps') (are ∙ if_true _ _ _ same)
            ∙ (ap (λ ms. some ms)
                  (new_here ps ps.subscribers (record { messages = []; closed = false }))
                ∙ sym (
                    if_true _ _ _ same
                    ∙ ap (λ x. or_empty (queue_at ps x))
                        (same_channel topic id other key ps same ∙ sym e)))
        | inr apart ↦
            ap (queue_at ps') (are ∙ if_false _ _ _ apart)
            ∙ (old_kept ps (record { messages = []; closed = false }) (channel_of D other key ps)
                  ps'.subscribers ps'.used (h.subs_used other key)
                ∙ sym (if_false _ _ _ apart))
      ]

  -- The end of a subscription
  closed_queue : (c : ℕ) (ps : PubSub D) (o : Option ℕ) → queue_at (close D c ps) o ≡ queue_at ps o
  unfolding close set_channel
  closed_queue c ps none = refl
  closed_queue c ps (some d) = elim (Bool-cases (eqb d c)) [
    | inl same ↦
        ap (λ x. some x.messages) (if_true (eqb d c) _ (ps.channels d) same)
        ∙ ap (λ x. some (ps.channels x).messages) (sym ((eqb_iff d c).0 same))
    | inr other ↦ ap (λ x. some x.messages) (if_false (eqb d c) _ (ps.channels d) other)
  ]

  closed_channels :
      (c : ℕ) (ps : PubSub D) (other key : String)
      → channel_of D other key (close D c ps) ≡ channel_of D other key ps
  unfolding close channel_of
  closed_channels c ps other key = refl

  absent_queue :
      (topic id other key : String) (ps : PubSub D)
      → channel_of D topic id ps ≡ none
      → queues ps other key ≡ (if at_id topic id other key then none else queues ps other key)
  unfolding queues
  absent_queue topic id other key ps e = elim (Bool-cases (at_id topic id other key)) [
    | inl same ↦
        ap (queue_at ps) (same_channel topic id other key ps same ∙ e) ∙ sym (if_true _ _ _ same)
    | inr apart ↦ sym (if_false _ _ _ apart)
  ]

  dropped_queues :
      (topic id other key : String) (ps : PubSub D) (subs : Map ℕ) (found : Option ℕ)
      → topic_of D (lookup topic ps.subscribers) ≡ subs
      → lookup id subs ≡ found
      → queues (drop_id D topic id subs found ps) other key
        ≡ (if at_id topic id other key then none else queues ps other key)
  unfolding drop_id queues with_subscribers channel_of
  dropped_queues topic id other key ps subs none e f =
      let ps' = with_subscribers D (without_topic D topic subs ps.subscribers) ps in
      let are =
        kept_channels D topic ps ps'
          (λ t.
            topic_of-without D topic t subs ps.subscribers
            ∙ ap (λ m. if topic == t then m else topic_of D (lookup t ps.subscribers)) (sym e))
          other key in
      ap (queue_at ps) are ∙ absent_queue topic id other key ps (ap (lookup id) e ∙ f)
  dropped_queues topic id other key ps subs (some c) e f =
      let ps' = with_subscribers D (without_topic D topic (delete id subs) ps.subscribers) ps in
      let are =
        dropped_channels D topic id ps ps'
          (λ t.
            topic_of-without D topic t (delete id subs) ps.subscribers
            ∙ ap (λ m. if topic == t then delete id m else topic_of D (lookup t ps.subscribers))
                (sym e))
          other key in
      closed_queue c ps' (channel_of D other key (close D c ps'))
      ∙ (ap (queue_at ps) (closed_channels c ps' other key ∙ are)
          ∙ queue_if (at_id topic id other key) ps none (channel_of D other key ps))

  pub ended_queues :
      (topic id other key : String) (ps : PubSub D) (found : Option (Map ℕ))
      → lookup topic ps.subscribers ≡ found
      → queues (drop_from D topic id found ps) other key
        ≡ (if at_id topic id other key then none else queues ps other key)
  unfolding drop_from channel_of topic_of lookup
  ended_queues topic id other key ps none e =
      absent_queue topic id other key ps (ap (λ o. lookup id (topic_of D o)) e)
  ended_queues topic id other key ps (some subs) e =
      dropped_queues topic id other key ps subs (lookup id subs) (ap (topic_of D) e) refl
