-- ===== src/Controller/PubSub/Refinement.antt =====
-- What the topics promise, without the numbers of the channels: a queue for every subscribed id. The
-- operations on the channels implement those on the queues.
use etcdauto.Prelude.{
  ℕ, ◌≡◌, ◌≢◌, refl, sym, ap, ◌∙◌, inl, inr, String, Option, none, some, Map, lookup, length, [],
  ◌∷◌, ◌++◌, ltb, ◌==◌, eq_iff, if◌then◌else◌, Bool-cases, if_true, if_false,
}
use etcdauto.Certs.Authority.Loading.{some_injective}
use etcdauto.Controller.PubSub.{
  Channel, PubSub, topic_of, subscribe, unsubscribe, enqueue, send, then_all, send_all, publish_to,
  publish_on,
}
use etcdauto.Controller.PubSub.Subscriptions.{channel_of}
use etcdauto.Controller.PubSub.Safety.{Reachable, Reachable-Sound}
use etcdauto.Controller.PubSub.Delivery.{publish_delivers}
use etcdauto.Controller.PubSub.Queues.{
  queue_at, queues, or_empty, offer, at_id, subscribed_queues, ended_queues, none_is_not, differ,
  same_branches,
}

module _ (D : Type 0) where
  -- Publishing
  sent_subscribers :
      (d : D) (c : ℕ) (ps ps' : PubSub D)
      → send D d c ps ≡ some ps'
      → ps'.subscribers ≡ ps.subscribers
  unfolding send
  sent_subscribers d c ps ps' h = elim (Bool-cases (ps.channels c).closed) [
    | inl shut ↦ none_is_not D (sym (if_true (ps.channels c).closed _ _ shut) ∙ h)
    | inr is_open ↦
        ap (λ x. x.subscribers)
          (sym (some_injective (sym (if_false (ps.channels c).closed _ _ is_open) ∙ h)))
  ]

  all_subscribers :
      (d : D) (subs : Map ℕ) (ps ps' : PubSub D)
      → send_all D d subs ps ≡ some ps'
      → ps'.subscribers ≡ ps.subscribers
  unfolding send_all
  all_subscribers d [] ps ps' h = ap (λ x. x.subscribers) (sym (some_injective h))
  all_subscribers d ((id, c) ∷ subs) ps ps' h =
      after (all_subscribers d subs) (send D d c ps) refl h
    where
      after :
          ((r r' : PubSub D) → send_all D d subs r ≡ some r' → r'.subscribers ≡ r.subscribers)
          → (o : Option (PubSub D)) → send D d c ps ≡ o
          → then_all D (send_all D d subs) o ≡ some ps'
          → ps'.subscribers ≡ ps.subscribers
      after ih none e g = none_is_not D g
      after ih (some r) e g = ih r ps' g ∙ sent_subscribers d c ps r e

  published_subscribers :
      (topic : String) (d : D) (ps ps' : PubSub D) (found : Option (Map ℕ))
      → publish_to D d found ps ≡ some ps'
      → ps'.subscribers ≡ ps.subscribers
  unfolding publish_to
  published_subscribers topic d ps ps' none h = ap (λ x. x.subscribers) (sym (some_injective h))
  published_subscribers topic d ps ps' (some subs) h = all_subscribers d subs ps ps' h

  enqueued :
      (d : D) (ch : Channel D)
      → (enqueue D d ch).messages
        ≡ (if ltb (length ch.messages) 10 then ch.messages ++ (d ∷ []) else ch.messages)
  unfolding enqueue
  enqueued d ch = elim (Bool-cases (ltb (length ch.messages) 10)) [
    | inl room ↦ rw room refl
    | inr full ↦ rw full refl
  ]

  published_queue :
      (topic other key : String) (d : D) (ps ps' : PubSub D) (o : Option ℕ)
      → Reachable D ps
      → publish_on D topic d ps ≡ some ps'
      → channel_of D other key ps ≡ o
      → queue_at D ps' o ≡ (if topic == other then offer D d (queue_at D ps o) else queue_at D ps o)
  published_queue topic other key d ps ps' none h done e = same_branches D (topic == other) none
  published_queue topic other key d ps ps' (some c) h done e =
      let (reached, rest) = publish_delivers D ps ps' topic d h done in
      elim (Bool-cases (topic == other)) [
        | inl same ↦
            let at = ap (λ t. channel_of D t key ps) ((eq_iff topic other).0 same) ∙ e in
            ap (λ x. some x.messages) (reached key c at)
            ∙ (ap (λ ms. some ms) (enqueued d (ps.channels c)) ∙ sym (if_true _ _ _ same))
        | inr apart ↦
            let unheard : (id : String) → channel_of D topic id ps ≢ some c = (λ id at.
              differ D topic other apart
                ((Reachable-Sound D ps h).subs_apart topic id other key c at e).0) in
            ap (λ x. some x.messages) (rest c unheard) ∙ sym (if_false _ _ _ apart)
      ]

  -- In any state that the operations reach, and for every topic and id: subscribing gives an id that
  -- was not subscribed an empty queue, unsubscribing takes its queue away, publishing appends the
  -- message to every queue of the topic with fewer than ten messages, and no operation touches
  -- another queue.
  pub pub_sub_refines :
      (ps : PubSub D) (topic id other key : String)
      → Reachable D ps
      → (queues D (subscribe D topic id ps).1 other key ≡ (
          if at_id D topic id other key
          then or_empty D (queues D ps other key)
          else queues D ps other key))
        × (queues D (unsubscribe D topic id ps) other key
            ≡ (if at_id D topic id other key then none else queues D ps other key))
        × ((d : D) (ps' : PubSub D)
            → publish_on D topic d ps ≡ some ps'
            → queues D ps' other key ≡ (
                if topic == other
                then offer D d (queues D ps other key)
                else queues D ps other key))
  unfolding subscribe unsubscribe queues channel_of publish_on
  pub_sub_refines ps topic id other key h = (
    subscribed_queues D topic id other key ps (lookup id (topic_of D (lookup topic ps.subscribers)))
        (Reachable-Sound D ps h) refl,
    ended_queues D topic id other key ps (lookup topic ps.subscribers) refl,
    λ d ps' done.
        ap (λ all. queue_at D ps' (lookup key (topic_of D (lookup other all))))
          (published_subscribers topic d ps ps' (lookup topic ps.subscribers) done)
        ∙ published_queue topic other key d ps ps' (channel_of D other key ps) h done refl,
  )
