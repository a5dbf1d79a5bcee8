-- ===== src/Controller/PubSub/Safety.antt =====
-- Runs of the topics: a subscribed channel is never closed, so that publishing never panics, and no
-- channel holds more messages than its capacity.
use etcdauto.Prelude.{ℕ, ◌≤◌, ◌≡◌, sym, subst, ◌∙◌, String, some, length}
use etcdauto.Certs.Authority.Loading.{some_injective}
use etcdauto.Controller.PubSub.{
  PubSub, new_pub_sub, subscribe, unsubscribe, publish_on, take_message,
}
use etcdauto.Controller.PubSub.Soundness.{Sound, new-Sound, subscribe-Sound, unsubscribe-Sound}
use etcdauto.Controller.PubSub.Sending.{publish-Sound, take-Sound}

module _ (D : Type 0) where
  -- The operations, in any order
  pub data Step : PubSub D → PubSub D → Type 0 where
    subscribes : (topic id : String) (ps : PubSub D) → Step ps (subscribe D topic id ps).1
    unsubscribes : (topic id : String) (ps : PubSub D) → Step ps (unsubscribe D topic id ps)
    publishes :
        (topic : String) (d : D) (ps ps' : PubSub D)
        → publish_on D topic d ps ≡ some ps'
        → Step ps ps'
    takes : (c : ℕ) (ps : PubSub D) → Step ps (take_message D c ps)

  pub data Reachable : PubSub D → Type 0 where
    initial : Reachable (new_pub_sub D)
    next : (ps ps' : PubSub D) → Reachable ps → Step ps ps' → Reachable ps'

  Step-Sound : (ps ps' : PubSub D) → Step ps ps' → Sound D ps → Sound D ps'
  Step-Sound _ _ (subscribes topic id ps) h = subscribe-Sound D topic id ps h
  Step-Sound _ _ (unsubscribes topic id ps) h = unsubscribe-Sound D topic id ps h
  Step-Sound _ _ (publishes topic d ps ps' e) h =
      let (r, done, sound) = publish-Sound D topic d ps h in
      subst (Sound D) (some_injective (sym done ∙ e)) sound
  Step-Sound _ _ (takes c ps) h = take-Sound D c ps h

  pub Reachable-Sound : (ps : PubSub D) → Reachable ps → Sound D ps
  Reachable-Sound _ initial = new-Sound D
  Reachable-Sound _ (next ps ps' h step) = Step-Sound ps ps' step (Reachable-Sound ps h)

  -- After any sequence of subscriptions, their ends, publications and messages taken, publishing on
  -- any topic sends to no closed channel, and every channel holds at most ten messages, also then.
  pub publish_never_panics :
      (ps : PubSub D) (topic : String) (d : D)
      → Reachable ps
      → (ps' : PubSub D) × (publish_on D topic d ps ≡ some ps')
        × ((c : ℕ)
            → (length (ps.channels c).messages ≤ 10) × (length (ps'.channels c).messages ≤ 10))
  publish_never_panics ps topic d h =
      let (ps', done, sound) = publish-Sound D topic d ps (Reachable-Sound ps h) in
      (ps', done, λ c. ((Reachable-Sound ps h).within c, sound.within c))
