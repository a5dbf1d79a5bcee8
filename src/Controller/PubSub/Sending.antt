-- ===== src/Controller/PubSub/Sending.antt =====
-- Sending keeps what holds of the topics, and succeeds.
use etcdauto.Prelude.{
  ℕ, ◌≤◌, ◌≡◌, refl, ap, subst, ◌∙◌, inl, inr, String, false, Option, none, some, Map, lookup,
  Unique, All, All-found, length, length-append, List, [], ◌∷◌, ltb, eqb_iff, arith, if_false,
  Bool-cases,
}
use etcdauto.Controller.PubSub.{
  Channel, PubSub, topic_of, set_channel, enqueue, send, then_all, send_all, publish_to, publish_on,
  tail_of, take_message,
}
use etcdauto.Controller.PubSub.Subscriptions.{channel_of}
use etcdauto.Controller.PubSub.Soundness.{Sound, less}

module _ (D : Type 0) where
  enqueue_within :
      (d : D) (ch : Channel D) → length ch.messages ≤ 10 → length (enqueue D d ch).messages ≤ 10
  unfolding enqueue
  enqueue_within d ch h = elim (Bool-cases (ltb (length ch.messages) 10)) [
    | inl room ↦ rw room (omega (arith, length-append ch.messages (d ∷ []), less D room))
    | inr full ↦ rw full h
  ]

  enqueue_closed : (d : D) (ch : Channel D) → (enqueue D d ch).closed ≡ ch.closed
  unfolding enqueue
  enqueue_closed d ch = elim (Bool-cases (ltb (length ch.messages) 10)) [
    | inl room ↦ rw room refl
    | inr full ↦ rw full refl
  ]

  -- What a send to an open channel does
  abbrev pub sent : D → ℕ → PubSub D → PubSub D
  sent d c ps = record {
    subscribers = ps.subscribers;
    channels = set_channel D c (enqueue D d (ps.channels c)) ps.channels;
    used = ps.used;
  }

  pub send_open :
      (d : D) (c : ℕ) (ps : PubSub D)
      → (ps.channels c).closed ≡ false
      → send D d c ps ≡ some (sent d c ps)
  unfolding send
  send_open d c ps e = if_false (ps.channels c).closed none (some (sent d c ps)) e

  sent_closed :
      (d : D) (c i : ℕ) (ps : PubSub D) → ((sent d c ps).channels i).closed ≡ (ps.channels i).closed
  unfolding set_channel
  sent_closed d c i ps = ground (arith, enqueue_closed d (ps.channels c), eqb_iff i c)

  sent_within :
      (d : D) (c : ℕ) (ps : PubSub D)
      → ((i : ℕ) → length (ps.channels i).messages ≤ 10)
      → (i : ℕ) → length ((sent d c ps).channels i).messages ≤ 10
  unfolding set_channel
  sent_within d c ps h i = ground (arith, enqueue_within d (ps.channels c) (h c), h i)

  sent-Sound : (d : D) (c : ℕ) (ps : PubSub D) → Sound D ps → Sound D (sent d c ps)
  unfolding channel_of
  sent-Sound d c ps h = record {
    subs_Unique = h.subs_Unique;
    subs_used = h.subs_used;
    subs_open = λ t i x g. sent_closed d c x ps ∙ h.subs_open t i x g;
    subs_apart = h.subs_apart;
    within = sent_within d c ps h.within;
  }

  abbrev pub AllOpen : Map ℕ → PubSub D → Type 0
  AllOpen subs ps = All (λ e. (ps.channels e.1).closed ≡ false) subs

  pub sent-AllOpen :
      (d : D) (c : ℕ) (subs : Map ℕ) (ps : PubSub D) → AllOpen subs ps → AllOpen subs (sent d c ps)
  sent-AllOpen d c [] ps all = tt
  sent-AllOpen d c ((id, x) ∷ subs) ps (is_open, all) =
      (sent_closed d c x ps ∙ is_open, sent-AllOpen d c subs ps all)

  send_all-Sound :
      (d : D) (subs : Map ℕ) (ps : PubSub D)
      → AllOpen subs ps
      → Sound D ps
      → (ps' : PubSub D) × (send_all D d subs ps ≡ some ps') × Sound D ps'
  unfolding send_all then_all
  send_all-Sound d [] ps all h = (ps, refl, h)
  send_all-Sound d ((id, c) ∷ subs) ps (is_open, all) h =
      let (ps', done, sound) =
        send_all-Sound d subs (sent d c ps) (sent-AllOpen d c subs ps all) (sent-Sound d c ps h) in
      (ps', rw (send_open d c ps is_open) done, sound)

  pub topic-AllOpen :
      (topic : String) (subs : Map ℕ) (ps : PubSub D)
      → lookup topic ps.subscribers ≡ some subs
      → Sound D ps
      → AllOpen subs ps
  unfolding channel_of topic_of
  topic-AllOpen topic subs ps e h =
      All-found (λ x. (ps.channels x.1).closed ≡ false) subs
        (subst Unique (ap (topic_of D) e) (h.subs_Unique topic))
        (λ id c at. h.subs_open topic id c (ap (λ o. lookup id (topic_of D o)) e ∙ at))

  publish_to-Sound :
      (topic : String) (d : D) (found : Option (Map ℕ)) (ps : PubSub D)
      → lookup topic ps.subscribers ≡ found
      → Sound D ps
      → (ps' : PubSub D) × (publish_to D d found ps ≡ some ps') × Sound D ps'
  unfolding publish_to
  publish_to-Sound topic d none ps e h = (ps, refl, h)
  publish_to-Sound topic d (some subs) ps e h =
      send_all-Sound d subs ps (topic-AllOpen topic subs ps e h) h

  pub publish-Sound :
      (topic : String) (d : D) (ps : PubSub D)
      → Sound D ps
      → (ps' : PubSub D) × (publish_on D topic d ps ≡ some ps') × Sound D ps'
  unfolding publish_on
  publish-Sound topic d ps h = publish_to-Sound topic d (lookup topic ps.subscribers) ps refl h

  tail_within : (ms : List D) → length (tail_of D ms) ≤ length ms
  unfolding tail_of
  tail_within [] = omega arith
  tail_within (m ∷ ms) = omega arith

  pub take-Sound : (c : ℕ) (ps : PubSub D) → Sound D ps → Sound D (take_message D c ps)
  unfolding take_message set_channel channel_of
  take-Sound c ps h = record {
    subs_Unique = h.subs_Unique;
    subs_used = h.subs_used;
    subs_open = λ t i x g. ground (arith, h.subs_open t i x g, eqb_iff x c);
    subs_apart = h.subs_apart;
    within = λ x. ground (arith, h.within x, h.within c, tail_within (ps.channels c).messages);
  }
