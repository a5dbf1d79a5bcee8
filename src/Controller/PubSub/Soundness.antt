-- ===== src/Controller/PubSub/Soundness.antt =====
-- What holds of the topics, and that subscribing and its end keep it.
use etcdauto.Prelude.{
  ℕ, ◌≤◌, ◌<◌, ◌≡◌, refl, sym, ap, subst, ◌∙◌, String, true, false, Option, none, some, Map, lookup,
  insert, delete, Unique, Unique-insert, Unique-delete, length, ltb, eqb_iff, eq_iff, arith,
}
use etcdauto.Controller.PubSub.{
  PubSub, new_pub_sub, topic_of, set_channel, subscribe_free, subscribe, close, without_topic,
  with_subscribers, drop_id, drop_from, unsubscribe,
}
use etcdauto.Controller.PubSub.Subscriptions.{
  channel_of, kept_channels, Changed, Changed-Unique, topic_of-insert, topic_of-without,
  subscribed_channels, dropped_channels,
}

module _ (D : Type 0) where
  -- The subscriptions are well formed, subscribed channels are open and no two ids share one, and no
  -- channel holds too much.
  pub record Sound (ps : PubSub D) : Type 0 where
    pub subs_Unique : (topic : String) → Unique (topic_of D (lookup topic ps.subscribers))
    pub subs_used : (topic id : String) (c : ℕ) → channel_of D topic id ps ≡ some c → c < ps.used
    pub subs_open :
        (topic id : String) (c : ℕ)
        → channel_of D topic id ps ≡ some c
        → (ps.channels c).closed ≡ false
    pub subs_apart :
        (topic id other key : String) (c : ℕ)
        → channel_of D topic id ps ≡ some c
        → channel_of D other key ps ≡ some c
        → (topic ≡ other) × (id ≡ key)
    pub within : (c : ℕ) → length (ps.channels c).messages ≤ 10

  pub less : {n m : ℕ} → ltb n m ≡ true → n < m
  less h = ground (arith, h)

  pub new-Sound : Sound (new_pub_sub D)
  unfolding channel_of topic_of lookup
  new-Sound = record {
    subs_Unique = λ topic. tt;
    subs_used = λ topic id c h. ground (arith, h);
    subs_open = λ topic id c h. ground (arith, h);
    subs_apart = λ topic id other key c h g. ground (arith, h);
    within = λ c. omega arith;
  }

  subscribed-Sound :
      (topic id : String) (ps : PubSub D) (found : Option ℕ)
      → found ≡ channel_of D topic id ps
      → Sound ps
      → Sound (subscribe_free D topic id (topic_of D (lookup topic ps.subscribers)) found ps).1
  unfolding subscribe_free set_channel
  subscribed-Sound topic id ps (some c) e h = h
  subscribed-Sound topic id ps none e h =
      let subs = topic_of D (lookup topic ps.subscribers) in
      let ps' = (subscribe_free D topic id subs none ps).1 in
      let changed : Changed D topic (insert id ps.used subs) ps ps' =
        (λ other. topic_of-insert D topic other (insert id ps.used subs) ps.subscribers) in
      let are = subscribed_channels D topic id ps.used ps ps' changed in
      record {
        subs_Unique =
            Changed-Unique D topic (insert id ps.used subs) ps ps' changed
              (Unique-insert id ps.used subs (h.subs_Unique topic)) h.subs_Unique;
        subs_used = λ t i c g. ground (arith, g, are t i, h.subs_used t i c);
        subs_open = λ t i c g.
            ground (arith, g, are t i, h.subs_used t i c, h.subs_open t i c, eqb_iff c ps.used);
        subs_apart = λ t i u j c g k. ground (
          arith,
          g,
          k,
          are t i,
          are u j,
          h.subs_used t i c,
          h.subs_used u j c,
          h.subs_apart t i u j c,
          eq_iff topic t,
          eq_iff topic u,
          eq_iff id i,
          eq_iff id j,
        );
        within = λ c. ground (arith, h.within c);
      }

  dropped-Changed :
      (topic id : String) (ps : PubSub D)
      → Changed D topic (delete id (topic_of D (lookup topic ps.subscribers))) ps (
          with_subscribers D
            (without_topic D topic
              (delete id (topic_of D (lookup topic ps.subscribers)))
              ps.subscribers)
            ps)
  unfolding with_subscribers
  dropped-Changed topic id ps other =
      topic_of-without D topic other (delete id (topic_of D (lookup topic ps.subscribers)))
        ps.subscribers

  channel_closed :
      (c : ℕ) (ps : PubSub D) (t i : String) → channel_of D t i (close D c ps) ≡ channel_of D t i ps
  unfolding close channel_of
  channel_closed c ps t i = refl

  dropped-Sound :
      (topic id : String) (c : ℕ) (ps : PubSub D)
      → channel_of D topic id ps ≡ some c
      → Sound ps
      → Sound (
          close D c (
            with_subscribers D
              (without_topic D topic
                (delete id (topic_of D (lookup topic ps.subscribers)))
                ps.subscribers)
              ps))
  unfolding close set_channel with_subscribers
  dropped-Sound topic id c ps at h =
      let subs = topic_of D (lookup topic ps.subscribers) in
      let ps' = with_subscribers D (without_topic D topic (delete id subs) ps.subscribers) ps in
      let are = dropped_channels D topic id ps ps' (dropped-Changed topic id ps) in
      record {
        subs_Unique =
            Changed-Unique D topic (delete id subs) ps ps' (dropped-Changed topic id ps)
              (Unique-delete id subs (h.subs_Unique topic)) h.subs_Unique;
        subs_used =
            λ t i d g. ground (arith, channel_closed c ps' t i, g, are t i, h.subs_used t i d);
        subs_open = λ t i d g. ground (
          arith,
          g,
          channel_closed c ps' t i,
          are t i,
          at,
          h.subs_open t i d,
          h.subs_apart topic id t i c,
          eqb_iff d c,
          eq_iff topic t,
          eq_iff id i,
        );
        subs_apart = λ t i u j d g k. ground (
          arith,
          g,
          k,
          channel_closed c ps' t i,
          channel_closed c ps' u j,
          are t i,
          are u j,
          h.subs_apart t i u j d,
        );
        within = λ d. ground (arith, h.within d, h.within c, eqb_iff d c);
      }

  kept-Sound :
      (topic : String) (subs : Map ℕ) (ps : PubSub D)
      → topic_of D (lookup topic ps.subscribers) ≡ subs
      → Sound ps
      → Sound (with_subscribers D (without_topic D topic subs ps.subscribers) ps)
  unfolding with_subscribers
  kept-Sound topic subs ps e h =
      let ps' = with_subscribers D (without_topic D topic subs ps.subscribers) ps in
      let changed : Changed D topic subs ps ps' =
        (λ other. topic_of-without D topic other subs ps.subscribers) in
      let are =
        kept_channels D topic ps ps' (subst (λ m. Changed D topic m ps ps') (sym e) changed) in
      record {
        subs_Unique =
            Changed-Unique D topic subs ps ps' changed (subst Unique e (h.subs_Unique topic))
              h.subs_Unique;
        subs_used = λ t i d g. h.subs_used t i d (sym (are t i) ∙ g);
        subs_open = λ t i d g. h.subs_open t i d (sym (are t i) ∙ g);
        subs_apart =
            λ t i u j d g k. h.subs_apart t i u j d (sym (are t i) ∙ g) (sym (are u j) ∙ k);
        within = h.within;
      }

  drop_id-Sound :
      (topic id : String) (subs : Map ℕ) (found : Option ℕ) (ps : PubSub D)
      → topic_of D (lookup topic ps.subscribers) ≡ subs
      → lookup id subs ≡ found
      → Sound ps
      → Sound (drop_id D topic id subs found ps)
  unfolding drop_id channel_of
  drop_id-Sound topic id subs none ps e f h = kept-Sound topic subs ps e h
  drop_id-Sound topic id subs (some c) ps e f h =
      subst
        (λ m.
          Sound (
            close D c (with_subscribers D (without_topic D topic (delete id m) ps.subscribers) ps)))
        e (dropped-Sound topic id c ps (ap (lookup id) e ∙ f) h)

  pub drop-Sound :
      (topic id : String) (found : Option (Map ℕ)) (ps : PubSub D)
      → lookup topic ps.subscribers ≡ found
      → Sound ps
      → Sound (drop_from D topic id found ps)
  unfolding drop_from topic_of
  drop-Sound topic id none ps e h = h
  drop-Sound topic id (some subs) ps e h =
      drop_id-Sound topic id subs (lookup id subs) ps (ap (topic_of D) e) refl h

  pub subscribe-Sound :
      (topic id : String) (ps : PubSub D) → Sound ps → Sound (subscribe D topic id ps).1
  unfolding subscribe channel_of
  subscribe-Sound topic id ps h =
      subscribed-Sound topic id ps (lookup id (topic_of D (lookup topic ps.subscribers))) refl h

  pub unsubscribe-Sound :
      (topic id : String) (ps : PubSub D) → Sound ps → Sound (unsubscribe D topic id ps)
  unfolding unsubscribe
  unsubscribe-Sound topic id ps h = drop-Sound topic id (lookup topic ps.subscribers) ps refl h
