-- ===== src/Controller/PubSub/Subscriptions.antt =====
-- The channel of each subscription, and how the operations change it.
use etcdauto.Prelude.{
  ℕ, ◌≡◌, refl, sym, ap, subst, ◌∙◌, String, Bool, true, false, Option, none, some, Map, lookup,
  lookup-insert, lookup-delete, insert, delete, Unique, [], ◌∷◌, ◌&&◌, ◌==◌, eq_iff, arith,
  if◌then◌else◌,
}
use etcdauto.Controller.PubSub.{PubSub, topic_of, without_topic}

module _ (D : Type 0) where
  -- The channel with which the id is subscribed to the topic
  unfoldable pub channel_of : String → String → PubSub D → Option ℕ
  channel_of topic id ps = lookup id (topic_of D (lookup topic ps.subscribers))

  topic_of-if :
      (b : Bool) (o p : Option (Map ℕ))
      → topic_of D (if b then o else p) ≡ (if b then topic_of D o else topic_of D p)
  topic_of-if true o p = refl
  topic_of-if false o p = refl

  pub topic_of-insert :
      (topic other : String) (subs : Map ℕ) (all : Map (Map ℕ))
      → topic_of D (lookup other (insert topic subs all))
        ≡ (if topic == other then subs else topic_of D (lookup other all))
  unfolding topic_of
  topic_of-insert topic other subs all =
      rw (lookup-insert topic other subs all) (topic_of-if (topic == other) _ _)

  pub topic_of-without :
      (topic other : String) (subs : Map ℕ) (all : Map (Map ℕ))
      → topic_of D (lookup other (without_topic D topic subs all))
        ≡ (if topic == other then subs else topic_of D (lookup other all))
  unfolding topic_of without_topic
  topic_of-without topic other [] all =
      rw (lookup-delete topic other all) (topic_of-if (topic == other) none _)
  topic_of-without topic other (s ∷ subs) all = topic_of-insert topic other (s ∷ subs) all

  -- Only the subscriptions of one topic change.
  abbrev pub Changed : String → Map ℕ → PubSub D → PubSub D → Type 0
  Changed topic subs ps ps' =
      ((other : String)
        → topic_of D (lookup other ps'.subscribers)
          ≡ (if topic == other then subs else topic_of D (lookup other ps.subscribers)))

  pub Changed-Unique :
      (topic : String) (subs : Map ℕ) (ps ps' : PubSub D)
      → Changed topic subs ps ps'
      → Unique subs
      → ((other : String) → Unique (topic_of D (lookup other ps.subscribers)))
      → (other : String) → Unique (topic_of D (lookup other ps'.subscribers))
  Changed-Unique topic subs ps ps' changed u h other =
      subst Unique (sym (changed other)) (choose (topic == other))
    where
      choose : (b : Bool) → Unique (if b then subs else topic_of D (lookup other ps.subscribers))
      choose true = u
      choose false = h other

  Changed-channel_of :
      (topic : String) (subs : Map ℕ) (ps ps' : PubSub D)
      → Changed topic subs ps ps'
      → (other key : String)
      → channel_of other key ps'
        ≡ (if topic == other then lookup key subs else channel_of other key ps)
  unfolding channel_of
  Changed-channel_of topic subs ps ps' changed other key =
      ap (lookup key) (changed other) ∙ choose (topic == other)
    where
      choose :
          (b : Bool)
          → lookup key (if b then subs else topic_of D (lookup other ps.subscribers))
            ≡ (if b then lookup key subs else lookup key (topic_of D (lookup other ps.subscribers)))
      choose true = refl
      choose false = refl

  same_topic :
      (topic other key : String) (ps : PubSub D)
      → (topic == other) ≡ true
      → lookup key (topic_of D (lookup topic ps.subscribers))
        ≡ lookup key (topic_of D (lookup other ps.subscribers))
  same_topic topic other key ps e =
      ap (λ t. lookup key (topic_of D (lookup t ps.subscribers))) ((eq_iff topic other).0 e)

  pub subscribed_channels :
      (topic id : String) (c : ℕ) (ps ps' : PubSub D)
      → Changed topic (insert id c (topic_of D (lookup topic ps.subscribers))) ps ps'
      → (other key : String)
      → channel_of other key ps'
        ≡ (if (topic == other) && (id == key) then some c else channel_of other key ps)
  unfolding channel_of
  subscribed_channels topic id c ps ps' changed other key =
      let subs = topic_of D (lookup topic ps.subscribers) in
      let e = Changed-channel_of topic (insert id c subs) ps ps' changed other key in
      let same = same_topic topic other key ps in
      ground (arith, e, same, lookup-insert id key c subs)

  pub dropped_channels :
      (topic id : String) (ps ps' : PubSub D)
      → Changed topic (delete id (topic_of D (lookup topic ps.subscribers))) ps ps'
      → (other key : String)
      → channel_of other key ps'
        ≡ (if (topic == other) && (id == key) then none else channel_of other key ps)
  unfolding channel_of
  dropped_channels topic id ps ps' changed other key =
      let subs = topic_of D (lookup topic ps.subscribers) in
      let e = Changed-channel_of topic (delete id subs) ps ps' changed other key in
      let same = same_topic topic other key ps in ground (arith, e, same, lookup-delete id key subs)

  pub kept_channels :
      (topic : String) (ps ps' : PubSub D)
      → Changed topic (topic_of D (lookup topic ps.subscribers)) ps ps'
      → (other key : String) → channel_of other key ps' ≡ channel_of other key ps
  unfolding channel_of
  kept_channels topic ps ps' changed other key =
      let subs = topic_of D (lookup topic ps.subscribers) in
      let e = Changed-channel_of topic subs ps ps' changed other key in
      let same = same_topic topic other key ps in ground (arith, e, same)
