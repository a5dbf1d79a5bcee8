-- ===== src/Controller/PubSub/Delivery.antt =====
-- What a publication does to the channels.
use etcdauto.Prelude.{
  ℕ, ◌≡◌, ◌≢◌, refl, sym, ap, subst, ◌∙◌, inl, inr, String, Option, none, some, Map, lookup, Unique,
  [], ◌∷◌, eqb, eqb_iff, ◌==◌, eq_iff, eq_refl, arith, Bool-cases, if_true, if_false,
}
use etcdauto.Certs.Authority.Loading.{some_injective}
use etcdauto.Controller.PubSub.{
  PubSub, topic_of, set_channel, enqueue, then_all, send_all, publish_to, publish_on,
}
use etcdauto.Controller.PubSub.Subscriptions.{channel_of}
use etcdauto.Controller.PubSub.Soundness.{Sound}
use etcdauto.Controller.PubSub.Sending.{sent, send_open, AllOpen, sent-AllOpen, topic-AllOpen}
use etcdauto.Controller.PubSub.Safety.{Reachable, Reachable-Sound}

module _ (D : Type 0) where
  none_is_not : {c : ℕ} → none ≢ some c
  none_is_not e = ground (arith, e)

  sent_here :
      (d : D) (c : ℕ) (ps : PubSub D) → (sent D d c ps).channels c ≡ enqueue D d (ps.channels c)
  unfolding set_channel
  sent_here d c ps = if_true (eqb c c) _ _ ((eqb_iff c c).1 refl)

  sent_elsewhere :
      (d : D) (c i : ℕ) (ps : PubSub D) → i ≢ c → (sent D d c ps).channels i ≡ ps.channels i
  unfolding set_channel
  sent_elsewhere d c i ps h = if_false (eqb i c) _ _ (ground (arith, h, eqb_iff i c))

  -- No two ids have the same channel.
  abbrev Apart : Map ℕ → Type 0
  Apart subs =
      (id key : String) (c : ℕ) → lookup id subs ≡ some c → lookup key subs ≡ some c → id ≡ key

  differ :
      (id key : String) (c : ℕ) (subs : Map ℕ)
      → lookup id subs ≡ none
      → lookup key subs ≡ some c
      → id ≢ key
  differ id key c subs fresh at e = none_is_not (sym fresh ∙ ap (λ k. lookup k subs) e ∙ at)

  lookup_rest :
      (id key : String) (x c : ℕ) (subs : Map ℕ)
      → lookup id subs ≡ none
      → lookup key subs ≡ some c
      → lookup key ((id, x) ∷ subs) ≡ some c
  unfolding lookup
  lookup_rest id key x c subs fresh at =
      if_false (id == key) (some x) (lookup key subs)
        (ground (arith, differ id key c subs fresh at, eq_iff id key))
      ∙ at

  lookup_first : (id : String) (x : ℕ) (subs : Map ℕ) → lookup id ((id, x) ∷ subs) ≡ some x
  unfolding lookup
  lookup_first id x subs = rw (eq_refl id) refl

  Apart-rest :
      (id : String) (x : ℕ) (subs : Map ℕ)
      → Unique ((id, x) ∷ subs)
      → Apart ((id, x) ∷ subs)
      → Apart subs
  Apart-rest id x subs (fresh, u) apart i j c at_i at_j =
      apart i j c (lookup_rest id i x c subs fresh at_i) (lookup_rest id j x c subs fresh at_j)

  first_not_later :
      (id : String) (x : ℕ) (subs : Map ℕ)
      → Unique ((id, x) ∷ subs)
      → Apart ((id, x) ∷ subs)
      → (key : String) → lookup key subs ≢ some x
  first_not_later id x subs (fresh, u) apart key at =
      differ id key x subs fresh at
        (apart id key x (lookup_first id x subs) (lookup_rest id key x x subs fresh at))

  others_unchanged :
      (d : D) (subs : Map ℕ) (ps ps' : PubSub D) (c : ℕ)
      → Unique subs
      → AllOpen D subs ps
      → send_all D d subs ps ≡ some ps'
      → ((id : String) → lookup id subs ≢ some c)
      → ps'.channels c ≡ ps.channels c
  unfolding send_all then_all
  others_unchanged d [] ps ps' c u all h absent = ap (λ r. r.channels c) (sym (some_injective h))
  others_unchanged d ((id, x) ∷ subs) ps ps' c (fresh, u) (is_open, all) h absent =
      let differs : c ≢ x = (λ e. absent id (lookup_first id x subs ∙ ap (λ n. some n) (sym e))) in
      others_unchanged d subs (sent D d x ps) ps' c u (sent-AllOpen D d x subs ps all)
        (rw (send_open D d x ps is_open) at h)
        (λ key at. absent key (lookup_rest id key x c subs fresh at))
      ∙ sent_elsewhere d x c ps differs

  each_reached :
      (d : D) (subs : Map ℕ) (ps ps' : PubSub D) (key : String) (c : ℕ)
      → Unique subs
      → Apart subs
      → AllOpen D subs ps
      → send_all D d subs ps ≡ some ps'
      → lookup key subs ≡ some c
      → ps'.channels c ≡ enqueue D d (ps.channels c)
  unfolding send_all then_all lookup
  each_reached d [] ps ps' key c u apart all h at = absurd (none_is_not at)
  each_reached d ((id, x) ∷ subs) ps ps' key c (fresh, u) apart (is_open, all) h at =
      let rest = rw (send_open D d x ps is_open) at h in
      let later = sent-AllOpen D d x subs ps all in
      elim (Bool-cases (id == key)) [
        | inl same ↦
            let e : x ≡ c = some_injective (sym (if_true (id == key) _ _ same) ∙ at) in
            subst (λ n. ps'.channels n ≡ enqueue D d (ps.channels n)) e
              (others_unchanged d subs (sent D d x ps) ps' x u later rest
                  (first_not_later id x subs (fresh, u) apart)
                ∙ sent_here d x ps)
        | inr other ↦
            let at_rest = sym (if_false (id == key) _ _ other) ∙ at in
            let differs : c ≢ x = (λ e.
              first_not_later id x subs (fresh, u) apart key (at_rest ∙ ap (λ n. some n) e)) in
            each_reached d subs (sent D d x ps) ps' key c u (Apart-rest id x subs (fresh, u) apart)
              later rest at_rest
            ∙ ap (enqueue D d) (sent_elsewhere d x c ps differs)
      ]

  published :
      (topic : String) (d : D) (found : Option (Map ℕ)) (ps ps' : PubSub D)
      → lookup topic ps.subscribers ≡ found
      → Sound D ps
      → publish_to D d found ps ≡ some ps'
      → ((id : String) (c : ℕ)
          → lookup id (topic_of D found) ≡ some c
          → ps'.channels c ≡ enqueue D d (ps.channels c))
        × ((c : ℕ)
            → ((id : String) → lookup id (topic_of D found) ≢ some c)
            → ps'.channels c ≡ ps.channels c)
  unfolding publish_to topic_of channel_of lookup
  published topic d none ps ps' e h done = (
    (λ id c at. absurd (none_is_not at)),
    (λ c absent. ap (λ r. r.channels c) (sym (some_injective done))),
  )
  published topic d (some subs) ps ps' e h done =
      let u : Unique subs = subst Unique (ap (topic_of D) e) (h.subs_Unique topic) in
      let at : (id : String) (c : ℕ) → lookup id subs ≡ some c → channel_of D topic id ps ≡ some c =
        (λ id c g. ap (λ o. lookup id (topic_of D o)) e ∙ g) in
      let apart : Apart subs =
        (λ id key c g k. (h.subs_apart topic id topic key c (at id c g) (at key c k)).1) in
      let all = topic-AllOpen D topic subs ps e h in
      (
        (λ id c. each_reached d subs ps ps' id c u apart all done),
        (λ c. others_unchanged d subs ps ps' c u all done),
      )

  -- In any state that the operations reach, a publication appends the message to the channel of every
  -- subscriber of the topic that has room, drops it for those whose channel is full, and leaves every
  -- other channel as it was.
  pub publish_delivers :
      (ps ps' : PubSub D) (topic : String) (d : D)
      → Reachable D ps
      → publish_on D topic d ps ≡ some ps'
      → ((id : String) (c : ℕ)
          → channel_of D topic id ps ≡ some c
          → ps'.channels c ≡ enqueue D d (ps.channels c))
        × ((c : ℕ)
            → ((id : String) → channel_of D topic id ps ≢ some c)
            → ps'.channels c ≡ ps.channels c)
  unfolding publish_on channel_of
  publish_delivers ps ps' topic d h done =
      published topic d (lookup topic ps.subscribers) ps ps' refl (Reachable-Sound D ps h) done
