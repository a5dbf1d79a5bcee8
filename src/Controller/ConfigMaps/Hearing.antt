-- ===== src/Controller/ConfigMaps/Hearing.antt =====
-- The config map follows the hosts that were published last.
use etcdauto.Prelude.{
  String, ◌≡◌, refl, sym, ap, subst, ◌∙◌, ◌⊎◌, inl, inr, true, Option, none, some, any, All, List,
  [], ◌∷◌, Map, lookup, Unique, ◌==◌, eq_refl, eq_iff, arith, ◌≢◌, Bool-cases,
}
use etcdauto.Certs.Authority.Loading.{some_injective}
use etcdauto.Controller.Sets.{Sets}
use etcdauto.Controller.Hosts.{SameSet}
use etcdauto.Controller.Hosts.Equal.{deep_equal_sets_iff}
use etcdauto.Controller.Hosts.Keeping.{Unique-merge}
use etcdauto.Controller.Hosts.Merge.{merge_takes_over, SameSet-trans}
use etcdauto.Controller.Loop.{selecting}
use etcdauto.Controller.Loop.Settling.{Reachable-known}
use etcdauto.Controller.ConfigMaps.{ConfigMap, get_ip_set_from_configmap, hosts_received}
use etcdauto.Controller.ConfigMaps.Starting.{
  Hosts, configmap_received, configmap_goroutine, ConfigMapLoop, Runs, configmap_loop_settles,
}
use etcdauto.Controller.ConfigMaps.Writing.{Plain, Writable, get_ip_set_from_configmap-Unique}

-- A test by membership: the elements of one list that are in another have what those have.
any-All :
    (P : String → Type 0) (l : List String)
    → ((x : String) → any (λ y. y == x) l ≡ true → P x)
    → All P l
any-All P [] h = tt
any-All P (y ∷ l) h = (h y (rw (eq_refl y) refl), any-All P l (λ x e. h x (ground (arith, e))))

not_empty :
    (l m : List String)
    → ((x : String) → any (λ y. y == x) l ≡ any (λ y. y == x) m)
    → m ≢ []
    → l ≢ []
not_empty l [] same full = absurd (full refl)
not_empty l (y ∷ m) same full =
    λ e. ground (arith, eq_refl y, sym (ap (λ q. any (λ z. z == y) q) e) ∙ same y)

All-any :
    (P : String → Type 0) (l : List String) (x : String)
    → All P l
    → any (λ y. y == x) l ≡ true
    → P x
All-any P [] x all e = ground (arith, e)
All-any P (y ∷ l) x (p, all) e = elim (Bool-cases (y == x)) [
  | inl own ↦ subst P ((eq_iff y x).0 own) p
  | inr other ↦ All-any P l x all (ground (arith, e, other))
]

module _ (S : Sets) where
  Writable-same :
      (a b : S.Set) → ((x : String) → S.has a x ≡ S.has b x) → Writable S b → Writable S a
  Writable-same a b same (full, plain) =
      let within : (x : String)
          → any (λ y. y == x) (S.unsorted_list a) ≡ any (λ y. y == x) (S.unsorted_list b) =
        (λ x. S.unsorted_has a x ∙ same x ∙ sym (S.unsorted_has b x)) in
      (
        not_empty (S.unsorted_list a) (S.unsorted_list b) within full,
        any-All Plain (S.unsorted_list a)
            (λ x e. All-any Plain (S.unsorted_list b) x plain (sym (within x) ∙ e)),
      )

  -- The hosts of the last message, none before the first
  abbrev pub heard_hosts : Option (Hosts S) → Map S.Set
  heard_hosts none = []
  heard_hosts (some m) = m.0

  abbrev Heard : Option (Hosts S) → Map S.Set → Type 0
  Heard o known =
      Unique known × ((k : String) → SameSet S (lookup k known) (lookup k (heard_hosts o)))

  known-Heard : (s : ConfigMapLoop S) → Runs S s → Heard s.heard s.known
  unfolding configmap_received hosts_received lookup
  known-Heard s runs =
      Reachable-known (configmap_goroutine S) Heard [] s (tt, λ k. tt)
        (λ m o e h. (Unique-merge S m.0 e h.0, λ k. merge_takes_over S m.0 e k m.1 h.0)) runs

  heard_of :
      (o : Option (Hosts S))
      → ((k : String) → SameSet S (lookup k []) (lookup k (heard_hosts o)))
      → (k : String) → lookup k (heard_hosts o) ≡ none
  unfolding lookup
  heard_of o h k = no_set (lookup k (heard_hosts o)) (h k)
    where
      no_set : (p : Option S.Set) → SameSet S none p → p ≡ none
      no_set none s = refl
      no_set (some a) s = absurd s

  known-Writable :
      (o p : Option S.Set)
      → SameSet S o p
      → ((b : S.Set) → p ≡ some b → Writable S b)
      → (a : S.Set) → o ≡ some a
      → Writable S a
  known-Writable none p same h a e = ground (arith, e)
  known-Writable (some b) none same h a e = absurd same
  known-Writable (some b) (some d) same h a e =
      subst (Writable S) (some_injective e) (Writable-same b d same (h d refl))

  -- However messages, events, syncs and their errors follow each other: when the goroutine waits and
  -- no signal is on its way to it, and the sets of the last message can be written, the config map that
  -- was written last is read back as exactly the hosts of the last message, each with the same IPs; or
  -- nothing was written, and the last message, if there was one, had no hosts.
  pub configmap_follows :
      (s : ConfigMapLoop S)
      → Runs S s
      → s.phase ≡ selecting
      → s.pending ≡ 0
      → s.owed ≡ 0
      → ((k : String) (ips : S.Set) → lookup k (heard_hosts s.heard) ≡ some ips → Writable S ips)
      → ((s.written ≡ none) × ((k : String) → lookup k (heard_hosts s.heard) ≡ none))
        ⊎ ((cm : ConfigMap) × (s.written ≡ some cm)
            × ((k : String)
                → SameSet S
                    (lookup k (get_ip_set_from_configmap S cm.entries))
                    (lookup k (heard_hosts s.heard))))
  configmap_follows s runs at none_left none_owed writable =
      let (u, same) = known-Heard s runs in
      elim (configmap_loop_settles S s runs at none_left none_owed) [
        | inl (nothing, empty) ↦ inl (
          nothing,
          heard_of s.heard (λ k.
              subst (λ m. SameSet S (lookup k m) (lookup k (heard_hosts s.heard))) empty (same k)),
        )
        | inr (cm, written, equal) ↦
            let read = get_ip_set_from_configmap S cm.entries in
            let agree =
              (deep_equal_sets_iff S read s.known (get_ip_set_from_configmap-Unique S cm.entries)
                  u).0
                (equal (λ k ips e.
                  known-Writable (lookup k s.known) (lookup k (heard_hosts s.heard)) (same k)
                    (writable k) ips e)) in
            inr (cm, written, λ k. SameSet-trans S _ _ _ (agree k) (same k))
      ]
