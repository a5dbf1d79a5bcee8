-- ===== src/Controller/EcsNode/Starting.antt =====
-- `Start` of pkg/controller/ecnode.go, composed with the subscription of pkg/controller/pod.go and
-- configmap.go: the goroutine publishes the hosts for every signal of Reconcile, and a subscriber
-- takes the messages of its channel over, one after the other.
use etcdauto.Prelude.{
  ℕ, ◌<◌, String, ◌≡◌, refl, sym, ap, subst, ◌∙◌, ltb, Option, none, some, List, [], ◌∷◌, ◌++◌, Map,
  lookup, length, Unique, arith, if_true,
}
use etcdauto.Certs.Authority.Loading.{some_injective}
use etcdauto.Controller.Sets.{Sets}
use etcdauto.Controller.Hosts.{merge, SameSet}
use etcdauto.Controller.Hosts.Merge.{merge_takes_over}
use etcdauto.Controller.Hosts.Keeping.{Unique-merge}
use etcdauto.Controller.PubSub.{PubSub, enqueue, publish_on}
use etcdauto.Controller.PubSub.Subscriptions.{channel_of}
use etcdauto.Controller.PubSub.Safety.{Reachable}
use etcdauto.Controller.PubSub.Delivery.{publish_delivers}
use etcdauto.Controller.EcsNode.{EcsNode}

abbrev pub ecs_node_topic : String
ecs_node_topic = "/ecsnode"

module _ (S : Sets) where
  abbrev pub Hosts : Type 0
  Hosts = Map S.Set

  -- A signal is taken, and `rest` are left; `none` is a panic.
  unfoldable pub publish_hosts :
      ℕ → EcsNode S → Option (PubSub Hosts) → Option (EcsNode S × PubSub Hosts)
  publish_hosts rest h none = none
  publish_hosts rest h (some ps) = some (record h { triggers = rest }, ps)

  unfoldable pub trigger_taken : ℕ → EcsNode S → PubSub Hosts → Option (EcsNode S × PubSub Hosts)
  unfolding publish_hosts
  trigger_taken rest h ps = publish_hosts rest h (publish_on Hosts ecs_node_topic h.host_ips ps)

  -- The messages of the subscription, as the goroutine takes them over into its own hosts
  unfoldable pub hosts_taken : List Hosts → Hosts → Hosts
  hosts_taken [] mine = mine
  hosts_taken (origin ∷ more) mine = hosts_taken more (merge S origin mine).hosts

  hosts_taken-append :
      (ms : List Hosts) (origin mine : Hosts)
      → hosts_taken (ms ++ (origin ∷ [])) mine ≡ (merge S origin (hosts_taken ms mine)).hosts
  unfolding hosts_taken
  hosts_taken-append [] origin mine = refl
  hosts_taken-append (m ∷ ms) origin mine = hosts_taken-append ms origin (merge S m mine).hosts

  Unique-hosts_taken : (ms : List Hosts) (mine : Hosts) → Unique mine → Unique (hosts_taken ms mine)
  unfolding hosts_taken
  Unique-hosts_taken [] mine u = u
  Unique-hosts_taken (m ∷ ms) mine u =
      Unique-hosts_taken ms (merge S m mine).hosts (Unique-merge S m mine u)

  published_by :
      (rest : ℕ) (h h' : EcsNode S) (found : Option (PubSub Hosts)) (ps' : PubSub Hosts)
      → publish_hosts rest h found ≡ some (h', ps')
      → (found ≡ some ps') × (h'.host_ips ≡ h.host_ips)
  unfolding publish_hosts
  published_by rest h h' none ps' e = ground (arith, e)
  published_by rest h h' (some ps) ps' e =
      let same = some_injective e in (ap (λ r. some r.1) same, ap (λ r. r.0.host_ips) (sym same))

  enqueued :
      (origin : Hosts) (ps ps' : PubSub Hosts) (c : ℕ)
      → length (ps.channels c).messages < 10
      → ps'.channels c ≡ enqueue Hosts origin (ps.channels c)
      → (ps'.channels c).messages ≡ (ps.channels c).messages ++ (origin ∷ [])
  unfolding enqueue
  enqueued origin ps ps' c room e =
      ap (λ ch. ch.messages)
        (e ∙ if_true (ltb (length (ps.channels c).messages) 10) _ _ (ground (arith, room)))

  -- The hosts arrive: in any state of the topics that their operations reach, with no host listed twice,
  -- after the goroutine has published for a signal, a subscriber of the topic whose channel had room,
  -- once it has taken all its messages, knows for every host what was published.
  pub trigger_taken-hosts_taken :
      (rest : ℕ) (h h' : EcsNode S) (ps ps' : PubSub Hosts) (id : String) (c : ℕ) (mine : Hosts)
      → (j : String) → Reachable Hosts ps
      → channel_of Hosts ecs_node_topic id ps ≡ some c
      → length (ps.channels c).messages < 10
      → Unique h.host_ips
      → Unique mine
      → trigger_taken rest h ps ≡ some (h', ps')
      → SameSet S (lookup j (hosts_taken (ps'.channels c).messages mine)) (lookup j h'.host_ips)
  unfolding trigger_taken
  trigger_taken-hosts_taken rest h h' ps ps' id c mine j runs subscribed room u v e =
      let (done, same) = published_by rest h h' _ ps' e in
      let (each, others) = publish_delivers Hosts ps ps' ecs_node_topic h.host_ips runs done in
      let stored = enqueued h.host_ips ps ps' c room (each id c subscribed) in
      let before = (ps.channels c).messages in
      let taken =
        ap (λ ms. hosts_taken ms mine) stored ∙ hosts_taken-append before h.host_ips mine in
      subst (λ x. SameSet S (lookup j x) (lookup j h'.host_ips)) (sym taken)
        (subst
          (λ x.
            SameSet S (lookup j (merge S h.host_ips (hosts_taken before mine)).hosts) (lookup j x))
          (sym same)
          (merge_takes_over S h.host_ips (hosts_taken before mine) j u
            (Unique-hosts_taken before mine v)))
