-- ===== src/Ecsnode/Controllers/Wanted.antt =====
-- What `setupControllers` has set up when it comes to its end.
use etcdauto.Prelude.{
  String, ◌≡◌, refl, ap, ◌∙◌, Bool, true, false, not, none, some, List, [], ◌∷◌, ◌++◌, insert,
  lookup, ◌==◌, if◌then◌else◌,
}
use etcdauto.Controller.PubSub.{PubSub, new_pub_sub, topic_of, subscribe_free, subscribe}
use etcdauto.Controller.PubSub.Subscriptions.{channel_of}
use etcdauto.Controller.PubSub.Safety.{Reachable, initial, next, subscribes}
use etcdauto.Controller.EcsNode.Starting.{ecs_node_topic}
use etcdauto.Ecsnode.{Config}
use etcdauto.Ecsnode.Controllers.{
  pod_topic, Kind, ecs_node_kind, pod_kind, service_kind, configmap_kind, secret_kind, node_kind,
  Added, set_up, set_up_for, setup_controllers,
}

-- The kinds that are wanted, in the order in which they are added
abbrev pub wanted_kinds : Bool → Bool → Bool → Bool → List Kind
wanted_kinds service configmap secret node =
    ecs_node_kind
    ∷ pod_kind
    ∷ ((if service then service_kind ∷ [] else [])
        ++ (if configmap then configmap_kind ∷ [] else [])
        ++ (if secret then secret_kind ∷ [] else [])
        ++ (if node then node_kind ∷ [] else []))

abbrev pub all_well : Kind → Bool
all_well k = true

module _ (D : Type 0) where
  unfoldable pub joined : String → String → Bool → PubSub D → PubSub D
  joined topic id true ps = (subscribe D topic id ps).1
  joined topic id false ps = ps

  unfoldable pub joined_topics : Bool → Bool → PubSub D
  unfolding joined
  joined_topics service configmap =
      joined ecs_node_topic "configmap" configmap
        (joined pod_topic "service" service (joined ecs_node_topic "pod" true (new_pub_sub D)))

  joined-Reachable :
      (topic id : String) (b : Bool) (ps : PubSub D)
      → Reachable D ps
      → Reachable D (joined topic id b ps)
  unfolding joined
  joined-Reachable topic id true ps r =
      next ps (subscribe D topic id ps).1 r (subscribes topic id ps)
  joined-Reachable topic id false ps r = r

  pub set_up_wanted :
      (service configmap secret node : Bool)
      → set_up_for D all_well all_well true service configmap secret node
        ≡ set_up (record {
          kinds = wanted_kinds service configmap secret node;
          topics = joined_topics service configmap;
        })
  unfolding set_up_for subscribe subscribe_free topic_of lookup insert joined_topics joined
  set_up_wanted true true true true = refl
  set_up_wanted true true true false = refl
  set_up_wanted true true false true = refl
  set_up_wanted true true false false = refl
  set_up_wanted true false true true = refl
  set_up_wanted true false true false = refl
  set_up_wanted true false false true = refl
  set_up_wanted true false false false = refl
  set_up_wanted false true true true = refl
  set_up_wanted false true true false = refl
  set_up_wanted false true false true = refl
  set_up_wanted false true false false = refl
  set_up_wanted false false true true = refl
  set_up_wanted false false true false = refl
  set_up_wanted false false false true = refl
  set_up_wanted false false false false = refl

  -- The topics and their channels
  abbrev pub Joined : Bool → Bool → PubSub D → Type 0
  Joined service configmap ps =
      Reachable D ps
      × (channel_of D ecs_node_topic "pod" ps ≡ some 0)
      × (channel_of D pod_topic "service" ps ≡ (if service then some 1 else none))
      × (channel_of D ecs_node_topic "configmap" ps
          ≡ (if configmap then some (if service then 2 else 1) else none))

  joined_topics-Reachable :
      (service configmap : Bool) → Reachable D (joined_topics service configmap)
  unfolding joined_topics
  joined_topics-Reachable service configmap =
      joined-Reachable ecs_node_topic "configmap" configmap _ (
        joined-Reachable pod_topic "service" service _
          (joined-Reachable ecs_node_topic "pod" true (new_pub_sub D) initial))

  pub joined_topics-Joined :
      (service configmap : Bool) → Joined service configmap (joined_topics service configmap)
  unfolding joined_topics joined subscribe subscribe_free topic_of lookup insert channel_of
  joined_topics-Joined true true = (joined_topics-Reachable true true, refl, refl, refl)
  joined_topics-Joined true false = (joined_topics-Reachable true false, refl, refl, refl)
  joined_topics-Joined false true = (joined_topics-Reachable false true, refl, refl, refl)
  joined_topics-Joined false false = (joined_topics-Reachable false false, refl, refl, refl)

  -- When the manager accepts every controller and there is a client, the set-up does not end the process
  -- and gives no error: no two subscriptions collide. It adds exactly the controllers that are
  -- configured, in order, and each of them that subscribes has a channel of its own on its topic.
  pub setup_controllers_lem :
      (completes adds : Kind → Bool) (cfg : Config)
      → ((k : Kind) → completes k ≡ true)
      → ((k : Kind) → adds k ≡ true)
      → let service = not (cfg.service_config.name == "") in
        let configmap = not (cfg.configmap.name == "") in
        let node = not (cfg.node.statefulset_name == "") in
        (a : Added D) × (setup_controllers D completes adds true cfg ≡ set_up a)
        × (a.kinds ≡ wanted_kinds service configmap cfg.cert.enabled node)
        × Joined service configmap a.topics
  unfolding setup_controllers
  setup_controllers_lem completes adds cfg c d =
      let service = not (cfg.service_config.name == "") in
      let configmap = not (cfg.configmap.name == "") in
      let node = not (cfg.node.statefulset_name == "") in
      (
        record {
          kinds = wanted_kinds service configmap cfg.cert.enabled node;
          topics = joined_topics service configmap;
        },
        ap (λ f. set_up_for D f adds true service configmap cfg.cert.enabled node) (λ i k. c k i)
            ∙ ap (λ f. set_up_for D (λ k. true) f true service configmap cfg.cert.enabled node)
                (λ i k. d k i)
            ∙ set_up_wanted service configmap cfg.cert.enabled node,
        refl,
        joined_topics-Joined service configmap,
      )
