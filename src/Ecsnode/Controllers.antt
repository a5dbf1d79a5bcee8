-- ===== src/Ecsnode/Controllers.antt =====
-- `setupControllers` of cmd/ecsnode/main.go, with what the constructors of the controllers do to the
-- topics. Whether the manager completes and adds a controller, and whether there is a client, are
-- arguments.
pub mod Accepting
pub mod Wanted
use etcdauto.Prelude.{
  String, ◌≡◌, refl, ap, ◌∙◌, Bool, true, false, not, ◌||◌, Option, none, some, List, [], ◌∷◌, ◌++◌,
  insert, lookup, ◌==◌, if◌then◌else◌, ℕ, arith,
}
use etcdauto.Controller.PubSub.{PubSub, new_pub_sub, topic_of, subscribe_free, subscribe}
use etcdauto.Controller.PubSub.Subscriptions.{channel_of}
use etcdauto.Controller.PubSub.Safety.{Reachable, initial, next, subscribes}
use etcdauto.Controller.EcsNode.Starting.{ecs_node_topic}
use etcdauto.Ecsnode.{Config}

abbrev pub pod_topic : String
pod_topic = "/pod"

pub data Kind : Type 0 where
  ecs_node_kind pod_kind service_kind configmap_kind secret_kind node_kind : Kind

module _ (D : Type 0) where
  -- What has been added to the manager, in order, and the topics
  pub record Added : Type 0 where
    pub kinds : List Kind
    pub topics : PubSub D

  -- klog.Fatal, an error, or the end
  pub data SetUp : Type 0 where
    exits failed : SetUp
    set_up : Added → SetUp

  unfoldable pub then_do : SetUp → (Added → SetUp) → SetUp
  then_do exits f = exits
  then_do failed f = failed
  then_do (set_up a) f = f a

  unfoldable pub subscribed : List Kind → Option ℕ × PubSub D → SetUp
  subscribed kinds (none, ps) = exits
  subscribed kinds (some c, ps) = set_up (record { kinds = kinds; topics = ps })

  -- The subscription of a constructor
  unfoldable pub join_topic : String → String → Added → SetUp
  unfolding subscribed
  join_topic topic id a = subscribed a.kinds (subscribe D topic id a.topics)

  module _ (completes adds : Kind → Bool) (has_client : Bool) where
    -- NewControllerManagedBy(mgr)...Complete
    unfoldable pub complete : Kind → Added → SetUp
    complete k a = if completes k then set_up a else exits

    -- mgr.Add
    unfoldable pub add : Kind → Added → SetUp
    add k a =
        if adds k
        then set_up (record { kinds = a.kinds ++ (k ∷ []); topics = a.topics })
        else failed

    unfoldable pub new_pod : Added → SetUp
    unfolding join_topic complete then_do
    new_pod a = then_do (join_topic ecs_node_topic "pod" a) (complete pod_kind)

    unfoldable pub new_service_sync : Added → SetUp
    unfolding join_topic complete then_do
    new_service_sync a = then_do (join_topic pod_topic "service" a) (complete service_kind)

    unfoldable pub new_configmap_sync : Added → SetUp
    unfolding join_topic complete then_do
    new_configmap_sync a =
        then_do (join_topic ecs_node_topic "configmap" a) (complete configmap_kind)

    -- The part of the service, of the config map, of the client, of the secrets and of the nodes, each
    -- of them for whether it is configured
    unfoldable pub add_service : Bool → Added → SetUp
    unfolding new_service_sync add then_do
    add_service wanted a =
        if wanted then then_do (new_service_sync a) (add service_kind) else set_up a

    unfoldable pub add_configmap : Bool → Added → SetUp
    unfolding new_configmap_sync add then_do
    add_configmap wanted a =
        if wanted then then_do (new_configmap_sync a) (add configmap_kind) else set_up a

    unfoldable pub make_client : Bool → Added → SetUp
    make_client wanted a = if wanted then (if has_client then set_up a else failed) else set_up a

    unfoldable pub add_secret : Bool → Added → SetUp
    unfolding complete add then_do
    add_secret wanted a =
        if wanted then then_do (complete secret_kind a) (add secret_kind) else set_up a

    unfoldable pub add_node : Bool → Added → SetUp
    unfolding complete add then_do
    add_node wanted a = if wanted then then_do (complete node_kind a) (add node_kind) else set_up a

    -- For which of the four are configured: service, config map, secrets, nodes
    unfoldable pub set_up_for : Bool → Bool → Bool → Bool → SetUp
    unfolding new_pod complete add add_service add_configmap make_client add_secret add_node then_do
    set_up_for service configmap secret node =
        then_do (complete ecs_node_kind (record { kinds = []; topics = new_pub_sub D })) (λ a.
          then_do (new_pod a) (λ a. then_do (add ecs_node_kind a) (λ a.
            then_do (add pod_kind a) (λ a. then_do (add_service service a) (λ a.
              then_do (add_configmap configmap a) (λ a.
                then_do (make_client (secret || node) a)
                  (λ a. then_do (add_secret secret a) (add_node node))))))))

    unfoldable pub setup_controllers : Config → SetUp
    unfolding set_up_for
    setup_controllers cfg =
        set_up_for (not (cfg.service_config.name == "")) (not (cfg.configmap.name == ""))
          cfg.cert.enabled (not (cfg.node.statefulset_name == ""))
