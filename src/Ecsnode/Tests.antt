-- ===== src/Ecsnode/Tests.antt =====
-- A configuration with certificates and a stateful set, and without a service and a config map.
use etcdauto.Prelude.{
  ℕ, Bool, not, ◌==◌, ◌≡◌, ◌≢◌, refl, true, false, none, some, lookup, String, Option, insert,
  if◌then◌else◌, [], ◌∷◌,
}
use etcdauto.Controller.SecretSync.{or_else, valid_cert, with_defaults}
use etcdauto.Controller.EcsNode.{valid_ecs_node}
use etcdauto.Controller.Node.{valid_node, set_defaults, or_default}
use etcdauto.Controller.PubSub.{subscribe, subscribe_free, topic_of}
use etcdauto.Ecsnode.Controllers.{
  Kind, ecs_node_kind, pod_kind, secret_kind, node_kind, Added, set_up, then_do, subscribed,
  join_topic, complete, add, new_pod, add_service, add_configmap, make_client, add_secret, add_node,
  set_up_for, setup_controllers,
}
use etcdauto.Ecsnode.Controllers.Wanted.{
  wanted_kinds, joined, joined_topics, Joined, setup_controllers_lem,
}
use etcdauto.Ecsnode.Main.{
  load_from_yaml, unmarshalled, launched, controllers_set_up, defaults_applied, config_read, main,
  AreWanted, main-AreWanted,
}
use etcdauto.Ecsnode.{
  Config, valid_pod, with_namespace, with_own_namespaces, default_cert, default_config_map,
  default_service, default_ecs_node, default_pod, node_in, without_error, default_node, checked,
  defaults_of, apply_default,
}
use etcdauto.Ecsnode.Defaults.{IsValid, apply_default-IsValid}

abbrev given : Config
given = record {
  cert = record {
    enabled = true;
    ca_secret_name = "etcd-ca";
    ca_secret_namespace = "";
    client_secret_name = "etcd-client";
    client_secret_namespaces = "monitoring" ∷ [];
    validity_years = 0;
    organization = "";
    common_name = "";
    client_secret_namespace_set = [];
  };
  configmap = record { namespace = ""; name = "" };
  pod_config = record { labels = []; namespace = "" };
  ecs_node = record { interfaces = "eth0" ∷ []; master_if = "eth0"; namespace = "" };
  service_config = record { publish_not_ready = false; namespace = ""; name = ""; ports = [] };
  node = record {
    exclude_labels = [];
    include_labels = [];
    statefulset_name = "etcd";
    statefulset_namespace = "";
    min_replicas = 0;
    max_replicas = 7;
  };
}

abbrev result : Config
unfolding with_own_namespaces with_namespace default_pod default_ecs_node node_in set_defaults
result = record {
  cert = with_defaults (with_own_namespaces "kube-system" given.cert);
  configmap = given.configmap;
  pod_config = default_pod "kube-system" given.pod_config;
  ecs_node = default_ecs_node "kube-system" given.ecs_node;
  service_config = given.service_config;
  node = node_in "kube-system" (set_defaults given.node);
}

accepted : apply_default (some given) "kube-system" ≡ some result
unfolding given result apply_default defaults_of default_cert default_config_map default_service
    default_node checked valid_cert valid_pod valid_ecs_node valid_node set_defaults or_default
    node_in without_error with_own_namespaces with_namespace default_pod default_ecs_node or_else
accepted = refl

apply_default-IsValid_example : IsValid "kube-system" result
apply_default-IsValid_example = apply_default-IsValid (some given) result "kube-system" accepted

abbrev accepts : Kind → Bool
accepts k = true

setup_controllers_lem_example :
    let service = not (given.service_config.name == "") in
    let configmap = not (given.configmap.name == "") in
    let node = not (given.node.statefulset_name == "") in
    (a : Added ℕ) × (setup_controllers ℕ accepts accepts true given ≡ set_up a)
    × (a.kinds ≡ wanted_kinds service configmap given.cert.enabled node)
    × Joined ℕ service configmap a.topics
setup_controllers_lem_example =
    setup_controllers_lem ℕ accepts accepts given (λ k. refl) (λ k. refl)

-- The files are configurations; "null" is the document that unsets the pointer.
abbrev parse : Config → Option (Option Config)
parse c = some (some c)

abbrev only_file : String → Option Config
only_file path = if path == "config.yaml" then some given else none

abbrev env : String → String
env name = "kube-system"

abbrev added : Added ℕ
unfolding result
added = record {
  kinds = ecs_node_kind ∷ pod_kind ∷ secret_kind ∷ node_kind ∷ [];
  topics = joined_topics ℕ false false;
}

started_up :
    main ℕ accepts accepts true true true Config only_file parse env "config.yaml"
    ≡ launched result added
unfolding given result apply_default defaults_of default_cert default_config_map default_service
    default_node checked valid_cert valid_pod valid_ecs_node valid_node set_defaults or_default
    node_in without_error with_own_namespaces with_namespace default_pod default_ecs_node or_else
    main config_read load_from_yaml unmarshalled defaults_applied controllers_set_up
    setup_controllers set_up_for new_pod complete add add_service add_configmap make_client
    add_secret add_node then_do subscribed join_topic subscribe subscribe_free topic_of insert
    lookup joined_topics joined
started_up = refl

main-AreWanted_example :
    ((loaded : Option Config) × (load_from_yaml Config only_file parse "config.yaml" ≡ some loaded)
      × (apply_default loaded "kube-system" ≡ some result))
    × (env "NAMESPACE" ≢ "")
    × IsValid "kube-system" result
    × AreWanted ℕ accepts accepts true true true result added
main-AreWanted_example =
    main-AreWanted ℕ accepts accepts true true true Config only_file parse env "config.yaml" result
      added started_up
