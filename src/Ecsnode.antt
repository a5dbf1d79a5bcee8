-- ===== src/Ecsnode.antt =====
-- cmd/ecsnode/config.go: the configuration of the controllers and its defaults.
pub mod Controllers
pub mod Defaults
pub mod Main
mod Tests
use etcdauto.Prelude.{
  String, Bool, true, false, not, ◌||◌, Option, none, some, Map, any, List, [], ◌∷◌, ◌++◌, ◌==◌,
  if◌then◌else◌,
}
use etcdauto.Certs.Authority.{◌>>=◌}
use etcdauto.Controller.SecretSync.{CertConfig, or_else, valid_cert}
use etcdauto.Controller.EcsNode.{EcsNodeConfig, valid_ecs_node}
use etcdauto.Controller.Service.{ServiceConfig, valid_service}
use etcdauto.Controller.Node.{NodeConfig, valid_node, set_defaults}

pub record ConfigMapConfig : Type 0 where
  pub namespace : String
  pub name : String

pub record PodConfig : Type 0 where
  pub labels : Map String
  pub namespace : String

pub record Config : Type 0 where
  pub cert : CertConfig
  pub configmap : ConfigMapConfig
  pub pod_config : PodConfig
  pub ecs_node : EcsNodeConfig
  pub service_config : ServiceConfig
  pub node : NodeConfig

-- The configuration has no error.
unfoldable valid_config_map : ConfigMapConfig → Bool
valid_config_map c = not (c.name == "" || c.namespace == "")

unfoldable valid_pod : PodConfig → Bool
valid_pod c = not (c.namespace == "")

-- A list with the namespace, which is appended where it is missing
unfoldable with_namespace : String → List String → List String
with_namespace self list = if any (λ ns. ns == self) list then list else list ++ (self ∷ [])

unfoldable with_own_namespaces : String → CertConfig → CertConfig
unfolding with_namespace or_else
with_own_namespaces self c = record {
  enabled = c.enabled;
  ca_secret_name = c.ca_secret_name;
  ca_secret_namespace = or_else c.ca_secret_namespace self;
  client_secret_name = c.client_secret_name;
  client_secret_namespaces = with_namespace self c.client_secret_namespaces;
  validity_years = c.validity_years;
  organization = c.organization;
  common_name = c.common_name;
  client_secret_namespace_set = c.client_secret_namespace_set;
}

-- Each part of ApplyDefault, by the part of the configuration that it sets; `none` is an error.
unfoldable default_cert : String → CertConfig → Option CertConfig
unfolding with_own_namespaces
default_cert self c = if c.enabled then valid_cert (with_own_namespaces self c) else some c

unfoldable config_map_in : String → ConfigMapConfig → ConfigMapConfig
unfolding or_else
config_map_in self c = record { namespace = or_else c.namespace self; name = c.name }

unfoldable default_config_map : String → ConfigMapConfig → Option ConfigMapConfig
unfolding config_map_in valid_config_map
default_config_map self c =
    if c.name == ""
    then some c
    else if valid_config_map (config_map_in self c)
    then some (config_map_in self c)
    else none

unfoldable service_in : String → ServiceConfig → ServiceConfig
unfolding or_else
service_in self c = record {
  publish_not_ready = c.publish_not_ready;
  namespace = or_else c.namespace self;
  name = c.name;
  ports = c.ports;
}

unfoldable default_service : String → ServiceConfig → Option ServiceConfig
unfolding service_in
default_service self c =
    if c.name == ""
    then some c
    else if valid_service (service_in self c)
    then some (service_in self c)
    else none

unfoldable default_ecs_node : String → EcsNodeConfig → EcsNodeConfig
unfolding or_else
default_ecs_node self c = record {
  interfaces = c.interfaces;
  master_if = c.master_if;
  namespace = or_else c.namespace self;
}

unfoldable default_pod : String → PodConfig → PodConfig
unfolding or_else
default_pod self c = record { labels = c.labels; namespace = or_else c.namespace self }

unfoldable node_in : String → NodeConfig → NodeConfig
unfolding or_else
node_in self c = record {
  exclude_labels = c.exclude_labels;
  include_labels = c.include_labels;
  statefulset_name = c.statefulset_name;
  statefulset_namespace = or_else c.statefulset_namespace self;
  min_replicas = c.min_replicas;
  max_replicas = c.max_replicas;
}

unfoldable without_error : {A B : Type 0} → Option A → B → Option B
without_error none b = some b
without_error (some e) b = none

unfoldable default_node : String → NodeConfig → Option NodeConfig
unfolding node_in without_error
default_node self c =
    if c.statefulset_name == ""
    then some c
    else without_error (valid_node (node_in self (set_defaults c))) (node_in self (set_defaults c))

unfoldable checked : {A : Type 0} → (A → Bool) → A → Option A
checked valid a = if valid a then some a else none

unfoldable defaults_of : String → Config → Option Config
unfolding default_cert default_config_map default_service default_ecs_node default_pod default_node
    checked valid_pod
defaults_of self c = do
  cert ← default_cert self c.cert
  configmap ← default_config_map self c.configmap
  service ← default_service self c.service_config
  ecs_node ← checked valid_ecs_node (default_ecs_node self c.ecs_node)
  pod ← checked valid_pod (default_pod self c.pod_config)
  node ← default_node self c.node
  some (record {
    cert = cert;
    configmap = configmap;
    pod_config = pod;
    ecs_node = ecs_node;
    service_config = service;
    node = node;
  })

-- `none` is the nil configuration, and as a result an error.
unfoldable apply_default : Option Config → String → Option Config
unfolding defaults_of
apply_default none self = none
apply_default (some c) self = defaults_of self c
