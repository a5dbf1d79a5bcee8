-- ===== src/Controller/SecretSync/Config.antt =====
-- The configuration of the secret controller, with its defaults, the events that it lets through, and
-- the certificates that it asks for.
use etcdauto.Prelude.{
  ℕ, zero, suc, String, Bool, true, false, not, ◌&&◌, Option, none, some, Map, lookup, insert,
  is_some, is_empty, List, [], ◌∷◌, ◌==◌, if◌then◌else◌,
}
use etcdauto.Certs.Authority.{CaConfig, ClientCertConfig}
use etcdauto.Certs.Api.{Done}

-- A negative number of years, which is treated as 0 is, is 0.
pub record CertConfig : Type 0 where
  pub enabled : Bool
  pub ca_secret_name : String
  pub ca_secret_namespace : String
  pub client_secret_name : String
  pub client_secret_namespaces : List String
  pub validity_years : ℕ
  pub organization : String
  pub common_name : String
  pub client_secret_namespace_set : Map Done

unfoldable pub or_else : String → String → String
or_else text default = if text == "" then default else text

unfoldable pub default_years : ℕ → ℕ
default_years zero = 100
default_years (suc n) = suc n

unfoldable pub set_of : List String → Map Done → Map Done
set_of [] m = m
set_of (ns ∷ rest) m = set_of rest (insert ns tt m)

unfoldable pub with_defaults : CertConfig → CertConfig
unfolding or_else default_years set_of
with_defaults c = record {
  enabled = c.enabled;
  ca_secret_name = c.ca_secret_name;
  ca_secret_namespace = c.ca_secret_namespace;
  client_secret_name = c.client_secret_name;
  client_secret_namespaces = c.client_secret_namespaces;
  validity_years = default_years c.validity_years;
  organization = or_else c.organization "etcdauto";
  common_name = or_else c.common_name "etcdauto-ca";
  client_secret_namespace_set = set_of c.client_secret_namespaces [];
}

-- `none` is an error; else the configuration as Valid leaves it
unfoldable pub valid_cert : CertConfig → Option CertConfig
unfolding with_defaults
valid_cert c =
    if not c.enabled
    then some c
    else if c.ca_secret_name == ""
    then none
    else if c.client_secret_name == ""
    then none
    else if is_empty c.client_secret_namespaces
    then none
    else some (with_defaults c)

-- The objects that the controller is told of
pub data Object : Type 0 where
  namespace_object : String → Object
  secret_object : String → String → Object
  other_object : Object

-- `unifiedPredicate`
unfoldable pub unified_predicate : CertConfig → Object → Bool
unified_predicate c (namespace_object name) = true
unified_predicate c (secret_object ns name) =
    (name == c.client_secret_name) && is_some (lookup ns c.client_secret_namespace_set)
unified_predicate c other_object = false

-- The requests, as namespace and name, that an event of a namespace is mapped to
unfoldable pub namespace_requests : CertConfig → String → List (String × String)
namespace_requests c ns =
    if is_some (lookup ns c.client_secret_namespace_set)
    then (ns, c.client_secret_name) ∷ []
    else []

unfoldable pub ca_config : CertConfig → CaConfig
ca_config c = record {
  common_name = c.common_name;
  organization = c.organization;
  validity_years = c.validity_years;
}

unfoldable pub client_config : CertConfig → ClientCertConfig
client_config c = record {
  common_name = "etcd-client";
  organization = c.organization;
  dns_names = "127.0.0.1" ∷ "localhost" ∷ [];
  ip_addresses = "127.0.0.1" ∷ [];
  validity_years = c.validity_years;
}
