-- ===== src/Setup/Settings.antt =====
-- `loadConfig` of cmd/etcdcluster/main.go with the functions that it calls, and MustAtoi of
-- pkg/util/tool.go. The environment, the files that are missing, and the addresses of the network
-- interfaces are arguments.
pub mod Loading
use Prim.Native.Char.{code}
use etcdauto.Prelude.{
  ℕ, ◌+◌, String, Bool, true, false, not, ◌&&◌, ◌||◌, Option, none, some, List, [], ◌∷◌, map, split,
  trim_space, is_empty, ltb, eqb, ◌==◌, if◌then◌else◌,
}
use etcdauto.Setup.Network.{
  NetworkConfig, NetworkInfo, Addr, Extracted, no_interfaces, no_addresses, extracted,
  extract_network_info,
}
use etcdauto.Setup.PodName.{all_digits, number_of, max_int, parse_pod_name}

-- The Config of cmd/etcdcluster/main.go
pub record Settings : Type 0 where
  pub pod_name : String
  pub pod_namespace : String
  pub service_name : String
  pub cli_name : String
  pub max : ℕ
  pub client_port : String
  pub client_http_port : String
  pub peer_port : String
  pub data_dir : String
  pub cert_dir : String
  pub node_ip_dir : String
  pub ca_file : String
  pub ca_key_file : String
  pub interfaces : List String
  pub labels : String
  pub prefix : String
  pub my_index : ℕ
  pub my_ips : List String

pub data SettingsError : Type 0 where
  env_missing : List String → SettingsError
  max_missing max_not_positive interfaces_missing pod_name_invalid : SettingsError
  ca_missing ca_key_missing network_failed no_ips : SettingsError

pub data Loaded : Type 0 where
  loaded : Settings → Loaded
  rejected : SettingsError → Loaded
  panicked : Loaded

-- strconv.Atoi: an error, a number below zero, or another one
pub data Atoi : Type 0 where
  not_int negative : Atoi
  natural : ℕ → Atoi

unfoldable digits_up_to : ℕ → String → Atoi
digits_up_to limit s =
    if s == "" || not (all_digits s) || ltb limit (number_of 0 s)
    then not_int
    else natural (number_of 0 s)

unfoldable negated : Atoi → Atoi
negated (natural n) = if eqb n 0 then natural 0 else negative
negated _ = not_int

unfoldable pub atoi : String → Atoi
unfolding digits_up_to negated all_digits number_of
atoi String.[] = not_int
atoi (String.◌∷◌ c s) =
    if eqb (code c) b'-'
    then negated (digits_up_to (max_int + 1) s)
    else if eqb (code c) b'+'
    then digits_up_to max_int s
    else digits_up_to max_int (String.◌∷◌ c s)

-- The names of the variables without a value
unfoldable pub missing : List (String × String) → List String
missing [] = []
missing ((name, value) ∷ vars) =
    let rest = missing vars in if value == "" then name ∷ rest else rest

unfoldable pub interface_names : String → List String
interface_names s = if s == "" then [] else map trim_space (split b',' s)

-- Over the variables of the process
unfoldable pub get_env_or_default : (String → String) → String → String → String
get_env_or_default env key default = if env key == "" then default else env key

module _ (env : String → String) (absent : String → Bool)
    (addresses : String → Option (List Addr)) where
  abbrev pub required : List (String × String)
  required =
      ("POD_NAME", env "POD_NAME")
      ∷ ("POD_NAMESPACE", env "NAMESPACE")
      ∷ ("SERVICE_NAME", env "SERVICE_NAME")
      ∷ ("NODEIP_DIR", env "NODEIP_DIR")
      ∷ []

  -- What is read before anything is parsed
  unfoldable pub read_settings : Settings
  unfolding get_env_or_default
  read_settings = record {
    pod_name = env "POD_NAME";
    pod_namespace = env "NAMESPACE";
    service_name = env "SERVICE_NAME";
    cli_name = env "CLI_NAME";
    max = 0;
    client_port = get_env_or_default env "CLIENT_PORT" "2479";
    client_http_port = get_env_or_default env "CLIENT_HTTP_PORT" "2481";
    peer_port = get_env_or_default env "PEER_PORT" "2480";
    data_dir = get_env_or_default env "ETCD_DATA_DIR" "/run/etcd/data";
    cert_dir = get_env_or_default env "CERT_DIR" "/run/etcd/ssl";
    node_ip_dir = env "NODEIP_DIR";
    ca_file = get_env_or_default env "CA_FILE" "/run/ssl/ca.pem";
    ca_key_file = get_env_or_default env "CA_KEY_FILE" "/run/ssl/ca-key.pem";
    interfaces = [];
    labels = get_env_or_default env "LABELS" "component=etcd";
    prefix = "";
    my_index = 0;
    my_ips = [];
  }

  abbrev network_of : Settings → NetworkConfig
  network_of s = record {
    interfaces = s.interfaces;
    client_port = s.client_port;
    client_http_port = s.client_http_port;
    peer_port = s.peer_port;
  }

  unfoldable with_network : Settings → Extracted → Loaded
  with_network s no_interfaces = rejected network_failed
  with_network s no_addresses = rejected network_failed
  with_network s (extracted info) =
      if is_empty info.ips then rejected no_ips else loaded (record s { my_ips = info.ips })

  -- `validateCAFiles` and what follows it
  unfoldable with_name : Settings → Option (String × ℕ) → Loaded
  with_name s none = rejected pod_name_invalid
  with_name s (some (prefix, index)) =
      if absent s.ca_file
      then rejected ca_missing
      else if absent s.ca_key_file
      then rejected ca_key_missing
      else with_network (record s { prefix = prefix; my_index = index })
          (extract_network_info addresses (network_of s))

  unfoldable with_max : Settings → Atoi → Loaded
  with_max s not_int = panicked
  with_max s negative = rejected max_not_positive
  with_max s (natural n) =
      if eqb n 0
      then rejected max_not_positive
      else if is_empty (interface_names (env "INTERFACES"))
      then rejected interfaces_missing
      else with_name (record s { max = n; interfaces = interface_names (env "INTERFACES") })
          (parse_pod_name s.pod_name)

  unfoldable pub load_config : Loaded
  unfolding with_max with_name with_network read_settings missing
  load_config =
      if not (is_empty (missing required))
      then rejected (env_missing (missing required))
      else if env "MAX" == ""
      then rejected max_missing
      else with_max read_settings (atoi (env "MAX"))
