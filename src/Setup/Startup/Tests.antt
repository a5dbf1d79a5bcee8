-- ===== src/Setup/Startup/Tests.antt =====
-- Runs of the set-up in memory.
use etcdauto.Prelude.{
  ◌⊎◌, split, trim_space, ℕ, String, ◌≡◌, refl, Bool, true, false, Option, none, some, List, [],
  ◌∷◌, Map, lookup, arith, ◌==◌, eq_iff, if◌then◌else◌,
}
use etcdauto.Certs.Memory.{texts}
use etcdauto.Setup.Startup.Memory.{put, store, disk}
use etcdauto.Setup.Files.{◌>>>◌}
use etcdauto.Setup.Network.{Addr, ip_net, extract_network_info, get_interface_ip}
use etcdauto.Setup.Settings.{load_config, atoi, interface_names, Settings, get_env_or_default}
use etcdauto.Setup.Certificate.{
  CertConfig, cert_file, key_file, create_cert_template, parse_ips, ca_certificate_of,
  signer_of_block, load_ca_certificate, load_ca_private_key, load_ca, write_cert_files, copy_file,
  copy_ca_cert, generate, generate_certificate,
}
use etcdauto.Setup.Certificate.Generated.{
  Apart, Generated, generate_certificate-Generated, generate_certificate-again,
  write_cert_files-generate_certificate,
}
use etcdauto.Setup.Environment.{
  env_vars, set_all, create_all, setup_environment, create_directories, write_etcdctl_env_file,
  write_readyz_script, write_livez_script,
}
use etcdauto.Setup.Environment.Variables.{setup_environment_lem}
use etcdauto.Setup.Startup.Main.{running, main, main-Ready}
use etcdauto.Setup.Settings.Loading.{IsUsable}
use etcdauto.Setup.PodName.{parse_pod_name}
use etcdauto.Setup.Startup.{
  cert_config, env_config, network_info, env_path, readyz_path, livez_path, write_scripts, set_up,
  initialize_environment,
}
use etcdauto.Setup.Startup.Pairs.{different, PairKept}
use etcdauto.Setup.Startup.Ready.{Ready, initialize_environment-Ready}

abbrev never : String → Bool
never path = false

abbrev settings : Settings
settings = record {
  pod_name = "etcd-0";
  pod_namespace = "kube-system";
  service_name = "etcd";
  cli_name = "etcd-cli";
  max = 3;
  client_port = "2479";
  client_http_port = "2481";
  peer_port = "2480";
  data_dir = "/run/etcd/data";
  cert_dir = "/run/etcd/ssl";
  node_ip_dir = "/run/nodes";
  ca_file = "/run/ssl/ca.pem";
  ca_key_file = "/run/ssl/ca-key.pem";
  interfaces = "eth0" ∷ [];
  labels = "component=etcd";
  prefix = "etcd";
  my_index = 0;
  my_ips = "10.0.0.2" ∷ [];
}

abbrev cfg : CertConfig
cfg = cert_config settings

-- The authority is on the disk; no variable is set.
abbrev start : (disk never).State
unfolding disk
start = record {
  files = λ p.
      if p == "/run/ssl/ca.pem"
      then some ("CERTIFICATE" ∷ "ca" ∷ [])
      else if p == "/run/ssl/ca-key.pem"
      then some ("EC PRIVATE KEY" ∷ "ca key" ∷ [])
      else none;
  vars = λ k. "";
}

abbrev after : (disk never).State
after = (generate_certificate texts (disk never) 7 cfg start).1

cfg-Apart : Apart cfg
cfg-Apart = (
  ground (arith, eq_iff (cert_file cfg) (key_file cfg)),
  ground (arith, eq_iff (cert_file cfg) "/run/etcd/ssl/ca.pem"),
  ground (arith, eq_iff (key_file cfg) "/run/etcd/ssl/ca.pem"),
)

generate_certificate-Generated_example : Generated texts (disk never) 7 cfg start after
unfolding generate_certificate generate load_ca load_ca_certificate load_ca_private_key
    ca_certificate_of signer_of_block write_cert_files copy_ca_cert copy_file ◌>>>◌ disk texts store
    put create_cert_template parse_ips start
generate_certificate-Generated_example =
    generate_certificate-Generated texts (disk never) 7 cfg start after cfg-Apart refl refl refl

generate_certificate-again_example :
    generate_certificate texts (disk never) 8 cfg after ≡ (some tt, after)
unfolding generate_certificate generate load_ca load_ca_certificate load_ca_private_key
    ca_certificate_of signer_of_block write_cert_files copy_ca_cert copy_file ◌>>>◌ disk texts store
    put create_cert_template parse_ips start
generate_certificate-again_example =
    generate_certificate-again texts (disk never) 7 8 cfg start after cfg-Apart refl refl

-- No room is left for the key.
abbrev no_key : String → Bool
no_key path = path == key_file cfg

abbrev full_start : (disk no_key).State
unfolding disk start
full_start = start

abbrev issued : texts.Bytes
unfolding texts
issued = "etcd-0" ∷ "ca" ∷ []

abbrev key_bytes : texts.Bytes
unfolding texts
key_bytes = "key" ∷ []

abbrev own : texts.Key
unfolding texts
own = "key"

abbrev certificate_created : (disk no_key).State
certificate_created = ((disk no_key).create (cert_file cfg) full_start).1

abbrev certificate_written : (disk no_key).State
certificate_written =
    ((disk no_key).write (cert_file cfg) (texts.encode "CERTIFICATE" issued) certificate_created).1

abbrev key_created : (disk no_key).State
key_created = ((disk no_key).create (key_file cfg) certificate_written).1

abbrev key_failed : (disk no_key).State
key_failed =
    ((disk no_key).write (key_file cfg) (texts.encode "EC PRIVATE KEY" key_bytes) key_created).1

write_cert_files-generate_certificate_example :
    (write_cert_files texts (disk no_key) (cert_file cfg) (key_file cfg) issued own full_start
      ≡ (none, key_failed))
    × (generate_certificate texts (disk no_key) 8 cfg key_failed ≡ (some tt, key_failed))
unfolding disk store put texts full_start issued key_bytes own
write_cert_files-generate_certificate_example =
    write_cert_files-generate_certificate texts (disk no_key) 8 cfg issued key_bytes own full_start
      certificate_created certificate_written key_created key_failed
      (ground (arith, eq_iff (cert_file cfg) (key_file cfg))) refl refl refl refl refl

abbrev addresses : String → Option (List Addr)
addresses name = some (ip_net "10.0.0.2" true 24 32 ∷ [])

abbrev in_order : Map String → Map String
in_order m = m

abbrev itoa : ℕ → String
itoa n = "3"

abbrev ready : (disk never).State
ready = (initialize_environment texts (disk never) in_order itoa addresses 7 settings start).1

initialize_environment-Ready_example :
    Ready texts (disk never) addresses settings ((disk never).env start) ready
    × (PairKept texts (disk never) settings start ready
        ⊎ Generated texts (disk never) 7 cfg start ready)
unfolding initialize_environment set_up create_directories create_all generate_certificate generate
    load_ca load_ca_certificate load_ca_private_key ca_certificate_of signer_of_block
    write_cert_files copy_ca_cert copy_file ◌>>>◌ disk texts store put create_cert_template
    parse_ips start network_info extract_network_info get_interface_ip setup_environment set_all
    env_vars write_scripts write_etcdctl_env_file write_readyz_script write_livez_script env_path
    readyz_path livez_path get_env_or_default different
initialize_environment-Ready_example =
    initialize_environment-Ready texts (disk never) in_order itoa addresses 7 settings start ready
      (λ m u. (u, λ k. refl)) refl refl refl

setup_environment_lem_example :
    let cfg =
      env_config settings
        (record { ips = []; peer_urls = []; client_urls = []; client_http_urls = [] }) in
    let s' = (setup_environment texts (disk never) in_order itoa cfg start).1 in
    ((k v : String) → lookup k (env_vars itoa cfg) ≡ some v → (disk never).env s' k ≡ v)
    × ((k : String)
        → lookup k (env_vars itoa cfg) ≡ none
        → (disk never).env s' k ≡ (disk never).env start k)
    × ((q : String)
        → ((disk never).content s' q ≡ (disk never).content start q)
          × ((disk never).exists s' q ≡ (disk never).exists start q))
unfolding setup_environment set_all env_vars ◌>>>◌ disk texts start
setup_environment_lem_example =
    setup_environment_lem texts (disk never) in_order itoa
      (env_config settings
        (record { ips = []; peer_urls = []; client_urls = []; client_http_urls = [] }))
      start
      (setup_environment texts (disk never) in_order itoa
        (env_config settings
          (record { ips = []; peer_urls = []; client_urls = []; client_http_urls = [] }))
        start).1
      (λ m u. (u, λ k. refl)) refl

-- The variables of the pod; the others are not set.
abbrev variables : String → String
variables k =
    if k == "POD_NAME"
    then "etcd-0"
    else if k == "NAMESPACE"
    then "kube-system"
    else if k == "SERVICE_NAME"
    then "etcd"
    else if k == "CLI_NAME"
    then "etcd-cli"
    else if k == "NODEIP_DIR"
    then "/run/nodes"
    else if k == "MAX"
    then "3"
    else if k == "INTERFACES"
    then "eth0"
    else ""

abbrev pod_start : (disk never).State
unfolding disk start
pod_start = record start { vars = variables }

abbrev absent : (disk never).State → String → Bool
absent s path = false

abbrev look_path : (disk never).State → Option String
look_path s = some "/usr/bin/etcd"

abbrev pod_ready : (disk never).State
pod_ready =
    (initialize_environment texts (disk never) in_order itoa addresses 7 settings pod_start).1

pod_runs :
    main texts (disk never) in_order itoa addresses absent look_path 7 pod_start
    ≡ running settings "/usr/bin/etcd" pod_ready
unfolding main load_config atoi interface_names split trim_space parse_pod_name
    initialize_environment set_up create_directories create_all generate_certificate generate
    load_ca load_ca_certificate load_ca_private_key ca_certificate_of signer_of_block
    write_cert_files copy_ca_cert copy_file ◌>>>◌ disk texts store put create_cert_template
    parse_ips start pod_start network_info extract_network_info get_interface_ip setup_environment
    set_all env_vars write_scripts write_etcdctl_env_file write_readyz_script write_livez_script
    env_path readyz_path livez_path get_env_or_default
pod_runs = refl

main-Ready_example :
    IsUsable ((disk never).env pod_start) (absent pod_start) addresses settings
    × Ready texts (disk never) addresses settings ((disk never).env pod_start) pod_ready
    × (PairKept texts (disk never) settings pod_start pod_ready
        ⊎ Generated texts (disk never) 7 cfg pod_start pod_ready)
unfolding different env_path readyz_path livez_path get_env_or_default disk pod_start start texts
    create_cert_template parse_ips
main-Ready_example =
    main-Ready texts (disk never) in_order itoa addresses absent look_path 7 settings
      "/usr/bin/etcd" pod_start pod_ready (λ m u. (u, λ k. refl)) refl refl pod_runs
