-- ===== src/Setup/Tests.antt =====
-- Concrete runs of the set-up of a pod.
use etcdauto.Prelude.{
  eq_iff, String, ◌≡◌, refl, true, false, Option, none, some, List, [], ◌∷◌, ◌==◌, arith,
  if◌then◌else◌,
}
use etcdauto.Setup.Network.{
  NetworkConfig, Addr, ip_net, ips_of_interfaces, get_interface_ip, get_interfaces_by_prefix,
  get_ips_by_prefix,
}
use etcdauto.Setup.Network.Extraction.{IsPicked, Extracts, extract_network_info_lem}
use etcdauto.Setup.PodName.{parse_pod_name, all_digits, number_of, parse_pod_name-append}

abbrev addresses : String → Option (List Addr)
addresses name =
    if name == "eth0"
    then some (
        ip_net "fe80::1" false 64 128
        ∷ ip_net "10.0.0.9" true 32 32
        ∷ ip_net "10.0.0.2" true 24 32
        ∷ [])
    else none

abbrev network : NetworkConfig
network = record {
  interfaces = "eth0" ∷ "eth1" ∷ [];
  client_port = "2479";
  client_http_port = "";
  peer_port = "2480";
}

extract_network_info_lem_example :
    (ips : List String) × IsPicked addresses network.interfaces ips × Extracts addresses network ips
extract_network_info_lem_example = extract_network_info_lem addresses network

first_usable_address : ips_of_interfaces addresses network.interfaces ≡ "10.0.0.2" ∷ []
unfolding ips_of_interfaces get_interface_ip
first_usable_address = refl

-- Of two interfaces with the prefix, one has a usable address.
addresses_by_prefix :
    get_ips_by_prefix addresses (some ("lo" ∷ "eth0" ∷ "eth1" ∷ [])) "eth" ≡ some ("10.0.0.2" ∷ [])
unfolding get_ips_by_prefix get_interfaces_by_prefix ips_of_interfaces get_interface_ip
addresses_by_prefix = refl

parse_pod_name-append_example : parse_pod_name "my-etcd-12" ≡ some ("my-etcd", number_of 0 "12")
unfolding number_of all_digits
parse_pod_name-append_example =
    parse_pod_name-append "my-etcd" "12" (ground (arith, eq_iff "12" "")) refl (omega arith)
