-- ===== src/Setup/Settings/Loading.antt =====
-- What holds of a configuration that `loadConfig` of cmd/etcdcluster/main.go returns.
use etcdauto.Prelude.{
  ℕ, ◌<◌, String, ◌≡◌, refl, subst, ◌≢◌, Bool, true, false, not, Option, none, some, List, is_empty,
  eqb, eq_iff, ◌==◌, arith, if◌then◌else◌,
}
use etcdauto.Setup.Network.{
  Addr, Extracted, no_interfaces, no_addresses, extracted, extract_network_info,
}
use etcdauto.Setup.PodName.{parse_pod_name}
use etcdauto.Setup.Settings.{
  Settings, Loaded, loaded, Atoi, not_int, negative, natural, atoi, missing, interface_names,
  required, read_settings, network_of, with_network, with_name, with_max, load_config,
}

module _ (env : String → String) (absent : String → Bool)
    (addresses : String → Option (List Addr)) where
  abbrev pub IsUsable : Settings → Type 0
  IsUsable s =
      (s.pod_name ≢ "")
      × (s.pod_namespace ≢ "")
      × (s.service_name ≢ "")
      × (s.node_ip_dir ≢ "")
      × (0 < s.max)
      × (is_empty s.interfaces ≡ false)
      × (parse_pod_name s.pod_name ≡ some (s.prefix, s.my_index))
      × (absent s.ca_file ≡ false)
      × (absent s.ca_key_file ≡ false)
      × (is_empty s.my_ips ≡ false)

  abbrev Sound : Loaded → Type 0
  Sound (loaded s) = IsUsable s
  Sound _ = Unit

  Sound-if :
      (b : Bool) (x y : Loaded)
      → (b ≡ true → Sound x)
      → (b ≡ false → Sound y)
      → Sound (if b then x else y)
  Sound-if true x y f g = f refl
  Sound-if false x y f g = g refl

  -- Nothing required is missing.
  abbrev Complete : Settings → Type 0
  Complete s =
      (s.pod_name ≢ "") × (s.pod_namespace ≢ "") × (s.service_name ≢ "") × (s.node_ip_dir ≢ "")

  required_given :
      is_empty (missing (required env absent addresses)) ≡ true
      → Complete (read_settings env absent addresses)
  unfolding missing read_settings
  required_given e = ground (
    arith,
    e,
    eq_iff (env "POD_NAME") "",
    eq_iff (env "NAMESPACE") "",
    eq_iff (env "SERVICE_NAME") "",
    eq_iff (env "NODEIP_DIR") "",
  )

  with_network-Sound :
      (s : Settings) (x : Extracted)
      → Complete s
      → 0 < s.max
      → is_empty s.interfaces ≡ false
      → parse_pod_name s.pod_name ≡ some (s.prefix, s.my_index)
      → absent s.ca_file ≡ false
      → absent s.ca_key_file ≡ false
      → Sound (with_network env absent addresses s x)
  unfolding with_network
  with_network-Sound s no_interfaces c p i e ca key = tt
  with_network-Sound s no_addresses c p i e ca key = tt
  with_network-Sound s (extracted info) (c0, c1, c2, c3) p i e ca key =
      Sound-if (is_empty info.ips) _ _ (λ t. tt) λ ips. (c0, c1, c2, c3, p, i, e, ca, key, ips)

  with_name-Sound :
      (s : Settings) (o : Option (String × ℕ))
      → parse_pod_name s.pod_name ≡ o
      → Complete s
      → 0 < s.max
      → is_empty s.interfaces ≡ false
      → Sound (with_name env absent addresses s o)
  unfolding with_name
  with_name-Sound s none e c p i = tt
  with_name-Sound s (some (prefix, index)) e c p i =
      Sound-if (absent s.ca_file) _ _ (λ t. tt)
        λ ca.
          Sound-if (absent s.ca_key_file) _ _ (λ t. tt)
            λ key.
              with_network-Sound (record s { prefix = prefix; my_index = index })
                (extract_network_info addresses (network_of env absent addresses s)) c p i e ca key

  with_max-Sound :
      (s : Settings) (a : Atoi) → Complete s → Sound (with_max env absent addresses s a)
  unfolding with_max
  with_max-Sound s not_int c = tt
  with_max-Sound s negative c = tt
  with_max-Sound s (natural n) c =
      Sound-if (eqb n 0) _ _ (λ t. tt)
        λ positive.
          Sound-if (is_empty (interface_names (env "INTERFACES"))) _ _ (λ t. tt)
            λ given.
              with_name-Sound
                (record s { max = n; interfaces = interface_names (env "INTERFACES") })
                (parse_pod_name s.pod_name) refl c (ground (arith, positive)) given

  load_config-Sound : Sound (load_config env absent addresses)
  unfolding load_config
  load_config-Sound =
      Sound-if (not (is_empty (missing (required env absent addresses)))) _ _ (λ t. tt)
        λ given.
          Sound-if (env "MAX" == "") _ _ (λ t. tt)
            λ max.
              with_max-Sound (read_settings env absent addresses) (atoi (env "MAX"))
                (required_given (ground (arith, given)))

-- A configuration that loads is usable: the pod's name, namespace and service and the IP directory
-- are set, MAX is positive, there are interfaces and addresses, the index and the prefix are those of
-- the pod's name, and neither CA file is missing.
pub load_config-IsUsable :
    (env : String → String) (absent : String → Bool) (addresses : String → Option (List Addr))
    (s : Settings)
    → load_config env absent addresses ≡ loaded s
    → IsUsable env absent addresses s
load_config-IsUsable env absent addresses s e =
    subst (Sound env absent addresses) e (load_config-Sound env absent addresses)
