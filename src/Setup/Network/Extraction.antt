-- ===== src/Setup/Network/Extraction.antt =====
-- What `ExtractNetworkInfo` of pkg/init/network.go extracts: which address of which interface.
use etcdauto.Prelude.{
  String, ◌≡◌, refl, sym, ap, ◌∙◌, ◌≢◌, ◌⊎◌, true, false, Option, none, some, List, [], ◌∷◌, ◌++◌,
  map, is_empty, ◌!=◌, arith, if_true, if_false, if◌then◌else◌, Bool-cases, inl, inr, All,
  Option-cases, eqb_iff,
}
use etcdauto.Setup.Network.{
  NetworkConfig, NetworkInfo, Addr, ip_net, ip_addr, no_interfaces, no_addresses, extracted, usable,
  or_next, first_address, url, add_url, addressed, get_interface_ip, add_interface, extract_ips,
  no_info, extract_network_info, add_ip, ips_of_interfaces,
}

-- The address is this IPv4 address, and its mask, if it has one, is not one of 32 bits of 32.
abbrev pub IsUsableAs : Addr → String → Type 0
IsUsableAs (ip_net ip v4 ones bits) x = (ip ≡ x) × (v4 ≡ true) × (¬ ((bits ≡ 32) × (ones ≡ 32)))
IsUsableAs (ip_addr ip v4) x = (ip ≡ x) × (v4 ≡ true)

abbrev pub IsUnusable : Addr → Type 0
IsUnusable a = (x : String) → ¬ IsUsableAs a x

-- Of these addresses this one is the first that is usable.
abbrev pub IsFirst : List Addr → String → Type 0
IsFirst found ip =
    (before : List Addr) × (a : Addr) × (after : List Addr) × (found ≡ before ++ (a ∷ after))
    × All IsUnusable before
    × IsUsableAs a ip

-- A list of URLs is empty without a port, and otherwise has one URL for each address.
abbrev pub urls_for : String → List String → List String
urls_for port ips = if port != "" then map (λ ip. url ip port) ips else []

append_nil : (xs : List String) → xs ++ [] ≡ xs
append_nil [] = refl
append_nil (x ∷ xs) = ap (λ t. x ∷ t) (append_nil xs)

append_snoc :
    (xs : List String) (y : String) (ys : List String) → (xs ++ (y ∷ [])) ++ ys ≡ xs ++ (y ∷ ys)
append_snoc [] y ys = refl
append_snoc (x ∷ xs) y ys = ap (λ t. x ∷ t) (append_snoc xs y ys)

urls_none : (port : String) → urls_for port [] ≡ []
urls_none port = ground arith

add_url-urls :
    (port ip : String) (ips urls : List String)
    → add_url port ip urls ++ urls_for port ips ≡ urls ++ urls_for port (ip ∷ ips)
unfolding add_url
add_url-urls port ip ips urls = elim (Bool-cases (port != "")) [
  | inl given ↦ rw given (append_snoc urls (url ip port) (map (λ i. url i port) ips))
  | inr blank ↦ rw blank refl
]

module _ (addresses : String → Option (List Addr)) where
  -- The interface cannot be read, or has no usable address.
  abbrev pub HasNone : String → Type 0
  HasNone name = (found : List Addr) → addresses name ≡ some found → All IsUnusable found

  abbrev pub HasFirst : String → String → Type 0
  HasFirst name ip = (found : List Addr) × (addresses name ≡ some found) × IsFirst found ip

  -- The first usable addresses of the interfaces that have one, in the order of the interfaces
  abbrev pub IsPicked : List String → List String → Type 0
  IsPicked [] ips = ips ≡ []
  IsPicked (name ∷ names) ips =
      (HasNone name × IsPicked names ips)
      ⊎ ((ip : String) × (rest : List String) × (ips ≡ ip ∷ rest)
          × HasFirst name ip
          × IsPicked names rest)

  usable-some : (a : Addr) (ip : String) → usable a ≡ some ip → IsUsableAs a ip
  unfolding usable
  usable-some (ip_net i v4 ones bits) ip h = ground (arith, h, eqb_iff bits 32, eqb_iff ones 32)
  usable-some (ip_addr i v4) ip h = ground (arith, h)

  usable-none : (a : Addr) → usable a ≡ none → IsUnusable a
  unfolding usable
  usable-none (ip_net i v4 ones bits) h x =
      λ (same, is_v4, other). ground (arith, h, is_v4, other, eqb_iff bits 32, eqb_iff ones 32)
  usable-none (ip_addr i v4) h x = λ (same, is_v4). ground (arith, h, is_v4)

  first_address-none : (found : List Addr) → first_address found ≡ none → All IsUnusable found
  unfolding first_address or_next
  first_address-none [] h = tt
  first_address-none (a ∷ more) h = elim (Option-cases (usable a)) [
    | inl e ↦ (usable-none a e, first_address-none more (rw e at h))
    | inr (ip, e) ↦ ground (arith, h, e)
  ]

  first_address-some :
      (found : List Addr) (ip : String) → first_address found ≡ some ip → IsFirst found ip
  unfolding first_address or_next
  first_address-some [] ip h = ground (arith, h)
  first_address-some (a ∷ more) ip h = elim (Option-cases (usable a)) [
    | inl e ↦
        let (before, b, after, split, unusable, is_b) = first_address-some more ip (rw e at h) in
        (a ∷ before, b, after, ap (λ t. a ∷ t) split, (usable-none a e, unusable), is_b)
    | inr (i, e) ↦ ([], a, more, refl, tt, usable-some a ip (e ∙ (rw e at h)))
  ]

  interface_none : (name : String) → get_interface_ip addresses name ≡ none → HasNone name
  unfolding get_interface_ip addressed
  interface_none name h found e = first_address-none found (rw e at h)

  interface_some : (name ip : String) → get_interface_ip addresses name ≡ some ip → HasFirst name ip
  unfolding get_interface_ip addressed
  interface_some name ip h = elim (Option-cases (addresses name)) [
    | inl e ↦ ground (arith, h, e)
    | inr (found, e) ↦ (found, e, first_address-some found ip (rw e at h))
  ]

  ips_of_interfaces-IsPicked :
      (names : List String) → IsPicked names (ips_of_interfaces addresses names)
  unfolding ips_of_interfaces add_ip
  ips_of_interfaces-IsPicked [] = refl
  ips_of_interfaces-IsPicked (name ∷ names) =
      elim (Option-cases (get_interface_ip addresses name)) [
        | inl e ↦ rw e (inl (interface_none name e, ips_of_interfaces-IsPicked names))
        | inr (ip, e) ↦
            rw e (inr (ip, _, refl, interface_some name ip e, ips_of_interfaces-IsPicked names))
      ]

  -- The addresses of the interfaces, after some addresses
  abbrev Follows : NetworkConfig → NetworkInfo → List String → NetworkInfo → Type 0
  Follows cfg info ips after =
      (after.ips ≡ info.ips ++ ips)
      × (after.peer_urls ≡ info.peer_urls ++ urls_for cfg.peer_port ips)
      × (after.client_urls ≡ info.client_urls ++ urls_for cfg.client_port ips)
      × (after.client_http_urls ≡ info.client_http_urls ++ urls_for cfg.client_http_port ips)

  add_interface-Follows :
      (cfg : NetworkConfig) (o : Option String) (info after : NetworkInfo) (ips : List String)
      → Follows cfg (add_interface addresses cfg o info) ips after
      → Follows cfg info (add_ip addresses o ips) after
  unfolding add_interface add_ip
  add_interface-Follows cfg none info after ips f = f
  add_interface-Follows cfg (some ip) info after ips (a, b, c, d) = (
    a ∙ append_snoc info.ips ip ips,
    b ∙ add_url-urls cfg.peer_port ip ips info.peer_urls,
    c ∙ add_url-urls cfg.client_port ip ips info.client_urls,
    d ∙ add_url-urls cfg.client_http_port ip ips info.client_http_urls,
  )

  extract_ips-Follows :
      (cfg : NetworkConfig) (names : List String) (info : NetworkInfo)
      → Follows cfg info (ips_of_interfaces addresses names) (extract_ips addresses cfg names info)
  unfolding extract_ips ips_of_interfaces
  extract_ips-Follows cfg [] info = (
    sym (append_nil info.ips),
    sym (ap (λ t. info.peer_urls ++ t) (urls_none cfg.peer_port) ∙ append_nil info.peer_urls),
    sym (ap (λ t. info.client_urls ++ t) (urls_none cfg.client_port) ∙ append_nil info.client_urls),
    sym (
        ap (λ t. info.client_http_urls ++ t) (urls_none cfg.client_http_port)
        ∙ append_nil info.client_http_urls),
  )
  extract_ips-Follows cfg (name ∷ names) info =
      let next = add_interface addresses cfg (get_interface_ip addresses name) info in
      add_interface-Follows cfg (get_interface_ip addresses name) info
        (extract_ips addresses cfg names next) (ips_of_interfaces addresses names)
        (extract_ips-Follows cfg names next)

  interfaces_given :
      (names : List String) → ips_of_interfaces addresses names ≢ [] → is_empty names ≡ false
  unfolding ips_of_interfaces
  interfaces_given [] found = absurd (found refl)
  interfaces_given (name ∷ names) found = refl

not_empty : (xs : List String) → xs ≢ [] → is_empty xs ≡ false
not_empty [] found = absurd (found refl)
not_empty (x ∷ xs) found = refl

module _ (addresses : String → Option (List Addr)) (cfg : NetworkConfig) where
  -- The result, by the addresses that are picked
  abbrev pub Extracts : List String → Type 0
  Extracts ips =
      (ips ≢ []
        → extract_network_info addresses cfg
          ≡ extracted (record {
            ips = ips;
            peer_urls = urls_for cfg.peer_port ips;
            client_urls = urls_for cfg.client_port ips;
            client_http_urls = urls_for cfg.client_http_port ips;
          }))
      × (ips ≡ []
          → extract_network_info addresses cfg
            ≡ (if is_empty cfg.interfaces then no_interfaces else no_addresses))

-- The extraction succeeds exactly when some configured interface has a usable address, an IPv4 address
-- whose mask is not one of 32 bits of 32. It then gives the first usable address of each interface that
-- has one, in the order of the interfaces, and for each kind of URL one for each address, in that order,
-- or none where its port is empty.
pub extract_network_info_lem :
    (addresses : String → Option (List Addr)) (cfg : NetworkConfig)
    → (ips : List String) × IsPicked addresses cfg.interfaces ips × Extracts addresses cfg ips
unfolding extract_network_info
extract_network_info_lem addresses cfg =
    let info = extract_ips addresses cfg cfg.interfaces (no_info addresses) in
    let (a, b, c, d) = extract_ips-Follows addresses cfg cfg.interfaces (no_info addresses) in
    (
      ips_of_interfaces addresses cfg.interfaces,
      ips_of_interfaces-IsPicked addresses cfg.interfaces,
      (
        λ found.
            if_false (is_empty cfg.interfaces) _ _ (interfaces_given addresses cfg.interfaces found)
            ∙ if_false (is_empty info.ips) _ _ (ap is_empty a ∙ not_empty _ found)
            ∙ ap extracted (λ i. record {
              ips = a i;
              peer_urls = b i;
              client_urls = c i;
              client_http_urls = d i;
            }),
        λ e.
            ap (λ t. if is_empty cfg.interfaces then no_interfaces else t)
              (if_true (is_empty info.ips) _ _ (ap is_empty (a ∙ e))),
      ),
    )
