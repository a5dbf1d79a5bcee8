-- ===== src/Setup/Network.antt =====
-- pkg/init/network.go. What package net answers for an interface is an argument.
pub mod Extraction
use etcdauto.Prelude.{
  String, ◌⧺◌, ◌≡◌, refl, sym, ap, ◌∙◌, ◌≢◌, Bool, false, not, ◌&&◌, Option, none, some, List, [],
  ◌∷◌, ◌++◌, map, ℕ, eqb, is_empty, ◌!=◌, arith, if_true, if_false, if◌then◌else◌, Bool-cases, inl,
  inr, filter,
}
use text.Mathlib.Text.{starts_with}

pub record NetworkConfig : Type 0 where
  pub interfaces : List String
  pub client_port : String
  pub client_http_port : String
  pub peer_port : String

pub record NetworkInfo : Type 0 where
  pub ips : List String
  pub peer_urls : List String
  pub client_urls : List String
  pub client_http_urls : List String

-- net.Addr: the text of its IP, whether that is an IPv4 address, and the mask of an IPNet
pub data Addr : Type 0 where
  ip_net : String → Bool → ℕ → ℕ → Addr
  ip_addr : String → Bool → Addr

pub data Extracted : Type 0 where
  no_interfaces no_addresses : Extracted
  extracted : NetworkInfo → Extracted

-- An IPv4 address that is not one of a mask of 32 bits
unfoldable usable : Addr → Option String
usable (ip_net ip v4 ones bits) =
    if not v4 then none else if eqb bits 32 && eqb ones 32 then none else some ip
usable (ip_addr ip v4) = if not v4 then none else some ip

or_next : Option String → Option String → Option String
or_next none later = later
or_next (some ip) later = some ip

unfoldable first_address : List Addr → Option String
unfolding usable or_next
first_address [] = none
first_address (a ∷ more) = or_next (usable a) (first_address more)

abbrev url : String → String → String
url ip port = "https://" ⧺ (ip ⧺ (":" ⧺ port))

unfoldable add_url : String → String → List String → List String
add_url port ip urls = if port != "" then urls ++ (url ip port ∷ []) else urls

-- An empty list is an error.
unfoldable some_or_error : List String → Option (List String)
some_or_error [] = none
some_or_error (x ∷ xs) = some (x ∷ xs)

module _ (addresses : String → Option (List Addr)) where
  unfoldable addressed : Option (List Addr) → Option String
  addressed none = none
  addressed (some found) = first_address found

  unfoldable pub get_interface_ip : String → Option String
  unfolding addressed first_address
  get_interface_ip name = addressed (addresses name)

  unfoldable add_interface : NetworkConfig → Option String → NetworkInfo → NetworkInfo
  unfolding add_url
  add_interface cfg none info = info
  add_interface cfg (some ip) info = record {
    ips = info.ips ++ (ip ∷ []);
    peer_urls = add_url cfg.peer_port ip info.peer_urls;
    client_urls = add_url cfg.client_port ip info.client_urls;
    client_http_urls = add_url cfg.client_http_port ip info.client_http_urls;
  }

  unfoldable extract_ips : NetworkConfig → List String → NetworkInfo → NetworkInfo
  unfolding add_interface
  extract_ips cfg [] info = info
  extract_ips cfg (name ∷ names) info =
      extract_ips cfg names (add_interface cfg (get_interface_ip name) info)

  abbrev no_info : NetworkInfo
  no_info = record { ips = []; peer_urls = []; client_urls = []; client_http_urls = [] }

  unfoldable pub extract_network_info : NetworkConfig → Extracted
  unfolding extract_ips
  extract_network_info cfg =
      if is_empty cfg.interfaces
      then no_interfaces
      else (let info = extract_ips cfg cfg.interfaces no_info in
          if is_empty info.ips then no_addresses else extracted info)

  unfoldable add_ip : Option String → List String → List String
  add_ip none ips = ips
  add_ip (some ip) ips = ip ∷ ips

  -- The loop of `GetIPsByPrefix`
  unfoldable pub ips_of_interfaces : List String → List String
  unfolding add_ip
  ips_of_interfaces [] = []
  ips_of_interfaces (name ∷ names) = add_ip (get_interface_ip name) (ips_of_interfaces names)

  -- The answer of net.Interfaces; `none` is an error.
  unfoldable pub get_interfaces_by_prefix : Option (List String) → String → Option (List String)
  unfolding some_or_error
  get_interfaces_by_prefix none prefix = none
  get_interfaces_by_prefix (some interfaces) prefix =
      some_or_error (filter (λ name. starts_with name prefix) interfaces)

  unfoldable ips_of_found : Option (List String) → Option (List String)
  unfolding some_or_error ips_of_interfaces
  ips_of_found none = none
  ips_of_found (some names) = some_or_error (ips_of_interfaces names)

  unfoldable pub get_ips_by_prefix : Option (List String) → String → Option (List String)
  unfolding ips_of_found get_interfaces_by_prefix
  get_ips_by_prefix interfaces prefix = ips_of_found (get_interfaces_by_prefix interfaces prefix)
