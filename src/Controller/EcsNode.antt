-- ===== src/Controller/EcsNode.antt =====
-- pkg/controller/ecnode.go: EcsNode, which keeps the IPs of the configured interfaces of every host,
-- by the host's master IP, and publishes them. The API server's answers are arguments.
pub mod Addresses
pub mod Master
pub mod Publishing
pub mod Starting
mod Tests
use etcdauto.Prelude.{
  ℕ, suc, String, Bool, true, false, not, ◌&&◌, ◌||◌, Option, none, some, List, [], ◌∷◌, Map,
  lookup, insert, delete, is_some, is_empty, split, trim_space, ◌==◌, if◌then◌else◌,
}
use etcdauto.Controller.Sets.{Sets}

pub record EcsNodeConfig : Type 0 where
  pub interfaces : List String
  pub master_if : String
  pub namespace : String

-- The configuration has no error.
unfoldable pub valid_ecs_node : EcsNodeConfig → Bool
valid_ecs_node c = not (is_empty c.interfaces || c.master_if == "") && not (c.namespace == "")

-- EcsNodeSpec: of an endpoint its name and its Ipnet, `none` for a nil pointer; and whether the node
-- is being deleted
pub record Node : Type 0 where
  pub endpoints : List (Option (String × String))
  pub deleting : Bool

unfoldable pub first_of : List String → String
first_of [] = ""
first_of (s ∷ ss) = s

-- The text before the first slash, trimmed
unfoldable pub ip_of : String → String
unfolding first_of
ip_of ipnet = trim_space (first_of (split b'/' ipnet))

-- `h.interfaces`, a set made from the list of the configuration
unfoldable pub has_interface : List String → String → Bool
has_interface [] name = false
has_interface (i ∷ is) name = i == name || has_interface is name

unfoldable pub is_usable : EcsNodeConfig → String × String → Bool
unfolding ip_of has_interface
is_usable c (name, ipnet) = not (ip_of ipnet == "") && has_interface c.interfaces name

module _ (S : Sets) where
  -- The variables `master` and `ips` of getIpmap
  unfoldable pub add_usable : EcsNodeConfig → String → String → String × S.Set → String × S.Set
  add_usable c name ip (master, ips) = (if name == c.master_if then ip else master, S.insert ips ip)

  unfoldable pub add_endpoint :
      EcsNodeConfig → Option (String × String) → String × S.Set → String × S.Set
  unfolding is_usable add_usable ip_of
  add_endpoint c none acc = acc
  add_endpoint c (some (name, ipnet)) acc =
      if is_usable c (name, ipnet) then add_usable c name (ip_of ipnet) acc else acc

  unfoldable pub add_endpoints :
      EcsNodeConfig → List (Option (String × String)) → String × S.Set → String × S.Set
  unfolding add_endpoint
  add_endpoints c [] acc = acc
  add_endpoints c (e ∷ es) acc = add_endpoints c es (add_endpoint c e acc)

  unfoldable pub get_ipmap : EcsNodeConfig → Node → String × S.Set
  unfolding add_endpoints
  get_ipmap c n = add_endpoints c n.endpoints ("", S.new)

  -- `triggers` counts the signals that were sent to Start, each of which publishes `host_ips`.
  pub record EcsNode : Type 0 where
    pub host_ips : Map S.Set
    pub done : Bool
    pub triggers : ℕ

  unfoldable pub put_host : String × S.Set → Map S.Set → Map S.Set
  put_host (master, ips) m = if master == "" then m else insert master ips m

  unfoldable pub init_hosts : EcsNodeConfig → List Node → Map S.Set → Map S.Set
  unfolding put_host
  init_hosts c [] m = m
  init_hosts c (n ∷ ns) m = init_hosts c ns (put_host (get_ipmap c n) m)

  unfoldable pub publishing : Map S.Set → EcsNode → EcsNode
  publishing m h = record { host_ips = m; done = true; triggers = suc h.triggers }

  -- `none` is a list that could not be read.
  unfoldable pub init_answered : EcsNodeConfig → Option (List Node) → EcsNode → EcsNode
  unfolding init_hosts publishing
  init_answered c none h = h
  init_answered c (some ns) h = publishing (init_hosts c ns h.host_ips) h

  unfoldable pub ips_differ : S.Set → Option S.Set → Bool
  ips_differ new none = true
  ips_differ new (some old) = not (S.equal new old)

  unfoldable pub update_ips : String → S.Set → EcsNode → EcsNode
  unfolding ips_differ publishing
  update_ips master ips h =
      if ips_differ ips (lookup master h.host_ips)
      then publishing (insert master ips h.host_ips) h
      else h

  unfoldable pub node_seen : Bool → String × S.Set → EcsNode → EcsNode
  unfolding update_ips publishing
  node_seen deleting (master, ips) h =
      if master == ""
      then h
      else if deleting
      then publishing (delete master h.host_ips) h
      else update_ips master ips h

  -- `none` is a node that could not be read or is not found.
  unfoldable pub node_read : EcsNodeConfig → Option Node → EcsNode → EcsNode
  unfolding node_seen
  node_read c none h = h
  node_read c (some n) h = node_seen n.deleting (get_ipmap c n) h

  -- The first answer is that of the list in onceInit, which is asked for until it succeeds.
  unfoldable pub reconcile_ecs_node :
      EcsNodeConfig → Option (List Node) → Option Node → EcsNode → EcsNode
  unfolding init_answered node_read
  reconcile_ecs_node c listed got h = if h.done then node_read c got h else init_answered c listed h
