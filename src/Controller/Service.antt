-- ===== src/Controller/Service.antt =====
-- pkg/controller/service.go: ServiceSync, which keeps a headless service and its endpoints at the IPs
-- that the pods' hosts have. The API server's answers are arguments, and so is `port_text`, which is
-- fmt.Sprintf("%s/%d", protocol, port); of the objects the parts that are read or written are kept.
pub mod Starting
pub mod Syncing
mod Tests
use etcdauto.Prelude.{
  ℕ, suc, String, Bool, true, false, not, ◌&&◌, ◌||◌, Option, none, some, List, [], ◌∷◌, Map,
  lookup, insert, is_empty, map, eqb, ◌==◌, if◌then◌else◌,
}
use etcdauto.Controller.Sets.{Sets}

pub record PortInfo : Type 0 where
  pub protocol : String
  pub port : ℕ
  pub target_port : ℕ

pub record ServiceConfig : Type 0 where
  pub publish_not_ready : Bool
  pub namespace : String
  pub name : String
  pub ports : List PortInfo

-- The configuration has no error.
unfoldable pub valid_service : ServiceConfig → Bool
valid_service c = not (c.namespace == "" || c.name == "") && not (is_empty c.ports)

pub data Protocol : Type 0 where
  tcp : Protocol
  udp : Protocol

unfoldable pub protocol_text : Protocol → String
protocol_text tcp = "TCP"
protocol_text udp = "UDP"

pub record ServicePort : Type 0 where
  pub port_protocol : Protocol
  pub port_number : ℕ
  pub port_target : ℕ

-- metav1.ObjectMeta: the deletion timestamp is a pointer, the annotations may be nil.
pub record Meta : Type 0 where
  pub meta_name : String
  pub meta_namespace : String
  pub deletion_timestamp : Option ℕ
  pub annotations : Option (Map String)

pub record Service : Type 0 where
  pub service_meta : Meta
  pub cluster_ip : String
  pub service_ports : List ServicePort

-- corev1.Endpoints, with the addresses of each of its subsets
pub record Endpoints : Type 0 where
  pub endpoints_meta : Meta
  pub subsets : List (List String)

-- `lower` is strings.ToLower.
unfoldable pub trans_port : (String → String) → PortInfo → ServicePort
trans_port lower p = record {
  port_protocol = if lower p.protocol == "udp" then udp else tcp;
  port_number = p.port;
  port_target = p.target_port;
}

unfoldable pub trans_ports : (String → String) → List PortInfo → List ServicePort
unfolding trans_port
trans_ports lower [] = []
trans_ports lower (p ∷ ps) = trans_port lower p ∷ trans_ports lower ps

unfoldable pub bool_text : Bool → String
bool_text true = "true"
bool_text false = "false"

abbrev pub not_ready_key : String
not_ready_key = "servicesync.io/publish_notready"

unfoldable pub meta_of : ServiceConfig → Meta
unfolding bool_text
meta_of c = record {
  meta_name = c.name;
  meta_namespace = c.namespace;
  deletion_timestamp = none;
  annotations = some ((not_ready_key, bool_text c.publish_not_ready) ∷ []);
}

-- The two results of serviceEndpoint
unfoldable pub desired_service : (String → String) → ServiceConfig → Service
unfolding meta_of trans_ports
desired_service lower c = record {
  service_meta = meta_of c;
  cluster_ip = "None";
  service_ports = trans_ports lower c.ports;
}

unfoldable pub subsets_of : List String → List (List String)
subsets_of [] = []
subsets_of (ip ∷ ips) = (ip ∷ ips) ∷ []

unfoldable pub desired_endpoints : ServiceConfig → List String → Endpoints
unfolding meta_of subsets_of
desired_endpoints c ips = record { endpoints_meta = meta_of c; subsets = subsets_of ips }

unfoldable pub same_pointer : Option ℕ → Option ℕ → Bool
same_pointer none none = true
same_pointer none (some b) = false
same_pointer (some a) none = false
same_pointer (some a) (some b) = eqb a b

-- A missing key reads as the empty text.
unfoldable pub value_or_empty : Option String → String
value_or_empty none = ""
value_or_empty (some v) = v

unfoldable pub values_found : Map String → Map String → Bool
unfolding value_or_empty
values_found [] b = true
values_found ((k, v) ∷ a) b = (value_or_empty (lookup k b) == v) && values_found a b

unfoldable pub annotations_equal : Option (Map String) → Option (Map String) → Bool
unfolding values_found
annotations_equal none o = false
annotations_equal (some a) none = false
annotations_equal (some a) (some b) = values_found a b

-- `deepEqual`
unfoldable pub metas_equal : Meta → Meta → Bool
unfolding same_pointer annotations_equal
metas_equal a b =
    (a.meta_name == b.meta_name)
    && (a.meta_namespace == b.meta_namespace)
    && same_pointer a.deletion_timestamp b.deletion_timestamp
    && annotations_equal a.annotations b.annotations

unfoldable pub put_all : Map String → Map String → Map String
put_all [] m = m
put_all ((k, v) ∷ new) m = put_all new (insert k v m)

-- `for k, v := range desired.Annotations`, which makes the map where it is nil
unfoldable pub annotated : Option (Map String) → Option (Map String) → Option (Map String)
unfolding put_all
annotated none old = old
annotated (some []) old = old
annotated (some (e ∷ new)) none = some (put_all (e ∷ new) [])
annotated (some (e ∷ new)) (some old) = some (put_all (e ∷ new) old)

unfoldable pub annotate : Meta → Meta → Meta
unfolding annotated
annotate new old = record {
  meta_name = old.meta_name;
  meta_namespace = old.meta_namespace;
  deletion_timestamp = old.deletion_timestamp;
  annotations = annotated new.annotations old.annotations;
}

-- controllerutil.CreateOrUpdate: an object that is found is changed by the function that is given, and
-- one that is not found is made from the desired one, changed by it, too; `none` is an error.
-- Whether the write is accepted is `true` also where nothing changes and so nothing is written.
pub data Stored (A : Type 0) : Type 0 where
  stored : A → Stored A
  absent : Stored A
  unread : Stored A

unfoldable pub create_or_update : {A : Type 0} → (A → A) → A → Bool → Stored A → Option A
create_or_update mutate desired accepted (stored x) = if accepted then some (mutate x) else none
create_or_update mutate desired accepted absent = if accepted then some (mutate desired) else none
create_or_update mutate desired accepted unread = none

module _ (S : Sets) (port_text : String → ℕ → String) where
  unfoldable pub add_ports : List ServicePort → S.Set → S.Set
  unfolding protocol_text
  add_ports [] acc = acc
  add_ports (p ∷ ps) acc =
      add_ports ps (S.insert acc (port_text (protocol_text p.port_protocol) p.port_number))

  unfoldable pub ports_of : Service → S.Set
  unfolding add_ports
  ports_of s = add_ports s.service_ports S.new

  unfoldable pub add_addresses : List String → S.Set → S.Set
  add_addresses [] acc = acc
  add_addresses (ip ∷ ips) acc = add_addresses ips (S.insert acc ip)

  unfoldable pub add_subsets : List (List String) → S.Set → S.Set
  unfolding add_addresses
  add_subsets [] acc = acc
  add_subsets (s ∷ ss) acc = add_subsets ss (add_addresses s acc)

  unfoldable pub addresses_of : Endpoints → S.Set
  unfolding add_subsets
  addresses_of e = add_subsets e.subsets S.new

  unfoldable pub equal_service : Service → Service → Bool
  unfolding metas_equal ports_of
  equal_service a b = metas_equal a.service_meta b.service_meta && S.equal (ports_of a) (ports_of b)

  unfoldable pub equal_endpoint : Endpoints → Endpoints → Bool
  unfolding metas_equal addresses_of
  equal_endpoint a b =
      metas_equal a.endpoints_meta b.endpoints_meta && S.equal (addresses_of a) (addresses_of b)

  unfoldable pub mutate_service : Service → Service → Service
  unfolding equal_service annotate
  mutate_service desired s = if equal_service s desired then s else record {
    service_meta = annotate desired.service_meta s.service_meta;
    cluster_ip = desired.cluster_ip;
    service_ports = desired.service_ports;
  }

  unfoldable pub mutate_endpoints : Endpoints → Endpoints → Endpoints
  unfolding equal_endpoint annotate
  mutate_endpoints desired e = if equal_endpoint e desired then e else record {
    endpoints_meta = annotate desired.endpoints_meta e.endpoints_meta;
    subsets = desired.subsets;
  }

  unfoldable pub pair_with : Service → Option Endpoints → Option (Service × Endpoints)
  pair_with s none = none
  pair_with s (some e) = some (s, e)

  unfoldable pub then_endpoints :
      ServiceConfig
      → List String
      → Stored Endpoints × Bool
      → Option Service
      → Option (Service × Endpoints)
  unfolding create_or_update mutate_endpoints desired_endpoints pair_with
  then_endpoints c ips answer none = none
  then_endpoints c ips answer (some s) = pair_with s (
      create_or_update (mutate_endpoints (desired_endpoints c ips)) (desired_endpoints c ips)
        answer.1 answer.0)

  -- The service and the endpoints that are stored after a success. The list of IPs is `none` where
  -- iplistfn fails; an answer is what is stored and whether the write is accepted.
  unfoldable pub sync_service :
      (String → String)
      → ServiceConfig
      → Option (List String)
      → Stored Service × Bool
      → Stored Endpoints × Bool
      → Option (Service × Endpoints)
  unfolding create_or_update mutate_service desired_service then_endpoints
  sync_service lower c none service_answer endpoints_answer = none
  sync_service lower c (some ips) service_answer endpoints_answer =
      then_endpoints c ips endpoints_answer (
        create_or_update (mutate_service (desired_service lower c)) (desired_service lower c)
          service_answer.1 service_answer.0)

  -- Whether Reconcile triggers a sync; `svcinfo` is what the last sync desired.
  unfoldable pub service_seen : Service → Endpoints → Option Service → Option Endpoints → Bool
  unfolding equal_service equal_endpoint
  service_seen s e none o = true
  service_seen s e (some s') none = true
  service_seen s e (some s') (some e') = not (equal_service s s' && equal_endpoint e e')

-- The filter on events, and the requests that an event of endpoints is mapped to
unfoldable pub service_filter : ServiceConfig → String → String → Bool
service_filter c ns name = (name == c.name) && (ns == c.namespace)

unfoldable pub endpoints_requests : ServiceConfig → String → String → List (String × String)
endpoints_requests c ns name =
    if (name == c.name) && (ns == c.namespace) then [] else (c.namespace, c.name) ∷ []
