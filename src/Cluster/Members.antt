-- ===== src/Cluster/Members.antt =====
-- pkg/cluster/manager.go, first half: the client, a new cluster, the scan of the member list and the
-- promotion of a learner. Log lines are left out; the calls that change something, and the queries
-- that they depend on, are events.
pub mod Removal
pub mod Promote
use etcdauto.Prelude.{
  ℕ, zero, suc, ◌+◌, String, ◌⧺◌, Bool, true, false, not, ◌&&◌, ◌||◌, Option, none, some, List, [],
  ◌∷◌, ◌++◌, Map, insert, lookup, is_some, length, is_empty, any, all, join, contains, eqb, ◌==◌,
  if◌then◌else◌,
}
use etcdauto.Cluster.Host.{
  Host, Member, Client, Process, setenv, remove_all, load_key_pair, new_client, member_remove,
  member_promote, start_process, sleep, M, pure, ask, act, ◌>>=◌, ◌>>◌, Result, ok, err,
  no_alive_endpoints, key_pair_failed, client_failed, start_failed, promote_failed, join_host_port,
}
use etcdauto.Cluster.Discovery.{build_peer_endpoints, dir_exists, join_path}

pub record Config : Type 0 where
  pub pod_name : String
  pub peer_port : String
  pub client_port : String
  pub data_dir : String
  pub cert_file : String
  pub key_file : String

-- `https://ip:port`
abbrev pub peer_url : String → String → String
peer_url port ip = "https://" ⧺ (ip ⧺ (":" ⧺ port))

url_set : String → List String → Map (Unit {0}) → Map (Unit {0})
url_set port [] set = set
url_set port (ip ∷ ips) set = url_set port ips (insert (peer_url port ip) tt set)

unfoldable pub build_peer_url_set : List String → String → Map (Unit {0})
unfolding url_set
build_peer_url_set my_ips peer_port = url_set peer_port my_ips []

unfoldable pub peer_urls_match : List String → Map (Unit {0}) → Bool
peer_urls_match urls set =
    if is_empty urls || is_empty set
    then false
    else if not (eqb (length urls) (length set))
    then false
    else all (λ u. is_some (lookup u set)) urls

-- The test by which `processMembers` recognises its own pod
unfoldable pub is_self : Config → Map (Unit {0}) → Member → Bool
is_self cfg my_urls m = (m.name == cfg.pod_name) || peer_urls_match m.peer_urls my_urls

-- The nested loops over the peer URLs and the dead names
unfoldable pub should_remove : Map (Unit {0}) → Member → Bool
should_remove dead m = any (λ url. any (λ d. contains url d.0) dead) m.peer_urls

-- myMemberID, myIsLearner, votingNumExceptMe
pub record Scan : Type 0 where
  pub my_id : ℕ
  pub my_learner : Bool
  pub voting : ℕ

abbrev pub start_scan : Scan
start_scan = record { my_id = 0; my_learner = false; voting = 0 }

pub see_self : Member → Scan → Scan
see_self m s = record s { my_id = if eqb m.id 0 then s.my_id else m.id; my_learner = m.is_learner }

abbrev pub member_dir : Config → String
member_dir cfg = join_path cfg.data_dir "member"

client_endpoints : String → List String → List String
client_endpoints port [] = []
client_endpoints port (ip ∷ ips) = join_host_port ip port ∷ client_endpoints port ips

all_client_endpoints : String → Map (List String) → List String
unfolding client_endpoints
all_client_endpoints port [] = []
all_client_endpoints port ((k, ips) ∷ m) = client_endpoints port ips ++ all_client_endpoints port m

member_urls : String → String → List String → List String
member_urls pod name [] = []
member_urls pod name (url ∷ urls) =
    (let n = if name == "" then pod else name in n ⧺ ("=" ⧺ url)) ∷ member_urls pod name urls

unfoldable pub build_cluster_config : Config → List Member → List String
unfolding member_urls
build_cluster_config cfg [] = []
build_cluster_config cfg (m ∷ ms) =
    member_urls cfg.pod_name m.name m.peer_urls ++ build_cluster_config cfg ms

unfoldable pub my_peers : String → List String → List String
my_peers port [] = []
my_peers port (ip ∷ ips) = peer_url port ip ∷ my_peers port ips

module _ (w : Host) (cfg : Config) where
  unfoldable pub get_client : Map (List String) → M (Result Client)
  unfolding all_client_endpoints
  get_client [] = pure (err no_alive_endpoints)
  get_client (e ∷ es) = do
    loaded ←
        ask (load_key_pair cfg.cert_file cfg.key_file)
          (λ h. w.key_pair_loads h cfg.cert_file cfg.key_file)
    if not loaded then pure (err key_pair_failed) else do
      let endpoints = all_client_endpoints cfg.client_port (e ∷ es)
      connected ← ask (new_client endpoints) (λ h. w.connects h endpoints)
      pure (if connected then ok endpoints else err client_failed)

  unfoldable pub start_etcd : String → M (Result Process)
  start_etcd bin = do
    started ← ask (start_process bin) (λ h. w.starts h bin)
    pure (if started then ok bin else err start_failed)

  -- RemoveAll is only logged when it fails; what it leaves behind shows in later answers.
  unfoldable pub remove_if_present : String → M (Unit {0})
  remove_if_present dir = do
    present ← dir_exists w dir
    if present then act (remove_all dir) else pure tt

  unfoldable pub initialize_new_cluster : List String → String → M (Result Process)
  unfolding start_etcd remove_if_present
  initialize_new_cluster my_ips bin = do
    act (setenv "ETCD_INITIAL_CLUSTER_STATE" "new")
    act (
        setenv "ETCD_INITIAL_CLUSTER"
          (join "," (build_peer_endpoints ((cfg.pod_name, my_ips) ∷ []) cfg.peer_port true true)))
    remove_if_present (member_dir cfg)
    start_etcd bin

  unfoldable pub remove_dead_member : Client → Member → M (Unit {0})
  remove_dead_member c m = do
    removed ← ask (member_remove c m.id) (λ h. w.remove_succeeds h c m.id)
    pure tt

  unfoldable pub process_members :
      Client → Map (Unit {0}) → Map (Unit {0}) → List Member → Scan → M Scan
  process_members c dead my_urls [] s = pure s
  process_members c dead my_urls (m ∷ ms) s =
      let as_self = process_members c dead my_urls ms (see_self m s) in
      let gone = process_members c dead my_urls ms s in
      let voter = process_members c dead my_urls ms (record s { voting = s.voting + 1 }) in
      if is_self cfg my_urls m
      then as_self
      else if should_remove dead m
      then (remove_dead_member c m >> gone)
      else if not m.is_learner
      then voter
      else gone

  -- The loop of `promoteLearner`, on the attempts that are left; `first` is its first round.
  unfoldable pub promote_rounds : Client → ℕ → ℕ → Bool → M (Result (Unit {0}))
  promote_rounds c id zero first = pure (err promote_failed)
  promote_rounds c id (suc left) first = do
    if first then pure tt else act (sleep 200)
    promoted ← ask (member_promote c id) (λ h. w.promote_succeeds h c id)
    let again = promote_rounds c id left false
    if promoted then pure (ok tt) else again

  abbrev pub max_retries : ℕ
  max_retries = 100

  unfoldable pub promote_learner : Client → ℕ → M (Result (Unit {0}))
  promote_learner c id = promote_rounds c id max_retries true
