-- ===== src/Cluster/Tests.antt =====
-- Concrete runs of pkg/cluster: a world of three pods, 10.0.0.1 (healthy), 10.0.0.2 (it does not
-- accept connections) and 10.0.0.3 (its IP file cannot be read), in which this pod is etcd-1.
use etcdauto.Prelude.{
  ◌+◌, String, ◌≡◌, refl, inl, inr, Any, Bool, true, false, none, some, List, [], ◌∷◌, Map, lookup,
  ◌==◌, contains, length, filter, if◌then◌else◌,
}
use etcdauto.Cluster.Host.{
  Host, file, found, Member, Client, History, DirEntry, member_remove, done, ok,
}
use etcdauto.Cluster.Discovery.{DiscoveryConfig, Probe, EndpointInfo, discover_endpoints}
use etcdauto.Cluster.Discovery.Probes.{IsProbes}
use etcdauto.Cluster.Discovery.Tally.{Concludes, discover_endpoints_classifies}
use etcdauto.Cluster.Members.{
  Config, start_scan, is_self, peer_urls_match, process_members, promote_learner,
}
use etcdauto.Cluster.Members.Removal.{
  is_doomed, is_voter, last_id, last_learner, ask_removals, process_members_lem,
  lookalike_is_removed,
}
use etcdauto.Cluster.Members.Promote.{Ends, promote_learner-Ends}
use etcdauto.Cluster.Join.{join_existing_cluster}
use etcdauto.Cluster.Join.Processes.{join_leaves_no_orphan}
use etcdauto.Cluster.BrainSplit.{BrainSplitCheckResult, verify_with_other_nodes}
use etcdauto.Cluster.BrainSplit.Verify.{Judged, replies, verify_with_other_nodes_lem}
use etcdauto.Cluster.Running.{running, Settled}

abbrev entry : String → DirEntry
entry name = record { name = name; is_dir = false }

abbrev pub entries : List DirEntry
entries = entry "10.0.0.1" ∷ entry "10.0.0.2" ∷ entry "10.0.0.3" ∷ entry "data" ∷ []

abbrev pub member_1 : Member
member_1 = record {
  id = 7;
  name = "etcd-0";
  peer_urls = "https://10.0.0.1:2480" ∷ [];
  is_learner = false;
}

abbrev member_3 : Member
member_3 = record {
  id = 9;
  name = "etcd-2";
  peer_urls = "https://10.0.0.31:2480" ∷ [];
  is_learner = false;
}

abbrev pub member_2 : Member
member_2 = record { id = 8; name = ""; peer_urls = "https://10.0.0.2:2480" ∷ []; is_learner = true }

-- Learners are promoted at the third request.
abbrev promotes : History → Bool
promotes (a ∷ b ∷ d ∷ e ∷ h) = true
promotes _ = false

abbrev pub world : Host
world = record {
  stat_of = λ h path. file;
  dir_of = λ h path. some entries;
  file_of = λ h path. if path == "/ips/10.0.0.3" then none else some "10.0.0.1";
  key_pair_loads = λ h cert key. true;
  dials = λ h e. e == "10.0.0.1:2479";
  connects = λ h c. true;
  get_reply = λ h c. found;
  alarms = λ h c. some [];
  list_reply =
      λ h c. some (record { cluster_id = 1; members = member_1 ∷ member_2 ∷ member_3 ∷ [] });
  remove_succeeds = λ h c id. true;
  promote_succeeds = λ h c id. promotes h;
  add_reply = λ h c urls. some (record { member = member_2; members = member_1 ∷ member_2 ∷ [] });
  add_learner_reply =
      λ h c urls. some (record { member = member_2; members = member_1 ∷ member_2 ∷ [] });
  starts = λ h bin. true;
  signals = λ h. true;
  kills = λ h. true;
  wakes = λ h. [];
  is_ip = λ s. contains s ".";
}

abbrev discovery : DiscoveryConfig
discovery = record {
  client_port = "2479";
  node_ip_dir = "/ips";
  cert_file = "/ssl/etcd-1.pem";
  key_file = "/ssl/etcd-1-key.pem";
}

abbrev config : Config
config = record {
  pod_name = "etcd-1";
  peer_port = "2480";
  client_port = "2479";
  data_dir = "/run/etcd/data";
  cert_file = "/ssl/etcd-1.pem";
  key_file = "/ssl/etcd-1-key.pem";
}

abbrev my_urls : Map (Unit {0})
my_urls = ("https://10.0.0.2:2480", tt) ∷ []

abbrev dead : Map (Unit {0})
dead = ("10.0.0.3", tt) ∷ []

abbrev client : Client
client = "10.0.0.1:2479" ∷ []

abbrev all_members : List Member
all_members = member_1 ∷ member_2 ∷ member_3 ∷ []

discover_endpoints_classifies_example :
    (info : EndpointInfo) × (ps : List (String × Probe)) × ((discover_endpoints world discovery
        []).0
      ≡ done (ok info))
    × IsProbes world discovery entries ps
    × Concludes info ps
discover_endpoints_classifies_example =
    discover_endpoints_classifies world discovery [] entries refl refl
      (refl, (refl, (refl, (refl, tt))))

process_members_lem_example :
    process_members world config client dead my_urls all_members start_scan [] ≡ (
      done (record {
        my_id = last_id (filter (is_self config my_urls) all_members) 0;
        my_learner = last_learner (filter (is_self config my_urls) all_members) false;
        voting = 0 + length (filter (is_voter config dead my_urls) all_members);
      }),
      ask_removals client (filter (is_doomed config dead my_urls) all_members) [],
    )
process_members_lem_example =
    process_members_lem world config client dead my_urls all_members start_scan []

join_leaves_no_orphan_example :
    let (o, h') = join_existing_cluster world config client ("10.0.0.2" ∷ []) dead "etcd" [] in
    Settled world o h' (running world [])
join_leaves_no_orphan_example =
    join_leaves_no_orphan world config client ("10.0.0.2" ∷ []) dead "etcd" []

promote_learner-Ends_example : Ends world client 8 [] 99 (promote_learner world config client 8 [])
promote_learner-Ends_example = promote_learner-Ends world config client 8 []

lookalike_is_removed_example :
    Any
      (λ e. e ≡ member_remove client 9)
      (process_members world config client dead my_urls all_members start_scan []).1
unfolding lookup is_self peer_urls_match
lookalike_is_removed_example =
    lookalike_is_removed world config client dead my_urls all_members start_scan [] member_3
      "https://" "10.0.0.3" "1:2480" (inr (inr (inl refl))) refl refl (inl refl)

verify_with_other_nodes_lem_example :
    (res : BrainSplitCheckResult) × (h' : History) × (verify_with_other_nodes world 1 8 client 0 []
      ≡ (done res, h'))
    × Judged 1 8 (replies world client []) 0 res
verify_with_other_nodes_lem_example = verify_with_other_nodes_lem world 1 8 client []
