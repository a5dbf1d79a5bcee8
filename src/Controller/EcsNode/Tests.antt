-- ===== src/Controller/EcsNode/Tests.antt =====
-- Runs of the host controller.
use etcdauto.Prelude.{
  String, ◌≡◌, ◌≢◌, ◌↔◌, Any, inl, refl, true, false, none, some, lookup, insert, [], ◌∷◌, split,
  trim_space, eq_iff, arith,
}
use etcdauto.Controller.Sets.{list_sets}
use etcdauto.Controller.Hosts.{SameSet}
use etcdauto.Controller.PubSub.{
  PubSub, new_pub_sub, topic_of, set_channel, enqueue, subscribe_free, subscribe, send, then_all,
  send_all, publish_to, publish_on,
}
use etcdauto.Controller.PubSub.Subscriptions.{channel_of}
use etcdauto.Controller.PubSub.Safety.{subscribes, initial, next}
use etcdauto.Controller.EcsNode.Starting.{
  Hosts, ecs_node_topic, publish_hosts, trigger_taken, hosts_taken, trigger_taken-hosts_taken,
}
use etcdauto.Controller.EcsNode.{
  EcsNodeConfig, Node, EcsNode, get_ipmap, add_endpoints, add_endpoint, add_usable, is_usable,
  ip_of, first_of, has_interface, reconcile_ecs_node,
}
use etcdauto.Controller.EcsNode.Master.{Gives}
use etcdauto.Controller.EcsNode.Publishing.{reconcile_ecs_node_follows}

abbrev config : EcsNodeConfig
config = record { interfaces = "eth0" ∷ "eth1" ∷ []; master_if = "eth0"; namespace = "kube-system" }

abbrev node : Node
node = record {
  endpoints =
      some ("eth0", "10.0.0.1/24")
      ∷ none
      ∷ some ("eth1", "10.1.0.1/24")
      ∷ some ("lo", "127.0.0.1")
      ∷ [];
  deleting = false;
}

master_example : (get_ipmap list_sets config node).0 ≡ "10.0.0.1"
unfolding list_sets get_ipmap add_endpoints add_endpoint add_usable is_usable ip_of first_of
    has_interface split trim_space
master_example = refl

abbrev hosts : EcsNode list_sets
hosts = record { host_ips = []; done = true; triggers = 1 }

ip_of_master : ip_of "10.0.0.1/24" ≡ "10.0.0.1"
unfolding ip_of first_of split trim_space
ip_of_master = refl

reconcile_ecs_node_follows_example :
    let r = reconcile_ecs_node list_sets config none (some node) hosts in
    ((kept : list_sets.Set) × (lookup (ip_of "10.0.0.1/24") r.host_ips ≡ some kept)
      × ((x : String) → (list_sets.has kept x ≡ true) ↔ Any (Gives config x) node.endpoints))
    × ((key : String)
        → key ≢ ip_of "10.0.0.1/24"
        → lookup key r.host_ips ≡ lookup key hosts.host_ips)
reconcile_ecs_node_follows_example =
    reconcile_ecs_node_follows list_sets config none node hosts []
      (none ∷ some ("eth1", "10.1.0.1/24") ∷ some ("lo", "127.0.0.1") ∷ []) "10.0.0.1/24" refl refl
      (inl refl) refl (λ e. ground (arith, ip_of_master, e, eq_iff "10.0.0.1" ""))
      (
        λ h. h,
        (
          λ h. ground (arith, h.0, eq_iff "eth1" "eth0"),
          (λ h. ground (arith, h.0, eq_iff "lo" "eth0"), tt),
        ),
      )

abbrev full_hosts : EcsNode list_sets
unfolding list_sets
full_hosts = record {
  host_ips = ("10.0.0.1", "10.0.0.1" ∷ "10.1.0.1" ∷ []) ∷ [];
  done = true;
  triggers = 1;
}

abbrev H : Type 0
H = Hosts list_sets

-- The pod controller has subscribed.
abbrev joined : PubSub H
joined = (subscribe H ecs_node_topic "pod" (new_pub_sub H)).1

abbrev published : PubSub H
unfolding subscribe
published = record joined {
  channels = set_channel H 0 (enqueue H full_hosts.host_ips (joined.channels 0)) joined.channels;
}

trigger_taken-hosts_taken_example :
    SameSet list_sets
      (lookup "10.0.0.1" (hosts_taken list_sets (published.channels 0).messages []))
      (lookup "10.0.0.1" full_hosts.host_ips)
unfolding subscribe subscribe_free topic_of channel_of lookup insert set_channel trigger_taken
    publish_hosts publish_on publish_to send_all send then_all full_hosts published
trigger_taken-hosts_taken_example =
    trigger_taken-hosts_taken list_sets 0 full_hosts (record full_hosts { triggers = 0 }) joined
      published "pod" 0 [] "10.0.0.1"
      (next (new_pub_sub H) joined initial (subscribes ecs_node_topic "pod" (new_pub_sub H))) refl
      (omega arith) (refl, tt) tt refl
