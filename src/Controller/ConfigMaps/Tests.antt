-- ===== src/Controller/ConfigMaps/Tests.antt =====
-- A run of the config map controller: the config map has other hosts.
use etcdauto.Prelude.{
  String, ◌⊎◌, ◌≡◌, refl, sym, subst, ◌∙◌, true, false, none, some, [], ◌∷◌, Map, insert, lookup,
  trim_space, ◌==◌, arith, Bool-cases, inl, inr, if_true, if_false,
}
use etcdauto.Certs.Authority.Loading.{some_injective}
use etcdauto.Controller.Sets.{list_sets}
use etcdauto.Controller.Hosts.{SameSet}
use etcdauto.Controller.Service.{stored, create_or_update}
use etcdauto.Controller.Loop.{
  starting, message_taken, signal_sent, sync_begun, sync_answered, sync_ended, takes_message, sends,
  begins, ends, started, next,
}
use etcdauto.Controller.Hosts.{update_host, update_hosts, differs, merge}
use etcdauto.Controller.ConfigMaps.Starting.{
  Hosts, configmap_received, configmap_synced, configmap_goroutine, ConfigMapLoop, Runs,
}
use etcdauto.Controller.ConfigMaps.Hearing.{heard_hosts, configmap_follows}
use etcdauto.Controller.ConfigMaps.{
  ConfigMap, hosts_received, get_ip_set_from_configmap, sync_configmap,
}
use etcdauto.Controller.ConfigMaps.Texts.{no_comma}
use etcdauto.Controller.ConfigMaps.Writing.{Writable}

abbrev ips : list_sets.Set
unfolding list_sets
ips = "10.0.0.1" ∷ "10.1.0.1" ∷ []

abbrev known : Map list_sets.Set
known = ("10.0.0.1", ips) ∷ []

abbrev old_map : ConfigMap
old_map = record { deleting = false; entries = ("10.0.0.9", "10.0.0.9") ∷ [] }

ips-Writable : Writable list_sets ips
unfolding ips list_sets no_comma trim_space
ips-Writable = (λ e. ground (arith, e), ((refl, refl), ((refl, refl), tt)))

none_is_not {κ} : {B : Type κ} {a : list_sets.Set} → none ≡ some a → B
none_is_not e = ground (arith, e)

known-Writable : (k : String) (s : list_sets.Set) → lookup k known ≡ some s → Writable list_sets s
unfolding lookup
known-Writable k s h = elim (Bool-cases ("10.0.0.1" == k)) [
  | inl own ↦
      subst (Writable list_sets) (some_injective (sym (if_true ("10.0.0.1" == k) _ _ own) ∙ h))
        ips-Writable
  | inr other ↦ none_is_not (sym (if_false ("10.0.0.1" == k) (some ips) none other) ∙ h)
]

abbrev L : Type 0
L = ConfigMapLoop list_sets

abbrev message : Hosts list_sets
unfolding lookup
message = (known, (refl, tt))

abbrev began : L
began = starting (configmap_goroutine list_sets) []

abbrev told : L
told = message_taken (configmap_goroutine list_sets) message began

abbrev signalled : L
signalled = signal_sent (configmap_goroutine list_sets) told

abbrev syncing_now : L
syncing_now = sync_begun (configmap_goroutine list_sets) 0 signalled

abbrev ended : L
ended = sync_ended (configmap_goroutine list_sets) (stored old_map, true) syncing_now

ended-Runs : Runs list_sets ended
unfolding message_taken signal_sent sync_begun configmap_received hosts_received merge update_hosts
    update_host differs insert lookup message
ended-Runs =
    next syncing_now ended
      (next signalled syncing_now
        (next told signalled (next began told started (takes_message began message refl))
          (sends told refl (omega arith)))
        (begins signalled 0 refl refl))
      (ends syncing_now (stored old_map, true) refl)

-- At the end of that run the config map is read back as the hosts of the message.
configmap_follows_example :
    ((ended.written ≡ none) × ((k : String) → lookup k (heard_hosts list_sets ended.heard) ≡ none))
    ⊎ ((cm : ConfigMap) × (ended.written ≡ some cm)
        × ((k : String)
            → SameSet list_sets
                (lookup k (get_ip_set_from_configmap list_sets cm.entries))
                (lookup k (heard_hosts list_sets ended.heard))))
unfolding sync_ended sync_answered sync_begun signal_sent message_taken configmap_synced
    sync_configmap create_or_update configmap_received hosts_received merge update_hosts update_host
    differs insert message
configmap_follows_example =
    configmap_follows list_sets ended ended-Runs refl refl refl known-Writable
