-- ===== src/Controller/ConfigMaps/Starting.antt =====
-- `Start` of pkg/controller/configmap.go, an instance of Controller/Loop.
use etcdauto.Prelude.{
  String, ◌≡◌, ◌⊎◌, inl, inr, Bool, true, false, Option, none, some, [], Map, lookup, Unique, arith,
}
use etcdauto.Controller.Sets.{Sets}
use etcdauto.Controller.Hosts.{deep_equal_sets}
use etcdauto.Controller.Hosts.Keeping.{merge-Untouched, Unique-merge}
use etcdauto.Controller.Service.{Stored}
use etcdauto.Controller.Loop.{Goroutine, Loop, selecting, Reachable}
use etcdauto.Controller.Loop.Settling.{Reachable-settles, Reachable-known}
use etcdauto.Controller.ConfigMaps.{
  ConfigMap, GetConfigMap, get_ip_set_from_configmap, sync_configmap, reconcile_configmap,
  hosts_received,
}
use etcdauto.Controller.ConfigMaps.Writing.{Writable, sync_configmap_settles}

module _ (S : Sets) where
  -- A map of hosts that is published: no host is listed twice.
  abbrev pub Hosts : Type 0
  Hosts = (m : Map S.Set) × Unique m

  unfoldable pub configmap_received : Hosts → Map S.Set → Map S.Set × Bool
  configmap_received origin known = hosts_received S origin.0 known

  unfoldable pub configmap_reconciled : GetConfigMap → Map S.Set → Option ConfigMap → Bool
  configmap_reconciled answer known written = reconcile_configmap S known answer

  unfoldable pub configmap_synced : Stored ConfigMap × Bool → Map S.Set → Option ConfigMap
  configmap_synced answer known = sync_configmap S known answer

  abbrev pub configmap_goroutine : Goroutine
  configmap_goroutine = record {
    Data = Map S.Set;
    Msg = Hosts;
    Event = GetConfigMap;
    Answer = Stored ConfigMap × Bool;
    Written = ConfigMap;
    received = configmap_received;
    reconciled = configmap_reconciled;
    sync = configmap_synced;
  }

  abbrev pub ConfigMapLoop : Type 0
  ConfigMapLoop = Loop configmap_goroutine

  abbrev pub Runs : ConfigMapLoop → Type 0
  Runs = Reachable configmap_goroutine []

  configmap_unchanged :
      (origin : Hosts) (known : Map S.Set)
      → (configmap_received origin known).1 ≡ false
      → (configmap_received origin known).0 ≡ known
  unfolding configmap_received hosts_received
  configmap_unchanged origin known h = merge-Untouched S origin.0 known (ground (arith, h))

  -- However messages, events, syncs and their errors follow each other: when the goroutine waits and
  -- no signal is on its way to it, either no message has changed anything and nothing was written, or
  -- the config map that was written last is read back as the hosts that are known now, if their sets
  -- can be written.
  pub configmap_loop_settles :
      (s : ConfigMapLoop)
      → Runs s
      → s.phase ≡ selecting
      → s.pending ≡ 0
      → s.owed ≡ 0
      → ((s.written ≡ none) × (s.known ≡ []))
        ⊎ ((cm : ConfigMap) × (s.written ≡ some cm)
            × (((k : String) (ips : S.Set) → lookup k s.known ≡ some ips → Writable S ips)
                → deep_equal_sets S (get_ip_set_from_configmap S cm.entries) s.known ≡ true))
  unfolding configmap_received hosts_received configmap_synced
  configmap_loop_settles s runs at none_left none_owed =
      let u =
        Reachable-known configmap_goroutine (λ o e. Unique e) [] s tt
          (λ m o e v. Unique-merge S m.0 e v) runs in
      elim ((Reachable-settles configmap_goroutine configmap_unchanged [] s runs).1 at none_left
        none_owed) [
          | inl nothing ↦ inl nothing
          | inr (cm, a, written, synced) ↦
              inr (cm, written, λ w. (sync_configmap_settles S s.known a cm u w synced).0)
        ]
