-- ===== src/Controller/Service/Tests.antt =====
-- A run of the service controller: the service is there, the endpoints are not.
use etcdauto.Prelude.{
  eqb, if◌then◌else◌, ℕ, String, ◌≡◌, refl, arith, none, true, false, some, List, [], ◌∷◌, ◌⧺◌,
}
use etcdauto.Controller.Sets.{list_sets}
use etcdauto.Controller.Service.{
  ServiceConfig, Service, Endpoints, desired_service, desired_endpoints, absent, create_or_update,
  mutate_service, mutate_endpoints, pair_with, then_endpoints, sync_service, service_filter,
  endpoints_requests,
}
use etcdauto.Controller.Loop.{
  starting, selecting, signalling, message_taken, signal_sent, sync_begun, sync_ended,
  takes_message, no_step, started, next,
}
use etcdauto.Controller.Loop.Stuck.{Run, full_channel_blocks, sync_can_begin}
use etcdauto.Controller.Service.Starting.{SyncAnswer, service_goroutine, ServiceLoop, Runs}
use etcdauto.Controller.Service.Syncing.{HasIps, HasPorts, sync_service_stores}

abbrev config : ServiceConfig
config = record {
  publish_not_ready = false;
  namespace = "kube-system";
  name = "etcd";
  ports = record { protocol = "tcp"; port = 2379; target_port = 2379 } ∷ [];
}

abbrev text : String → ℕ → String
text protocol n = protocol ⧺ (if eqb n 2379 then "/2379" else "/0")

abbrev lower : String → String
lower s = s

abbrev ips : List String
ips = "10.0.0.1" ∷ "10.1.0.1" ∷ []

abbrev made_service : Service
unfolding desired_service
made_service = desired_service lower config

abbrev made_endpoints : Endpoints
unfolding desired_endpoints
made_endpoints = desired_endpoints config ips

synced :
    sync_service list_sets text lower config (some ips) (absent, true) (absent, true)
    ≡ some (
      mutate_service list_sets text made_service made_service,
      mutate_endpoints list_sets text made_endpoints made_endpoints,
    )
unfolding sync_service then_endpoints create_or_update pair_with made_service made_endpoints
synced = refl

sync_service_stores_example :
    let s = mutate_service list_sets text made_service made_service in
    let e = mutate_endpoints list_sets text made_endpoints made_endpoints in
    HasIps e ips × HasPorts text lower s config.ports
sync_service_stores_example =
    sync_service_stores list_sets text lower config ips (absent, true) (absent, true)
      (mutate_service list_sets text made_service made_service)
      (mutate_endpoints list_sets text made_endpoints made_endpoints) synced

-- An event of the service's own endpoints passes the filter, and gives no request.
own_endpoints_example :
    (service_filter config "kube-system" "etcd" ≡ true)
    × (endpoints_requests config "kube-system" "etcd" ≡ [])
unfolding service_filter endpoints_requests
own_endpoints_example = (refl, refl)

abbrev answer : SyncAnswer
answer = record { listed = some ips; for_service = (absent, true); for_endpoints = (absent, true) }

abbrev L : Type 0
L = ServiceLoop list_sets text lower config

abbrev began : L
began = starting (service_goroutine list_sets text lower config) tt

abbrev told : L
told = message_taken (service_goroutine list_sets text lower config) tt began

abbrev signalled : L
signalled = signal_sent (service_goroutine list_sets text lower config) told

abbrev syncing_now : L
syncing_now = sync_begun (service_goroutine list_sets text lower config) 0 signalled

abbrev ended : L
ended = sync_ended (service_goroutine list_sets text lower config) answer syncing_now

told-Runs : Runs list_sets text lower config told
told-Runs = next began told started (takes_message began tt refl)

-- Ten signals wait when a message comes.
abbrev full : L
full = record {
  known = tt;
  heard = none;
  written = none;
  pending = 10;
  owed = 1;
  closed = false;
  phase = selecting;
  unsynced = true;
  syncs = 3;
}

abbrev blocked : L
blocked = message_taken (service_goroutine list_sets text lower config) tt full

full_channel_blocks_example :
    (blocked.phase ≡ signalling) × (blocked.syncs ≡ 3) × (blocked.written ≡ none)
full_channel_blocks_example =
    full_channel_blocks (service_goroutine list_sets text lower config) full blocked tt refl refl
      refl (no_step blocked)

sync_can_begin_example :
    (t : L) × Run (service_goroutine list_sets text lower config) told t × (t.syncs ≡ 1)
unfolding message_taken
sync_can_begin_example =
    sync_can_begin (service_goroutine list_sets text lower config) tt told answer told-Runs refl
      refl (λ e. ground (arith, e)) (λ e. ground (arith, e)) (λ e. omega arith)
