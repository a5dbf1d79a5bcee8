-- ===== src/Controller/Service/Starting.antt =====
-- `Start` of pkg/controller/service.go, an instance of Controller/Loop. A message of the pods carries
-- nothing and always calls for a sync.
use etcdauto.Prelude.{ℕ, String, Bool, true, Option, none, some, List, []}
use etcdauto.Controller.Sets.{Sets}
use etcdauto.Controller.Loop.{Goroutine, Loop, Reachable}
use etcdauto.Controller.Service.{
  ServiceConfig, Service, Endpoints, Stored, desired_service, desired_endpoints, sync_service,
  service_seen,
}
use etcdauto.Controller.Service.Syncing.{HasIps, HasPorts}

abbrev pub Done : Type 0
Done = Unit

-- What a sync wrote, and the IPs it wrote it for, which stand for `svcinfo`
pub record Synced : Type 0 where
  pub service : Service
  pub endpoints : Endpoints
  pub ips : List String

-- What iplistfn answers, and what CreateOrUpdate finds and whether its write is accepted, twice
pub record SyncAnswer : Type 0 where
  pub listed : Option (List String)
  pub for_service : Stored Service × Bool
  pub for_endpoints : Stored Endpoints × Bool

unfoldable pub keep_synced : List String → Option (Service × Endpoints) → Option Synced
keep_synced ips none = none
keep_synced ips (some (s, e)) = some (record { service = s; endpoints = e; ips = ips })

unfoldable pub synced_ips : Option Synced → List String
synced_ips none = []
synced_ips (some w) = w.ips

abbrev pub service_received : Done → Done → Done × Bool
service_received m d = (tt, true)

module _ (S : Sets) (port_text : String → ℕ → String) (lower : String → String)
    (c : ServiceConfig) where
  unfoldable pub sync_listed :
      Option (List String) → Stored Service × Bool → Stored Endpoints × Bool → Option Synced
  unfolding sync_service keep_synced
  sync_listed none found_service found_endpoints = none
  sync_listed (some ips) found_service found_endpoints =
      keep_synced ips (sync_service S port_text lower c (some ips) found_service found_endpoints)

  unfoldable pub service_synced : SyncAnswer → Done → Option Synced
  unfolding sync_listed
  service_synced a d = sync_listed a.listed a.for_service a.for_endpoints

  unfoldable pub service_reconciled :
      Option Service × Option Endpoints → Done → Option Synced → Bool
  unfolding service_seen synced_ips
  service_reconciled got d written =
      service_seen S port_text (desired_service lower c) (desired_endpoints c (synced_ips written))
        got.0 got.1

  abbrev pub service_goroutine : Goroutine
  service_goroutine = record {
    Data = Done;
    Msg = Done;
    Event = Option Service × Option Endpoints;
    Answer = SyncAnswer;
    Written = Synced;
    received = service_received;
    reconciled = service_reconciled;
    sync = service_synced;
  }

  abbrev pub ServiceLoop : Type 0
  ServiceLoop = Loop service_goroutine

  abbrev pub Runs : ServiceLoop → Type 0
  Runs = Reachable service_goroutine tt

  -- The listed IPs and the configured ports
  abbrev pub Holds : Synced → List String → Type 0
  Holds w ips = HasIps w.endpoints ips × HasPorts port_text lower w.service c.ports
