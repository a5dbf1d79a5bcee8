-- ===== src/Cluster/Discovery/Tally.antt =====
-- What a discovery concludes from its probes: the maps that the goroutines of
-- `DiscoverEndpoints` fill, whatever the order in which they finish.
use etcdauto.Prelude.{
  String, ◌≡◌, refl, sym, ap, ◌∙◌, Bool, true, false, Option, none, some, List, [], ◌∷◌, lookup,
  lookup-insert, Unique, arith, ◌==◌, if◌then◌else◌, eq_iff,
}
use etcdauto.Cluster.Host.{Host, DirEntry, load_key_pair, read_dir, History, done, ok}
use etcdauto.Cluster.Discovery.Probes.{Distinct, IsProbes, probe_entries_lem}
use etcdauto.Cluster.Discovery.{
  DiscoveryConfig, unreachable, healthy, not_ready, EndpointInfo, Probe, unreadable, probed,
  no_endpoints, discover_listed, record_probe, tally, discover_endpoints,
}

-- What a probe puts under its name in each of the three maps
abbrev pub ready_of : Option Probe → Option (List String)
ready_of (some (probed ips healthy)) = some ips
ready_of _ = none

abbrev pub not_ready_of : Option Probe → Option (Unit {0})
not_ready_of (some (probed ips not_ready)) = some tt
not_ready_of _ = none

abbrev pub dead_of : Option Probe → Option (Unit {0})
dead_of (some unreadable) = some tt
dead_of _ = none

abbrev or_else {ℓ} : {A : Type ℓ} → Option A → Option A → Option A
or_else none d = d
or_else (some a) d = some a

-- Where a name stands in the three maps
abbrev pub Standing : EndpointInfo → EndpointInfo → String → Option Probe → Type 0
Standing info' info k p =
    (lookup k info'.ready_nodes ≡ or_else (ready_of p) (lookup k info.ready_nodes))
    × (lookup k info'.not_ready_nodes ≡ or_else (not_ready_of p) (lookup k info.not_ready_nodes))
    × (lookup k info'.dead_names ≡ or_else (dead_of p) (lookup k info.dead_names))

record_probe-Standing :
    (k ip : String) (p : Probe) (info : EndpointInfo)
    → Standing (record_probe ip p info) info k (if ip == k then some p else none)
unfolding record_probe
record_probe-Standing k ip unreadable info = ground (arith, lookup-insert ip k tt info.dead_names)
record_probe-Standing k ip (probed ips healthy) info =
    ground (arith, lookup-insert ip k ips info.ready_nodes)
record_probe-Standing k ip (probed ips not_ready) info =
    ground (arith, lookup-insert ip k tt info.not_ready_nodes)
record_probe-Standing k ip (probed ips unreachable) info = ground arith

Standing-trans :
    (info₂ info₁ info : EndpointInfo) (k : String) (b : Bool) (p : Probe) (o : Option Probe)
    → (b ≡ true → o ≡ none)
    → Standing info₂ info₁ k o
    → Standing info₁ info k (if b then some p else none)
    → Standing info₂ info k (if b then some p else o)
Standing-trans info₂ info₁ info k true p o absent later now = ground (arith, absent refl)
Standing-trans info₂ info₁ info k false p o absent later now = ground arith

tally-Standing :
    (k : String) (info : EndpointInfo) (ps : List (String × Probe))
    → Unique ps
    → Standing (tally info ps) info k (lookup k ps)
unfolding tally lookup
tally-Standing k info [] u = ground arith
tally-Standing k info ((ip, p) ∷ ps) u =
    Standing-trans _ (record_probe ip p info) info k (ip == k) p (lookup k ps)
      (λ same. rw (← (eq_iff ip k).0 same) u.0) (tally-Standing k (record_probe ip p info) ps u.1)
      (record_probe-Standing k ip p info)

-- The three maps after a discovery, read off its probes
abbrev pub Concludes : EndpointInfo → List (String × Probe) → Type 0
Concludes info ps =
    (k : String)
    → (lookup k info.ready_nodes ≡ ready_of (lookup k ps))
      × (lookup k info.not_ready_nodes ≡ not_ready_of (lookup k ps))
      × (lookup k info.dead_names ≡ dead_of (lookup k ps))

or_else-none {ℓ} : {A : Type ℓ} (o : Option A) → or_else o none ≡ o
or_else-none none = refl
or_else-none (some a) = refl

tally-Concludes : (ps : List (String × Probe)) → Unique ps → Concludes (tally no_endpoints ps) ps
unfolding lookup
tally-Concludes ps u k =
    let s = tally-Standing k no_endpoints ps u in
    (s.0 ∙ or_else-none _, s.1 ∙ or_else-none _, s.2 ∙ or_else-none _)

-- When the key pair loads and the directory can be read, and lists no name twice, discovery returns
-- without an error. It has then probed exactly the files that are named after an IP, each by one
-- run of a goroutine's body at some moment; and an IP is ready, with its IPs, not ready, or dead,
-- exactly when its probe found its endpoints healthy, found them not ready, or could not read its
-- file. So no IP is in two of the maps, and one that is unreachable is in none.
pub discover_endpoints_classifies :
    (w : Host) (cfg : DiscoveryConfig) (h : History) (es : List DirEntry)
    → w.key_pair_loads h cfg.cert_file cfg.key_file ≡ true
    → w.dir_of (load_key_pair cfg.cert_file cfg.key_file ∷ h) cfg.node_ip_dir ≡ some es
    → Distinct es
    → (info : EndpointInfo) × (ps : List (String × Probe)) × ((discover_endpoints w cfg h).0
        ≡ done (ok info))
      × IsProbes w cfg es ps
      × Concludes info ps
unfolding discover_endpoints discover_listed
discover_endpoints_classifies w cfg h es loaded listed distinct =
    let (ps, h', q, fits) =
      probe_entries_lem w cfg es
        (read_dir cfg.node_ip_dir ∷ load_key_pair cfg.cert_file cfg.key_file ∷ h) in
    (
      tally no_endpoints ps,
      ps,
      rw loaded (rw listed (rw q)),
      fits,
      tally-Concludes ps (fits.2 distinct),
    )

-- The order in which the goroutines finish does not matter: two lists of probes that agree on every
-- name, each name once, lead to the same three maps, as far as a lookup can tell.
pub tally_order_irrelevant :
    (ps qs : List (String × Probe)) (k : String)
    → Unique ps
    → Unique qs
    → lookup k ps ≡ lookup k qs
    → (lookup k (tally no_endpoints ps).ready_nodes ≡ lookup k (tally no_endpoints qs).ready_nodes)
      × (lookup k (tally no_endpoints ps).not_ready_nodes
          ≡ lookup k (tally no_endpoints qs).not_ready_nodes)
      × (lookup k (tally no_endpoints ps).dead_names ≡ lookup k (tally no_endpoints qs).dead_names)
tally_order_irrelevant ps qs k u v e =
    let a = tally-Concludes ps u k in
    let b = tally-Concludes qs v k in
    (a.0 ∙ ap ready_of e ∙ sym b.0, a.1 ∙ ap not_ready_of e ∙ sym b.1, a.2 ∙ ap dead_of e ∙ sym b.2)
