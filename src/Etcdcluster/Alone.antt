-- ===== src/Etcdcluster/Alone.antt =====
-- What pod 0 has found out about the nodes in the IP directory when the main loop of
-- cmd/etcdcluster/main.go begins a new cluster.
use etcdauto.Prelude.{
  String, ◌≡◌, refl, sym, ap, ◌∙◌, ◌≢◌, ◌⊎◌, inl, inr, true, none, some, List, [], ◌∷◌, lookup,
  arith,
}
use etcdauto.Cluster.Host.{Host, DirEntry, History, load_key_pair, Result, ok, err}
use etcdauto.Cluster.Discovery.{
  EndpointInfo, Probe, unreadable, probed, unreachable, healthy, not_ready,
}
use etcdauto.Cluster.Discovery.Probes.{Distinct, IsProbes}
use etcdauto.Cluster.Discovery.Tally.{
  ready_of, not_ready_of, Concludes, discover_endpoints_classifies,
}
use etcdauto.Cluster.Only.{same_answer}
use etcdauto.Etcdcluster.{Config, discovery_config, cluster_round}
use etcdauto.Etcdcluster.Init.{inits, new_cluster_only_alone}

-- The node's IP file could not be read, or its endpoints were found unreachable.
abbrev pub Silent : Probe → Type 0
Silent p = (p ≡ unreadable) ⊎ ((ips : List String) × (p ≡ probed ips unreachable))

absent-Silent : (p : Probe) → ready_of (some p) ≡ none → not_ready_of (some p) ≡ none → Silent p
absent-Silent unreadable r n = inl refl
absent-Silent (probed ips unreachable) r n = inr (ips, refl)
absent-Silent (probed ips healthy) r n = ground (arith, r)
absent-Silent (probed ips not_ready) r n = ground (arith, n)

probe-Silent :
    (info : EndpointInfo) (ps : List (String × Probe)) (k : String) (p : Probe)
    → Concludes info ps
    → info.ready_nodes ≡ []
    → info.not_ready_nodes ≡ []
    → lookup k ps ≡ some p
    → Silent p
unfolding lookup
probe-Silent info ps k p concludes no_ready no_up at_k =
    let (r, n, d) = concludes k in
    absent-Silent p (sym (ap ready_of at_k) ∙ sym r ∙ ap (lookup k) no_ready)
      (sym (ap not_ready_of at_k) ∙ sym n ∙ ap (lookup k) no_up)

info_of : EndpointInfo → Result EndpointInfo → EndpointInfo
info_of d (ok info) = info
info_of d (err e) = d

ok_injective : (a b : EndpointInfo) → Result.ok a ≡ ok b → a ≡ b
unfolding info_of
ok_injective a b e = ap (info_of a) e

-- When the key pair loads and the IP directory can be listed, with no name twice, an iteration of
-- the main loop that begins a new cluster runs on pod 0, and its discovery has probed every IP file
-- of the directory and found each one silent: either the file could not be read, or the health of
-- the endpoints that it names was "unreachable".
pub new_cluster_needs_silence :
    (w : Host) (cfg : Config) (h : History) (es : List DirEntry)
    → w.key_pair_loads h (discovery_config cfg).cert_file (discovery_config cfg).key_file ≡ true
    → w.dir_of
        (load_key_pair (discovery_config cfg).cert_file (discovery_config cfg).key_file ∷ h)
        cfg.node_ip_dir
      ≡ some es
    → Distinct es
    → inits (cluster_round w cfg h).1 ≢ inits h
    → (cfg.my_index ≡ 0)
      × (ps : List (String × Probe)) × IsProbes w (discovery_config cfg) es ps
      × ((k : String) (p : Probe) → lookup k ps ≡ some p → Silent p)
new_cluster_needs_silence w cfg h es loaded listed distinct begun =
    elim (new_cluster_only_alone w cfg h) [
      | inl same ↦ absurd (begun same)
      | inr (first, info, found, no_ready, no_up) ↦
          let (info', ps, found', probes, concludes) =
            discover_endpoints_classifies w (discovery_config cfg) h es loaded listed distinct in
          let eq : info' ≡ info = ok_injective info' info (same_answer _ _ (sym found' ∙ found)) in
          (
            first,
            ps,
            probes,
            λ k p. probe-Silent info' ps k p concludes (rw eq no_ready) (rw eq no_up),
          )
    ]
