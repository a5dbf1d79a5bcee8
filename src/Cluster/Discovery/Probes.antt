-- ===== src/Cluster/Discovery/Probes.antt =====
-- The probes of one discovery: they end, and there is one for each file that names an IP.
use etcdauto.Prelude.{
  String, ◌≡◌, refl, Bool, false, not, ◌&&◌, ◌||◌, Option, none, List, [], ◌∷◌, lookup, Unique,
  is_some, All, any, arith, ◌==◌, Bool-cases, inl, inr,
}
use etcdauto.Cluster.Host.{
  Host, DirEntry, GetReply, failed, History, done, Result, ok, err, Total, Total-pure, Total-bind,
  total_rules,
}
use etcdauto.Cluster.Discovery.{
  DiscoveryConfig, not_ready, Probe, unreadable, probe_alarms, probe_etcd, probe_reply, probe_ips,
  check_single_endpoint, check_all, check_endpoint_health, file_exists, read_ip_file, probe_master,
  probe_entries,
}

-- os.ReadDir lists every name once.
abbrev pub Distinct : List DirEntry → Type 0
Distinct [] = Unit
Distinct (e ∷ es) = (any (λ x. x.name == e.name) es ≡ false) × Distinct es

any-and :
    (p q : DirEntry → Bool) (es : List DirEntry)
    → any q es ≡ false
    → any (λ x. p x && q x) es ≡ false
any-and p q [] h = refl
any-and p q (e ∷ es) h = ground (arith, any-and p q es)

absent-lookup :
    {o : Option Probe} (p q : DirEntry → Bool) (es : List DirEntry)
    → is_some o ≡ any (λ x. p x && q x) es
    → any q es ≡ false
    → o ≡ none
absent-lookup p q es e h = ground (arith, any-and p q es h)

probe_alarms-Total : (w : Host) (c : List String) → Total (probe_alarms w c)
unfolding probe_alarms
probe_alarms-Total w c = search total_rules

probe_reply-Total : (w : Host) (c : List String) (r : GetReply) → Total (probe_reply w c r)
unfolding probe_reply
probe_reply-Total w c failed = Total-pure not_ready
probe_reply-Total w c _ = probe_alarms-Total w c

probe_etcd-Total : (w : Host) (c : List String) → Total (probe_etcd w c)
unfolding probe_etcd
probe_etcd-Total w c = search (total_rules, probe_reply-Total)

module _ (w : Host) where
  check_single_endpoint-Total : (e : String) → Total (check_single_endpoint w e)
  unfolding check_single_endpoint
  check_single_endpoint-Total e = search (total_rules, probe_etcd-Total) depth 9

  check_all-Total : (port : String) (ips : List String) → Total (check_all w port ips)
  unfolding check_all
  check_all-Total port [] = Total-pure _
  check_all-Total port (ip ∷ ips) =
      Total-bind _ _ (check_single_endpoint-Total _)
        λ s. Total-bind _ _ (check_all-Total port ips) λ ss. Total-pure _

  check_endpoint_health-Total :
      (ips : List String) (port : String) → Total (check_endpoint_health w ips port)
  unfolding check_endpoint_health
  check_endpoint_health-Total [] port = Total-pure _
  check_endpoint_health-Total (ip ∷ ips) port =
      Total-bind _ _ (check_all-Total port (ip ∷ ips)) (λ hs. Total-pure _)

  read_ip_file-Total : (dir ip : String) → Total (read_ip_file w dir ip)
  unfolding read_ip_file file_exists
  read_ip_file-Total dir ip = search total_rules depth 9

  probe_ips-Total : (cfg : DiscoveryConfig) (r : Result (List String)) → Total (probe_ips w cfg r)
  unfolding probe_ips
  probe_ips-Total cfg (err e) = Total-pure unreadable
  probe_ips-Total cfg (ok ips) = search (total_rules, check_endpoint_health-Total)

  probe_master-Total : (cfg : DiscoveryConfig) (ip : String) → Total (probe_master w cfg ip)
  unfolding probe_master
  probe_master-Total cfg ip = search (total_rules, read_ip_file-Total, probe_ips-Total)

  -- The entries that are probed: files that are named after an IP.
  abbrev pub is_probed : DirEntry → Bool
  is_probed e = not (e.is_dir || not (w.is_ip e.name))

  abbrev pub Found : DiscoveryConfig → String × Probe → Type 0
  Found cfg (ip, p) = (g : History) × ((probe_master w cfg ip g).0 ≡ done p)

  abbrev pub IsProbes : DiscoveryConfig → List DirEntry → List (String × Probe) → Type 0
  IsProbes cfg es ps =
      ((k : String) → is_some (lookup k ps) ≡ any (λ e. is_probed e && (e.name == k)) es)
      × All (Found cfg) ps
      × (Distinct es → Unique ps)

  pub probe_entries_lem :
      (cfg : DiscoveryConfig) (es : List DirEntry) (h : History)
      → (ps : List (String × Probe)) × (h' : History) × (probe_entries w cfg es h ≡ (done ps, h'))
        × IsProbes cfg es ps
  unfolding probe_entries lookup
  probe_entries_lem cfg [] h = ([], h, refl, (λ k. refl, tt, λ d. tt))
  probe_entries_lem cfg (e ∷ es) h = elim (Bool-cases (e.is_dir || not (w.is_ip e.name))) [
    | inl skip ↦
        let (ps, h', q, fits) = probe_entries_lem cfg es h in
        (ps, h', rw skip q, (λ k. rw skip (fits.0 k), fits.1, λ d. fits.2 d.1))
    | inr take ↦
        let (p, h', q) = (probe_master-Total cfg e.name).returns h in
        let (ps, h'', q', fits) = probe_entries_lem cfg es h' in
        let step : IsProbes cfg (e ∷ es) ((e.name, p) ∷ ps) = (
          λ k. rw take (ground (arith, fits.0 k)),
          ((h, rw q), fits.1),
          λ d. (absent-lookup _ _ es (fits.0 e.name) d.0, fits.2 d.1),
        ) in
        ((e.name, p) ∷ ps, h'', rw take (rw q (rw q')), step)
  ]
