-- ===== src/Setup/Startup/Ready.antt =====
-- What `initializeEnvironment` of cmd/etcdcluster/main.go leaves for etcd and its probes.
use etcdauto.Prelude.{
  ◌⊎◌, ℕ, String, ◌≡◌, refl, sym, ap, subst, ◌∙◌, true, Option, some, List, [], ◌∷◌, Map, lookup,
  join, all, is_some, arith, Bool-cases, inl, inr, if_true, if_false, is_empty,
}
use etcdauto.Certs.Crypto.{Crypto, Moment}
use etcdauto.Setup.Network.{
  Addr, NetworkInfo, Extracted, no_interfaces, no_addresses, extracted, extract_network_info,
}
use etcdauto.Setup.Settings.{Settings}
use etcdauto.Setup.Files.{Files, >>>-inverts}
use etcdauto.Setup.Certificate.{
  cert_file, key_file, ca_pem_file, create_cert_template, generate_certificate,
}
use etcdauto.Setup.Certificate.Steps.{state_of, answer_of, carried}
use etcdauto.Setup.Certificate.Generated.{
  Generated, generate_certificate-exists, generate_certificate-env,
}
use etcdauto.Setup.Environment.{
  env_vars, etcdctl_env, readyz_script, livez_script, create_directories, create_all,
  setup_environment,
}
use etcdauto.Setup.Environment.Variables.{IsOrder, setup_environment_lem}
use etcdauto.Setup.Startup.{
  cert_config, network_config, env_config, network_info, env_path, readyz_path, livez_path,
  write_scripts, set_up, initialize_environment,
}
use etcdauto.Setup.Startup.Pairs.{
  written_paths, different, Pairwise, different-Pairwise, PairKept, finished_pair,
}
use etcdauto.Setup.Startup.Scripts.{
  write_scripts-Scripts, readyz_path-same, livez_path-same, env_path-same,
}

network_info-extracted :
    (e : Extracted) (info : NetworkInfo) → network_info e ≡ some info → e ≡ extracted info
unfolding network_info
network_info-extracted no_interfaces info h = ground (arith, h)
network_info-extracted no_addresses info h = ground (arith, h)
network_info-extracted (extracted x) info h = ground (arith, h)

module _ (C : Crypto) (F : Files C.Bytes) where
  create_all-env :
      (dirs : List String) (s s' : F.State) (k : String)
      → create_all C F dirs s ≡ (some tt, s')
      → F.env s' k ≡ F.env s k
  unfolding create_all
  create_all-env [] s s' k h = ap (λ x. F.env x k) (sym (state_of h))
  create_all-env (dir ∷ dirs) s s' k h =
      let (u, s1, h1, k1) = >>>-inverts (F.mkdir_all dir s) _ tt s' h in
      create_all-env dirs s1 s' k k1
      ∙ carried C F (λ x. F.env x k ≡ F.env s k) h1 (F.mkdir_all_env dir s k)

  -- The variables name the pod, its addresses and its data directory, and the files of the
  -- certificate, the key and the CA; the first two exist, and the file for etcdctl and the probes are
  -- written.
  pub record Ready (addresses : String → Option (List Addr)) (cfg : Settings)
      (env : String → String) (s' : F.State) : Type 0 where
    pub info : NetworkInfo
    pub info_extracted : extract_network_info addresses (network_config cfg) ≡ extracted info
    pub name_set : F.env s' "ETCD_NAME" ≡ cfg.pod_name
    pub data_dir_set : F.env s' "ETCD_DATA_DIR" ≡ cfg.data_dir
    pub client_urls_set : F.env s' "ETCD_ADVERTISE_CLIENT_URLS" ≡ join "," info.client_urls
    pub peer_urls_set : F.env s' "ETCD_INITIAL_ADVERTISE_PEER_URLS" ≡ join "," info.peer_urls
    pub cert_file_set : F.env s' "ETCD_CERT_FILE" ≡ cert_file (cert_config cfg)
    pub key_file_set : F.env s' "ETCD_KEY_FILE" ≡ key_file (cert_config cfg)
    pub ca_file_set : F.env s' "ETCD_TRUSTED_CA_FILE" ≡ ca_pem_file cfg.cert_dir
    pub cert_exists : F.exists s' (F.env s' "ETCD_CERT_FILE") ≡ true
    pub key_exists : F.exists s' (F.env s' "ETCD_KEY_FILE") ≡ true
    pub env_written :
        F.content s' (env_path env) ≡ some (C.of_text (etcdctl_env (env_config cfg info)))
    pub readyz_written :
        F.content s' (readyz_path env) ≡ some (C.of_text (readyz_script "/run/etcd/env"))
    pub livez_written :
        F.content s' (livez_path env)
        ≡ some (C.of_text (livez_script cfg.pod_name cfg.cert_dir cfg.client_http_port))

  module _ (in_order : Map String → Map String) (itoa : ℕ → String)
      (addresses : String → Option (List Addr)) where
    -- The last two steps, from a state with the pair of files
    finished :
        (cfg : Settings) (info : NetworkInfo) (env : String → String) (s s1 s' : F.State)
        → IsOrder in_order
        → Pairwise (written_paths cfg env)
        → ((k : String) → F.env s k ≡ env k)
        → extract_network_info addresses (network_config cfg) ≡ extracted info
        → F.exists s (cert_file (cert_config cfg)) ≡ true
        → F.exists s (key_file (cert_config cfg)) ≡ true
        → setup_environment C F in_order itoa (env_config cfg info) s ≡ (some tt, s1)
        → write_scripts C F cfg (env_config cfg info) s1 ≡ (some tt, s')
        → Ready addresses cfg env s'
    unfolding env_vars lookup
    finished cfg info env s s1 s' order
          (
            (ck, (cp, (ce, (cr, (cl, c))))),
            ((kp, (ke, (kr, (kl, k)))), (p, ((er, (el, e)), ((rl, r), l)))),
          )
          same is_info cert_there key_there set written =
        let (given, kept, files) =
          setup_environment_lem C F in_order itoa (env_config cfg info) s s1 order set in
        let en =
          env_path-same (F.env s1) env (kept "ETCDCTL_ENV_FILE" refl ∙ same "ETCDCTL_ENV_FILE") in
        let re =
          readyz_path-same (F.env s1) env (kept "READYZ_SCRIPT" refl ∙ same "READYZ_SCRIPT") in
        let li = livez_path-same (F.env s1) env (kept "LIVEZ_SCRIPT" refl ∙ same "LIVEZ_SCRIPT") in
        let scripts =
          write_scripts-Scripts C F cfg (env_config cfg info) s1 s' (λ q. er (sym en ∙ q ∙ re))
            (λ q. el (sym en ∙ q ∙ li)) (λ q. rl (sym re ∙ q ∙ li)) written in
        let value =
          λ (key v : String) (q : lookup key (env_vars itoa (env_config cfg info)) ≡ some v).
            scripts.env_kept key ∙ given key v q in
        record {
          info = info;
          info_extracted = is_info;
          name_set = value "ETCD_NAME" cfg.pod_name refl;
          data_dir_set = value "ETCD_DATA_DIR" cfg.data_dir refl;
          client_urls_set = value "ETCD_ADVERTISE_CLIENT_URLS" (join "," info.client_urls) refl;
          peer_urls_set = value "ETCD_INITIAL_ADVERTISE_PEER_URLS" (join "," info.peer_urls) refl;
          cert_file_set = value "ETCD_CERT_FILE" (cert_file (cert_config cfg)) refl;
          key_file_set = value "ETCD_KEY_FILE" (key_file (cert_config cfg)) refl;
          ca_file_set = value "ETCD_TRUSTED_CA_FILE" (ca_pem_file cfg.cert_dir) refl;
          cert_exists =
              ap (F.exists s') (value "ETCD_CERT_FILE" (cert_file (cert_config cfg)) refl)
              ∙ scripts.exists_elsewhere (cert_file (cert_config cfg)) (λ q. ce (q ∙ en))
                  (λ q. cr (q ∙ re)) (λ q. cl (q ∙ li))
              ∙ (files (cert_file (cert_config cfg))).1
              ∙ cert_there;
          key_exists =
              ap (F.exists s') (value "ETCD_KEY_FILE" (key_file (cert_config cfg)) refl)
              ∙ scripts.exists_elsewhere (key_file (cert_config cfg)) (λ q. ke (q ∙ en))
                  (λ q. kr (q ∙ re)) (λ q. kl (q ∙ li))
              ∙ (files (key_file (cert_config cfg))).1
              ∙ key_there;
          env_written = ap (F.content s') (sym en) ∙ scripts.env_stored;
          readyz_written = ap (F.content s') (sym re) ∙ scripts.readyz_stored;
          livez_written = ap (F.content s') (sym li) ∙ scripts.livez_stored;
        }

    -- `initializeEnvironment` without an error, where the files that it writes are different ones
    -- and no address fails to parse, in whatever order Go goes through the map of the variables:
    -- it gives etcd its name, its data directory, its URLs and the paths of its certificate, its
    -- key and the CA, and writes the file for etcdctl and the two probes. The paths of the
    -- certificate and the key exist. Either both existed once the directories were made, and what
    -- they hold is as it was, whatever that is; or they hold a certificate for the template of
    -- the configuration and its key, which load together, the certificate verifies against the
    -- authority of the CA file if that one may sign, and the path of the CA exists.
    pub initialize_environment-Ready :
        (t : Moment) (cfg : Settings) (s s' : F.State)
        → IsOrder in_order
        → different (written_paths cfg (F.env s)) ≡ true
        → all is_some (create_cert_template C (cert_config cfg)).ip_addresses ≡ true
        → initialize_environment C F in_order itoa addresses t cfg s ≡ (some tt, s')
        → Ready addresses cfg (F.env s) s'
          × (PairKept C F cfg s s' ⊎ Generated C F t (cert_config cfg) s s')
    unfolding initialize_environment set_up create_directories
    initialize_environment-Ready t cfg s s' order apart ips h =
        elim (Bool-cases (is_empty cfg.my_ips)) [
          | inl none_there ↦ ground (arith, sym (if_true _ _ _ none_there) ∙ h)
          | inr some_there ↦
              let begun = sym (if_false (is_empty cfg.my_ips) _ _ some_there) ∙ h in
              let distinct = different-Pairwise (written_paths cfg (F.env s)) apart in
              let ((ck, (cp, rest)), ((kp, more), others)) = distinct in
              let (u1, s1, h1, k1) =
                >>>-inverts (create_directories C F cfg.data_dir cfg.cert_dir s) _ tt s' begun in
              let (u2, s2, h2, k2) =
                >>>-inverts (generate_certificate C F t (cert_config cfg) s1) _ tt s' k1 in
              let (info, s3, h3, k3) =
                >>>-inverts (network_info (extract_network_info addresses (network_config cfg)), s2)
                  _ tt s' k2 in
              let (u4, s4, h4, k4) =
                >>>-inverts (setup_environment C F in_order itoa (env_config cfg info) s3) _ tt s'
                  k3 in
              let (cert_there, key_there) =
                generate_certificate-exists C F t (cert_config cfg) s1 s2 (ck, cp, kp) ips h2 in
              let same = λ (key : String).
                ap (λ x. F.env x key) (sym (state_of h3))
                ∙ generate_certificate-env C F t (cert_config cfg) s1 s2 key h2
                ∙ create_all-env (cfg.data_dir ∷ cfg.cert_dir ∷ []) s s1 key h1 in
              (
                finished cfg info (F.env s) s3 s4 s' order distinct same
                    (network_info-extracted (extract_network_info addresses (network_config cfg))
                      info (answer_of h3))
                    (subst (λ x. F.exists x (cert_file (cert_config cfg)) ≡ true) (state_of h3)
                      cert_there)
                    (subst (λ x. F.exists x (key_file (cert_config cfg)) ≡ true) (state_of h3)
                      key_there)
                    h4 k4,
                finished_pair C F in_order itoa t cfg info s s1 s2 s4 s' order distinct ips h1 h2
                    (λ k. ap (λ x. F.env x k) (state_of h3) ∙ same k)
                    (subst
                      (λ x.
                        setup_environment C F in_order itoa (env_config cfg info) x ≡ (some tt, s4))
                      (sym (state_of h3)) h4)
                    k4,
              )
        ]
