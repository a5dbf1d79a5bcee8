-- ===== src/Setup/Startup/Pairs.antt =====
-- The certificate and the key that `initializeEnvironment` of cmd/etcdcluster/main.go leaves.
use etcdauto.Prelude.{
  ◌⊎◌, ℕ, String, ◌≡◌, ◌≢◌, refl, sym, ap, ◌∙◌, Bool, true, false, not, ◌&&◌, some, List, [], ◌∷◌,
  Map, lookup, any, all, is_some, arith, ◌==◌, eq_iff, Bool-cases, inl, inr, if_true,
}
use etcdauto.Certs.Crypto.{Crypto, Moment}
use etcdauto.Setup.Network.{NetworkInfo}
use etcdauto.Setup.Settings.{Settings}
use etcdauto.Setup.Files.{Files, >>>-inverts}
use etcdauto.Setup.Certificate.{
  cert_file, key_file, ca_pem_file, create_cert_template, generate_certificate,
}
use etcdauto.Setup.Certificate.Steps.{state_of, carried}
use etcdauto.Setup.Certificate.Generated.{
  Generated, Generated-within, generate_certificate-Generated,
}
use etcdauto.Setup.Environment.{env_vars, create_directories, create_all, setup_environment}
use etcdauto.Setup.Environment.Variables.{IsOrder, setup_environment_lem}
use etcdauto.Setup.Startup.{
  cert_config, env_config, env_path, readyz_path, livez_path, write_scripts,
}
use etcdauto.Setup.Startup.Scripts.{
  write_scripts-Scripts, readyz_path-same, livez_path-same, env_path-same,
}

-- No text stands twice in the list.
unfoldable pub different : List String → Bool
different [] = true
different (x ∷ xs) = not (any (λ y. x == y) xs) && different xs

-- The files that are written
abbrev pub written_paths : Settings → (String → String) → List String
written_paths cfg env =
    cert_file (cert_config cfg)
    ∷ key_file (cert_config cfg)
    ∷ ca_pem_file cfg.cert_dir
    ∷ env_path env
    ∷ readyz_path env
    ∷ livez_path env
    ∷ []

abbrev pub Outside : String → List String → Type 0
Outside x [] = Unit
Outside x (y ∷ ys) = (x ≢ y) × Outside x ys

abbrev pub Pairwise : List String → Type 0
Pairwise [] = Unit
Pairwise (x ∷ xs) = Outside x xs × Pairwise xs

not_any-Outside : (x : String) (ys : List String) → any (λ y. x == y) ys ≡ false → Outside x ys
not_any-Outside x [] h = tt
not_any-Outside x (y ∷ ys) h =
    (ground (arith, h, eq_iff x y), not_any-Outside x ys (ground (arith, h)))

pub different-Pairwise : (xs : List String) → different xs ≡ true → Pairwise xs
unfolding different
different-Pairwise [] h = tt
different-Pairwise (x ∷ xs) h =
    (not_any-Outside x xs (ground (arith, h)), different-Pairwise xs (ground (arith, h)))

module _ (C : Crypto) (F : Files C.Bytes) where
  create_all-content :
      (dirs : List String) (s s' : F.State) (q : String)
      → create_all C F dirs s ≡ (some tt, s')
      → F.content s' q ≡ F.content s q
  unfolding create_all
  create_all-content [] s s' q h = ap (λ x. F.content x q) (sym (state_of h))
  create_all-content (dir ∷ dirs) s s' q h =
      let (u, s1, h1, k1) = >>>-inverts (F.mkdir_all dir s) _ tt s' h in
      create_all-content dirs s1 s' q k1
      ∙ carried C F (λ x. F.content x q ≡ F.content s q) h1 (F.mkdir_all_content dir s q)

  -- Both files were there once the directories were made, and what they hold is not changed.
  pub record PairKept (cfg : Settings) (s s' : F.State) : Type 0 where
    pub made : F.State
    pub directories_made : create_directories C F cfg.data_dir cfg.cert_dir s ≡ (some tt, made)
    pub cert_there : F.exists made (cert_file (cert_config cfg)) ≡ true
    pub key_there : F.exists made (key_file (cert_config cfg)) ≡ true
    pub cert_kept :
        F.content s' (cert_file (cert_config cfg)) ≡ F.content s (cert_file (cert_config cfg))
    pub key_kept :
        F.content s' (key_file (cert_config cfg)) ≡ F.content s (key_file (cert_config cfg))

  module _ (in_order : Map String → Map String) (itoa : ℕ → String) where
    -- The last two steps leave a file alone that they do not write.
    finished_elsewhere :
        (cfg : Settings) (info : NetworkInfo) (env : String → String) (s s1 s' : F.State)
        → IsOrder in_order
        → Pairwise (env_path env ∷ readyz_path env ∷ livez_path env ∷ [])
        → ((k : String) → F.env s k ≡ env k)
        → setup_environment C F in_order itoa (env_config cfg info) s ≡ (some tt, s1)
        → write_scripts C F cfg (env_config cfg info) s1 ≡ (some tt, s')
        → (q : String) → Outside q (env_path env ∷ readyz_path env ∷ livez_path env ∷ [])
        → (F.content s' q ≡ F.content s q) × (F.exists s' q ≡ F.exists s q)
    unfolding env_vars lookup
    finished_elsewhere cfg info env s s1 s' order ((er, (el, e)), ((rl, r), l)) same set written q
          (qe, (qr, (ql, u))) =
        let (given, kept, files) =
          setup_environment_lem C F in_order itoa (env_config cfg info) s s1 order set in
        let en =
          env_path-same (F.env s1) env (kept "ETCDCTL_ENV_FILE" refl ∙ same "ETCDCTL_ENV_FILE") in
        let re =
          readyz_path-same (F.env s1) env (kept "READYZ_SCRIPT" refl ∙ same "READYZ_SCRIPT") in
        let li = livez_path-same (F.env s1) env (kept "LIVEZ_SCRIPT" refl ∙ same "LIVEZ_SCRIPT") in
        let scripts =
          write_scripts-Scripts C F cfg (env_config cfg info) s1 s' (λ x. er (sym en ∙ x ∙ re))
            (λ x. el (sym en ∙ x ∙ li)) (λ x. rl (sym re ∙ x ∙ li)) written in
        (
          scripts.content_elsewhere q (λ x. qe (x ∙ en)) (λ x. qr (x ∙ re)) (λ x. ql (x ∙ li))
              ∙ (files q).0,
          scripts.exists_elsewhere q (λ x. qe (x ∙ en)) (λ x. qr (x ∙ re)) (λ x. ql (x ∙ li))
              ∙ (files q).1,
        )

    -- The pair of files that the first steps leave, after the last two
    pub finished_pair :
        (t : Moment) (cfg : Settings) (info : NetworkInfo) (s s1 s2 s3 s' : F.State)
        → IsOrder in_order
        → Pairwise (written_paths cfg (F.env s))
        → all is_some (create_cert_template C (cert_config cfg)).ip_addresses ≡ true
        → create_directories C F cfg.data_dir cfg.cert_dir s ≡ (some tt, s1)
        → generate_certificate C F t (cert_config cfg) s1 ≡ (some tt, s2)
        → ((k : String) → F.env s2 k ≡ F.env s k)
        → setup_environment C F in_order itoa (env_config cfg info) s2 ≡ (some tt, s3)
        → write_scripts C F cfg (env_config cfg info) s3 ≡ (some tt, s')
        → PairKept cfg s s' ⊎ Generated C F t (cert_config cfg) s s'
    unfolding create_directories generate_certificate
    finished_pair t cfg info s s1 s2 s3 s' order ((ck, (cp, c)), ((kp, k), (p, apart))) ips h1 h2
          same set written =
        let later = finished_elsewhere cfg info (F.env s) s2 s3 s' order apart same set written in
        let earlier =
          λ (q : String). create_all-content (cfg.data_dir ∷ cfg.cert_dir ∷ []) s s1 q h1 in
        elim (Bool-cases
          (F.exists s1 (cert_file (cert_config cfg)) && F.exists s1 (key_file (cert_config cfg)))) [
            | inl both ↦
                let unchanged = state_of (sym (if_true _ _ _ both) ∙ h2) in
                inl (record {
                  made = s1;
                  directories_made = h1;
                  cert_there = ground (arith, both);
                  key_there = ground (arith, both);
                  cert_kept =
                      (later (cert_file (cert_config cfg)) c).0
                      ∙ ap (λ x. F.content x (cert_file (cert_config cfg))) (sym unchanged)
                      ∙ earlier (cert_file (cert_config cfg));
                  key_kept =
                      (later (key_file (cert_config cfg)) k).0
                      ∙ ap (λ x. F.content x (key_file (cert_config cfg))) (sym unchanged)
                      ∙ earlier (key_file (cert_config cfg));
                })
            | inr missing ↦ inr (
                Generated-within C F t (cert_config cfg) s s1 s2 s'
                  (generate_certificate-Generated C F t (cert_config cfg) s1 s2 (ck, cp, kp) ips
                    missing h2)
                  (earlier cfg.ca_file) (later (cert_file (cert_config cfg)) c).0
                  (later (key_file (cert_config cfg)) k).0 (later (ca_pem_file cfg.cert_dir) p).1)
          ]
