-- ===== src/Setup/Startup/Scripts.antt =====
-- The files that `initializeEnvironment` of cmd/etcdcluster/main.go writes last.
use etcdauto.Prelude.{String, ◌≡◌, ◌≢◌, refl, subst, ◌∙◌, some}
use etcdauto.Certs.Crypto.{Crypto}
use etcdauto.Setup.Settings.{Settings, get_env_or_default}
use etcdauto.Setup.Files.{Files, >>>-inverts}
use etcdauto.Setup.Certificate.Steps.{carried}
use etcdauto.Setup.Environment.{
  EnvConfig, etcdctl_env, readyz_script, livez_script, write_etcdctl_env_file, write_readyz_script,
  write_livez_script,
}
use etcdauto.Setup.Startup.{env_path, readyz_path, livez_path, write_scripts}

-- A variable that is the same in both
get_env_or_default-same :
    (e f : String → String) (key default : String)
    → e key ≡ f key
    → get_env_or_default e key default ≡ get_env_or_default f key default
unfolding get_env_or_default
get_env_or_default-same e f key default same = rw same refl

pub env_path-same :
    (e f : String → String) → e "ETCDCTL_ENV_FILE" ≡ f "ETCDCTL_ENV_FILE" → env_path e ≡ env_path f
unfolding env_path
env_path-same e f same = get_env_or_default-same e f _ _ same

pub readyz_path-same :
    (e f : String → String) → e "READYZ_SCRIPT" ≡ f "READYZ_SCRIPT" → readyz_path e ≡ readyz_path f
unfolding readyz_path
readyz_path-same e f same = get_env_or_default-same e f _ _ same

pub livez_path-same :
    (e f : String → String) → e "LIVEZ_SCRIPT" ≡ f "LIVEZ_SCRIPT" → livez_path e ≡ livez_path f
unfolding livez_path
livez_path-same e f same = get_env_or_default-same e f _ _ same

module _ (C : Crypto) (F : Files C.Bytes) where
  -- The three files are written, and nothing else is changed.
  pub record Scripts (cfg : Settings) (env_cfg : EnvConfig) (env readyz livez : String)
      (s s' : F.State) : Type 0 where
    pub env_stored : F.content s' env ≡ some (C.of_text (etcdctl_env env_cfg))
    pub readyz_stored : F.content s' readyz ≡ some (C.of_text (readyz_script "/run/etcd/env"))
    pub livez_stored :
        F.content s' livez
        ≡ some (C.of_text (livez_script cfg.pod_name cfg.cert_dir cfg.client_http_port))
    pub exists_elsewhere :
        (q : String) → q ≢ env → q ≢ readyz → q ≢ livez → F.exists s' q ≡ F.exists s q
    pub content_elsewhere :
        (q : String) → q ≢ env → q ≢ readyz → q ≢ livez → F.content s' q ≡ F.content s q
    pub env_kept : (k : String) → F.env s' k ≡ F.env s k

  written_three :
      (cfg : Settings) (env_cfg : EnvConfig) (env readyz livez : String) (s s1 s2 s' : F.State)
      → env ≢ readyz
      → env ≢ livez
      → readyz ≢ livez
      → write_etcdctl_env_file C F env_cfg env s ≡ (some tt, s1)
      → write_readyz_script C F "/run/etcd/env" readyz s1 ≡ (some tt, s2)
      → write_livez_script C F cfg.pod_name cfg.cert_dir cfg.client_http_port livez s2
        ≡ (some tt, s')
      → Scripts cfg env_cfg env readyz livez s s'
  unfolding write_etcdctl_env_file write_readyz_script write_livez_script
  written_three cfg env_cfg env readyz livez s s1 s2 s' er el rl h1 h2 h3 =
      let a = F.write_file_content env _ s s1 h1 in
      let b = F.write_file_content readyz _ s1 s2 h2 in
      let second = λ (q : String) (other : q ≢ readyz).
        carried C F (λ x. (F.content x q ≡ F.content s1 q) × (F.exists x q ≡ F.exists s1 q)) h2
          (F.write_file_elsewhere readyz _ s1 q other) in
      let third = λ (q : String) (other : q ≢ livez).
        carried C F (λ x. (F.content x q ≡ F.content s2 q) × (F.exists x q ≡ F.exists s2 q)) h3
          (F.write_file_elsewhere livez _ s2 q other) in
      record {
        env_stored = (third env el).0 ∙ (second env er).0 ∙ a;
        readyz_stored = (third readyz rl).0 ∙ b;
        livez_stored = F.write_file_content livez _ s2 s' h3;
        exists_elsewhere = λ q qe qr ql.
            (third q ql).1
            ∙ (second q qr).1
            ∙ carried C F (λ x. F.exists x q ≡ F.exists s q) h1
                (F.write_file_elsewhere env _ s q qe).1;
        content_elsewhere = λ q qe qr ql.
            (third q ql).0
            ∙ (second q qr).0
            ∙ carried C F (λ x. F.content x q ≡ F.content s q) h1
                (F.write_file_elsewhere env _ s q qe).0;
        env_kept = λ k.
            carried C F (λ x. F.env x k ≡ F.env s2 k) h3 (F.write_file_env livez _ s2 k)
            ∙ carried C F (λ x. F.env x k ≡ F.env s1 k) h2 (F.write_file_env readyz _ s1 k)
            ∙ carried C F (λ x. F.env x k ≡ F.env s k) h1 (F.write_file_env env _ s k);
      }

  pub write_scripts-Scripts :
      (cfg : Settings) (env_cfg : EnvConfig) (s s' : F.State)
      → env_path (F.env s) ≢ readyz_path (F.env s)
      → env_path (F.env s) ≢ livez_path (F.env s)
      → readyz_path (F.env s) ≢ livez_path (F.env s)
      → write_scripts C F cfg env_cfg s ≡ (some tt, s')
      → Scripts cfg env_cfg (env_path (F.env s)) (readyz_path (F.env s)) (livez_path (F.env s)) s s'
  unfolding write_scripts write_etcdctl_env_file write_readyz_script
  write_scripts-Scripts cfg env_cfg s s' er el rl h =
      let (u1, s1, h1, k1) =
        >>>-inverts (write_etcdctl_env_file C F env_cfg (env_path (F.env s)) s) _ tt s' h in
      let (u2, s2, h2, k2) =
        >>>-inverts (write_readyz_script C F "/run/etcd/env" (readyz_path (F.env s1)) s1) _ tt s'
          k1 in
      let first = λ (k : String).
        carried C F (λ x. F.env x k ≡ F.env s k) h1 (F.write_file_env (env_path (F.env s)) _ s k) in
      let second = λ (k : String).
        carried C F (λ x. F.env x k ≡ F.env s1 k) h2
          (F.write_file_env (readyz_path (F.env s1)) _ s1 k)
        ∙ first k in
      written_three cfg env_cfg (env_path (F.env s)) (readyz_path (F.env s)) (livez_path (F.env s))
        s s1 s2 s' er el rl h1
        (subst (λ p. write_readyz_script C F "/run/etcd/env" p s1 ≡ (some tt, s2))
          (readyz_path-same (F.env s1) (F.env s) (first "READYZ_SCRIPT")) h2)
        (subst
          (λ p.
            write_livez_script C F cfg.pod_name cfg.cert_dir cfg.client_http_port p s2
            ≡ (some tt, s'))
          (livez_path-same (F.env s2) (F.env s) (second "LIVEZ_SCRIPT")) k2)
