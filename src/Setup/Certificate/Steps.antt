-- ===== src/Setup/Certificate/Steps.antt =====
-- The steps of `GenerateCertificate` of pkg/init/cert.go, one by one.
use etcdauto.Prelude.{
  String, ◌≡◌, refl, sym, ap, subst, ◌∙◌, ◌≢◌, true, Option, some, inl, inr, Bool-cases,
  Option-cases, if_true, if_false,
}
use etcdauto.Certs.Crypto.{Crypto, Moment}
use etcdauto.Certs.Authority.Loading.{>>=-eq-some, some_injective}
use etcdauto.Setup.Files.{Files, ◌>>>◌, >>>-inverts}
use etcdauto.Setup.Certificate.{
  CertConfig, cert_file, key_file, ca_pem_file, create_cert_template, ca_certificate_of,
  load_ca_certificate, load_ca_private_key, load_ca, write_cert_files, copy_file, copy_ca_cert,
  generate,
}

pub state_of : {S A : Type 0} {r : Option A × S} {o : Option A} {s : S} → r ≡ (o, s) → r.1 ≡ s
state_of e = ap (λ r. r.1) e

pub answer_of : {S A : Type 0} {r : Option A × S} {o : Option A} {s : S} → r ≡ (o, s) → r.0 ≡ o
answer_of e = ap (λ r. r.0) e

module _ (C : Crypto) (F : Files C.Bytes) where
  pub write_cert_files-stores :
      (cert key : String) (der : C.Bytes) (own : C.Key) (s s' : F.State)
      → cert ≢ key
      → write_cert_files C F cert key der own s ≡ (some tt, s')
      → (b : C.Bytes) × (C.marshal_key own ≡ some b)
        × (F.content s' cert ≡ some (C.encode "CERTIFICATE" der))
        × (F.content s' key ≡ some (C.encode "EC PRIVATE KEY" b))
  unfolding write_cert_files
  write_cert_files-stores cert key der own s s' apart h =
      let (u1, s1, h1, k1) = >>>-inverts (F.create cert s) _ tt s' h in
      let (u2, s2, h2, k2) = >>>-inverts (F.write cert _ s1) _ tt s' k1 in
      let (u3, s3, h3, k3) = >>>-inverts (F.create key s2) _ tt s' k2 in
      let (b, s4, h4, k4) = >>>-inverts (C.marshal_key own, s3) _ tt s' k3 in
      let same = state_of h4 in
      let stored =
        F.write_content cert (C.encode "CERTIFICATE" der) s1 s2 (F.create_empty cert s s1 h1) h2 in
      let blank = subst (λ x. F.content x key ≡ some F.empty) same (F.create_empty key s2 s3 h3) in
      (
        b,
        answer_of h4,
        subst (λ x. F.content x cert ≡ some (C.encode "CERTIFICATE" der)) (state_of k4)
            ((F.write_elsewhere key (C.encode "EC PRIVATE KEY" b) s4 cert apart).0
              ∙ subst (λ x. F.content x cert ≡ some (C.encode "CERTIFICATE" der))
                  (state_of h3 ∙ same) ((F.create_elsewhere key s2 cert apart).0 ∙ stored)),
        F.write_content key (C.encode "EC PRIVATE KEY" b) s4 s' blank k4,
      )

  -- What holds of the state after a call
  pub carried :
      {A : Type 0} {r : Option A × F.State} {o : Option A} {s' : F.State} (P : F.State → Type 0)
      → r ≡ (o, s')
      → P r.1
      → P s'
  carried P e p = subst P (state_of e) p

  pub write_cert_files-env :
      (cert key : String) (der : C.Bytes) (own : C.Key) (s s' : F.State) (k : String)
      → write_cert_files C F cert key der own s ≡ (some tt, s')
      → F.env s' k ≡ F.env s k
  unfolding write_cert_files
  write_cert_files-env cert key der own s s' k h =
      let (u1, s1, h1, k1) = >>>-inverts (F.create cert s) _ tt s' h in
      let (u2, s2, h2, k2) = >>>-inverts (F.write cert _ s1) _ tt s' k1 in
      let (u3, s3, h3, k3) = >>>-inverts (F.create key s2) _ tt s' k2 in
      let (b, s4, h4, k4) = >>>-inverts (C.marshal_key own, s3) _ tt s' k3 in
      carried (λ x. F.env x k ≡ F.env s4 k) k4 (F.write_env key _ s4 k)
      ∙ ap (λ x. F.env x k) (sym (state_of h4))
      ∙ carried (λ x. F.env x k ≡ F.env s2 k) h3 (F.create_env key s2 k)
      ∙ carried (λ x. F.env x k ≡ F.env s1 k) h2 (F.write_env cert _ s1 k)
      ∙ carried (λ x. F.env x k ≡ F.env s k) h1 (F.create_env cert s k)

  pub copy_ca_cert-env :
      (ca_file dir : String) (s : F.State) (k : String)
      → F.env (copy_ca_cert C F ca_file dir s).1 k ≡ F.env s k
  unfolding copy_ca_cert ◌>>>◌
  copy_ca_cert-env ca_file dir s k = elim (Bool-cases (F.exists s (ca_pem_file dir))) [
    | inl there ↦ rw there refl
    | inr absent ↦ rw absent (elim (Option-cases (F.read s ca_file)) [
      | inl failed ↦ rw failed refl
      | inr (b, e) ↦ rw e (F.write_file_env (ca_pem_file dir) b s k)
    ])
  ]

  pub load_ca-reads :
      (ca_file ca_key_file : String) (s : F.State) (ca : C.Cert) (signer : C.Signer)
      → load_ca C F ca_file ca_key_file s ≡ some (ca, signer)
      → (pem : C.Bytes) × (F.content s ca_file ≡ some pem) × (ca_certificate_of C pem ≡ some ca)
  unfolding load_ca load_ca_certificate
  load_ca-reads ca_file ca_key_file s ca signer h =
      let (x, loaded, h1) = >>=-eq-some (load_ca_certificate C F ca_file s) _ h in
      let (y, key, h2) = >>=-eq-some (load_ca_private_key C F ca_key_file s) _ h1 in
      let (pem, found, parsed) = >>=-eq-some (F.read s ca_file) _ loaded in
      (
        pem,
        F.read_content s ca_file pem found,
        parsed ∙ ap some (ap (λ r. r.0) (some_injective h2)),
      )

  -- Copying the certificate of the authority leaves other files as they are.
  pub copy_ca_cert-elsewhere :
      (ca_file dir : String) (s : F.State) (q : String)
      → q ≢ ca_pem_file dir
      → F.content (copy_ca_cert C F ca_file dir s).1 q ≡ F.content s q
  unfolding copy_ca_cert ◌>>>◌
  copy_ca_cert-elsewhere ca_file dir s q other = elim (Bool-cases (F.exists s (ca_pem_file dir))) [
    | inl there ↦ rw there refl
    | inr absent ↦ rw absent (elim (Option-cases (F.read s ca_file)) [
      | inl failed ↦ rw failed refl
      | inr (b, e) ↦ rw e (F.write_file_elsewhere (ca_pem_file dir) b s q other).0
    ])
  ]

  pub copy_ca_cert-exists :
      (ca_file dir : String) (s s' : F.State)
      → copy_ca_cert C F ca_file dir s ≡ (some tt, s')
      → F.exists s' (ca_pem_file dir) ≡ true
  unfolding copy_ca_cert copy_file
  copy_ca_cert-exists ca_file dir s s' h = elim (Bool-cases (F.exists s (ca_pem_file dir))) [
    | inl there ↦
        subst (λ x. F.exists x (ca_pem_file dir) ≡ true)
          (state_of (sym (if_true (F.exists s (ca_pem_file dir)) _ _ there) ∙ h)) there
    | inr absent ↦
        let (b, s1, h1, k) =
          >>>-inverts (F.read s ca_file, s) _ tt s'
            (sym (if_false (F.exists s (ca_pem_file dir)) _ _ absent) ∙ h) in
        F.exists_content s' (ca_pem_file dir) b (F.write_file_content (ca_pem_file dir) b s1 s' k)
  ]

  -- What a run of `generate` without an error has passed: the states after the directory was made and
  -- after the pair was written, and the answers in between
  pub record Passed (t : Moment) (cfg : CertConfig) (s s' : F.State) : Type 0 where
    pub with_dir : F.State
    pub with_pair : F.State
    pub ca : C.Cert
    pub signer : C.Signer
    pub own : C.Key
    pub der : C.Bytes
    pub dir_made : F.mkdir_all cfg.cert_dir s ≡ (some tt, with_dir)
    pub ca_loaded : load_ca C F cfg.ca_file cfg.ca_key_file with_dir ≡ some (ca, signer)
    pub created :
        C.create_certificate t (C.random_serial t) (create_cert_template C cfg) (some ca) own signer
        ≡ some der
    pub pair_written :
        write_cert_files C F (cert_file cfg) (key_file cfg) der own with_dir ≡ (some tt, with_pair)
    pub copied : copy_ca_cert C F cfg.ca_file cfg.cert_dir with_pair ≡ (some tt, s')

  pub generate-Passed :
      (t : Moment) (cfg : CertConfig) (s s' : F.State)
      → generate C F t cfg s ≡ (some tt, s')
      → Passed t cfg s s'
  unfolding generate
  generate-Passed t cfg s s' h =
      let (u1, s1, h1, k1) = >>>-inverts (F.mkdir_all cfg.cert_dir s) _ tt s' h in
      let ((ca, signer), s2, h2, k2) =
        >>>-inverts (load_ca C F cfg.ca_file cfg.ca_key_file s1, s1) _ tt s' k1 in
      let (own, s3, h3, k3) = >>>-inverts (C.generate_key t, s2) _ tt s' k2 in
      let (der, s4, h4, k4) =
        >>>-inverts
          (
            C.create_certificate t (C.random_serial t) (create_cert_template C cfg) (some ca) own
                signer,
            s3,
          )
          _ tt s' k3 in
      let (u5, s5, h5, k5) =
        >>>-inverts (write_cert_files C F (cert_file cfg) (key_file cfg) der own s4) _ tt s' k4 in
      record {
        with_dir = s1;
        with_pair = s5;
        ca = ca;
        signer = signer;
        own = own;
        der = der;
        dir_made = h1;
        ca_loaded = answer_of h2;
        created = answer_of h4;
        pair_written =
            subst
              (λ x. write_cert_files C F (cert_file cfg) (key_file cfg) der own x ≡ (some tt, s5))
              (sym (state_of h2 ∙ state_of h3 ∙ state_of h4)) h5;
        copied = k5;
      }

  pub generate-env :
      (t : Moment) (cfg : CertConfig) (s s' : F.State) (k : String)
      → generate C F t cfg s ≡ (some tt, s')
      → F.env s' k ≡ F.env s k
  generate-env t cfg s s' k h =
      let p = generate-Passed t cfg s s' h in
      carried (λ x. F.env x k ≡ F.env p.with_pair k) p.copied
        (copy_ca_cert-env cfg.ca_file cfg.cert_dir p.with_pair k)
      ∙ write_cert_files-env (cert_file cfg) (key_file cfg) p.der p.own p.with_dir p.with_pair k
          p.pair_written
      ∙ carried (λ x. F.env x k ≡ F.env s k) p.dir_made (F.mkdir_all_env cfg.cert_dir s k)
