-- ===== src/Setup/Certificate/Generated.antt =====
-- What pkg/init/cert.go leaves in the files of a pod.
use etcdauto.Prelude.{
  String, ◌≡◌, sym, ap, subst, ◌∙◌, ◌≢◌, true, false, ◌&&◌, none, some, all, is_some, arith, inl,
  inr, Bool-cases, if_true, if_false,
}
use etcdauto.Certs.Crypto.{Crypto, Moment}
use etcdauto.Certs.Authority.{load_cert_and_key}
use etcdauto.Certs.Authority.Loading.{encoded}
use etcdauto.Setup.Files.{Files, ◌>>>◌}
use etcdauto.Setup.Certificate.{
  CertConfig, cert_file, key_file, ca_pem_file, create_cert_template, ca_certificate_of,
  write_cert_files, generate, generate_certificate,
}
use etcdauto.Setup.Certificate.Steps.{
  state_of, carried, write_cert_files-stores, load_ca-reads, copy_ca_cert-elsewhere,
  copy_ca_cert-exists, generate-Passed, generate-env,
}

-- The files that `GenerateCertificate` writes are different ones.
abbrev pub Apart : CertConfig → Type 0
Apart cfg =
    (cert_file cfg ≢ key_file cfg)
    × (cert_file cfg ≢ ca_pem_file cfg.cert_dir)
    × (key_file cfg ≢ ca_pem_file cfg.cert_dir)

module _ (C : Crypto) (F : Files C.Bytes) where
  -- A certificate and its key, made at a moment for the template of the configuration, signed by the
  -- authority that the first state holds, and stored in the second state
  pub record Generated (t : Moment) (cfg : CertConfig) (s s' : F.State) : Type 0 where
    pub authority : C.Cert
    pub signer : C.Signer
    pub certificate : C.Cert
    pub own : C.Key
    pub ca_pem : C.Bytes
    pub cert_pem : C.Bytes
    pub key_pem : C.Bytes
    pub der : C.Bytes
    pub ca_read : F.content s cfg.ca_file ≡ some ca_pem
    pub ca_parsed : ca_certificate_of C ca_pem ≡ some authority
    pub created :
        C.create_certificate t
          (C.random_serial t)
          (create_cert_template C cfg)
          (some authority)
          own
          signer
        ≡ some der
    pub parsed : C.parse_certificate der ≡ some certificate
    pub cert_stored : F.content s' (cert_file cfg) ≡ some cert_pem
    pub key_stored : F.content s' (key_file cfg) ≡ some key_pem
    pub loads : load_cert_and_key C cert_pem key_pem ≡ some (certificate, own)
    pub verified : C.can_sign t authority ≡ true → C.verifies t authority certificate ≡ true
    pub ca_copied : F.exists s' (ca_pem_file cfg.cert_dir) ≡ true

  generate-Generated :
      (t : Moment) (cfg : CertConfig) (s s' : F.State)
      → Apart cfg
      → all is_some (create_cert_template C cfg).ip_addresses ≡ true
      → generate C F t cfg s ≡ (some tt, s')
      → Generated t cfg s s'
  generate-Generated t cfg s s' (apart, cert_apart, key_apart) ips h =
      let p = generate-Passed C F t cfg s s' h in
      let (b, marshalled, cert_at, key_at) =
        write_cert_files-stores C F (cert_file cfg) (key_file cfg) p.der p.own p.with_dir
          p.with_pair apart p.pair_written in
      let (pem, ca_at, ca_is) =
        load_ca-reads C F cfg.ca_file cfg.ca_key_file p.with_dir p.ca p.signer p.ca_loaded in
      let (c, parsed) =
        C.parse_created t (C.random_serial t) (create_cert_template C cfg) p.ca p.own p.signer p.der
          p.created ips in
      let kept = λ (q : String) (other : q ≢ ca_pem_file cfg.cert_dir).
        carried C F (λ x. F.content x q ≡ F.content p.with_pair q) p.copied
          (copy_ca_cert-elsewhere C F cfg.ca_file cfg.cert_dir p.with_pair q other) in
      record {
        authority = p.ca;
        signer = p.signer;
        certificate = c;
        own = p.own;
        ca_pem = pem;
        cert_pem = C.encode "CERTIFICATE" p.der;
        key_pem = C.encode "EC PRIVATE KEY" b;
        der = p.der;
        ca_read =
            sym (F.mkdir_all_content cfg.cert_dir s cfg.ca_file)
            ∙ subst (λ x. F.content x cfg.ca_file ≡ some pem) (sym (state_of p.dir_made)) ca_at;
        ca_parsed = ca_is;
        created = p.created;
        parsed = parsed;
        cert_stored = kept (cert_file cfg) cert_apart ∙ cert_at;
        key_stored = kept (key_file cfg) key_apart ∙ key_at;
        loads = encoded C p.der b c p.own parsed marshalled;
        verified = λ able.
            C.verifies_created t (C.random_serial t) (create_cert_template C cfg) p.ca p.own
              p.signer p.der c p.created parsed able;
        ca_copied = copy_ca_cert-exists C F cfg.ca_file cfg.cert_dir p.with_pair s' p.copied;
      }

  -- The pair is still there in a later state, and the authority was there in an earlier one.
  pub Generated-within :
      (t : Moment) (cfg : CertConfig) (s s1 s2 s' : F.State)
      → Generated t cfg s1 s2
      → F.content s1 cfg.ca_file ≡ F.content s cfg.ca_file
      → F.content s' (cert_file cfg) ≡ F.content s2 (cert_file cfg)
      → F.content s' (key_file cfg) ≡ F.content s2 (key_file cfg)
      → F.exists s' (ca_pem_file cfg.cert_dir) ≡ F.exists s2 (ca_pem_file cfg.cert_dir)
      → Generated t cfg s s'
  Generated-within t cfg s s1 s2 s' g ca_same cert_same key_same copy_same = record {
    authority = g.authority;
    signer = g.signer;
    certificate = g.certificate;
    own = g.own;
    ca_pem = g.ca_pem;
    cert_pem = g.cert_pem;
    key_pem = g.key_pem;
    der = g.der;
    ca_read = sym ca_same ∙ g.ca_read;
    ca_parsed = g.ca_parsed;
    created = g.created;
    parsed = g.parsed;
    cert_stored = cert_same ∙ g.cert_stored;
    key_stored = key_same ∙ g.key_stored;
    loads = g.loads;
    verified = g.verified;
    ca_copied = copy_same ∙ g.ca_copied;
  }

  pub generate_certificate-env :
      (t : Moment) (cfg : CertConfig) (s s' : F.State) (k : String)
      → generate_certificate C F t cfg s ≡ (some tt, s')
      → F.env s' k ≡ F.env s k
  unfolding generate_certificate
  generate_certificate-env t cfg s s' k h =
      elim (Bool-cases (F.exists s (cert_file cfg) && F.exists s (key_file cfg))) [
        | inl both ↦ ap (λ x. F.env x k) (sym (state_of (sym (if_true _ _ _ both) ∙ h)))
        | inr absent ↦ generate-env C F t cfg s s' k (sym (if_false _ _ _ absent) ∙ h)
      ]

  -- Where the certificate of the pod or its key is missing, no address fails to parse, and the three
  -- files that are written are different ones: `GenerateCertificate` without an error leaves a
  -- certificate for the template of the configuration, with its key. The two files load as that
  -- certificate and that key, the certificate verifies against the authority of the CA file if that
  -- one may sign, and the copy of the CA file exists.
  pub generate_certificate-Generated :
      (t : Moment) (cfg : CertConfig) (s s' : F.State)
      → Apart cfg
      → all is_some (create_cert_template C cfg).ip_addresses ≡ true
      → (F.exists s (cert_file cfg) && F.exists s (key_file cfg)) ≡ false
      → generate_certificate C F t cfg s ≡ (some tt, s')
      → Generated t cfg s s'
  unfolding generate_certificate
  generate_certificate-Generated t cfg s s' apart ips absent h =
      generate-Generated t cfg s s' apart ips (sym (if_false _ _ _ absent) ∙ h)

  pub generate_certificate-exists :
      (t : Moment) (cfg : CertConfig) (s s' : F.State)
      → Apart cfg
      → all is_some (create_cert_template C cfg).ip_addresses ≡ true
      → generate_certificate C F t cfg s ≡ (some tt, s')
      → (F.exists s' (cert_file cfg) ≡ true) × (F.exists s' (key_file cfg) ≡ true)
  unfolding generate_certificate
  generate_certificate-exists t cfg s s' apart ips h =
      elim (Bool-cases (F.exists s (cert_file cfg) && F.exists s (key_file cfg))) [
        | inl both ↦
            subst (λ x. (F.exists x (cert_file cfg) ≡ true) × (F.exists x (key_file cfg) ≡ true))
              (state_of (sym (if_true _ _ _ both) ∙ h)) (ground (arith, both))
        | inr absent ↦
            let g = generate_certificate-Generated t cfg s s' apart ips absent h in
            (
              F.exists_content s' (cert_file cfg) g.cert_pem g.cert_stored,
              F.exists_content s' (key_file cfg) g.key_pem g.key_stored,
            )
      ]

  -- A pod that starts again keeps its certificate: after `GenerateCertificate` without an error, with
  -- addresses that parse and three different files, a second one changes nothing, at any later moment.
  pub generate_certificate-again :
      (t later : Moment) (cfg : CertConfig) (s s' : F.State)
      → Apart cfg
      → all is_some (create_cert_template C cfg).ip_addresses ≡ true
      → generate_certificate C F t cfg s ≡ (some tt, s')
      → generate_certificate C F later cfg s' ≡ (some tt, s')
  unfolding generate_certificate
  generate_certificate-again t later cfg s s' apart ips h =
      let (a, b) = generate_certificate-exists t cfg s s' apart ips h in
      if_true (F.exists s' (cert_file cfg) && F.exists s' (key_file cfg)) _ _ (ground (arith, a, b))

  -- With different files for the certificate and its key: an error in the last step, the writing of the
  -- key into the file that was made for it, is reported, and leaves both files; the next
  -- `GenerateCertificate` reports success and changes nothing.
  pub write_cert_files-generate_certificate :
      (later : Moment) (cfg : CertConfig) (der b : C.Bytes) (own : C.Key) (s s1 s2 s3 s4 : F.State)
      → cert_file cfg ≢ key_file cfg
      → C.marshal_key own ≡ some b
      → F.create (cert_file cfg) s ≡ (some tt, s1)
      → F.write (cert_file cfg) (C.encode "CERTIFICATE" der) s1 ≡ (some tt, s2)
      → F.create (key_file cfg) s2 ≡ (some tt, s3)
      → F.write (key_file cfg) (C.encode "EC PRIVATE KEY" b) s3 ≡ (none, s4)
      → (write_cert_files C F (cert_file cfg) (key_file cfg) der own s ≡ (none, s4))
        × (generate_certificate C F later cfg s4 ≡ (some tt, s4))
  unfolding write_cert_files generate_certificate ◌>>>◌
  write_cert_files-generate_certificate later cfg der b own s s1 s2 s3 s4 apart m h1 h2 h3 h4 =
      let made = F.exists_content s2 (cert_file cfg) (C.encode "CERTIFICATE" der) (
        F.write_content (cert_file cfg) (C.encode "CERTIFICATE" der) s1 s2
          (F.create_empty (cert_file cfg) s s1 h1) h2) in
      let cert_there =
        subst (λ x. F.exists x (cert_file cfg) ≡ true) (state_of h4)
          ((F.write_elsewhere (key_file cfg) (C.encode "EC PRIVATE KEY" b) s3 (cert_file cfg)
              apart).1
            ∙ subst (λ x. F.exists x (cert_file cfg) ≡ true) (state_of h3)
                ((F.create_elsewhere (key_file cfg) s2 (cert_file cfg) apart).1 ∙ made)) in
      let key_there =
        subst (λ x. F.exists x (key_file cfg) ≡ true) (state_of h4)
          (F.write_exists (key_file cfg) (C.encode "EC PRIVATE KEY" b) s3 (
            F.exists_content s3 (key_file cfg) F.empty (F.create_empty (key_file cfg) s2 s3 h3))) in
      (
        rw h1 (rw h2 (rw h3 (rw m h4))),
        if_true (F.exists s4 (cert_file cfg) && F.exists s4 (key_file cfg)) _ _
            (ground (arith, cert_there, key_there)),
      )
