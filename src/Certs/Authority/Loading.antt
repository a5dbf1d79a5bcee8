-- ===== src/Certs/Authority/Loading.antt =====
-- Certificates of pkg/cert can be loaded again, and clients verify against their authority.
use etcdauto.Prelude.{ℕ, ◌≡◌, refl, sym, ap, subst, true, Option, none, some, arith}
use etcdauto.Certs.Crypto.{Crypto, Moment, Template}
use etcdauto.Certs.Authority.{
  CaConfig, ClientCertConfig, Certificate, issue, ca_template, generate_ca, client_template,
  generate_client_cert, parse_key, load_cert_and_key, load_ca, ◌>>=◌,
}

-- Inversion of a successful step
pub >>=-eq-some {ℓ κ} :
    {A : Type ℓ} {B : Type κ} (m : Option A) (f : A → Option B) {b : B}
    → (m >>= f) ≡ some b
    → (a : A) × (m ≡ some a) × (f a ≡ some b)
>>=-eq-some none f h = ground (arith, h)
>>=-eq-some (some a) f h = (a, refl, h)

pub some_injective {ℓ} : {A : Type ℓ} {a b : A} → some a ≡ some b → a ≡ b
some_injective e = cc

module _ (C : Crypto) where
  -- The PEM texts are those of the certificate and the key.
  abbrev pub IsEncoded : Certificate C → Type 0
  IsEncoded ca =
      (load_cert_and_key C ca.cert_pem ca.key_pem ≡ some (ca.certificate, ca.private_key))

  issue_inverts :
      (t : Moment) (serial : ℕ) (m : Template) (parent : Option C.Cert) (own signer : C.Key)
      (c : Certificate C)
      → issue C t serial m parent own signer ≡ some c
      → (der : C.Bytes) × (b : C.Bytes) × (C.create_certificate t
            (some serial)
            m
            parent
            own
            (C.ecdsa_signer signer)
          ≡ some der)
        × (C.parse_certificate der ≡ some c.certificate)
        × (C.marshal_key own ≡ some b)
        × (c.private_key ≡ own)
        × (c.cert_pem ≡ C.encode "CERTIFICATE" der)
        × (c.key_pem ≡ C.encode "EC PRIVATE KEY" b)
  unfolding issue
  issue_inverts t serial m parent own signer c h =
      let (der, created, h1) =
        >>=-eq-some (C.create_certificate t (some serial) m parent own (C.ecdsa_signer signer)) _
          h in
      let (x, parsed, h2) = >>=-eq-some (C.parse_certificate der) _ h1 in
      let (b, marshalled, h3) = >>=-eq-some (C.marshal_key own) _ h2 in
      let e = some_injective h3 in
      (
        der,
        b,
        created,
        rw (ap (λ y. y.certificate) (sym e)) parsed,
        marshalled,
        ap (λ y. y.private_key) (sym e),
        ap (λ y. y.cert_pem) (sym e),
        ap (λ y. y.key_pem) (sym e),
      )

  pub encoded :
      (der b : C.Bytes) (x : C.Cert) (k : C.Key)
      → C.parse_certificate der ≡ some x
      → C.marshal_key k ≡ some b
      → load_cert_and_key C (C.encode "CERTIFICATE" der) (C.encode "EC PRIVATE KEY" b) ≡ some (x, k)
  unfolding load_cert_and_key parse_key
  encoded der b x k p m =
      rw (C.decode_encode "CERTIFICATE" der)
        (rw p (rw (C.decode_encode "EC PRIVATE KEY" b) (rw (C.parse_marshal k b m) refl)))

  issue-IsEncoded :
      (t : Moment) (serial : ℕ) (m : Template) (parent : Option C.Cert) (own signer : C.Key)
      (c : Certificate C)
      → issue C t serial m parent own signer ≡ some c
      → IsEncoded c
  issue-IsEncoded t serial m parent own signer c h =
      let (der, b, created, parsed, marshalled, k, p, q) =
        issue_inverts t serial m parent own signer c h in
      rw p (rw q (rw k (encoded der b c.certificate own parsed marshalled)))

  pub generate_ca-IsEncoded :
      (t : Moment) (cfg : CaConfig) (c : Certificate C) → generate_ca C t cfg ≡ some c → IsEncoded c
  unfolding generate_ca
  generate_ca-IsEncoded t cfg c h =
      let (own, made, h1) = >>=-eq-some (C.generate_key t) _ h in
      let (serial, drawn, h2) = >>=-eq-some (C.random_serial t) _ h1 in
      issue-IsEncoded t serial (ca_template C cfg) none own own c h2

  pub generate_client_cert-IsEncoded :
      (t : Moment) (ca : Certificate C) (cfg : ClientCertConfig) (c : Certificate C)
      → generate_client_cert C t ca cfg ≡ some c
      → IsEncoded c
  unfolding generate_client_cert
  generate_client_cert-IsEncoded t ca cfg c h =
      let (own, made, h1) = >>=-eq-some (C.generate_key t) _ h in
      let (serial, drawn, h2) = >>=-eq-some (C.random_serial t) _ h1 in
      issue-IsEncoded t serial (client_template C cfg) (some ca.certificate) own ca.private_key c h2

  pub generate_client_cert-verifies :
      (t : Moment) (ca : Certificate C) (cfg : ClientCertConfig) (c : Certificate C)
      → C.can_sign t ca.certificate ≡ true
      → generate_client_cert C t ca cfg ≡ some c
      → C.verifies t ca.certificate c.certificate ≡ true
  unfolding generate_client_cert
  generate_client_cert-verifies t ca cfg c able h =
      let (own, made, h1) = >>=-eq-some (C.generate_key t) _ h in
      let (serial, drawn, h2) = >>=-eq-some (C.random_serial t) _ h1 in
      let (der, b, created, parsed, m, k, p, q) =
        issue_inverts t serial (client_template C cfg) (some ca.certificate) own ca.private_key c
          h2 in
      C.verifies_created t (some serial) (client_template C cfg) ca.certificate own
        (C.ecdsa_signer ca.private_key) der c.certificate created parsed able

  pub load_ca-IsEncoded : (p q : C.Bytes) (c : Certificate C) → load_ca C p q ≡ some c → IsEncoded c
  unfolding load_ca
  load_ca-IsEncoded p q c h =
      let (both, loaded, h1) = >>=-eq-some (load_cert_and_key C p q) _ h in
      let e = some_injective h1 in subst IsEncoded e loaded

  pub IsEncoded-load_ca :
      (c : Certificate C) → IsEncoded c → load_ca C c.cert_pem c.key_pem ≡ some c
  unfolding load_ca
  IsEncoded-load_ca c h = rw h refl

  -- A CA, and a client certificate, that was generated is loaded back from its two PEM texts, with
  -- the same certificate and the same key.
  pub load_ca-generated :
      (t : Moment) (cfg : CaConfig) (ccfg : ClientCertConfig) (ca c : Certificate C)
      → generate_ca C t cfg ≡ some ca
      → generate_client_cert C t ca ccfg ≡ some c
      → (load_ca C ca.cert_pem ca.key_pem ≡ some ca) × (load_ca C c.cert_pem c.key_pem ≡ some c)
  load_ca-generated t cfg ccfg ca c h g = (
    IsEncoded-load_ca ca (generate_ca-IsEncoded t cfg ca h),
    IsEncoded-load_ca c (generate_client_cert-IsEncoded t ca ccfg c g),
  )
