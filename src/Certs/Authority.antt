-- ===== src/Certs/Authority.antt =====
-- pkg/cert/ca.go and member.go.
pub mod Loading
use etcdauto.Prelude.{
  ℕ, String, Bool, true, false, Option, none, some, List, [], ◌∷◌, trim_space, ◌==◌, if◌then◌else◌,
}
use etcdauto.Certs.Crypto.{
  Crypto, Moment, Template, for_years, cert_sign, crl_sign, digital_signature, key_encipherment,
  server_auth, client_auth,
}

pub record CaConfig : Type 0 where
  pub common_name : String
  pub organization : String
  pub validity_years : ℕ

pub record ClientCertConfig : Type 0 where
  pub common_name : String
  pub organization : String
  pub dns_names : List String
  pub ip_addresses : List String
  pub validity_years : ℕ

infixl 5 ◌>>=◌
abbrev pub ◌>>=◌ {ℓ κ} : {A : Type ℓ} {B : Type κ} → Option A → (A → Option B) → Option B
none >>= f = none
some a >>= f = f a

module _ (C : Crypto) where
  -- CACertificate and ClientCertificate, which have the same fields
  pub record Certificate : Type 0 where
    pub certificate : C.Cert
    pub private_key : C.Key
    pub cert_pem : C.Bytes
    pub key_pem : C.Bytes

  -- The part that GenerateCA and GenerateClientCert share: sign, parse back and encode
  unfoldable pub issue : Moment → ℕ → Template → Option C.Cert → C.Key → C.Key → Option Certificate
  issue t serial m parent own signer = do
    der ← C.create_certificate t (some serial) m parent own (C.ecdsa_signer signer)
    certificate ← C.parse_certificate der
    key_bytes ← C.marshal_key own
    some (record {
      certificate = certificate;
      private_key = own;
      cert_pem = C.encode "CERTIFICATE" der;
      key_pem = C.encode "EC PRIVATE KEY" key_bytes;
    })

  abbrev pub ca_template : CaConfig → Template
  ca_template cfg = record {
    common_name = cfg.common_name;
    organization = cfg.organization ∷ [];
    validity = for_years cfg.validity_years;
    key_usage = cert_sign ∷ crl_sign ∷ digital_signature ∷ [];
    ext_key_usage = [];
    is_ca = true;
    max_path_len = some 2;
    dns_names = [];
    ip_addresses = [];
  }

  unfoldable pub generate_ca : Moment → CaConfig → Option Certificate
  unfolding issue
  generate_ca t cfg = do
    own ← C.generate_key t
    serial ← C.random_serial t
    issue t serial (ca_template cfg) none own own

  unfoldable pub with_ip : Option String → List (Option String) → List (Option String)
  with_ip none ips = ips
  with_ip (some ip) ips = some ip ∷ ips

  unfoldable pub valid_ips : List String → List (Option String)
  unfolding with_ip
  valid_ips [] = []
  valid_ips (s ∷ ss) = with_ip (C.parse_ip (trim_space s)) (valid_ips ss)

  unfoldable pub client_template : ClientCertConfig → Template
  unfolding valid_ips
  client_template cfg = record {
    common_name = cfg.common_name;
    organization = cfg.organization ∷ [];
    validity = for_years cfg.validity_years;
    key_usage = key_encipherment ∷ digital_signature ∷ [];
    ext_key_usage = server_auth ∷ client_auth ∷ [];
    is_ca = false;
    max_path_len = none;
    dns_names = cfg.dns_names;
    ip_addresses = valid_ips cfg.ip_addresses;
  }

  unfoldable pub generate_client_cert : Moment → Certificate → ClientCertConfig → Option Certificate
  unfolding issue client_template
  generate_client_cert t ca cfg = do
    own ← C.generate_key t
    serial ← C.random_serial t
    issue t serial (client_template cfg) (some ca.certificate) own ca.private_key

  unfoldable pub parse_key : String × C.Bytes → Option C.Key
  parse_key (kind, b) =
      if kind == "EC PRIVATE KEY"
      then C.parse_ec_key b
      else if kind == "PRIVATE KEY"
      then (do key ← C.parse_pkcs8_key b; C.ecdsa_of key)
      else none

  unfoldable pub load_cert_and_key : C.Bytes → C.Bytes → Option (C.Cert × C.Key)
  unfolding parse_key
  load_cert_and_key cert_pem key_pem = do
    cert_block ← C.decode cert_pem
    cert ← C.parse_certificate cert_block.1
    key_block ← C.decode key_pem
    key ← parse_key key_block
    some (cert, key)

  -- LoadCA and LoadClientCert
  unfoldable pub load_ca : C.Bytes → C.Bytes → Option Certificate
  unfolding load_cert_and_key
  load_ca cert_pem key_pem = do
    both ← load_cert_and_key cert_pem key_pem
    some (record {
      certificate = both.0;
      private_key = both.1;
      cert_pem = cert_pem;
      key_pem = key_pem;
    })
