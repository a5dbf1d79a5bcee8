-- ===== src/Certs/Crypto.antt =====
-- What pkg/cert calls of Go's packages crypto, encoding/pem, net, time and bytes, and what it relies
-- on of them. A moment is the time of a call together with the random numbers that it draws.
use etcdauto.Prelude.{ℕ, String, ◌≡◌, ◌↔◌, Bool, true, Option, some, List, all, is_some}

-- How long a certificate is valid: AddDate with years, or Add with hours
pub data Validity : Type 0 where
  for_years for_hours : ℕ → Validity

pub data KeyUsage : Type 0 where
  cert_sign crl_sign digital_signature key_encipherment : KeyUsage

pub data ExtKeyUsage : Type 0 where
  server_auth client_auth : ExtKeyUsage

-- The fields of x509.Certificate that a template sets
pub record Template : Type 0 where
  pub common_name : String
  pub organization : List String
  pub validity : Validity
  pub key_usage : List KeyUsage
  pub ext_key_usage : List ExtKeyUsage
  pub is_ca : Bool
  -- `none` where it is not set
  pub max_path_len : Option ℕ
  pub dns_names : List String
  -- `none` is a nil net.IP.
  pub ip_addresses : List (Option String)

abbrev pub Moment : Type 0
Moment = ℕ

pub record Crypto : Type 1 where
  pub Bytes : Type 0
  pub Cert : Type 0
  pub Key : Type 0
  pub Signer : Type 0
  -- []byte of a text
  pub of_text : String → Bytes
  -- pem.EncodeToMemory and pem.Decode: the block's type and its bytes
  pub encode : String → Bytes → Bytes
  pub decode : Bytes → Option (String × Bytes)
  pub bytes_equal : Bytes → Bytes → Bool
  pub parse_certificate : Bytes → Option Cert
  pub raw : Cert → Bytes
  pub generate_key : Moment → Option Key
  pub marshal_key : Key → Option Bytes
  pub parse_ec_key : Bytes → Option Key
  -- A key of any kind, to sign with; `ecdsa_of` is the type assertion to *ecdsa.PrivateKey.
  pub parse_pkcs8_key : Bytes → Option Signer
  pub parse_pkcs1_key : Bytes → Option Signer
  pub ecdsa_signer : Key → Signer
  pub ecdsa_of : Signer → Option Key
  pub random_serial : Moment → Option ℕ
  -- The serial number may be nil. The parent is `none` for a certificate that signs itself.
  pub create_certificate : Moment → Option ℕ → Template → Option Cert → Key → Signer → Option Bytes
  pub verifies : Moment → Cert → Cert → Bool
  -- The certificate may sign others at the moment: its key usage and its time allow it.
  pub can_sign : Moment → Cert → Bool
  pub parse_ip : String → Option String
  pub format_time : Moment → String
  pub not_after : Cert → String
  -- Nanoseconds on one clock
  pub clock : Moment → ℕ
  pub parse_time : String → Option ℕ
  pub bytes_equal_iff : (a b : Bytes) → (bytes_equal a b ≡ true) ↔ (a ≡ b)
  pub decode_encode : (kind : String) (b : Bytes) → decode (encode kind b) ≡ some (kind, b)
  pub parse_marshal : (k : Key) (b : Bytes) → marshal_key k ≡ some b → parse_ec_key b ≡ some k
  -- A certificate without a nil address can be read back.
  pub parse_created :
      (t : Moment) (serial : Option ℕ) (m : Template) (parent : Cert) (own : Key) (signer : Signer)
      (der : Bytes)
      → create_certificate t serial m (some parent) own signer ≡ some der
      → all is_some m.ip_addresses ≡ true
      → (c : Cert) × (parse_certificate der ≡ some c)
  pub verifies_created :
      (t : Moment) (serial : Option ℕ) (m : Template) (parent : Cert) (own : Key) (signer : Signer)
      (der : Bytes) (c : Cert)
      → create_certificate t serial m (some parent) own signer ≡ some der
      → parse_certificate der ≡ some c
      → can_sign t parent ≡ true
      → verifies t parent c ≡ true
