-- ===== src/Setup/Certificate.antt =====
-- pkg/init/cert.go, over a cryptography and a file system.
pub mod Steps
pub mod Generated
use etcdauto.Prelude.{
  String, ◌⧺◌, true, false, ◌&&◌, Bool, Option, none, some, List, [], ◌∷◌, trim_space, ◌==◌,
  if◌then◌else◌,
}
use etcdauto.Certs.Crypto.{
  Crypto, Moment, Template, for_hours, digital_signature, key_encipherment, server_auth,
  client_auth,
}
use etcdauto.Certs.Authority.{◌>>=◌}
use etcdauto.Setup.Files.{Files, Done, ◌>>>◌}
use etcdauto.Cluster.Discovery.{join_path}

pub record CertConfig : Type 0 where
  pub pod_name : String
  pub namespace : String
  pub service_name : String
  pub cli_name : String
  pub ips : List String
  pub cert_dir : String
  pub ca_file : String
  pub ca_key_file : String

abbrev pub cert_file : CertConfig → String
cert_file cfg = join_path cfg.cert_dir (cfg.pod_name ⧺ ".pem")

abbrev pub key_file : CertConfig → String
key_file cfg = join_path cfg.cert_dir (cfg.pod_name ⧺ "-key.pem")

abbrev pub ca_pem_file : String → String
ca_pem_file cert_dir = join_path cert_dir "ca.pem"

module _ (C : Crypto) where
  -- `parseIP` of every address that is not empty; an address that does not parse is nil.
  unfoldable pub parse_ips : List String → List (Option String)
  parse_ips [] = []
  parse_ips (ip ∷ ips) =
      let rest = parse_ips ips in if ip == "" then rest else C.parse_ip (trim_space ip) ∷ rest

  unfoldable pub create_cert_template : CertConfig → Template
  unfolding parse_ips
  create_cert_template cfg =
      let cli = cfg.cli_name ⧺ ("." ⧺ cfg.namespace) in
      let pod = cfg.pod_name ⧺ ("." ⧺ (cfg.service_name ⧺ ("." ⧺ cfg.namespace))) in
      record {
        common_name = cfg.pod_name;
        organization = [];
        validity = for_hours 876000;
        key_usage = key_encipherment ∷ digital_signature ∷ [];
        ext_key_usage = server_auth ∷ client_auth ∷ [];
        is_ca = false;
        max_path_len = none;
        dns_names =
            cli
            ∷ (cli ⧺ ".svc")
            ∷ (cli ⧺ ".svc.cluster.local")
            ∷ (pod ⧺ ".svc")
            ∷ pod
            ∷ (pod ⧺ ".svc.cluster.local")
            ∷ "localhost"
            ∷ [];
        ip_addresses = parse_ips ("127.0.0.1" ∷ cfg.ips);
      }

  unfoldable pub ca_certificate_of : C.Bytes → Option C.Cert
  ca_certificate_of pem = do block ← C.decode pem; C.parse_certificate block.1

  unfoldable pub signer_of_block : String × C.Bytes → Option C.Signer
  signer_of_block (kind, b) =
      if kind == "RSA PRIVATE KEY"
      then C.parse_pkcs1_key b
      else if kind == "EC PRIVATE KEY"
      then (do key ← C.parse_ec_key b; some (C.ecdsa_signer key))
      else if kind == "PRIVATE KEY"
      then C.parse_pkcs8_key b
      else none

module _ (C : Crypto) (F : Files C.Bytes) where
  abbrev pub Run : Type 0 → Type 0
  Run A = F.State → Option A × F.State

  unfoldable pub load_ca_certificate : String → F.State → Option C.Cert
  unfolding ca_certificate_of
  load_ca_certificate path s = do pem ← F.read s path; ca_certificate_of C pem

  unfoldable pub load_ca_private_key : String → F.State → Option C.Signer
  unfolding signer_of_block
  load_ca_private_key path s = do pem ← F.read s path; block ← C.decode pem; signer_of_block C block

  unfoldable pub load_ca : String → String → F.State → Option (C.Cert × C.Signer)
  unfolding load_ca_certificate load_ca_private_key
  load_ca ca_file ca_key_file s = do
    cert ← load_ca_certificate ca_file s
    key ← load_ca_private_key ca_key_file s
    some (cert, key)

  unfoldable pub write_cert_files : String → String → C.Bytes → C.Key → Run Done
  write_cert_files cert key der own s = F.create cert s >>> λ _ s.
      F.write cert (C.encode "CERTIFICATE" der) s >>> λ _ s. F.create key s >>> λ _ s.
      (C.marshal_key own, s) >>> λ b s. F.write key (C.encode "EC PRIVATE KEY" b) s

  unfoldable pub copy_file : String → String → Run Done
  copy_file src dst s = (F.read s src, s) >>> λ data' s. F.write_file dst data' s

  unfoldable pub copy_ca_cert : String → String → Run Done
  unfolding copy_file
  copy_ca_cert ca_file cert_dir s =
      if F.exists s (ca_pem_file cert_dir)
      then (some tt, s)
      else copy_file ca_file (ca_pem_file cert_dir) s

  -- `GenerateCertificate` where a file of the pair is missing. The serial number is nil where
  -- `generateSerialNumber` draws none.
  unfoldable pub generate : Moment → CertConfig → Run Done
  unfolding create_cert_template load_ca write_cert_files copy_ca_cert
  generate t cfg s = F.mkdir_all cfg.cert_dir s >>> λ _ s.
      (load_ca cfg.ca_file cfg.ca_key_file s, s) >>> λ ca s. (C.generate_key t, s) >>> λ own s.
      (
        C.create_certificate t (C.random_serial t) (create_cert_template C cfg) (some ca.0) own
            ca.1,
        s,
      )
      >>> λ der s. write_cert_files (cert_file cfg) (key_file cfg) der own s >>> λ _ s.
          copy_ca_cert cfg.ca_file cfg.cert_dir s

  unfoldable pub generate_certificate : Moment → CertConfig → Run Done
  unfolding generate
  generate_certificate t cfg s =
      if F.exists s (cert_file cfg) && F.exists s (key_file cfg)
      then (some tt, s)
      else generate t cfg s
