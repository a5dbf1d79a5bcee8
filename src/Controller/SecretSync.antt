-- ===== src/Controller/SecretSync.antt =====
-- pkg/controller/secret.go: SecretSync, the controller that keeps the certificate authority and the
-- client secrets.
pub mod Config
pub mod Authority
pub mod Storing
pub mod Clients
pub mod Requests
mod Tests
unfoldable pub use Config.*
use etcdauto.Prelude.{
  ℕ, zero, suc, String, Bool, true, false, not, ◌&&◌, Option, none, some, Map, lookup, insert,
  is_some, is_empty, List, [], ◌∷◌, ◌==◌, if◌then◌else◌,
}
use etcdauto.Certs.Crypto.{Crypto, Moment}
use etcdauto.Certs.Authority.{
  CaConfig, ClientCertConfig, Certificate, generate_ca, generate_client_cert, ◌>>=◌,
}
use etcdauto.Certs.Api.{Done, Secret, Answer, succeeded, not_found, failed, Api}
use etcdauto.Certs.Manager.{
  ca_cert_key, ca_key_key, tls_cert_key, ensure_ca_secret, ensure_client_secret,
  copy_ca_secret_data, load_ca_from_secret,
}

module _ (C : Crypto) (A : Api C) where
  unfoldable pub ca_content : Certificate C → Map C.Bytes
  ca_content ca = (ca_cert_key, ca.cert_pem) ∷ (ca_key_key, ca.key_pem) ∷ []

  unfoldable pub sync_ca_to_namespace :
      Moment → CertConfig → Certificate C → String → A.State → Option Done × A.State
  unfolding ca_content
  sync_ca_to_namespace t cfg ca target s =
      copy_ca_secret_data C A t target cfg.ca_secret_name (ca_content ca) [] s

  unfoldable pub keep : Certificate C → Option Done × A.State → Option (Certificate C) × A.State
  keep ca (none, s) = (none, s)
  keep ca (some u, s) = (some ca, s)

  unfoldable pub ensure_generated :
      Moment
      → CertConfig
      → String
      → Option (Certificate C)
      → A.State
      → Option (Certificate C) × A.State
  unfolding keep
  ensure_generated t cfg ns none s = (none, s)
  ensure_generated t cfg ns (some ca) s =
      keep ca (ensure_ca_secret C A t ns cfg.ca_secret_name ca s)

  -- The CA is generated and stored in the namespace.
  unfoldable pub create_ca :
      Moment → CertConfig → String → A.State → Option (Certificate C) × A.State
  unfolding ensure_generated ca_config
  create_ca t cfg ns s = ensure_generated t cfg ns (generate_ca C t (ca_config cfg)) s

  unfoldable pub or_create :
      Moment
      → CertConfig
      → String
      → Option (Certificate C) × A.State
      → Option (Certificate C) × A.State
  unfolding create_ca
  or_create t cfg ns (some ca, s) = (some ca, s)
  or_create t cfg ns (none, s) = create_ca t cfg ns s

  unfoldable pub then_sync :
      Moment
      → CertConfig
      → String
      → Option (Certificate C) × A.State
      → Option (Certificate C) × A.State
  unfolding keep sync_ca_to_namespace
  then_sync t cfg target (some ca, s) = keep ca (sync_ca_to_namespace t cfg ca target s)
  then_sync t cfg target (none, s) = (none, s)

  -- The first argument is `crossNamespace`, the last the answer of the first reading.
  unfoldable pub load_or_create_answered :
      Bool
      → Moment
      → CertConfig
      → String
      → Option (Certificate C) × A.State
      → Option (Certificate C) × A.State
  unfolding then_sync or_create create_ca
  load_or_create_answered true t cfg self (some ca, s) = then_sync t cfg self (some ca, s)
  load_or_create_answered false t cfg self (some ca, s) = (some ca, s)
  load_or_create_answered true t cfg self (none, s) =
      then_sync t cfg cfg.ca_secret_namespace
        (or_create t cfg self (load_ca_from_secret C A self cfg.ca_secret_name s))
  load_or_create_answered false t cfg self (none, s) = create_ca t cfg cfg.ca_secret_namespace s

  unfoldable pub load_or_create_ca :
      Moment → CertConfig → String → A.State → Option (Certificate C) × A.State
  unfolding load_or_create_answered
  load_or_create_ca t cfg self s =
      load_or_create_answered (not (cfg.ca_secret_namespace == self)) t cfg self
        (load_ca_from_secret C A cfg.ca_secret_namespace cfg.ca_secret_name s)

  -- Errors are logged and the next namespace follows.
  unfoldable pub ensure_each :
      Moment → CertConfig → Certificate C → Certificate C → Map Done → A.State → A.State
  ensure_each t cfg ca client [] s = s
  ensure_each t cfg ca client ((ns, u) ∷ rest) s =
      ensure_each t cfg ca client rest
        (ensure_client_secret C A t ns cfg.client_secret_name ca client s).1

  unfoldable pub ensure_generated_clients :
      Moment → CertConfig → Certificate C → Option (Certificate C) → A.State → A.State
  unfolding ensure_each
  ensure_generated_clients t cfg ca none s = s
  ensure_generated_clients t cfg ca (some client) s =
      ensure_each t cfg ca client cfg.client_secret_namespace_set s

  unfoldable pub ensure_client_certificates :
      Moment → CertConfig → Certificate C → A.State → A.State
  unfolding ensure_generated_clients client_config
  ensure_client_certificates t cfg ca s =
      ensure_generated_clients t cfg ca (generate_client_cert C t ca (client_config cfg)) s

  -- The CA that the controller keeps from then on, and the state
  unfoldable pub started :
      Moment → CertConfig → Option (Certificate C) × A.State → Option (Certificate C) × A.State
  unfolding ensure_client_certificates
  started t cfg (none, s) = (none, s)
  started t cfg (some ca, s) = (some ca, ensure_client_certificates t cfg ca s)

  unfoldable pub start : Moment → CertConfig → String → A.State → Option (Certificate C) × A.State
  unfolding started load_or_create_ca
  start t cfg self s = started t cfg (load_or_create_ca t cfg self s)

  unfoldable pub parse_block : C.Bytes → Option C.Cert
  parse_block pem = do block ← C.decode pem; C.parse_certificate block.1

  unfoldable pub is_trusted : Moment → Certificate C → C.Cert → C.Cert → Bool
  is_trusted t ca secret_ca client =
      C.bytes_equal (C.raw secret_ca) (C.raw ca.certificate) && C.verifies t ca.certificate client

  unfoldable pub trusted_entries : Moment → Certificate C → Map C.Bytes → Option Bool
  unfolding parse_block is_trusted
  trusted_entries t ca m = do
    ca_pem ← lookup ca_cert_key m
    client_pem ← lookup tls_cert_key m
    secret_ca ← parse_block ca_pem
    client ← parse_block client_pem
    some (is_trusted t ca secret_ca client)

  unfoldable pub unless_true : Option Bool → Bool
  unless_true none = true
  unless_true (some b) = not b

  -- The secret has to be created again.
  unfoldable pub validate_client_cert : Moment → Certificate C → Secret C → Bool
  unfolding unless_true trusted_entries
  validate_client_cert t ca x = unless_true (trusted_entries t ca x.entries)

  unfoldable pub recreate_generated :
      Moment
      → CertConfig
      → Certificate C
      → String
      → Option (Certificate C)
      → A.State
      → Option Done × A.State
  recreate_generated t cfg ca ns none s = (none, s)
  recreate_generated t cfg ca ns (some client) s =
      ensure_client_secret C A t ns cfg.client_secret_name ca client s

  unfoldable pub recreate_removed :
      Moment → CertConfig → Certificate C → String → Answer Done × A.State → Option Done × A.State
  unfolding recreate_generated client_config
  recreate_removed t cfg ca ns (failed, s) = (none, s)
  recreate_removed t cfg ca ns (succeeded u, s) =
      recreate_generated t cfg ca ns (generate_client_cert C t ca (client_config cfg)) s
  recreate_removed t cfg ca ns (not_found, s) =
      recreate_generated t cfg ca ns (generate_client_cert C t ca (client_config cfg)) s

  unfoldable pub recreate_client_secret :
      Moment → CertConfig → Certificate C → String → A.State → Option Done × A.State
  unfolding recreate_removed
  recreate_client_secret t cfg ca ns s =
      recreate_removed t cfg ca ns (A.remove ns cfg.client_secret_name s)

  unfoldable pub recreate_invalid :
      Bool → Moment → CertConfig → Certificate C → String → A.State → Option Done × A.State
  unfolding recreate_client_secret
  recreate_invalid false t cfg ca ns s = (some tt, s)
  recreate_invalid true t cfg ca ns s = recreate_client_secret t cfg ca ns s

  -- The answer of the manager's cache for the secret
  unfoldable pub reconcile_secret :
      Moment
      → CertConfig
      → Certificate C
      → String
      → Answer (Secret C)
      → A.State
      → Option Done × A.State
  unfolding recreate_invalid recreate_client_secret validate_client_cert
  reconcile_secret t cfg ca ns (succeeded x) s =
      recreate_invalid (validate_client_cert t ca x) t cfg ca ns s
  reconcile_secret t cfg ca ns not_found s = recreate_client_secret t cfg ca ns s
  reconcile_secret t cfg ca ns failed s = (none, s)

  -- The answer of the cache for the namespace is whether it is being deleted. `none` is an error,
  -- after which the request is handled again.
  unfoldable pub reconcile_secret_request :
      Moment
      → CertConfig
      → Certificate C
      → String
      → Answer Bool
      → Answer (Secret C)
      → A.State
      → Option Done × A.State
  unfolding reconcile_secret
  reconcile_secret_request t cfg ca ns not_found cached s = (some tt, s)
  reconcile_secret_request t cfg ca ns failed cached s = (none, s)
  reconcile_secret_request t cfg ca ns (succeeded true) cached s = (some tt, s)
  reconcile_secret_request t cfg ca ns (succeeded false) cached s =
      reconcile_secret t cfg ca ns cached s
