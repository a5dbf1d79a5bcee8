-- ===== src/Controller/SecretSync/Tests.antt =====
-- Runs of the secret controller in memory.
use etcdauto.Prelude.{
  String, ◌≡◌, ◌≢◌, refl, ◌⊎◌, true, false, Option, none, some, lookup, [], ◌∷◌, arith,
}
use etcdauto.Certs.Authority.{
  Certificate, generate_ca, issue, load_ca, load_cert_and_key, parse_key, generate_client_cert,
}
use etcdauto.Certs.Api.{Secret, succeeded, not_found, failed}
use etcdauto.Certs.Memory.{
  texts, memory, put, answer_of, create_at, same_text, text_certificate, text_block, text_key,
}
use etcdauto.Certs.Manager.{
  written, ca_secret, ensure_answered, ensure_secret, ensure_ca_secret, ensure_client_secret,
  copy_answered, copy_ca_secret_data, copied_secret, load_answered, load_entries,
  load_ca_from_secret, maps_equal, values_equal, same_value, replace_entries,
}
use etcdauto.Certs.Manager.Reading.{Held}
use etcdauto.Controller.SecretSync.{
  CertConfig, or_else, default_years, with_defaults, ca_config, ca_content, client_config,
  validate_client_cert, reconcile_secret_request, reconcile_secret, recreate_client_secret,
  recreate_removed, recreate_generated, load_or_create_ca, load_or_create_answered, create_ca,
  ensure_generated, or_create, then_sync, keep, sync_ca_to_namespace,
}
use etcdauto.Controller.SecretSync.Authority.{load_or_create_ca-Held, load_or_create_ca-again}
use etcdauto.Controller.SecretSync.Storing.{Sound}
use etcdauto.Controller.SecretSync.Clients.{reconcile_secret_request-Trusted}

abbrev given : CertConfig
given = record {
  enabled = true;
  ca_secret_name = "etcd-ca";
  ca_secret_namespace = "kube-system";
  client_secret_name = "etcd-client";
  client_secret_namespaces = "etcd" ∷ "monitoring" ∷ [];
  validity_years = 0;
  organization = "";
  common_name = "";
  client_secret_namespace_set = [];
}

abbrev cfg : CertConfig
unfolding with_defaults
cfg = with_defaults given

abbrev empty : (memory texts).State
unfolding memory
empty = λ ns name. none

abbrev ca : Certificate texts
unfolding texts
ca = record {
  certificate = "etcdauto-ca" ∷ [];
  private_key = "key";
  cert_pem = "CERTIFICATE" ∷ "etcdauto-ca" ∷ [];
  key_pem = "EC PRIVATE KEY" ∷ "key" ∷ [];
}

not_stored :
    (B : Secret texts → Type 0) (ns name : String) (x : Secret texts)
    → (memory texts).stored empty ns name ≡ some x
    → B x
unfolding memory empty
not_stored B ns name x h = ground (arith, h)

answer_read : (o : Option (Secret texts)) → answer_of texts o ≢ failed
unfolding answer_of
answer_read none e = ground (arith, e)
answer_read (some x) e = ground (arith, e)

empty-Sound : (ns : String) → Sound texts (memory texts) 3 cfg ns empty
unfolding memory
empty-Sound ns = (
  not_stored _ ns cfg.ca_secret_name,
  (not_stored _ ns cfg.ca_secret_name, λ s. answer_read (s ns cfg.ca_secret_name)),
)

abbrev first_start : Option (Certificate texts) × (memory texts).State
first_start = load_or_create_ca texts (memory texts) 3 cfg "etcd" empty

first_ca : first_start.0 ≡ some ca
unfolding ca cfg with_defaults or_else default_years memory empty texts lookup text_certificate
    generate_ca issue ca_config load_or_create_ca load_or_create_answered then_sync or_create
    create_ca ensure_generated keep load_ca_from_secret load_answered answer_of ensure_ca_secret
    ensure_secret ensure_answered written create_at put copy_ca_secret_data copy_answered
    sync_ca_to_namespace
first_ca = refl

load_or_create_ca-Held_example :
    Held texts (memory texts) "kube-system" "etcd-ca" ca first_start.1
    × Held texts (memory texts) "etcd" "etcd-ca" ca first_start.1
unfolding cfg with_defaults
load_or_create_ca-Held_example =
    load_or_create_ca-Held texts (memory texts) 3 cfg "etcd" empty ca (empty-Sound "kube-system")
      (empty-Sound "etcd") first_ca

second_ca : (load_or_create_ca texts (memory texts) 5 cfg "etcd" first_start.1).0 ≡ some ca
unfolding ca cfg with_defaults or_else default_years memory empty texts lookup text_certificate
    generate_ca issue ca_config load_or_create_ca load_or_create_answered then_sync or_create
    create_ca ensure_generated keep load_ca_from_secret load_answered answer_of ensure_ca_secret
    ensure_secret ensure_answered written create_at put copy_ca_secret_data copy_answered
    sync_ca_to_namespace ca_secret copied_secret load_entries load_ca load_cert_and_key parse_key
    text_block text_key first_start replace_entries maps_equal values_equal same_value same_text
    ca_content
second_ca = refl

load_or_create_ca-again_example : ca ≡ ca
unfolding first_start cfg
load_or_create_ca-again_example =
    load_or_create_ca-again texts (memory texts) 3 cfg "etcd" 5 empty first_start.1 ca ca
      (empty-Sound "kube-system") (empty-Sound "etcd") first_ca refl second_ca

reconcile_secret_request-Trusted_example :
    ((succeeded false ≡ not_found) ⊎ (succeeded false ≡ succeeded true))
    ⊎ ((x : Secret texts) × ((memory texts).stored
            (reconcile_secret_request texts
              (memory texts)
              3
              cfg
              ca
              "etcd"
              (succeeded false)
              not_found
              empty).1
            "etcd"
            "etcd-client"
          ≡ some x)
        × (validate_client_cert texts (memory texts) 3 ca x ≡ false))
unfolding cfg with_defaults or_else default_years memory empty texts lookup text_certificate issue
    generate_client_cert client_config reconcile_secret_request reconcile_secret
    recreate_client_secret recreate_removed recreate_generated ensure_client_secret ensure_secret
    ensure_answered answer_of written create_at put load_cert_and_key parse_key text_block text_key
reconcile_secret_request-Trusted_example =
    reconcile_secret_request-Trusted texts (memory texts) 3 cfg ca "etcd" refl refl
      (succeeded false) not_found empty (λ x h. ground (arith, h)) refl
