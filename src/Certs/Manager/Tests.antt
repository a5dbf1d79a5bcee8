-- ===== src/Certs/Manager/Tests.antt =====
-- Runs of the certificate code in memory.
use etcdauto.Prelude.{◌≡◌, refl, ◌⊎◌, true, none, some, Map, lookup, [], ◌∷◌}
use etcdauto.Certs.Authority.{Certificate}
use etcdauto.Certs.Api.{Secret, secret_type_opaque}
use etcdauto.Certs.Memory.{texts, memory, put, answer_of}
use etcdauto.Certs.Manager.{
  ca_keys, has_keys, has_required, ca_secret, ensure_secret, ensure_answered,
}
use etcdauto.Certs.Manager.Keeping.{ensure_secret-Ensured}

abbrev ca : Certificate texts
unfolding texts
ca = record {
  certificate = "ca" ∷ [];
  private_key = "key";
  cert_pem = "CERTIFICATE" ∷ "ca" ∷ [];
  key_pem = "EC PRIVATE KEY" ∷ "key" ∷ [];
}

abbrev client : Certificate texts
unfolding texts
client = record {
  certificate = "etcd-client" ∷ "ca" ∷ [];
  private_key = "key";
  cert_pem = "CERTIFICATE" ∷ "etcd-client" ∷ "ca" ∷ [];
  key_pem = "EC PRIVATE KEY" ∷ "key" ∷ [];
}

abbrev old_entries : Map texts.Bytes
unfolding texts
old_entries = ("ca.pem", "a" ∷ []) ∷ ("ca-key.pem", "b" ∷ []) ∷ []

abbrev old_secret : Secret texts
old_secret = record {
  kind = secret_type_opaque;
  annotations = [];
  labels = [];
  entries = old_entries;
}

abbrev shelf : (memory texts).State
unfolding put memory
shelf = put texts "etcd" "etcd-ca" (some old_secret) (λ ns name. none)

ensure_secret-Ensured_example :
    let s =
      (ensure_secret texts
        (memory texts)
        "etcd"
        "etcd-ca"
        ca_keys
        (ca_secret texts 3 ca)
        shelf).1 in
    ((x : Secret texts) × ((memory texts).stored shelf "etcd" "etcd-ca" ≡ some x)
      × ((memory texts).stored s "etcd" "etcd-ca" ≡ some x)
      × (has_keys ca_keys x.entries ≡ true))
    ⊎ (((memory texts).stored shelf "etcd" "etcd-ca" ≡ none)
        × ((memory texts).stored s "etcd" "etcd-ca" ≡ some (ca_secret texts 3 ca)))
unfolding memory shelf put old_entries texts lookup ensure_secret ensure_answered answer_of
    has_required has_keys
ensure_secret-Ensured_example =
    ensure_secret-Ensured texts (memory texts) "etcd" "etcd-ca" ca_keys (ca_secret texts 3 ca) shelf
      refl
