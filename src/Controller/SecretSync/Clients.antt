-- ===== src/Controller/SecretSync/Clients.antt =====
-- What the secret controller does with the client secrets: a secret that it creates passes its own
-- validation, and one that is there is replaced only where it fails.
use etcdauto.Prelude.{
  String, ◌≡◌, refl, sym, ap, ◌∙◌, ◌⊎◌, inl, inr, Bool, true, false, Option, none, some, Map,
  lookup, [], ◌∷◌, arith,
}
use etcdauto.Certs.Crypto.{Crypto, Moment}
use etcdauto.Certs.Authority.{Certificate, generate_client_cert, load_cert_and_key, parse_key}
use etcdauto.Certs.Authority.Loading.{
  >>=-eq-some, some_injective, IsEncoded, generate_client_cert-IsEncoded,
  generate_client_cert-verifies,
}
use etcdauto.Certs.Api.{Done, Secret, Answer, succeeded, not_found, failed, Api}
use etcdauto.Certs.Manager.{client_keys, client_secret, ensure_client_secret}
use etcdauto.Certs.Manager.Keeping.{ensure_secret-Ensured, ensure_secret-keeps}
use etcdauto.Controller.SecretSync.{
  CertConfig, client_config, parse_block, is_trusted, trusted_entries, unless_true,
  validate_client_cert, recreate_generated, recreate_removed, recreate_client_secret,
  recreate_invalid, reconcile_secret, reconcile_secret_request, ensure_each,
  ensure_generated_clients, ensure_client_certificates,
}

module _ (C : Crypto) (A : Api C) where
  parsed : (c : Certificate C) → IsEncoded C c → parse_block C A c.cert_pem ≡ some c.certificate
  unfolding parse_block load_cert_and_key
  parsed c h =
      let (block, decoded, h1) = >>=-eq-some (C.decode c.cert_pem) _ h in
      let (x, read, h2) = >>=-eq-some (C.parse_certificate block.1) _ h1 in
      let (key_block, key_decoded, h3) = >>=-eq-some (C.decode c.key_pem) _ h2 in
      let (key, key_read, h4) = >>=-eq-some (parse_key C key_block) _ h3 in
      rw decoded (read ∙ ap (λ o. some o.0) (some_injective h4))

  validated :
      (t : Moment) (ca client : Certificate C)
      → IsEncoded C ca
      → IsEncoded C client
      → C.verifies t ca.certificate client.certificate ≡ true
      → validate_client_cert C A t ca (client_secret C t ca client) ≡ false
  unfolding validate_client_cert trusted_entries client_secret unless_true is_trusted lookup
  validated t ca client h k v =
      let same = (C.bytes_equal_iff (C.raw ca.certificate) (C.raw ca.certificate)).1 refl in
      rw (parsed ca h) (rw (parsed client k) (rw same (rw v refl)))

  -- The secret is stored and passes the validation.
  abbrev Trusted : Moment → Certificate C → String → String → A.State → Type 0
  Trusted t ca ns name s =
      ((x : Secret C) × (A.stored s ns name ≡ some x) × (validate_client_cert C A t ca x ≡ false))

  module _ (t : Moment) (cfg : CertConfig) (ca : Certificate C) (ns : String)
      (able : C.can_sign t ca.certificate ≡ true) (ca-IsEncoded : IsEncoded C ca) where
    generated :
        (made : Option (Certificate C)) (s : A.State)
        → made ≡ generate_client_cert C t ca (client_config cfg)
        → A.stored s ns cfg.client_secret_name ≡ none
        → (recreate_generated C A t cfg ca ns made s).0 ≡ some tt
        → Trusted t ca ns cfg.client_secret_name (recreate_generated C A t cfg ca ns made s).1
    unfolding recreate_generated ensure_client_secret
    generated none s e absent h = ground (arith, h)
    generated (some client) s e absent h =
        elim (ensure_secret-Ensured C A ns cfg.client_secret_name client_keys
          (client_secret C t ca client) s h) [
            | inl (x, there, still, keys) ↦ ground (arith, absent, there)
            | inr (gone, there) ↦ (
              client_secret C t ca client,
              there,
              validated t ca client ca-IsEncoded
                  (generate_client_cert-IsEncoded C t ca (client_config cfg) client (sym e))
                  (generate_client_cert-verifies C t ca (client_config cfg) client able (sym e)),
            )
          ]

    removed :
        (s : A.State) (a : Answer Done) (s' : A.State)
        → a ≡ (A.remove ns cfg.client_secret_name s).0
        → s' ≡ (A.remove ns cfg.client_secret_name s).1
        → (recreate_removed C A t cfg ca ns (a, s')).0 ≡ some tt
        → Trusted t ca ns cfg.client_secret_name (recreate_removed C A t cfg ca ns (a, s')).1
    unfolding recreate_removed
    removed s (succeeded u) s' p q h =
        generated _ s' refl
          (ap (λ r. A.stored r ns cfg.client_secret_name) q
            ∙ A.remove_succeeded ns cfg.client_secret_name s (sym p))
          h
    removed s not_found s' p q h =
        generated _ s' refl
          (ap (λ r. A.stored r ns cfg.client_secret_name) q
            ∙ A.remove_not_found ns cfg.client_secret_name s (sym p))
          h
    removed s failed s' p q h = ground (arith, h)

    recreate_client_secret-Trusted :
        (s : A.State)
        → (recreate_client_secret C A t cfg ca ns s).0 ≡ some tt
        → Trusted t ca ns cfg.client_secret_name (recreate_client_secret C A t cfg ca ns s).1
    unfolding recreate_client_secret
    recreate_client_secret-Trusted s h =
        removed s (A.remove ns cfg.client_secret_name s).0 (A.remove ns cfg.client_secret_name s).1
          refl refl h

    invalid_recreated :
        (bad : Bool) (x : Secret C) (s : A.State)
        → validate_client_cert C A t ca x ≡ bad
        → A.stored s ns cfg.client_secret_name ≡ some x
        → (recreate_invalid C A bad t cfg ca ns s).0 ≡ some tt
        → Trusted t ca ns cfg.client_secret_name (recreate_invalid C A bad t cfg ca ns s).1
    unfolding recreate_invalid
    invalid_recreated false x s e there h = (x, there, e)
    invalid_recreated true x s e there h = recreate_client_secret-Trusted s h

    secret_reconciled :
        (cached : Answer (Secret C)) (s : A.State)
        → ((x : Secret C) → cached ≡ succeeded x → A.stored s ns cfg.client_secret_name ≡ some x)
        → (reconcile_secret C A t cfg ca ns cached s).0 ≡ some tt
        → Trusted t ca ns cfg.client_secret_name (reconcile_secret C A t cfg ca ns cached s).1
    unfolding reconcile_secret
    secret_reconciled (succeeded x) s fresh h =
        invalid_recreated (validate_client_cert C A t ca x) x s refl (fresh x refl) h
    secret_reconciled not_found s fresh h = recreate_client_secret-Trusted s h
    secret_reconciled failed s fresh h = ground (arith, h)

    -- With a CA that may sign and whose PEM texts are its own, and a cache that shows a secret as it
    -- is stored: a reconciliation that returns no error leaves a stored client secret that passes the
    -- validation, unless the namespace is gone or is being deleted.
    pub reconcile_secret_request-Trusted :
        (place : Answer Bool) (cached : Answer (Secret C)) (s : A.State)
        → ((x : Secret C) → cached ≡ succeeded x → A.stored s ns cfg.client_secret_name ≡ some x)
        → (reconcile_secret_request C A t cfg ca ns place cached s).0 ≡ some tt
        → ((place ≡ not_found) ⊎ (place ≡ succeeded true))
          ⊎ ((x : Secret C) × (A.stored
                  (reconcile_secret_request C A t cfg ca ns place cached s).1
                  ns
                  cfg.client_secret_name
                ≡ some x)
              × (validate_client_cert C A t ca x ≡ false))
    unfolding reconcile_secret_request
    reconcile_secret_request-Trusted not_found cached s fresh h = inl (inl refl)
    reconcile_secret_request-Trusted failed cached s fresh h = ground (arith, h)
    reconcile_secret_request-Trusted (succeeded true) cached s fresh h = inl (inr refl)
    reconcile_secret_request-Trusted (succeeded false) cached s fresh h =
        inr (secret_reconciled cached s fresh h)

  each-keeps :
      (t : Moment) (cfg : CertConfig) (ca client : Certificate C) (set : Map Done) (s : A.State)
      → (ms key : String) (x : Secret C) → A.stored s ms key ≡ some x
      → A.stored (ensure_each C A t cfg ca client set s) ms key ≡ some x
  unfolding ensure_each ensure_client_secret
  each-keeps t cfg ca client [] s ms key x there = there
  each-keeps t cfg ca client ((ns, u) ∷ rest) s ms key x there =
      each-keeps t cfg ca client rest _ ms key x (
        ensure_secret-keeps C A ns cfg.client_secret_name client_keys (client_secret C t ca client)
          s ms key x there)

  generated-keeps :
      (t : Moment) (cfg : CertConfig) (ca : Certificate C) (made : Option (Certificate C))
      → (s : A.State) (ms key : String) (x : Secret C) → A.stored s ms key ≡ some x
      → A.stored (ensure_generated_clients C A t cfg ca made s) ms key ≡ some x
  unfolding ensure_generated_clients
  generated-keeps t cfg ca none s ms key x there = there
  generated-keeps t cfg ca (some client) s ms key x there =
      each-keeps t cfg ca client cfg.client_secret_namespace_set s ms key x there

  -- Writing the client certificates to the configured namespaces changes no secret that exists, in
  -- any namespace, whichever calls fail.
  pub ensure_client_certificates-keeps :
      (t : Moment) (cfg : CertConfig) (ca : Certificate C) (s : A.State)
      → (ms key : String) (x : Secret C) → A.stored s ms key ≡ some x
      → A.stored (ensure_client_certificates C A t cfg ca s) ms key ≡ some x
  unfolding ensure_client_certificates
  ensure_client_certificates-keeps t cfg ca s ms key x there =
      generated-keeps t cfg ca _ s ms key x there
