-- ===== src/Controller/SecretSync/Requests.antt =====
-- `CertConfig.Valid` and the events that the secret controller handles.
use etcdauto.Prelude.{
  or_false, ℕ, zero, suc, ◌≤◌, String, ◌≡◌, ◌≢◌, refl, sym, ap, subst, ◌∙◌, true, ◌&&◌, ◌||◌, some,
  Map, lookup, insert, lookup-insert, is_some, any, List, [], ◌∷◌, arith, ◌==◌, eq_iff,
  if◌then◌else◌,
}
use etcdauto.Certs.Api.{Done}
use etcdauto.Controller.SecretSync.{
  CertConfig, or_else, default_years, set_of, with_defaults, valid_cert, secret_object,
  unified_predicate, namespace_requests,
}

is_some-set_of :
    (ns : String) (list : List String) (m : Map Done)
    → is_some (lookup ns (set_of list m)) ≡ (any (λ s. s == ns) list || is_some (lookup ns m))
unfolding set_of
is_some-set_of ns [] m = refl
is_some-set_of ns (s ∷ list) m =
    let ih = is_some-set_of ns list (insert s tt m) in ground (arith, ih, lookup-insert s ns tt m)

or_else_full : (text default : String) → default ≢ "" → or_else text default ≢ ""
unfolding or_else
or_else_full text default d = ground (arith, eq_iff text "")

default_years_positive : (n : ℕ) → 1 ≤ default_years n
unfolding default_years
default_years_positive zero = omega arith
default_years_positive (suc n) = omega arith

pub valid_cert_inverts :
    (c d : CertConfig)
    → c.enabled ≡ true
    → valid_cert c ≡ some d
    → (d ≡ with_defaults c) × (c.ca_secret_name ≢ "") × (c.client_secret_name ≢ "")
unfolding valid_cert
valid_cert_inverts c d on h =
    ground (arith, on, h, eq_iff c.ca_secret_name "", eq_iff c.client_secret_name "")

pub listed :
    (c d : CertConfig) (ns : String)
    → d ≡ with_defaults c
    → is_some (lookup ns d.client_secret_namespace_set)
      ≡ any (λ s. s == ns) c.client_secret_namespaces
unfolding with_defaults lookup
listed c d ns e =
    ap (λ x. is_some (lookup ns x.client_secret_namespace_set)) e
    ∙ (is_some-set_of ns c.client_secret_namespaces [] ∙ or_false _)

-- A configuration that is enabled and valid names both secrets, is valid for at least a year and has
-- an organization and a common name; of the events of secrets the controller is told those of its
-- client secret in a listed namespace, and an event of a namespace becomes a request for that secret
-- exactly where the namespace is listed.
pub valid_cert_watches :
    (c d : CertConfig) (ns name : String)
    → c.enabled ≡ true
    → valid_cert c ≡ some d
    → ((d.ca_secret_name ≢ "")
        × (d.client_secret_name ≢ "")
        × (1 ≤ d.validity_years)
        × (d.organization ≢ "")
        × (d.common_name ≢ ""))
      × (unified_predicate d (secret_object ns name)
          ≡ ((name == c.client_secret_name) && any (λ s. s == ns) c.client_secret_namespaces))
      × (namespace_requests d ns ≡ (
          if any (λ s. s == ns) c.client_secret_namespaces
          then (ns, c.client_secret_name) ∷ []
          else []))
unfolding with_defaults unified_predicate namespace_requests
valid_cert_watches c d ns name on h =
    let (e, ca_named, client_named) = valid_cert_inverts c d on h in
    let is_listed = listed c d ns e in
    let named = ap (λ x. x.client_secret_name) e in
    (
      (
        (λ p. ca_named (sym (ap (λ x. x.ca_secret_name) e) ∙ p)),
        (λ p. client_named (sym named ∙ p)),
        subst (λ x. 1 ≤ x.validity_years) (sym e) (default_years_positive c.validity_years),
        (λ p.
            or_else_full c.organization "etcdauto" (ground (arith, eq_iff "etcdauto" ""))
              (sym (ap (λ x. x.organization) e) ∙ p)),
        (λ p.
            or_else_full c.common_name "etcdauto-ca" (ground (arith, eq_iff "etcdauto-ca" ""))
              (sym (ap (λ x. x.common_name) e) ∙ p)),
      ),
      rw named (rw is_listed refl),
      rw named (rw is_listed refl),
    )
