-- ===== src/Ecsnode/Defaults.antt =====
-- A configuration that ApplyDefault accepts has all its parts valid.
use etcdauto.Prelude.{
  String, ◌≡◌, ◌≢◌, refl, sym, ap, ◌∙◌, Bool, true, Option, none, some, lookup, is_some, any, List,
  [], ◌∷◌, ◌++◌, ◌==◌, eq_iff, eq_refl, arith, if◌then◌else◌, Bool-cases, inl, inr, if_true,
  if_false,
}
use etcdauto.Certs.Authority.Loading.{>>=-eq-some, some_injective}
use etcdauto.Controller.SecretSync.{CertConfig, valid_cert, with_defaults}
use etcdauto.Controller.SecretSync.Requests.{valid_cert_inverts, listed}
use etcdauto.Controller.EcsNode.{valid_ecs_node}
use etcdauto.Controller.Service.{ServiceConfig, valid_service}
use etcdauto.Controller.Node.{NodeConfig, NodeConfigError, valid_node, set_defaults}
use etcdauto.Ecsnode.{
  Config, ConfigMapConfig, valid_config_map, valid_pod, with_namespace, with_own_namespaces,
  default_cert, config_map_in, default_config_map, service_in, default_service, default_ecs_node,
  default_pod, node_in, without_error, default_node, checked, defaults_of, apply_default,
}

none_is_not {κ} : {A : Type 0} {B : Type κ} {a : A} → none ≡ some a → B
none_is_not e = ground (arith, e)

any-append :
    (self : String) (list : List String) → any (λ ns. ns == self) (list ++ (self ∷ [])) ≡ true
any-append self [] = rw (eq_refl self) refl
any-append self (ns ∷ list) = ground (arith, any-append self list)

any-with_namespace :
    (self : String) (list : List String) → any (λ ns. ns == self) (with_namespace self list) ≡ true
unfolding with_namespace
any-with_namespace self list = elim (Bool-cases (any (λ ns. ns == self) list)) [
  | inl there ↦ rw there there
  | inr missing ↦ rw missing (any-append self list)
]

-- What is asked of the part for certificates
abbrev CertUsable : String → CertConfig → Type 0
CertUsable self d =
    (d.enabled ≡ true
      → (d.ca_secret_name ≢ "")
        × (d.client_secret_name ≢ "")
        × (is_some (lookup self d.client_secret_namespace_set) ≡ true))

enabled_usable :
    (self : String) (c d : CertConfig)
    → c.enabled ≡ true
    → valid_cert c ≡ some d
    → any (λ ns. ns == self) c.client_secret_namespaces ≡ true
    → CertUsable self d
unfolding with_defaults
enabled_usable self c d on h there =
    let (e, ca_named, client_named) = valid_cert_inverts c d on h in
    λ enabled. (
      λ p. ca_named (sym (ap (λ x. x.ca_secret_name) e) ∙ p),
      λ p. client_named (sym (ap (λ x. x.client_secret_name) e) ∙ p),
      listed c d self e ∙ there,
    )

default_cert-CertUsable :
    (self : String) (c d : CertConfig) → default_cert self c ≡ some d → CertUsable self d
unfolding default_cert with_own_namespaces
default_cert-CertUsable self c d h = elim (Bool-cases c.enabled) [
  | inl on ↦
      enabled_usable self (with_own_namespaces self c) d on (sym (if_true c.enabled _ _ on) ∙ h)
        (any-with_namespace self c.client_secret_namespaces)
  | inr off ↦
      let e = some_injective (sym (if_false c.enabled _ _ off) ∙ h) in
      λ enabled. ground (arith, off, enabled, ap (λ x. x.enabled) e)
]

checked_holds :
    {A : Type 0} (valid : A → Bool) (a d : A)
    → (if valid a then some a else none) ≡ some d
    → valid d ≡ true
checked_holds valid a d h = elim (Bool-cases (valid a)) [
  | inl ok ↦ ap valid (sym (some_injective (sym (if_true (valid a) _ _ ok) ∙ h))) ∙ ok
  | inr bad ↦ none_is_not (sym (if_false (valid a) _ _ bad) ∙ h)
]

checked_is : {A : Type 0} (valid : A → Bool) (a d : A) → checked valid a ≡ some d → valid d ≡ true
unfolding checked
checked_is valid a d h = checked_holds valid a d h

default_config_map-named :
    (self : String) (c d : ConfigMapConfig)
    → default_config_map self c ≡ some d
    → d.name ≢ ""
    → valid_config_map d ≡ true
unfolding default_config_map
default_config_map-named self c d h named = elim (Bool-cases (c.name == "")) [
  | inl e ↦
      let same = some_injective (sym (if_true (c.name == "") _ _ e) ∙ h) in
      absurd (named (sym (ap (λ x. x.name) same) ∙ (eq_iff c.name "").0 e))
  | inr e ↦
      checked_holds valid_config_map (config_map_in self c) d
        (sym (if_false (c.name == "") _ _ e) ∙ h)
]

default_service-named :
    (self : String) (c d : ServiceConfig)
    → default_service self c ≡ some d
    → d.name ≢ ""
    → valid_service d ≡ true
unfolding default_service
default_service-named self c d h named = elim (Bool-cases (c.name == "")) [
  | inl e ↦
      let same = some_injective (sym (if_true (c.name == "") _ _ e) ∙ h) in
      absurd (named (sym (ap (λ x. x.name) same) ∙ (eq_iff c.name "").0 e))
  | inr e ↦
      checked_holds valid_service (service_in self c) d (sym (if_false (c.name == "") _ _ e) ∙ h)
]

without_error_holds :
    (valid : NodeConfig → Option NodeConfigError) (c d : NodeConfig)
    → without_error (valid c) c ≡ some d
    → valid d ≡ none
unfolding without_error
without_error_holds valid c d h = decide (valid c) refl h
  where
    decide :
        (o : Option NodeConfigError) → valid c ≡ o → without_error o c ≡ some d → valid d ≡ none
    decide none e g = ap valid (sym (some_injective g)) ∙ e
    decide (some x) e g = ground (arith, g)

default_node-named :
    (self : String) (c d : NodeConfig)
    → default_node self c ≡ some d
    → d.statefulset_name ≢ ""
    → valid_node d ≡ none
unfolding default_node
default_node-named self c d h named = elim (Bool-cases (c.statefulset_name == "")) [
  | inl e ↦
      let same = some_injective (sym (if_true (c.statefulset_name == "") _ _ e) ∙ h) in
      absurd (named (sym (ap (λ x. x.statefulset_name) same) ∙ (eq_iff c.statefulset_name "").0 e))
  | inr e ↦
      without_error_holds valid_node (node_in self (set_defaults c)) d
        (sym (if_false (c.statefulset_name == "") _ _ e) ∙ h)
]

-- Valid in every part that is switched on, for the namespace `self`
abbrev pub IsValid : String → Config → Type 0
IsValid self d =
    (d.cert.enabled ≡ true
      → (d.cert.ca_secret_name ≢ "")
        × (d.cert.client_secret_name ≢ "")
        × (is_some (lookup self d.cert.client_secret_namespace_set) ≡ true))
    × (d.configmap.name ≢ "" → valid_config_map d.configmap ≡ true)
    × (d.service_config.name ≢ "" → valid_service d.service_config ≡ true)
    × (valid_ecs_node d.ecs_node ≡ true)
    × (valid_pod d.pod_config ≡ true)
    × (d.node.statefulset_name ≢ "" → valid_node d.node ≡ none)

-- A configuration that is accepted is valid in every part that is switched on: with certificates
-- enabled both secrets are named and the own namespace is among those of the client secrets; a named
-- config map has a namespace, a named service is valid; the hosts' and the pods' parts are valid, and
-- the nodes' part has no error where a stateful set is named.
pub apply_default-IsValid :
    (given : Option Config) (d : Config) (self : String)
    → apply_default given self ≡ some d
    → IsValid self d
unfolding apply_default defaults_of
apply_default-IsValid none d self h = ground (arith, h)
apply_default-IsValid (some c) d self h =
    let (cert, cert_ok, h1) = >>=-eq-some (default_cert self c.cert) _ h in
    let (map, map_ok, h2) = >>=-eq-some (default_config_map self c.configmap) _ h1 in
    let (service, service_ok, h3) = >>=-eq-some (default_service self c.service_config) _ h2 in
    let (ecs, ecs_ok, h4) =
      >>=-eq-some (checked valid_ecs_node (default_ecs_node self c.ecs_node)) _ h3 in
    let (pod, pod_ok, h5) = >>=-eq-some (checked valid_pod (default_pod self c.pod_config)) _ h4 in
    let (node, node_ok, h6) = >>=-eq-some (default_node self c.node) _ h5 in
    let e = some_injective h6 in
    (
      default_cert-CertUsable self c.cert d.cert (cert_ok ∙ ap (λ x. some x.cert) e),
      default_config_map-named self c.configmap d.configmap (map_ok ∙ ap (λ x. some x.configmap) e),
      default_service-named self c.service_config d.service_config
          (service_ok ∙ ap (λ x. some x.service_config) e),
      checked_is valid_ecs_node (default_ecs_node self c.ecs_node) d.ecs_node
          (ecs_ok ∙ ap (λ x. some x.ecs_node) e),
      checked_is valid_pod (default_pod self c.pod_config) d.pod_config
          (pod_ok ∙ ap (λ x. some x.pod_config) e),
      default_node-named self c.node d.node (node_ok ∙ ap (λ x. some x.node) e),
    )
