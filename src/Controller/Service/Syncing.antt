-- ===== src/Controller/Service/Syncing.antt =====
-- `syncService`: the addresses and the ports that are stored after a success.
use etcdauto.Prelude.{
  or_swap, or_false, ℕ, String, if◌then◌else◌, ◌≡◌, refl, sym, ap, ◌∙◌, inl, inr, Bool, true, false,
  ◌&&◌, ◌||◌, Option, none, some, any, List, [], ◌∷◌, ◌==◌, arith, Bool-cases,
}
use etcdauto.Certs.Authority.Loading.{some_injective}
use etcdauto.Controller.Sets.{Sets}
use etcdauto.Controller.Service.{
  PortInfo, ServicePort, protocol_text, trans_port, trans_ports, add_ports, ServiceConfig, Service,
  Endpoints, subsets_of, desired_service, desired_endpoints, Stored, stored, absent, unread,
  create_or_update, add_addresses, add_subsets, addresses_of, ports_of, equal_service,
  equal_endpoint, mutate_service, mutate_endpoints, pair_with, then_endpoints, sync_service,
}

-- The text by which a stored port is compared, and that of a configured port
abbrev pub stored_text : (String → ℕ → String) → ServicePort → String
stored_text port_text p = port_text (protocol_text p.port_protocol) p.port_number

abbrev pub configured_text : (String → ℕ → String) → (String → String) → PortInfo → String
configured_text port_text lower p =
    port_text (if lower p.protocol == "udp" then "UDP" else "TCP") p.port

-- The addresses are exactly the IPs.
abbrev pub HasIps : Endpoints → List String → Type 0
HasIps e ips = (x : String) → any (λ s. any (λ ip. ip == x) s) e.subsets ≡ any (λ ip. ip == x) ips

-- The ports are exactly the configured ones.
abbrev pub HasPorts : (String → ℕ → String) → (String → String) → Service → List PortInfo → Type 0
HasPorts port_text lower s ports =
    (x : String)
    → any (λ p. stored_text port_text p == x) s.service_ports
      ≡ any (λ p. configured_text port_text lower p == x) ports

right_true : (p q : Bool) → (p && q) ≡ true → q ≡ true
right_true p q h = ground (arith, h)

-- What is stored is what the mutation made of something.
pub created_mutated :
    {A : Type 0} (mutate : A → A) (desired : A) (accepted : Bool) (old : Stored A) (new : A)
    → create_or_update mutate desired accepted old ≡ some new
    → (x : A) × (mutate x ≡ new)
unfolding create_or_update
created_mutated mutate desired true (stored x) new h = (x, some_injective h)
created_mutated mutate desired false (stored x) new h = ground (arith, h)
created_mutated mutate desired true absent new h = (desired, some_injective h)
created_mutated mutate desired false absent new h = ground (arith, h)
created_mutated mutate desired accepted unread new h = ground (arith, h)

module _ (S : Sets) (port_text : String → ℕ → String) where
  has-add_addresses :
      (ips : List String) (acc : S.Set) (x : String)
      → S.has (add_addresses S port_text ips acc) x ≡ (any (λ ip. ip == x) ips || S.has acc x)
  unfolding add_addresses
  has-add_addresses [] acc x = refl
  has-add_addresses (ip ∷ ips) acc x =
      has-add_addresses ips (S.insert acc ip) x
      ∙ rw (S.has_insert acc ip x) (or_swap (ip == x) (any (λ i. i == x) ips) (S.has acc x))

  has-desired :
      (c : ServiceConfig) (ips : List String) (x : String)
      → S.has (addresses_of S port_text (desired_endpoints c ips)) x ≡ any (λ ip. ip == x) ips
  unfolding addresses_of desired_endpoints subsets_of add_subsets
  has-desired c [] x = S.has_new x
  has-desired c (ip ∷ ips) x =
      has-add_addresses (ip ∷ ips) S.new x
      ∙ rw (S.has_new x) (or_false (any (λ i. i == x) (ip ∷ ips)))

  has-add_subsets :
      (ss : List (List String)) (acc : S.Set) (x : String)
      → S.has (add_subsets S port_text ss acc) x
        ≡ (any (λ s. any (λ ip. ip == x) s) ss || S.has acc x)
  unfolding add_subsets
  has-add_subsets [] acc x = refl
  has-add_subsets (s ∷ ss) acc x =
      has-add_subsets ss (add_addresses S port_text s acc) x
      ∙ rw (has-add_addresses s acc x)
          (or_swap (any (λ ip. ip == x) s) (any (λ t. any (λ ip. ip == x) t) ss) (S.has acc x))

  has-addresses_of :
      (e : Endpoints) (x : String)
      → S.has (addresses_of S port_text e) x ≡ any (λ s. any (λ ip. ip == x) s) e.subsets
  unfolding addresses_of
  has-addresses_of e x =
      has-add_subsets e.subsets S.new x ∙ rw (S.has_new x) (or_false (any _ e.subsets))

  has-add_ports :
      (ps : List ServicePort) (acc : S.Set) (x : String)
      → S.has (add_ports S port_text ps acc) x
        ≡ (any (λ p. stored_text port_text p == x) ps || S.has acc x)
  unfolding add_ports
  has-add_ports [] acc x = refl
  has-add_ports (p ∷ ps) acc x =
      has-add_ports ps (S.insert acc (stored_text port_text p)) x
      ∙ rw (S.has_insert acc (stored_text port_text p) x) (
          or_swap (stored_text port_text p == x) (any (λ q. stored_text port_text q == x) ps)
            (S.has acc x))

  has-ports_of :
      (s : Service) (x : String)
      → S.has (ports_of S port_text s) x ≡ any (λ p. stored_text port_text p == x) s.service_ports
  unfolding ports_of
  has-ports_of s x =
      has-add_ports s.service_ports S.new x ∙ rw (S.has_new x) (or_false (any _ s.service_ports))

  trans_port_text :
      (lower : String → String) (p : PortInfo)
      → stored_text port_text (trans_port lower p) ≡ configured_text port_text lower p
  unfolding trans_port protocol_text
  trans_port_text lower p = elim (Bool-cases (lower p.protocol == "udp")) [
    | inl is_udp ↦ rw is_udp refl
    | inr other ↦ rw other refl
  ]

  trans_ports-HasPorts :
      (lower : String → String) (ps : List PortInfo) (x : String)
      → any (λ p. stored_text port_text p == x) (trans_ports lower ps)
        ≡ any (λ p. configured_text port_text lower p == x) ps
  unfolding trans_ports
  trans_ports-HasPorts lower [] x = refl
  trans_ports-HasPorts lower (p ∷ ps) x =
      rw (trans_port_text lower p) (rw (trans_ports-HasPorts lower ps x))

  desired-HasPorts :
      (lower : String → String) (c : ServiceConfig)
      → HasPorts port_text lower (desired_service lower c) c.ports
  unfolding desired_service
  desired-HasPorts lower c x = trans_ports-HasPorts lower c.ports x

  mutated_addresses :
      (desired e : Endpoints) (x : String)
      → S.has (addresses_of S port_text (mutate_endpoints S port_text desired e)) x
        ≡ S.has (addresses_of S port_text desired) x
  unfolding mutate_endpoints equal_endpoint addresses_of
  mutated_addresses desired e x = elim (Bool-cases (equal_endpoint S port_text e desired)) [
    | inl same ↦ rw same ((S.equal_iff _ _).0 (right_true _ _ same) x)
    | inr other ↦ rw other refl
  ]

  mutated_ports :
      (desired s : Service) (x : String)
      → S.has (ports_of S port_text (mutate_service S port_text desired s)) x
        ≡ S.has (ports_of S port_text desired) x
  unfolding mutate_service equal_service ports_of
  mutated_ports desired s x = elim (Bool-cases (equal_service S port_text s desired)) [
    | inl same ↦ rw same ((S.equal_iff _ _).0 (right_true _ _ same) x)
    | inr other ↦ rw other refl
  ]

  paired :
      (s : Service) (o : Option Endpoints) (r : Service × Endpoints)
      → pair_with S port_text s o ≡ some r
      → (o ≡ some r.1) × (s ≡ r.0)
  unfolding pair_with
  paired s none r h = ground (arith, h)
  paired s (some e) r h = (ap (λ q. some q.1) (some_injective h), ap (λ q. q.0) (some_injective h))

  ended :
      (c : ServiceConfig) (ips : List String) (answer : Stored Endpoints × Bool)
      → (made : Option Service) (r : Service × Endpoints)
      → then_endpoints S port_text c ips answer made ≡ some r
      → (made ≡ some r.0)
        × ((x : String) → S.has (addresses_of S port_text r.1) x ≡ any (λ ip. ip == x) ips)
  unfolding then_endpoints
  ended c ips answer none r h = ground (arith, h)
  ended c ips answer (some s) r h =
      let (made, same) = paired s _ r h in
      let (e, became) =
        created_mutated (mutate_endpoints S port_text (desired_endpoints c ips))
          (desired_endpoints c ips) answer.1 answer.0 r.1 made in
      (
        ap (λ q. some q) same,
        λ x.
            ap (λ q. S.has (addresses_of S port_text q) x) (sym became)
            ∙ (mutated_addresses (desired_endpoints c ips) e x ∙ has-desired c ips x),
      )

  -- A sync that returns no error leaves endpoints whose addresses are exactly the listed IPs, and a
  -- service whose ports are exactly the configured ones, each by the text made of its protocol (UDP if
  -- the configured one is "udp" in lower case, otherwise TCP) and its number, whatever was stored
  -- before.
  pub sync_service_stores :
      (lower : String → String) (c : ServiceConfig) (ips : List String)
      → (service_answer : Stored Service × Bool) (endpoints_answer : Stored Endpoints × Bool)
      → (s : Service) (e : Endpoints)
      → sync_service S port_text lower c (some ips) service_answer endpoints_answer ≡ some (s, e)
      → HasIps e ips × HasPorts port_text lower s c.ports
  unfolding sync_service
  sync_service_stores lower c ips service_answer endpoints_answer s e h =
      let (made, addresses) = ended c ips endpoints_answer _ (s, e) h in
      let (old, became) =
        created_mutated (mutate_service S port_text (desired_service lower c))
          (desired_service lower c) service_answer.1 service_answer.0 s made in
      (
        λ x. sym (has-addresses_of e x) ∙ addresses x,
        λ x.
            sym (has-ports_of s x)
            ∙ ap (λ q. S.has (ports_of S port_text q) x) (sym became)
            ∙ mutated_ports (desired_service lower c) old x
            ∙ has-ports_of (desired_service lower c) x
            ∙ desired-HasPorts lower c x,
      )
