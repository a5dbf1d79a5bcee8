-- ===== src/Controller/EcsNode/Master.antt =====
-- `getIpmap` by what it is given: under which IP a node is kept, and which endpoints give its IPs.
use etcdauto.Prelude.{
  String, ◌≡◌, ◌≢◌, ◌↔◌, refl, sym, ap, ◌∙◌, inl, inr, true, false, Option, none, some, any, Any,
  All, List, [], ◌∷◌, ◌++◌, ◌==◌, eq_iff, arith, Bool-cases, if_true,
}
use etcdauto.Controller.Sets.{Sets}
use etcdauto.Controller.EcsNode.{
  EcsNodeConfig, Node, ip_of, has_interface, is_usable, add_usable, add_endpoint, add_endpoints,
  get_ipmap,
}
use etcdauto.Controller.EcsNode.Addresses.{gives, or_true, has-get_ipmap}

-- The endpoint is one of a configured interface, and this is its IP.
abbrev pub Gives : EcsNodeConfig → String → Option (String × String) → Type 0
Gives c x none = ⊥
Gives c x (some (name, ipnet)) = Any (λ i. i ≡ name) c.interfaces × (ip_of ipnet ≡ x) × (x ≢ "")

-- The endpoint is one of the master interface, and has an IP.
abbrev pub OnMaster : EcsNodeConfig → Option (String × String) → Type 0
OnMaster c none = ⊥
OnMaster c (some (name, ipnet)) = (name ≡ c.master_if) × (ip_of ipnet ≢ "")

has_interface_iff :
    (is : List String) (name : String) → (has_interface is name ≡ true) ↔ Any (λ i. i ≡ name) is
unfolding has_interface
has_interface_iff [] name = ground arith
has_interface_iff (i ∷ is) name = ground (arith, eq_iff i name, has_interface_iff is name)

module _ (c : EcsNodeConfig) where
  is_usable_iff :
      (name ipnet : String)
      → (is_usable c (name, ipnet) ≡ true) ↔ ((ip_of ipnet ≢ "") × Any (λ i. i ≡ name) c.interfaces)
  unfolding is_usable
  is_usable_iff name ipnet =
      ground (arith, eq_iff (ip_of ipnet) "", has_interface_iff c.interfaces name)

  gives_iff : (x : String) (e : Option (String × String)) → (gives c x e ≡ true) ↔ Gives c x e
  gives_iff x none = ground arith
  gives_iff x (some (name, ipnet)) = (
    λ h.
        let (there, configured) = (is_usable_iff name ipnet).0 (ground (arith, h)) in
        let is_x = (eq_iff (ip_of ipnet) x).0 (ground (arith, h)) in
        (configured, is_x, λ blank. there (is_x ∙ blank)),
    λ (configured, is_x, there).
        let usable =
          (is_usable_iff name ipnet).1 ((λ blank. there (sym is_x ∙ blank)), configured) in
        ground (arith, usable, (eq_iff (ip_of ipnet) x).1 is_x),
  )

  any-gives_iff :
      (x : String) (es : List (Option (String × String)))
      → (any (gives c x) es ≡ true) ↔ Any (Gives c x) es
  any-gives_iff x [] = ground arith
  any-gives_iff x (e ∷ es) = (
    λ h. elim (Bool-cases (gives c x e)) [
      | inl here ↦ inl ((gives_iff x e).0 here)
      | inr other ↦ inr ((any-gives_iff x es).0 (ground (arith, h, other)))
    ],
    λ h. elim h [
      | inl here ↦ rw ((gives_iff x e).1 here) refl
      | inr there ↦ or_true (gives c x e) _ ((any-gives_iff x es).1 there)
    ],
  )

  module _ (S : Sets) where
    add_endpoint-quiet :
        (e : Option (String × String)) (acc : String × S.Set)
        → (¬ OnMaster c e)
        → (add_endpoint S c e acc).0 ≡ acc.0
    unfolding add_endpoint add_usable
    add_endpoint-quiet none acc other = refl
    add_endpoint-quiet (some (name, ipnet)) (master, ips) other =
        elim (Bool-cases (is_usable c (name, ipnet))) [
          | inr unusable ↦ rw unusable refl
          | inl usable ↦
              let there = ((is_usable_iff name ipnet).0 usable).0 in
              let apart : (name == c.master_if) ≡ false = elim (Bool-cases (name == c.master_if)) [
                | inl same ↦ absurd (other ((eq_iff name c.master_if).0 same, there))
                | inr q ↦ q
              ] in
              rw usable (rw apart refl)
        ]

    add_endpoints-quiet :
        (es : List (Option (String × String))) (acc : String × S.Set)
        → All (λ e. ¬ OnMaster c e) es
        → (add_endpoints S c es acc).0 ≡ acc.0
    unfolding add_endpoints
    add_endpoints-quiet [] acc quiet = refl
    add_endpoints-quiet (e ∷ es) acc (here, later) =
        add_endpoints-quiet es (add_endpoint S c e acc) later ∙ add_endpoint-quiet e acc here

    add_endpoint-master :
        (ipnet : String) (acc : String × S.Set)
        → Any (λ i. i ≡ c.master_if) c.interfaces
        → ip_of ipnet ≢ ""
        → (add_endpoint S c (some (c.master_if, ipnet)) acc).0 ≡ ip_of ipnet
    unfolding add_endpoint add_usable
    add_endpoint-master ipnet (master, ips) configured there =
        rw ((is_usable_iff c.master_if ipnet).1 (there, configured))
          (if_true (c.master_if == c.master_if) _ _ ((eq_iff c.master_if c.master_if).1 refl))

    add_endpoints-append :
        (before after : List (Option (String × String))) (acc : String × S.Set)
        → add_endpoints S c (before ++ after) acc
          ≡ add_endpoints S c after (add_endpoints S c before acc)
    unfolding add_endpoints
    add_endpoints-append [] after acc = refl
    add_endpoints-append (e ∷ before) after acc =
        add_endpoints-append before after (add_endpoint S c e acc)

    -- The node is kept under the IP of its last endpoint on the master interface that has one.
    pub get_ipmap-master :
        (n : Node) (before after : List (Option (String × String))) (ipnet : String)
        → n.endpoints ≡ before ++ (some (c.master_if, ipnet) ∷ after)
        → Any (λ i. i ≡ c.master_if) c.interfaces
        → ip_of ipnet ≢ ""
        → All (λ e. ¬ OnMaster c e) after
        → (get_ipmap S c n).0 ≡ ip_of ipnet
    unfolding get_ipmap add_endpoints
    get_ipmap-master n before after ipnet split configured there quiet =
        let acc = add_endpoints S c before ("", S.new) in
        ap (λ es. (add_endpoints S c es ("", S.new)).0) split
        ∙ ap (λ r. r.0)
            (add_endpoints-append before (some (c.master_if, ipnet) ∷ after) ("", S.new))
        ∙ add_endpoints-quiet after (add_endpoint S c (some (c.master_if, ipnet)) acc) quiet
        ∙ add_endpoint-master ipnet acc configured there

    pub has-get_ipmap_iff :
        (n : Node) (x : String) → (S.has (get_ipmap S c n).1 x ≡ true) ↔ Any (Gives c x) n.endpoints
    has-get_ipmap_iff n x = rw (has-get_ipmap S c n x) (any-gives_iff x n.endpoints)
