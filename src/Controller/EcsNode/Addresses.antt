-- ===== src/Controller/EcsNode/Addresses.antt =====
-- `getIpmap`: which IPs of a node are taken.
use etcdauto.Prelude.{
  or_swap, or_false, String, ◌≡◌, refl, ◌∙◌, ◌⊎◌, inl, inr, Bool, true, false, ◌&&◌, ◌||◌, Option,
  none, some, any, List, [], ◌∷◌, ◌==◌, eq_iff, arith, Bool-cases,
}
use etcdauto.Controller.Sets.{Sets}
use etcdauto.Controller.EcsNode.{
  EcsNodeConfig, Node, ip_of, is_usable, add_usable, add_endpoint, add_endpoints, get_ipmap,
}

-- The endpoint belongs to a configured interface and has this IP.
abbrev pub gives : EcsNodeConfig → String → Option (String × String) → Bool
gives c x none = false
gives c x (some (name, ipnet)) = is_usable c (name, ipnet) && (ip_of ipnet == x)

pub or_true : (p q : Bool) → q ≡ true → (p || q) ≡ true
or_true p q e = ground (arith, e)

self_or : (x : String) (q : Bool) → (x == x || q) ≡ true
self_or x q = ground (arith, eq_iff x x)

module _ (S : Sets) (c : EcsNodeConfig) where
  has-add_usable :
      (name ip x : String) (acc : String × S.Set)
      → S.has (add_usable S c name ip acc).1 x ≡ (ip == x || S.has acc.1 x)
  unfolding add_usable
  has-add_usable name ip x (master, ips) = S.has_insert ips ip x

  has-add_endpoint :
      (e : Option (String × String)) (x : String) (acc : String × S.Set)
      → S.has (add_endpoint S c e acc).1 x ≡ (gives c x e || S.has acc.1 x)
  unfolding add_endpoint
  has-add_endpoint none x acc = refl
  has-add_endpoint (some (name, ipnet)) x acc = elim (Bool-cases (is_usable c (name, ipnet))) [
    | inl usable ↦ rw usable (has-add_usable name (ip_of ipnet) x acc)
    | inr other ↦ rw other refl
  ]

  has-add_endpoints :
      (es : List (Option (String × String))) (x : String) (acc : String × S.Set)
      → S.has (add_endpoints S c es acc).1 x ≡ (any (gives c x) es || S.has acc.1 x)
  unfolding add_endpoints
  has-add_endpoints [] x acc = refl
  has-add_endpoints (e ∷ es) x acc =
      let ih = has-add_endpoints es x (add_endpoint S c e acc) in
      let here = has-add_endpoint e x acc in
      ih ∙ (rw here (or_swap (gives c x e) (any (gives c x) es) (S.has acc.1 x)))

  -- The set that is made from a node has exactly the IPs of its endpoints on configured interfaces.
  pub has-get_ipmap :
      (n : Node) (x : String) → S.has (get_ipmap S c n).1 x ≡ any (gives c x) n.endpoints
  unfolding get_ipmap
  has-get_ipmap n x =
      has-add_endpoints n.endpoints x ("", S.new)
      ∙ rw (S.has_new x) (or_false (any (gives c x) n.endpoints))

  -- The master is empty or in the set.
  MasterIn : String × S.Set → Type 0
  MasterIn acc = (acc.0 ≡ "") ⊎ (S.has acc.1 acc.0 ≡ true)

  add_usable-MasterIn :
      (name ip : String) (acc : String × S.Set)
      → MasterIn acc
      → MasterIn (add_usable S c name ip acc)
  unfolding add_usable MasterIn
  add_usable-MasterIn name ip (master, ips) h = elim (Bool-cases (name == c.master_if)) [
    | inl own ↦ rw own (inr (S.has_insert ips ip ip ∙ self_or ip (S.has ips ip)))
    | inr other ↦ rw other (elim h [
      | inl e ↦ inl e
      | inr there ↦
          inr (S.has_insert ips ip master ∙ or_true (ip == master) (S.has ips master) there)
    ])
  ]

  add_endpoint-MasterIn :
      (e : Option (String × String)) (acc : String × S.Set)
      → MasterIn acc
      → MasterIn (add_endpoint S c e acc)
  unfolding add_endpoint
  add_endpoint-MasterIn none acc h = h
  add_endpoint-MasterIn (some (name, ipnet)) acc h = elim (Bool-cases (is_usable c (name, ipnet))) [
    | inl usable ↦ rw usable (add_usable-MasterIn name (ip_of ipnet) acc h)
    | inr other ↦ rw other h
  ]

  add_endpoints-MasterIn :
      (es : List (Option (String × String))) (acc : String × S.Set)
      → MasterIn acc
      → MasterIn (add_endpoints S c es acc)
  unfolding add_endpoints
  add_endpoints-MasterIn [] acc h = h
  add_endpoints-MasterIn (e ∷ es) acc h =
      add_endpoints-MasterIn es (add_endpoint S c e acc) (add_endpoint-MasterIn e acc h)

  pub master_is_own :
      (n : Node)
      → ((get_ipmap S c n).0 ≡ "") ⊎ (S.has (get_ipmap S c n).1 (get_ipmap S c n).0 ≡ true)
  unfolding get_ipmap MasterIn
  master_is_own n = add_endpoints-MasterIn n.endpoints ("", S.new) (inl refl)
