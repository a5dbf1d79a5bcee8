-- ===== src/Controller/EcsNode/Publishing.antt =====
-- `Reconcile` of the host controller: what is kept of a host, and that every change is published.
use etcdauto.Prelude.{
  suc, String, ◌≡◌, ◌≢◌, refl, sym, ap, ◌∙◌, ◌⊎◌, inl, inr, Bool, true, false, Option, none, some,
  Any, All, ◌↔◌, ◌++◌, ◌∷◌, lookup, lookup-insert, List, ◌==◌, eq_iff, eq_refl, arith,
  if◌then◌else◌, Bool-cases, if_true, if_false,
}
use etcdauto.Controller.Sets.{Sets}
use etcdauto.Controller.EcsNode.{
  EcsNodeConfig, Node, ip_of, EcsNode, get_ipmap, publishing, init_answered, ips_differ, update_ips,
  node_seen, node_read, reconcile_ecs_node,
}
use etcdauto.Controller.EcsNode.Master.{Gives, OnMaster, get_ipmap-master, has-get_ipmap_iff}

module _ (S : Sets) where
  -- A step that changes the hosts sends a signal.
  Tells : EcsNode S → EcsNode S → Type 0
  Tells h r = (r ≡ h) ⊎ (r.triggers ≡ suc h.triggers)

  update-Tells :
      (master : String) (ips : S.Set) (h : EcsNode S) → Tells h (update_ips S master ips h)
  unfolding update_ips publishing Tells
  update-Tells master ips h = elim (Bool-cases (ips_differ S ips (lookup master h.host_ips))) [
    | inl new ↦ rw new (inr refl)
    | inr old ↦ rw old (inl refl)
  ]

  seen-Tells :
      (deleting : Bool) (m : String × S.Set) (h : EcsNode S) → Tells h (node_seen S deleting m h)
  unfolding node_seen publishing Tells
  seen-Tells true (master, ips) h = elim (Bool-cases (master == "")) [
    | inl none_found ↦ rw none_found (inl refl)
    | inr found ↦ rw found (inr refl)
  ]
  seen-Tells false (master, ips) h = elim (Bool-cases (master == "")) [
    | inl none_found ↦ rw none_found (inl refl)
    | inr found ↦ rw found (update-Tells master ips h)
  ]

  read-Tells :
      (c : EcsNodeConfig) (got : Option Node) (h : EcsNode S) → Tells h (node_read S c got h)
  unfolding node_read Tells
  read-Tells c none h = inl refl
  read-Tells c (some n) h = seen-Tells n.deleting (get_ipmap S c n) h

  init-Tells :
      (c : EcsNodeConfig) (listed : Option (List Node)) (h : EcsNode S)
      → Tells h (init_answered S c listed h)
  unfolding init_answered publishing Tells
  init-Tells c none h = inl refl
  init-Tells c (some ns) h = inr refl

  -- Whatever the API server answers, a reconciliation that does not signal a publication leaves the
  -- hosts, and all else that the controller keeps, exactly as they were.
  pub reconcile_ecs_node_tells :
      (c : EcsNodeConfig) (listed : Option (List Node)) (got : Option Node) (h : EcsNode S)
      → (reconcile_ecs_node S c listed got h ≡ h)
        ⊎ ((reconcile_ecs_node S c listed got h).triggers ≡ suc h.triggers)
  unfolding reconcile_ecs_node Tells
  reconcile_ecs_node_tells c listed got h = choose h.done
    where
      choose : (b : Bool) → Tells h (if b then node_read S c got h else init_answered S c listed h)
      choose true = read-Tells c got h
      choose false = init-Tells c listed h

  -- The host's entry has these members, and no other entry changed.
  Follows : String → S.Set → EcsNode S → EcsNode S → Type 0
  Follows master ips h r =
      ((kept : S.Set) × (lookup master r.host_ips ≡ some kept)
        × ((x : String) → S.has kept x ≡ S.has ips x))
      × ((key : String) → key ≢ master → lookup key r.host_ips ≡ lookup key h.host_ips)

  same_ips :
      (ips : S.Set) (o : Option S.Set)
      → ips_differ S ips o ≡ false
      → (kept : S.Set) × (o ≡ some kept) × ((x : String) → S.has kept x ≡ S.has ips x)
  unfolding ips_differ
  same_ips ips none e = ground (arith, e)
  same_ips ips (some old) e = (old, refl, λ x. sym ((S.equal_iff ips old).0 (ground (arith, e)) x))

  update-Follows :
      (master : String) (ips : S.Set) (h : EcsNode S)
      → Follows master ips h (update_ips S master ips h)
  unfolding update_ips publishing Follows
  update-Follows master ips h = elim (Bool-cases (ips_differ S ips (lookup master h.host_ips))) [
    | inl new ↦ rw new (
      (
        ips,
        lookup-insert master master ips h.host_ips
            ∙ if_true (master == master) _ _ (eq_refl master),
        λ x. refl,
      ),
      λ key d.
          lookup-insert master key ips h.host_ips
          ∙ if_false (master == key) _ _ (ground (arith, d, eq_iff master key)),
    )
    | inr old ↦ rw old (same_ips ips (lookup master h.host_ips) old, λ key d. refl)
  ]

  seen-Follows :
      (deleting : Bool) (m : String × S.Set) (h : EcsNode S)
      → deleting ≡ false
      → m.0 ≢ ""
      → Follows m.0 m.1 h (node_seen S deleting m h)
  unfolding node_seen
  seen-Follows true m h e d = ground (arith, e)
  seen-Follows false (master, ips) h e d =
      rw
        (if_false (master == "") h (update_ips S master ips h)
          (ground (arith, d, eq_iff master "")))
        (update-Follows master ips h)

  -- After the first list, a reconciliation of a node that is not being deleted keeps the node
  -- under the IP of its last endpoint on the master interface that has an IP, where that
  -- interface is one of the configured ones: it leaves there exactly the IPs of the node's
  -- endpoints on configured interfaces, and every other host as it was. The IP of an endpoint is
  -- what `ip_of` reads from its Ipnet.
  pub reconcile_ecs_node_follows :
      (c : EcsNodeConfig) (listed : Option (List Node)) (n : Node) (h : EcsNode S)
      → (before after : List (Option (String × String))) (ipnet : String) → h.done ≡ true
      → n.deleting ≡ false
      → Any (λ i. i ≡ c.master_if) c.interfaces
      → n.endpoints ≡ before ++ (some (c.master_if, ipnet) ∷ after)
      → ip_of ipnet ≢ ""
      → All (λ e. ¬ OnMaster c e) after
      → ((kept : S.Set) × (lookup (ip_of ipnet) (reconcile_ecs_node S c listed (some n) h).host_ips
            ≡ some kept)
          × ((x : String) → (S.has kept x ≡ true) ↔ Any (Gives c x) n.endpoints))
        × ((key : String)
            → key ≢ ip_of ipnet
            → lookup key (reconcile_ecs_node S c listed (some n) h).host_ips
              ≡ lookup key h.host_ips)
  unfolding reconcile_ecs_node node_read Follows
  reconcile_ecs_node_follows c listed n h before after ipnet done alive configured split there
        quiet =
      let r = if_true h.done (node_read S c (some n) h) (init_answered S c listed h) done in
      let master = get_ipmap-master c S n before after ipnet split configured there quiet in
      let ((kept, found, same), others) =
        seen-Follows n.deleting (get_ipmap S c n) h alive (λ blank. there (sym master ∙ blank)) in
      (
        (
          kept,
          ap (λ k. lookup k (reconcile_ecs_node S c listed (some n) h).host_ips) (sym master)
              ∙ ap (λ x. lookup (get_ipmap S c n).0 x.host_ips) r
              ∙ found,
          λ x. rw (same x) (has-get_ipmap_iff c S n x),
        ),
        λ key d. ap (λ x. lookup key x.host_ips) r ∙ others key (λ q. d (q ∙ master)),
      )
