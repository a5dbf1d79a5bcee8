-- ===== src/Controller/Hosts/Merge.antt =====
-- Taking over a published host dictionary (`Start` of pkg/controller/pod.go and configmap.go).
use etcdauto.Prelude.{
  String, ◌≡◌, refl, sym, subst, ◌∙◌, inl, inr, false, not, ◌&&◌, Option, none, some, [], ◌∷◌, Map,
  lookup, lookup-insert, lookup-delete, Unique, Unique-insert, is_some, KeysWithin, KeysWithin-back,
  length, arith, ltb, ◌==◌, eq_iff, if◌then◌else◌, Bool-cases, Option-cases,
}
use etcdauto.Controller.Sets.{Sets}
use etcdauto.Controller.Hosts.{
  Merged, differs, update_host, update_hosts, remove_host, remove_hosts, merge, SameSet,
}

module _ (S : Sets) where
  SameSet-refl : (o : Option S.Set) → SameSet S o o
  SameSet-refl none = tt
  SameSet-refl (some a) = λ x. refl

  pub SameSet-trans : (o p q : Option S.Set) → SameSet S o p → SameSet S p q → SameSet S o q
  SameSet-trans none none none s t = tt
  SameSet-trans (some a) (some b) (some c) s t = λ x. s x ∙ t x
  SameSet-trans none (some b) q s t = absurd s
  SameSet-trans (some a) none q s t = absurd s
  SameSet-trans none none (some c) s t = absurd t
  SameSet-trans (some a) (some b) none s t = absurd t

  differs_same : (v : S.Set) (o : Option S.Set) → differs S v o ≡ false → SameSet S o (some v)
  unfolding differs
  differs_same v none e = ground (arith, e)
  differs_same v (some old) e = λ x. sym ((S.equal_iff v old).0 (ground (arith, e)) x)

  -- After the update a host of the origin is as in the origin, any other is as it was.
  update_host-SameSet :
      (k j : String) (v : S.Set) (m : Merged S)
      → SameSet S
          (lookup j (update_host S k v m).hosts)
          (if k == j then some v else lookup j m.hosts)
  unfolding update_host
  update_host-SameSet k j v m = elim (Bool-cases (differs S v (lookup k m.hosts))) [
    | inl new ↦ rw new (
        rw (lookup-insert k j (S.clone v) m.hosts) (elim (Bool-cases (k == j)) [
          | inl same ↦ rw same (S.has_clone v)
          | inr other ↦ rw other (SameSet-refl (lookup j m.hosts))
        ]))
    | inr old ↦ rw old (elim (Bool-cases (k == j)) [
      | inl same ↦ rw same (rw (← (eq_iff k j).0 same) (differs_same v (lookup k m.hosts) old))
      | inr other ↦ rw other (SameSet-refl (lookup j m.hosts))
    ])
  ]

  abbrev pick : Option S.Set → Option S.Set → Option S.Set
  pick (some a) d = some a
  pick none d = d

  update_hosts-SameSet :
      (j : String) (origin : Map S.Set) (m : Merged S)
      → Unique origin
      → SameSet S
          (lookup j (update_hosts S origin m).hosts)
          (pick (lookup j origin) (lookup j m.hosts))
  unfolding update_hosts lookup
  update_hosts-SameSet j [] m u = SameSet-refl (lookup j m.hosts)
  update_hosts-SameSet j ((k, v) ∷ origin) m u =
      let ih = update_hosts-SameSet j origin (update_host S k v m) u.1 in
      let now = update_host-SameSet k j v m in
      elim (Bool-cases (k == j)) [
        | inl same ↦
            let absent : lookup j origin ≡ none =
              subst (λ x. lookup x origin ≡ none) ((eq_iff k j).0 same) u.0 in
            rw same (SameSet-trans _ _ _ (rw absent at ih) (rw same at now))
        | inr other ↦ rw other (elim (Option-cases (lookup j origin)) [
          | inl absent ↦ rw absent (SameSet-trans _ _ _ (rw absent at ih) (rw other at now))
          | inr (a, there) ↦ rw there (rw there at ih)
        ])
      ]

  lookup-remove_host :
      (j k : String) (origin : Map S.Set) (m : Merged S)
      → lookup j (remove_host S origin k m).hosts
        ≡ (if (k == j) && not (is_some (lookup j origin)) then none else lookup j m.hosts)
  unfolding remove_host
  lookup-remove_host j k origin m = elim (Bool-cases (is_some (lookup k origin))) [
    | inl kept ↦ rw kept (ground (arith, eq_iff k j, kept))
    | inr gone ↦ rw gone (ground (arith, eq_iff k j, gone, lookup-delete k j m.hosts))
  ]

  lookup-remove_hosts :
      (j : String) (origin es : Map S.Set) (m : Merged S)
      → lookup j (remove_hosts S origin es m).hosts ≡ (
          if is_some (lookup j es) && not (is_some (lookup j origin))
          then none
          else lookup j m.hosts)
  unfolding remove_hosts lookup
  lookup-remove_hosts j origin [] m = refl
  lookup-remove_hosts j origin ((k, v) ∷ es) m = ground (
    arith,
    lookup-remove_hosts j origin es (remove_host S origin k m),
    lookup-remove_host j k origin m,
  )

  pub Unique-update_hosts :
      (origin : Map S.Set) (m : Merged S) → Unique m.hosts → Unique (update_hosts S origin m).hosts
  unfolding update_hosts update_host
  Unique-update_hosts [] m u = u
  Unique-update_hosts ((k, v) ∷ origin) m u =
      Unique-update_hosts origin (update_host S k v m)
        (elim (Bool-cases (differs S v (lookup k m.hosts))) [
          | inl new ↦ rw new (Unique-insert k (S.clone v) m.hosts u)
          | inr old ↦ rw old u
        ])

  after_removal :
      (o p q : Option S.Set)
      → SameSet S o (pick p q)
      → SameSet S (if is_some o && not (is_some p) then none else o) p
  after_removal none none q s = tt
  after_removal (some a) none q s = tt
  after_removal none (some b) q s = s
  after_removal (some a) (some b) q s = s

  without_removal :
      (o p q : Option S.Set)
      → SameSet S o (pick p q)
      → ((a : S.Set) → o ≡ some a → (b : S.Set) × (p ≡ some b))
      → SameSet S o p
  without_removal none none q s f = tt
  without_removal (some a) none q s f = let (b, e) = f a refl in ground (arith, e)
  without_removal none (some b) q s f = s
  without_removal (some a) (some b) q s f = s

  SameSet-present :
      (o : Option S.Set) (a : S.Set) → SameSet S o (some a) → (b : S.Set) × (o ≡ some b)
  SameSet-present none a s = absurd s
  SameSet-present (some b) a s = (b, refl)

  -- After the update no host of the origin is missing; so without more hosts there are no others.
  none_missing :
      (origin : Map S.Set) (m : Merged S)
      → Unique origin
      → Unique m.hosts
      → ltb (length origin) (length (update_hosts S origin m).hosts) ≡ false
      → KeysWithin (update_hosts S origin m).hosts origin
  none_missing origin m u t few =
      KeysWithin-back origin (update_hosts S origin m).hosts u (Unique-update_hosts origin m t)
        (λ k v at_k.
          let near = update_hosts-SameSet k origin m u in
          SameSet-present (lookup k (update_hosts S origin m).hosts) v (rw at_k at near))
        (ground (arith, few))

  merge-SameSet :
      (origin mine : Map S.Set) (j : String)
      → Unique origin
      → Unique mine
      → SameSet S (lookup j (merge S origin mine).hosts) (lookup j origin)
  unfolding merge
  merge-SameSet origin mine j u t =
      let start : Merged S = record { hosts = mine; changed = [] } in
      let m : Merged S = update_hosts S origin start in
      let near = update_hosts-SameSet j origin start u in
      elim (Bool-cases (ltb (length origin) (length m.hosts))) [
        | inl more ↦ rw more (
            rw (lookup-remove_hosts j origin m.hosts m)
              (after_removal (lookup j m.hosts) (lookup j origin) (lookup j mine) near))
        | inr few ↦ rw few (
            without_removal (lookup j m.hosts) (lookup j origin) (lookup j mine) near
              (none_missing origin start u t few j))
      ]

-- When a published host dictionary is taken over, each host ends with the published IPs, up to
-- their order, and a host that is not published any more is gone. The code looks for hosts to
-- remove only when it has more hosts than the published dictionary, and it misses none by that.
pub merge_takes_over :
    (S : Sets) (origin mine : Map S.Set) (j : String)
    → Unique origin
    → Unique mine
    → SameSet S (lookup j (merge S origin mine).hosts) (lookup j origin)
merge_takes_over S origin mine j u t = merge-SameSet S origin mine j u t
