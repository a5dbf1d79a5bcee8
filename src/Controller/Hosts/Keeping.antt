-- ===== src/Controller/Hosts/Keeping.antt =====
-- What a merge of hosts keeps: unique keys, and everything where no host is reported as changed.
use etcdauto.Prelude.{
  String, ◌≡◌, refl, ap, ◌∙◌, inl, inr, true, false, List, [], ◌∷◌, ◌++◌, Map, lookup, length, ltb,
  Unique, Unique-delete, is_some, is_empty, arith, Bool-cases,
}
use etcdauto.Controller.Sets.{Sets}
use etcdauto.Controller.Hosts.{
  Merged, differs, update_host, update_hosts, remove_host, remove_hosts, merge,
}
use etcdauto.Controller.Hosts.Merge.{Unique-update_hosts}

module _ (S : Sets) where
  -- Nothing was changed before, and nothing now.
  abbrev Untouched : Merged S → Merged S → Type 0
  Untouched before after = (is_empty before.changed ≡ true) × (after ≡ before)

  grown : (xs : List String) (x : String) → is_empty (xs ++ (x ∷ [])) ≡ false
  grown [] x = refl
  grown (y ∷ xs) x = refl

  update_host-Untouched :
      (k : String) (v : S.Set) (m : Merged S)
      → is_empty (update_host S k v m).changed ≡ true
      → Untouched m (update_host S k v m)
  unfolding update_host
  update_host-Untouched k v m h = elim (Bool-cases (differs S v (lookup k m.hosts))) [
    | inl new ↦ ground (arith, rw new at h, grown m.changed k)
    | inr old ↦ rw old (rw old at h, refl)
  ]

  update_hosts-Untouched :
      (origin : Map S.Set) (m : Merged S)
      → is_empty (update_hosts S origin m).changed ≡ true
      → Untouched m (update_hosts S origin m)
  unfolding update_hosts
  update_hosts-Untouched [] m h = (h, refl)
  update_hosts-Untouched ((k, v) ∷ origin) m h =
      let (e, same) = update_hosts-Untouched origin (update_host S k v m) h in
      let (f, as_before) = update_host-Untouched k v m e in (f, same ∙ as_before)

  remove_host-Untouched :
      (origin : Map S.Set) (k : String) (m : Merged S)
      → is_empty (remove_host S origin k m).changed ≡ true
      → Untouched m (remove_host S origin k m)
  unfolding remove_host
  remove_host-Untouched origin k m h = elim (Bool-cases (is_some (lookup k origin))) [
    | inl there ↦ rw there (rw there at h, refl)
    | inr gone ↦ ground (arith, rw gone at h, grown m.changed k)
  ]

  remove_hosts-Untouched :
      (origin es : Map S.Set) (m : Merged S)
      → is_empty (remove_hosts S origin es m).changed ≡ true
      → Untouched m (remove_hosts S origin es m)
  unfolding remove_hosts
  remove_hosts-Untouched origin [] m h = (h, refl)
  remove_hosts-Untouched origin ((k, v) ∷ es) m h =
      let (e, same) = remove_hosts-Untouched origin es (remove_host S origin k m) h in
      let (f, as_before) = remove_host-Untouched origin k m e in (f, same ∙ as_before)

  pub merge-Untouched :
      (origin mine : Map S.Set)
      → is_empty (merge S origin mine).changed ≡ true
      → (merge S origin mine).hosts ≡ mine
  unfolding merge
  merge-Untouched origin mine h =
      let m = update_hosts S origin (record { hosts = mine; changed = [] }) in
      elim (Bool-cases (ltb (length origin) (length m.hosts))) [
        | inl more ↦
            let (e, same) = remove_hosts-Untouched origin m.hosts m (rw more at h) in
            let (f, as_before) =
              update_hosts-Untouched origin (record { hosts = mine; changed = [] }) e in
            rw more (ap (λ x. x.hosts) (same ∙ as_before))
        | inr few ↦
            let (f, as_before) =
              update_hosts-Untouched origin (record { hosts = mine; changed = [] }) (rw few at h) in
            rw few (ap (λ x. x.hosts) as_before)
      ]

  Unique-remove_hosts :
      (origin es : Map S.Set) (m : Merged S)
      → Unique m.hosts
      → Unique (remove_hosts S origin es m).hosts
  unfolding remove_hosts remove_host
  Unique-remove_hosts origin [] m u = u
  Unique-remove_hosts origin ((k, v) ∷ es) m u =
      Unique-remove_hosts origin es (remove_host S origin k m)
        (elim (Bool-cases (is_some (lookup k origin))) [
          | inl there ↦ rw there u
          | inr gone ↦ rw gone (Unique-delete k m.hosts u)
        ])

  pub Unique-merge : (origin mine : Map S.Set) → Unique mine → Unique (merge S origin mine).hosts
  unfolding merge
  Unique-merge origin mine u =
      let m = update_hosts S origin (record { hosts = mine; changed = [] }) in
      let v = Unique-update_hosts S origin (record { hosts = mine; changed = [] }) u in
      elim (Bool-cases (ltb (length origin) (length m.hosts))) [
        | inl more ↦ rw more (Unique-remove_hosts origin m.hosts m v)
        | inr few ↦ rw few v
      ]
