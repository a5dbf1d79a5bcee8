-- ===== src/Controller/Hosts.antt =====
-- The host dictionary, node IP to host IPs, that pkg/controller/pod.go and configmap.go keep up to
-- date in the same way: the part of their `Start` that takes a published dictionary over; and
-- `deepEqualSets` of configmap.go.
pub mod Merge
pub mod Keeping
pub mod Equal
use etcdauto.Prelude.{
  ℕ, ◌≤◌, String, ◌≡◌, refl, sym, subst, ◌∙◌, ◌↔◌, ◌⊎◌, inl, inr, Bool, true, false, not, ◌&&◌,
  ◌||◌, Option, none, some, List, [], ◌∷◌, ◌++◌, Map, lookup, insert, delete, lookup-insert,
  lookup-delete, Unique, Unique-insert, Unique-delete, is_some, KeysWithin, KeysWithin-back,
  length_within, length, all, Any, arith, ltb, eqb, ◌==◌, eq_iff, eq_refl, if◌then◌else◌,
  Bool-cases, Option-cases,
}
use etcdauto.Controller.Sets.{Sets}

module _ (S : Sets) where
  pub record Merged : Type 0 where
    pub hosts : Map S.Set
    pub changed : List String

  unfoldable pub differs : S.Set → Option S.Set → Bool
  differs v none = true
  differs v (some old) = not (S.equal v old)

  unfoldable pub update_host : String → S.Set → Merged → Merged
  unfolding differs
  update_host k v m =
      if differs v (lookup k m.hosts)
      then record { hosts = insert k (S.clone v) m.hosts; changed = m.changed ++ (k ∷ []) }
      else m

  -- "add or update"
  unfoldable pub update_hosts : Map S.Set → Merged → Merged
  update_hosts [] m = m
  update_hosts ((k, v) ∷ origin) m = update_hosts origin (update_host k v m)

  unfoldable pub remove_host : Map S.Set → String → Merged → Merged
  remove_host origin k m =
      if is_some (lookup k origin)
      then m
      else record { hosts = delete k m.hosts; changed = m.changed ++ (k ∷ []) }

  -- "remove not exist host", over the entries to visit
  unfoldable pub remove_hosts : Map S.Set → Map S.Set → Merged → Merged
  remove_hosts origin [] m = m
  remove_hosts origin ((k, v) ∷ es) m = remove_hosts origin es (remove_host origin k m)

  unfoldable pub merge : Map S.Set → Map S.Set → Merged
  unfolding update_hosts update_host remove_hosts remove_host
  merge origin mine =
      let m = update_hosts origin (record { hosts = mine; changed = [] }) in
      if ltb (length origin) (length m.hosts) then remove_hosts origin m.hosts m else m

  -- Both absent, or sets with the same members
  abbrev pub SameSet : Option S.Set → Option S.Set → Type 0
  SameSet none none = Unit
  SameSet (some a) (some b) = (x : String) → S.has a x ≡ S.has b x
  SameSet _ _ = ⊥

  -- The loop over the first map
  unfoldable pub all_equal : Map S.Set → Map S.Set → Bool
  all_equal [] b = true
  all_equal ((k, v) ∷ a) b =
      let rest = all_equal a b in if differs v (lookup k b) then false else rest

  -- The loop over the second map
  unfoldable pub all_known : Map S.Set → Map S.Set → Bool
  all_known [] a = true
  all_known ((k, v) ∷ b) a =
      let rest = all_known b a in if is_some (lookup k a) then rest else false

  unfoldable pub deep_equal_sets : Map S.Set → Map S.Set → Bool
  unfolding all_equal all_known differs
  deep_equal_sets a b =
      if not (eqb (length a) (length b))
      then false
      else if eqb (length a) 0 && eqb (length b) 0
      then true
      else if not (all_equal a b)
      then false
      else all_known b a
