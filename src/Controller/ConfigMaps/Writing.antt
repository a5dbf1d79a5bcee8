-- ===== src/Controller/ConfigMaps/Writing.antt =====
-- What is written to the config map is read back as the same hosts, so that a sync ends the triggers.
use etcdauto.Prelude.{
  or_swap, or_false, String, ◌≡◌, ◌≢◌, refl, sym, ap, subst, ◌∙◌, inl, inr, Bool, true, false, not,
  ◌||◌, Option, none, some, any, All, List, [], ◌∷◌, Map, lookup, lookup-insert, Unique,
  Unique-insert, is_empty, split, trim_space, join, ◌==◌, arith, if◌then◌else◌, Bool-cases,
}
use etcdauto.Controller.Sets.{Sets}
use etcdauto.Controller.Hosts.{deep_equal_sets, SameSet}
use etcdauto.Controller.Hosts.Equal.{deep_equal_sets_iff}
use etcdauto.Controller.Service.{Stored}
use etcdauto.Controller.Service.Syncing.{created_mutated}
use etcdauto.Controller.ConfigMaps.{
  ConfigMap, fetched_map, map_values, insert_trimmed, set_of_text, get_ip_set_from_configmap,
  text_of_set, entries_of, mutate_configmap, no_configmap, sync_configmap, map_seen,
  reconcile_configmap,
}
use etcdauto.Controller.ConfigMaps.Texts.{no_comma, split-join}

abbrev option_map : {V W : Type 0} → (V → W) → Option V → Option W
option_map f none = none
option_map f (some v) = some (f v)

quiet :
    (none_known deleting equal : Bool)
    → deleting ≡ false
    → equal ≡ true
    → (if none_known then false else if deleting then true else not equal) ≡ false
quiet none_known deleting equal h e = ground (arith, h, e)

lookup-map_values :
    {V W : Type 0} (f : V → W) (k : String) (m : Map V)
    → lookup k (map_values f m) ≡ option_map f (lookup k m)
unfolding map_values lookup
lookup-map_values f k [] = refl
lookup-map_values f k ((j, v) ∷ m) =
    lookup-insert j k (f v) (map_values f m) ∙ choose (j == k) (lookup-map_values f k m)
  where
    choose :
        (b : Bool)
        → lookup k (map_values f m) ≡ option_map f (lookup k m)
        → (if b then some (f v) else lookup k (map_values f m))
          ≡ option_map f (if b then some v else lookup k m)
    choose true ih = refl
    choose false ih = ih

Unique-map_values : {V W : Type 0} (f : V → W) (m : Map V) → Unique (map_values f m)
unfolding map_values
Unique-map_values f [] = tt
Unique-map_values f ((k, v) ∷ m) = Unique-insert k (f v) (map_values f m) (Unique-map_values f m)

-- A text that stands for itself in the list: no comma, and no space at its ends
abbrev pub Plain : String → Type 0
Plain s = (no_comma s ≡ true) × (trim_space s ≡ s)

module _ (S : Sets) where
  has-insert_trimmed :
      (ips : List String) (acc : S.Set) (x : String)
      → All Plain ips
      → S.has (insert_trimmed S ips acc) x ≡ (any (λ y. y == x) ips || S.has acc x)
  unfolding insert_trimmed
  has-insert_trimmed [] acc x all = refl
  has-insert_trimmed (ip ∷ ips) acc x ((comma, plain), all) =
      has-insert_trimmed ips (S.insert acc (trim_space ip)) x all
      ∙ rw plain
          (rw (S.has_insert acc ip x) (or_swap (ip == x) (any (λ y. y == x) ips) (S.has acc x)))

  commas : (ips : List String) → All Plain ips → All (λ s. no_comma s ≡ true) ips
  commas [] all = tt
  commas (ip ∷ ips) ((comma, plain), all) = (comma, commas ips all)

  -- A set with members, all of them plain
  abbrev pub Writable : S.Set → Type 0
  Writable s = (S.unsorted_list s ≢ []) × All Plain (S.unsorted_list s)

  listed_back :
      (l : List String) (x : String)
      → l ≢ []
      → All Plain l
      → S.has (insert_trimmed S (split b',' (join "," l)) S.new) x ≡ any (λ y. y == x) l
  listed_back [] x full all = absurd (full refl)
  listed_back (ip ∷ ips) x full all =
      ap (λ q. S.has (insert_trimmed S q S.new) x) (split-join ip ips (commas (ip ∷ ips) all))
      ∙ (has-insert_trimmed (ip ∷ ips) S.new x all
          ∙ rw (S.has_new x) (or_false (any (λ y. y == x) (ip ∷ ips))))

  read_back :
      (s : S.Set) (x : String) → Writable s → S.has (set_of_text S (text_of_set S s)) x ≡ S.has s x
  unfolding set_of_text text_of_set
  read_back s x (full, all) = listed_back (S.unsorted_list s) x full all ∙ S.unsorted_has s x

  same_entry :
      (o : Option S.Set)
      → ((s : S.Set) → o ≡ some s → Writable s)
      → SameSet S (option_map (set_of_text S) (option_map (text_of_set S) o)) o
  same_entry none h = tt
  same_entry (some s) h = λ x. read_back s x (h s refl)

  written_equal :
      (known : Map S.Set)
      → Unique known
      → ((k : String) (s : S.Set) → lookup k known ≡ some s → Writable s)
      → deep_equal_sets S (get_ip_set_from_configmap S (entries_of S known)) known ≡ true
  unfolding get_ip_set_from_configmap entries_of
  written_equal known u h =
      let read = map_values (set_of_text S) (map_values (text_of_set S) known) in
      let at : (k : String)
          → lookup k read
            ≡ option_map (set_of_text S) (option_map (text_of_set S) (lookup k known)) =
        (λ k.
          lookup-map_values (set_of_text S) k (map_values (text_of_set S) known)
          ∙ ap (option_map (set_of_text S)) (lookup-map_values (text_of_set S) k known)) in
      (deep_equal_sets_iff S read known (Unique-map_values (set_of_text S) _) u).1 (λ k.
        subst (λ o. SameSet S o (lookup k known)) (sym (at k)) (same_entry (lookup k known) (h k)))

  pub get_ip_set_from_configmap-Unique :
      (entries : Map String) → Unique (get_ip_set_from_configmap S entries)
  unfolding get_ip_set_from_configmap
  get_ip_set_from_configmap-Unique entries = Unique-map_values (set_of_text S) entries

  mutated_equal :
      (known : Map S.Set) (cm : ConfigMap)
      → deep_equal_sets S (get_ip_set_from_configmap S (entries_of S known)) known ≡ true
      → deep_equal_sets S (get_ip_set_from_configmap S (mutate_configmap S known cm).entries) known
        ≡ true
  unfolding mutate_configmap
  mutated_equal known cm h =
      elim (Bool-cases (deep_equal_sets S (get_ip_set_from_configmap S cm.entries) known)) [
        | inl same ↦ rw same same
        | inr other ↦ rw other h
      ]

  -- With hosts whose sets have members without commas and spaces, a sync that returns no error writes
  -- a config map that is read back as the same hosts; the next reconciliation of it, unless it is
  -- being deleted, triggers no further sync.
  pub sync_configmap_settles :
      (known : Map S.Set) (answer : Stored ConfigMap × Bool) (cm : ConfigMap)
      → Unique known
      → ((k : String) (s : S.Set) → lookup k known ≡ some s → Writable s)
      → sync_configmap S known answer ≡ some cm
      → (deep_equal_sets S (get_ip_set_from_configmap S cm.entries) known ≡ true)
        × (cm.deleting ≡ false → reconcile_configmap S known (fetched_map cm) ≡ false)
  unfolding sync_configmap reconcile_configmap map_seen
  sync_configmap_settles known answer cm u h ok =
      let (old, became) =
        created_mutated (mutate_configmap S known) (no_configmap S) answer.1 answer.0 cm ok in
      let equal =
        subst (λ q. deep_equal_sets S (get_ip_set_from_configmap S q.entries) known ≡ true) became
          (mutated_equal known old (written_equal known u h)) in
      (equal, λ alive. quiet (is_empty known) cm.deleting _ alive equal)
