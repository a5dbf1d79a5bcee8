-- ===== src/Controller/Node/Counting.antt =====
-- The nodes that are counted, and the number of replicas that follows from the count.
use etcdauto.Prelude.{
  ℕ, ◌^◌, ◌≤◌, ◌<◌, ◌≡◌, ◌≢◌, refl, ◌↔◌, ◌⊎◌, String, Bool, true, false, Option, none, some, Map,
  is_empty, length, filter, List, [], ◌∷◌, eq_iff, arith,
}
use etcdauto.Controller.Node.{
  NodeConfig, valid_node, Selection, watched_by, node_watched, count_matching, count_selected,
  count_nodes, to_int32, desired_replicas,
}

-- A configuration has no error exactly when it names the stateful set and its namespace, allows at
-- least one replica and at least as many at most as at least, and does not both include and exclude
-- nodes by label.
pub valid_node_iff :
    (c : NodeConfig)
    → (valid_node c ≡ none) ↔ (
        (c.statefulset_name ≢ "")
        × (c.statefulset_namespace ≢ "")
        × (1 ≤ c.min_replicas)
        × (c.min_replicas ≤ c.max_replicas)
        × ((is_empty c.include_labels ≡ true) ⊎ (is_empty c.exclude_labels ≡ true)))
unfolding valid_node
valid_node_iff c = ground (arith, eq_iff c.statefulset_name "", eq_iff c.statefulset_namespace "")

module _ (matches : Map String → Map String → Bool) where
  selected_is_watched :
      (set : Option (Map String)) (inclusive : Bool) (nodes : List (Map String))
      → count_selected matches set inclusive nodes
        ≡ length (filter (watched_by matches set inclusive) nodes)
  unfolding count_selected count_matching watched_by
  selected_is_watched none inclusive [] = refl
  selected_is_watched none inclusive (labels ∷ nodes) =
      omega (arith, selected_is_watched none inclusive nodes)
  selected_is_watched (some set) inclusive [] = refl
  selected_is_watched (some set) true (labels ∷ nodes) =
      ground (arith, selected_is_watched (some set) true nodes)
  selected_is_watched (some set) false (labels ∷ nodes) =
      ground (arith, selected_is_watched (some set) false nodes)

  -- The nodes that are counted are those whose events the controller is told.
  pub count_nodes-watched :
      (n : Selection) (nodes : List (Map String))
      → count_nodes matches n nodes ≡ length (filter (node_watched matches n) nodes)
  unfolding count_nodes node_watched
  count_nodes-watched n nodes = selected_is_watched n.label_selector n.inclusive nodes

-- Under a configuration without errors, whose largest number of replicas fits an int32, the number of
-- replicas is the largest one if there are at least as many nodes, and else the smallest one; it lies
-- between the two.
pub desired_replicas_within :
    (c : NodeConfig) (count : ℕ)
    → valid_node c ≡ none
    → c.max_replicas < 2 ^ 31
    → (c.max_replicas ≤ count → desired_replicas c count ≡ c.max_replicas)
      × (count < c.max_replicas → desired_replicas c count ≡ c.min_replicas)
      × (1 ≤ desired_replicas c count)
      × (c.min_replicas ≤ desired_replicas c count)
      × (desired_replicas c count ≤ c.max_replicas)
unfolding desired_replicas to_int32
desired_replicas_within c count h small =
    let ok = (valid_node_iff c).0 h in ground (arith, ok, small)
