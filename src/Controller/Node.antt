-- ===== src/Controller/Node.antt =====
-- pkg/controller/node.go: NodeCtrl, which sets the number of replicas of a stateful set from the number
-- of nodes. The API server's stateful set and the label selectors are third-party code.
pub mod Counting
pub mod Following
pub mod Loop
pub mod Replicas
pub mod Triggers
mod Tests
use etcdauto.Prelude.{
  ℕ, zero, suc, ◌%◌, ◌^◌, ◌≡◌, String, Bool, true, false, not, ◌&&◌, Option, none, some, Map,
  is_empty, length, List, [], ◌∷◌, ltb, eqb, ◌==◌, if◌then◌else◌,
}

-- A number of replicas that is negative, which is treated as 0 is, is 0.
pub record NodeConfig : Type 0 where
  pub exclude_labels : Map String
  pub include_labels : Map String
  pub statefulset_name : String
  pub statefulset_namespace : String
  pub min_replicas : ℕ
  pub max_replicas : ℕ

pub data NodeConfigError : Type 0 where
  no_name : NodeConfigError
  no_namespace : NodeConfigError
  min_not_positive : NodeConfigError
  max_not_positive : NodeConfigError
  min_exceeds_max : NodeConfigError
  labels_exclusive : NodeConfigError

-- `none` is a configuration without errors.
unfoldable pub valid_node : NodeConfig → Option NodeConfigError
valid_node c =
    if c.statefulset_name == ""
    then some no_name
    else if c.statefulset_namespace == ""
    then some no_namespace
    else if eqb c.min_replicas 0
    then some min_not_positive
    else if eqb c.max_replicas 0
    then some max_not_positive
    else if ltb c.max_replicas c.min_replicas
    then some min_exceeds_max
    else if not (is_empty c.include_labels) && not (is_empty c.exclude_labels)
    then some labels_exclusive
    else none

unfoldable pub or_default : ℕ → ℕ → ℕ
or_default zero d = d
or_default (suc n) d = suc n

unfoldable pub set_defaults : NodeConfig → NodeConfig
unfolding or_default
set_defaults c = record {
  exclude_labels = c.exclude_labels;
  include_labels = c.include_labels;
  statefulset_name = c.statefulset_name;
  statefulset_namespace = c.statefulset_namespace;
  min_replicas = or_default c.min_replicas 3;
  max_replicas = or_default c.max_replicas 5;
}

-- `labelSelector`, as the labels that it is made from, and `inclusive`
pub record Selection : Type 0 where
  pub label_selector : Option (Map String)
  pub inclusive : Bool

unfoldable pub selection : NodeConfig → Selection
selection c =
    if not (is_empty c.include_labels)
    then record { label_selector = some c.include_labels; inclusive = true }
    else if not (is_empty c.exclude_labels)
    then record { label_selector = some c.exclude_labels; inclusive = false }
    else record { label_selector = none; inclusive = false }

-- `matches set labels` is labels.SelectorFromSet(set).Matches(labels).
module _ (matches : Map String → Map String → Bool) where
  unfoldable pub watched_by : Option (Map String) → Bool → Map String → Bool
  watched_by none inclusive labels = true
  watched_by (some set) inclusive labels =
      let matched = matches set labels in if inclusive then matched else not matched

  -- The filter on the events of nodes
  unfoldable pub node_watched : Selection → Map String → Bool
  unfolding watched_by
  node_watched n labels = watched_by n.label_selector n.inclusive labels

  unfoldable pub count_matching : Map String → Bool → List (Map String) → ℕ
  count_matching set inclusive [] = 0
  count_matching set inclusive (labels ∷ nodes) =
      let count = count_matching set inclusive nodes in
      let matched = matches set labels in
      if inclusive
      then (if matched then suc count else count)
      else (if not matched then suc count else count)

  unfoldable pub count_selected : Option (Map String) → Bool → List (Map String) → ℕ
  unfolding count_matching
  count_selected none inclusive nodes = length nodes
  count_selected (some set) inclusive nodes = count_matching set inclusive nodes

  -- Nodes are given by their labels.
  unfoldable pub count_nodes : Selection → List (Map String) → ℕ
  unfolding count_selected
  count_nodes n nodes = count_selected n.label_selector n.inclusive nodes

-- An int32 is its 32 bits, read as a natural number.
unfoldable pub to_int32 : ℕ → ℕ
to_int32 n = n % 2 ^ 32

unfoldable pub desired_replicas : NodeConfig → ℕ → ℕ
unfolding to_int32
desired_replicas c count =
    if ltb count c.max_replicas then to_int32 c.min_replicas else to_int32 c.max_replicas

pub data GetReply : Type 0 where
  -- The replicas of the stateful set, `none` where the field is nil
  sts_found : Option ℕ → GetReply
  sts_not_found : GetReply
  sts_unread : GetReply

pub data UpdateReply : Type 0 where
  updated : UpdateReply
  conflict : UpdateReply
  refused : UpdateReply

-- The API server's stateful set, which others may change at any time: a state is that before or after
-- a call, and a call may include what others did.
pub record Statefulset : Type 1 where
  pub State : Type 0
  pub replicas : State → Option ℕ
  pub get : State → GetReply × State
  pub update : ℕ → State → UpdateReply × State
  pub get_found : (s : State) (r : ℕ) → (get s).0 ≡ sts_found (some r) → replicas (get s).1 ≡ some r
  pub update_writes :
      (n : ℕ) (s : State) → (update n s).0 ≡ updated → replicas (update n s).1 ≡ some n

pub data SyncOutcome : Type 0 where
  unchanged : SyncOutcome
  written_back : SyncOutcome
  missing_sts : SyncOutcome
  failed_sync : SyncOutcome
  exhausted : SyncOutcome

module _ (A : Statefulset) where
  unfoldable pub update_answered :
      (A.State → SyncOutcome × A.State) → UpdateReply × A.State → SyncOutcome × A.State
  update_answered again (updated, s) = (written_back, s)
  update_answered again (conflict, s) = again s
  update_answered again (refused, s) = (failed_sync, s)

  unfoldable pub current_known :
      (A.State → SyncOutcome × A.State) → ℕ → ℕ → A.State → SyncOutcome × A.State
  unfolding update_answered
  current_known again desired current s =
      if eqb current desired then (unchanged, s) else update_answered again (A.update desired s)

  unfoldable pub sts_answered :
      (A.State → SyncOutcome × A.State) → ℕ → GetReply × A.State → SyncOutcome × A.State
  unfolding current_known
  sts_answered again desired (sts_found none, s) = (failed_sync, s)
  sts_answered again desired (sts_found (some current), s) = current_known again desired current s
  sts_answered again desired (sts_not_found, s) = (missing_sts, s)
  sts_answered again desired (sts_unread, s) = (failed_sync, s)

  -- The loop, with the number of attempts that are left
  unfoldable pub attempts : ℕ → ℕ → A.State → SyncOutcome × A.State
  unfolding sts_answered
  attempts zero desired s = (exhausted, s)
  attempts (suc n) desired s = sts_answered (attempts n desired) desired (A.get s)

  -- `none` is a list of nodes that could not be read.
  unfoldable pub sync_replicas :
      (Map String → Map String → Bool)
      → NodeConfig
      → Option (List (Map String))
      → A.State
      → SyncOutcome × A.State
  unfolding attempts count_nodes desired_replicas selection
  sync_replicas matches c none s = (failed_sync, s)
  sync_replicas matches c (some nodes) s =
      attempts 3 (desired_replicas c (count_nodes matches (selection c) nodes)) s

-- The channel `trigger` holds nothing but a number of signals, at most 10.
abbrev pub trigger_capacity : ℕ
trigger_capacity = 10

unfoldable pub trigger_sync : ℕ → ℕ
trigger_sync pending = if ltb pending trigger_capacity then suc pending else pending

-- The answer for the node, with whether it is being deleted
pub data NodeReply : Type 0 where
  node_found : Bool → NodeReply
  node_not_found : NodeReply
  node_unread : NodeReply

unfoldable pub node_answered : NodeReply → ℕ → ℕ
unfolding trigger_sync
node_answered (node_found deleting) pending = trigger_sync pending
node_answered node_not_found pending = trigger_sync pending
node_answered node_unread pending = pending

unfoldable pub reconcile_node : String → NodeReply → ℕ → ℕ
unfolding trigger_sync node_answered
reconcile_node name reply pending =
    if name == "__sts__" then trigger_sync pending else node_answered reply pending

-- The requests, as names, that an event of a stateful set is mapped to
unfoldable pub sts_requests : NodeConfig → String → String → List String
sts_requests c ns name =
    if (name == c.statefulset_name) && (ns == c.statefulset_namespace) then "__sts__" ∷ [] else []
