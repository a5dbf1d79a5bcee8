-- ===== src/Controller/Node/Tests.antt =====
-- Runs of the node controller.
use etcdauto.Prelude.{
  ℕ, zero, suc, ◌≤◌, ◌<◌, ◌≡◌, refl, ◌⊎◌, inl, inr, String, Bool, true, false, none, some, Map,
  List, [], ◌∷◌, arith,
}
use etcdauto.Controller.Node.{
  NodeConfig, valid_node, count_nodes, count_selected, count_matching, selection, to_int32,
  desired_replicas, sts_found, UpdateReply, updated, conflict, Statefulset, unchanged, written_back,
  sync_replicas, attempts, sts_answered, current_known, update_answered, node_found, node_answered,
  reconcile_node, trigger_sync, node_watched, watched_by,
}
use etcdauto.Controller.Node.Counting.{desired_replicas_within}
use etcdauto.Controller.Node.Replicas.{sync_replicas_settles, sync_replicas_ends}
use etcdauto.Controller.Node.Following.{replicas_follow}
use etcdauto.Controller.Node.Loop.{
  Labels, with_node, event_watched, NodeLoop, starting, node_changed, request_handled,
  listing_begun, replicas_synced, node_changes, request_taken, sync_begins, sync_ends, Reachable,
  initial, next,
}

abbrev config : NodeConfig
config = record {
  exclude_labels = ("role", "edge") ∷ [];
  include_labels = [];
  statefulset_name = "etcd";
  statefulset_namespace = "kube-system";
  min_replicas = 3;
  max_replicas = 5;
}

desired_replicas_within_example :
    (5 ≤ 4 → desired_replicas config 4 ≡ 5)
    × (4 < 5 → desired_replicas config 4 ≡ 3)
    × (1 ≤ desired_replicas config 4)
    × (3 ≤ desired_replicas config 4)
    × (desired_replicas config 4 ≤ 5)
unfolding valid_node
desired_replicas_within_example = desired_replicas_within config 4 refl (ground arith)

-- A stateful set with its replicas and a number of updates that will meet a conflict
unfoldable update_meets : ℕ → ℕ × ℕ → UpdateReply × (ℕ × ℕ)
update_meets n (r, zero) = (updated, (n, zero))
update_meets n (r, suc k) = (conflict, (r, k))

update_meets_writes :
    (n : ℕ) (s : ℕ × ℕ) → (update_meets n s).0 ≡ updated → some (update_meets n s).1.0 ≡ some n
unfolding update_meets
update_meets_writes n (r, zero) h = refl
update_meets_writes n (r, suc k) h = ground (arith, h)

update_meets_ends :
    (n : ℕ) (s : ℕ × ℕ)
    → ((update_meets n s).0 ≡ updated)
      ⊎ (((update_meets n s).0 ≡ conflict) × ((update_meets n s).1.1 < s.1))
unfolding update_meets
update_meets_ends n (r, zero) = inl refl
update_meets_ends n (r, suc k) = inr (refl, omega arith)

abbrev busy : Statefulset
unfolding update_meets
busy = record {
  State = ℕ × ℕ;
  replicas = λ s. some s.0;
  get = λ s. (sts_found (some s.0), s);
  update = update_meets;
  get_found = λ s r h. ground (arith, h);
  update_writes = update_meets_writes;
}

abbrev nodes : List (Map String)
nodes = [] ∷ [] ∷ [] ∷ [] ∷ [] ∷ []

abbrev two_conflicts : busy.State
unfolding busy
two_conflicts = (3, 2)

sync_replicas_ends_example :
    let r = sync_replicas busy (λ set labels. false) config (some nodes) two_conflicts in
    ((r.0 ≡ unchanged) ⊎ (r.0 ≡ written_back))
    × (busy.replicas r.1
        ≡ some
            (desired_replicas config (count_nodes (λ set labels. false) (selection config) nodes)))
unfolding busy two_conflicts
sync_replicas_ends_example =
    sync_replicas_ends busy (λ s. s.1) (λ s. (s.0, refl)) (λ s. refl) update_meets_ends
      (λ set labels. false) config nodes two_conflicts (omega arith)

sync_replicas_settles_example :
    busy.replicas (sync_replicas busy (λ set labels. false) config (some nodes) two_conflicts).1
    ≡ some (desired_replicas config (count_nodes (λ set labels. false) (selection config) nodes))
unfolding busy two_conflicts update_meets sync_replicas attempts sts_answered current_known
    update_answered desired_replicas to_int32 count_nodes count_selected count_matching selection
sync_replicas_settles_example =
    sync_replicas_settles busy (λ set labels. false) config nodes two_conflicts (inr refl)

-- A node is added to five others, its event is handled, and a sync runs through two conflicts.
abbrev none_matches : Labels → Labels → Bool
none_matches set labels = false

abbrev before_event : NodeLoop busy none_matches config
before_event = starting busy none_matches config ([] ∷ [] ∷ [] ∷ [] ∷ []) two_conflicts

abbrev changed : NodeLoop busy none_matches config
changed =
    node_changed busy none_matches config ([] ∷ []) ([] ∷ [] ∷ [] ∷ []) none (some []) before_event

abbrev signalled : NodeLoop busy none_matches config
signalled = request_handled busy none_matches config "node-6" (node_found false) false changed

abbrev listing : NodeLoop busy none_matches config
listing = listing_begun busy none_matches config true 0 signalled

abbrev at_rest : NodeLoop busy none_matches config
at_rest = replicas_synced busy none_matches config (some nodes) listing

reached : Reachable busy none_matches config at_rest
unfolding node_changed with_node event_watched node_watched watched_by selection request_handled
    reconcile_node node_answered trigger_sync listing_begun
reached =
    next listing at_rest
      (next signalled listing
        (next changed signalled
          (next before_event changed (initial ([] ∷ [] ∷ [] ∷ [] ∷ []) two_conflicts) (
            node_changes ([] ∷ []) ([] ∷ [] ∷ [] ∷ []) none (some []) before_event refl
              (λ o n e. ground (arith, e))))
          (request_taken "node-6" (node_found false) false changed refl (λ e. ground (arith, e))))
        (sync_begins true 0 signalled refl refl))
      (sync_ends (some nodes) listing refl)

replicas_follow_example :
    busy.replicas at_rest.sts
    ≡ some (desired_replicas config (count_nodes none_matches (selection config) at_rest.nodes))
unfolding node_changed with_node event_watched node_watched watched_by selection request_handled
    reconcile_node node_answered trigger_sync listing_begun replicas_synced update_meets
    sync_replicas attempts sts_answered current_known update_answered desired_replicas to_int32
    count_nodes count_selected count_matching
replicas_follow_example =
    replicas_follow busy none_matches config at_rest reached refl refl refl (inr refl)
