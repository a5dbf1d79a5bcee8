-- ===== src/Controller/Node/Loop.antt =====
-- The goroutine of `Start` in pkg/controller/node.go with all that it works on: the nodes as the cache
-- shows them, the filter on their events, the queue before Reconcile, the channel `trigger` and the
-- stateful set. The end of the context is left out.
use etcdauto.Prelude.{
  ℕ, suc, ◌≡◌, String, Bool, true, false, ◌||◌, not, Option, none, some, Map, is_empty, List, ◌∷◌,
  ◌++◌, if◌then◌else◌,
}
use etcdauto.Controller.Node.{
  NodeConfig, selection, node_watched, Statefulset, SyncOutcome, sync_replicas, NodeReply,
  node_unread, reconcile_node, sts_requests,
}

abbrev pub Labels : Type 0
Labels = Map String

-- A place of the list of nodes, with its node or without
unfoldable pub with_node : Option Labels → List Labels → List Labels
with_node none nodes = nodes
with_node (some l) nodes = l ∷ nodes

module _ (matches : Labels → Labels → Bool) (c : NodeConfig) where
  abbrev pub watched : Labels → Bool
  watched l = node_watched matches (selection c) l

  -- The filter on an event: the new labels count, and those of a node that is deleted
  unfoldable pub event_watched : Option Labels → Option Labels → Bool
  event_watched old (some l) = watched l
  event_watched (some l) none = watched l
  event_watched none none = false

module _ (A : Statefulset) (matches : Labels → Labels → Bool) (c : NodeConfig) where
  -- `owed` says that a request waits for Reconcile, `listed` is what the sync that is under way has
  -- listed (inside it, `none` is an error), and `outcome` is that of the last sync.
  pub record NodeLoop : Type 0 where
    pub nodes : List Labels
    pub sts : A.State
    pub owed : Bool
    pub pending : ℕ
    pub listed : Option (Option (List Labels))
    pub outcome : Option SyncOutcome

  abbrev pub starting : List Labels → A.State → NodeLoop
  starting nodes sts = record {
    nodes = nodes;
    sts = sts;
    owed = false;
    pending = 0;
    listed = none;
    outcome = none;
  }

  -- A node between the others is added, deleted or updated.
  unfoldable pub node_changed :
      List Labels → List Labels → Option Labels → Option Labels → NodeLoop → NodeLoop
  unfolding event_watched with_node
  node_changed before after old new s = record s {
    nodes = before ++ with_node new after;
    owed = event_watched matches c old new || s.owed;
  }

  -- Others change the stateful set.
  unfoldable pub sts_changed : A.State → NodeLoop → NodeLoop
  unfolding sts_requests
  sts_changed sts s =
      let requests = sts_requests c c.statefulset_namespace c.statefulset_name in
      record s { sts = sts; owed = not (is_empty requests) || s.owed }

  -- Reconcile; `more` says whether requests are left.
  unfoldable pub request_handled : String → NodeReply → Bool → NodeLoop → NodeLoop
  unfolding reconcile_node
  request_handled name reply more s = record s {
    owed = more;
    pending = reconcile_node name reply s.pending;
  }

  -- A signal is taken, `rest` are left, and the nodes are listed, or cannot be.
  unfoldable pub listing_begun : Bool → ℕ → NodeLoop → NodeLoop
  listing_begun readable rest s = record s {
    pending = rest;
    listed = some (if readable then some s.nodes else none);
  }

  unfoldable pub replicas_synced : Option (List Labels) → NodeLoop → NodeLoop
  unfolding sync_replicas
  replicas_synced answer s =
      let (outcome, sts) = sync_replicas A matches c answer s.sts in
      record s { sts = sts; listed = none; outcome = some outcome }

  -- What may happen. Left out are a request for a node that cannot be read, whose event is dropped,
  -- and an update by which a node is not counted any more, which gives no event.
  pub data Step : NodeLoop → NodeLoop → Type 0 where
    node_changes :
        (before after : List Labels) (old new : Option Labels) (s : NodeLoop)
        → s.nodes ≡ before ++ with_node old after
        → ((o n : Labels)
            → old ≡ some o
            → new ≡ some n
            → watched matches c o ≡ true
            → watched matches c n ≡ true)
        → Step s (node_changed before after old new s)
    sts_changes : (sts : A.State) (s : NodeLoop) → Step s (sts_changed sts s)
    event_repeated : (s : NodeLoop) → Step s (record s { owed = true })
    request_taken :
        (name : String) (reply : NodeReply) (more : Bool) (s : NodeLoop)
        → s.owed ≡ true
        → (reply ≡ node_unread → name ≡ "__sts__")
        → Step s (request_handled name reply more s)
    sync_begins :
        (readable : Bool) (rest : ℕ) (s : NodeLoop)
        → s.listed ≡ none
        → s.pending ≡ suc rest
        → Step s (listing_begun readable rest s)
    sync_ends :
        (answer : Option (List Labels)) (s : NodeLoop)
        → s.listed ≡ some answer
        → Step s (replicas_synced answer s)

  pub data Reachable : NodeLoop → Type 0 where
    initial : (nodes : List Labels) (sts : A.State) → Reachable (starting nodes sts)
    next : (s r : NodeLoop) → Reachable s → Step s r → Reachable r
