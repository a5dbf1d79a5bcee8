-- ===== src/Controller/Node/Following.antt =====
-- The loop of the node controller: with nothing left to do, the stateful set follows the nodes.
use etcdauto.Prelude.{
  ℕ, ◌≤◌, ◌≡◌, refl, sym, ap, ◌∙◌, ◌⊎◌, inl, inr, Bool, true, false, Option, none, some, length,
  filter, List, [], ◌∷◌, ◌++◌, eq_refl, arith, Bool-cases,
}
use etcdauto.Certs.Authority.Loading.{some_injective}
use etcdauto.Controller.Node.{
  NodeConfig, selection, count_nodes, desired_replicas, Statefulset, SyncOutcome, unchanged,
  written_back, sync_replicas, sts_requests,
}
use etcdauto.Controller.Node.Counting.{count_nodes-watched}
use etcdauto.Controller.Node.Replicas.{sync_replicas_settles}
use etcdauto.Controller.Node.Triggers.{reconciled}
use etcdauto.Controller.Node.Loop.{
  Labels, with_node, NodeLoop, watched, event_watched, node_changed, sts_changed, request_handled,
  listing_begun, replicas_synced, Step, node_changes, sts_changes, event_repeated, request_taken,
  sync_begins, sync_ends, Reachable, initial, next,
}

module _ (matches : Labels → Labels → Bool) (c : NodeConfig) where
  abbrev pub wanted : List Labels → ℕ
  wanted nodes = desired_replicas c (count_nodes matches (selection c) nodes)

  counts-skips :
      (before after : List Labels) (o : Option Labels)
      → ((l : Labels) → o ≡ some l → watched matches c l ≡ false)
      → length (filter (watched matches c) (before ++ with_node o after))
        ≡ length (filter (watched matches c) (before ++ after))
  unfolding with_node
  counts-skips [] after none h = refl
  counts-skips [] after (some l) h = rw (h l refl) refl
  counts-skips (x ∷ before) after o h = ground (arith, counts-skips before after o h)

  abbrev Kept : Option Labels → Option Labels → Type 0
  Kept old new =
      (o n : Labels)
      → old ≡ some o
      → new ≡ some n
      → watched matches c o ≡ true
      → watched matches c n ≡ true

  new_unseen :
      (old new : Option Labels)
      → event_watched matches c old new ≡ false
      → (l : Labels) → new ≡ some l
      → watched matches c l ≡ false
  unfolding event_watched
  new_unseen old (some n) quiet l e = ground (arith, quiet, e)
  new_unseen old none quiet l e = ground (arith, e)

  old_unseen :
      (old new : Option Labels)
      → event_watched matches c old new ≡ false
      → Kept old new
      → (l : Labels) → old ≡ some l
      → watched matches c l ≡ false
  unfolding event_watched
  old_unseen none new quiet kept l e = ground (arith, e)
  old_unseen (some o) none quiet kept l e = ground (arith, quiet, e)
  old_unseen (some o) (some n) quiet kept l e = elim (Bool-cases (watched matches c l)) [
    | inl on ↦ ground (arith, kept l n e refl on, quiet)
    | inr off ↦ off
  ]

  -- A change that gives no event leaves the number that is wanted as it was.
  wanted_unchanged :
      (before after : List Labels) (old new : Option Labels)
      → event_watched matches c old new ≡ false
      → Kept old new
      → wanted (before ++ with_node old after) ≡ wanted (before ++ with_node new after)
  wanted_unchanged before after old new quiet kept = ap (desired_replicas c) (
      count_nodes-watched matches (selection c) (before ++ with_node old after)
      ∙ counts-skips before after old (old_unseen old new quiet kept)
      ∙ sym (counts-skips before after new (new_unseen old new quiet))
      ∙ sym (count_nodes-watched matches (selection c) (before ++ with_node new after)))

module _ (A : Statefulset) (matches : Labels → Labels → Bool) (c : NodeConfig) where
  abbrev L : Type 0
  L = NodeLoop A matches c

  abbrev pub EndedWell : Option SyncOutcome → Type 0
  EndedWell o = (o ≡ some unchanged) ⊎ (o ≡ some written_back)

  abbrev pub Quiet : L → Type 0
  Quiet s = (s.owed ≡ false) × (s.pending ≡ 0)

  -- With no event on its way, a sync that is under way has listed nodes that want as many replicas as
  -- the present ones, and one that ended well has set that number.
  abbrev Follows : L → Type 0
  Follows s =
      (s.pending ≤ 10)
      × (Quiet s
          → (nodes : List Labels) → s.listed ≡ some (some nodes)
          → wanted matches c nodes ≡ wanted matches c s.nodes)
      × (Quiet s
          → s.listed ≡ none
          → EndedWell s.outcome
          → A.replicas s.sts ≡ some (wanted matches c s.nodes))

  ended_well : (o : SyncOutcome) → EndedWell (some o) → (o ≡ unchanged) ⊎ (o ≡ written_back)
  ended_well o ok = ground (arith, ok)

  node_changed-Follows :
      (before after : List Labels) (old new : Option Labels) (s : L)
      → s.nodes ≡ before ++ with_node old after
      → Kept matches c old new
      → Follows s
      → Follows (node_changed A matches c before after old new s)
  unfolding node_changed
  node_changed-Follows before after old new s at kept (few, under_way, at_rest) =
      elim (Bool-cases (event_watched matches c old new)) [
        | inl seen ↦ rw seen (few, λ q. ground (arith, q.0), λ q. ground (arith, q.0))
        | inr quiet ↦
            let same =
              ap (wanted matches c) at
              ∙ wanted_unchanged matches c before after old new quiet kept in
            rw quiet (
              few,
              λ q nodes e. under_way q nodes e ∙ same,
              λ q e ok. at_rest q e ok ∙ ap (λ n. some n) same,
            )
      ]

  replicas_synced-Follows :
      (answer : Option (List Labels)) (s : L)
      → s.listed ≡ some answer
      → Follows s
      → Follows (replicas_synced A matches c answer s)
  unfolding replicas_synced sync_replicas
  replicas_synced-Follows none s at (few, under_way, at_rest) =
      (few, λ q nodes e. ground (arith, e), λ q e ok. ground (arith, ok))
  replicas_synced-Follows (some nodes) s at (few, under_way, at_rest) = (
    few,
    λ q nodes e. ground (arith, e),
    λ q e ok.
        sync_replicas_settles A matches c nodes s.sts
          (ended_well (sync_replicas A matches c (some nodes) s.sts).0 ok)
        ∙ ap (λ n. some n) (under_way q nodes at),
  )

  Step-Follows : (s r : L) → Step A matches c s r → Follows s → Follows r
  unfolding sts_changed request_handled listing_begun sts_requests
  Step-Follows _ _ (node_changes before after old new s at kept) f =
      node_changed-Follows before after old new s at kept f
  Step-Follows _ _ (sts_changes sts s) (few, under_way, at_rest) = rw (eq_refl c.statefulset_name) (
      rw (eq_refl c.statefulset_namespace)
        (few, λ q. ground (arith, q.0), λ q. ground (arith, q.0)))
  Step-Follows _ _ (event_repeated s) (few, under_way, at_rest) =
      (few, λ q. ground (arith, q.0), λ q. ground (arith, q.0))
  Step-Follows _ _ (request_taken name reply more s at read) (few, under_way, at_rest) =
      let (few', some_left) = reconciled name reply s.pending read few in
      (
        few',
        λ q. absurd (omega (arith, q.1, some_left)),
        λ q. absurd (omega (arith, q.1, some_left)),
      )
  Step-Follows _ _ (sync_begins readable rest s idle at) (few, under_way, at_rest) =
      elim (Bool-cases readable) [
        | inl e ↦ rw e (
          omega (arith, few, at),
          λ q nodes h. ap (wanted matches c) (sym (some_injective (some_injective h))),
          λ q h. ground (arith, h),
        )
        | inr e ↦
            rw e (omega (arith, few, at), λ q nodes h. ground (arith, h), λ q h. ground (arith, h))
      ]
  Step-Follows _ _ (sync_ends answer s at) f = replicas_synced-Follows answer s at f

  Reachable-Follows : (s : L) → Reachable A matches c s → Follows s
  Reachable-Follows _ (initial nodes sts) =
      (omega arith, λ q ns e. ground (arith, e), λ q e ok. ground (arith, ok))
  Reachable-Follows _ (next s r h step) = Step-Follows s r step (Reachable-Follows s h)

  -- However changes of the nodes and of the stateful set, events, signals and syncs follow each other:
  -- when no request and no signal waits and no sync is under way, and the last sync ended without a
  -- change or with a written update, the stateful set has the number of replicas that the present
  -- nodes ask for. Left out are updates by which a node is not counted any more, requests for nodes
  -- that cannot be read, and the end of the context.
  pub replicas_follow :
      (s : L)
      → Reachable A matches c s
      → s.owed ≡ false
      → s.pending ≡ 0
      → s.listed ≡ none
      → (s.outcome ≡ some unchanged) ⊎ (s.outcome ≡ some written_back)
      → A.replicas s.sts ≡ some (desired_replicas c (count_nodes matches (selection c) s.nodes))
  replicas_follow s h owed pending listed ok =
      let (few, under_way, at_rest) = Reachable-Follows s h in at_rest (owed, pending) listed ok
