-- ===== src/Controller/Node/Triggers.antt =====
-- The channel `trigger` between Reconcile and the goroutine of Start.
use etcdauto.Prelude.{
  ℕ, suc, ◌≤◌, ◌≡◌, ◌≢◌, refl, String, Bool, true, false, ◌==◌, eq_iff, arith, Bool-cases, inl, inr,
}
use etcdauto.Controller.Node.{
  trigger_sync, NodeReply, node_found, node_not_found, node_unread, node_answered, reconcile_node,
}

-- What happens to the channel, with the events since the last sync began that are still to be synced:
-- an event is handled, or a signal is taken and a sync begins.
pub data Step : ℕ × Bool → ℕ × Bool → Type 0 where
  handled :
      (name : String) (reply : NodeReply) (pending : ℕ) (unsynced : Bool)
      → reply ≢ node_unread
      → Step (pending, unsynced) (reconcile_node name reply pending, true)
  sync_begins : (pending : ℕ) (unsynced : Bool) → Step (suc pending, unsynced) (pending, false)

pub data Reachable : ℕ × Bool → Type 0 where
  initial : Reachable (0, false)
  next : (s r : ℕ × Bool) → Reachable s → Step s r → Reachable r

-- The channel is within its capacity, and a signal waits in it while an event is still to be synced.
abbrev Covered : ℕ × Bool → Type 0
Covered s = (s.0 ≤ 10) × (s.1 ≡ true → 1 ≤ s.0)

triggered : (pending : ℕ) → pending ≤ 10 → (trigger_sync pending ≤ 10) × (1 ≤ trigger_sync pending)
unfolding trigger_sync
triggered pending h = ground (arith, h)

answered :
    (reply : NodeReply) (pending : ℕ)
    → reply ≢ node_unread
    → pending ≤ 10
    → (node_answered reply pending ≤ 10) × (1 ≤ node_answered reply pending)
unfolding node_answered
answered (node_found deleting) pending d h = triggered pending h
answered node_not_found pending d h = triggered pending h
answered node_unread pending d h = absurd (d refl)

pub reconciled :
    (name : String) (reply : NodeReply) (pending : ℕ)
    → (reply ≡ node_unread → name ≡ "__sts__")
    → pending ≤ 10
    → (reconcile_node name reply pending ≤ 10) × (1 ≤ reconcile_node name reply pending)
unfolding reconcile_node
reconciled name reply pending d h = elim (Bool-cases (name == "__sts__")) [
  | inl e ↦ rw e (triggered pending h)
  | inr e ↦ rw e (answered reply pending (λ u. ground (arith, d u, e, eq_iff name "__sts__")) h)
]

Step-Covered : (s r : ℕ × Bool) → Step s r → Covered s → Covered r
Step-Covered s r (handled name reply pending unsynced d) (small, waits) =
    let a = reconciled name reply pending (λ u. absurd (d u)) small in (a.0, λ e. a.1)
Step-Covered s r (sync_begins pending unsynced) (small, waits) = ground (arith, small)

-- However events of nodes and of the stateful set and the beginnings of syncs follow each other, the
-- channel never holds more than ten signals, and after an event that was handled a signal is left
-- until a sync begins: no event is lost, although a full channel drops signals.
pub Reachable-covered : (s : ℕ × Bool) → Reachable s → (s.0 ≤ 10) × (s.1 ≡ true → 1 ≤ s.0)
Reachable-covered _ initial = ground arith
Reachable-covered _ (next s r h step) = Step-Covered s r step (Reachable-covered s h)
