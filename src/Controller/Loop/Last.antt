-- ===== src/Controller/Loop/Last.antt =====
-- What was written last, and the sync that wrote it, in the goroutine of `Start` in
-- pkg/controller/configmap.go and service.go.
use etcdauto.Prelude.{
  ◌≡◌, ◌≢◌, refl, ◌⊎◌, inl, inr, true, none, some, arith, Bool-cases, Option-cases,
}
use etcdauto.Controller.Loop.{
  Goroutine, selecting, syncing, Loop, message_taken, signal_sent, sync_begun, sync_answered,
  sync_ended, event_seen, signal_delivered, context_done, subscription_closed, send_panicked, Step,
  takes_message, sends, begins, ends, reconciles, delivers, finishes, unsubscribed, panics,
  Reachable, started, next,
}
use etcdauto.Controller.Loop.Settling.{Signalled, Reachable-Outstanding}

module _ (G : Goroutine) where
  abbrev L : Type 0
  L = Loop G

  -- The last sync that began ran in `u`, got the answer `a` and wrote what is written.
  abbrev pub FromLast : G.Data → L → Type 0
  FromLast d s =
      (w : G.Written) × (a : G.Answer) × (u : L) × Reachable G d u
      × (u.phase ≡ syncing)
      × (u.syncs ≡ s.syncs)
      × (s.written ≡ some w)
      × (G.sync a u.known ≡ some w)

  abbrev pub Kept : G.Data → L → Type 0
  Kept d s = ((s.syncs ≡ 0) × (s.written ≡ none)) ⊎ FromLast d s

  abbrev Last : G.Data → L → Type 0
  Last d s = (s.phase ≡ syncing) ⊎ (s.unsynced ≡ true) ⊎ Kept d s

  left :
      (d : G.Data) (s : L) {P : Type 0}
      → s.phase ≢ syncing
      → Last d s
      → P ⊎ (s.unsynced ≡ true) ⊎ Kept d s
  left d s other (inl q) = absurd (other q)
  left d s other (inr r) = inr r

  Step-Last : (d : G.Data) {s t : L} → Step G s t → Reachable G d s → Last d s → Last d t
  unfolding message_taken signal_sent sync_begun sync_answered sync_ended event_seen
      signal_delivered context_done subscription_closed send_panicked
  Step-Last d (takes_message s m at) r l = elim (Bool-cases (G.received m s.known).1) [
    | inl changed ↦ rw changed (inr (inl refl))
    | inr same ↦ rw same (left d s (λ q. ground (arith, at, q)) l)
  ]
  Step-Last d (sends s at room) r l = left d s (λ q. ground (arith, at, q)) l
  Step-Last d (begins s rest at some_left) r l = inl refl
  Step-Last d (ends s a at) r l = elim (Option-cases (G.sync a s.known)) [
    | inl failed ↦ rw failed (inr (inl refl))
    | inr (w, e) ↦ rw e (inr (inr (inr (w, a, s, r, at, refl, refl, e))))
  ]
  Step-Last d (reconciles s e at) r l = elim (Bool-cases (G.reconciled e s.known s.written)) [
    | inl due ↦ rw due (inr (inl refl))
    | inr calm ↦ rw calm l
  ]
  Step-Last d (delivers s rest some_owed is_open room) r l = l
  Step-Last d (finishes s at) r l = left d s (λ q. ground (arith, at, q)) l
  Step-Last d (unsubscribed s at) r l = left d s (λ q. ground (arith, at, q)) l
  Step-Last d (panics s rest some_owed is_closed) r l =
      left d s (λ q. ground (arith, (Reachable-Outstanding G d s r).1 is_closed, q)) l

  Reachable-Last : (d : G.Data) (s : L) → Reachable G d s → Last d s
  Reachable-Last d _ started = inr (inr (inl (refl, refl)))
  Reachable-Last d _ (next s t r step) = Step-Last d step r (Reachable-Last d s r)

  -- A goroutine that waits with no signal on its way has begun no sync, or its last sync wrote what is
  -- written.
  pub Reachable-Kept :
      (d : G.Data) (s : L)
      → Reachable G d s
      → (s.unsynced ≡ true → Signalled G s)
      → s.phase ≡ selecting
      → s.pending ≡ 0
      → s.owed ≡ 0
      → Kept d s
  Reachable-Kept d s r signalled at none_left none_owed = elim (Reachable-Last d s r) [
    | inl q ↦ ground (arith, at, q)
    | inr (inr q) ↦ q
    | inr (inl q) ↦ elim (signalled q) [
      | inl e ↦ ground (arith, at, e)
      | inr (inl e) ↦ absurd (omega (arith, e, none_left))
      | inr (inr e) ↦ absurd (omega (arith, e, none_owed))
    ]
  ]
