-- ===== src/Controller/Loop/Settling.antt =====
-- Signals are not lost, and a loop at rest has synced what it knows.
use etcdauto.Prelude.{
  ◌≤◌, ◌≡◌, ◌≢◌, refl, ◌⊎◌, inl, inr, true, false, Option, none, some, arith, Bool-cases,
  Option-cases,
}
use etcdauto.Controller.Loop.{
  Goroutine, selecting, signalling, syncing, stopped, panicked, Loop, message_taken, signal_sent,
  sync_begun, sync_answered, sync_ended, event_seen, signal_delivered, context_done,
  subscription_closed, send_panicked, Step, takes_message, sends, begins, ends, reconciles,
  delivers, finishes, unsubscribed, panics, Reachable, started, next,
}

module _ (G : Goroutine) where
  abbrev L : Type 0
  L = Loop G

  abbrev S : L → L → Type 0
  S = Step G

  abbrev R : G.Data → L → Type 0
  R = Reachable G

  -- A signal is on its way to the goroutine.
  abbrev pub Signalled : L → Type 0
  Signalled s = (s.phase ≡ signalling) ⊎ (1 ≤ s.pending) ⊎ (1 ≤ s.owed)

  abbrev pub Outstanding : L → Type 0
  Outstanding s =
      (s.pending ≤ 10)
      × (s.closed ≡ true → (s.phase ≡ stopped) ⊎ (s.phase ≡ panicked))
      × (s.unsynced ≡ true → Signalled s)

  stays :
      {P : Type 0} (s : L) → s.phase ≢ signalling → Signalled s → P ⊎ (1 ≤ s.pending) ⊎ (1 ≤ s.owed)
  stays s elsewhere (inl q) = absurd (elsewhere q)
  stays s elsewhere (inr r) = inr r

  Step-Outstanding : {s t : L} → S s t → Outstanding s → Outstanding t
  unfolding message_taken signal_sent sync_begun sync_answered sync_ended event_seen
      signal_delivered context_done subscription_closed send_panicked
  Step-Outstanding (takes_message s m at) (small, apart, kept) =
      elim (Bool-cases (G.received m s.known).1) [
        | inl changed ↦ rw changed (small, λ e. ground (arith, apart, at, e), λ e. inl refl)
        | inr same ↦ rw same (
          small,
          λ e. ground (arith, apart, at, e),
          λ e. stays s (λ q. ground (arith, at, q)) (kept e),
        )
      ]
  Step-Outstanding (sends s at room) (small, apart, kept) =
      (ground (arith, room), λ e. ground (arith, apart, at, e), λ e. inr (inl (ground arith)))
  Step-Outstanding (begins s rest at some_left) (small, apart, kept) =
      (ground (arith, small, some_left), λ e. ground (arith, apart, at, e), λ e. ground (arith, e))
  Step-Outstanding (ends s a at) (small, apart, kept) = elim (Option-cases (G.sync a s.known)) [
    | inl failed ↦
        rw failed (small, λ e. ground (arith, apart, at, e), λ e. inr (inr (ground arith)))
    | inr (w, e) ↦ rw e (
      small,
      λ e. ground (arith, apart, at, e),
      λ e. stays s (λ q. ground (arith, at, q)) (kept e),
    )
  ]
  Step-Outstanding (reconciles s e at) (small, apart, kept) =
      elim (Bool-cases (G.reconciled e s.known s.written)) [
        | inl due ↦ rw due (small, apart, λ e. inr (inr (ground arith)))
        | inr calm ↦ rw calm (small, apart, kept)
      ]
  Step-Outstanding (delivers s rest some_owed is_open room) (small, apart, kept) =
      (ground (arith, room), apart, λ e. inr (inl (ground arith)))
  Step-Outstanding (finishes s at) (small, apart, kept) =
      (small, λ e. inl refl, λ e. stays s (λ q. ground (arith, at, q)) (kept e))
  Step-Outstanding (unsubscribed s at) (small, apart, kept) =
      (small, λ e. inl refl, λ e. stays s (λ q. ground (arith, at, q)) (kept e))
  Step-Outstanding (panics s rest some_owed is_closed) (small, apart, kept) =
      (small, λ e. inr refl, λ e. inr (inr (ground (arith, some_owed))))

  pub Reachable-Outstanding : (d : G.Data) (s : L) → R d s → Outstanding s
  Reachable-Outstanding d _ started = (ground arith, λ e. ground (arith, e), λ e. ground (arith, e))
  Reachable-Outstanding d _ (next s t r step) = Step-Outstanding step (Reachable-Outstanding d s r)

  Step-known :
      (P : Option G.Msg → G.Data → Type 0) {s t : L}
      → ((m : G.Msg) (o : Option G.Msg) (e : G.Data) → P o e → P (some m) (G.received m e).0)
      → S s t
      → P s.heard s.known
      → P t.heard t.known
  unfolding message_taken signal_sent sync_begun sync_answered sync_ended event_seen
      signal_delivered context_done subscription_closed send_panicked
  Step-known P k (takes_message s m at) h = k m s.heard s.known h
  Step-known P k (ends s a at) h = elim (Option-cases (G.sync a s.known)) [
    | inl failed ↦ rw failed h
    | inr (w, e) ↦ rw e h
  ]
  Step-known P k (reconciles s e at) h = elim (Bool-cases (G.reconciled e s.known s.written)) [
    | inl due ↦ rw due h
    | inr calm ↦ rw calm h
  ]
  Step-known P k (sends s at room) h = h
  Step-known P k (begins s rest at some_left) h = h
  Step-known P k (delivers s rest some_owed is_open room) h = h
  Step-known P k (finishes s at) h = h
  Step-known P k (unsubscribed s at) h = h
  Step-known P k (panics s rest some_owed is_closed) h = h

  -- What holds of the data at first, and of the last message and the data after every message
  pub Reachable-known :
      (P : Option G.Msg → G.Data → Type 0) (d : G.Data) (s : L)
      → P none d
      → ((m : G.Msg) (o : Option G.Msg) (e : G.Data) → P o e → P (some m) (G.received m e).0)
      → R d s
      → P s.heard s.known
  Reachable-known P d _ h k started = h
  Reachable-known P d _ h k (next s t r step) = Step-known P k step (Reachable-known P d s h k r)

  -- What is known is what the goroutine began with, or a sync of it has written what is written.
  abbrev pub Settled : G.Data → L → Type 0
  Settled d s =
      ((s.written ≡ none) × (s.known ≡ d))
      ⊎ ((w : G.Written) × (a : G.Answer) × (s.written ≡ some w) × (G.sync a s.known ≡ some w))

  abbrev Current : G.Data → L → Type 0
  Current d s = (s.phase ≡ syncing) ⊎ (s.unsynced ≡ true) ⊎ Settled d s

  -- From another phase than `syncing`, into any phase
  left :
      (d : G.Data) (s : L) {P : Type 0}
      → s.phase ≢ syncing
      → Current d s
      → P ⊎ (s.unsynced ≡ true) ⊎ Settled d s
  left d s other (inl q) = absurd (other q)
  left d s other (inr r) = inr r

  module _
      (unchanged : (m : G.Msg) (d : G.Data)
        → (G.received m d).1 ≡ false
        → (G.received m d).0 ≡ d) where
    Step-Current : (d : G.Data) {s t : L} → S s t → Outstanding s → Current d s → Current d t
    unfolding message_taken signal_sent sync_begun sync_answered sync_ended event_seen
        signal_delivered context_done subscription_closed send_panicked
    Step-Current d (takes_message s m at) o c = elim (Bool-cases (G.received m s.known).1) [
      | inl changed ↦ rw changed (inr (inl refl))
      | inr same ↦ rw same (rw (unchanged m s.known same) (left d s (λ q. ground (arith, at, q)) c))
    ]
    Step-Current d (sends s at room) o c = left d s (λ q. ground (arith, at, q)) c
    Step-Current d (begins s rest at some_left) o c = inl refl
    Step-Current d (ends s a at) o c = elim (Option-cases (G.sync a s.known)) [
      | inl failed ↦ rw failed (inr (inl refl))
      | inr (w, e) ↦ rw e (inr (inr (inr (w, a, refl, e))))
    ]
    Step-Current d (reconciles s e at) o c = elim (Bool-cases (G.reconciled e s.known s.written)) [
      | inl due ↦ rw due (inr (inl refl))
      | inr calm ↦ rw calm c
    ]
    Step-Current d (delivers s rest some_owed is_open room) o c = c
    Step-Current d (finishes s at) o c = left d s (λ q. ground (arith, at, q)) c
    Step-Current d (unsubscribed s at) o c = left d s (λ q. ground (arith, at, q)) c
    Step-Current d (panics s rest some_owed is_closed) o c =
        left d s (λ q. ground (arith, o.1 is_closed, q)) c

    Reachable-Current : (d : G.Data) (s : L) → R d s → Current d s
    Reachable-Current d _ started = inr (inr (inl (refl, refl)))
    Reachable-Current d _ (next s t r step) =
        Step-Current d step (Reachable-Outstanding d s r) (Reachable-Current d s r)

    -- While the goroutine runs, whatever happens: what came in since the last sync began, a sync that
    -- failed too, has a signal on its way. A goroutine that waits with no signal on its way knows what
    -- it began with, or its last sync was of all that it knows.
    pub Reachable-settles :
        (d : G.Data) (s : L)
        → R d s
        → (s.unsynced ≡ true → Signalled s)
          × (s.phase ≡ selecting → s.pending ≡ 0 → s.owed ≡ 0 → Settled d s)
    Reachable-settles d s r =
        let (small, apart, kept) = Reachable-Outstanding d s r in
        (
          kept,
          λ at none_left none_owed. at_rest s at none_left none_owed kept (Reachable-Current d s r),
        )
      where
        at_rest :
            (s : L)
            → s.phase ≡ selecting
            → s.pending ≡ 0
            → s.owed ≡ 0
            → (s.unsynced ≡ true → Signalled s)
            → Current d s
            → Settled d s
        at_rest s at p o kept (inl q) = ground (arith, at, q)
        at_rest s at p o kept (inr (inr q)) = q
        at_rest s at p o kept (inr (inl q)) = elim (kept q) [
          | inl e ↦ ground (arith, at, e)
          | inr (inl e) ↦ absurd (omega (arith, e, p))
          | inr (inr e) ↦ absurd (omega (arith, e, o))
        ]
