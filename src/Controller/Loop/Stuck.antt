-- ===== src/Controller/Loop/Stuck.antt =====
-- When a sync begins, and when none ever does.
use etcdauto.Prelude.{
  ℕ, zero, suc, ◌≤◌, ◌<◌, ◌≡◌, ◌≢◌, refl, ◌∙◌, ◌⊎◌, inl, inr, true, false, Option, none, some,
  arith, Bool-cases,
}
use etcdauto.Controller.Loop.{
  Goroutine, Phase, selecting, signalling, syncing, stopped, panicked, Loop, message_taken,
  signal_sent, sync_begun, sync_answered, sync_ended, event_seen, signal_delivered, Step,
  takes_message, sends, begins, ends, reconciles, delivers, finishes, unsubscribed, panics, Steps,
  no_step, step_then, Reachable,
}
use etcdauto.Controller.Loop.Settling.{Signalled, Reachable-Outstanding}

positive : (n : ℕ) → 1 ≤ n → (m : ℕ) × (n ≡ suc m)
positive zero h = absurd (omega (arith, h))
positive (suc m) h = (m, refl)

module _ (G : Goroutine) where
  abbrev L : Type 0
  L = Loop G

  abbrev S : L → L → Type 0
  S = Step G

  abbrev pub Run : L → L → Type 0
  Run = Steps G

  -- The goroutine is about to send to its own channel, which is full.
  abbrev Blocked : L → Type 0
  Blocked s = (s.phase ≡ signalling) × (s.pending ≡ 10) × (s.closed ≡ false)

  abbrev Idle : L → L → Type 0
  Idle s t = Blocked t × (t.syncs ≡ s.syncs) × (t.written ≡ s.written)

  Step-Blocked : {s t : L} → S s t → Blocked s → Idle s t
  unfolding event_seen
  Step-Blocked (takes_message s m at) (p, full, is_open) = ground (arith, at, p)
  Step-Blocked (sends s at room) (p, full, is_open) = absurd (omega (arith, room, full))
  Step-Blocked (begins s rest at some_left) (p, full, is_open) = ground (arith, at, p)
  Step-Blocked (ends s a at) (p, full, is_open) = ground (arith, at, p)
  Step-Blocked (reconciles s e at) b = elim (Bool-cases (G.reconciled e s.known s.written)) [
    | inl due ↦ rw due (b, refl, refl)
    | inr calm ↦ rw calm (b, refl, refl)
  ]
  Step-Blocked (delivers s rest some_owed o room) (p, full, is_open) =
      absurd (omega (arith, room, full))
  Step-Blocked (finishes s at) (p, full, is_open) = ground (arith, at, p)
  Step-Blocked (unsubscribed s at) (p, full, is_open) = ground (arith, at, p)
  Step-Blocked (panics s rest some_owed is_closed) (p, full, is_open) =
      ground (arith, is_closed, is_open)

  Steps-Blocked : {s t : L} → Run s t → Blocked s → Idle s t
  Steps-Blocked (no_step s) b = (b, refl, refl)
  Steps-Blocked (step_then s t u step more) b =
      let (c, syncs, written) = Step-Blocked step b in
      let (d, syncs', written') = Steps-Blocked more c in (d, syncs' ∙ syncs, written' ∙ written)

  message_taken-Blocked :
      (s : L) (m : G.Msg)
      → s.pending ≡ 10
      → s.closed ≡ false
      → (G.received m s.known).1 ≡ true
      → Idle s (message_taken G m s)
  unfolding message_taken
  message_taken-Blocked s m full is_open changed = rw changed ((refl, full, is_open), refl, refl)

  -- A message that calls for a sync, taken while ten signals wait in the open channel, blocks the
  -- goroutine for ever:
  -- whatever happens afterwards, no sync begins and nothing is written.
  pub full_channel_blocks :
      (s t : L) (m : G.Msg)
      → s.pending ≡ 10
      → s.closed ≡ false
      → (G.received m s.known).1 ≡ true
      → Run (message_taken G m s) t
      → (t.phase ≡ signalling) × (t.syncs ≡ s.syncs) × (t.written ≡ s.written)
  full_channel_blocks s t m full is_open changed run =
      let (b, syncs, written) = message_taken-Blocked s m full is_open changed in
      let ((p, full', is_open'), syncs', written') = Steps-Blocked run b in
      (p, syncs' ∙ syncs, written' ∙ written)

  -- From `selecting`, with a signal that waits
  begin_now :
      (s : L) → s.phase ≡ selecting → 1 ≤ s.pending → (t : L) × Run s t × (t.syncs ≡ suc s.syncs)
  unfolding sync_begun
  begin_now s at some_left =
      let (rest, e) = positive s.pending some_left in
      let t = sync_begun G rest s in (t, step_then s t t (begins s rest at e) (no_step t), refl)

  from_selecting :
      (s : L)
      → s.phase ≡ selecting
      → s.closed ≡ false
      → (1 ≤ s.pending) ⊎ (1 ≤ s.owed)
      → (t : L) × Run s t × (t.syncs ≡ suc s.syncs)
  unfolding signal_delivered
  from_selecting s at is_open due = elim (positive_or_zero s.pending) [
    | inl some_left ↦ begin_now s at some_left
    | inr none_left ↦
        let (rest, e) = positive s.owed (owed due none_left) in
        let t = signal_delivered G rest s in
        let (u, run, more) = begin_now t at (ground arith) in
        (u, step_then s t u (delivers s rest e is_open (omega (arith, none_left))) run, more)
  ]
    where
      positive_or_zero : (n : ℕ) → (1 ≤ n) ⊎ (n ≡ 0)
      positive_or_zero zero = inr refl
      positive_or_zero (suc m) = inl (omega arith)

      owed : (1 ≤ s.pending) ⊎ (1 ≤ s.owed) → s.pending ≡ 0 → 1 ≤ s.owed
      owed (inl h) e = absurd (omega (arith, h, e))
      owed (inr h) e = h

  after_answer :
      (s : L) (o : Option G.Written)
      → s.closed ≡ false
      → (1 ≤ s.pending) ⊎ (1 ≤ s.owed)
      → let t = sync_answered G o s in (u : L) × Run t u × (u.syncs ≡ suc s.syncs)
  unfolding sync_answered
  after_answer s none is_open due =
      from_selecting (sync_answered G none s) refl is_open (inr (ground arith))
  after_answer s (some w) is_open due = from_selecting (sync_answered G (some w) s) refl is_open due

  begins_from :
      (s : L) (a : G.Answer) (p : Phase)
      → s.phase ≡ p
      → s.closed ≡ false
      → s.phase ≢ stopped
      → s.phase ≢ panicked
      → (s.phase ≡ signalling → s.pending < 10)
      → Signalled G s
      → (t : L) × Run s t × (t.syncs ≡ suc s.syncs)
  unfolding signal_sent sync_ended
  begins_from s a selecting at is_open runs alive room (inl q) = ground (arith, at, q)
  begins_from s a selecting at is_open runs alive room (inr due) = from_selecting s at is_open due
  begins_from s a signalling at is_open runs alive room due =
      let t = signal_sent G s in
      let (u, run, more) = from_selecting t refl is_open (inl (ground arith)) in
      (u, step_then s t u (sends s at (room at)) run, more)
  begins_from s a syncing at is_open runs alive room (inl q) = ground (arith, at, q)
  begins_from s a syncing at is_open runs alive room (inr due) =
      let t = sync_ended G a s in
      let (u, run, more) = after_answer s (G.sync a s.known) is_open due in
      (u, step_then s t u (ends s a at) run, more)
  begins_from s a stopped at is_open runs alive room due = absurd (runs at)
  begins_from s a panicked at is_open runs alive room due = absurd (alive at)

  -- In every state that is reached: where something calls for a sync, a sync can begin. Unless the
  -- channel is closed, or the goroutine has ended or is about to
  -- send to its own full channel, steps of the goroutine, and of those that send to it, lead there.
  pub sync_can_begin :
      (d : G.Data) (s : L) (a : G.Answer)
      → Reachable G d s
      → s.unsynced ≡ true
      → s.closed ≡ false
      → s.phase ≢ stopped
      → s.phase ≢ panicked
      → (s.phase ≡ signalling → s.pending < 10)
      → (t : L) × Run s t × (t.syncs ≡ suc s.syncs)
  sync_can_begin d s a r unsynced is_open runs alive room =
      begins_from s a s.phase refl is_open runs alive room
        ((Reachable-Outstanding G d s r).2 unsynced)
