-- ===== src/Controller/Node/Replicas.antt =====
-- `syncReplicas`: what is stored when it ends well, and when it ends well.
use etcdauto.Prelude.{
  ℕ, zero, suc, ◌≤◌, ◌<◌, ◌≡◌, refl, ap, subst, ◌∙◌, ◌⊎◌, inl, inr, Bool, none, some, Map, List,
  eqb, eqb_iff, arith, Bool-cases, String,
}
use etcdauto.Controller.Node.{
  NodeConfig, GetReply, sts_found, sts_not_found, sts_unread, UpdateReply, updated, conflict,
  refused, Statefulset, SyncOutcome, unchanged, written_back, update_answered, current_known,
  sts_answered, attempts, sync_replicas, desired_replicas, count_nodes, selection,
}

module _ (A : Statefulset) where
  -- The sync says that the stateful set has the desired number of replicas.
  abbrev Settled : SyncOutcome → Type 0
  Settled o = (o ≡ unchanged) ⊎ (o ≡ written_back)

  abbrev AtDesired : ℕ → SyncOutcome × A.State → Type 0
  AtDesired desired r = Settled r.0 → A.replicas r.1 ≡ some desired

  module _ (again : A.State → SyncOutcome × A.State) (desired : ℕ) where
    update-AtDesired :
        (r : UpdateReply × A.State)
        → (r.0 ≡ updated → A.replicas r.1 ≡ some desired)
        → ((s : A.State) → AtDesired desired (again s))
        → AtDesired desired (update_answered A again r)
    unfolding update_answered
    update-AtDesired (updated, s) w ih = λ ok. w refl
    update-AtDesired (conflict, s) w ih = ih s
    update-AtDesired (refused, s) w ih = λ ok. ground (arith, ok)

    current-AtDesired :
        (current : ℕ) (s : A.State)
        → A.replicas s ≡ some current
        → ((s : A.State) → AtDesired desired (again s))
        → AtDesired desired (current_known A again desired current s)
    unfolding current_known
    current-AtDesired current s there ih = elim (Bool-cases (eqb current desired)) [
      | inl same ↦ rw same (λ ok. there ∙ ap (λ n. some n) ((eqb_iff current desired).0 same))
      | inr other ↦ rw other (update-AtDesired (A.update desired s) (A.update_writes desired s) ih)
    ]

    answered-AtDesired :
        (g : GetReply) (s : A.State)
        → ((r : ℕ) → g ≡ sts_found (some r) → A.replicas s ≡ some r)
        → ((s : A.State) → AtDesired desired (again s))
        → AtDesired desired (sts_answered A again desired (g, s))
    unfolding sts_answered
    answered-AtDesired (sts_found none) s found ih = λ ok. ground (arith, ok)
    answered-AtDesired (sts_found (some r)) s found ih = current-AtDesired r s (found r refl) ih
    answered-AtDesired sts_not_found s found ih = λ ok. ground (arith, ok)
    answered-AtDesired sts_unread s found ih = λ ok. ground (arith, ok)

  attempts-AtDesired : (n desired : ℕ) (s : A.State) → AtDesired desired (attempts A n desired s)
  unfolding attempts
  attempts-AtDesired zero desired s = λ ok. ground (arith, ok)
  attempts-AtDesired (suc n) desired s =
      answered-AtDesired (attempts A n desired) desired (A.get s).0 (A.get s).1 (A.get_found s)
        (attempts-AtDesired n desired)

  -- A sync that ends without a change or with a written update leaves the stateful set with the
  -- number of replicas that follows from the nodes it has read, whatever others do meanwhile.
  pub sync_replicas_settles :
      (matches : Map String → Map String → Bool) (c : NodeConfig) (nodes : List (Map String))
      → (s : A.State)
      → ((sync_replicas A matches c (some nodes) s).0 ≡ unchanged)
        ⊎ ((sync_replicas A matches c (some nodes) s).0 ≡ written_back)
      → A.replicas (sync_replicas A matches c (some nodes) s).1
        ≡ some (desired_replicas c (count_nodes matches (selection c) nodes))
  unfolding sync_replicas
  sync_replicas_settles matches c nodes s =
      attempts-AtDesired 3 (desired_replicas c (count_nodes matches (selection c) nodes)) s

  module _ (conflicts : A.State → ℕ)
      (readable : (s : A.State) → (r : ℕ) × ((A.get s).0 ≡ sts_found (some r)))
      (get_keeps : (s : A.State) → conflicts (A.get s).1 ≡ conflicts s)
      (update_ends : (n : ℕ) (s : A.State)
        → ((A.update n s).0 ≡ updated)
          ⊎ (((A.update n s).0 ≡ conflict) × (conflicts (A.update n s).1 < conflicts s))) where
    update_settles :
        (again : A.State → SyncOutcome × A.State) (r : UpdateReply × A.State)
        → (r.0 ≡ updated) ⊎ ((r.0 ≡ conflict) × Settled (again r.1).0)
        → Settled (update_answered A again r).0
    unfolding update_answered
    update_settles again (updated, s) e = inr refl
    update_settles again (conflict, s) (inl e) = ground (arith, e)
    update_settles again (conflict, s) (inr (e, ok)) = ok
    update_settles again (refused, s) e = ground (arith, e)

    current_settles :
        (again : A.State → SyncOutcome × A.State) (desired current : ℕ) (s : A.State)
        → Settled (update_answered A again (A.update desired s)).0
        → Settled (current_known A again desired current s).0
    unfolding current_known
    current_settles again desired current s ok = elim (Bool-cases (eqb current desired)) [
      | inl same ↦ rw same (inl refl)
      | inr other ↦ rw other ok
    ]

    answered_settles :
        (again : A.State → SyncOutcome × A.State) (desired r : ℕ) (g : GetReply) (s : A.State)
        → g ≡ sts_found (some r)
        → Settled (current_known A again desired r s).0
        → Settled (sts_answered A again desired (g, s)).0
    unfolding sts_answered
    answered_settles again desired r (sts_found none) s e ok = ground (arith, e)
    answered_settles again desired r (sts_found (some q)) s e ok =
        subst (λ p. Settled (current_known A again desired p s).0) (ground (arith, e)) ok
    answered_settles again desired r sts_not_found s e ok = ground (arith, e)
    answered_settles again desired r sts_unread s e ok = ground (arith, e)

    attempts_settle :
        (n desired : ℕ) (s : A.State) → conflicts s < n → Settled (attempts A n desired s).0
    unfolding attempts
    attempts_settle zero desired s small = absurd (omega (arith, small))
    attempts_settle (suc n) desired s small =
        let (r, found) = readable s in
        let s' = (A.get s).1 in
        let after : (A.update desired s').0 ≡ updated
            ⊎ (((A.update desired s').0 ≡ conflict)
                × Settled (attempts A n desired (A.update desired s').1).0) =
          elim (update_ends desired s') [
            | inl e ↦ inl e
            | inr (e, less) ↦ inr (
              e,
              attempts_settle n desired (A.update desired s').1
                  (omega (arith, small, less, get_keeps s)),
            )
          ] in
        answered_settles (attempts A n desired) desired r (A.get s).0 s' found (
          current_settles (attempts A n desired) desired r s'
            (update_settles (attempts A n desired) (A.update desired s') after))

    -- Where the stateful set can be read and has a number of replicas, an update fails only by a
    -- conflict, and at most two conflicts are to come, the three attempts are enough: the sync ends
    -- without a change or with a written update, and the stateful set then has the number of replicas
    -- that follows from the nodes it has read.
    pub sync_replicas_ends :
        (matches : Map String → Map String → Bool) (c : NodeConfig) (nodes : List (Map String))
        → (s : A.State) → conflicts s ≤ 2
        → (((sync_replicas A matches c (some nodes) s).0 ≡ unchanged)
            ⊎ ((sync_replicas A matches c (some nodes) s).0 ≡ written_back))
          × (A.replicas (sync_replicas A matches c (some nodes) s).1
              ≡ some (desired_replicas c (count_nodes matches (selection c) nodes)))
    unfolding sync_replicas
    sync_replicas_ends matches c nodes s few =
        let ended =
          attempts_settle 3 (desired_replicas c (count_nodes matches (selection c) nodes)) s
            (omega (arith, few)) in
        (ended, sync_replicas_settles matches c nodes s ended)
