-- ===== src/Cluster/Discovery/Health.antt =====
-- The health of endpoints: `checkSingleEndpoint` and the reading loop of `checkEndpointHealth`.
use mathlib.Core.List.{Perm, Permᴰ}
use mathlib.Core.Logic.{∥∥₁_elim}
use native.Mathlib.Nat.{ℕ_set}
use etcdauto.Prelude.{
  ℕ, ◌≤◌, max, String, ◌≡◌, refl, ap, ◌∙◌, ◌≢◌, ◌↔◌, ◌⊎◌, true, false, some, List, [], ◌∷◌, All,
  Any, inl, inr, arith,
}
use etcdauto.Cluster.Host.{Host, failed, dial, new_client, get_health, History, done}
use etcdauto.Cluster.Discovery.{
  EndpointHealth, unreachable, healthy, not_ready, best_status, check_single_endpoint,
}

-- Connected, answering reads, and free of alarms, at the four moments at which that is asked.
pub record IsServing (w : Host) (e : String) (h : History) : Type 0 where
  pub accepts : w.dials h e ≡ true
  pub connects : w.connects (dial e ∷ h) (e ∷ []) ≡ true
  pub answers : w.get_reply (new_client (e ∷ []) ∷ dial e ∷ h) (e ∷ []) ≢ failed
  pub no_alarms :
      w.alarms (get_health (e ∷ []) ∷ new_client (e ∷ []) ∷ dial e ∷ h) (e ∷ []) ≡ some []

-- No check panics, and no check ends the process.
pub check_single_endpoint-returns :
    (w : Host) (e : String) (h : History)
    → ((check_single_endpoint w e h).0 ≡ done unreachable)
      ⊎ ((check_single_endpoint w e h).0 ≡ done healthy)
      ⊎ ((check_single_endpoint w e h).0 ≡ done not_ready)
unfolding check_single_endpoint
check_single_endpoint-returns w e h = ground arith

check_single_endpoint_healthy :
    (w : Host) (e : String) (h : History)
    → ((check_single_endpoint w e h).0 ≡ done healthy) ↔ IsServing w e h
unfolding check_single_endpoint
check_single_endpoint_healthy w e h =
    (λ q. ground arith, λ v. ground (arith, v.accepts, v.connects, v.answers, v.no_alarms))

check_single_endpoint_unreachable :
    (w : Host) (e : String) (h : History)
    → ((check_single_endpoint w e h).0 ≡ done unreachable) ↔ (w.dials h e ≡ false)
unfolding check_single_endpoint
check_single_endpoint_unreachable w e h = (λ q. ground arith, λ q. ground arith)

-- The check of one endpoint says "unreachable" exactly when the port does not accept a connection,
-- "healthy" exactly when the port accepts, the client connects, the read succeeds or is denied
-- permission, and the alarm list is read and empty; and "not ready" in every other case.
pub check_single_endpoint_classifies :
    (w : Host) (e : String) (h : History)
    → (((check_single_endpoint w e h).0 ≡ done healthy) ↔ IsServing w e h)
      × (((check_single_endpoint w e h).0 ≡ done unreachable) ↔ (w.dials h e ≡ false))
      × (w.dials h e ≡ true → ¬ IsServing w e h → (check_single_endpoint w e h).0 ≡ done not_ready)
check_single_endpoint_classifies w e h = (
  check_single_endpoint_healthy w e h,
  check_single_endpoint_unreachable w e h,
  λ up out. elim (check_single_endpoint-returns w e h) [
    | inl q ↦ cc (up, (check_single_endpoint_unreachable w e h).0 q)
    | inr (inl q) ↦ absurd (out ((check_single_endpoint_healthy w e h).0 q))
    | inr (inr q) ↦ q
  ],
)

-- How good a status is
rank : EndpointHealth → ℕ
rank unreachable = 0
rank not_ready = 1
rank healthy = 2

top : List EndpointHealth → ℕ
top [] = 0
top (s ∷ ss) = max (rank s) (top ss)

top-le : (hs : List EndpointHealth) → top hs ≤ 2
unfolding top rank
top-le [] = omega arith
top-le (unreachable ∷ hs) = omega (arith, top-le hs)
top-le (not_ready ∷ hs) = omega (arith, top-le hs)
top-le (healthy ∷ hs) = omega (arith, top-le hs)

rank-best_status :
    (b : EndpointHealth) (hs : List EndpointHealth)
    → rank b ≤ 1
    → rank (best_status b hs) ≡ max (rank b) (top hs)
unfolding best_status top rank
rank-best_status b [] h = omega arith
rank-best_status b (healthy ∷ hs) h = omega (arith, top-le hs)
rank-best_status b (not_ready ∷ hs) h = omega (arith, rank-best_status not_ready hs (omega arith))
rank-best_status b (unreachable ∷ hs) h = omega (arith, rank-best_status b hs h)

rank-injective : (s t : EndpointHealth) → rank s ≡ rank t → s ≡ t
unfolding rank
rank-injective unreachable t h = ground arith
rank-injective healthy t h = ground arith
rank-injective not_ready t h = ground arith

top-Permᴰ : {hs ks : List EndpointHealth} → Permᴰ hs ks → top hs ≡ top ks
unfolding top
top-Permᴰ Permᴰ.nil = refl
top-Permᴰ (Permᴰ.cons e p) = omega (arith, ap rank e, top-Permᴰ p)
top-Permᴰ (Permᴰ.swap e f) = omega (arith, ap rank e, ap rank f)
top-Permᴰ (Permᴰ.trans p q) = top-Permᴰ p ∙ top-Permᴰ q

best_status_healthy :
    (b : EndpointHealth) (hs : List EndpointHealth)
    → b ≢ healthy
    → (best_status b hs ≡ healthy) ↔ Any (λ s. s ≡ healthy) hs
unfolding best_status
best_status_healthy b [] n = (n, λ a. absurd a)
best_status_healthy b (healthy ∷ hs) n = (λ q. inl refl, λ a. refl)
best_status_healthy b (not_ready ∷ hs) n =
    let ih = best_status_healthy not_ready hs (λ q. cc) in
    (λ q. inr (ih.0 q), elim [ inl e ↦ cc | inr a ↦ ih.1 a ])
best_status_healthy b (unreachable ∷ hs) n =
    let ih = best_status_healthy b hs n in (λ q. inr (ih.0 q), elim [ inl e ↦ cc | inr a ↦ ih.1 a ])

best_status_unreachable :
    (hs : List EndpointHealth)
    → (best_status unreachable hs ≡ unreachable) ↔ All (λ s. s ≡ unreachable) hs
unfolding best_status
best_status_unreachable [] = (λ q. tt, λ q. refl)
best_status_unreachable (unreachable ∷ hs) =
    (λ q. (refl, (best_status_unreachable hs).0 q), λ a. (best_status_unreachable hs).1 a.1)
best_status_unreachable (healthy ∷ hs) = (λ q. cc, λ a. cc (a.0))
best_status_unreachable (not_ready ∷ hs) = (
  λ q. absurd (
      unfold rank in
      omega (arith, ap rank q, rank-best_status not_ready hs (unfold rank in omega arith))),
  λ a. cc (a.0),
)

-- The status that `checkEndpointHealth` settles on does not depend on the order in which the
-- statuses of the single endpoints arrive; it is "healthy" exactly when some endpoint is, and
-- "unreachable" exactly when all are.
pub best_status-perm :
    (hs ks : List EndpointHealth)
    → Perm hs ks
    → (best_status unreachable hs ≡ best_status unreachable ks)
      × ((best_status unreachable hs ≡ healthy) ↔ Any (λ s. s ≡ healthy) ks)
      × ((best_status unreachable hs ≡ unreachable) ↔ All (λ s. s ≡ unreachable) ks)
best_status-perm hs ks p =
    let same : best_status unreachable hs ≡ best_status unreachable ks = rank-injective _ _ (
      omega (
        arith,
        rank-best_status unreachable hs (unfold rank in omega arith),
        rank-best_status unreachable ks (unfold rank in omega arith),
        ∥∥₁_elim p (ℕ_set (top hs) (top ks)) top-Permᴰ,
      )) in
    (
      same,
      rw same (best_status_healthy unreachable ks (λ q. cc)),
      rw same (best_status_unreachable ks),
    )
