-- ===== src/Cluster/Members/Promote.antt =====
-- The promotion of a learner: `promoteLearner` of pkg/cluster/manager.go.
use etcdauto.Prelude.{
  ℕ, zero, suc, ◌≤◌, ◌<◌, ◌≡◌, ◌⊎◌, inl, inr, true, false, ◌∷◌, arith, Bool-cases,
}
use etcdauto.Cluster.Host.{
  Host, Client, History, Outcome, Result, member_promote, sleep, done, ok, err, promote_failed,
}
use etcdauto.Cluster.Members.{Config, promote_rounds, promote_learner}

-- The run when the `i`-th request is about to be sent, the first one being number 0
unfoldable pub before : Client → ℕ → ℕ → History → History
before c id zero h = h
before c id (suc i) h = before c id i (sleep 200 ∷ member_promote c id ∷ h)

-- The first `n` requests are refused.
abbrev pub Refused : Host → Client → ℕ → History → ℕ → Type 0
Refused w c id h n = (j : ℕ) → j < n → w.promote_succeeds (before c id j h) c id ≡ false

Refused-suc :
    (w : Host) (c : Client) (id : ℕ) (h : History) (n : ℕ)
    → w.promote_succeeds h c id ≡ false
    → Refused w c id (sleep 200 ∷ member_promote c id ∷ h) n
    → Refused w c id h (suc n)
unfolding before
Refused-suc w c id h n now later zero lt = now
Refused-suc w c id h n now later (suc j) lt = later j (omega arith)

-- How the loop ends when `n + 1` requests are allowed: with the first one that succeeds, or with
-- an error after all of them were refused.
abbrev pub Ends : Host → Client → ℕ → History → ℕ → Outcome (Result (Unit {0})) × History → Type 0
Ends w c id h n r =
    ((i : ℕ) × (i ≤ n)
      × Refused w c id h i
      × (w.promote_succeeds (before c id i h) c id ≡ true)
      × (r ≡ (done (ok tt), member_promote c id ∷ before c id i h)))
    ⊎ (Refused w c id h (suc n)
        × (r ≡ (done (err promote_failed), member_promote c id ∷ before c id n h)))

promote_rounds-Ends :
    (w : Host) (cfg : Config) (c : Client) (id n : ℕ) (h : History)
    → Ends w c id h n (promote_rounds w cfg c id (suc n) true h)
unfolding promote_rounds before
promote_rounds-Ends w cfg c id zero h = elim (Bool-cases (w.promote_succeeds h c id)) [
  | inl yes_ ↦ inl (zero, omega arith, (λ j lt. absurd (omega arith)), yes_, rw yes_)
  | inr no_ ↦ inr (Refused-suc w c id h zero no_ (λ j lt. absurd (omega arith)), rw no_)
]
promote_rounds-Ends w cfg c id (suc n) h = elim (Bool-cases (w.promote_succeeds h c id)) [
  | inl yes_ ↦ inl (zero, omega arith, (λ j lt. absurd (omega arith)), yes_, rw yes_)
  | inr no_ ↦ elim (promote_rounds-Ends w cfg c id n (sleep 200 ∷ member_promote c id ∷ h)) [
    | inl (i, le, r, s, e) ↦ inl (suc i, omega arith, Refused-suc w c id h i no_ r, s, rw no_ e)
    | inr (r, e) ↦ inr (Refused-suc w c id h (suc n) no_ r, rw no_ e)
  ]
]

-- The promotion always returns. It sends the request up to 100 times, waiting 200 ms before each
-- but the first, and stops at the first success; it fails only when all 100 were refused.
pub promote_learner-Ends :
    (w : Host) (cfg : Config) (c : Client) (id : ℕ) (h : History)
    → Ends w c id h 99 (promote_learner w cfg c id h)
unfolding promote_learner
promote_learner-Ends w cfg c id h = promote_rounds-Ends w cfg c id 99 h
