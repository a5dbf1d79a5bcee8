-- ===== src/Cluster/Measures.antt =====
-- Counts over the record of a run, and rules for the calls that leave a count as it was.
use etcdauto.Prelude.{ℕ, ◌≡◌, refl, ◌∙◌, Bool, true, false, ◌∷◌, if◌then◌else◌}
use etcdauto.Cluster.Host.{
  Event, setenv, start_process, sigterm, kill, History, Outcome, done, panics, exits, waits, M,
  pure, panic, exit, wait, ask, act, continue, ◌>>=◌,
}

-- Events that set no variable, and start or stop no process
unfoldable pub is_passive : Event → Bool
is_passive (setenv k v) = false
is_passive (start_process b) = false
is_passive sigterm = false
is_passive kill = false
is_passive _ = true

-- A count that passive events do not change
pub record IsActive (f : History → ℕ) : Type 0 where
  pub quiet : (e : Event) (h : History) → is_passive e ≡ true → f (e ∷ h) ≡ f h

module _ (f : History → ℕ) where
  -- The call does not change the count.
  pub record Leaves {A : Type 0} (m : M A) : Type 0 where
    pub at : (h : History) → f (m h).1 ≡ f h

  pub Leaves-pure : {A : Type 0} (a : A) → Leaves (pure a)
  Leaves-pure a = record { at = λ h. refl }

  pub Leaves-panic : {A : Type 0} → Leaves (panic {A = A})
  Leaves-panic = record { at = λ h. refl }

  pub Leaves-exit : {A : Type 0} → Leaves (exit {A = A})
  Leaves-exit = record { at = λ h. refl }

  pub Leaves-wait : {A : Type 0} → Leaves (wait {A = A})
  Leaves-wait = record { at = λ h. refl }

  pub Leaves-ask :
      {A : Type 0} (e : Event) (answer : History → A)
      → IsActive f
      → is_passive e ≡ true
      → Leaves (ask e answer)
  Leaves-ask e answer act_ passive = record { at = λ h. act_.quiet e h passive }

  pub Leaves-act : (e : Event) → IsActive f → is_passive e ≡ true → Leaves (act e)
  Leaves-act e act_ passive = record { at = λ h. act_.quiet e h passive }

  pub Leaves-continue :
      {A B : Type 0} (o : Outcome A) (k : A → M B) (h : History)
      → ((a : A) → Leaves (k a))
      → f (continue o k h).1 ≡ f h
  Leaves-continue (done a) k h lk = (lk a).at h
  Leaves-continue panics k h lk = refl
  Leaves-continue exits k h lk = refl
  Leaves-continue waits k h lk = refl

  pub Leaves-bind :
      {A B : Type 0} (m : M A) (k : A → M B)
      → Leaves m
      → ((a : A) → Leaves (k a))
      → Leaves (m >>= k)
  Leaves-bind m k lm lk = record { at = λ h. Leaves-continue (m h).0 k (m h).1 lk ∙ lm.at h }

  pub Leaves-if :
      {A : Type 0} (b : Bool) (m n : M A) → Leaves m → Leaves n → Leaves (if b then m else n)
  Leaves-if true m n lm ln = lm
  Leaves-if false m n lm ln = ln

pub ruleset leaves_rules = (
  Leaves-pure, Leaves-panic, Leaves-exit, Leaves-wait, Leaves-ask, Leaves-act, Leaves-bind,
  Leaves-if,
)
