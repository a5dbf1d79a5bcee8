-- ===== src/Cluster/Running.antt =====
-- The etcd processes that are running by the record of a run: those that were started and that no
-- signal to stop has reached; and rules for the calls that hand on the process that they start.
use etcdauto.Prelude.{ℕ, ◌+◌, ◌-◌, ◌≡◌, refl, ◌⊎◌, inl, Bool, true, false, [], ◌∷◌, if◌then◌else◌}
use etcdauto.Cluster.Host.{
  Host, Event, start_process, sigterm, kill, History, Outcome, done, panics, exits, waits, M, pure,
  continue, ◌>>=◌, Result, ok, err, Error, promote_failed, Process,
}
use etcdauto.Cluster.Measures.{is_passive, IsActive, Leaves}

unfoldable pub running : Host → History → ℕ
running w [] = 0
running w (start_process b ∷ h) = if w.starts h b then running w h + 1 else running w h
running w (sigterm ∷ h) = if w.signals h then running w h - 1 else running w h
running w (kill ∷ h) = if w.kills h then running w h - 1 else running w h
running w (_ ∷ h) = running w h

running-quiet :
    (w : Host) (e : Event) (h : History) → is_passive e ≡ true → running w (e ∷ h) ≡ running w h
unfolding running is_passive
running-quiet w (start_process b) h p = cc
running-quiet w sigterm h p = cc
running-quiet w kill h p = cc
running-quiet w _ h p = refl

pub running-IsActive : (w : Host) → IsActive (running w)
running-IsActive w = record { quiet = running-quiet w }

module _ (w : Host) where
  -- The last thing that was asked is to tell etcd to stop, and that failed.
  abbrev pub Unheard : History → Type 0
  Unheard [] = ⊥
  Unheard (sigterm ∷ h) = w.signals h ≡ false
  Unheard (_ ∷ h) = ⊥

  -- What a call that should hand over a running etcd has done: on success there is one more
  -- process, otherwise none, except where etcd could not be told to stop.
  abbrev pub Settled : Outcome (Result Process) → History → ℕ → Type 0
  Settled (done (ok p)) h earlier = running w h ≡ earlier + 1
  Settled (done (err e)) h earlier =
      (running w h ≡ earlier) ⊎ ((e ≡ promote_failed) × Unheard h × (running w h ≡ earlier + 1))
  Settled _ h earlier = running w h ≡ earlier

  pub record Settles (m : M (Result Process)) : Type 0 where
    pub at : (h : History) → Settled (m h).0 (m h).1 (running w h)

  pub Settles-err : (e : Error) → Settles (pure (err e))
  Settles-err e = record { at = λ h. inl refl }

  continue-Settled :
      {A : Type 0} (o : Outcome A) (f : A → M (Result Process)) (h : History) (n : ℕ)
      → running w h ≡ n
      → ((a : A) → Settles (f a))
      → Settled (continue o f h).0 (continue o f h).1 n
  continue-Settled (done a) f h n e sf = rw (← e) ((sf a).at h)
  continue-Settled panics f h n e sf = e
  continue-Settled exits f h n e sf = e
  continue-Settled waits f h n e sf = e

  pub Settles-bind :
      {A : Type 0} (m : M A) (f : A → M (Result Process))
      → Leaves (running w) m
      → ((a : A) → Settles (f a))
      → Settles (m >>= f)
  Settles-bind m f lm sf = record {
    at = λ h. continue-Settled (m h).0 f (m h).1 (running w h) (lm.at h) sf;
  }

  pub Settles-if :
      (b : Bool) (m n : M (Result Process)) → Settles m → Settles n → Settles (if b then m else n)
  Settles-if true m n sm sn = sm
  Settles-if false m n sm sn = sn

pub ruleset running_rules = (Settles-err, Settles-bind, Settles-if)
