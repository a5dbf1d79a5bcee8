-- ===== src/Cluster/Only.antt =====
-- Calls that return a value of one kind only if a fact holds, and rules for them.
use etcdauto.Prelude.{◌≡◌, refl, sym, ap, subst, Bool, true, false, arith, if◌then◌else◌}
use etcdauto.Cluster.Host.{
  History, Outcome, done, panics, exits, waits, M, pure, exit, wait, continue, ◌>>=◌,
}

answer_of : {A : Type 0} → A → Outcome A → A
answer_of d (done a) = a
answer_of d _ = d

pub same_answer : {A : Type 0} (a b : A) → Outcome.done a ≡ done b → a ≡ b
unfolding answer_of
same_answer a b e = ap (answer_of a) e

module _ {A : Type 0} (P : A → Type 0) (Q : Type 0) where
  pub record Only (m : M A) : Type 0 where
    pub at : (h : History) (a : A) → (m h).0 ≡ done a → P a → Q

  pub Only-pure : (a : A) → (P a → Q) → Only (pure a)
  Only-pure a f = record { at = λ h b e p. f (subst P (sym (same_answer a b e)) p) }

  pub Only-exit : Only exit
  Only-exit = record { at = λ h a e. ground (arith, e) }

  pub Only-wait : Only wait
  Only-wait = record { at = λ h a e. ground (arith, e) }

  Only-continue :
      {B : Type 0} (o : Outcome B) (k : B → M A) (h : History) (a : A)
      → ((b : B) → o ≡ done b → Only (k b))
      → (continue o k h).0 ≡ done a
      → P a
      → Q
  Only-continue (done b) k h a ok_ e p = (ok_ b refl).at h a e p
  Only-continue panics k h a ok_ e p = ground (arith, e)
  Only-continue exits k h a ok_ e p = ground (arith, e)
  Only-continue waits k h a ok_ e p = ground (arith, e)

  -- What comes first matters only by its answers.
  pub Only-known :
      {B : Type 0} (m : M B) (k : B → M A)
      → ((b : B) (h : History) → (m h).0 ≡ done b → Only (k b))
      → Only (m >>= k)
  Only-known m k ok_ = record {
    at = λ h a e p. Only-continue (m h).0 k (m h).1 a (λ b q. ok_ b h q) e p;
  }

  pub Only-bind : {B : Type 0} (m : M B) (k : B → M A) → ((b : B) → Only (k b)) → Only (m >>= k)
  Only-bind m k ok_ = Only-known m k (λ b h e. ok_ b)

  pub Only-if : (b : Bool) (m n : M A) → Only m → Only n → Only (if b then m else n)
  Only-if true m n om on = om
  Only-if false m n om on = on

pub Only-map :
    {A : Type 0} (P : A → Type 0) (Q R : Type 0) (m : M A) → (Q → R) → Only P Q m → Only P R m
Only-map P Q R m f om = record { at = λ h a e p. f (om.at h a e p) }

pub ruleset only_rules = (Only-exit, Only-wait, Only-bind, Only-if)
