-- ===== src/Certs/Manager/Keeping.antt =====
-- The operations of the SecretManager: what is stored after a success.
use etcdauto.Prelude.{
  String, ◌≡◌, ◌≢◌, refl, sym, ap, subst, ◌==◌, eq_iff, ◌∙◌, ◌⊎◌, inl, inr, Bool, true, false, none,
  some, List, arith, Bool-cases,
}
use etcdauto.Certs.Crypto.{Crypto}
use etcdauto.Certs.Api.{Done, Secret, Answer, succeeded, not_found, failed, Api}
use etcdauto.Certs.Manager.{has_keys, has_required, written, ensure_answered, ensure_secret}

pub written_keeps : {S : Type 0} (r : Answer Done × S) → (written r).1 ≡ r.1
unfolding written
written_keeps (succeeded u, s) = refl
written_keeps (not_found, s) = refl
written_keeps (failed, s) = refl

pub written_succeeded :
    {S : Type 0} (r : Answer Done × S) → (written r).0 ≡ some tt → r.0 ≡ succeeded tt
unfolding written
written_succeeded (succeeded u, s) h = refl
written_succeeded (not_found, s) h = ground (arith, h)
written_succeeded (failed, s) h = ground (arith, h)

pub has_required-true : (b : Bool) → has_required b ≡ some tt → b ≡ true
unfolding has_required
has_required-true true h = refl
has_required-true false h = ground (arith, h)

module _ (C : Crypto) (A : Api C) where
  -- What an ensured secret is: what was there, if it has the keys, and else the new one
  Ensured : String → String → List String → Secret C → A.State → A.State → Type 0
  Ensured ns name keys fresh s s' =
      ((x : Secret C) × (A.stored s ns name ≡ some x)
        × (A.stored s' ns name ≡ some x)
        × (has_keys keys x.entries ≡ true))
      ⊎ ((A.stored s ns name ≡ none) × (A.stored s' ns name ≡ some fresh))

  ensured :
      (ns name : String) (keys : List String) (fresh : Secret C) (s : A.State)
      → (a : Answer (Secret C)) (s' : A.State) → (a ≡ (A.get ns name s).0)
      → (s' ≡ (A.get ns name s).1)
      → (ensure_answered C A ns name keys fresh (a, s')).0 ≡ some tt
      → Ensured ns name keys fresh s (ensure_answered C A ns name keys fresh (a, s')).1
  unfolding ensure_answered Ensured
  ensured ns name keys fresh s (succeeded x) s' p q h = inl (
    x,
    A.get_found ns name s x (sym p),
    ap (λ r. A.stored r ns name) q
        ∙ A.get_keeps ns name s ns name
        ∙ A.get_found ns name s x (sym p),
    has_required-true _ h,
  )
  ensured ns name keys fresh s not_found s' p q h = inr (
    A.get_absent ns name s (sym p),
    ap (λ r. A.stored r ns name) (written_keeps (A.create ns name fresh s'))
        ∙ A.create_stores ns name fresh s' (written_succeeded _ h),
  )
  ensured ns name keys fresh s failed s' p q h = ground (arith, h)

  -- A successful ensure leaves an existing secret as it is and requires its keys; it creates the new
  -- secret only where there was none.
  pub ensure_secret-Ensured :
      (ns name : String) (keys : List String) (fresh : Secret C) (s : A.State)
      → (ensure_secret C A ns name keys fresh s).0 ≡ some tt
      → ((x : Secret C) × (A.stored s ns name ≡ some x)
          × (A.stored (ensure_secret C A ns name keys fresh s).1 ns name ≡ some x)
          × (has_keys keys x.entries ≡ true))
        ⊎ ((A.stored s ns name ≡ none)
            × (A.stored (ensure_secret C A ns name keys fresh s).1 ns name ≡ some fresh))
  unfolding ensure_secret Ensured
  ensure_secret-Ensured ns name keys fresh s h =
      ensured ns name keys fresh s (A.get ns name s).0 (A.get ns name s).1 refl refl h

  create-keeps :
      (ns name ms key : String) (fresh x : Secret C) (s : A.State)
      → A.stored s ms key ≡ some x
      → A.stored (A.create ns name fresh s).1 ms key ≡ some x
  create-keeps ns name ms key fresh x s at = elim (Bool-cases (ns == ms)) [
    | inr other ↦
        A.create_elsewhere ns name fresh s ms key (inl (ground (arith, eq_iff ns ms, other))) ∙ at
    | inl same ↦ elim (Bool-cases (name == key)) [
      | inr other ↦
          A.create_elsewhere ns name fresh s ms key (inr (ground (arith, eq_iff name key, other)))
          ∙ at
      | inl too ↦
          subst (λ m. A.stored (A.create ns name fresh s).1 m key ≡ some x) ((eq_iff ns ms).0 same)
            (subst (λ k. A.stored (A.create ns name fresh s).1 ns k ≡ some x)
              ((eq_iff name key).0 too)
              (A.create_refuses ns name fresh x s (
                subst (λ m. A.stored s m name ≡ some x) (sym ((eq_iff ns ms).0 same))
                  (subst (λ k. A.stored s ms k ≡ some x) (sym ((eq_iff name key).0 too)) at))))
    ]
  ]

  answered-keeps :
      (ns name : String) (keys : List String) (fresh : Secret C)
      → (a : Answer (Secret C)) (s : A.State) (ms key : String) (x : Secret C)
      → A.stored s ms key ≡ some x
      → A.stored (ensure_answered C A ns name keys fresh (a, s)).1 ms key ≡ some x
  unfolding ensure_answered
  answered-keeps ns name keys fresh (succeeded y) s ms key x at = at
  answered-keeps ns name keys fresh not_found s ms key x at =
      ap (λ r. A.stored r ms key) (written_keeps (A.create ns name fresh s))
      ∙ create-keeps ns name ms key fresh x s at
  answered-keeps ns name keys fresh failed s ms key x at = at

  -- Whatever it returns, an ensure changes no secret that exists, neither that one nor another.
  pub ensure_secret-keeps :
      (ns name : String) (keys : List String) (fresh : Secret C) (s : A.State)
      → (ms key : String) (x : Secret C) → A.stored s ms key ≡ some x
      → A.stored (ensure_secret C A ns name keys fresh s).1 ms key ≡ some x
  unfolding ensure_secret
  ensure_secret-keeps ns name keys fresh s ms key x at =
      answered-keeps ns name keys fresh (A.get ns name s).0 (A.get ns name s).1 ms key x
        (A.get_keeps ns name s ms key ∙ at)

  answered_elsewhere :
      (ns name : String) (keys : List String) (fresh : Secret C)
      → (a : Answer (Secret C)) (s : A.State) (ms key : String) → (ns ≢ ms) ⊎ (name ≢ key)
      → A.stored (ensure_answered C A ns name keys fresh (a, s)).1 ms key ≡ A.stored s ms key
  unfolding ensure_answered
  answered_elsewhere ns name keys fresh (succeeded y) s ms key d = refl
  answered_elsewhere ns name keys fresh not_found s ms key d =
      ap (λ r. A.stored r ms key) (written_keeps (A.create ns name fresh s))
      ∙ A.create_elsewhere ns name fresh s ms key d
  answered_elsewhere ns name keys fresh failed s ms key d = refl

  pub ensure_secret_elsewhere :
      (ns name : String) (keys : List String) (fresh : Secret C) (s : A.State) (ms key : String)
      → (ns ≢ ms) ⊎ (name ≢ key)
      → A.stored (ensure_secret C A ns name keys fresh s).1 ms key ≡ A.stored s ms key
  unfolding ensure_secret
  ensure_secret_elsewhere ns name keys fresh s ms key d =
      answered_elsewhere ns name keys fresh (A.get ns name s).0 (A.get ns name s).1 ms key d
      ∙ A.get_keeps ns name s ms key
