-- ===== src/Setup/Environment/Variables.antt =====
-- The variables that pkg/init/env.go sets for etcd.
use etcdauto.Prelude.{
  ℕ, String, ◌≡◌, refl, sym, ap, subst, ◌∙◌, inl, inr, Bool, true, not, ◌&&◌, is_some, Option-cases,
  none, some, [], ◌∷◌, Map, lookup, Unique, arith, ◌==◌, eq_iff, Bool-cases,
}
use etcdauto.Certs.Crypto.{Crypto}
use etcdauto.Setup.Files.{Files, >>>-inverts}
use etcdauto.Setup.Certificate.Steps.{state_of}
use etcdauto.Setup.Environment.{EnvConfig, env_vars, set_all, setup_environment}

-- Some order of the entries of a map: no entry is added, lost or repeated.
abbrev pub IsOrder : (Map String → Map String) → Type 0
IsOrder in_order =
    (m : Map String)
    → Unique m
    → Unique (in_order m) × ((k : String) → lookup k (in_order m) ≡ lookup k m)

unfoldable distinct : Map String → Bool
distinct [] = true
distinct ((k, v) ∷ m) = not (is_some (lookup k m)) && distinct m

distinct-Unique : (m : Map String) → distinct m ≡ true → Unique m
unfolding distinct
distinct-Unique [] h = tt
distinct-Unique ((k, v) ∷ m) h = elim (Option-cases (lookup k m)) [
  | inl e ↦ (e, distinct-Unique m (ground (arith, h)))
  | inr (w, e) ↦ ground (arith, h, e)
]

Unique-env_vars : (itoa : ℕ → String) (cfg : EnvConfig) → Unique (env_vars itoa cfg)
unfolding env_vars lookup distinct
Unique-env_vars itoa cfg = distinct-Unique (env_vars itoa cfg) refl

module _ (C : Crypto) (F : Files C.Bytes) where
  abbrev SameFiles : F.State → F.State → Type 0
  SameFiles s s' = (q : String) → (F.content s' q ≡ F.content s q) × (F.exists s' q ≡ F.exists s q)

  set_all-elsewhere :
      (vars : Map String) (s s' : F.State) (k : String)
      → lookup k vars ≡ none
      → set_all C F vars s ≡ (some tt, s')
      → F.env s' k ≡ F.env s k
  unfolding set_all lookup
  set_all-elsewhere [] s s' k e h = ap (λ x. F.env x k) (sym (state_of h))
  set_all-elsewhere ((j, v) ∷ vars) s s' k e h =
      let (u, s1, h1, k1) = >>>-inverts (F.setenv j v s) _ tt s' h in
      set_all-elsewhere vars s1 s' k (ground (arith, e)) k1
      ∙ ap (λ x. F.env x k) (sym (state_of h1))
      ∙ F.setenv_elsewhere j v s k (ground (arith, e, eq_iff j k))

  set_all-value :
      (vars : Map String) (s s' : F.State) (k v : String)
      → Unique vars
      → lookup k vars ≡ some v
      → set_all C F vars s ≡ (some tt, s')
      → F.env s' k ≡ v
  unfolding set_all lookup
  set_all-value [] s s' k v u e h = ground (arith, e)
  set_all-value ((j, w) ∷ vars) s s' k v u e h =
      let (t, s1, h1, k1) = >>>-inverts (F.setenv j w s) _ tt s' h in
      elim (Bool-cases (j == k)) [
        | inl same ↦
            let jk = (eq_iff j k).0 same in
            set_all-elsewhere vars s1 s' k (subst (λ x. lookup x vars ≡ none) jk u.0) k1
            ∙ subst (λ x. F.env s1 x ≡ w) jk (F.setenv_value j w s s1 h1)
            ∙ ground (arith, e, same)
        | inr other ↦ set_all-value vars s1 s' k v u.1 (ground (arith, e, other)) k1
      ]

  set_all-files :
      (vars : Map String) (s s' : F.State) → set_all C F vars s ≡ (some tt, s') → SameFiles s s'
  unfolding set_all
  set_all-files [] s s' h = λ q. rw (state_of h) (refl, refl)
  set_all-files ((j, v) ∷ vars) s s' h = λ q.
      let (u, s1, h1, k1) = >>>-inverts (F.setenv j v s) _ tt s' h in
      let (a, b) = set_all-files vars s1 s' k1 q in
      let (c, d) = F.setenv_files j v s q in
      (
        a ∙ ap (λ x. F.content x q) (sym (state_of h1)) ∙ c,
        b ∙ ap (λ x. F.exists x q) (sym (state_of h1)) ∙ d,
      )

  -- In whatever order Go goes through the map, `SetupEnvironment` without an error gives every variable
  -- of the map its value, and leaves the other variables and all files as they are.
  pub setup_environment_lem :
      (in_order : Map String → Map String) (itoa : ℕ → String) (cfg : EnvConfig) (s s' : F.State)
      → IsOrder in_order
      → setup_environment C F in_order itoa cfg s ≡ (some tt, s')
      → ((k v : String) → lookup k (env_vars itoa cfg) ≡ some v → F.env s' k ≡ v)
        × ((k : String) → lookup k (env_vars itoa cfg) ≡ none → F.env s' k ≡ F.env s k)
        × SameFiles s s'
  unfolding setup_environment
  setup_environment_lem in_order itoa cfg s s' order h =
      let (u, same) = order (env_vars itoa cfg) (Unique-env_vars itoa cfg) in
      (
        λ k v e. set_all-value (in_order (env_vars itoa cfg)) s s' k v u (same k ∙ e) h,
        λ k e. set_all-elsewhere (in_order (env_vars itoa cfg)) s s' k (same k ∙ e) h,
        set_all-files (in_order (env_vars itoa cfg)) s s' h,
      )
