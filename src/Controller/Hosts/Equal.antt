-- ===== src/Controller/Hosts/Equal.antt =====
-- `deepEqualSets` of pkg/controller/configmap.go decides whether two dictionaries have the same hosts
-- with the same IPs.
use etcdauto.Prelude.{
  String, ◌≡◌, refl, sym, ◌∙◌, All-lookup, All-found, All, ◌↔◌, ◌⊎◌, inl, inr, true, false,
  false≢true, Option, none, some, [], ◌∷◌, Map, lookup, Unique, is_some, KeysWithin, length_within,
  length, arith, Bool-cases,
}
use etcdauto.Controller.Sets.{Sets}
use etcdauto.Controller.Hosts.{differs, SameSet, all_equal, all_known, deep_equal_sets}

module _ (S : Sets) where
  differs_iff : (v : S.Set) (o : Option S.Set) → (differs S v o ≡ false) ↔ SameSet S (some v) o
  unfolding differs
  differs_iff v none = (λ e. ground (arith, e), λ s. absurd s)
  differs_iff v (some b) =
      (λ e. (S.equal_iff v b).0 (ground (arith, e)), λ s. ground (arith, (S.equal_iff v b).1 s))

  all_equal_iff :
      (a b : Map S.Set)
      → (all_equal S a b ≡ true) ↔ All (λ e. SameSet S (some e.1) (lookup e.0 b)) a
  unfolding all_equal
  all_equal_iff [] b = ground arith
  all_equal_iff ((k, v) ∷ a) b = elim (Bool-cases (differs S v (lookup k b))) [
    | inl new ↦ rw new (
      λ e. absurd (false≢true e),
      λ (s, ss). absurd (false≢true (sym ((differs_iff v (lookup k b)).1 s) ∙ new)),
    )
    | inr old ↦ rw old (
      λ e. ((differs_iff v (lookup k b)).0 old, (all_equal_iff a b).0 e),
      λ (s, ss). (all_equal_iff a b).1 ss,
    )
  ]

  all_known_iff :
      (b a : Map S.Set) → (all_known S b a ≡ true) ↔ All (λ e. is_some (lookup e.0 a) ≡ true) b
  unfolding all_known
  all_known_iff [] a = ground arith
  all_known_iff ((k, v) ∷ b) a = ground (arith, all_known_iff b a)

  abbrev Same : Map S.Set → Map S.Set → Type 0
  Same a b = (k : String) → SameSet S (lookup k a) (lookup k b)

  covered_is_same :
      (o p : Option S.Set)
      → ((v : S.Set) → o ≡ some v → SameSet S (some v) p)
      → ((v : S.Set) → p ≡ some v → is_some o ≡ true)
      → SameSet S o p
  covered_is_same none none f g = tt
  covered_is_same none (some b) f g = absurd (false≢true (g b refl))
  covered_is_same (some a) p f g = f a refl

  same_is_some : (o p : Option S.Set) (v : S.Set) → SameSet S o p → p ≡ some v → is_some o ≡ true
  same_is_some none none v s e = ground (arith, e)
  same_is_some none (some b) v s e = absurd s
  same_is_some (some a) p v s e = refl

  same_some : (o p : Option S.Set) (v : S.Set) → SameSet S o p → o ≡ some v → SameSet S (some v) p
  same_some o p v s e = rw e at s

  some_present : (v : S.Set) (o : Option S.Set) → SameSet S (some v) o → (w : S.Set) × (o ≡ some w)
  some_present v none t = absurd t
  some_present v (some w) t = (w, refl)

  Same-within : (a b : Map S.Set) → Same a b → KeysWithin a b
  Same-within a b s k v at_k = some_present v (lookup k b) (same_some _ _ v (s k) at_k)

  SameSet-sym : (o p : Option S.Set) → SameSet S o p → SameSet S p o
  SameSet-sym none none s = tt
  SameSet-sym (some a) (some b) s = λ x. sym (s x)
  SameSet-sym none (some b) s = absurd s
  SameSet-sym (some a) none s = absurd s

  Same-length : (a b : Map S.Set) → Unique a → Unique b → Same a b → length a ≡ length b
  Same-length a b u t s = omega (
    arith,
    length_within a b u t (Same-within a b s),
    length_within b a t u (Same-within b a (λ k. SameSet-sym _ _ (s k))),
  )

  loops_iff :
      (a b : Map S.Set)
      → Unique a
      → Unique b
      → ((all_equal S a b ≡ true) × (all_known S b a ≡ true)) ↔ Same a b
  loops_iff a b u t = (
    λ (e, k) j.
        covered_is_same (lookup j a) (lookup j b)
          (λ v at_j. All-lookup _ j v a ((all_equal_iff a b).0 e) at_j)
          (λ v at_j. All-lookup _ j v b ((all_known_iff b a).0 k) at_j),
    λ s. (
      (all_equal_iff a b).1 (All-found _ a u λ k v at_k. same_some _ _ v (s k) at_k),
      (all_known_iff b a).1 (All-found _ b t λ k v at_k. same_is_some _ _ v (s k) at_k),
    ),
  )

  tests :
      (a b : Map S.Set)
      → deep_equal_sets S a b ≡ true
      → ((length a ≡ 0) × (length b ≡ 0)) ⊎ ((all_equal S a b ≡ true) × (all_known S b a ≡ true))
  unfolding deep_equal_sets
  tests a b e = ground (arith, e)

  empty-Same : (a b : Map S.Set) → length a ≡ 0 → length b ≡ 0 → Same a b
  unfolding lookup
  empty-Same [] [] no_a no_b = λ k. tt
  empty-Same (x ∷ a) b no_a no_b = absurd (omega (arith, no_a))
  empty-Same [] (x ∷ b) no_a no_b = absurd (omega (arith, no_b))

-- Two dictionaries, without repeated hosts, are reported equal exactly when they have the same hosts
-- and each host has the same IPs in both, in any order.
pub deep_equal_sets_iff :
    (S : Sets) (a b : Map S.Set)
    → Unique a
    → Unique b
    → (deep_equal_sets S a b ≡ true) ↔ ((k : String) → SameSet S (lookup k a) (lookup k b))
unfolding deep_equal_sets
deep_equal_sets_iff S a b u t = (
  λ e. elim (tests S a b e) [
    | inl (no_a, no_b) ↦ empty-Same S a b no_a no_b
    | inr loops ↦ (loops_iff S a b u t).0 loops
  ],
  λ s. ground (arith, Same-length S a b u t s, (loops_iff S a b u t).1 s),
)
