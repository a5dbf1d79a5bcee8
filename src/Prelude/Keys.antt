-- ===== src/Prelude/Keys.antt =====
-- Counting the keys of maps: a map with no more entries than the keys it must have has no others.
use Prim.Native.Nat.{◌≤◌}
use Prim.Native.String.{String}
use mathlib.Core.Path.{◌≡◌, refl, subst}
use mathlib.Core.Logic.{inl, inr}
use mathlib.Core.Option.{none, some}
use mathlib.Core.List.{[], ◌∷◌}
use native.Mathlib.Omega.{arith}
use text.Mathlib.Text.{◌==◌}
use text.Mathlib.TextEquality.{eq_iff}
use text.Mathlib.TextPositions.{eq_refl}
use etcdauto.Prelude.Tests.{Bool-cases}
use etcdauto.Prelude.Lists.{length, All}
use etcdauto.Prelude.Maps.{
  Map, lookup, delete, Unique, KeysWithin, Unique-delete, length-delete, lookup-delete,
}

module _ {ℓ κ} {V : Type ℓ} {W : Type κ} where
  KeysWithin-delete :
      (k : String) (v : V) (a : Map V) (b : Map W)
      → Unique ((k, v) ∷ a)
      → KeysWithin ((k, v) ∷ a) b
      → KeysWithin a (delete k b)
  unfolding lookup
  KeysWithin-delete k v a b u within j x at_j = elim (Bool-cases (k == j)) [
    | inl same ↦ ground (arith, eq_iff k j, same, u.0, at_j)
    | inr other ↦
        let (y, at_b) = within j x (rw other at_j) in (y, rw (lookup-delete k j b) (rw other at_b))
  ]

  pub length_within :
      (a : Map V) (b : Map W) → Unique a → Unique b → KeysWithin a b → length a ≤ length b
  unfolding lookup
  length_within [] b u t within = omega arith
  length_within ((k, v) ∷ a) b u t within =
      let (y, at_b) = within k v (rw (eq_refl k) refl) in
      omega (
        arith,
        length-delete k y b t at_b,
        length_within a (delete k b) u.1 (Unique-delete k b t) (KeysWithin-delete k v a b u within),
      )

  pub KeysWithin-back :
      (a : Map V) (b : Map W)
      → Unique a
      → Unique b
      → KeysWithin a b
      → length b ≤ length a
      → KeysWithin b a
  unfolding lookup
  KeysWithin-back [] [] u t within le j y at_j = ground (arith, at_j)
  KeysWithin-back [] (e ∷ b) u t within le j y at_j = absurd (omega (arith, le))
  KeysWithin-back ((k, v) ∷ a) b u t within le j y at_j =
      let (z, at_b) = within k v (rw (eq_refl k) refl) in
      let ih =
        KeysWithin-back a (delete k b) u.1 (Unique-delete k b t)
          (KeysWithin-delete k v a b u within) (omega (arith, length-delete k z b t at_b)) in
      elim (Bool-cases (k == j)) [
        | inl same ↦ rw same (v, refl)
        | inr other ↦
            let at_rest : lookup j (delete k b) ≡ some y =
              rw (lookup-delete k j b) (rw other at_j) in
            rw other (ih j y at_rest)
      ]

module _ {ℓ} {V : Type ℓ} (P : String × V → Type 0) where
  -- What holds of all entries holds of what is found, and conversely where no key is listed twice.
  pub All-lookup : (k : String) (v : V) (m : Map V) → All P m → lookup k m ≡ some v → P (k, v)
  unfolding lookup
  All-lookup k v [] all at_k = ground (arith, at_k)
  All-lookup k v ((j, w) ∷ m) (p, ps) at_k = elim (Bool-cases (j == k)) [
    | inl same ↦
        subst (λ o. elim o [ none ↦ Unit | some x ↦ P (k, x) ]) (rw same at at_k)
          (subst (λ x. P (x, w)) ((eq_iff j k).0 same) p)
    | inr other ↦ All-lookup k v m ps (rw other at at_k)
  ]

  pub All-found :
      (m : Map V) → Unique m → ((k : String) (v : V) → lookup k m ≡ some v → P (k, v)) → All P m
  unfolding lookup
  All-found [] u found = tt
  All-found ((k, v) ∷ m) (fresh, u) found = (
    found k v (rw (eq_refl k) refl),
    All-found m u (λ j w at_j. elim (Bool-cases (k == j)) [
      | inl same ↦ ground (arith, eq_iff k j, same, fresh, at_j)
      | inr other ↦ found j w (rw other at_j)
    ]),
  )
