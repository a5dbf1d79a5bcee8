-- ===== src/Prelude/Maps.antt =====
-- Go's maps with string keys: association lists. The order of the entries is the order in which a
-- `range` loop meets them; what is proved for every list holds for every order.
use Prim.Native.Nat.{◌+◌}
use Prim.Native.String.{String}
use mathlib.Core.Path.{◌≡◌, refl}
use mathlib.Core.Bool.{Bool, true, false}
use mathlib.Core.Option.{Option, none, some}
use mathlib.Core.List.{List, [], ◌∷◌}
use native.Mathlib.Omega.{arith}
use text.Mathlib.Text.{◌==◌}
use text.Mathlib.TextEquality.{eq_iff}
use etcdauto.Prelude.Tests.{if◌then◌else◌}
use etcdauto.Prelude.Lists.{length}

abbrev pub Map {ℓ} : Type ℓ → Type ℓ
Map V = List (String × V)

abbrev pub is_some {ℓ} : {A : Type ℓ} → Option A → Bool
is_some none = false
is_some (some a) = true

module _ {ℓ} {V : Type ℓ} where
  -- delete(m, k)
  unfoldable pub delete : String → Map V → Map V
  delete k [] = []
  delete k ((j, w) ∷ m) = let rest = delete k m in if j == k then rest else (j, w) ∷ rest

  -- m[k] = v
  unfoldable pub insert : String → V → Map V → Map V
  insert key new [] = (key, new) ∷ []
  insert key new (entry ∷ m) =
      let later = insert key new m in if entry.0 == key then (key, new) ∷ m else entry ∷ later

  -- v, ok := m[k]
  unfoldable pub lookup : String → Map V → Option V
  lookup key [] = none
  lookup key (entry ∷ m) =
      let later = lookup key m in if entry.0 == key then some entry.1 else later

  pub lookup-insert :
      (key other : String) (new : V) (m : Map V)
      → lookup other (insert key new m) ≡ (if key == other then some new else lookup other m)
  unfolding insert lookup
  lookup-insert key other new [] = refl
  lookup-insert key other new (entry ∷ m) =
      let ih = lookup-insert key other new m in
      ground (arith, ih, eq_iff entry.0 key, eq_iff entry.0 other, eq_iff key other)

  pub lookup-delete :
      (k j : String) (m : Map V) → lookup j (delete k m) ≡ (if k == j then none else lookup j m)
  unfolding lookup delete
  lookup-delete k j [] = ground arith
  lookup-delete k j ((i, w) ∷ m) =
      ground (arith, eq_iff k j, eq_iff i k, eq_iff i j, lookup-delete k j m)

  -- No key is listed twice.
  abbrev pub Unique : Map V → Type ℓ
  Unique [] = Unit
  Unique ((k, v) ∷ m) = (lookup k m ≡ none) × Unique m

  pub Unique-insert : (k : String) (v : V) (m : Map V) → Unique m → Unique (insert k v m)
  unfolding insert lookup
  Unique-insert k v [] h = (refl, tt)
  Unique-insert k v ((j, w) ∷ m) h =
      ground (arith, eq_iff j k, eq_iff k j, lookup-insert k j v m, Unique-insert k v m h.1)

  pub Unique-delete : (k : String) (m : Map V) → Unique m → Unique (delete k m)
  unfolding delete
  Unique-delete k [] h = tt
  Unique-delete k ((j, w) ∷ m) h =
      ground (arith, eq_iff j k, eq_iff k j, lookup-delete k j m, Unique-delete k m h.1)

  length-delete_absent :
      (k : String) (m : Map V) → lookup k m ≡ none → length (delete k m) ≡ length m
  unfolding delete lookup
  length-delete_absent k [] h = refl
  length-delete_absent k ((j, w) ∷ m) h = ground (arith, length-delete_absent k m)

  pub length-delete :
      (k : String) (v : V) (m : Map V)
      → Unique m
      → lookup k m ≡ some v
      → length (delete k m) + 1 ≡ length m
  unfolding delete lookup
  length-delete k v [] h e = cc
  length-delete k v ((j, w) ∷ m) h e =
      ground (arith, eq_iff j k, length-delete_absent k m, length-delete k v m h.1)

module _ {ℓ κ} {V : Type ℓ} {W : Type κ} where
  -- Every key of the one map is a key of the other.
  abbrev pub KeysWithin : Map V → Map W → Type (ℓ ⊔ κ)
  KeysWithin a b = (k : String) (v : V) → lookup k a ≡ some v → (w : W) × (lookup k b ≡ some w)
