-- ===== src/Certs/Manager/Comparing.antt =====
-- `mapsEqual` decides whether two maps hold the same entries.
use etcdauto.Prelude.{
  String, ◌≡◌, refl, sym, ◌∙◌, ◌↔◌, inl, inr, true, Option, none, some, Map, lookup, Unique,
  KeysWithin, KeysWithin-back, length_within, [], ◌∷◌, length, eqb, eqb_iff, eq_iff, eq_refl, arith,
  Bool-cases, ◌==◌,
}
use etcdauto.Certs.Crypto.{Crypto}
use etcdauto.Certs.Manager.{maps_equal, values_equal, same_value}

none≢some {ℓ κ} : {A : Type ℓ} {B : Type κ} (o : Option A) (a : A) → o ≡ none → o ≡ some a → B
none≢some o a e f = ground (arith, e, f)

module _ (C : Crypto) where
  same_value_iff : (v : C.Bytes) (o : Option C.Bytes) → (same_value C v o ≡ true) ↔ (o ≡ some v)
  unfolding same_value
  same_value_iff v none = ground arith
  same_value_iff v (some w) = ground (arith, C.bytes_equal_iff v w)

  values_equal-lookup :
      (a b : Map C.Bytes) (k : String) (v : C.Bytes)
      → values_equal C a b ≡ true
      → lookup k a ≡ some v
      → lookup k b ≡ some v
  unfolding values_equal lookup
  values_equal-lookup [] b k v h at_k = ground (arith, at_k)
  values_equal-lookup ((j, w) ∷ a) b k v h at_k =
      let ih = values_equal-lookup a b k v in
      ground (arith, h, at_k, ih, eq_iff j k, same_value_iff w (lookup j b))

  same-values_equal :
      (a b : Map C.Bytes)
      → Unique a
      → ((k : String) (v : C.Bytes) → lookup k a ≡ some v → lookup k b ≡ some v)
      → values_equal C a b ≡ true
  unfolding values_equal lookup
  same-values_equal [] b u same = refl
  same-values_equal ((j, w) ∷ a) b (fresh, u) same =
      let here = (same_value_iff w (lookup j b)).1 (same j w (rw (eq_refl j) refl)) in
      let rest = same-values_equal a b u (λ k v at_k. elim (Bool-cases (j == k)) [
        | inl e ↦ none≢some (lookup j a) v fresh (rw ((eq_iff j k).0 e) at_k)
        | inr e ↦ same k v (rw e at_k)
      ]) in
      rw here rest

  agree :
      (o p : Option C.Bytes)
      → ((v : C.Bytes) → o ≡ some v → p ≡ some v)
      → ((w : C.Bytes) → p ≡ some w → (v : C.Bytes) × (o ≡ some v))
      → o ≡ p
  agree none none f g = refl
  agree none (some w) f g = let (v, e) = g w refl in none≢some none v refl e
  agree (some v) p f g = sym (f v refl)

  -- Two maps, in which no key is listed twice, are equal for mapsEqual exactly when every key has the
  -- same value in both, or is in neither.
  pub maps_equal_iff :
      (a b : Map C.Bytes)
      → Unique a
      → Unique b
      → (maps_equal C a b ≡ true) ↔ ((k : String) → lookup k a ≡ lookup k b)
  unfolding maps_equal
  maps_equal_iff a b u t = (
    (λ h k.
        let lengths : eqb (length a) (length b) ≡ true = ground (arith, h) in
        let values : values_equal C a b ≡ true = ground (arith, h) in
        let within : KeysWithin a b = (λ j v at_j. (v, values_equal-lookup a b j v values at_j)) in
        let same = (eqb_iff (length a) (length b)).0 lengths in
        agree (lookup k a) (lookup k b) (λ v. values_equal-lookup a b k v values)
          (KeysWithin-back a b u t within (omega (arith, same)) k)),
    (λ same.
        let le = length_within a b u t (λ k v at_k. (v, sym (same k) ∙ at_k)) in
        let ge = length_within b a t u (λ k v at_k. (v, same k ∙ at_k)) in
        let lengths = (eqb_iff (length a) (length b)).1 (omega (arith, le, ge)) in
        let values = same-values_equal a b u (λ k v at_k. sym (same k) ∙ at_k) in
        rw lengths values),
  )
