-- ===== src/Controller/Sets.antt =====
-- Package sets of k8s.io/apimachinery, which is third-party code: its operations, and what it
-- documents of them. A list of texts is one implementation, which shows that the laws can hold.
use etcdauto.Prelude.{
  any, ℕ, String, ◌≡◌, refl, ◌↔◌, Bool, true, false, ◌&&◌, ◌||◌, List, [], ◌∷◌, arith, ◌==◌, eq_iff,
  eq_refl, subst, sym, ◌∙◌, length, inl, inr, Bool-cases, if◌then◌else◌,
}

pub record Sets : Type 1 where
  pub Set : Type 0
  pub new : Set
  pub insert : Set → String → Set
  pub clone : Set → Set
  pub len : Set → ℕ
  pub has : Set → String → Bool
  pub equal : Set → Set → Bool
  pub unsorted_list : Set → List String
  pub equal_iff : (a b : Set) → (equal a b ≡ true) ↔ ((x : String) → has a x ≡ has b x)
  pub has_new : (x : String) → has new x ≡ false
  pub has_insert : (a : Set) (y x : String) → has (insert a y) x ≡ (y == x || has a x)
  pub unsorted_has : (a : Set) (x : String) → any (λ y. y == x) (unsorted_list a) ≡ has a x
  pub has_clone : (a : Set) (x : String) → has (clone a) x ≡ has a x

-- Sets as lists of their members
pub has_member : List String → String → Bool
has_member [] x = false
has_member (y ∷ ys) x = y == x || has_member ys x

pub add_member : List String → String → List String
unfolding has_member
add_member xs x = if has_member xs x then xs else x ∷ xs

pub within : List String → List String → Bool
unfolding has_member
within [] ys = true
within (x ∷ xs) ys = has_member ys x && within xs ys

within_iff :
    (xs ys : List String)
    → (within xs ys ≡ true) ↔ ((x : String) → has_member xs x ≡ true → has_member ys x ≡ true)
unfolding within has_member
within_iff [] ys = (λ e x at_x. ground (arith, at_x), λ f. refl)
within_iff (z ∷ xs) ys = (
  λ e x at_x. elim (Bool-cases (z == x)) [
    | inl same ↦ ground (arith, eq_iff z x, e, same)
    | inr other ↦ (within_iff xs ys).0 (ground (arith, e)) x (ground (arith, at_x, other))
  ],
  λ f. ground (arith, f z, eq_refl z, (within_iff xs ys).1 (λ x at_x. f x (ground (arith, at_x)))),
)

same_members : (p q : Bool) → (p ≡ true → q ≡ true) → (q ≡ true → p ≡ true) → p ≡ q
same_members p q f g = ground (arith, f, g)

pub list_equal_iff :
    (a b : List String)
    → ((within a b && within b a) ≡ true) ↔ ((x : String) → has_member a x ≡ has_member b x)
list_equal_iff a b = (
  λ e x.
      same_members (has_member a x) (has_member b x) ((within_iff a b).0 (ground (arith, e)) x)
        ((within_iff b a).0 (ground (arith, e)) x),
  λ f. ground (
    arith,
    (within_iff a b).1 (λ x at_x. sym (f x) ∙ at_x),
    (within_iff b a).1 (λ x at_x. f x ∙ at_x),
  ),
)

pub any-has_member : (xs : List String) (x : String) → any (λ y. y == x) xs ≡ has_member xs x
unfolding has_member
any-has_member [] x = refl
any-has_member (y ∷ ys) x = rw (any-has_member ys x) refl

pub has-add_member :
    (xs : List String) (y x : String) → has_member (add_member xs y) x ≡ (y == x || has_member xs x)
unfolding add_member has_member
has-add_member xs y x = elim (Bool-cases (has_member xs y)) [
  | inl there ↦ rw there (elim (Bool-cases (y == x)) [
    | inl same ↦ rw same (subst (λ z. has_member xs z ≡ true) ((eq_iff y x).0 same) there)
    | inr other ↦ rw other refl
  ])
  | inr absent ↦ rw absent refl
]

unfoldable pub list_sets : Sets
unfolding has_member add_member within
list_sets = record {
  Set = List String;
  new = [];
  insert = add_member;
  clone = λ a. a;
  len = length;
  has = has_member;
  equal = λ a b. within a b && within b a;
  unsorted_list = λ a. a;
  equal_iff = list_equal_iff;
  has_new = λ x. refl;
  has_insert = has-add_member;
  unsorted_has = any-has_member;
  has_clone = λ a x. refl;
}
