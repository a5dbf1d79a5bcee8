-- ===== src/Controller/ConfigMaps/Texts.antt =====
-- A list of texts without the separator is joined and split again.
use Prim.Native.Char.{Char, code}
use text.Mathlib.TextLemmas.{cons-append, nil-append}
use etcdauto.Prelude.{
  String, ◌⧺◌, ◌≡◌, refl, ap, ◌∙◌, Bool, true, false, not, ◌&&◌, List, [], ◌∷◌, All, split, join,
  eqb, arith,
}

-- The separator, a comma, does not occur.
unfoldable pub no_comma : String → Bool
no_comma String.[] = true
no_comma (String.◌∷◌ c s) = not (eqb (code c) b',') && no_comma s

false_of : {b : Bool} → not b ≡ true → b ≡ false
false_of h = ground (arith, h)

left_of : (p q : Bool) → (p && q) ≡ true → p ≡ true
left_of p q h = ground (arith, h)

right_of : (p q : Bool) → (p && q) ≡ true → q ≡ true
right_of p q h = ground (arith, h)

split-char :
    (c : Char) (s x : String) (xs : List String)
    → eqb (code c) b',' ≡ false
    → split b',' s ≡ x ∷ xs
    → split b',' (String.◌∷◌ c s) ≡ String.◌∷◌ c x ∷ xs
unfolding split
split-char c s x xs other h = rw other (rw h refl)

split-word : (s : String) → no_comma s ≡ true → split b',' s ≡ s ∷ []
unfolding no_comma split
split-word String.[] h = refl
split-word (String.◌∷◌ c s) h =
    split-char c s s [] (false_of (left_of _ _ h)) (split-word s (right_of _ _ h))

split-comma : (t : String) → split b',' ("," ⧺ t) ≡ "" ∷ split b',' t
unfolding split
split-comma t = ap (split b',') (cons-append _ "" t) ∙ ap (λ u. "" ∷ split b',' u) (nil-append t)

split-append : (s t : String) → no_comma s ≡ true → split b',' (s ⧺ ("," ⧺ t)) ≡ s ∷ split b',' t
unfolding no_comma
split-append String.[] t h = ap (split b',') (nil-append ("," ⧺ t)) ∙ split-comma t
split-append (String.◌∷◌ c s) t h =
    ap (split b',') (cons-append c s ("," ⧺ t))
    ∙ split-char c (s ⧺ ("," ⧺ t)) s (split b',' t) (false_of (left_of _ _ h))
        (split-append s t (right_of _ _ h))

-- Texts without a comma are found again in the joined text, if there is one at all.
pub split-join :
    (x : String) (xs : List String)
    → All (λ s. no_comma s ≡ true) (x ∷ xs)
    → split b',' (join "," (x ∷ xs)) ≡ x ∷ xs
unfolding join
split-join x [] (h, all) = split-word x h
split-join x (y ∷ ys) (h, all) =
    split-append x (join "," (y ∷ ys)) h ∙ ap (λ l. x ∷ l) (split-join y ys all)
