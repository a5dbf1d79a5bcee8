-- ===== src/Prelude/Text.antt =====
-- The functions of Go's package `strings` that the program calls, on texts as lists of characters.
use Prim.Native.Nat.{ℕ}
use Prim.Native.Char.{Char, code}
use Prim.Native.String.{String, ◌++◌}
use mathlib.Core.Path.{◌≡◌, refl}
use mathlib.Core.Bool.{Bool, true, ◌||◌, ◌&&◌}
use mathlib.Core.List.{List, [], ◌∷◌}
use native.Mathlib.Omega.{arith}
use text.Mathlib.Text.{starts_with, ◌==◌}
use text.Mathlib.TextLemmas.{cons-append, nil-append}
use text.Mathlib.TextPositions.{starts_with-append}
use etcdauto.Prelude.Tests.{leb, eqb, if◌then◌else◌}

-- strings.Contains
unfoldable pub contains : String → String → Bool
contains String.[] t = starts_with "" t
contains (String.◌∷◌ c s) t = starts_with (String.◌∷◌ c s) t || contains s t

contains-prefix : (s t : String) → starts_with s t ≡ true → contains s t ≡ true
unfolding contains
contains-prefix String.[] t h = h
contains-prefix (String.◌∷◌ c s) t h = ground arith

-- A text contains what stands anywhere in it.
pub contains-append : (p t u : String) → contains (p ++ (t ++ u)) t ≡ true
unfolding contains
contains-append String.[] t u = rw nil-append (contains-prefix (t ++ u) t (starts_with-append t u))
contains-append (String.◌∷◌ c p) t u = rw cons-append (ground (arith, contains-append p t u))

prepend : Char → List String → List String
prepend c [] = String.◌∷◌ c String.[] ∷ []
prepend c (x ∷ xs) = String.◌∷◌ c x ∷ xs

-- strings.Split with a separator of one character
unfoldable pub split : ℕ → String → List String
unfolding prepend
split sep String.[] = "" ∷ []
split sep (String.◌∷◌ c s) =
    let rest = split sep s in if eqb (code c) sep then "" ∷ rest else prepend c rest

-- unicode.IsSpace
is_space : ℕ → Bool
is_space c =
    (leb 9 c && leb c 13)
    || eqb c 32
    || eqb c 0x85
    || eqb c 0xa0
    || eqb c 0x1680
    || (leb 0x2000 c && leb c 0x200a)
    || eqb c 0x2028
    || eqb c 0x2029
    || eqb c 0x202f
    || eqb c 0x205f
    || eqb c 0x3000

trim_left : String → String
unfolding is_space
trim_left String.[] = ""
trim_left (String.◌∷◌ c s) =
    let rest = trim_left s in if is_space (code c) then rest else String.◌∷◌ c s

trim_right : String → String
unfolding is_space
trim_right String.[] = ""
trim_right (String.◌∷◌ c s) =
    let rest = trim_right s in if is_space (code c) && rest == "" then "" else String.◌∷◌ c rest

-- strings.TrimSpace
unfoldable pub trim_space : String → String
unfolding trim_left trim_right
trim_space s = trim_right (trim_left s)

-- strings.Join
unfoldable pub join : String → List String → String
join sep [] = ""
join sep (x ∷ []) = x
join sep (x ∷ y ∷ xs) = x ++ (sep ++ join sep (y ∷ xs))

split_example : split b',' "10.0.0.1, 10.0.0.2" ≡ "10.0.0.1" ∷ " 10.0.0.2" ∷ []
unfolding split
split_example = refl

trim_space_example : trim_space "  a b " ≡ "a b"
unfolding trim_space
trim_space_example = refl

join_example : join "," ("a" ∷ "b" ∷ []) ≡ "a,b"
unfolding join
join_example = refl
