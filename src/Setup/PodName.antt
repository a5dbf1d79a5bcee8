-- ===== src/Setup/PodName.antt =====
-- `parsePodName` of cmd/etcdcluster/main.go: the regular expression ^(.*)-(\d+)$ on names without a
-- line break, and strconv.Atoi on a text of digits.
use Prim.Native.Char.{Char, code}
use text.Mathlib.TextLemmas.{cons-append, nil-append}
use etcdauto.Prelude.{
  ℕ, ◌+◌, ◌-◌, ◌*◌, ◌<◌, String, ◌⧺◌, ◌≡◌, refl, ◌≢◌, Bool, true, not, ◌&&◌, Option, none, some,
  arith, leb, ltb, eqb, ◌==◌, eq_iff, if◌then◌else◌,
}

-- What stands before and after the last dash
with_first : Char → String → Option (String × String) → Option (String × String)
with_first c s none = if eqb (code c) b'-' then some ("", s) else none
with_first c s (some (before, after)) = some (String.◌∷◌ c before, after)

unfoldable last_dash : String → Option (String × String)
unfolding with_first
last_dash String.[] = none
last_dash (String.◌∷◌ c s) = with_first c s (last_dash s)

unfoldable pub all_digits : String → Bool
all_digits String.[] = true
all_digits (String.◌∷◌ c s) = (leb b'0' (code c) && leb (code c) b'9') && all_digits s

unfoldable pub number_of : ℕ → String → ℕ
number_of acc String.[] = acc
number_of acc (String.◌∷◌ c s) = number_of (acc * 10 + (code c - b'0')) s

-- The largest int, 2^63 - 1
abbrev pub max_int : ℕ
max_int = 9223372036854775807

unfoldable indexed : Option (String × String) → Option (String × ℕ)
unfolding all_digits number_of
indexed none = none
indexed (some (prefix, index)) =
    if index == ""
    then none
    else if not (all_digits index)
    then none
    else if ltb max_int (number_of 0 index)
    then none
    else some (prefix, number_of 0 index)

unfoldable pub parse_pod_name : String → Option (String × ℕ)
unfolding last_dash indexed
parse_pod_name name = indexed (last_dash name)

last_dash-digits : (d : String) → all_digits d ≡ true → last_dash d ≡ none
unfolding all_digits last_dash with_first
last_dash-digits String.[] e = refl
last_dash-digits (String.◌∷◌ c d) e =
    rw (last_dash-digits d (ground (arith, e))) (ground (arith, e))

dash_append : (d : String) → "-" ⧺ d ≡ String.◌∷◌ "-" d
dash_append d = rw cons-append (rw nil-append refl)

last_dash-append : (p d : String) → all_digits d ≡ true → last_dash (p ⧺ ("-" ⧺ d)) ≡ some (p, d)
unfolding last_dash with_first
last_dash-append String.[] d e = rw nil-append (rw (dash_append d) (rw (last_dash-digits d e) refl))
last_dash-append (String.◌∷◌ c p) d e =
    rw (cons-append c p ("-" ⧺ d)) (rw (last_dash-append p d e) refl)

-- A pod name that a stateful set gives, with any prefix, dashes included, and an index that fits into
-- an int, is parsed into that prefix and that index.
pub parse_pod_name-append :
    (prefix index : String)
    → index ≢ ""
    → all_digits index ≡ true
    → number_of 0 index < max_int + 1
    → parse_pod_name (prefix ⧺ ("-" ⧺ index)) ≡ some (prefix, number_of 0 index)
unfolding parse_pod_name indexed
parse_pod_name-append prefix index some_digits digits fits =
    rw (last_dash-append prefix index digits)
      (ground (arith, eq_iff index "", some_digits, digits, fits))
