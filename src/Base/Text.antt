-- ===== src/Base/Text.antt =====
-- Python's operations on strings that the sources use.

use Prim.Native.Char.{Char, code}
use Prim.Native.String.{String}
use mathlib.Core.Path.{◌≡◌}
use mathlib.Core.Logic.{◌≢◌}
use mathlib.Core.Bool.{Bool, true, false, ◌&&◌, ◌||◌}
use mathlib.Core.Option.{none, some}
use mathlib.Core.List.{List, [], ◌∷◌}
use native.Mathlib.Omega.{arith}
use text.Mathlib.Text.{◌==◌, find?}
use text.Mathlib.TextEquality.{eq_iff}
use autonomous_executive_ema.Base.Tests.{leb, ◌==◌ as nat_eq, if◌then◌else◌}

-- `needle in text`.
unfoldable pub contains : String → String → Bool
contains needle text = elim (find? text needle) [ none ↦ false | some i ↦ true ]

-- `k in {…}` and `k in […]` on strings.
unfoldable pub elem : String → List String → Bool
elem k [] = false
elem k (x ∷ xs) = x == k || elem k xs

pub elem-cons_self : (k : String) (xs : List String) → elem k (k ∷ xs) ≡ true
unfolding elem
elem-cons_self k xs = ground (arith, eq_iff k k)

-- Truth of a string: it is not empty.
abbrev pub truthy : String → Bool
truthy s = if s == "" then false else true

pub str_eq_false : (s t : String) → s ≢ t → (s == t) ≡ false
str_eq_false s t h = ground (arith, eq_iff s t)

pub str_eq_true : (s t : String) → (s == t) ≡ true → s ≡ t
str_eq_true s t h = ground (arith, eq_iff s t)

-- The characters that `str.strip()` takes off.
unfoldable pub is_space : Char → Bool
is_space ch =
    let c = code ch in
    (leb 9 c && leb c 13)
    || (leb 28 c && leb c 32)
    || nat_eq c 133
    || nat_eq c 160
    || nat_eq c 5760
    || (leb 8192 c && leb c 8202)
    || nat_eq c 8232
    || nat_eq c 8233
    || nat_eq c 8239
    || nat_eq c 8287
    || nat_eq c 12288

unfoldable pub lstrip : String → String
unfolding is_space
lstrip String.[] = ""
lstrip (String.◌∷◌ c s) = let rest = lstrip s in if is_space c then rest else String.◌∷◌ c s

unfoldable pub rstrip : String → String
unfolding is_space
rstrip String.[] = ""
rstrip (String.◌∷◌ c s) =
    let rest = rstrip s in if is_space c && rest == "" then "" else String.◌∷◌ c rest

-- `s.strip()`.
unfoldable pub strip : String → String
unfolding lstrip rstrip
strip s = rstrip (lstrip s)

-- `s.replace("_", " ")`.
unfoldable pub spaced : String → String
spaced String.[] = ""
spaced (String.◌∷◌ c s) =
    let space : Char = " " in String.◌∷◌ (if nat_eq (code c) b'_' then space else c) (spaced s)
