-- ===== src/Base/Split.antt =====
-- `s.split(c)` for one character, which is given by its code.
use Prim.Native.Nat.{ℕ}
use Prim.Native.Char.{Char, code}
use Prim.Native.String.{String, ◌++◌}
use Prim.Native.String.append.{nil as append_nil, cons as append_cons}
use mathlib.Core.Path.{◌≡◌, refl, ap, ◌∙◌}
use mathlib.Core.Logic.{◌≢◌}
use mathlib.Core.Bool.{Bool, true, false, not, ◌&&◌}
use mathlib.Core.List.{List, [], ◌∷◌}
use native.Mathlib.Omega.{arith}
use autonomous_executive_ema.Base.Text.{truthy, str_eq_false}
use autonomous_executive_ema.Base.Tests.{◌==◌, if◌then◌else◌}

-- A character before the first part.
abbrev pub prepend : Char → List String → List String
prepend x [] = String.◌∷◌ x "" ∷ []
prepend x (part ∷ parts) = String.◌∷◌ x part ∷ parts

unfoldable pub split_on : ℕ → String → List String
split_on c String.[] = "" ∷ []
split_on c (String.◌∷◌ x s) =
    let rest = split_on c s in if code x == c then "" ∷ rest else prepend x rest

-- No character of the text has the code.
unfoldable pub lacks : ℕ → String → Bool
lacks c String.[] = true
lacks c (String.◌∷◌ x s) = not (code x == c) && lacks c s

lacks_first : (b r : Bool) → (not b && r) ≡ true → (b ≡ false) × (r ≡ true)
lacks_first b r h = ground (arith, h)

same_code : (n : ℕ) → (n == n) ≡ true
same_code n = ground arith

-- A separator ends the first part, and a text without one is a single part.
pub split_on-append :
    (x : Char) (s t : String)
    → lacks (code x) s ≡ true
    → split_on (code x) (s ++ String.◌∷◌ x t) ≡ s ∷ split_on (code x) t
unfolding split_on lacks
split_on-append x String.[] t h =
    ap (split_on (code x)) (append_nil (String.◌∷◌ x t)) ∙ rw (same_code (code x)) refl
split_on-append x (String.◌∷◌ y s) t h =
    let (here, rest) = lacks_first (code y == code x) (lacks (code x) s) h in
    ap (split_on (code x)) (append_cons y s (String.◌∷◌ x t))
    ∙ rw (here, split_on-append x s t rest) refl

-- A text of one character before another text.
pub append-one : (x : Char) (t : String) → String.◌∷◌ x "" ++ t ≡ String.◌∷◌ x t
append-one x t = append_cons x "" t ∙ ap (String.◌∷◌ x) (append_nil t)

pub split_on-join :
    (x : Char) (s t : String)
    → lacks (code x) s ≡ true
    → split_on (code x) (s ++ (String.◌∷◌ x "" ++ t)) ≡ s ∷ split_on (code x) t
split_on-join x s t h =
    ap (λ u. split_on (code x) (s ++ u)) (append-one x t) ∙ split_on-append x s t h

pub split_on-lacks : (c : ℕ) (s : String) → lacks c s ≡ true → split_on c s ≡ s ∷ []
unfolding split_on lacks
split_on-lacks c String.[] h = refl
split_on-lacks c (String.◌∷◌ y s) h =
    let (here, rest) = lacks_first (code y == c) (lacks c s) h in
    rw (here, split_on-lacks c s rest) refl

abbrev begins : String → Bool
begins String.[] = false
begins (String.◌∷◌ c s) = true

nonempty : (c : Char) (s : String) → String.◌∷◌ c s ≢ ""
nonempty c s h = ground (arith, ap begins h)

-- A text with a character is true.
pub truthy-cons : (c : Char) (s : String) → truthy (String.◌∷◌ c s) ≡ true
truthy-cons c s = rw (str_eq_false (String.◌∷◌ c s) "" (nonempty c s)) refl
