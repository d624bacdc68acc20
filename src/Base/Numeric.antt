-- ===== src/Base/Numeric.antt =====
-- Python's floats: their operations are those of the machine, so they are a parameter, and `max` and
-- `min` are what Python makes of the comparison.
use Prim.Native.Nat.{ℕ, ◌*◌}
use mathlib.Core.Path.{◌≡◌}
use mathlib.Core.Bool.{Bool, true, false}
use autonomous_executive_ema.Base.Tests.{if◌then◌else◌, Bool-cases}
use mathlib.Core.Logic.{inl, inr}

-- `millionths n` is the literal n / 1000000; `round x d` is `round(x, d)`.
pub record Floats : Type 1 where
  pub Float : Type 0
  pub millionths : ℕ → Float
  pub neg : Float → Float
  pub add : Float → Float → Float
  pub sub : Float → Float → Float
  pub mul : Float → Float → Float
  pub div : Float → Float → Float
  pub lt : Float → Float → Bool
  pub eq : Float → Float → Bool
  pub is_finite : Float → Bool
  pub round : Float → ℕ → Float

module _ (F : Floats) where
  -- n / 100, and n itself.
  abbrev pub hundredths : ℕ → F.Float
  hundredths n = F.millionths (n * 10000)

  abbrev pub whole : ℕ → F.Float
  whole n = F.millionths (n * 1000000)

  -- `max(a, b)` and `min(a, b)`: the second where it is strictly beyond the first.
  unfoldable pub fmax : F.Float → F.Float → F.Float
  fmax a b = if F.lt a b then b else a

  unfoldable pub fmin : F.Float → F.Float → F.Float
  fmin a b = if F.lt b a then b else a

  -- `clip_score`.
  unfoldable pub clip_score : F.Float → F.Float
  clip_score x = if F.is_finite x then fmax (whole 0) (fmin (whole 1) x) else whole 0

  abbrev pub epsilon : F.Float
  epsilon = F.millionths 1

  -- `1.0 - epsilon`.
  abbrev pub below_one : F.Float
  below_one = F.sub (whole 1) epsilon

  -- `strict_unit_interval`.
  unfoldable pub strict_unit_interval : F.Float → F.Float
  strict_unit_interval x = fmin below_one (fmax epsilon (clip_score x))

  -- `x` is neither below `l` nor above `h`.
  abbrev pub Within : F.Float → F.Float → F.Float → Type 0
  Within l h x = (F.lt x l ≡ false) × (F.lt h x ≡ false)

-- What IEEE 754 says of `<`: it is asymmetric, also where an operand is not a number.
pub record FloatLaws (F : Floats) : Type 0 where
  pub lt-asym : (x y : F.Float) → F.lt x y ≡ true → F.lt y x ≡ false

module _ (F : Floats) (L : FloatLaws F) where
  lt_irrefl : (x : F.Float) → F.lt x x ≡ false
  lt_irrefl x = elim (Bool-cases (F.lt x x)) [ inl b ↦ L.lt-asym x x b | inr b ↦ b ]

  -- A value that is clamped into an interval lies in it, whatever it was.
  pub clamp-Within : (l h x : F.Float) → F.lt l h ≡ true → Within F l h (fmax F l (fmin F h x))
  unfolding fmax fmin
  clamp-Within l h x lh = elim (Bool-cases (F.lt x h)) [
    | inl b ↦ elim (Bool-cases (F.lt l x)) [
      | inl c ↦ rw (b, c) (L.lt-asym l x c, L.lt-asym x h b)
      | inr c ↦ rw (b, c) (lt_irrefl l, L.lt-asym l h lh)
    ]
    | inr b ↦ rw (b, lh) (L.lt-asym l h lh, lt_irrefl h)
  ]

  pub strict_unit_interval-Within :
      (x : F.Float)
      → F.lt (epsilon F) (below_one F) ≡ true
      → Within F (epsilon F) (below_one F) (strict_unit_interval F x)
  unfolding strict_unit_interval fmin fmax
  strict_unit_interval-Within x eh =
      let e = epsilon F in
      let h = below_one F in
      let c = clip_score F x in
      elim (Bool-cases (F.lt e c)) [
        | inl a ↦ elim (Bool-cases (F.lt c h)) [
          | inl b ↦ rw (a, b) (L.lt-asym e c a, L.lt-asym c h b)
          | inr b ↦ rw (a, b) (L.lt-asym e h eh, lt_irrefl h)
        ]
        | inr a ↦ rw (a, eh) (lt_irrefl e, L.lt-asym e h eh)
      ]
