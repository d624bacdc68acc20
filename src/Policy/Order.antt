-- ===== src/Policy/Order.antt =====
-- The two orders of the policy as strict weak orders, and the sorts by them.
use autonomous_executive_ema.Base.{
  ◌≡◌, true, false, Bool, List, [], ◌∷◌, arith, All, All-map, Bool-cases, inl, inr,
}
use mathlib.Core.List.{Perm}
use autonomous_executive_ema.Models.{ObservationEmail}
use autonomous_executive_ema.Policy.Ranking.{
  place, sort_by, place-All, sort_by-perm, opening_before, ranked_before,
}

-- No element stands behind one that it should come before.
abbrev pub IsSorted {ℓ} : {A : Type ℓ} → (A → A → Bool) → List A → Type ℓ
IsSorted before [] = Unit
IsSorted before (x ∷ xs) = All (λ y. before y x ≡ false) xs × IsSorted before xs

module _ {ℓ} {A : Type ℓ} (before : A → A → Bool)
    (asym : (x y : A) → before y x ≡ true → before x y ≡ false)
    (behind : (x y z : A) → before y x ≡ false → before z y ≡ false → before z x ≡ false) where
  place-IsSorted : (x : A) (ys : List A) → IsSorted before ys → IsSorted before (place before x ys)
  unfolding place
  place-IsSorted x [] h = (tt, tt)
  place-IsSorted x (y ∷ ys) h = elim (Bool-cases (before y x)) [
    | inl b ↦
        rw b (
          place-All before (λ z. before z y ≡ false) x ys (asym x y b) h.0,
          place-IsSorted x ys h.1,
        )
    | inr b ↦ rw b ((b, All-map _ _ (λ z. behind x y z b) ys h.0), h)
  ]

  sort_by-IsSorted : (xs : List A) → IsSorted before (sort_by before xs)
  unfolding sort_by
  sort_by-IsSorted [] = tt
  sort_by-IsSorted (x ∷ xs) = place-IsSorted x (sort_by before xs) (sort_by-IsSorted xs)

opening_before_asym :
    (x y : ObservationEmail) → opening_before y x ≡ true → opening_before x y ≡ false
unfolding opening_before
opening_before_asym x y h = ground arith

opening_before_behind :
    (x y z : ObservationEmail)
    → opening_before y x ≡ false
    → opening_before z y ≡ false
    → opening_before z x ≡ false
unfolding opening_before
opening_before_behind x y z h k = ground arith

ranked_before_asym : (x y : ObservationEmail) → ranked_before y x ≡ true → ranked_before x y ≡ false
unfolding ranked_before
ranked_before_asym x y h = ground arith

ranked_before_behind :
    (x y z : ObservationEmail)
    → ranked_before y x ≡ false
    → ranked_before z y ≡ false
    → ranked_before z x ≡ false
unfolding ranked_before
ranked_before_behind x y z h k = ground arith

-- Both orders of the policy list every message of the inbox as often as it is there, and none
-- stands behind one that its key puts after it: (high priority, value, nearer deadline) for the
-- opening order, and (high priority, nearer deadline, value) for the order of the decisions.
pub orders-IsSorted :
    (es : List ObservationEmail)
    → IsSorted opening_before (sort_by opening_before es)
      × IsSorted ranked_before (sort_by ranked_before es)
      × Perm (sort_by opening_before es) es
      × Perm (sort_by ranked_before es) es
orders-IsSorted es = (
  sort_by-IsSorted opening_before opening_before_asym opening_before_behind es,
  sort_by-IsSorted ranked_before ranked_before_asym ranked_before_behind es,
  sort_by-perm opening_before es,
  sort_by-perm ranked_before es,
)
