-- ===== src/Policy/Ranking.antt =====
-- The two orders of `BaselinePolicy.next_action`, and the stable sort that `sorted` is.
use autonomous_executive_ema.Base.{
  suc, ◌≡◌, refl, ap, ◌∙◌, inl, inr, Bool, not, ◌&&◌, ◌||◌, List, [], ◌∷◌, ltb, if◌then◌else◌,
  arith, Bool-cases, Pairs, All, ◌==◌, length,
}
use autonomous_executive_ema.Models.{ObservationEmail, is_high}
use mathlib.Core.List.{Perm}
use mathlib.Core.List.Perm

-- `(e.priority_hint == "high", e.business_value, -e.deadline_minutes)`, strictly greater.
unfoldable pub opening_before : ObservationEmail → ObservationEmail → Bool
opening_before a b =
    let ha = is_high a.priority_hint in
    let hb = is_high b.priority_hint in
    (ha && not hb)
    || (not (ha && not hb)
        && not (hb && not ha)
        && (ltb b.business_value a.business_value
            || (a.business_value == b.business_value && ltb a.deadline_minutes b.deadline_minutes)))

-- `(e.priority_hint == "high", -e.deadline_minutes, e.business_value)`, strictly greater.
unfoldable pub ranked_before : ObservationEmail → ObservationEmail → Bool
ranked_before a b =
    let ha = is_high a.priority_hint in
    let hb = is_high b.priority_hint in
    (ha && not hb)
    || (not (ha && not hb)
        && not (hb && not ha)
        && (ltb a.deadline_minutes b.deadline_minutes
            || (a.deadline_minutes == b.deadline_minutes && ltb b.business_value a.business_value)))

module _ {ℓ} {A : Type ℓ} where
  -- An element goes behind those that are strictly before it.
  unfoldable pub place : (A → A → Bool) → A → List A → List A
  place before x [] = x ∷ []
  place before x (y ∷ ys) = if before y x then y ∷ place before x ys else x ∷ y ∷ ys

  unfoldable pub sort_by : (A → A → Bool) → List A → List A
  unfolding place
  sort_by before [] = []
  sort_by before (x ∷ xs) = place before x (sort_by before xs)

module _ {ℓ} {A : Type ℓ} (before : A → A → Bool) where
  place-perm : (x : A) (ys : List A) → Perm (place before x ys) (x ∷ ys)
  unfolding place
  place-perm x [] = Perm.refl (x ∷ [])
  place-perm x (y ∷ ys) = elim (Bool-cases (before y x)) [
    | inl b ↦ rw b (Perm.trans (Perm.cons y (place-perm x ys)) (Perm.swap x y ys))
    | inr b ↦ rw b (Perm.refl (x ∷ y ∷ ys))
  ]

  pub sort_by-perm : (xs : List A) → Perm (sort_by before xs) xs
  unfolding sort_by
  sort_by-perm [] = Perm.refl []
  sort_by-perm (x ∷ xs) =
      Perm.trans (place-perm x (sort_by before xs)) (Perm.cons x (sort_by-perm xs))

  pub place-All {κ} :
      (P : A → Type κ) (x : A) (ys : List A) → P x → All P ys → All P (place before x ys)
  unfolding place
  place-All P x [] px h = (px, tt)
  place-All P x (y ∷ ys) px h = elim (Bool-cases (before y x)) [
    | inl b ↦ rw b (h.0, place-All P x ys px h.1)
    | inr b ↦ rw b (px, h)
  ]

  pub sort_by-All {κ} : (P : A → Type κ) (xs : List A) → All P xs → All P (sort_by before xs)
  unfolding sort_by
  sort_by-All P [] h = tt
  sort_by-All P (x ∷ xs) h = place-All P x (sort_by before xs) h.0 (sort_by-All P xs h.1)

  length-place : (x : A) (ys : List A) → length (place before x ys) ≡ suc (length ys)
  unfolding place
  length-place x [] = refl
  length-place x (y ∷ ys) = ground (arith, length-place x ys)

  pub length-sort_by : (xs : List A) → length (sort_by before xs) ≡ length xs
  unfolding sort_by
  length-sort_by [] = refl
  length-sort_by (x ∷ xs) = length-place x (sort_by before xs) ∙ ap suc (length-sort_by xs)

-- A symmetric relation of the elements of a list does not depend on their order.
module _ {ℓ κ} {A : Type ℓ} (before : A → A → Bool) (R : A → A → Type κ)
    (symmetric : (a b : A) → R a b → R b a) where
  place-Pairs : (x : A) (ys : List A) → All (R x) ys → Pairs R ys → Pairs R (place before x ys)
  unfolding place
  place-Pairs x [] h p = (tt, tt)
  place-Pairs x (y ∷ ys) h p = elim (Bool-cases (before y x)) [
    | inl b ↦ rw b (place-All before (R y) x ys (symmetric x y h.0) p.0, place-Pairs x ys h.1 p.1)
    | inr b ↦ rw b (h, p)
  ]

  pub sort_by-Pairs : (xs : List A) → Pairs R xs → Pairs R (sort_by before xs)
  unfolding sort_by
  sort_by-Pairs [] p = tt
  sort_by-Pairs (x ∷ xs) p =
      place-Pairs x (sort_by before xs) (sort_by-All before (R x) xs p.0) (sort_by-Pairs xs p.1)
