-- ===== src/Queue/Rows.antt =====
-- The rows of the queue: ids are primary keys, and an update touches one row.
use autonomous_executive_ema.Base.{
  ℕ, ◌≡◌, true, false, ◌&&◌, String, List, [], ◌∷◌, All, Pairs, arith, ◌==◌, str_eq, Bool-cases,
  inl, inr,
}
use autonomous_executive_ema.Queue.{ActionRow, set_row}

abbrev pub Apart : ActionRow → ActionRow → Type 0
Apart r s = (s.id == r.id) ≡ false

abbrev pub DistinctIds : List ActionRow → Type 0
DistinctIds = Pairs Apart

-- `id` is not the id of a row.
abbrev pub NoRow : ℕ → List ActionRow → Type 0
NoRow id = All (λ r. (r.id == id) ≡ false)

-- An update of the fields of a row keeps its id.
abbrev pub KeepsId : (ActionRow → ActionRow) → Type 0
KeepsId f = (r : ActionRow) → (f r).id ≡ r.id

module _ (org : String) (id : ℕ) (f : ActionRow → ActionRow) (keeps : KeepsId f) where
  Apart-set_row :
      (r : ActionRow) (rs : List ActionRow) → All (Apart r) rs → All (Apart r) (set_row org id f rs)
  unfolding set_row
  Apart-set_row r [] h = tt
  Apart-set_row r (s ∷ rs) h = elim (Bool-cases (s.id == id && str_eq s.org_id org)) [
    | inl b ↦ rw b (rw (keeps s) h.0, h.1)
    | inr b ↦ rw b (h.0, Apart-set_row r rs h.1)
  ]

  Apart-changed : (r : ActionRow) (rs : List ActionRow) → All (Apart r) rs → All (Apart (f r)) rs
  Apart-changed r rs h = rw (keeps r) h

  pub set_row-DistinctIds :
      (rs : List ActionRow) → DistinctIds rs → DistinctIds (set_row org id f rs)
  unfolding set_row
  set_row-DistinctIds [] h = tt
  set_row-DistinctIds (r ∷ rs) h = elim (Bool-cases (r.id == id && str_eq r.org_id org)) [
    | inl b ↦ rw b (Apart-changed r rs h.0, h.1)
    | inr b ↦ rw b (Apart-set_row r rs h.0, set_row-DistinctIds rs h.1)
  ]

-- To show `Q` of every row after an update from `P` before it: the row that is updated, and each row
-- with another id or of another organization.
module _ (P Q : ActionRow → Type 0) (org : String) (id : ℕ) (f : ActionRow → ActionRow)
    (hit : (r : ActionRow) → P r → (r.id == id) ≡ true → str_eq r.org_id org ≡ true → Q (f r))
    (miss : (r : ActionRow) → P r → (r.id == id && str_eq r.org_id org) ≡ false → Q r) where
  miss-All :
      (r : ActionRow) (rs : List ActionRow) → r.id ≡ id → All (Apart r) rs → All P rs → All Q rs
  miss-All r [] e h p = tt
  miss-All r (s ∷ rs) e h p = (miss s p.0 (ground arith), miss-All r rs e h.1 p.1)

  pub set_row-All : (rs : List ActionRow) → DistinctIds rs → All P rs → All Q (set_row org id f rs)
  unfolding set_row
  set_row-All [] h p = tt
  set_row-All (r ∷ rs) h p = elim (Bool-cases (r.id == id && str_eq r.org_id org)) [
    | inl b ↦ rw b (hit r p.0 (ground arith) (ground arith), miss-All r rs (ground arith) h.0 p.1)
    | inr b ↦ rw b (miss r p.0 b, set_row-All rs h.1 p.1)
  ]
