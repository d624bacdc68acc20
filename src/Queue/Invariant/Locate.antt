-- ===== src/Queue/Invariant/Locate.antt =====
-- Lookups of a row by its id, for the invariant of the queue.
use autonomous_executive_ema.Base.{
  ℕ, ◌≡◌, refl, sym, true, false, ◌&&◌, some, String, List, [], ◌∷◌, All, All-both, All-map, any,
  arith, ◌==◌, str_eq, ◌⊎◌, inl, inr, Bool-cases,
}
use autonomous_executive_ema.Queue.{ActionRow, get_action}
use autonomous_executive_ema.Queue.Rows.{DistinctIds, Apart}
use autonomous_executive_ema.Queue.Invariant.Dispatch.{Only, is_at}

abbrev pub Alone : List ActionRow → ActionRow → Type 0
Alone rows a = All (λ r. ((r.id == a.id) ≡ false) ⊎ (r ≡ a)) rows

Apart-Alone : (a : ActionRow) (rows : List ActionRow) → All (Apart a) rows → Alone rows a
Apart-Alone a rows h =
    All-map (Apart a) (λ r. ((r.id == a.id) ≡ false) ⊎ (r ≡ a)) (λ r e. inl e) rows h

-- Each row is alone with its id.
pub DistinctIds-Alone : (rows : List ActionRow) → DistinctIds rows → All (Alone rows) rows
DistinctIds-Alone [] h = tt
DistinctIds-Alone (r ∷ rows) h = (
  (inr refl, Apart-Alone r rows h.0),
  All-map (λ a. Apart r a × Alone rows a) (Alone (r ∷ rows))
      (λ a p. (inl (ground (arith, p.0)), p.1)) rows
      (All-both (Apart r) (Alone rows) rows h.0 (DistinctIds-Alone rows h.1)),
)

pub Alone-Only :
    (Q : ActionRow → Type 0) (a : ActionRow) (rows : List ActionRow)
    → Q a
    → Alone rows a
    → Only Q a.id rows
Alone-Only Q a rows q h =
    All-map (λ r. ((r.id == a.id) ≡ false) ⊎ (r ≡ a)) (λ r. ((r.id == a.id) ≡ false) ⊎ Q r)
      (λ r e. elim e [ inl n ↦ inl n | inr s ↦ inr (rw s q) ]) rows h

pub record Located (P : ActionRow → Type 0) (org : String) (id : ℕ) (a : ActionRow) : Type 0 where
  pub here : P a
  pub same_id : (a.id == id) ≡ true
  pub same_org : str_eq a.org_id org ≡ true

pub get_action-Located :
    (P : ActionRow → Type 0) (org : String) (id : ℕ) (rows : List ActionRow) (a : ActionRow)
    → All P rows
    → get_action org id rows ≡ some a
    → Located P org id a
unfolding get_action
get_action-Located P org id [] a h e = ground arith
get_action-Located P org id (r ∷ rows) a h e =
    elim (Bool-cases (r.id == id && str_eq r.org_id org)) [
      | inl b ↦
          let found : r ≡ a = ground (arith, rw b at e) in
          rw (sym found)
            record { here = h.0; same_id = ground (arith, b); same_org = ground (arith, b) }
      | inr b ↦ get_action-Located P org id rows a h.1 (rw b at e)
    ]

pub get_action-any :
    (org : String) (id : ℕ) (rows : List ActionRow) (a : ActionRow)
    → get_action org id rows ≡ some a
    → any (is_at org id) rows ≡ true
unfolding get_action any
get_action-any org id [] a e = ground arith
get_action-any org id (r ∷ rows) a e = elim (Bool-cases (r.id == id && str_eq r.org_id org)) [
  | inl b ↦ rw b refl
  | inr b ↦ rw b (get_action-any org id rows a (rw b at e))
]

pub get_action_id :
    (org : String) (id : ℕ) (rows : List ActionRow) (a : ActionRow)
    → get_action org id rows ≡ some a
    → a.id ≡ id
get_action_id org id rows a e =
    let located = get_action-Located (λ r. Unit {0}) org id rows a (all_unit rows) e in
    ground (arith, located.same_id)
  where
    all_unit : (rows : List ActionRow) → All (λ r. Unit {0}) rows
    all_unit [] = tt
    all_unit (r ∷ rows) = (tt, all_unit rows)
