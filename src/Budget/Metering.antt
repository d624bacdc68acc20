-- ===== src/Budget/Metering.antt =====
-- How often a used-up budget is logged.
use autonomous_executive_ema.Base.{
  ℕ, zero, suc, some, inl, inr, ◌⊎◌, ◌+◌, ◌≤◌, ◌≡◌, refl, ap, true, arith, lookup, lookup-insert,
  ◌∙◌, str_eq_refl,
}
use autonomous_executive_ema.Budget.{LlmBudget, has_room, Warnings, warn_once, allows}

-- The warnings after a budget was asked n times in one day.
unfoldable pub ask_again : LlmBudget → ℕ → ℕ → Warnings → Warnings
ask_again b today zero w = w
ask_again b today (suc n) w = ask_again b today n (allows b today w).1

ask_again-suc :
    (b : LlmBudget) (today n : ℕ) (w : Warnings)
    → ask_again b today (suc n) w ≡ ask_again b today n (allows b today w).1
unfolding ask_again
ask_again-suc b today n w = refl

ask_again-zero : (b : LlmBudget) (today : ℕ) (w : Warnings) → ask_again b today zero w ≡ w
unfolding ask_again
ask_again-zero b today w = refl

allows_warned :
    (b : LlmBudget) (today : ℕ) (w : Warnings)
    → lookup b.org_id w.last_warned ≡ some today
    → (allows b today w).1 ≡ w
unfolding allows warn_once
allows_warned b today w h = ground arith

ask_warned :
    (b : LlmBudget) (today n : ℕ) (w : Warnings)
    → lookup b.org_id w.last_warned ≡ some today
    → ask_again b today n w ≡ w
unfolding ask_again
ask_warned b today zero w h = refl
ask_warned b today (suc n) w h =
    ap (ask_again b today n) (allows_warned b today w h) ∙ ask_warned b today n w h

-- Asking once leaves the warnings as they are, or logs one and remembers the day.
allows_warns :
    (b : LlmBudget) (today : ℕ) (w : Warnings)
    → ((has_room b ≡ true) × ((allows b today w).1 ≡ w))
      ⊎ ((lookup b.org_id (allows b today w).1.last_warned ≡ some today)
          × ((allows b today w).1.logged ≤ w.logged + 1))
unfolding allows warn_once
allows_warns b today w =
    ground (arith, lookup-insert b.org_id b.org_id today w.last_warned, str_eq_refl b.org_id)

-- However often an organization's budget is asked in one day, at most one warning is logged.
pub warned_once_a_day :
    (b : LlmBudget) (today n : ℕ) (w : Warnings) → (ask_again b today n w).logged ≤ w.logged + 1
warned_once_a_day b today zero w = rw ask_again-zero (omega arith)
warned_once_a_day b today (suc n) w = elim (allows_warns b today w) [
  | inl r ↦ rw (ask_again-suc b today n w, r.1) (warned_once_a_day b today n w)
  | inr r ↦ rw (ask_again-suc b today n w, ask_warned b today n (allows b today w).1 r.0) (r.1)
]
