-- ===== src/Budget.antt =====
-- app/saas/llm_budget.py: the metering of one organization's model spend. Amounts are whole
-- numbers of some small unit of money, days are numbers.
pub mod Metering
use autonomous_executive_ema.Base.{
  ℕ, ◌+◌, ◌-◌, String, Bool, true, false, not, Option, none, some, List, [], ◌∷◌, ltb, ◌==◌,
  if◌then◌else◌, Dict, lookup, insert,
}

-- `LlmBudget`; the limit 0 means that there is none.
pub record LlmBudget : Type 0 where
  pub org_id : String
  pub limit_usd : ℕ
  pub spent_usd : ℕ

-- A row of the ledger.
pub record Usage : Type 0 where
  pub org_id : String
  pub cost_usd : ℕ
  pub purpose : String

abbrev pub enforced : LlmBudget → Bool
enforced b = ltb 0 b.limit_usd

-- The constructor: the ledger is read only under a limit, and a read that fails counts as 0.
unfoldable pub open_budget : String → ℕ → Option ℕ → LlmBudget
open_budget org limit read = record {
  org_id = org;
  limit_usd = limit;
  spent_usd = if ltb 0 limit then elim read [ none ↦ 0 | some n ↦ n ] else 0;
}

-- `none` stands for no ceiling.
unfoldable pub remaining_usd : LlmBudget → Option ℕ
remaining_usd b = if not (enforced b) then none else some (b.limit_usd - b.spent_usd)

unfoldable pub has_room : LlmBudget → Bool
has_room b = if not (enforced b) then true else ltb b.spent_usd b.limit_usd

-- `_last_warned`, and how many warnings were logged.
pub record Warnings : Type 0 where
  pub last_warned : Dict ℕ
  pub logged : ℕ

unfoldable pub warn_once : String → ℕ → Warnings → Warnings
warn_once org today w =
    if elim (lookup org w.last_warned) [ none ↦ false | some day ↦ day == today ]
    then w
    else record { last_warned = insert org today w.last_warned; logged = w.logged + 1 }

unfoldable pub allows : LlmBudget → ℕ → Warnings → Bool × Warnings
allows b today w = if has_room b then (true, w) else (false, warn_once b.org_id today w)

-- The total in memory is advanced first; `stored` says whether the write to the ledger succeeded.
unfoldable pub bill : LlmBudget → ℕ → String → Bool → List Usage → LlmBudget × List Usage
bill b cost purpose stored ledger = (
  record b { spent_usd = b.spent_usd + cost },
  if stored
      then record { org_id = b.org_id; cost_usd = cost; purpose = purpose } ∷ ledger
      else ledger,
)
