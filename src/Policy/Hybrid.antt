-- ===== src/Policy/Hybrid.antt =====
-- `Executor` and `HybridPolicy` of app/copilot/policy.py, with the planner of app/llm/policy.py that
-- they ask. The call of the model is a parameter: the strategy that was read from its answer, or none
-- where the call or the reading of the answer fails. `planner_interval` is positive.
pub mod Stuck
use autonomous_executive_ema.Base.{
  ℕ, ◌+◌, ◌%◌, Bool, true, false, ◌&&◌, not, Option, none, some, List, [], ◌∷◌, ltb, ◌==◌, any,
  null, if◌then◌else◌,
}
use autonomous_executive_ema.Models.{Observation, ObservationEmail, Action, is_high, is_sensitive}
use autonomous_executive_ema.Policy.{BaselinePolicy, fresh, next_action, escalate_action}
use autonomous_executive_ema.Policy.Classifier.{Lexicon}

pub data Strategy : Type 0 where
  prioritize_urgent batch_reply escalate_critical defer_low_value monitor : Strategy

-- The first email with a legal or security tag.
unfoldable pub first_risky : List ObservationEmail → Option ObservationEmail
first_risky [] = none
first_risky (e ∷ es) = if is_sensitive e.risk_tag then some e else first_risky es

-- `_run_deterministic_checks`.
unfoldable pub run_deterministic_checks : Observation → Option Strategy
run_deterministic_checks o = elim (first_risky o.emails) [
  | some e ↦ some escalate_critical
  | none ↦
      if ltb o.time_remaining 30 && any (λ e. is_high e.priority_hint) o.emails
      then some prioritize_urgent
      else none
]

abbrev pub fallback_strategy : Strategy
fallback_strategy = prioritize_urgent

-- The call of the model for a strategy.
abbrev pub Ask : Type 0
Ask = Observation → Option Strategy

-- `Planner.plan`, with whether a provider is configured.
unfoldable pub plan_strategy : Bool → Ask → Observation → Strategy
plan_strategy available ask o = elim (run_deterministic_checks o) [
  | some s ↦ s
  | none ↦
      if not available
      then fallback_strategy
      else elim (ask o) [ none ↦ fallback_strategy | some s ↦ s ]
]

-- `Executor.execute`, on the baseline that the executor holds.
unfoldable pub execute_escalate_critical :
    Lexicon → BaselinePolicy → Observation → Option Action × BaselinePolicy
execute_escalate_critical lex p o = elim (first_risky o.emails) [
  | some e ↦ (some (escalate_action e), p)
  | none ↦ next_action lex p o
]

unfoldable pub execute :
    Lexicon → Strategy → BaselinePolicy → Observation → Option Action × BaselinePolicy
execute lex escalate_critical p o = execute_escalate_critical lex p o
execute lex _ p o = next_action lex p o

pub record HybridPolicy : Type 0 where
  pub planner_interval : ℕ
  pub executor : BaselinePolicy
  pub step_count : ℕ
  pub current_strategy : Option Strategy
  pub fallback : BaselinePolicy

abbrev pub new_hybrid : ℕ → HybridPolicy
new_hybrid interval = record {
  planner_interval = interval;
  executor = fresh;
  step_count = 0;
  current_strategy = none;
  fallback = fresh;
}

-- The strategy in force once the step is counted: asked for anew on the first of every
-- `planner_interval` steps, and when there is none.
unfoldable pub strategy_for : Bool → Ask → ℕ → HybridPolicy → Observation → Strategy
strategy_for available ask step h o =
    if step % h.planner_interval == 1
    then plan_strategy available ask o
    else elim h.current_strategy [ none ↦ plan_strategy available ask o | some s ↦ s ]

-- A step with a model: the strategy in force decides.
unfoldable pub planned_action :
    Lexicon → Ask → HybridPolicy → Observation → Option Action × HybridPolicy
planned_action lex ask h o =
    let step = h.step_count + 1 in
    let strategy = strategy_for true ask step h o in
    let (action, p) = execute lex strategy h.executor o in
    (action, record h { step_count = step; current_strategy = some strategy; executor = p })

-- `HybridPolicy.next_action`.
unfoldable pub next_hybrid :
    Lexicon → Bool → Ask → HybridPolicy → Observation → Option Action × HybridPolicy
next_hybrid lex available ask h o =
    let (action, p) = next_action lex h.fallback o in
    if not available then (action, record h { fallback = p }) else planned_action lex ask h o

-- The actions on a sequence of observations, one for each.
unfoldable pub run_hybrid :
    Lexicon → Bool → Ask → HybridPolicy → List Observation → List (Option Action)
run_hybrid lex available ask h [] = []
run_hybrid lex available ask h (o ∷ os) =
    let r = next_hybrid lex available ask h o in r.0 ∷ run_hybrid lex available ask r.1 os
