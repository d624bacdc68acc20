-- ===== src/Policy/Hybrid/Stuck.antt =====
-- The hybrid policy with a model, on an inbox that holds risky mail.
use autonomous_executive_ema.Base.{
  ◌≡◌, refl, ap, true, none, some, List, [], ◌∷◌, All, ◌⊎◌, inl, inr, arith, Bool-cases, ◌==◌, ◌%◌,
  ℕ, ◌+◌,
}
use autonomous_executive_ema.Models.{Observation, ObservationEmail}
use autonomous_executive_ema.Policy.{escalate_action}
use autonomous_executive_ema.Policy.Classifier.{Lexicon}
use autonomous_executive_ema.Policy.Hybrid.{
  escalate_critical, first_risky, run_deterministic_checks, Ask, plan_strategy,
  execute_escalate_critical, execute, HybridPolicy, new_hybrid, strategy_for, planned_action,
  next_hybrid, run_hybrid,
}

-- A strategy that is in force is the one for risky mail.
abbrev Committed : HybridPolicy → Type 0
Committed h = (h.current_strategy ≡ none) ⊎ (h.current_strategy ≡ some escalate_critical)

plan-risky :
    (ask : Ask) (o : Observation) (e : ObservationEmail)
    → first_risky o.emails ≡ some e
    → plan_strategy true ask o ≡ escalate_critical
unfolding plan_strategy run_deterministic_checks
plan-risky ask o e h = rw (plan_strategy, run_deterministic_checks, h) refl

strategy-risky :
    (ask : Ask) (step : ℕ) (h : HybridPolicy) (o : Observation) (e : ObservationEmail)
    → first_risky o.emails ≡ some e
    → Committed h
    → strategy_for true ask step h o ≡ escalate_critical
unfolding strategy_for
strategy-risky ask step h o e r c =
    let p = plan-risky ask o e r in
    elim (Bool-cases (step % h.planner_interval == 1)) [
      | inl b ↦ rw (strategy_for, b) p
      | inr b ↦ elim c [ inl n ↦ ground (arith, b, n, p) | inr n ↦ ground (arith, b, n) ]
    ]

next-risky :
    (lex : Lexicon) (ask : Ask) (h : HybridPolicy) (o : Observation) (e : ObservationEmail)
    → first_risky o.emails ≡ some e
    → Committed h
    → ((next_hybrid lex true ask h o).0 ≡ some (escalate_action e))
      × Committed (next_hybrid lex true ask h o).1
unfolding next_hybrid planned_action execute execute_escalate_critical
next-risky lex ask h o e r c =
    let s = strategy-risky ask (h.step_count + 1) h o e r c in
    (rw s (rw (execute_escalate_critical, r) refl), inr (ap some s))

hybrid-stuck :
    (lex : Lexicon) (ask : Ask) (e : ObservationEmail) (os : List Observation) (h : HybridPolicy)
    → All (λ o. first_risky o.emails ≡ some e) os
    → Committed h
    → All (λ a. a ≡ some (escalate_action e)) (run_hybrid lex true ask h os)
unfolding run_hybrid
hybrid-stuck lex ask e [] h r c = tt
hybrid-stuck lex ask e (o ∷ os) h r c =
    let (here, committed) = next-risky lex ask h o e r.0 c in
    (here, hybrid-stuck lex ask e os (next_hybrid lex true ask h o).1 r.1 committed)

-- With a model configured, as long as the observations show the same first email with a legal or
-- security tag, every action of the hybrid policy escalates that one email again, and it does nothing
-- else.
pub hybrid_repeats_escalation :
    (lex : Lexicon) (ask : Ask) (interval : ℕ) (e : ObservationEmail) (os : List Observation)
    → All (λ o. first_risky o.emails ≡ some e) os
    → All (λ a. a ≡ some (escalate_action e)) (run_hybrid lex true ask (new_hybrid interval) os)
hybrid_repeats_escalation lex ask interval e os r =
    hybrid-stuck lex ask e os (new_hybrid interval) r (inl refl)
