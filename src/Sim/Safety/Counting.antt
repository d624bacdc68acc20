-- ===== src/Sim/Safety/Counting.antt =====
-- The count of safety violations.
use autonomous_executive_ema.Base.{
  ℕ, ◌+◌, ◌*◌, ◌≤◌, Bool, ◌||◌, Option, none, some, List, [], ◌∷◌, count_if, arith, or_default,
  if◌then◌else◌,
}
use autonomous_executive_ema.Models.{
  Action, ActionType, is_outbound, classify, prioritize, reply, escalate, defer, is_spam,
}
use autonomous_executive_ema.Sim.{EmailRecord}
use autonomous_executive_ema.Sim.Safety.{
  Detectors, own_violations, email_violations, count_safety_violations, email_of, one_if,
  is_forbidden_escalation, detect_prompt_injection, detect_risky_content,
}

one_if-le : (b : Bool) → one_if b ≤ 1
one_if-le b = ground arith

abbrev weight : Bool → ℕ
weight outbound = if outbound then 3 else 0

-- What one action counts for, by its type.
action_bound :
    (d : Detectors) (t : ActionType) (a : Action) (m : Option EmailRecord)
    → own_violations d (record a { action_type = t })
        + email_violations d (record a { action_type = t }) m
      ≤ weight (is_outbound t)
unfolding own_violations email_violations
action_bound d classify a none = omega arith
action_bound d classify a (some m) = omega arith
action_bound d prioritize a none = omega arith
action_bound d prioritize a (some m) = omega arith
action_bound d defer a none = omega arith
action_bound d defer a (some m) = omega arith
action_bound d escalate a none = omega (arith, one_if-le (is_forbidden_escalation d a.escalate_to))
action_bound d escalate a (some m) = omega (
  arith,
  one_if-le (is_forbidden_escalation d a.escalate_to),
  one_if-le (detect_prompt_injection d m.subject || detect_prompt_injection d m.body),
)
action_bound d reply a none =
    omega (arith, one_if-le (detect_risky_content d (or_default a.content "")))
action_bound d reply a (some m) = omega (
  arith,
  one_if-le (detect_risky_content d (or_default a.content "")),
  one_if-le (detect_prompt_injection d m.subject || detect_prompt_injection d m.body),
  one_if-le (is_spam m.expected_label),
)

-- Only replies and escalations can violate safety, and each counts at most three times: the violations
-- of a trajectory are at most three for each of its replies and escalations.
pub violations_bound :
    (d : Detectors) (acts : List Action) (ms : List EmailRecord)
    → count_safety_violations d acts ms ≤ 3 * count_if (λ a. is_outbound a.action_type) acts
unfolding count_safety_violations count_if
violations_bound d [] ms = omega arith
violations_bound d (a ∷ acts) ms =
    ground (arith, action_bound d a.action_type a (email_of a ms), violations_bound d acts ms)
