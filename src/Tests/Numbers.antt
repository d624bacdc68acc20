-- ===== src/Tests/Numbers.antt =====
-- Exact numbers of millionths in place of floats, and a scenario of two emails.
use autonomous_executive_ema.Base.{
  ℕ, ◌+◌, ◌*◌, ◌/◌, ◌≤◌, true, false, Option, none, some, [], ◌∷◌, arith, not, ◌||◌, ℤ, pos,
  pos_part, neg_part, sub_ℕ, ltb_ℤ, Floats, FloatLaws, whole,
}
use autonomous_executive_ema.Models.{
  ActionType, classify, reply, defer, escalate, prioritize, urgent, high, medium, client, legal,
  Action, balanced,
}
use autonomous_executive_ema.Sim.{
  EmailRecord, ExpectedAction, Scenario, PersonaProfile, Settings, Env, cost_of,
}
use autonomous_executive_ema.Sim.Bounds.{RoundLaws}
use autonomous_executive_ema.Sim.Grader.{Library}
use autonomous_executive_ema.Sim.Grader.Scores.{UnitRounding}
use autonomous_executive_ema.Sim.Safety.{Detectors}

abbrev pub exact : Floats
exact = record {
  Float = ℤ;
  millionths = λ n. pos n;
  neg = λ a. sub_ℕ (neg_part a) (pos_part a);
  add = λ a b. sub_ℕ (pos_part a + pos_part b) (neg_part a + neg_part b);
  sub = λ a b. sub_ℕ (pos_part a + neg_part b) (neg_part a + pos_part b);
  mul = λ a b.
      sub_ℕ ((pos_part a * pos_part b + neg_part a * neg_part b) / 1000000)
        ((pos_part a * neg_part b + neg_part a * pos_part b) / 1000000);
  div = λ a b. sub_ℕ (pos_part a * 1000000 / pos_part b) (neg_part a * 1000000 / pos_part b);
  lt = ltb_ℤ;
  eq = λ a b. not (ltb_ℤ a b || ltb_ℤ b a);
  is_finite = λ a. true;
  round = λ a d. a;
}

pub exact_laws : FloatLaws exact
exact_laws = record { lt-asym = λ x y h. ground (arith, h) }

pub exact_rounding : RoundLaws exact
exact_rounding = record { round-Within = λ x h. h }

pub exact_unit : UnitRounding exact
exact_unit = record { round-unit = λ x h. h }

abbrev pub profile : PersonaProfile exact
profile = record {
  deadline_penalty_multiplier = whole exact 1;
  terminal_penalty_multiplier = whole exact 1;
  urgent_defer_penalty_multiplier = whole exact 1;
  redundant_penalty_multiplier = whole exact 1;
}

-- The costs of data/settings.yaml.
abbrev pub costs : ActionType → Option ℕ
costs classify = some 2
costs reply = some 8
costs defer = some 1
costs escalate = some 3
costs prioritize = some 4

abbrev pub settings : Settings exact
settings = record {
  action_cost_minutes = costs;
  persona_profiles = λ p. some profile;
  lower = λ s. s;
  kendalltau = λ a b. some (whole exact 1);
}

pub costs_positive : (t : ActionType) → 1 ≤ cost_of exact settings t
unfolding cost_of
costs_positive classify = omega arith
costs_positive reply = omega arith
costs_positive defer = omega arith
costs_positive escalate = omega arith
costs_positive prioritize = omega arith

abbrev pub contract_record : EmailRecord
contract_record = record {
  id = "m1";
  sender = "ann@client.com";
  sender_role = client;
  subject = "contract";
  body = "the contract";
  priority_hint = high;
  deadline_minutes = pos 2;
  business_value = 90;
  risk_tag = legal;
  thread_history = [];
  expected_label = urgent;
  expected_action = ExpectedAction.escalate;
  expected_reply_keywords = [];
  recommended_escalation = some "legal_team";
  critical = true;
  predicted_label = none;
  handled_action = none;
  last_reply = none;
  resolved = false;
}

abbrev pub late_record : EmailRecord
late_record = record contract_record { id = "m2"; deadline_minutes = pos 60; critical = false }

abbrev pub handled_record : EmailRecord
handled_record = record contract_record {
  resolved = true;
  handled_action = some ExpectedAction.escalate;
  predicted_label = some urgent;
}

abbrev pub scenario : Scenario
scenario = record {
  time_budget = 2;
  risk_level = medium;
  emails = contract_record ∷ [];
  interruptions = record { trigger_minute = 1; email = late_record } ∷ [];
}

abbrev pub start : Env exact
start = record {
  persona = balanced;
  persona_profile = profile;
  emails = handled_record ∷ [];
  pending_interruptions = record { trigger_minute = 1; email = late_record } ∷ [];
  time_remaining = 20;
  current_minute = 0;
  risk_level = medium;
  action_history = [];
  total_reward = whole exact 0;
  last_priority_order = [];
  best_priority_similarity = whole exact 0;
  deadline_penalized_ids = [];
}

abbrev pub put_off_contract : Action
put_off_contract = record {
  action_type = defer;
  email_id = some "m1";
  label = none;
  content = none;
  priority_order = [];
  escalate_to = none;
}

abbrev pub escalate_late : Action
escalate_late = record put_off_contract { action_type = escalate; email_id = some "m2" }

abbrev pub detectors : Detectors
detectors = record { injection_found = λ s. false; risk_found = λ s. true; lower = λ s. s }

abbrev pub library : Library exact
library = record { two_places = λ x. "0.00"; atan_over_pi = λ x. x }
