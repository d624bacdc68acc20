-- ===== src/Sim.antt =====
-- research/sim/environment.py: the state of the simulated mailbox and what is computed from it, with
-- the emails and scenarios of app/core/models.py and the helpers of app/core/utils.py. `build_scenario`
-- is outside: a scenario is an argument. Floats are those of `Floats`, the tables of data/settings.yaml
-- are `Settings`.
pub mod Scoring
pub mod Actions
pub mod Steps
pub mod Metrics
pub mod Grader
pub mod Safety
pub mod Endings
pub mod Mail
pub mod Final
pub mod Penalties
pub mod Bounds
use autonomous_executive_ema.Base.{
  ℕ, ◌+◌, ◌-◌, ◌*◌, String, Bool, true, false, not, ◌&&◌, ◌||◌, Option, none, some, List, [], ◌∷◌,
  map, keep, length, null, leb, ltb, elem, truthy, if◌then◌else◌, or_default, str_eq, ℤ, pos, ◌-ℤ◌,
  or_zero, not_positive, Floats, whole, hundredths, fmax, clip_score, count_if,
}
use autonomous_executive_ema.Models.{
  ActionType, LabelType, Level, low, medium, high, SenderRole, RiskTag, PersonaType, balanced,
  ThreadEntry, ObservationEmail, Observation, Action, is_spam,
}

pub data ExpectedAction : Type 0 where
  reply defer escalate ignore : ExpectedAction

-- `handled_action` is never `ignore`.
pub record EmailRecord : Type 0 where
  pub id : String
  pub sender : String
  pub sender_role : SenderRole
  pub subject : String
  pub body : String
  pub priority_hint : Level
  pub deadline_minutes : ℤ
  pub business_value : ℕ
  pub risk_tag : RiskTag
  pub thread_history : List ThreadEntry
  pub expected_label : LabelType
  pub expected_action : ExpectedAction
  pub expected_reply_keywords : List String
  pub recommended_escalation : Option String
  pub critical : Bool
  pub predicted_label : Option LabelType
  pub handled_action : Option ExpectedAction
  pub last_reply : Option String
  pub resolved : Bool

pub record InterruptionEvent : Type 0 where
  pub trigger_minute : ℕ
  pub email : EmailRecord

pub record Scenario : Type 0 where
  pub time_budget : ℕ
  pub risk_level : Level
  pub emails : List EmailRecord
  pub interruptions : List InterruptionEvent

-- `compute_pending_actions`.
unfoldable pub is_open : EmailRecord → Bool
is_open e = not (is_spam e.expected_label) && not e.resolved

unfoldable pub compute_pending_actions : List EmailRecord → List String
compute_pending_actions emails = map (λ e. e.id) (keep is_open emails)

-- `derive_risk_level`.
unfoldable pub is_critical_open : EmailRecord → Bool
is_critical_open e = e.critical && not e.resolved

unfoldable pub derive_risk_level : List EmailRecord → Level
derive_risk_level emails =
    let n = count_if is_critical_open emails in
    if leb 2 n then high else if leb 1 n then medium else low

-- An email as `_build_observation` shows it.
unfoldable pub observed : EmailRecord → ObservationEmail
observed e = record {
  id = e.id;
  sender = e.sender;
  sender_role = e.sender_role;
  subject = e.subject;
  body = e.body;
  priority_hint = e.priority_hint;
  deadline_minutes = or_zero e.deadline_minutes;
  business_value = e.business_value;
  risk_tag = e.risk_tag;
  thread_history = e.thread_history;
}

-- What `_advance_time` does to one email.
unfoldable pub run_down : ℕ → EmailRecord → EmailRecord
run_down cost m =
    if not m.resolved then record m { deadline_minutes = m.deadline_minutes -ℤ pos cost } else m

module _ (F : Floats) where
  pub record PersonaProfile : Type 0 where
    pub deadline_penalty_multiplier : F.Float
    pub terminal_penalty_multiplier : F.Float
    pub urgent_defer_penalty_multiplier : F.Float
    pub redundant_penalty_multiplier : F.Float

  -- The tables of data/settings.yaml, `str.lower` and scipy's `kendalltau`.
  pub record Settings : Type 0 where
    pub action_cost_minutes : ActionType → Option ℕ
    pub persona_profiles : PersonaType → Option PersonaProfile
    pub lower : String → String
    pub kendalltau : List ℕ → List ℕ → Option F.Float

  -- `get_persona_profile`: none where the table lacks `balanced` too, a `KeyError`.
  unfoldable pub get_persona_profile : Settings → PersonaType → Option PersonaProfile
  get_persona_profile s p = elim (s.persona_profiles p) [
    | some profile ↦ some profile
    | none ↦ s.persona_profiles balanced
  ]

  -- `get_action_cost_minutes().get(action_type, 1)`.
  unfoldable pub cost_of : Settings → ActionType → ℕ
  cost_of s t = or_default (s.action_cost_minutes t) 1

  pub record Env : Type 0 where
    pub persona : PersonaType
    pub persona_profile : PersonaProfile
    pub emails : List EmailRecord
    pub pending_interruptions : List InterruptionEvent
    pub time_remaining : ℕ
    pub current_minute : ℕ
    pub risk_level : Level
    pub action_history : List Action
    pub total_reward : F.Float
    pub last_priority_order : List String
    pub best_priority_similarity : F.Float
    pub deadline_penalized_ids : List String

  -- `ExecutiveEmailEnv.reset`, on the scenario that was built.
  unfoldable pub reset : PersonaType → PersonaProfile → Scenario → Env
  reset persona profile s = record {
    persona = persona;
    persona_profile = profile;
    emails = s.emails;
    pending_interruptions = s.interruptions;
    time_remaining = s.time_budget;
    current_minute = 0;
    risk_level = s.risk_level;
    action_history = [];
    total_reward = whole F 0;
    last_priority_order = [];
    best_priority_similarity = whole F 0;
    deadline_penalized_ids = [];
  }

  -- `_build_observation`.
  unfoldable pub build_observation : Env → Observation
  build_observation e = record {
    emails = map observed e.emails;
    time_remaining = e.time_remaining;
    pending_actions = compute_pending_actions e.emails;
    risk_level = e.risk_level;
    current_minute = e.current_minute;
    persona = e.persona;
    remaining_interruptions = length e.pending_interruptions;
  }

  -- `_is_done`.
  unfoldable pub is_done : Env → Bool
  is_done e =
      if leb e.time_remaining 0
      then true
      else if not (null e.pending_interruptions)
      then false
      else leb (length (compute_pending_actions e.emails)) 0

  -- `_advance_time`.
  unfoldable pub advance_time : ℕ → Env → Env
  advance_time cost e = record e {
    time_remaining = e.time_remaining - cost;
    current_minute = e.current_minute + cost;
    emails = map (run_down cost) e.emails;
  }
