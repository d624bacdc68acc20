-- ===== src/Models.antt =====
-- The vocabulary of app/core/models.py: the literal types as enumerations, the pydantic models
-- that the policy reads and returns as records. A business value is a number of hundredths.
use autonomous_executive_ema.Base.{ℕ, String, Bool, true, false, ◌||◌, Option, List, if◌then◌else◌}

pub data ActionType : Type 0 where
  classify reply defer escalate prioritize : ActionType

pub data LabelType : Type 0 where
  spam normal urgent : LabelType

pub data Level : Type 0 where
  low medium high : Level

pub data SenderRole : Type 0 where
  client internal vendor unknown : SenderRole

pub data RiskTag : Type 0 where
  untagged legal security finance ops : RiskTag

pub data PersonaType : Type 0 where
  strict_ceo balanced chill_manager : PersonaType

pub record ThreadEntry : Type 0 where
  pub from_address : String
  pub text : String

pub record ObservationEmail : Type 0 where
  pub id : String
  pub sender : String
  pub sender_role : SenderRole
  pub subject : String
  pub body : String
  pub priority_hint : Level
  pub deadline_minutes : ℕ
  pub business_value : ℕ
  pub risk_tag : RiskTag
  pub thread_history : List ThreadEntry

pub record Observation : Type 0 where
  pub emails : List ObservationEmail
  pub time_remaining : ℕ
  pub pending_actions : List String
  pub risk_level : Level
  pub current_minute : ℕ
  pub persona : PersonaType
  pub remaining_interruptions : ℕ

pub record Action : Type 0 where
  pub action_type : ActionType
  pub email_id : Option String
  pub label : Option LabelType
  pub content : Option String
  pub priority_order : List String
  pub escalate_to : Option String

-- Tests on the enumerations.
abbrev pub is_high : Level → Bool
is_high high = true
is_high _ = false

abbrev pub is_spam : LabelType → Bool
is_spam spam = true
is_spam _ = false

abbrev pub is_urgent : LabelType → Bool
is_urgent urgent = true
is_urgent _ = false

abbrev pub is_legal : RiskTag → Bool
is_legal legal = true
is_legal _ = false

abbrev pub is_security : RiskTag → Bool
is_security security = true
is_security _ = false

-- `risk_tag in {"legal", "security"}`.
abbrev pub is_sensitive : RiskTag → Bool
is_sensitive t = is_legal t || is_security t

-- `action_type in {"reply", "escalate"}`.
abbrev pub is_outbound : ActionType → Bool
is_outbound reply = true
is_outbound escalate = true
is_outbound _ = false

abbrev pub is_prioritize : ActionType → Bool
is_prioritize prioritize = true
is_prioritize _ = false

abbrev pub legal_team : String
legal_team = "legal_team"

abbrev pub chief_of_staff : String
chief_of_staff = "chief_of_staff"

unfoldable pub escalation_role_for : RiskTag → String
escalation_role_for t = if is_legal t then legal_team else chief_of_staff
