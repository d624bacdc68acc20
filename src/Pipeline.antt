-- ===== src/Pipeline.antt =====
-- app/copilot/pipeline.py: the decision loop over one observation, and the proposals it makes.
pub mod Plan
mod Steps
mod Labelling
mod Deciding
pub mod Coverage
pub mod Keepalive
pub mod Refinement
use autonomous_executive_ema.Base.{
  ℕ, zero, suc, ◌+◌, ◌*◌, String, Bool, Option, none, some, List, [], ◌∷◌, length, if◌then◌else◌,
  truthy,
}
use autonomous_executive_ema.Models.{
  Observation, Action, ActionType, LabelType, is_prioritize, is_outbound,
}
use autonomous_executive_ema.Policy.{BaselinePolicy, fresh, next_action}
use autonomous_executive_ema.Policy.Classifier.{Lexicon}

pub record ProposedActionDraft : Type 0 where
  pub email_id : String
  pub action_type : ActionType
  pub content : Option String
  pub escalate_to : Option String
  pub label : Option LabelType
  pub requires_approval : Bool

-- The `for` loop of `run_policy` from a given policy state, with the rounds that are left.
unfoldable pub drive : Lexicon → ℕ → BaselinePolicy → Observation → List Action
drive lex zero p o = []
drive lex (suc k) p o =
    let (action, p') = next_action lex p o in
    elim action [ none ↦ [] | some a ↦ a ∷ drive lex k p' o ]

abbrev pub max_iterations : Observation → ℕ
max_iterations o = length o.emails * 4 + 8

unfoldable pub run_policy : Lexicon → Observation → List Action
run_policy lex o = drive lex (max_iterations o) fresh o

abbrev pub to_proposal : Action → String → ProposedActionDraft
to_proposal a id = record {
  email_id = id;
  action_type = a.action_type;
  content = a.content;
  escalate_to = a.escalate_to;
  label = a.label;
  requires_approval = is_outbound a.action_type;
}

unfoldable pub to_proposals : List Action → List ProposedActionDraft
to_proposals [] = []
to_proposals (a ∷ as_) =
    let rest = to_proposals as_ in
    if is_prioritize a.action_type then rest else elim a.email_id [
      | none ↦ rest
      | some id ↦ if truthy id then to_proposal a id ∷ rest else rest
    ]
