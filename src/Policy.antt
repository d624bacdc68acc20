-- ===== src/Policy.antt =====
-- app/copilot/policy.py: the deterministic policy, one call of `next_action` at a time.
-- `sorted(…, reverse=True)` on a tuple of keys is a stable insertion sort, largest key first.
pub mod Classifier
pub mod Ranking
pub mod Order
pub mod Hybrid
use autonomous_executive_ema.Base.{
  ℕ, ◌<◌, String, Bool, true, false, ◌&&◌, not, Option, none, some, List, [], ◌∷◌, map, ltb,
  if◌then◌else◌, or_default, null, Dict, lookup, insert, elem, is_some,
}
use autonomous_executive_ema.Models.{
  Observation, ObservationEmail, Action, LabelType, normal, classify, reply, defer, escalate,
  prioritize, is_spam, is_urgent, is_sensitive, escalation_role_for,
}
use Classifier.{Lexicon, classify_heuristic}
use Ranking.{sort_by, opening_before, ranked_before}

-- The dataclass `BaselinePolicy`; `handled_ids` is a set, kept as a list.
pub record BaselinePolicy : Type 0 where
  pub did_prioritize : Bool
  pub predicted_labels : Dict LabelType
  pub handled_ids : List String

abbrev pub fresh : BaselinePolicy
fresh = record { did_prioritize = false; predicted_labels = []; handled_ids = [] }

abbrev pub ids : List ObservationEmail → List String
ids = map (λ e. e.id)

abbrev pub acknowledgement : String
acknowledgement =
    "Acknowledged. We are treating this as urgent and will share a concrete timeline with mitigation details shortly."

abbrev pub prioritize_action : List String → Action
prioritize_action order = record {
  action_type = prioritize;
  email_id = none;
  label = none;
  content = none;
  priority_order = order;
  escalate_to = none;
}

abbrev pub classify_action : ObservationEmail → LabelType → Action
classify_action e label = record {
  action_type = classify;
  email_id = some e.id;
  label = some label;
  content = none;
  priority_order = [];
  escalate_to = none;
}

abbrev pub escalate_action : ObservationEmail → Action
escalate_action e = record {
  action_type = escalate;
  email_id = some e.id;
  label = none;
  content = none;
  priority_order = [];
  escalate_to = some (escalation_role_for e.risk_tag);
}

abbrev pub reply_action : ObservationEmail → Action
reply_action e = record {
  action_type = reply;
  email_id = some e.id;
  label = none;
  content = some acknowledgement;
  priority_order = [];
  escalate_to = none;
}

abbrev pub defer_action : ObservationEmail → Action
defer_action e = record {
  action_type = defer;
  email_id = some e.id;
  label = none;
  content = none;
  priority_order = [];
  escalate_to = none;
}

-- The body of the loop over `ranked`, for an email that is not spam.
unfoldable pub decide : LabelType → ObservationEmail → Action
decide label e =
    if is_urgent label && is_sensitive e.risk_tag
    then escalate_action e
    else if is_urgent label
    then reply_action e
    else defer_action e

-- The first email whose id has no predicted label.
unfoldable pub first_unlabelled : Dict LabelType → List ObservationEmail → Option ObservationEmail
first_unlabelled labels [] = none
first_unlabelled labels (e ∷ es) =
    if is_some (lookup e.id labels) then first_unlabelled labels es else some e

-- The loop over `ranked`: handled emails are skipped, spam is marked handled and skipped, and the
-- first other email is marked handled and acted on.
unfoldable pub next_decision :
    Dict LabelType → List String → List ObservationEmail → Option Action × List String
next_decision labels handled [] = (none, handled)
next_decision labels handled (e ∷ es) =
    let label = or_default (lookup e.id labels) normal in
    let skipped = next_decision labels handled es in
    let marked = next_decision labels (e.id ∷ handled) es in
    let acted : Option Action × List String = (some (decide label e), e.id ∷ handled) in
    if elem e.id handled then skipped else if is_spam label then marked else acted

-- What `next_action` does once every email has a label.
unfoldable pub settle : BaselinePolicy → Observation → Option Action × BaselinePolicy
settle p o =
    let ranked = sort_by ranked_before o.emails in
    let (found, handled) = next_decision p.predicted_labels p.handled_ids ranked in
    let p' = record p { handled_ids = handled } in
    elim found [
      | some a ↦ (some a, p')
      | none ↦
          if ltb 0 o.remaining_interruptions && not (null o.emails)
          then (some (prioritize_action (ids ranked)), p')
          else (none, p')
    ]

unfoldable pub label_or_settle :
    Lexicon → BaselinePolicy → Observation → Option Action × BaselinePolicy
label_or_settle lex p o = elim (first_unlabelled p.predicted_labels o.emails) [
  | some e ↦
      let label = classify_heuristic lex e.subject e.body e.priority_hint e.risk_tag in
      (
        some (classify_action e label),
        record p { predicted_labels = insert e.id label p.predicted_labels },
      )
  | none ↦ settle p o
]

-- `BaselinePolicy.next_action`.
unfoldable pub next_action : Lexicon → BaselinePolicy → Observation → Option Action × BaselinePolicy
next_action lex p o = if p.did_prioritize then label_or_settle lex p o else (
  some (prioritize_action (ids (sort_by opening_before o.emails))),
  record p { did_prioritize = true },
)
