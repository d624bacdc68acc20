-- ===== src/Learning.antt =====
-- app/saas/learning.py: what the decisions of an organization's reviewers change.
pub mod Suppression
use autonomous_executive_ema.Base.{
  ℕ, ◌+◌, ◌*◌, String, Bool, true, false, not, ◌&&◌, Option, none, some, List, [], ◌∷◌, ◌++◌, map,
  leb, ltb, take, keep, count_if, str_eq, strip, truthy, or_default, if◌then◌else◌,
}
use autonomous_executive_ema.Models.{ActionType, SenderRole, client, internal, vendor, unknown}
use autonomous_executive_ema.Policy.Ranking.{sort_by}
use autonomous_executive_ema.Queue.{
  World, ActionRow, MessageRow, Outcome, approved, edited, refused, auto, get_message, same_type,
}

abbrev pub decision_window : ℕ
decision_window = 200

abbrev pub min_decisions : ℕ
min_decisions = 3

-- A row of `list_decided`: the decided action and the signals of its message.
pub record Decision : Type 0 where
  pub action : ActionRow
  pub sender_role : SenderRole
  pub subject : String

abbrev pub is_human : Option Outcome → Bool
is_human (some approved) = true
is_human (some edited) = true
is_human (some refused) = true
is_human _ = false

abbrev pub newer : ActionRow → ActionRow → Bool
newer a b = ltb (or_default b.decided_at 0) (or_default a.decided_at 0)

-- The inner join with the message of the action.
unfoldable pub join : World → List ActionRow → List Decision
join w [] = []
join w (r ∷ rs) =
    let rest = join w rs in
    elim (get_message r.org_id r.message_id w.messages) [
      | none ↦ rest
      | some m ↦ record { action = r; sender_role = m.sender_role; subject = m.subject } ∷ rest
    ]

-- `ProposedActionRepository.list_decided`, newest first.
unfoldable pub list_decided : World → String → ℕ → List Decision
list_decided w org limit =
    take limit
      (join w (sort_by newer (keep (λ r. str_eq r.org_id org && is_human r.outcome) w.rows)))

pub record PairStats : Type 0 where
  pub approved_count : ℕ
  pub edited_count : ℕ
  pub rejected_count : ℕ

abbrev pub total : PairStats → ℕ
total s = s.approved_count + s.edited_count + s.rejected_count

abbrev pub accepted : PairStats → ℕ
accepted s = s.approved_count + s.edited_count

abbrev pub same_role : SenderRole → SenderRole → Bool
same_role client client = true
same_role internal internal = true
same_role vendor vendor = true
same_role unknown unknown = true
same_role _ _ = false

abbrev pub is_outcome : Outcome → Option Outcome → Bool
is_outcome approved (some approved) = true
is_outcome edited (some edited) = true
is_outcome refused (some refused) = true
is_outcome auto (some auto) = true
is_outcome _ _ = false

abbrev pub of_pair : ActionType → SenderRole → Outcome → Decision → Bool
of_pair t r o d =
    same_type t d.action.action_type && (same_role r d.sender_role && is_outcome o d.action.outcome)

-- The entry of `_pair_stats` for a pair.
unfoldable pub pair_stats : ActionType → SenderRole → List Decision → PairStats
pair_stats t r ds = record {
  approved_count = count_if (of_pair t r approved) ds;
  edited_count = count_if (of_pair t r edited) ds;
  rejected_count = count_if (of_pair t r refused) ds;
}

-- At least `min_decisions`, and at least four fifths of them rejections.
abbrev pub is_suppressed : PairStats → Bool
is_suppressed s = leb min_decisions (total s) && leb (4 * total s) (5 * s.rejected_count)

-- `suppressed_pairs(org).get((action_type, sender_role))`.
unfoldable pub suppressed : World → String → ActionType → SenderRole → Option PairStats
suppressed w org t r =
    let s = pair_stats t r (list_decided w org decision_window) in
    if is_suppressed s then some s else none

pub record Example : Type 0 where
  pub subject : String
  pub body : String

abbrev pub is_accepted : Option Outcome → Bool
is_accepted (some approved) = true
is_accepted (some edited) = true
is_accepted _ = false

abbrev pub draft_body : Decision → String
draft_body d = strip (or_default d.action.content "")

abbrev pub edited_first : Decision → Decision → Bool
edited_first a b = is_outcome edited a.action.outcome && not (is_outcome edited b.action.outcome)

-- `few_shot_examples`, with k of them at most.
unfoldable pub few_shot_examples : World → String → ActionType → ℕ → List Example
few_shot_examples w org t k =
    map (λ d. record { subject = d.subject; body = draft_body d })
      (take k (
        sort_by edited_first (
          keep
            (λ d.
              same_type t d.action.action_type
              && (is_accepted d.action.outcome && truthy (draft_body d)))
            (list_decided w org decision_window))))
