-- ===== src/Queue/Sync/Draft.antt =====
-- `resolve_draft` of app/saas/sync_service.py: cache, then model, then the provider's own wording,
-- then the policy's sentence. The model and the digest that keys the cache are an interface; the warning
-- that a used-up budget logs is in Budget, and left out here.
use autonomous_executive_ema.Base.{
  ℕ, ◌≡◌, arith, String, Bool, true, false, ◌&&◌, Option, none, some, List, [], Dict, lookup,
  insert, truthy, if◌then◌else◌,
}
use autonomous_executive_ema.Models.{ActionType, reply, is_outbound}
use autonomous_executive_ema.Queue.{DraftSource, llm, authored, generic}
use autonomous_executive_ema.Pipeline.{ProposedActionDraft}
use autonomous_executive_ema.Enrich.{FetchedMessage}
use autonomous_executive_ema.Budget.{LlmBudget, Usage, has_room, bill}
use autonomous_executive_ema.Learning.{Example}

pub record ResolvedDraft : Type 0 where
  pub body : Option String
  pub source : DraftSource
  pub rationale : List String

-- An entry of the draft cache, and what the drafter returns besides the cost of its call.
pub record Prose : Type 0 where
  pub body : String
  pub rationale : List String

pub record Verdict : Type 0 where
  pub status : String
  pub cost_usd : ℕ

-- The drafter, the verifier, which is told whether it may ask the model, the cache key and the provider's `draft_for`.
pub record Writer : Type 0 where
  pub draft : FetchedMessage → ProposedActionDraft → List Example → Option (Prose × ℕ)
  pub verify : Bool → String → FetchedMessage → ActionType → Verdict
  pub draft_key : FetchedMessage → ActionType → List Example → String
  pub draft_for : String → Option String
  pub ledger_up : Bool

-- What one sync carries from draft to draft.
pub record Desk : Type 0 where
  pub cache : Dict Prose
  pub budget : Option LlmBudget
  pub ledger : List Usage

abbrev pub is_reply : ActionType → Bool
is_reply reply = true
is_reply _ = false

-- `_draft_text`.
unfoldable pub draft_text : Writer → ProposedActionDraft → Option String
draft_text wr p =
    if is_reply p.action_type
    then elim (wr.draft_for p.email_id) [
      | none ↦ p.content
      | some text ↦ if truthy text then some text else p.content
    ]
    else p.content

abbrev pub is_text : Option String → Bool
is_text none = false
is_text (some s) = truthy s

unfoldable pub fall_back : Option String → ResolvedDraft
fall_back text = record {
  body = text;
  source = if is_text text then authored else generic;
  rationale = [];
}

abbrev pub room : Option LlmBudget → Bool
room none = true
room (some b) = has_room b

-- `budget.record(…)`, when there is a budget.
unfoldable pub charge : Writer → ℕ → String → Desk → Desk
charge wr cost purpose d = elim d.budget [
  | none ↦ d
  | some b ↦
      let (b', ledger) = bill b cost purpose wr.ledger_up d.ledger in
      record d { budget = some b'; ledger = ledger }
]

abbrev pub written : Prose → ResolvedDraft
written p = record { body = some p.body; source = llm; rationale = p.rationale }

unfoldable pub ask_model :
    Writer → FetchedMessage → ProposedActionDraft → List Example → Desk → ResolvedDraft × Desk
ask_model wr m p examples d = elim (wr.draft m p examples) [
  | none ↦ (fall_back (draft_text wr p), d)
  | some (prose, cost) ↦
      let charged = charge wr cost "draft" d in
      (
        written prose,
        record charged {
          cache = insert (wr.draft_key m p.action_type examples) prose charged.cache;
        },
      )
]

abbrev pub cached :
    Writer → FetchedMessage → ProposedActionDraft → List Example → Desk → Option Prose
cached wr m p examples d = elim (lookup (wr.draft_key m p.action_type examples) d.cache) [
  | none ↦ none
  | some prose ↦ if truthy prose.body then some prose else none
]

unfoldable pub resolve_draft :
    Writer
    → Bool
    → Option FetchedMessage
    → ProposedActionDraft
    → List Example
    → Desk
    → ResolvedDraft × Desk
resolve_draft wr live_llm message p examples d = elim message [
  | none ↦ (fall_back (draft_text wr p), d)
  | some m ↦
      if is_outbound p.action_type
      then elim (cached wr m p examples d) [
        | some prose ↦ (written prose, d)
        | none ↦
            if live_llm && room d.budget
            then ask_model wr m p examples d
            else (fall_back (draft_text wr p), d)
      ]
      else (fall_back (draft_text wr p), d)
]

-- With drafting off, or the budget used up, a draft costs nothing: cache, budget and ledger stay.
pub resolve_draft_free :
    (wr : Writer) (live_llm : Bool) (message : Option FetchedMessage) (p : ProposedActionDraft)
    (examples : List Example) (d : Desk)
    → (live_llm && room d.budget) ≡ false
    → (resolve_draft wr live_llm message p examples d).1 ≡ d
unfolding resolve_draft
resolve_draft_free wr live_llm message p examples d h = ground arith

-- A draft is marked "generic" only when it has no text: the policy's own sentence is marked
-- "authored".
pub generic_draft_is_empty :
    (wr : Writer) (live_llm : Bool) (message : Option FetchedMessage) (p : ProposedActionDraft)
    (examples : List Example) (d : Desk)
    → (resolve_draft wr live_llm message p examples d).0.source ≡ generic
    → is_text (resolve_draft wr live_llm message p examples d).0.body ≡ false
unfolding resolve_draft ask_model fall_back
generic_draft_is_empty wr live_llm message p examples d h = ground arith
