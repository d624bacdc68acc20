-- ===== src/Queue/Sync/Propose.antt =====
-- The loop of `_sync` over the proposals: skip, downgrade, hold for a human, or set aside as a label.
use autonomous_executive_ema.Base.{
  ℕ, ◌+◌, String, Bool, true, false, ◌&&◌, Option, none, some, List, [], ◌∷◌, ◌++◌, Dict, lookup,
  map, insert, or_default, ◌==◌, if◌then◌else◌,
}
use autonomous_executive_ema.Models.{
  ActionType, defer, LabelType, spam, normal, urgent, SenderRole, unknown, ObservationEmail,
}
use autonomous_executive_ema.Pipeline.{ProposedActionDraft}
use autonomous_executive_ema.Enrich.{FetchedMessage}
use autonomous_executive_ema.Learning.{PairStats, total, Example}
use autonomous_executive_ema.Queue.{
  World, MessageRow, MailProvider, add_label, WriteResult, proposed, executed, failed, auto, Status,
  Outcome, said, downgraded_from, create, blank_row, active_types_for_message, type_in, ActionRow,
}
use autonomous_executive_ema.Queue.Execute.{call, type_name}
use autonomous_executive_ema.Queue.Sync.Draft.{
  Writer, Desk, ResolvedDraft, resolve_draft, charge, is_text, room,
}

abbrev pub Groups : Type 0
Groups = Dict (List (ProposedActionDraft × MessageRow))

-- What stays fixed during one sync.
pub record Job : Type 0 where
  pub org_id : String
  pub now : ℕ
  pub provider : MailProvider
  pub has_batch : Bool
  pub writer : Writer
  pub live_llm : Bool
  pub suppressed : ActionType → SenderRole → Option PairStats
  pub examples : ActionType → List Example
  pub message_by_id : Dict FetchedMessage
  pub signals_by_id : Dict ObservationEmail
  pub row_by_provider_id : Dict MessageRow

pub record Round : Type 0 where
  pub world : World
  pub desk : Desk
  pub auto_by_label : Groups
  pub proposed_count : ℕ
  pub skipped_count : ℕ
  pub downgraded_count : ℕ

abbrev pub status_of : WriteResult → Status
status_of result = if result.ok then executed else failed

abbrev pub auto_outcome : WriteResult → Option Outcome
auto_outcome result = if result.ok then some auto else none

abbrev pub executed_time : WriteResult → ℕ → Option ℕ
executed_time result now = if result.ok then some now else none

abbrev pub skip : Round → Round
skip r = record r { skipped_count = r.skipped_count + 1 }

abbrev pub label_name : LabelType → String
label_name spam = "spam"
label_name normal = "normal"
label_name urgent = "urgent"

abbrev pub is_defer : ActionType → Bool
is_defer defer = true
is_defer _ = false

abbrev pub deferred_row :
    Job → ProposedActionDraft → MessageRow → SenderRole → PairStats → WriteResult → ℕ → ActionRow
deferred_row job p m role stats result id =
    record (blank_row job.org_id m.id defer (status_of result) false id) {
      label = some "deferred";
      outcome = auto_outcome result;
      execution_ref = result.provider_ref;
      executed_at = executed_time result job.now;
      rationale = downgraded_from p.action_type stats.rejected_count (total stats) role ∷ [];
    }

-- The team keeps rejecting this shape of proposal: file the message instead.
unfoldable pub downgrade :
    Job → ProposedActionDraft → MessageRow → SenderRole → PairStats → Round → Round
downgrade job p m role stats r =
    let (result, w) = call job.provider none (add_label p.email_id "deferred") r.world in
    record r {
      world = create (deferred_row job p m role stats result) w;
      downgraded_count = r.downgraded_count + 1;
    }

abbrev pub held_row :
    Job → ProposedActionDraft → MessageRow → ResolvedDraft → Option String → ℕ → ActionRow
held_row job p m drafted verdict id =
    record (blank_row job.org_id m.id p.action_type proposed true id) {
      content = drafted.body;
      escalate_to = p.escalate_to;
      label = elim p.label [ none ↦ none | some l ↦ some (label_name l) ];
      rationale = map said drafted.rationale;
      draft_source = some drafted.source;
      verification_status = verdict;
    }

-- The verification of a draft that has text, with its cost.
unfoldable pub verified : Job → ProposedActionDraft → ResolvedDraft → Desk → Option String × Desk
verified job p drafted d = elim (lookup p.email_id job.message_by_id) [
  | none ↦ (none, d)
  | some message ↦
      let asks_model = job.live_llm && room d.budget in
      let verdict =
        job.writer.verify asks_model (or_default drafted.body "") message p.action_type in
      let billed =
        if verdict.cost_usd == 0 then d else charge job.writer verdict.cost_usd "verify" d in
      if is_text drafted.body then (some verdict.status, billed) else (none, d)
]

-- An external action waits for a human.
unfoldable pub hold : Job → ProposedActionDraft → MessageRow → Round → Round
hold job p m r =
    let (drafted, d) =
      resolve_draft job.writer job.live_llm (lookup p.email_id job.message_by_id) p
        (job.examples p.action_type) r.desk in
    let (verdict, d') = verified job p drafted d in
    record r {
      world = create (held_row job p m drafted verdict) r.world;
      desk = d';
      proposed_count = r.proposed_count + 1;
    }

abbrev pub label_for : ProposedActionDraft → String
label_for p = elim p.label [
  | some l ↦ label_name l
  | none ↦ if is_defer p.action_type then "deferred" else type_name p.action_type
]

-- `auto_by_label.setdefault(label, []).append((prop, message_row))`.
unfoldable pub set_aside : ProposedActionDraft → MessageRow → Round → Round
set_aside p m r =
    let group = or_default (lookup (label_for p) r.auto_by_label) [] in
    record r { auto_by_label = insert (label_for p) (group ++ (p, m) ∷ []) r.auto_by_label }

abbrev pub role_of : Option ObservationEmail → SenderRole
role_of none = unknown
role_of (some e) = e.sender_role

unfoldable pub route : Job → ProposedActionDraft → MessageRow → List ActionType → Round → Round
route job p m active r =
    let role = role_of (lookup p.email_id job.signals_by_id) in
    if type_in p.action_type active
    then skip r
    else if p.requires_approval
    then elim (job.suppressed p.action_type role) [
      | some stats ↦ if type_in defer active then skip r else downgrade job p m role stats r
      | none ↦ hold job p m r
    ]
    else set_aside p m r

unfoldable pub propose_one : Job → ProposedActionDraft → Round → Round
propose_one job p r = elim (lookup p.email_id job.row_by_provider_id) [
  | none ↦ r
  | some m ↦ route job p m (active_types_for_message job.org_id m.id r.world.rows) r
]

unfoldable pub propose_all : Job → List ProposedActionDraft → Round → Round
propose_all job [] r = r
propose_all job (p ∷ ps) r = propose_all job ps (propose_one job p r)
