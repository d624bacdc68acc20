-- ===== src/Queue/Sync.antt =====
-- `_sync` of app/saas/sync_service.py: from the fetched messages to the rows of the queue. The
-- children hold its parts. The write of the draft cache to disk is left out.
pub mod Draft
pub mod Messages
pub mod Propose
pub mod Spending
pub mod Labels
use autonomous_executive_ema.Base.{
  ℕ, ◌+◌, String, Bool, true, false, not, Option, none, some, List, [], ◌∷◌, ◌++◌, map, length,
  elem, str_eq, ◌&&◌, Dict, lookup, if◌then◌else◌,
}
use autonomous_executive_ema.Models.{ActionType, classify, is_spam}
use autonomous_executive_ema.Policy.Classifier.{Lexicon}
use autonomous_executive_ema.Pipeline.{ProposedActionDraft, run_policy, to_proposals}
use autonomous_executive_ema.Enrich.{FetchedMessage, enrich_message, to_observation}
use autonomous_executive_ema.Budget.{LlmBudget, Usage, open_budget}
use autonomous_executive_ema.Learning.{suppressed, few_shot_examples, Example}
use autonomous_executive_ema.Queue.{
  World, MessageRow, Connection, MailProvider, Services, CommitmentRow, theirs, get_connection,
  on_connection,
}
use autonomous_executive_ema.Queue.Commitments.{upsert_all}
use autonomous_executive_ema.Queue.Review.{
  Result, ok, err, ◌>>=◌, or_raise, require_active_plan, connection_not_found, audit,
}
use Draft.{Writer, Desk, Prose}
use Messages.{store_all, message_by_id, signals_by_id}
use Propose.{Job, Round, Groups, propose_all}
use Labels.{apply_labels}

-- The arguments, the settings and what one fetch returned.
pub record SyncInput : Type 0 where
  pub org_id : String
  pub user_id : Option String
  pub connection_id : String
  pub now : ℕ
  pub provider : MailProvider
  pub has_batch : Bool
  pub writer : Writer
  pub services : Services
  pub lexicon : Lexicon
  pub fetched : List FetchedMessage
  pub new_message_id : String → String
  -- The argument, the setting, and whether the organization is a demo sandbox.
  pub asked_live : Option Bool
  pub drafting_enabled : Bool
  pub is_sandbox : Bool
  pub monthly_budget : ℕ
  pub ledger_read : Option ℕ

-- A sandbox never reaches the model unless the caller asked for it explicitly.
unfoldable pub live_llm : SyncInput → Bool
live_llm i = elim i.asked_live [ some b ↦ b | none ↦ i.drafting_enabled && not i.is_sandbox ]

abbrev pub is_classify : ActionType → Bool
is_classify classify = true
is_classify _ = false

abbrev pub is_spam_label : ProposedActionDraft → Bool
is_spam_label p = elim p.label [ none ↦ false | some l ↦ is_classify p.action_type && is_spam l ]

unfoldable pub spam_ids : List ProposedActionDraft → List String
spam_ids [] = []
spam_ids (p ∷ ps) = if is_spam_label p then p.email_id ∷ spam_ids ps else spam_ids ps

-- `_record_commitments`.
unfoldable pub record_commitments :
    Services
    → String
    → List String
    → Dict MessageRow
    → List FetchedMessage
    → List CommitmentRow × ℕ
    → List CommitmentRow × ℕ
record_commitments s org skip_ids rows [] acc = acc
record_commitments s org skip_ids rows (m ∷ ms) acc =
    let found = s.extract m.body theirs true in
    let added : List CommitmentRow × ℕ = elim (lookup m.provider_message_id rows) [
      | none ↦ acc
      | some row ↦
          let (commitments, new) = upsert_all s org row found acc.0 in (commitments, acc.1 + new)
    ] in
    record_commitments s org skip_ids rows ms
      (if elem m.provider_message_id skip_ids then acc else added)

pub record SyncReport : Type 0 where
  pub messages : ℕ
  pub proposed : ℕ
  pub auto_executed : ℕ
  pub skipped : ℕ
  pub downgraded : ℕ
  pub commitments : ℕ

-- `MailboxRepository.set_synced_at`.
unfoldable pub set_synced_at : String → String → ℕ → List Connection → List Connection
set_synced_at org id now [] = []
set_synced_at org id now (c ∷ cs) =
    if str_eq c.id id && str_eq c.org_id org
    then record c { synced_at = some now } ∷ cs
    else c ∷ set_synced_at org id now cs

-- The proposals for a fetch into the mailbox of `account`.
abbrev pub proposals_for : SyncInput → String → List ProposedActionDraft
proposals_for i account =
    to_proposals (run_policy i.lexicon (to_observation i.lexicon i.fetched account 240))

-- Where the tables stand once the messages and the promises in them are stored.
unfoldable pub store_messages : SyncInput → String → World → World × (Dict MessageRow × ℕ)
store_messages i account w =
    let (table, rows) =
      store_all i.org_id i.connection_id i.new_message_id (λ m. enrich_message i.lexicon m account)
        i.fetched (w.messages, []) in
    let (commitments, found) =
      record_commitments i.services i.org_id (spam_ids (proposals_for i account)) rows i.fetched
        (w.commitments, 0) in
    (record w { messages = table; commitments = commitments }, (rows, found))

-- The suppressed pairs are read before the messages are stored, the examples after it.
unfoldable pub job_for : SyncInput → String → World → World → Dict MessageRow → Job
job_for i account w stored rows = record {
  org_id = i.org_id;
  now = i.now;
  provider = i.provider;
  has_batch = i.has_batch;
  writer = i.writer;
  live_llm = live_llm i;
  suppressed = suppressed w i.org_id;
  examples = λ t. if live_llm i then few_shot_examples stored i.org_id t 3 else [];
  message_by_id = message_by_id i.fetched [];
  signals_by_id = signals_by_id (to_observation i.lexicon i.fetched account 240).emails [];
  row_by_provider_id = rows;
}

unfoldable pub desk_for : SyncInput → Dict Prose → List Usage → Desk
desk_for i cache ledger = record {
  cache = cache;
  budget = if live_llm i then some (open_budget i.org_id i.monthly_budget i.ledger_read) else none;
  ledger = ledger;
}

unfoldable pub start : World → Desk → Round
start w d = record {
  world = w;
  desk = d;
  auto_by_label = [];
  proposed_count = 0;
  skipped_count = 0;
  downgraded_count = 0;
}

-- The work of `_sync` once its two checks passed.
unfoldable pub run_sync :
    SyncInput → Connection → Dict Prose → List Usage → World → SyncReport × World
run_sync i connection cache ledger w =
    let account = connection.account_email in
    let (stored, (rows, found)) = store_messages i account w in
    let job = job_for i account w stored rows in
    let round =
      propose_all job (proposals_for i account) (start stored (desk_for i cache ledger)) in
    let (labelled, auto_count) = apply_labels job round.auto_by_label round.world in
    let synced = record labelled {
      connections = set_synced_at i.org_id i.connection_id i.now labelled.connections;
    } in
    (
      record {
        messages = length i.fetched;
        proposed = round.proposed_count;
        auto_executed = auto_count;
        skipped = round.skipped_count;
        downgraded = round.downgraded_count;
        commitments = found;
      },
      audit "inbox.sync" i.org_id i.user_id (on_connection i.connection_id) true synced,
    )

unfoldable pub syncable : SyncInput → World → Result Connection
syncable i w = do
  active ← require_active_plan w i.now i.org_id
  or_raise (get_connection i.org_id i.connection_id w.connections) connection_not_found

unfoldable pub sync : SyncInput → Dict Prose → List Usage → World → Result SyncReport × World
sync i cache ledger w = elim (syncable i w) [
  | err e ↦ (err e, w)
  | ok connection ↦ let (report, w') = run_sync i connection cache ledger w in (ok report, w')
]
