-- ===== src/Tests/Approvals.antt =====
-- The theorems on the approval queue, on a short history and on a queue with one reply.
use autonomous_executive_ema.Base.{
  ◌∷◌, if◌then◌else◌, ◌≤◌, ◌≡◌, ◌⊎◌, refl, true, false, [], All, any, keep, strip, lookup, none,
  some,
}
use autonomous_executive_ema.Queue.{is_outbound_write, get_action, get_message, executed, failed}
use autonomous_executive_ema.Queue.Counts.{deliveries}
use autonomous_executive_ema.Queue.Execute.{execute, execute_as, call}
use autonomous_executive_ema.Queue.Invariant.{Quota, is_backing}
use autonomous_executive_ema.Queue.Invariant.Syncing.{outbound}
use autonomous_executive_ema.Queue.Review.{
  approve, reject, approvable, undecided, ok, err, already_decided, carry_out, with_edit,
  is_amended, require_active_plan,
}
use autonomous_executive_ema.Queue.Retry.{attempt, empty_summary}
use autonomous_executive_ema.Queue.Retry.Unedited.{retry_drops_edit, reply_for}
use autonomous_executive_ema.Queue.Review.Once.{approve_is_final, result_of}
use autonomous_executive_ema.Budget.{LlmBudget}
use autonomous_executive_ema.Queue.Sync.{sync}
use autonomous_executive_ema.Queue.Sync.Propose.{Job, Round}
use autonomous_executive_ema.Queue.Sync.Draft.{Writer, Desk, resolve_draft, fall_back, draft_text}
use autonomous_executive_ema.Queue.Trail.{
  disconnected, run, delivered_once, sends_are_decided, calls_fit_status, sync_sends_nothing,
}
use autonomous_executive_ema.Queue.{generic}
use autonomous_executive_ema.Billing.{
  current_entitlement, require_active, get_active_for_org, latest,
}
use autonomous_executive_ema.Models.{reply}
use autonomous_executive_ema.Pipeline.{ProposedActionDraft}
use autonomous_executive_ema.Queue.{ActionRow, is_failed, active_types_for_message}
use autonomous_executive_ema.Tests.Data.{
  history, sync_input, accepting, refusing, services, queue, waiting, stored_mail, writer,
  hello_mail,
}

delivered_once_example : All (λ r. deliveries r.id (run history).sent ≤ 1) (run history).rows
delivered_once_example = delivered_once history

sends_are_decided_example :
    All
      (λ s.
        (is_outbound_write s.write ≡ false)
        ⊎ ((any (is_backing s) (run (disconnected false "acme" "ann" "box" ∷ history)).rows ≡ true)
            ⊎ (any (is_backing s) (run (disconnected false "acme" "ann" "box" ∷ history)).removed
                ≡ true)))
      (run (disconnected false "acme" "ann" "box" ∷ history)).sent
sends_are_decided_example = sends_are_decided (disconnected false "acme" "ann" "box" ∷ history)

calls_fit_status_example : All (λ r. Quota r.status r.id (run history).sent) (run history).rows
calls_fit_status_example = calls_fit_status history

sync_sends_nothing_example :
    outbound (sync sync_input [] [] (run history)).1.sent ≡ outbound (run history).sent
sync_sends_nothing_example = sync_sends_nothing history sync_input [] []

approved_now : (approve services accepting 7 "acme" "ann" 1 none queue).0 ≡ ok tt
unfolding approve approvable undecided require_active_plan current_entitlement require_active
    get_active_for_org latest get_action keep get_message
approved_now = refl

approve_is_final_example :
    (undecided (approve services accepting 7 "acme" "ann" 1 none queue).1 "acme" 1
      ≡ err (already_decided executed))
    ⊎ (undecided (approve services accepting 7 "acme" "ann" 1 none queue).1 "acme" 1
        ≡ err (already_decided failed))
approve_is_final_example =
    approve_is_final services accepting 7 "acme" "ann" none 1 queue approved_now

rejected_now : (reject 7 "acme" "ann" 1 queue).0 ≡ ok tt
unfolding reject undecided get_action
rejected_now = refl

waiting-found : get_action "acme" 1 queue.rows ≡ some waiting
unfolding get_action
waiting-found = refl

edit-refused :
    (result_of services refusing 7 "acme" "ann" (some "Thanks, Ann.") waiting stored_mail queue).ok
    ≡ false
unfolding execute execute_as call with_edit is_amended strip
edit-refused = refl

retry_drops_edit_example :
    let after =
      carry_out services refusing 7 "acme" "ann" (some "Thanks, Ann.") waiting stored_mail queue in
    (row : ActionRow) × (get_action "acme" 1 after.rows ≡ some row)
    × (is_failed row.status ≡ true)
    × ((attempt accepting 9 "acme" row stored_mail (after, empty_summary)).0.sent
        ≡ reply_for accepting waiting stored_mail after ∷ after.sent)
retry_drops_edit_example =
    retry_drops_edit services refusing 7 "acme" "ann" (some "Thanks, Ann.") accepting 9 waiting
      stored_mail queue empty_summary waiting-found edit-refused refl

abbrev silent_proposal : ProposedActionDraft
silent_proposal = record {
  email_id = "m3";
  action_type = reply;
  content = none;
  escalate_to = none;
  label = none;
  requires_approval = true;
}

abbrev desk : Desk
desk = record { cache = []; budget = none; ledger = [] }

silent_is_generic :
    (resolve_draft writer false (some hello_mail) silent_proposal [] desk).0.source ≡ generic
unfolding resolve_draft fall_back draft_text lookup
silent_is_generic = refl

abbrev failed_row : ActionRow
failed_row = record waiting { status = failed; decided_by = some "ann"; decided_at = some 7 }

-- A failed send does not count as proposed: a sync may propose the reply again.
failed_reply_not_active : active_types_for_message "acme" "m3" (failed_row ∷ []) ≡ []
unfolding active_types_for_message keep
failed_reply_not_active = refl

abbrev paid_writer : Writer
paid_writer = record writer {
  draft = λ m p examples. some (record { body = "Noted."; rationale = [] }, 4);
  verify =
      λ asks_model body m t. record { status = "checked"; cost_usd = if asks_model then 3 else 0 };
}

abbrev paid_job : Job
paid_job = record {
  org_id = "acme";
  now = 5;
  provider = accepting;
  has_batch = true;
  writer = paid_writer;
  live_llm = true;
  suppressed = λ t r. none;
  examples = λ t. [];
  message_by_id = ("m3", hello_mail) ∷ [];
  signals_by_id = [];
  row_by_provider_id = ("m3", stored_mail) ∷ [];
}

abbrev opened_budget : LlmBudget
opened_budget = record { org_id = "acme"; limit_usd = 6; spent_usd = 5 }

abbrev round : Round
round = record {
  world = record queue { rows = [] };
  desk = record {
    cache = [];
    budget = some opened_budget;
    ledger = record { org_id = "acme"; cost_usd = 5; purpose = "draft" } ∷ [];
  };
  auto_by_label = [];
  proposed_count = 0;
  skipped_count = 0;
  downgraded_count = 0;
}
