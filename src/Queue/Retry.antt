-- ===== src/Queue/Retry.antt =====
-- `retry_failed_sends` of app/saas/sync_service.py. `build` is `build_provider` of
-- app/saas/provider_factory.py, which reaches the mail backends: no provider stands for a
-- `BrokenConnectionError`, before which the connection was marked broken and that was audited.
pub mod Totals
pub mod Unedited
use autonomous_executive_ema.Base.{
  ℕ, ◌+◌, String, Bool, true, false, ◌&&◌, Option, none, some, List, [], ◌∷◌, or_default, str_eq,
  if◌then◌else◌,
}
use autonomous_executive_ema.Queue.{
  World, ActionRow, MessageRow, Connection, ConnectionStatus, connected, broken, MailProvider,
  WriteResult, executed, failed, approved, get_message, get_connection, set_row, list_failed_sends,
  on_action, on_connection,
}
use autonomous_executive_ema.Queue.Execute.{execute, or_text}
use autonomous_executive_ema.Queue.Review.{audit, rejected_write}

abbrev pub max_send_retries : ℕ
max_send_retries = 3

abbrev pub is_broken : ConnectionStatus → Bool
is_broken broken = true
is_broken connected = false

-- `MailboxRepository.set_status(…, "error")`, on the first row of the id.
unfoldable pub set_broken : String → String → List Connection → List Connection
set_broken org id [] = []
set_broken org id (c ∷ cs) =
    if str_eq c.id id && str_eq c.org_id org
    then record c { status = broken } ∷ cs
    else c ∷ set_broken org id cs

-- `_mark_broken` as far as the tables show it: audited only when the status changes.
unfoldable pub mark_broken : Connection → World → World
mark_broken c w =
    let w' = record w { connections = set_broken c.org_id c.id w.connections } in
    if is_broken c.status
    then w'
    else audit "mailbox.broken" c.org_id none (on_connection c.id) true w'

unfoldable pub mark_recovered : ℕ → ℕ → WriteResult → ActionRow → ActionRow → ActionRow
mark_recovered now attempts result action r = record r {
  status = executed;
  outcome = some (or_default action.outcome approved);
  executed_at = some now;
  execution_ref = result.provider_ref;
  retry_count = attempts;
  last_error = none;
}

unfoldable pub mark_still_failing : ℕ → WriteResult → ActionRow → ActionRow
mark_still_failing attempts result r = record r {
  status = failed;
  retry_count = attempts;
  last_error = some (or_text (some result.detail) rejected_write);
}

pub record Summary : Type 0 where
  pub attempted : ℕ
  pub recovered : ℕ
  pub still_failing : ℕ

abbrev pub empty_summary : Summary
empty_summary = record { attempted = 0; recovered = 0; still_failing = 0 }

-- One more attempt for an action whose message and provider are at hand.
unfoldable pub attempt :
    MailProvider → ℕ → String → ActionRow → MessageRow → World × Summary → World × Summary
attempt provider now org action message (w, s) =
    let attempts = action.retry_count + 1 in
    let (result, w') = execute provider action message.provider_message_id org w in
    let mark =
      if result.ok
      then mark_recovered now attempts result action
      else mark_still_failing attempts result in
    (
      audit "inbox.action.retry" org none (on_action action.id) result.ok
          (record w' { rows = set_row org action.id mark w'.rows }),
      record {
        attempted = s.attempted + 1;
        recovered = s.recovered + (if result.ok then 1 else 0);
        still_failing = s.still_failing + (if result.ok then 0 else 1);
      },
    )

-- The body of the loop, with its three ways to skip the action.
unfoldable pub retry_one :
    (Connection → Option MailProvider) → ℕ → String → ActionRow → World × Summary → World × Summary
retry_one build now org action (w, s) = elim (get_message org action.message_id w.messages) [
  | none ↦ (w, s)
  | some message ↦ elim (get_connection org message.connection_id w.connections) [
    | none ↦ (w, s)
    | some connection ↦ elim (build connection) [
      | none ↦ (mark_broken connection w, s)
      | some provider ↦ attempt provider now org action message (w, s)
    ]
  ]
]

unfoldable pub retry_all :
    (Connection → Option MailProvider)
    → ℕ
    → String
    → List ActionRow
    → World × Summary
    → World × Summary
retry_all build now org [] ws = ws
retry_all build now org (a ∷ as_) ws = retry_all build now org as_ (retry_one build now org a ws)

unfoldable pub retry_failed_sends :
    (Connection → Option MailProvider) → ℕ → String → ℕ → World → World × Summary
retry_failed_sends build now org max_retries w =
    retry_all build now org (list_failed_sends org max_retries w.rows) (w, empty_summary)
