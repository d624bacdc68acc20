-- ===== src/Queue/Review.antt =====
-- `_approve` and `reject` of app/saas/sync_service.py.
pub mod Once
use autonomous_executive_ema.Base.{
  ℕ, ◌≡◌, refl, ◌⊎◌, inl, inr, String, Bool, true, false, not, ◌&&◌, Option, none, some, List, [],
  ◌∷◌, or_default, truthy, strip, str_eq, if◌then◌else◌, is_some,
}
use autonomous_executive_ema.Billing
use autonomous_executive_ema.Billing.{current_entitlement, require_active}
use autonomous_executive_ema.Queue.{
  World, ActionRow, MessageRow, MailProvider, WriteResult, Status, proposed, executed, failed,
  rejected, Outcome, approved, edited, refused, is_proposed, get_action, get_message, set_row,
  AuditEntry, Target, on_action, Services,
}
use autonomous_executive_ema.Queue.Commitments.{record_own}
use autonomous_executive_ema.Queue.Execute.{execute, or_text}

-- `ProcessingError`, by its cause; the HTTP status is 402, 404, 409, 404 and 404.
pub data ProcessingError : Type 0 where
  plan_expired action_not_found : ProcessingError
  already_decided : Status → ProcessingError
  message_gone connection_not_found : ProcessingError

pub data Result {ℓ} (A : Type ℓ) : Type ℓ where
  ok : A → Result A
  err : ProcessingError → Result A

pub Result-cases {ℓ} :
    {A : Type ℓ} (r : Result A) → ((e : ProcessingError) × (r ≡ err e)) ⊎ ((a : A) × (r ≡ ok a))
Result-cases (err e) = inl (e, refl)
Result-cases (ok a) = inr (a, refl)

infixl 5 ◌>>=◌
abbrev pub ◌>>=◌ {ℓ κ} : {A : Type ℓ} {B : Type κ} → Result A → (A → Result B) → Result B
ok a >>= f = f a
err e >>= f = err e

abbrev pub or_raise {ℓ} : {A : Type ℓ} → Option A → ProcessingError → Result A
or_raise none e = err e
or_raise (some a) e = ok a

-- `_require_active_plan`.
unfoldable pub require_active_plan : World → ℕ → String → Result (Unit {0})
unfolding current_entitlement require_active
require_active_plan w now org = elim (require_active (current_entitlement w.licenses 0 now org)) [
  | Billing.ok e ↦ ok tt
  | Billing.err e ↦ err plan_expired
]

-- The action, if it still waits for a decision.
unfoldable pub undecided : World → String → ℕ → Result ActionRow
undecided w org id = do
  action ← or_raise (get_action org id w.rows) action_not_found
  if is_proposed action.status then ok action else err (already_decided action.status)

-- The checks of `_approve`, in its order; nothing is written before they pass.
unfoldable pub approvable : World → ℕ → String → ℕ → Result (ActionRow × MessageRow)
approvable w now org id = do
  active ← require_active_plan w now org
  action ← undecided w org id
  message ← or_raise (get_message org action.message_id w.messages) message_gone
  ok (action, message)

-- Whether the reviewer's text replaces the draft.
unfoldable pub is_amended : Option String → Option String → Bool
is_amended original edit =
    let text = strip (or_default edit "") in
    truthy text && not (str_eq text (strip (or_default original "")))

unfoldable pub with_edit : ActionRow → Option String → ActionRow
with_edit action edit =
    if is_amended action.content edit
    then record action { content = some (strip (or_default edit "")) }
    else action

unfoldable pub audit : String → String → Option String → Target → Bool → World → World
audit action org actor target done w = record w {
  audit =
      record { action = action; org_id = org; actor = actor; target = target; ok = done } ∷ w.audit;
}

-- The fields that `_approve` sets when the provider accepted the write.
unfoldable pub mark_executed :
    String → ℕ → Option String → Option String → WriteResult → ActionRow → ActionRow
mark_executed user now original edit result r =
    let done = record r {
      status = executed;
      outcome = some (if is_amended original edit then edited else approved);
      decided_by = some user;
      decided_at = some now;
      executed_at = some now;
      execution_ref = result.provider_ref;
    } in
    if is_amended original edit
    then record done { content = some (strip (or_default edit "")); original_content = original }
    else done

abbrev pub rejected_write : String
rejected_write = "the provider rejected the write"

-- The fields that `_approve` sets when it did not.
unfoldable pub mark_failed : String → ℕ → WriteResult → ActionRow → ActionRow
mark_failed user now result r = record r {
  status = failed;
  decided_by = some user;
  decided_at = some now;
  last_error = some (or_text (some result.detail) rejected_write);
}

-- The writes of `_approve` after its checks.
unfoldable pub carry_out :
    Services
    → MailProvider
    → ℕ
    → String
    → String
    → Option String
    → ActionRow
    → MessageRow
    → World
    → World
carry_out services provider now org user edit action message w =
    let acted = with_edit action edit in
    let (result, w') = execute provider acted message.provider_message_id org w in
    let mark =
      if result.ok
      then mark_executed user now action.content edit result
      else mark_failed user now result in
    let marked = record w' { rows = set_row org action.id mark w'.rows } in
    audit "inbox.action.approve" org (some user) (on_action action.id) result.ok
      (if result.ok then record_own services org acted message marked else marked)

unfoldable pub approve :
    Services
    → MailProvider
    → ℕ
    → String
    → String
    → ℕ
    → Option String
    → World
    → Result (Unit {0}) × World
approve services provider now org user id edit w = elim (approvable w now org id) [
  | err e ↦ (err e, w)
  | ok (action, message) ↦ (ok tt, carry_out services provider now org user edit action message w)
]

unfoldable pub mark_rejected : String → ℕ → ActionRow → ActionRow
mark_rejected user now r = record r {
  status = rejected;
  outcome = some refused;
  decided_by = some user;
  decided_at = some now;
}

-- Rejecting needs no plan and makes no call of the provider.
unfoldable pub reject : ℕ → String → String → ℕ → World → Result (Unit {0}) × World
reject now org user id w = elim (undecided w org id) [
  | err e ↦ (err e, w)
  | ok action ↦ (
    ok tt,
    audit "inbox.action.reject" org (some user) (on_action id) true
        (record w { rows = set_row org id (mark_rejected user now) w.rows }),
  )
]
