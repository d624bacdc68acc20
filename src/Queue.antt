-- ===== src/Queue.antt =====
-- The rows behind the approval queue: the parts of app/saas/models_db.py and app/saas/repository.py
-- that app/saas/sync_service.py reads and writes, and the provider's write surface.
-- An id of an action is a number handed out by a counter, as a primary key; a time is a number.
mod Tables
pub mod Rows
pub mod Commitments
pub mod Execute
pub mod Review
pub mod Retry
pub mod Sync
pub mod Counts
pub mod Invariant
pub mod Trail
unfoldable pub use Tables.*
use autonomous_executive_ema.Base.{
  ℕ, ◌+◌, ◌<◌, String, Bool, true, false, not, ◌&&◌, ◌||◌, Option, none, some, List, [], ◌∷◌, ◌++◌,
  ltb, keep, any, take, map, str_eq, if◌then◌else◌, ◌==◌, or_default, is_some,
}
use autonomous_executive_ema.Models.{
  ActionType, classify, reply, defer, escalate, prioritize, LabelType, SenderRole,
}
use autonomous_executive_ema.Policy.Ranking.{sort_by}
use autonomous_executive_ema.Billing.{License}

abbrev pub is_proposed : Status → Bool
is_proposed proposed = true
is_proposed _ = false

abbrev pub is_failed : Status → Bool
is_failed failed = true
is_failed _ = false

-- Not `rejected` and not `failed`.
abbrev pub is_live : Status → Bool
is_live rejected = false
is_live failed = false
is_live _ = true

abbrev pub same_type : ActionType → ActionType → Bool
same_type classify classify = true
same_type reply reply = true
same_type defer defer = true
same_type escalate escalate = true
same_type prioritize prioritize = true
same_type _ _ = false

-- `ProposedActionRepository.get`.
unfoldable pub get_action : String → ℕ → List ActionRow → Option ActionRow
get_action org id [] = none
get_action org id (r ∷ rs) =
    if r.id == id && str_eq r.org_id org then some r else get_action org id rs

-- `ProcessedMessageRepository.get`.
unfoldable pub get_message : String → String → List MessageRow → Option MessageRow
get_message org id [] = none
get_message org id (m ∷ ms) =
    if str_eq m.id id && str_eq m.org_id org then some m else get_message org id ms

-- `MailboxRepository.get`.
unfoldable pub get_connection : String → String → List Connection → Option Connection
get_connection org id [] = none
get_connection org id (c ∷ cs) =
    if str_eq c.id id && str_eq c.org_id org then some c else get_connection org id cs

-- The rows that a deletion takes, which the history keeps.
unfoldable pub remove_rows : (ActionRow → Bool) → World → World
remove_rows p w = record w {
  rows = keep (λ r. not (p r)) w.rows;
  removed = keep p w.rows ++ w.removed;
}

-- `EscalationContactRepository.email_for`.
unfoldable pub email_for : String → String → List Contact → Option String
email_for org role [] = none
email_for org role (c ∷ cs) =
    if str_eq c.org_id org && str_eq c.role role then some c.email else email_for org role cs

-- `ProposedActionRepository.set_status`: the fields that a call sets are a function on the row.
unfoldable pub set_row : String → ℕ → (ActionRow → ActionRow) → List ActionRow → List ActionRow
set_row org id f [] = []
set_row org id f (r ∷ rs) =
    if r.id == id && str_eq r.org_id org then f r ∷ rs else r ∷ set_row org id f rs

-- `ProposedActionRepository.create`: a row made by `f` from the id that it gets.
unfoldable pub create : (ℕ → ActionRow) → World → World
create f w = record w { rows = w.rows ++ f w.next_id ∷ []; next_id = w.next_id + 1 }

-- A row as `create` makes it when only the required arguments are given.
abbrev pub blank_row : String → String → ActionType → Status → Bool → ℕ → ActionRow
blank_row org message t status requires_approval id = record {
  id = id;
  org_id = org;
  message_id = message;
  action_type = t;
  content = none;
  escalate_to = none;
  label = none;
  status = status;
  requires_approval = requires_approval;
  decided_by = none;
  decided_at = none;
  executed_at = none;
  execution_ref = none;
  outcome = none;
  original_content = none;
  rationale = [];
  draft_source = none;
  verification_status = none;
  retry_count = 0;
  last_error = none;
}

-- `ProposedActionRepository.active_types_for_message`.
unfoldable pub active_types_for_message : String → String → List ActionRow → List ActionType
active_types_for_message org message rows =
    map (λ r. r.action_type)
      (keep (λ r. str_eq r.org_id org && (str_eq r.message_id message && is_live r.status)) rows)

unfoldable pub type_in : ActionType → List ActionType → Bool
type_in t ts = any (same_type t) ts

-- The filter of `ProposedActionRepository.list_failed_sends`.
abbrev pub is_failed_send : String → ℕ → ActionRow → Bool
is_failed_send org max_retries r =
    str_eq r.org_id org
    && (is_failed r.status
        && (r.requires_approval && (is_some r.decided_by && ltb r.retry_count max_retries)))

abbrev pub decided_before : ActionRow → ActionRow → Bool
decided_before a b = ltb (or_default a.decided_at 0) (or_default b.decided_at 0)

-- `ProposedActionRepository.list_failed_sends`, with its default limit of 50.
unfoldable pub list_failed_sends : String → ℕ → List ActionRow → List ActionRow
list_failed_sends org max_retries rows =
    take 50 (sort_by decided_before (keep (is_failed_send org max_retries) rows))
