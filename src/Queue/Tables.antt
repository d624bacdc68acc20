-- ===== src/Queue/Tables.antt =====
-- The rows of app/saas/models_db.py, the calls of a mail provider, and the world that holds them.
use autonomous_executive_ema.Base.{ℕ, String, Bool, true, false, Option, List}
use autonomous_executive_ema.Models.{ActionType, SenderRole}
use autonomous_executive_ema.Billing.{License}

pub data Status : Type 0 where
  proposed executed failed rejected : Status

pub data Outcome : Type 0 where
  approved edited refused auto : Outcome

pub data DraftSource : Type 0 where
  llm authored generic : DraftSource

-- A line of the rationale: a sentence of the drafter's, or the one that a downgrade writes from the
-- proposal's type, the rejections, the decisions and the sender's role.
pub data Reason : Type 0 where
  said : String → Reason
  downgraded_from : ActionType → ℕ → ℕ → SenderRole → Reason

-- `ProposedAction`; `refused` above is the outcome "rejected".
pub record ActionRow : Type 0 where
  pub id : ℕ
  pub org_id : String
  pub message_id : String
  pub action_type : ActionType
  pub content : Option String
  pub escalate_to : Option String
  pub label : Option String
  pub status : Status
  pub requires_approval : Bool
  pub decided_by : Option String
  pub decided_at : Option ℕ
  pub executed_at : Option ℕ
  pub execution_ref : Option String
  pub outcome : Option Outcome
  pub original_content : Option String
  pub rationale : List Reason
  pub draft_source : Option DraftSource
  pub verification_status : Option String
  pub retry_count : ℕ
  pub last_error : Option String

pub record MessageRow : Type 0 where
  pub id : String
  pub org_id : String
  pub connection_id : String
  pub provider_message_id : String
  pub subject : String
  pub sender : String
  pub sender_role : SenderRole

pub data ConnectionStatus : Type 0 where
  connected broken : ConnectionStatus

pub record Connection : Type 0 where
  pub id : String
  pub org_id : String
  pub provider : String
  pub account_email : String
  pub status : ConnectionStatus
  pub synced_at : Option ℕ

pub record Contact : Type 0 where
  pub org_id : String
  pub role : String
  pub email : String

-- A call of the provider's write surface.
pub data Write : Type 0 where
  send_reply : String → String → Write
  create_escalation_draft : String → String → String → Write
  add_label : String → String → Write
  add_labels_batch : List String → String → Write

abbrev pub is_outbound_write : Write → Bool
is_outbound_write (send_reply id body) = true
is_outbound_write (create_escalation_draft id body to) = true
is_outbound_write _ = false

pub record WriteResult : Type 0 where
  pub ok : Bool
  pub provider_ref : Option String
  pub detail : String

-- A call that was made, with its result and the action that it was made for: the history of a run,
-- which the program itself does not store.
pub record Sent : Type 0 where
  pub row : Option ℕ
  pub write : Write
  pub ok : Bool

pub data Target : Type 0 where
  on_action : ℕ → Target
  on_connection : String → Target

-- An audit row; `ok` is the flag of its detail, where it has one.
pub record AuditEntry : Type 0 where
  pub action : String
  pub org_id : String
  pub actor : Option String
  pub target : Target
  pub ok : Bool

pub data Direction : Type 0 where
  ours theirs : Direction

-- What `app/copilot/commitments.py` finds in a text.
pub record Found : Type 0 where
  pub direction : Direction
  pub text : String
  pub due_at : Option String

pub record CommitmentRow : Type 0 where
  pub org_id : String
  pub message_id : String
  pub fingerprint : String
  pub found : Found
  pub counterparty : String
  pub subject : String

-- The services behind the queue that are reached through an interface: the extractor of promises
-- (no promise where it raises) and the hash that identifies one.
pub record Services : Type 0 where
  pub extract : String → Direction → Bool → List Found
  pub fingerprint : String → Direction → String → String

-- The tables, the history of provider calls, latest first, and the actions that were deleted, as they
-- stood then. The program stores neither history.
pub record World : Type 0 where
  pub licenses : List License
  pub messages : List MessageRow
  pub connections : List Connection
  pub contacts : List Contact
  pub rows : List ActionRow
  pub next_id : ℕ
  pub commitments : List CommitmentRow
  pub audit : List AuditEntry
  pub sent : List Sent
  pub removed : List ActionRow

-- A mail backend answers a call from the history so far.
abbrev pub MailProvider : Type 0
MailProvider = List Sent → Write → WriteResult
