-- ===== src/Queue/Execute.antt =====
-- `_execute` and `_execute_escalation` of app/saas/sync_service.py: the dispatch of an approved
-- action to the provider.
use Prim.Native.String.{◌++◌}
use autonomous_executive_ema.Base.{
  ℕ, String, false, Option, none, some, ◌∷◌, truthy, strip, spaced, if◌then◌else◌,
}
use autonomous_executive_ema.Models.{ActionType, classify, reply, defer, escalate, prioritize}
use autonomous_executive_ema.Queue.{
  World, ActionRow, MailProvider, Write, send_reply, create_escalation_draft, add_label,
  WriteResult, email_for,
}

abbrev pub type_name : ActionType → String
type_name classify = "classify"
type_name reply = "reply"
type_name defer = "defer"
type_name escalate = "escalate"
type_name prioritize = "prioritize"

-- One call of the provider, for the given action if there is one.
unfoldable pub call : MailProvider → Option ℕ → Write → World → WriteResult × World
call provider row write w =
    let result = provider w.sent write in
    (result, record w { sent = record { row = row; write = write; ok = result.ok } ∷ w.sent })

-- `a or b` on an optional string.
abbrev pub or_text : Option String → String → String
or_text none d = d
or_text (some s) d = if truthy s then s else d

abbrev pub named_role : String → String
named_role role = let name = spaced role in if truthy name then name else "that role"

unfoldable pub no_mailbox : String → WriteResult
no_mailbox role = record {
  ok = false;
  provider_ref = none;
  detail =
      "no mailbox is configured for escalations to "
      ++ (named_role role ++ ". Add one in Settings, then retry this action");
}

unfoldable pub escalation_body : String → Option String → String
escalation_body role content =
    strip ("Escalating to " ++ (spaced role ++ (".\n\n" ++ or_text content "")))

abbrev pub recipient_for : World → String → String → Option String
recipient_for w org role = if truthy role then email_for org role w.contacts else none

unfoldable pub execute_escalation :
    MailProvider → ActionRow → String → String → World → WriteResult × World
execute_escalation provider action message_id org w =
    let role = strip (or_text action.escalate_to "") in
    elim (recipient_for w org role) [
      | none ↦ (no_mailbox role, w)
      | some to ↦
          if truthy to
          then call provider (some action.id)
              (create_escalation_draft message_id (escalation_body role action.content) to) w
          else (no_mailbox role, w)
    ]

abbrev pub default_reply : String
default_reply = "Acknowledged. We will follow up shortly."

-- The dispatch of `_execute` on the type of the action.
unfoldable pub execute_as :
    ActionType → MailProvider → ActionRow → String → String → World → WriteResult × World
execute_as reply provider action message_id org w =
    call provider (some action.id) (send_reply message_id (or_text action.content default_reply)) w
execute_as escalate provider action message_id org w =
    execute_escalation provider action message_id org w
execute_as _ provider action message_id org w =
    call provider (some action.id)
      (add_label message_id (or_text action.label (type_name action.action_type))) w

unfoldable pub execute : MailProvider → ActionRow → String → String → World → WriteResult × World
unfolding execute_as
execute provider action message_id org w =
    execute_as action.action_type provider action message_id org w
