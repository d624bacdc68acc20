-- ===== src/Mailboxes.antt =====
-- `disconnect` of app/saas/mailbox.py, with the methods of `MailboxRepository` behind it. Whether the
-- database enforces foreign keys is an argument: SQLite does not by default, Postgres does.
pub mod Disconnecting
use autonomous_executive_ema.Base.{
  ℕ, String, Bool, true, false, not, ◌&&◌, Option, none, some, List, [], ◌∷◌, map, keep, count_if,
  any, elem, str_eq, if◌then◌else◌,
}
use autonomous_executive_ema.Queue.{
  World, Connection, ConnectionStatus, connected, broken, MessageRow, ActionRow, on_connection,
  get_connection, remove_rows, CommitmentRow,
}
use autonomous_executive_ema.Queue.Review.{audit}

abbrev pub is_connection : String → String → Connection → Bool
is_connection org id c = str_eq c.id id && str_eq c.org_id org

-- The messages of a connection, and the actions on any of them.
unfoldable pub belongs : String → String → MessageRow → Bool
belongs org id m = str_eq m.org_id org && str_eq m.connection_id id

unfoldable pub is_derived : String → List String → ActionRow → Bool
is_derived org message_ids r = str_eq r.org_id org && elem r.message_id message_ids

abbrev pub message_ids_of : String → String → World → List String
message_ids_of org id w = map (λ m. m.id) (keep (belongs org id) w.messages)

-- The tables once a connection and what hangs on it were removed.
unfoldable pub without_connection : String → String → World → World
without_connection org id w =
    let taken = remove_rows (is_derived org (message_ids_of org id w)) w in
    record taken {
      messages = keep (λ m. not (belongs org id m)) w.messages;
      connections = keep (λ x. not (is_connection org id x)) w.connections;
    }

-- A promise that refers to a message of the connection: `Commitment.message_id` is a foreign key.
unfoldable pub is_referenced : String → String → World → Bool
is_referenced org id w =
    any (λ (c : CommitmentRow). elem c.message_id (message_ids_of org id w)) w.commitments

-- How `MailboxRepository.delete` ends: with nothing found, with how many messages and actions it
-- removed, or with the error of a database that enforces its foreign keys.
pub data Deletion : Type 0 where
  not_found refused : Deletion
  removed : ℕ → ℕ → Deletion

unfoldable pub delete_connection : Bool → String → String → World → Deletion × World
delete_connection enforces org id w = elim (get_connection org id w.connections) [
  | none ↦ (not_found, w)
  | some c ↦ if enforces && is_referenced org id w then (refused, w) else (
    removed (count_if (belongs org id) w.messages)
        (count_if (is_derived org (message_ids_of org id w)) w.rows),
    without_connection org id w,
  )
]

-- What `disconnect` does once the deletion has run, which raises where the database refused it.
abbrev pub after_deletion : String → String → String → Deletion × World → Option Bool × World
after_deletion org user id (refused, w) = (none, w)
after_deletion org user id (_, w) =
    (some true, audit "mailbox.disconnect" org (some user) (on_connection id) true w)

-- `disconnect`, with nothing where it raises.
unfoldable pub disconnect : Bool → String → String → String → World → Option Bool × World
disconnect enforces org user id w = elim (get_connection org id w.connections) [
  | none ↦ (some false, w)
  | some c ↦ after_deletion org user id (delete_connection enforces org id w)
]

abbrev same_status : ConnectionStatus → ConnectionStatus → Bool
same_status connected connected = true
same_status broken broken = true
same_status _ _ = false

-- `MailboxRepository.set_status`, with whether it changed anything.
unfoldable pub set_status :
    String → String → ConnectionStatus → List Connection → Bool × List Connection
set_status org id status [] = (false, [])
set_status org id status (c ∷ cs) =
    let (changed, rest) = set_status org id status cs in
    if is_connection org id c
    then (not (same_status c.status status), record c { status = status } ∷ cs)
    else (changed, c ∷ rest)

-- `MailboxRepository.any_broken`.
unfoldable pub any_broken : String → List Connection → Bool
any_broken org cs = any (λ c. str_eq c.org_id org && same_status c.status broken) cs
