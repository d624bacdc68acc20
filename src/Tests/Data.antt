-- ===== src/Tests/Data.antt =====
-- A small inbox, a mail backend and the tables of one organization.
use Prim.Native.Char.{code}
use autonomous_executive_ema.Base.{true, false, ◌&&◌, none, some, List, [], ◌∷◌, leb, ◌==◌}
use autonomous_executive_ema.Models.{
  ObservationEmail, Observation, client, high, low, legal, untagged, balanced, unknown, reply,
}
use autonomous_executive_ema.Policy.Classifier.{Lexicon}
use autonomous_executive_ema.Enrich.{FetchedMessage}
use autonomous_executive_ema.Billing.{License, active}
use autonomous_executive_ema.Queue.{
  World, ActionRow, MessageRow, Connection, connected, MailProvider, Services, proposed, blank_row,
}
use autonomous_executive_ema.Queue.Sync.{SyncInput}
use autonomous_executive_ema.Queue.Sync.Draft.{Writer}
use autonomous_executive_ema.Queue.Trail.{Setup, Op, configured, synced, approved_by, retried}

abbrev pub lexicon : Lexicon
lexicon = record {
  lower = λ s. s;
  spam_terms = "prize" ∷ [];
  urgent_terms = "urgent" ∷ [];
  is_word = λ c. leb 97 (code c) && leb (code c) 122;
  same_letter = λ c d. code c == code d;
}

abbrev pub contract_mail : FetchedMessage
contract_mail = record {
  provider_message_id = "m1";
  thread_id = "t1";
  sender = "ann@client.com";
  sender_name = "Ann";
  subject = "contract";
  body = "the contract";
  references = [];
  received_at = "";
}

abbrev pub prize_mail : FetchedMessage
prize_mail = record contract_mail {
  provider_message_id = "m2";
  subject = "a prize";
  body = "win a prize";
}

abbrev pub hello_mail : FetchedMessage
hello_mail = record contract_mail { provider_message_id = "m3"; subject = "hello"; body = "lunch" }

abbrev pub contract_email : ObservationEmail
contract_email = record {
  id = "m1";
  sender = "ann@client.com";
  sender_role = client;
  subject = "contract";
  body = "the contract";
  priority_hint = high;
  deadline_minutes = 60;
  business_value = 90;
  risk_tag = legal;
  thread_history = [];
}

abbrev pub prize_email : ObservationEmail
prize_email = record contract_email {
  id = "m2";
  subject = "a prize";
  priority_hint = low;
  risk_tag = untagged;
}

abbrev pub inbox : Observation
inbox = record {
  emails = contract_email ∷ prize_email ∷ [];
  time_remaining = 240;
  pending_actions = [];
  risk_level = high;
  current_minute = 0;
  persona = balanced;
  remaining_interruptions = 0;
}

abbrev pub busy_inbox : Observation
busy_inbox = record inbox { remaining_interruptions = 1 }

abbrev pub accepting : MailProvider
accepting = λ sent write. record { ok = true; provider_ref = some "ref"; detail = "" }

abbrev pub refusing : MailProvider
refusing = λ sent write. record { ok = false; provider_ref = none; detail = "down" }

abbrev pub services : Services
services = record { extract = λ text direction asks. []; fingerprint = λ id direction text. text }

abbrev pub license : License
license = record {
  org_id = "acme";
  key_id = "k1";
  plan = "team";
  seats = 2;
  features = [];
  issued_at = 1;
  expires_at = none;
  status = active;
}

abbrev pub mailbox : Connection
mailbox = record {
  id = "box";
  org_id = "acme";
  provider = "demo";
  account_email = "me@acme.com";
  status = connected;
  synced_at = none;
}

abbrev pub setup : Setup
setup = record {
  licenses = license ∷ [];
  messages = [];
  connections = mailbox ∷ [];
  contacts = record { org_id = "acme"; role = "legal_team"; email = "law@acme.com" } ∷ [];
  commitments = [];
}

abbrev pub writer : Writer
writer = record {
  draft = λ m p examples. none;
  verify = λ asks_model body m t. record { status = "skipped"; cost_usd = 0 };
  draft_key = λ m t examples. m.provider_message_id;
  draft_for = λ id. none;
  ledger_up = true;
}

abbrev pub sync_input : SyncInput
sync_input = record {
  org_id = "acme";
  user_id = some "ann";
  connection_id = "box";
  now = 5;
  provider = accepting;
  has_batch = true;
  writer = writer;
  services = services;
  lexicon = lexicon;
  fetched = hello_mail ∷ prize_mail ∷ [];
  new_message_id = λ id. id;
  asked_live = none;
  drafting_enabled = false;
  is_sandbox = false;
  monthly_budget = 0;
  ledger_read = none;
}

-- A sync, an approval that the provider refuses, and a retry; the latest first.
abbrev pub history : List Op
history =
    retried (λ c. some accepting) 9 "acme" 3
    ∷ approved_by services refusing 7 "acme" "ann" 1 none
    ∷ synced sync_input [] []
    ∷ configured setup
    ∷ []

-- A queue in which one reply waits.
abbrev pub stored_mail : MessageRow
stored_mail = record {
  id = "m3";
  org_id = "acme";
  connection_id = "box";
  provider_message_id = "m3";
  subject = "hello";
  sender = "ann@client.com";
  sender_role = unknown;
}

abbrev pub waiting : ActionRow
waiting = record (blank_row "acme" "m3" reply proposed true 1) { content = some "Thanks." }

abbrev pub queue : World
queue = record {
  licenses = license ∷ [];
  messages = stored_mail ∷ [];
  connections = mailbox ∷ [];
  contacts = [];
  rows = waiting ∷ [];
  next_id = 2;
  commitments = [];
  audit = [];
  sent = [];
  removed = [];
}
