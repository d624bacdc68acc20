-- ===== src/Queue/Sync/Messages.antt =====
-- `ProcessedMessageRepository.upsert`, and the dictionaries that `_sync` builds over one fetch.
use autonomous_executive_ema.Base.{
  String, Bool, ◌&&◌, List, [], ◌∷◌, Dict, insert, str_eq, if◌then◌else◌,
}
use autonomous_executive_ema.Models.{ObservationEmail}
use autonomous_executive_ema.Enrich.{FetchedMessage}
use autonomous_executive_ema.Queue.{MessageRow}

abbrev pub same_message : String → String → String → MessageRow → Bool
same_message org connection pid m =
    str_eq m.org_id org && (str_eq m.connection_id connection && str_eq m.provider_message_id pid)

-- The row of a message: a known one is renewed under its id, a new one gets the given id.
unfoldable pub upsert_row :
    String
    → String
    → String
    → FetchedMessage
    → ObservationEmail
    → List MessageRow
    → MessageRow × List MessageRow
upsert_row org connection new_id msg e [] =
    let row : MessageRow = record {
      id = new_id;
      org_id = org;
      connection_id = connection;
      provider_message_id = msg.provider_message_id;
      subject = msg.subject;
      sender = msg.sender;
      sender_role = e.sender_role;
    } in
    (row, row ∷ [])
upsert_row org connection new_id msg e (m ∷ ms) =
    let renewed = record m {
      subject = msg.subject;
      sender = msg.sender;
      sender_role = e.sender_role;
    } in
    let rest = upsert_row org connection new_id msg e ms in
    if same_message org connection msg.provider_message_id m
    then (renewed, renewed ∷ ms)
    else (rest.0, m ∷ rest.1)

-- The loop over the fetch: the table after it, and `row_by_provider_id`.
unfoldable pub store_all :
    String
    → String
    → (String → String)
    → (FetchedMessage → ObservationEmail)
    → List FetchedMessage
    → List MessageRow × Dict MessageRow
    → List MessageRow × Dict MessageRow
store_all org connection new_id enrich [] acc = acc
store_all org connection new_id enrich (msg ∷ msgs) acc =
    let (row, table) =
      upsert_row org connection (new_id msg.provider_message_id) msg (enrich msg) acc.0 in
    store_all org connection new_id enrich msgs (table, insert msg.provider_message_id row acc.1)

-- `{m.provider_message_id: m for m in fetched}`.
unfoldable pub message_by_id : List FetchedMessage → Dict FetchedMessage → Dict FetchedMessage
message_by_id [] d = d
message_by_id (m ∷ ms) d = message_by_id ms (insert m.provider_message_id m d)

-- `{e.id: e for e in observation.emails}`.
unfoldable pub signals_by_id : List ObservationEmail → Dict ObservationEmail → Dict ObservationEmail
signals_by_id [] d = d
signals_by_id (e ∷ es) d = signals_by_id es (insert e.id e d)
