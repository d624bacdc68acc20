-- ===== src/Requests.antt =====
-- app/core/approval.py: the store of approval requests of the simulator, with their expiry. The id
-- that a request gets is drawn at random, so it is an argument; a time is a number of seconds.
pub mod Decided
pub mod Final
use autonomous_executive_ema.Base.{
  ℕ, ◌+◌, String, Bool, true, false, ◌&&◌, Option, none, some, List, [], ◌∷◌, map, keep, leb, ltb,
  not, str_eq, Dict, lookup, insert, take, if◌then◌else◌,
}
use autonomous_executive_ema.Models.{ActionType, escalate, reply}
use autonomous_executive_ema.Policy.Ranking.{sort_by}

pub data ApprovalStatus : Type 0 where
  pending approved rejected expired : ApprovalStatus

pub record ApprovalRequest : Type 0 where
  pub id : String
  pub action_type : ActionType
  pub email_id : String
  pub content : Option String
  pub escalate_to : Option String
  pub requested_at : ℕ
  pub status : ApprovalStatus
  pub approver_id : Option String
  pub expires_at : ℕ

pub record ApprovalResponse : Type 0 where
  pub request_id : String
  pub is_approved : Bool
  pub approver_id : String
  pub timestamp : ℕ
  pub comment : Option String

pub record Store : Type 0 where
  pub requests : Dict ApprovalRequest
  pub responses : Dict ApprovalResponse
  pub timeout : ℕ

abbrev pub is_pending : ApprovalStatus → Bool
is_pending pending = true
is_pending _ = false

-- `submit_request`, with the id that was drawn.
unfoldable pub submit_request :
    String
    → ℕ
    → ActionType
    → String
    → Option String
    → Option String
    → Store
    → ApprovalRequest × Store
submit_request id now t email content escalate_to s =
    let request : ApprovalRequest = record {
      id = id;
      action_type = t;
      email_id = email;
      content = content;
      escalate_to = escalate_to;
      requested_at = now;
      status = pending;
      approver_id = none;
      expires_at = now + s.timeout;
    } in
    (request, record s { requests = insert id request s.requests })

abbrev pub verdict : Bool → ApprovalStatus
verdict accept = if accept then approved else rejected

-- The body that `approve_request` and `reject_request` share: the answer, and the request with it.
unfoldable pub answer :
    Bool → String → String → ℕ → Option String → Store → Option ApprovalResponse × Store
answer accept id approver now comment s = elim (lookup id s.requests) [
  | none ↦ (none, s)
  | some request ↦
      let response : ApprovalResponse = record {
        request_id = id;
        is_approved = accept;
        approver_id = approver;
        timestamp = now;
        comment = comment;
      } in
      if is_pending request.status
      then (
        some response,
        record s {
          requests =
              insert id (record request { status = verdict accept; approver_id = some approver })
                s.requests;
          responses = insert id response s.responses;
        },
      )
      else (none, s)
]

unfoldable pub approve_request :
    String → String → ℕ → Option String → Store → Option ApprovalResponse × Store
approve_request = answer true

unfoldable pub reject_request :
    String → String → ℕ → Option String → Store → Option ApprovalResponse × Store
reject_request = answer false

-- `get_pending_requests` of the store.
unfoldable pub get_pending_requests : Store → List ApprovalRequest
get_pending_requests s = keep (λ r. is_pending r.status) (map (λ item. item.1) s.requests)

abbrev pub has_lapsed : ℕ → ApprovalRequest → Bool
has_lapsed now r = is_pending r.status && leb r.expires_at now

-- The loop of `auto_reject_expired`: the requests, the responses and the ids that expired.
unfoldable pub sweep :
    ℕ
    → Dict ApprovalRequest
    → Dict ApprovalResponse
    → Dict ApprovalRequest × (Dict ApprovalResponse × List String)
sweep now [] responses = ([], (responses, []))
sweep now ((id, r) ∷ rest) responses =
    let response : ApprovalResponse = record {
      request_id = id;
      is_approved = false;
      approver_id = "system";
      timestamp = now;
      comment = some "Auto-rejected: approval timeout expired";
    } in
    let after =
      sweep now rest (if has_lapsed now r then insert id response responses else responses) in
    if has_lapsed now r
    then ((id, record r { status = expired }) ∷ after.0, (after.1.0, id ∷ after.1.1))
    else ((id, r) ∷ after.0, after.1)

unfoldable pub auto_reject_expired : ℕ → Store → List String × Store
auto_reject_expired now s =
    let swept = sweep now s.requests s.responses in
    (swept.1.1, record s { requests = swept.0; responses = swept.1.0 })

-- `get_pending_requests` of the module, which sweeps first.
unfoldable pub sweep_and_list : ℕ → Store → List ApprovalRequest × Store
sweep_and_list now s =
    let after = (auto_reject_expired now s).1 in (get_pending_requests after, after)

unfoldable pub get_request_status : String → Store → Option ApprovalRequest
get_request_status id s = lookup id s.requests

-- `get_request_history`: the latest first, and of two at one moment the older entry.
unfoldable pub get_request_history : ℕ → Store → List ApprovalRequest
get_request_history limit s =
    take limit
      (sort_by (λ a b. ltb b.requested_at a.requested_at) (map (λ item. item.1) s.requests))

abbrev pub check_approval_required : ActionType → String → Bool
check_approval_required escalate email = true
check_approval_required reply email = true
check_approval_required _ email = false

abbrev pub judged : ApprovalStatus → Option Bool
judged pending = none
judged approved = some true
judged rejected = some false
judged expired = some false

unfoldable pub get_approval_status : String → Store → Option Bool × Option ApprovalStatus
get_approval_status id s = elim (lookup id s.requests) [
  | none ↦ (none, none)
  | some r ↦ (judged r.status, some r.status)
]

-- What is asked of the store in its lifetime.
pub data StoreOp : Type 0 where
  submitted : String → ℕ → ActionType → String → Option String → Option String → StoreOp
  answered : Bool → String → String → ℕ → Option String → StoreOp
  swept : ℕ → StoreOp

abbrev pub perform : StoreOp → Store → Store
perform (submitted id now t email content to) s = (submit_request id now t email content to s).1
perform (answered accept id approver now comment) s = (answer accept id approver now comment s).1
perform (swept now) s = (auto_reject_expired now s).1

abbrev pub perform_all : List StoreOp → Store → Store
perform_all [] s = s
perform_all (op ∷ ops) s = perform_all ops (perform op s)

-- An operation that draws another id than this one, if it draws any.
abbrev pub spares : String → StoreOp → Bool
spares id (submitted new now t email content to) = not (str_eq new id)
spares id _ = true
