-- ===== src/Tests/Expiry.antt =====
-- The theorems on approval requests, on a store with one request.
use autonomous_executive_ema.Base.{
  ◌≡◌, List, map, false, refl, none, some, [], ◌∷◌, lookup, insert, take,
}
use autonomous_executive_ema.Models.{reply}
use autonomous_executive_ema.Policy.Ranking.{sort_by, place}
use autonomous_executive_ema.Requests.{
  ApprovalRequest, Store, pending, approved, answer, StoreOp, submitted, answered, swept,
  perform_all, get_request_history, submit_request, auto_reject_expired, sweep,
}
use autonomous_executive_ema.Requests.Final.{perform_all-keeps_decision}

abbrev request : ApprovalRequest
request = record {
  id = "r1";
  action_type = reply;
  email_id = "m1";
  content = none;
  escalate_to = none;
  requested_at = 0;
  status = pending;
  approver_id = none;
  expires_at = 300;
}

abbrev store : Store
store = record { requests = ("r1", request) ∷ []; responses = []; timeout = 300 }

abbrev approved_request : ApprovalRequest
approved_request = record request { status = approved; approver_id = some "ann" }

abbrev decided_store : Store
decided_store = record store { requests = ("r1", approved_request) ∷ [] }

abbrev later : List StoreOp
later = answered false "r1" "bob" 20 none ∷ submitted "r2" 30 reply "m2" none none ∷ swept 900 ∷ []

perform_all-keeps_decision_example :
    lookup "r1" (perform_all later decided_store).requests ≡ some approved_request
unfolding lookup
perform_all-keeps_decision_example =
    perform_all-keeps_decision "r1" approved_request refl later decided_store refl
      (refl, (refl, (refl, tt)))

history_latest_first :
    map (λ (r : ApprovalRequest). r.id) (get_request_history 2 (perform_all later decided_store))
    ≡ "r2" ∷ "r1" ∷ []
unfolding get_request_history submit_request auto_reject_expired answer sweep sort_by place take
    insert lookup
history_latest_first = refl
