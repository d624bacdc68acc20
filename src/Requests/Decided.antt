-- ===== src/Requests/Decided.antt =====
-- Decisions taken twice, and the expiry of requests, app/core/approval.py.
use autonomous_executive_ema.Base.{
  ℕ, ◌<◌, ◌≡◌, refl, ap, String, Bool, true, false, Option, none, some, [], ◌∷◌, map, keep, All,
  arith, Dict, lookup, lookup-insert, str_eq_refl, inl, inr, Bool-cases, Option-cases, is_some,
}
use autonomous_executive_ema.Requests.{
  Store, ApprovalRequest, ApprovalResponse, pending, approved, is_pending, answer, verdict,
  approve_request, get_pending_requests, has_lapsed, sweep, auto_reject_expired,
}

-- A request with a decision takes no other.
answered :
    (accept : Bool) (id approver : String) (now : ℕ) (comment : Option String) (s : Store)
    (r : ApprovalRequest)
    → lookup id s.requests ≡ some r
    → is_pending r.status ≡ false
    → answer accept id approver now comment s ≡ (none, s)
unfolding answer
answered accept id approver now comment s r h p = rw (answer, h) (rw p refl)

verdict-decided : (accept : Bool) → is_pending (verdict accept) ≡ false
verdict-decided true = refl
verdict-decided false = refl

-- Once a request was approved or rejected, every further approval or rejection of it is refused and
-- changes nothing.
pub answer_is_final :
    (accept again : Bool) (id approver other : String) (now later : ℕ)
    (comment remark : Option String) (s : Store)
    → is_some (answer accept id approver now comment s).0 ≡ true
    → answer again id other later remark (answer accept id approver now comment s).1
      ≡ (none, (answer accept id approver now comment s).1)
unfolding answer
answer_is_final accept again id approver other now later comment remark s h =
    elim (Option-cases (lookup id s.requests)) [
      | inl e ↦ ground (arith, rw (answer, e) at h)
      | inr (r, e) ↦ elim (Bool-cases (is_pending r.status)) [
        | inr p ↦ ground (arith, rw p at (rw (answer, e) at h))
        | inl p ↦
            let after = (answer accept id approver now comment s).1 in
            let decided : ApprovalRequest = record r {
              status = verdict accept;
              approver_id = some approver;
            } in
            let found : lookup id after.requests ≡ some decided =
              rw (answer, e)
                (rw p (ground (arith, lookup-insert id id decided s.requests, str_eq_refl id))) in
            answered again id other later remark after decided found (verdict-decided accept)
      ]
    ]

swept :
    (now : ℕ) (items : Dict ApprovalRequest) (responses : Dict ApprovalResponse)
    → All
        (λ r. now < r.expires_at)
        (keep (λ r. is_pending r.status) (map (λ item. item.1) (sweep now items responses).0))
unfolding sweep keep
swept now [] responses = tt
swept now ((id, r) ∷ items) responses = elim (Bool-cases (has_lapsed now r)) [
  | inl b ↦ rw (sweep, b) (swept now items _)
  | inr b ↦ elim (Bool-cases (is_pending r.status)) [
    | inl p ↦ rw (sweep, b) (rw p (ground (arith, b, p), swept now items _))
    | inr p ↦ rw (sweep, b) (rw p (swept now items _))
  ]
]

-- After the expired requests are swept, each request that is still pending expires later than now.
pub auto_reject_expired-pending :
    (now : ℕ) (s : Store)
    → All (λ r. now < r.expires_at) (get_pending_requests (auto_reject_expired now s).1)
unfolding auto_reject_expired get_pending_requests
auto_reject_expired-pending now s = swept now s.requests s.responses

-- An approval does not look at the expiry: a pending request is approved at any time, also after it
-- expired.
pub approve_request_late :
    (id approver : String) (now : ℕ) (comment : Option String) (s : Store) (r : ApprovalRequest)
    → lookup id s.requests ≡ some r
    → r.status ≡ pending
    → r.expires_at < now
    → lookup id (approve_request id approver now comment s).1.requests
      ≡ some (record r { status = approved; approver_id = some approver })
unfolding approve_request answer
approve_request_late id approver now comment s r h p late =
    let b : is_pending r.status ≡ true = ap is_pending p in
    rw (approve_request, answer, h)
      (rw b (
        ground (
          arith,
          str_eq_refl id,
          lookup-insert id id (record r { status = approved; approver_id = some approver })
              s.requests,
        )))
