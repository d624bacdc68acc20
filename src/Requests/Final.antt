-- ===== src/Requests/Final.antt =====
-- What later operations leave of a decision, app/core/approval.py.
use autonomous_executive_ema.Base.{
  ℕ, ◌≡◌, refl, sym, ◌∙◌, String, Bool, true, false, not, Option, some, List, [], ◌∷◌, All,
  not-true, arith, Dict, lookup, lookup-insert, str_eq, str_eq_true, inl, inr, Bool-cases,
  Option-cases,
}
use mathlib.Core.Option.{some-injective}
use mathlib.Core.Path.{subst}
use autonomous_executive_ema.Models.{ActionType}
use autonomous_executive_ema.Requests.{
  Store, ApprovalRequest, ApprovalResponse, is_pending, answer, has_lapsed, sweep,
  auto_reject_expired, submit_request, StoreOp, submitted, answered, swept, perform, perform_all,
  spares,
}

module _ (id : String) (r : ApprovalRequest) (decided : is_pending r.status ≡ false) where
  rest-decided : (x : ApprovalRequest) → x ≡ r → is_pending x.status ≡ false
  rest-decided x e = subst (λ (y : ApprovalRequest). is_pending y.status ≡ false) (sym e) decided

  lapsed-decided : (now : ℕ) (x : ApprovalRequest) → x ≡ r → has_lapsed now x ≡ false
  lapsed-decided now x e = rw (rest-decided x e) refl

  lookup-sweep :
      (now : ℕ) (items : Dict ApprovalRequest) (responses : Dict ApprovalResponse)
      → lookup id items ≡ some r
      → lookup id (sweep now items responses).0 ≡ some r
  unfolding sweep lookup
  lookup-sweep now [] responses h = h
  lookup-sweep now ((j, x) ∷ items) responses h = elim (Bool-cases (str_eq j id)) [
    | inl e ↦
        let same : some x ≡ some r = rw e at h in
        let kept : has_lapsed now x ≡ false = lapsed-decided now x (some-injective x r same) in
        rw kept (rw e same)
    | inr e ↦ elim (Bool-cases (has_lapsed now x)) [
      | inl b ↦ rw b (rw e (lookup-sweep now items _ (rw e at h)))
      | inr b ↦ rw b (rw e (lookup-sweep now items _ (rw e at h)))
    ]
  ]

  lookup-submit :
      (new email : String) (now : ℕ) (t : ActionType) (content to : Option String) (s : Store)
      → not (str_eq new id) ≡ true
      → lookup id s.requests ≡ some r
      → lookup id (submit_request new now t email content to s).1.requests ≡ some r
  unfolding submit_request
  lookup-submit new email now t content to s d h =
      lookup-insert new id _ s.requests ∙ rw (not-true (str_eq new id) d) h

  lookup-answer :
      (accept : Bool) (other approver : String) (now : ℕ) (comment : Option String) (s : Store)
      → lookup id s.requests ≡ some r
      → lookup id (answer accept other approver now comment s).1.requests ≡ some r
  unfolding answer
  lookup-answer accept other approver now comment s h =
      elim (Option-cases (lookup other s.requests)) [
        | inl n ↦ rw (answer, n) h
        | inr (x, e) ↦ elim (Bool-cases (is_pending x.status)) [
          | inr p ↦ rw (answer, e) (rw p h)
          | inl p ↦ elim (Bool-cases (str_eq other id)) [
            | inl same ↦
                let q : is_pending x.status ≡ false =
                  rest-decided x
                    (some-injective x r (sym (rw (str_eq_true other id same) at e) ∙ h)) in
                ground (arith, p, q)
            | inr apart ↦ rw (answer, e) (rw p (lookup-insert other id _ s.requests ∙ rw apart h))
          ]
        ]
      ]

  lookup-perform :
      (op : StoreOp) (s : Store)
      → spares id op ≡ true
      → lookup id s.requests ≡ some r
      → lookup id (perform op s).requests ≡ some r
  unfolding auto_reject_expired
  lookup-perform (submitted new now t email content to) s d h =
      lookup-submit new email now t content to s d h
  lookup-perform (answered accept other approver now comment) s d h =
      lookup-answer accept other approver now comment s h
  lookup-perform (swept now) s d h = lookup-sweep now s.requests s.responses h

  -- A decision is final: a request that was approved, rejected or has expired is the same after any
  -- later operations of the store, sweeps and further answers included, as long as no new request
  -- draws its id.
  pub perform_all-keeps_decision :
      (ops : List StoreOp) (s : Store)
      → lookup id s.requests ≡ some r
      → All (λ op. spares id op ≡ true) ops
      → lookup id (perform_all ops s).requests ≡ some r
  perform_all-keeps_decision [] s h a = h
  perform_all-keeps_decision (op ∷ ops) s h (d, a) =
      perform_all-keeps_decision ops (perform op s) (lookup-perform op s d h) a
