-- ===== src/Queue/Review/Once.antt =====
-- Decisions on an action that has one.
use autonomous_executive_ema.Base.{
  ℕ, ◌≡◌, refl, ap, ◌∙◌, true, false, Bool, ◌&&◌, Option, some, String, List, [], ◌∷◌, arith, ◌==◌,
  str_eq, inl, inr, ◌⊎◌, truthy, Bool-cases, Option-cases, if◌then◌else◌,
}
use autonomous_executive_ema.Queue.{
  World, ActionRow, MessageRow, MailProvider, Services, WriteResult, get_action, set_row, executed,
  failed, rejected,
}
use autonomous_executive_ema.Queue.Rows.{KeepsId}
use autonomous_executive_ema.Queue.Commitments.{record_own, is_reply}
use autonomous_executive_ema.Queue.Counts.{execute-CallsOnce, CallsOnce-tables}
use autonomous_executive_ema.Queue.Invariant.Decisions.{
  undecided-Waiting, approvable-undecided, Waiting-own,
}
use autonomous_executive_ema.Queue.Invariant.Locate.{get_action_id}
use mathlib.Core.Path.{subst}
use autonomous_executive_ema.Queue.Execute.{execute}
use autonomous_executive_ema.Queue.Review.{
  Result-cases, ok, err, already_decided, undecided, approvable, with_edit, carry_out, approve,
  reject, mark_failed, mark_executed, mark_rejected, audit,
}

get_action-set_row :
    (org : String) (id : ℕ) (f : ActionRow → ActionRow) (rows : List ActionRow) (a : ActionRow)
    → KeepsId f
    → ((r : ActionRow) → (f r).org_id ≡ r.org_id)
    → get_action org id rows ≡ some a
    → get_action org id (set_row org id f rows) ≡ some (f a)
unfolding get_action set_row
get_action-set_row org id f [] a k o e = ground arith
get_action-set_row org id f (r ∷ rows) a k o e =
    elim (Bool-cases (r.id == id && str_eq r.org_id org)) [
      | inl b ↦
          let same : r ≡ a = ground (arith, rw b at e) in
          let hit : ((f r).id == id && str_eq (f r).org_id org) ≡ true = rw (k r, o r) b in
          rw b (rw hit (ap (λ x. some (f x)) same))
      | inr b ↦ rw b (rw b (get_action-set_row org id f rows a k o (rw b at e)))
    ]

record_own_rows :
    (s : Services) (org : String) (a : ActionRow) (m : MessageRow) (w : World)
    → (record_own s org a m w).rows ≡ w.rows
unfolding record_own
record_own_rows s org a m w = elim (Option-cases a.content) [
  | inl e ↦ rw (record_own, e) refl
  | inr (text, e) ↦ elim (Bool-cases (is_reply a.action_type && truthy text)) [
    | inl b ↦ rw (record_own, e) (rw b refl)
    | inr b ↦ rw (record_own, e) (rw b refl)
  ]
]

if_rows : (b : Bool) (v w : World) → v.rows ≡ w.rows → (if b then v else w).rows ≡ w.rows
if_rows true v w h = h
if_rows false v w h = refl

module _ (services : Services) (provider : MailProvider) (now : ℕ) (org user : String)
    (edit : Option String) where
  -- What the approval leaves in place of the row.
  unfoldable pub decided_row : WriteResult → ActionRow → ActionRow
  decided_row result action =
      (if result.ok
          then mark_executed user now action.content edit result
          else mark_failed user now result)
        action

  abbrev pub result_of : ActionRow → MessageRow → World → WriteResult
  result_of action message w =
      (execute provider (with_edit action edit) message.provider_message_id org w).0

  abbrev mark : ActionRow → WriteResult → ActionRow → ActionRow
  mark action result =
      if result.ok
      then mark_executed user now action.content edit result
      else mark_failed user now result

  mark_id : (a : ActionRow) (x : WriteResult) (r : ActionRow) → (mark a x r).id ≡ r.id
  unfolding mark_executed mark_failed
  mark_id a x r = ground arith

  mark_org : (a : ActionRow) (x : WriteResult) (r : ActionRow) → (mark a x r).org_id ≡ r.org_id
  unfolding mark_executed mark_failed
  mark_org a x r = ground arith

  pub carry_out-row :
      (a : ActionRow) (m : MessageRow) (w : World)
      → get_action org a.id w.rows ≡ some a
      → get_action org a.id (carry_out services provider now org user edit a m w).rows
        ≡ some (decided_row (result_of a m w) a)
  unfolding carry_out audit decided_row
  carry_out-row a m w h =
      let acted = with_edit a edit in
      let r = execute provider acted m.provider_message_id org w in
      let once = execute-CallsOnce provider acted m.provider_message_id org w in
      let tables = CallsOnce-tables provider acted.id w r once in
      let marked : World = record r.1 { rows = set_row org a.id (mark a r.0) r.1.rows } in
      let rows =
        if_rows r.0.ok (record_own services org acted m marked) marked
          (record_own_rows services org acted m marked) in
      ap (get_action org a.id) rows
      ∙ rw tables.0
          (get_action-set_row org a.id (mark a r.0) w.rows a (mark_id a r.0) (mark_org a r.0) h)

  pub refused_row :
      (x : WriteResult) (a : ActionRow) → x.ok ≡ false → decided_row x a ≡ mark_failed user now x a
  unfolding decided_row
  refused_row x a e = rw (decided_row, e) refl

  settled_status :
      (x : WriteResult) (a : ActionRow)
      → ((decided_row x a).status ≡ executed) ⊎ ((decided_row x a).status ≡ failed)
  unfolding decided_row mark_executed mark_failed
  settled_status x a = ground arith

  undecided_found :
      (w : World) (id : ℕ) (a : ActionRow)
      → get_action org id w.rows ≡ some a
      → (a.status ≡ executed) ⊎ (a.status ≡ failed)
      → (undecided w org id ≡ err (already_decided executed))
        ⊎ (undecided w org id ≡ err (already_decided failed))
  unfolding undecided
  undecided_found w id a h (inl e) = inl (rw (undecided, h) (rw e refl))
  undecided_found w id a h (inr e) = inr (rw (undecided, h) (rw e refl))

  -- An approval that went through is final: after it, the check of the status that every approval and
  -- rejection makes refuses the action, with the status that it got, executed or failed.
  pub approve_is_final :
      (id : ℕ) (w : World)
      → (approve services provider now org user id edit w).0 ≡ ok tt
      → (undecided (approve services provider now org user id edit w).1 org id
          ≡ err (already_decided executed))
        ⊎ (undecided (approve services provider now org user id edit w).1 org id
            ≡ err (already_decided failed))
  unfolding approve
  approve_is_final id w h = elim (Result-cases (approvable w now org id)) [
    | inl (x, p) ↦ ground (arith, rw (approve, p) at h)
    | inr ((a, m), p) ↦
        let waiting = undecided-Waiting w org id a (approvable-undecided w now org id a m p) in
        let same = get_action_id org id w.rows a waiting.found in
        let own = Waiting-own w org id a waiting in
        let after = carry_out services provider now org user edit a m w in
        let found =
          undecided_found after a.id (decided_row (result_of a m w) a)
            (carry_out-row a m w own.found) (settled_status (result_of a m w) a) in
        rw (approve, p)
          (subst
            (λ j.
              (undecided after org j ≡ err (already_decided executed))
              ⊎ (undecided after org j ≡ err (already_decided failed)))
            same found)
  ]

-- A rejection that went through is final: after it, the check of the status that every approval and
-- rejection makes refuses the action as already rejected.
pub reject_is_final :
    (now : ℕ) (org user : String) (id : ℕ) (w : World)
    → (reject now org user id w).0 ≡ ok tt
    → undecided (reject now org user id w).1 org id ≡ err (already_decided rejected)
unfolding reject audit undecided mark_rejected
reject_is_final now org user id w h = elim (Result-cases (undecided w org id)) [
  | inl (x, p) ↦ ground (arith, rw (reject, p) at h)
  | inr (a, p) ↦
      let waiting = undecided-Waiting w org id a p in
      let found =
        get_action-set_row org id (mark_rejected user now) w.rows a (λ r. refl) (λ r. refl)
          waiting.found in
      rw (reject, p) (rw (undecided, found) refl)
]
