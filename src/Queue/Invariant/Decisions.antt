-- ===== src/Queue/Invariant/Decisions.antt =====
-- The invariant of the queue under approvals and rejections, app/saas/sync_service.py.
use mathlib.Core.Path.{subst}
use autonomous_executive_ema.Base.{
  ℕ, ◌<◌, ◌≡◌, refl, ap, sym, ◌∙◌, true, false, Bool, ◌&&◌, Option, some, String, List, All-both,
  All-map, arith, str_eq, inl, inr, Bool-cases, Option-cases, is_some, if◌then◌else◌, truthy,
}
use autonomous_executive_ema.Queue.{
  World, ActionRow, MessageRow, MailProvider, Services, WriteResult, Sent, Status, proposed,
  executed, failed, rejected, get_action, get_message, set_row, is_proposed,
}
use autonomous_executive_ema.Queue.Rows.{KeepsId, set_row-All, set_row-DistinctIds}
use autonomous_executive_ema.Queue.Commitments.{record_own, is_reply}
use autonomous_executive_ema.Queue.Execute.{execute}
use autonomous_executive_ema.Queue.Review.{
  Result-cases, ok, approvable, undecided, require_active_plan, carry_out, approve, reject,
  mark_executed, mark_failed, mark_rejected, audit, with_edit, is_amended,
}
use autonomous_executive_ema.Queue.Counts.{
  Dispatched, tries, deliveries-le-tries, execute-CallsOnce, CallsOnce-Dispatched, CallsOnce-tables,
}
use autonomous_executive_ema.Queue.Invariant.{Inv, Good, Fits, Quota, Backed}
use autonomous_executive_ema.Queue.Invariant.Dispatch.{settled, after_dispatch, set_row-Backed}
use autonomous_executive_ema.Queue.Invariant.Locate.{
  Alone, DistinctIds-Alone, Alone-Only, get_action-Located, get_action-any, get_action_id,
}

-- What the checks of a decision leave of the row.
pub record Waiting (w : World) (org : String) (id : ℕ) (a : ActionRow) : Type 0 where
  pub found : get_action org id w.rows ≡ some a
  pub waits : is_proposed a.status ≡ true

pub undecided-Waiting :
    (w : World) (org : String) (id : ℕ) (a : ActionRow)
    → undecided w org id ≡ ok a
    → Waiting w org id a
unfolding undecided
undecided-Waiting w org id a e = elim (Option-cases (get_action org id w.rows)) [
  | inl h ↦ ground (arith, rw h at e)
  | inr (b, h) ↦ elim (Bool-cases (is_proposed b.status)) [
    | inl t ↦
        let same : b ≡ a = ground (arith, rw t at (rw h at e)) in
        record { found = h ∙ ap some same; waits = rw (sym same) t }
    | inr t ↦ ground (arith, rw t at (rw h at e))
  ]
]

untried :
    (sent : List Sent) (a : ActionRow)
    → is_proposed a.status ≡ true
    → Fits sent a
    → tries a.id sent ≡ 0
untried sent a e fit = go a.status e fit.quota
  where
    go : (t : Status) → is_proposed t ≡ true → Quota t a.id sent → tries a.id sent ≡ 0
    go proposed e q = q
    go executed e q = ground arith
    go failed e q = ground arith
    go rejected e q = ground arith

record_own-Good :
    (s : Services) (org : String) (a : ActionRow) (m : MessageRow) (w : World)
    → Good w
    → Good (record_own s org a m w)
unfolding record_own
record_own-Good s org a m w g = elim (Option-cases a.content) [
  | inl e ↦ rw (e, record_own) g
  | inr (text, e) ↦ elim (Bool-cases (is_reply a.action_type && truthy text)) [
    | inl b ↦ rw (e, record_own) (rw b g)
    | inr b ↦ rw (e, record_own) (rw b g)
  ]
]

with_edit_id : (a : ActionRow) (edit : Option String) → (with_edit a edit).id ≡ a.id
unfolding with_edit
with_edit_id a edit = elim (Bool-cases (is_amended a.content edit)) [
  | inl b ↦ rw (with_edit, b) refl
  | inr b ↦ rw (with_edit, b) refl
]

-- What an update after an approval does to a row.
record Marks (ok : Bool) (f : ActionRow → ActionRow) : Type 0 where
  keeps : KeepsId f
  settles : (r : ActionRow) → (f r).status ≡ settled ok
  decides : (r : ActionRow) → is_some (f r).decided_by ≡ true

mark_executed-Marks :
    (user : String) (now : ℕ) (original edit : Option String) (result : WriteResult)
    → Marks true (mark_executed user now original edit result)
unfolding mark_executed
mark_executed-Marks user now original edit result = elim (Bool-cases (is_amended original edit)) [
  | inl b ↦ record {
    keeps = λ r. rw (mark_executed, b) refl;
    settles = λ r. rw (mark_executed, b) refl;
    decides = λ r. rw (mark_executed, b) refl;
  }
  | inr b ↦ record {
    keeps = λ r. rw (mark_executed, b) refl;
    settles = λ r. rw (mark_executed, b) refl;
    decides = λ r. rw (mark_executed, b) refl;
  }
]

mark_failed-Marks :
    (user : String) (now : ℕ) (result : WriteResult) → Marks false (mark_failed user now result)
unfolding mark_failed
mark_failed-Marks user now result = record {
  keeps = λ r. refl;
  settles = λ r. refl;
  decides = λ r. refl;
}

if-Marks :
    (b : Bool) (f g : ActionRow → ActionRow)
    → Marks true f
    → Marks false g
    → Marks b (if b then f else g)
if-Marks true f g h k = h
if-Marks false f g h k = k

if-Good : (b : Bool) (v w : World) → Good v → Good w → Good (if b then v else w)
if-Good true v w h k = h
if-Good false v w h k = k

module _ (services : Services) (provider : MailProvider) (now : ℕ) (org user : String) where
  abbrev mark_for : Option String → ActionRow → WriteResult → ActionRow → ActionRow
  mark_for edit action result =
      if result.ok
      then mark_executed user now action.content edit result
      else mark_failed user now result

  mark_for-Marks :
      (edit : Option String) (action : ActionRow) (result : WriteResult)
      → Marks result.ok (mark_for edit action result)
  mark_for-Marks edit action result =
      if-Marks result.ok (mark_executed user now action.content edit result)
        (mark_failed user now result) (mark_executed-Marks user now action.content edit result)
        (mark_failed-Marks user now result)

  carry_out-Good :
      (edit : Option String) (action : ActionRow) (message : MessageRow) (w : World)
      → Good w
      → Waiting w org action.id action
      → Good (carry_out services provider now org user edit action message w)
  unfolding carry_out audit
  carry_out-Good edit action message w g waiting =
      let located =
        get_action-Located (λ a. Fits w.sent a × Alone w.rows a) org action.id w.rows action
          (All-both (Fits w.sent) (Alone w.rows) w.rows g.fits
            (DistinctIds-Alone w.rows g.distinct))
          waiting.found in
      let acted = with_edit action edit in
      let r = execute provider acted message.provider_message_id org w in
      let once = execute-CallsOnce provider acted message.provider_message_id org w in
      let dispatched : Dispatched action.id r.0.ok w.sent r.1.sent =
        subst (λ j. Dispatched j r.0.ok w.sent r.1.sent) (with_edit_id action edit)
          (CallsOnce-Dispatched provider acted.id w r once) in
      let tables = CallsOnce-tables provider acted.id w r once in
      let marks = mark_for-Marks edit action r.0 in
      let untouched = untried w.sent action waiting.waits located.here.0 in
      let good : Inv r.1.removed (set_row org action.id (mark_for edit action r.0) r.1.rows)
          r.1.next_id r.1.sent =
        rw (tables.0, tables.1, tables.2)
          (after_dispatch org action.id r.0.ok (λ a. str_eq a.org_id org ≡ true)
            (mark_for edit action r.0) marks.keeps marks.settles (λ a q. marks.decides a) (λ a q. q)
            w.sent r.1.sent dispatched
            (omega (arith, deliveries-le-tries action.id w.sent, untouched))
            (λ a. inr (marks.decides a)) w.removed w.rows w.next_id
            (Alone-Only (λ a. str_eq a.org_id org ≡ true) action w.rows located.same_org
              located.here.1)
            (get_action-any org action.id w.rows action waiting.found) g) in
      let marked : World = record r.1 {
        rows = set_row org action.id (mark_for edit action r.0) r.1.rows;
      } in
      if-Good r.0.ok (record_own services org acted message marked) marked
        (record_own-Good services org acted message marked good) good

pub approvable-undecided :
    (w : World) (now : ℕ) (org : String) (id : ℕ) (a : ActionRow) (m : MessageRow)
    → approvable w now org id ≡ ok (a, m)
    → undecided w org id ≡ ok a
unfolding approvable
approvable-undecided w now org id a m e = elim (Result-cases (require_active_plan w now org)) [
  | inl (x, p) ↦ ground (arith, rw p at e)
  | inr (t, p) ↦ elim (Result-cases (undecided w org id)) [
    | inl (x, u) ↦ ground (arith, rw u at (rw p at e))
    | inr (b, u) ↦ elim (Option-cases (get_message org b.message_id w.messages)) [
      | inl n ↦ ground (arith, rw n at (rw u at (rw p at e)))
      | inr (k, n) ↦
          let same : b ≡ a = ground (arith, rw n at (rw u at (rw p at e))) in u ∙ ap ok same
    ]
  ]
]

pub Waiting-own :
    (w : World) (org : String) (id : ℕ) (a : ActionRow) → Waiting w org id a → Waiting w org a.id a
Waiting-own w org id a h =
    let same : id ≡ a.id = sym (get_action_id org id w.rows a h.found) in
    subst (λ j. Waiting w org j a) same h

pub approve-Good :
    (services : Services) (provider : MailProvider) (now : ℕ) (org user : String) (id : ℕ)
    (edit : Option String) (w : World)
    → Good w
    → Good (approve services provider now org user id edit w).1
unfolding approve
approve-Good services provider now org user id edit w g =
    elim (Result-cases (approvable w now org id)) [
      | inl (x, p) ↦ rw (approve, p) g
      | inr ((a, m), p) ↦
          rw (approve, p)
            (carry_out-Good services provider now org user edit a m w g (
              Waiting-own w org id a
                (undecided-Waiting w org id a (approvable-undecided w now org id a m p))))
    ]

reject_rows :
    (now : ℕ) (org user : String) (id : ℕ) (w : World)
    → tries id w.sent ≡ 0
    → Good w
    → Inv w.removed (set_row org id (mark_rejected user now) w.rows) w.next_id w.sent
unfolding mark_rejected
reject_rows now org user id w untouched g =
    let f = mark_rejected user now in
    record {
      distinct = set_row-DistinctIds org id f (λ r. refl) w.rows g.distinct;
      below =
          set_row-All (λ r. r.id < w.next_id) (λ r. r.id < w.next_id) org id f (λ r p e o. p)
            (λ r p e. p) w.rows g.distinct g.below;
      fits =
          set_row-All (Fits w.sent) (Fits w.sent) org id f
            (λ r p e o.
              let same : r.id ≡ id = ground (arith, e) in
              record { quota = rw same untouched; decided = inl (rw same untouched) })
            (λ r p e. p) w.rows g.distinct g.fits;
      gone_below = g.gone_below;
      backed =
          All-map (Backed w.removed w.rows) (Backed w.removed (set_row org id f w.rows))
            (λ s. set_row-Backed org id f s w.removed w.rows (λ r. refl) (λ r. inr refl)) w.sent
            g.backed;
    }

pub reject-Good :
    (now : ℕ) (org user : String) (id : ℕ) (w : World) → Good w → Good (reject now org user id w).1
unfolding reject audit
reject-Good now org user id w g = elim (Result-cases (undecided w org id)) [
  | inl (x, p) ↦ rw (reject, p) g
  | inr (a, p) ↦
      let waiting = undecided-Waiting w org id a p in
      let located = get_action-Located (Fits w.sent) org id w.rows a g.fits waiting.found in
      let same = get_action_id org id w.rows a waiting.found in
      rw (reject, p)
        (reject_rows now org user id w
          (subst (λ j. tries j w.sent ≡ 0) same (untried w.sent a waiting.waits located.here)) g)
]
