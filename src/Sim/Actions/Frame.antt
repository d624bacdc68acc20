-- ===== src/Sim/Actions/Frame.antt =====
-- What a handler leaves alone: it changes at most one email, and neither the clock nor the
-- interruptions.
use autonomous_executive_ema.Base.{
  ◌≡◌, refl, false, List, Option-cases, Option, none, some, inl, inr, arith, Floats, is_some,
  if-cases, null, not, truthy, or_default, String,
}
use autonomous_executive_ema.Models.{
  ActionType, classify, prioritize, reply, escalate, defer, Action, LabelType,
}
use autonomous_executive_ema.Sim.{Env, Settings, EmailRecord}
use autonomous_executive_ema.Sim.Actions.{
  Outcome, Info, handle, classify_found, handle_classify, handle_reply, reply_found,
  handle_escalate, escalate_found, handle_defer, defer_found, handle_prioritize, find_email,
  change_first, label_email, answer_email, pass_on, put_off,
}

-- The change that a handler makes to the email it finds.
pub data Edit (m : EmailRecord) : (EmailRecord → EmailRecord) → Type 0 where
  labelled : (l : LabelType) → m.predicted_label ≡ none → Edit m (label_email l)
  answered : (text : String) → m.resolved ≡ false → Edit m (answer_email text)
  passed_on : m.resolved ≡ false → Edit m pass_on
  deferred : m.resolved ≡ false → Edit m put_off

module _ (F : Floats) where
  -- The fields of a state that no handler touches.
  pub record SameFrame (e e' : Env F) : Type 0 where
    pub time : e'.time_remaining ≡ e.time_remaining
    pub minute : e'.current_minute ≡ e.current_minute
    pub interruptions : e'.pending_interruptions ≡ e.pending_interruptions
    pub charged : e'.deadline_penalized_ids ≡ e.deadline_penalized_ids

  abbrev frame : (e : Env F) → SameFrame e e
  frame e = record { time = refl; minute = refl; interruptions = refl; charged = refl }

  abbrev changed_emails :
      (e : Env F) (ms : List EmailRecord) → SameFrame e (record e { emails = ms })
  changed_emails e ms = record { time = refl; minute = refl; interruptions = refl; charged = refl }

  -- A handler leaves the emails alone, or edits the one that it finds.
  pub data Edited (e e' : Env F) : Type 0 where
    untouched : e'.emails ≡ e.emails → Edited e e'
    edited :
        (id : Option String) (m : EmailRecord) (f : EmailRecord → EmailRecord)
        → find_email id e.emails ≡ some m
        → Edit m f
        → e'.emails ≡ change_first m.id f e.emails
        → Edited e e'

  abbrev pub Handled : Env F → Outcome F → Type 0
  Handled e r = SameFrame e r.1.1 × Edited e r.1.1

  is_none : {A : Type 0} (o : Option A) → is_some o ≡ false → o ≡ none
  is_none none h = refl
  is_none (some a) h = ground arith

  classify-Handled : (a : Action) (i : Info F) (e : Env F) → Handled e (handle_classify F a i e)
  unfolding handle_classify classify_found
  classify-Handled a i e = elim (Option-cases (find_email a.email_id e.emails)) [
    | inl n ↦ rw (handle_classify, n) (frame e, untouched refl)
    | inr (m, p) ↦ elim (Option-cases a.label) [
      | inl n ↦ rw (handle_classify, p, n) (frame e, untouched refl)
      | inr (l, q) ↦
          rw (handle_classify, p, q)
            (if-cases (Handled e) (is_some m.predicted_label) _ _ (λ _. (frame e, untouched refl))
              (λ b. (
                changed_emails e _,
                edited a.email_id m (label_email l) p (labelled l (is_none _ b)) refl,
              )))
    ]
  ]

  reply-Handled :
      (s : Settings F) (a : Action) (i : Info F) (e : Env F) → Handled e (handle_reply F s a i e)
  unfolding handle_reply reply_found
  reply-Handled s a i e =
      let text = or_default a.content "" in
      elim (Option-cases (find_email a.email_id e.emails)) [
        | inl n ↦ rw (handle_reply, n) (frame e, untouched refl)
        | inr (m, p) ↦
            rw (handle_reply, p)
              (if-cases (Handled e) (not (truthy text)) _ _ (λ _. (frame e, untouched refl))
                (λ _.
                  if-cases (Handled e) m.resolved _ _ (λ _. (frame e, untouched refl))
                    (λ b. (
                      changed_emails e _,
                      edited a.email_id m (answer_email text) p (answered text b) refl,
                    ))))
      ]

  escalate-Handled : (a : Action) (i : Info F) (e : Env F) → Handled e (handle_escalate F a i e)
  unfolding handle_escalate escalate_found
  escalate-Handled a i e = elim (Option-cases (find_email a.email_id e.emails)) [
    | inl n ↦ rw (handle_escalate, n) (frame e, untouched refl)
    | inr (m, p) ↦
        rw (handle_escalate, p)
          (if-cases (Handled e) m.resolved _ _ (λ _. (frame e, untouched refl))
            (λ b. (changed_emails e _, edited a.email_id m pass_on p (passed_on b) refl)))
  ]

  defer-Handled : (a : Action) (i : Info F) (e : Env F) → Handled e (handle_defer F a i e)
  unfolding handle_defer defer_found
  defer-Handled a i e = elim (Option-cases (find_email a.email_id e.emails)) [
    | inl n ↦ rw (handle_defer, n) (frame e, untouched refl)
    | inr (m, p) ↦
        rw (handle_defer, p)
          (if-cases (Handled e) m.resolved _ _ (λ _. (frame e, untouched refl))
            (λ b. (changed_emails e _, edited a.email_id m put_off p (deferred b) refl)))
  ]

  prioritize-Handled :
      (s : Settings F) (a : Action) (i : Info F) (e : Env F)
      → Handled e (handle_prioritize F s a i e)
  unfolding handle_prioritize
  prioritize-Handled s a i e =
      if-cases (Handled e) (null a.priority_order) _ _ (λ _. (frame e, untouched refl))
        (λ _. (
          record { time = refl; minute = refl; interruptions = refl; charged = refl },
          untouched refl,
        ))

  handle-as :
      (s : Settings F) (t : ActionType) (a : Action) (i : Info F) (e : Env F)
      → Handled e (handle F s (record a { action_type = t }) i e)
  unfolding handle
  handle-as s classify a i e = classify-Handled (record a { action_type = classify }) i e
  handle-as s prioritize a i e = prioritize-Handled s (record a { action_type = prioritize }) i e
  handle-as s reply a i e = reply-Handled s (record a { action_type = reply }) i e
  handle-as s escalate a i e = escalate-Handled (record a { action_type = escalate }) i e
  handle-as s defer a i e = defer-Handled (record a { action_type = defer }) i e

  pub handle-Handled :
      (s : Settings F) (a : Action) (i : Info F) (e : Env F) → Handled e (handle F s a i e)
  handle-Handled s a i e = handle-as s a.action_type a i e
