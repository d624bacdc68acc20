-- ===== src/Sim/Final.antt =====
-- What later actions cannot undo: the treatment of an email that is resolved, and a label.
use autonomous_executive_ema.Base.{
  ◌≡◌, refl, ℕ, zero, suc, String, Bool, true, false, List, [], ◌∷◌, map, Option, none, some,
  Bool-cases, inl, inr, arith, Floats, sym, ap, ◌∙◌, if◌then◌else◌, if-cases, not, str_eq,
  str_eq_true, truthy, get_elem?, get_elem?-append, get_elem?-map,
}
use autonomous_executive_ema.Models.{Action, LabelType}
use autonomous_executive_ema.Sim.{Env, EmailRecord, Settings, advance_time, run_down, cost_of}
use autonomous_executive_ema.Sim.Actions.{
  change_first, find_email, find_in, label_email, answer_email, pass_on, put_off,
}
use autonomous_executive_ema.Sim.Actions.Frame.{
  handle-Handled, Edited, untouched, edited, Edit, labelled, answered, passed_on, deferred,
}
use autonomous_executive_ema.Sim.Steps.{
  step, act, run, inject_interruptions, apply_deadline_penalties,
}
use autonomous_executive_ema.Sim.Endings.{before_action, info_before, after_action, step-cases}
use mathlib.Core.Path.{subst}
use mathlib.Core.Option.{some-injective}

-- What the first test of a search says of its result.
found_here :
    (b : Bool) (k : String) (x m : EmailRecord) (rest : Option EmailRecord)
    → (if b then some x else rest) ≡ some m
    → b ≡ true
    → x ≡ m
found_here true k x m rest h t = some-injective x m h
found_here false k x m rest h t = ground (arith, t)

found_later :
    (b : Bool) (x m : EmailRecord) (rest : Option EmailRecord)
    → (if b then some x else rest) ≡ some m
    → b ≡ false
    → rest ≡ some m
found_later true x m rest h t = ground (arith, t)
found_later false x m rest h t = h

find_in-id :
    (k : String) (ms : List EmailRecord) (m : EmailRecord) → find_in k ms ≡ some m → m.id ≡ k
unfolding find_in
find_in-id k [] m h = ground (arith, h)
find_in-id k (x ∷ ms) m h = elim (Bool-cases (str_eq x.id k)) [
  | inl b ↦
      sym (ap (λ (z : EmailRecord). z.id) (found_here (str_eq x.id k) k x m (find_in k ms) h b))
      ∙ str_eq_true x.id k b
  | inr b ↦ find_in-id k ms m (found_later (str_eq x.id k) x m (find_in k ms) h b)
]

-- A search by the id of what an earlier search found finds the same.
find_email-id :
    (id : Option String) (ms : List EmailRecord) (m : EmailRecord)
    → find_email id ms ≡ some m
    → find_in m.id ms ≡ some m
unfolding find_email
find_email-id none ms m h = ground (arith, h)
find_email-id (some k) ms m h = elim (Bool-cases (truthy k)) [
  | inl b ↦
      let e = subst (λ c. (if c then find_in k ms else none) ≡ some m) b h in
      subst (λ j. find_in j ms ≡ some m) (sym (find_in-id k ms m e)) e
  | inr b ↦
      let e = subst (λ c. (if c then find_in k ms else none) ≡ some m) b h in ground (arith, e)
]

module _ (P : EmailRecord → Type 0)
    (edit-P : (x : EmailRecord) (f : EmailRecord → EmailRecord) → P x → Edit x f → P (f x))
    (down-P : (x : EmailRecord) (cost : ℕ) → P x → P (run_down cost x)) where
  -- The email at a place is one of which `P` holds.
  abbrev Stands : ℕ → List EmailRecord → Type 0
  Stands i ms = (x : EmailRecord) × (get_elem? ms i ≡ some x) × P x

  change_first-Stands :
      (k : String) (f : EmailRecord → EmailRecord) (ms : List EmailRecord) (i : ℕ) (m : EmailRecord)
      → find_in k ms ≡ some m
      → Edit m f
      → Stands i ms
      → Stands i (change_first k f ms)
  unfolding change_first find_in
  change_first-Stands k f [] i m h d (x, p, q) = (x, p, q)
  change_first-Stands k f (y ∷ ms) zero m h d (x, p, q) = elim (Bool-cases (str_eq y.id k)) [
    | inl b ↦
        let yx = some-injective y x p in
        let ym = found_here (str_eq y.id k) k y m (find_in k ms) h b in
        rw b (f y, refl, edit-P y f (subst P (sym yx) q) (subst (λ z. Edit z f) (sym ym) d))
    | inr b ↦ rw b (x, p, q)
  ]
  change_first-Stands k f (y ∷ ms) (suc i) m h d (x, p, q) = elim (Bool-cases (str_eq y.id k)) [
    | inl b ↦ rw b (x, p, q)
    | inr b ↦ rw b (
        change_first-Stands k f ms i m (found_later (str_eq y.id k) y m (find_in k ms) h b) d
          (x, p, q))
  ]

  module _ (F : Floats) where
    before-Stands :
        (s : Settings F) (i : ℕ) (a : Action) (e : Env F)
        → Stands i e.emails
        → Stands i (before_action F s a e).emails
    unfolding inject_interruptions advance_time
    before-Stands s i a e (x, p, q) =
        let cost = cost_of F s a.action_type in
        (
          run_down cost x,
          get_elem?-append (map (run_down cost) e.emails) _ i (run_down cost x)
              (get_elem?-map (run_down cost) e.emails i x p),
          down-P x cost q,
        )

    Edited-Stands : (i : ℕ) (e e' : Env F) → Edited F e e' → Stands i e.emails → Stands i e'.emails
    Edited-Stands i e e' (untouched h) t = subst (Stands i) (sym h) t
    Edited-Stands i e e' (edited id m f p d h) t =
        subst (Stands i) (sym h)
          (change_first-Stands m.id f e.emails i m (find_email-id id e.emails m p) d t)

    step-Stands :
        (s : Settings F) (i : ℕ) (a : Action) (e : Env F)
        → Stands i e.emails
        → Stands i (step F s a e).1.emails
    unfolding act apply_deadline_penalties
    step-Stands s i a e t =
        let (same, edits) = handle-Handled F s a (info_before F s a e) (before_action F s a e) in
        step-cases F s (λ e'. Stands i e'.emails) a e t
          (λ r.
            Edited-Stands i (before_action F s a e) (after_action F s a e) edits
              (before-Stands s i a e t))

    run-Stands :
        (s : Settings F) (i : ℕ) (acts : List Action) (e : Env F)
        → Stands i e.emails
        → Stands i (run F s acts e).emails
    unfolding run
    run-Stands s i [] e t = t
    run-Stands s i (a ∷ acts) e t = run-Stands s i acts (step F s a e).1 (step-Stands s i a e t)

-- What has become of an email: its deadline has stopped, and how it was handled stays.
pub record Closed (m x : EmailRecord) : Type 0 where
  pub id : x.id ≡ m.id
  pub resolved : x.resolved ≡ true
  pub handled : x.handled_action ≡ m.handled_action
  pub reply : x.last_reply ≡ m.last_reply
  pub deadline : x.deadline_minutes ≡ m.deadline_minutes

Edit-Closed :
    (m x : EmailRecord) (f : EmailRecord → EmailRecord) → Closed m x → Edit x f → Closed m (f x)
unfolding label_email answer_email pass_on put_off
Edit-Closed m x f c (labelled l h) = record {
  id = c.id;
  resolved = ground (arith, c.resolved);
  handled = c.handled;
  reply = c.reply;
  deadline = c.deadline;
}
Edit-Closed m x f c (answered text h) = ground (arith, c.resolved, h)
Edit-Closed m x f c (passed_on h) = ground (arith, c.resolved, h)
Edit-Closed m x f c (deferred h) = ground (arith, c.resolved, h)

down-Closed : (m x : EmailRecord) (cost : ℕ) → Closed m x → Closed m (run_down cost x)
unfolding run_down
down-Closed m x cost c =
    if-cases (Closed m) (not x.resolved) _ _ (λ b. ground (arith, b, c.resolved)) (λ b. c)

-- An email that is resolved stays so: after any sequence of actions it stands at the same place, with the
-- id, the handled action, the reply and the deadline that it had.
pub resolved_is_final :
    (F : Floats) (s : Settings F) (i : ℕ) (m : EmailRecord) (acts : List Action) (e : Env F)
    → get_elem? e.emails i ≡ some m
    → m.resolved ≡ true
    → (x : EmailRecord) × (get_elem? (run F s acts e).emails i ≡ some x) × Closed m x
resolved_is_final F s i m acts e p r =
    run-Stands (Closed m) (Edit-Closed m) (down-Closed m) F s i acts e
      (m, p, record { id = refl; resolved = r; handled = refl; reply = refl; deadline = refl })

Edit-label :
    (l : LabelType) (x : EmailRecord) (f : EmailRecord → EmailRecord)
    → x.predicted_label ≡ some l
    → Edit x f
    → (f x).predicted_label ≡ some l
unfolding label_email answer_email pass_on put_off
Edit-label l x f c (labelled k h) = ground (arith, c, h)
Edit-label l x f c (answered text h) = c
Edit-label l x f c (passed_on h) = c
Edit-label l x f c (deferred h) = c

down-label :
    (l : LabelType) (x : EmailRecord) (cost : ℕ)
    → x.predicted_label ≡ some l
    → (run_down cost x).predicted_label ≡ some l
unfolding run_down
down-label l x cost c =
    if-cases (λ (y : EmailRecord). y.predicted_label ≡ some l) (not x.resolved) _ _ (λ b. c)
      (λ b. c)

-- The first label counts: an email that has one keeps it through any sequence of actions.
pub label_is_final :
    (F : Floats) (s : Settings F) (i : ℕ) (m : EmailRecord) (l : LabelType) (acts : List Action)
    (e : Env F)
    → get_elem? e.emails i ≡ some m
    → m.predicted_label ≡ some l
    → (x : EmailRecord) × (get_elem? (run F s acts e).emails i ≡ some x)
      × (x.predicted_label ≡ some l)
label_is_final F s i m l acts e p h =
    run-Stands (λ x. x.predicted_label ≡ some l) (Edit-label l) (down-label l) F s i acts e
      (m, p, h)
