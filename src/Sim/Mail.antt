-- ===== src/Sim/Mail.antt =====
-- The emails of an episode: those that are shown and those that are still to arrive.
use autonomous_executive_ema.Base.{
  ◌≡◌, refl, ℕ, ◌+◌, String, List, [], ◌∷◌, ◌++◌, map, Bool-cases, inl, inr, arith, Floats, ap, ◌∙◌,
  if-cases, keep, not, count_if, count_if-append, str_eq,
}
use autonomous_executive_ema.Models.{Action}
use autonomous_executive_ema.Sim.{
  Env, EmailRecord, InterruptionEvent, Settings, advance_time, run_down, cost_of,
}
use autonomous_executive_ema.Sim.Actions.{change_first, label_email, answer_email, pass_on, put_off}
use autonomous_executive_ema.Sim.Actions.Frame.{
  handle-Handled, Edited, untouched, edited, Edit, labelled, answered, passed_on, deferred,
}
use autonomous_executive_ema.Sim.Steps.{
  step, act, run, inject_interruptions, is_due, apply_deadline_penalties,
}
use autonomous_executive_ema.Sim.Endings.{before_action, info_before, after_action, step-cases}

abbrev pub ids : List EmailRecord → List String
ids ms = map (λ m. m.id) ms

abbrev pub ids_to_come : List InterruptionEvent → List String
ids_to_come events = map (λ event. event.email.id) events

-- How many times an id stands in a list.
unfoldable pub copies : String → List String → ℕ
copies id xs = count_if (λ x. str_eq x id) xs

Edit-id : (m x : EmailRecord) (f : EmailRecord → EmailRecord) → Edit m f → (f x).id ≡ x.id
unfolding label_email answer_email pass_on put_off
Edit-id m x f (labelled l h) = refl
Edit-id m x f (answered text h) = refl
Edit-id m x f (passed_on h) = refl
Edit-id m x f (deferred h) = refl

ids-change_first :
    (k : String) (f : EmailRecord → EmailRecord) (ms : List EmailRecord)
    → ((x : EmailRecord) → (f x).id ≡ x.id)
    → ids (change_first k f ms) ≡ ids ms
unfolding change_first
ids-change_first k f [] h = refl
ids-change_first k f (m ∷ ms) h = elim (Bool-cases (str_eq m.id k)) [
  | inl b ↦ rw b (ap (λ x. x ∷ ids ms) (h m))
  | inr b ↦ rw b (ap (λ rest. m.id ∷ rest) (ids-change_first k f ms h))
]

run_down-id : (cost : ℕ) (m : EmailRecord) → (run_down cost m).id ≡ m.id
unfolding run_down
run_down-id cost m =
    if-cases (λ (x : EmailRecord). x.id ≡ m.id) (not m.resolved) _ _ (λ _. refl) (λ _. refl)

ids-run_down : (cost : ℕ) (ms : List EmailRecord) → ids (map (run_down cost) ms) ≡ ids ms
ids-run_down cost [] = refl
ids-run_down cost (m ∷ ms) =
    ap (λ x. x ∷ ids (map (run_down cost) ms)) (run_down-id cost m)
    ∙ ap (λ rest. m.id ∷ rest) (ids-run_down cost ms)

ids-append : (ms ns : List EmailRecord) → ids (ms ++ ns) ≡ ids ms ++ ids ns
ids-append [] ns = refl
ids-append (m ∷ ms) ns = ap (λ rest. m.id ∷ rest) (ids-append ms ns)

copies-split :
    (id : String) (minute : ℕ) (events : List InterruptionEvent)
    → copies id (ids (map (λ event. event.email) (keep (is_due minute) events)))
        + copies id (ids_to_come (keep (λ event. not (is_due minute event)) events))
      ≡ copies id (ids_to_come events)
unfolding copies keep count_if
copies-split id minute [] = omega arith
copies-split id minute (event ∷ events) =
    let rest = copies-split id minute events in
    elim (Bool-cases (is_due minute event)) [
      | inl b ↦ rw b (omega (arith, rest))
      | inr b ↦ rw b (omega (arith, rest))
    ]

module _ (F : Floats) where
  ids-Edited : (e e' : Env F) → Edited F e e' → ids e'.emails ≡ ids e.emails
  ids-Edited e e' (untouched h) = ap ids h
  ids-Edited e e' (edited k m f p d h) =
      ap ids h ∙ ids-change_first m.id f e.emails (λ x. Edit-id m x f d)

  -- How many emails have an id, shown or still to arrive.
  unfoldable pub total_copies : String → Env F → ℕ
  total_copies id e = copies id (ids e.emails) + copies id (ids_to_come e.pending_interruptions)

  before-copies :
      (s : Settings F) (id : String) (a : Action) (e : Env F)
      → total_copies id (before_action F s a e) ≡ total_copies id e
  unfolding total_copies inject_interruptions advance_time copies
  before-copies s id a e =
      let cost = cost_of F s a.action_type in
      let minute = e.current_minute + cost in
      let old = map (run_down cost) e.emails in
      let new = map (λ event. event.email) (keep (is_due minute) e.pending_interruptions) in
      let there = λ (x : String). str_eq x id in
      omega (
        arith,
        ap (copies id) (ids-append old new),
        count_if-append there (ids old) (ids new),
        ap (copies id) (ids-run_down cost e.emails),
        copies-split id minute e.pending_interruptions,
      )

  after-copies :
      (s : Settings F) (id : String) (a : Action) (e : Env F)
      → total_copies id (after_action F s a e) ≡ total_copies id e
  unfolding total_copies
  after-copies s id a e =
      let (same, edits) = handle-Handled F s a (info_before F s a e) (before_action F s a e) in
      omega (
        arith,
        ap (copies id) (ids-Edited (before_action F s a e) (after_action F s a e) edits),
        ap (λ events. copies id (ids_to_come events)) same.interruptions,
        before-copies s id a e,
      )

  step-copies :
      (s : Settings F) (id : String) (a : Action) (e : Env F)
      → total_copies id (step F s a e).1 ≡ total_copies id e
  unfolding act total_copies apply_deadline_penalties
  step-copies s id a e =
      step-cases F s (λ e'. total_copies id e' ≡ total_copies id e) a e refl
        (λ t. after-copies s id a e)

  -- No email is lost and none is made up: for each id, the emails with it that are shown and those that
  -- are still to arrive are together as many after any sequence of actions as before it.
  pub run-total_copies :
      (s : Settings F) (id : String) (acts : List Action) (e : Env F)
      → total_copies id (run F s acts e) ≡ total_copies id e
  unfolding run
  run-total_copies s id [] e = refl
  run-total_copies s id (a ∷ acts) e =
      run-total_copies s id acts (step F s a e).1 ∙ step-copies s id a e
