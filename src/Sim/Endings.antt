-- ===== src/Sim/Endings.antt =====
-- How long an episode of the simulator can last.
use autonomous_executive_ema.Base.{
  ◌≡◌, refl, ℕ, suc, ◌-◌, ◌≤◌, true, false, List, [], ◌∷◌, Bool-cases, inl, inr, ◌⊎◌, arith, length,
  Floats, sym, ap, ◌∙◌, if-cases, ◌&&◌,
}
use autonomous_executive_ema.Models.{ActionType, Action, PersonaType}
use autonomous_executive_ema.Sim.{
  Env, PersonaProfile, Scenario, reset, Settings, is_done, advance_time, cost_of,
}
use autonomous_executive_ema.Sim.Steps.{
  step, act, close, run, inject_interruptions, apply_deadline_penalties, nonzero, terminal_penalty,
}
use autonomous_executive_ema.Sim.Actions.{Outcome, handle, no_info, Info}
use autonomous_executive_ema.Sim.Actions.Frame.{handle-Handled}
use mathlib.Core.Path.{subst}

module _ (F : Floats) (s : Settings F) where
  -- The state in which a step handles its action, and what it writes beforehand.
  abbrev pub before_action : Action → Env F → Env F
  before_action a e = (inject_interruptions F (advance_time F (cost_of F s a.action_type) e)).1

  abbrev pub info_before : Action → Env F → Info F
  info_before a e =
      let arrived = (inject_interruptions F (advance_time F (cost_of F s a.action_type) e)).0 in
      record (no_info F) { interruptions = arrived }

  abbrev pub after_action : Action → Env F → Env F
  after_action a e = (handle F s a (info_before a e) (before_action a e)).1.1

  pub act-time :
      (a : Action) (e : Env F)
      → (act F s a e).1.1.time_remaining ≡ e.time_remaining - cost_of F s a.action_type
  unfolding act inject_interruptions apply_deadline_penalties advance_time
  act-time a e = (handle-Handled F s a (info_before a e) (before_action a e)).0.time

  -- Closing an episode changes no more than its total reward.
  pub close-env {κ} :
      (P : Env F → Type κ) (r : Outcome F)
      → ((t : F.Float) → P (record (r.1.1) { total_reward = t }))
      → P (close F r).1.1
  unfolding close
  close-env P r h =
      let e = r.1.1 in
      if-cases (λ (o : Outcome F). P o.1.1) (is_done F e && nonzero F (terminal_penalty F e)) _ _
        (λ _. h (F.add e.total_reward (terminal_penalty F e))) (λ _. h e.total_reward)

  step-stop : (a : Action) (e : Env F) → is_done F e ≡ true → (step F s a e).1 ≡ e
  unfolding step
  step-stop a e d = rw (step, d) refl

  step-go :
      (a : Action) (e : Env F)
      → is_done F e ≡ false
      → (step F s a e).1 ≡ (close F (act F s a e)).1.1
  unfolding step
  step-go a e d = rw (step, d) refl

  -- What holds of the state before a step, and of that after it where the episode goes on, holds after it.
  pub step-cases {κ} :
      (P : Env F → Type κ) (a : Action) (e : Env F)
      → P e
      → ((t : F.Float) → P (record ((act F s a e).1.1) { total_reward = t }))
      → P (step F s a e).1
  step-cases P a e h k = elim (Bool-cases (is_done F e)) [
    | inl d ↦ subst P (sym (step-stop a e d)) h
    | inr d ↦ subst P (sym (step-go a e d)) (close-env P (act F s a e) k)
  ]

  run-stop : (acts : List Action) (e : Env F) → is_done F e ≡ true → run F s acts e ≡ e
  unfolding run
  run-stop [] e d = refl
  run-stop (a ∷ acts) e d = ap (run F s acts) (step-stop a e d) ∙ run-stop acts e d

  out_of_time : (e : Env F) → e.time_remaining ≤ 0 → is_done F e ≡ true
  unfolding is_done
  out_of_time e h = ground (arith, h)

  step-time :
      ((t : ActionType) → 1 ≤ cost_of F s t)
      → (a : Action) (e : Env F) (n : ℕ) → e.time_remaining ≤ suc n
      → (is_done F (step F s a e).1 ≡ true) ⊎ ((step F s a e).1.time_remaining ≤ n)
  step-time c a e n h = elim (Bool-cases (is_done F e)) [
    | inl d ↦ inl (ap (is_done F) (step-stop a e d) ∙ d)
    | inr d ↦ inr (
        subst (λ e'. e'.time_remaining ≤ n) (sym (step-go a e d))
          (close-env (λ e'. e'.time_remaining ≤ n) (act F s a e)
            (λ t. omega (arith, act-time a e, c a.action_type, h))))
  ]

  run_ends :
      ((t : ActionType) → 1 ≤ cost_of F s t)
      → (acts : List Action) (e : Env F) → e.time_remaining ≤ length acts
      → is_done F (run F s acts e) ≡ true
  unfolding run
  run_ends c [] e h = out_of_time e h
  run_ends c (a ∷ acts) e h = elim (step-time c a e (length acts) h) [
    | inl d ↦ ap (is_done F) (run-stop acts (step F s a e).1 d) ∙ d
    | inr k ↦ run_ends c acts (step F s a e).1 k
  ]

-- An episode always ends: where every type of action costs at least a minute, it is over after as many
-- actions as the scenario has minutes, whichever actions they are.
pub episode_ends :
    (F : Floats) (s : Settings F) (persona : PersonaType) (profile : PersonaProfile F)
    (scenario : Scenario) (acts : List Action)
    → ((t : ActionType) → 1 ≤ cost_of F s t)
    → scenario.time_budget ≤ length acts
    → is_done F (run F s acts (reset F persona profile scenario)) ≡ true
unfolding reset
episode_ends F s persona profile scenario acts c h =
    run_ends F s c acts (reset F persona profile scenario) h
