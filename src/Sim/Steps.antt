-- ===== src/Sim/Steps.antt =====
-- `ExecutiveEmailEnv.step`: time passes, interruptions arrive, the action is handled, deadlines are
-- charged, and an episode that is over gets its terminal penalty. `run` is a sequence of steps.
use autonomous_executive_ema.Base.{
  ℕ, String, Bool, true, not, ◌&&◌, ◌||◌, some, List, [], ◌∷◌, ◌++◌, map, keep, leb, elem,
  if◌then◌else◌, not_positive, Floats, whole, hundredths, fmax, fmin, count_if,
}
use autonomous_executive_ema.Models.{Observation, Action, is_urgent, is_sensitive}
use autonomous_executive_ema.Sim.{
  EmailRecord, InterruptionEvent, Env, Settings, is_done, advance_time, cost_of, build_observation,
  derive_risk_level, is_critical_open,
}
use autonomous_executive_ema.Sim.Actions.{Info, no_info, Outcome, handle}

-- `_inject_interruptions`.
unfoldable pub is_due : ℕ → InterruptionEvent → Bool
is_due minute event = leb event.trigger_minute minute

-- A charge falls on each urgent or critical email that is unresolved past its deadline, and not yet charged.
unfoldable pub is_overdue : EmailRecord → Bool
is_overdue m =
    not m.resolved && not_positive m.deadline_minutes && (is_urgent m.expected_label || m.critical)

unfoldable pub is_urgent_open : EmailRecord → Bool
is_urgent_open m = is_urgent m.expected_label && not m.resolved

unfoldable pub is_risky_open : EmailRecord → Bool
is_risky_open m = is_critical_open m && is_sensitive m.risk_tag

module _ (F : Floats) where
  unfoldable pub inject_interruptions : Env F → List String × Env F
  inject_interruptions e =
      let due = keep (is_due e.current_minute) e.pending_interruptions in
      (
        map (λ event. event.email.id) due,
        record e {
          emails = e.emails ++ map (λ event. event.email) due;
          pending_interruptions =
              keep (λ event. not (is_due e.current_minute event)) e.pending_interruptions;
        },
      )

  -- The loop of `_apply_deadline_penalties`: the penalty and the ids that were charged.
  unfoldable pub charge_overdue :
      F.Float → List EmailRecord → F.Float → List String → F.Float × List String
  charge_overdue amount [] penalty ids = (penalty, ids)
  charge_overdue amount (m ∷ ms) penalty ids =
      let is_charged = not (elem m.id ids) && is_overdue m in
      charge_overdue amount ms (if is_charged then F.sub penalty amount else penalty)
        (if is_charged then m.id ∷ ids else ids)

  -- `_apply_deadline_penalties`.
  unfoldable pub apply_deadline_penalties : Env F → F.Float × Env F
  apply_deadline_penalties e =
      let amount = F.mul (hundredths F 70) e.persona_profile.deadline_penalty_multiplier in
      let charged = charge_overdue amount e.emails (whole F 0) e.deadline_penalized_ids in
      (charged.0, record e { deadline_penalized_ids = charged.1 })

  -- `_terminal_penalty`.
  unfoldable pub terminal_penalty : Env F → F.Float
  terminal_penalty e =
      let urgent = F.mul (hundredths F 50) (whole F (count_if is_urgent_open e.emails)) in
      let risky = F.mul (hundredths F 40) (whole F (count_if is_risky_open e.emails)) in
      F.mul (F.sub (F.sub (whole F 0) urgent) risky) e.persona_profile.terminal_penalty_multiplier

  -- `max(-1.0, min(1.0, reward))`.
  unfoldable pub clipped : F.Float → F.Float
  clipped reward = fmax F (F.neg (whole F 1)) (fmin F (whole F 1) reward)

  pub record ActionResult : Type 0 where
    pub observation : Observation
    pub reward : F.Float
    pub done : Bool
    pub info : Info F

  -- `x != 0.0`.
  abbrev pub nonzero : F.Float → Bool
  nonzero x = not (F.eq x (whole F 0))

  -- The state after the part of `step` that the action decides, with the clipped reward.
  unfoldable pub act : Settings F → Action → Env F → Outcome F
  act s a e =
      let (arrived, e2) = inject_interruptions (advance_time F (cost_of F s a.action_type) e) in
      let (reward, handled) = handle F s a (record (no_info F) { interruptions = arrived }) e2 in
      let (penalty, e4) = apply_deadline_penalties handled.1 in
      let total = clipped (F.add (F.add (whole F 0) reward) penalty) in
      (
        total,
        (
          handled.0,
          record e4 {
            action_history = e4.action_history ++ a ∷ [];
            risk_level = derive_risk_level e4.emails;
            total_reward = F.add e4.total_reward total;
          },
        ),
      )

  -- The terminal penalty of an episode that is over.
  unfoldable pub close : Outcome F → Outcome F
  close (reward, (info, e)) =
      let penalty = terminal_penalty e in
      if is_done F e && nonzero penalty
      then (
        clipped (F.add reward penalty),
        (
          record info { terminal_penalty = some (F.round penalty 3) },
          record e { total_reward = F.add e.total_reward penalty },
        ),
      )
      else (reward, (info, e))

  -- `ExecutiveEmailEnv.step`.
  unfoldable pub step : Settings F → Action → Env F → ActionResult × Env F
  step s a e =
      let (reward, rest) = close (act s a e) in
      if is_done F e
      then (
        record {
          observation = build_observation F e;
          reward = whole F 0;
          done = true;
          info = record (no_info F) { message = some "Episode already complete." };
        },
        e,
      )
      else (
        record {
          observation = build_observation F rest.1;
          reward = F.round reward 6;
          done = is_done F rest.1;
          info = rest.0;
        },
        rest.1,
      )

  -- The state after a sequence of actions.
  unfoldable pub run : Settings F → List Action → Env F → Env F
  run s [] e = e
  run s (a ∷ rest) e = run s rest (step s a e).1
