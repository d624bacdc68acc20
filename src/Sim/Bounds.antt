-- ===== src/Sim/Bounds.antt =====
-- The bounds of a reward.
use autonomous_executive_ema.Base.{
  ◌≡◌, true, false, Floats, whole, if-cases, ◌&&◌, FloatLaws, Within, clamp-Within,
}
use autonomous_executive_ema.Models.{Action}
use autonomous_executive_ema.Sim.{Env, Settings, is_done}
use autonomous_executive_ema.Sim.Actions.{Outcome}
use autonomous_executive_ema.Sim.Steps.{step, act, close, clipped, nonzero, terminal_penalty}

-- What rounding to six places keeps: the bounds -1 and 1.
pub record RoundLaws (F : Floats) : Type 0 where
  pub round-Within :
      (x : F.Float)
      → Within F (F.neg (whole F 1)) (whole F 1) x
      → Within F (F.neg (whole F 1)) (whole F 1) (F.round x 6)

module _ (F : Floats) (L : FloatLaws F) (R : RoundLaws F) (s : Settings F) where
  abbrev Bounded : F.Float → Type 0
  Bounded x = Within F (F.neg (whole F 1)) (whole F 1) x

  close-Bounded :
      F.lt (F.neg (whole F 1)) (whole F 1) ≡ true
      → (r : Outcome F) → Bounded r.0
      → Bounded (close F r).0
  unfolding close clipped
  close-Bounded o r h =
      if-cases (λ (x : Outcome F). Bounded x.0)
        (is_done F r.1.1 && nonzero F (terminal_penalty F r.1.1)) _ _
        (λ _. clamp-Within F L (F.neg (whole F 1)) (whole F 1) _ o) (λ _. h)

  -- The reward of a step is neither below -1 nor above 1, whatever the action and the state, with the
  -- terminal penalty as without it. The episode is not over before the step: time is left, and a message
  -- is open or still to come.
  pub step-reward :
      (a : Action) (e : Env F)
      → F.lt (F.neg (whole F 1)) (whole F 1) ≡ true
      → is_done F e ≡ false
      → Within F (F.neg (whole F 1)) (whole F 1) (step F s a e).0.reward
  unfolding step act clipped
  step-reward a e o d =
      rw (step, d)
        (R.round-Within _
          (close-Bounded o (act F s a e) (clamp-Within F L (F.neg (whole F 1)) (whole F 1) _ o)))
