-- ===== src/Sim/Grader/Scores.antt =====
-- The response of the grader: it exists for the three tasks, and its scores are bounded.
use autonomous_executive_ema.Base.{
  ◌≡◌, refl, String, false, none, List, [], ◌∷◌, str_eq_iff, Option-cases, Floats, FloatLaws,
  Within, epsilon, below_one, elem, All, arith, inl, inr,
}
use autonomous_executive_ema.Models.{Action, PersonaType}
use autonomous_executive_ema.Sim.{Settings, PersonaProfile, Scenario, reset}
use autonomous_executive_ema.Sim.Metrics.{Metrics, metrics}
use autonomous_executive_ema.Sim.Safety.{Detectors}
use autonomous_executive_ema.Sim.Grader.{
  Library, GraderResponse, compute_score, grade, evaluate_trajectory,
}

abbrev pub tasks : List String
tasks = "easy_classification" ∷ "medium_prioritization" ∷ "hard_full_management" ∷ []

-- What rounding to six places keeps: the bounds 0.000001 and 0.999999.
pub record UnitRounding (F : Floats) : Type 0 where
  pub round-unit :
      (x : F.Float)
      → Within F (epsilon F) (below_one F) x
      → Within F (epsilon F) (below_one F) (F.round x 6)

module _ (F : Floats) where
  abbrev Unit-bounded : F.Float → Type 0
  Unit-bounded x = Within F (epsilon F) (below_one F) x

module _ (F : Floats) (L : FloatLaws F) (R : UnitRounding F) where
  -- The scores of a response: each lies between 0.000001 and 0.999999.
  pub record InUnit (r : GraderResponse F) : Type 0 where
    pub score : Within F (epsilon F) (below_one F) r.score
    pub breakdown : All (λ item. Within F (epsilon F) (below_one F) item.1) r.breakdown
    pub total_reward : Within F (epsilon F) (below_one F) r.total_reward
    pub safety_score : Within F (epsilon F) (below_one F) r.safety_score

  score-none : (id : String) (m : Metrics F) → elem id tasks ≡ false → compute_score F m id ≡ none
  unfolding compute_score elem
  score-none id m h = ground (
    arith,
    h,
    str_eq_iff "easy_classification" id,
    str_eq_iff "medium_prioritization" id,
    str_eq_iff "hard_full_management" id,
    str_eq_iff id "easy_classification",
    str_eq_iff id "medium_prioritization",
    str_eq_iff id "hard_full_management",
  )

  -- A task that is none of the three is refused, whatever the actions.
  pub evaluate_trajectory-none :
      (l : Library F) (s : Settings F) (d : Detectors) (id : String) (persona : PersonaType)
      (profile : PersonaProfile F) (scenario : Scenario) (acts : List Action)
      → elem id tasks ≡ false
      → evaluate_trajectory F l s d id persona profile scenario acts ≡ none
  unfolding evaluate_trajectory
  evaluate_trajectory-none l s d id persona profile scenario acts h =
      let graded = grade F l s id 0 false acts (reset F persona profile scenario) in
      elim (Option-cases graded) [
        | inl g ↦ rw (evaluate_trajectory, g) refl
        | inr (r, g) ↦ rw (evaluate_trajectory, g, score-none id (metrics F s r.1) h) refl
      ]
