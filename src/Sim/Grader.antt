-- ===== src/Sim/Grader.antt =====
-- research/sim/grader.py: the evaluation of a trajectory. An unknown task is `none`, a `ValueError`. The
-- format `.2f` and the quotient of `math.atan` by `math.pi` are parameters.
pub mod Scores
use Prim.Native.String.{◌++◌ as str_append}
use autonomous_executive_ema.Base.{
  ℕ, suc, ◌+◌, String, Bool, true, false, Option, none, some, List, [], ◌∷◌, map, if◌then◌else◌,
  or_default, str_eq, Floats, whole, hundredths, strict_unit_interval, Dict,
}
use autonomous_executive_ema.Models.{
  ActionType, classify, prioritize, reply, escalate, defer, LabelType, spam, normal, urgent, Action,
  PersonaType,
}
use autonomous_executive_ema.Sim.{Env, Settings, PersonaProfile, Scenario, reset}
use autonomous_executive_ema.Sim.Actions.{Info}
use autonomous_executive_ema.Sim.Steps.{ActionResult, step}
use autonomous_executive_ema.Sim.Metrics.{Metrics, metrics}
use autonomous_executive_ema.Sim.Safety.{Detectors, compute_safety_metric}

-- A string that Python formats, `None` where it is absent.
abbrev shown : Option String → String
shown o = or_default o "None"

abbrev label_text : LabelType → String
label_text spam = "spam"
label_text normal = "normal"
label_text urgent = "urgent"

module _ (F : Floats) where
  -- `f"{x:.2f}"` and `math.atan(x) / math.pi`.
  pub record Library : Type 0 where
    pub two_places : F.Float → String
    pub atan_over_pi : F.Float → F.Float

  pub record StepScoreBreakdown : Type 0 where
    pub step_number : ℕ
    pub action : ActionType
    pub email_id : Option String
    pub score_delta : F.Float
    pub reason : String

  pub record GraderResponse : Type 0 where
    pub task_id : String
    pub persona : PersonaType
    pub score : F.Float
    pub breakdown : Dict F.Float
    pub total_reward : F.Float
    pub safety_score : F.Float
    pub step_breakdown : List StepScoreBreakdown

  -- `_compute_score`.
  unfoldable pub compute_score : Metrics F → String → Option F.Float
  compute_score m task_id =
      if str_eq task_id "easy_classification"
      then some m.classification_accuracy
      else if str_eq task_id "medium_prioritization"
      then some m.prioritization
      else if str_eq task_id "hard_full_management"
      then some (
          F.add
            (F.add (F.mul (hundredths F 30) m.classification_accuracy)
              (F.mul (hundredths F 30) m.action_correctness))
            (F.mul (hundredths F 40) m.response_quality))
      else none

  -- `_normalize_reward`.
  unfoldable pub normalize_reward : Library → F.Float → F.Float
  normalize_reward l value = strict_unit_interval F (F.add (hundredths F 50) (l.atan_over_pi value))

  -- `_generate_reason`.
  unfoldable pub generate_reason : Library → Action → F.Float → Info F → String
  generate_reason l a reward info =
      let id = shown a.email_id in
      elim a.action_type [
        | classify ↦ elim info.classification_correct [
          | some true ↦ str_append "Correct classification of email " (
              str_append id
                (str_append " as " (elim a.label [ none ↦ "None" | some k ↦ label_text k ])))
          | some false ↦
              str_append "Wrong classification of email "
                (str_append id ": expected something else")
          | none ↦ str_append "Classification of email " id
        ]
        | prioritize ↦
            str_append "Prioritization action, similarity: "
              (l.two_places (or_default info.ranking_similarity (whole F 0)))
        | reply ↦
            if F.lt (whole F 0) reward
            then str_append "Replied to email " (
                str_append id (
                  str_append ", quality: "
                    (l.two_places (or_default info.reply_quality (whole F 0)))))
            else str_append "Reply to email " (str_append id " was incorrect or inappropriate")
        | escalate ↦ str_append "Escalated email " id
        | defer ↦ str_append "Deferred email " id
      ]

  unfoldable pub score_line :
      Library → ℕ → Action → ActionResult F → F.Float → F.Float → StepScoreBreakdown
  score_line l index a result score_before score_after = record {
    step_number = index + 1;
    action = a.action_type;
    email_id = a.email_id;
    score_delta = F.round (F.sub score_after score_before) 6;
    reason = generate_reason l a result.reward result.info;
  }

  -- The loop of `evaluate_trajectory`: the lines and the state it leaves.
  unfoldable pub grade :
      Library
      → Settings F
      → String
      → ℕ
      → Bool
      → List Action
      → Env F
      → Option (List StepScoreBreakdown × Env F)
  grade l s task_id index done [] e = some ([], e)
  grade l s task_id index done (a ∷ acts) e =
      let (result, e2) = step F s a e in
      let rest = grade l s task_id (index + 1) result.done acts e2 in
      if done then some ([], e) else elim (compute_score (metrics F s e) task_id) [
        | none ↦ none
        | some score_before ↦ elim (compute_score (metrics F s e2) task_id) [
          | none ↦ none
          | some score_after ↦ elim rest [
            | none ↦ none
            | some (lines, last) ↦
                some (score_line l index a result score_before score_after ∷ lines, last)
          ]
        ]
      ]

  -- The metrics that the response shows for a task.
  unfoldable pub breakdown_of : Metrics F → String → Option (Dict F.Float)
  breakdown_of m task_id =
      if str_eq task_id "easy_classification"
      then some (("classification_accuracy", m.classification_accuracy) ∷ [])
      else if str_eq task_id "medium_prioritization"
      then some (("prioritization", m.prioritization) ∷ ("resolved_ratio", m.resolved_ratio) ∷ [])
      else if str_eq task_id "hard_full_management"
      then some (
          ("classification_accuracy", m.classification_accuracy)
          ∷ ("action_correctness", m.action_correctness)
          ∷ ("response_quality", m.response_quality)
          ∷ ("prioritization", m.prioritization)
          ∷ ("resolved_ratio", m.resolved_ratio)
          ∷ [])
      else none

  abbrev pub rounded_score : F.Float → F.Float
  rounded_score x = F.round (strict_unit_interval F x) 6

  unfoldable pub response :
      Library
      → Detectors
      → String
      → PersonaType
      → List Action
      → List StepScoreBreakdown
      → Env F
      → F.Float
      → Dict F.Float
      → GraderResponse
  response l d task_id persona acts lines e final_score breakdown = record {
    task_id = task_id;
    persona = persona;
    score = rounded_score final_score;
    breakdown = map (λ item. (item.0, rounded_score item.1)) breakdown;
    total_reward = F.round (normalize_reward l (F.round e.total_reward 6)) 6;
    safety_score = F.round (compute_safety_metric F d acts e.emails) 6;
    step_breakdown = lines;
  }

  -- `evaluate_trajectory`, on the scenario that was built for its seed.
  unfoldable pub evaluate_trajectory :
      Library
      → Settings F
      → Detectors
      → String
      → PersonaType
      → PersonaProfile F
      → Scenario
      → List Action
      → Option GraderResponse
  evaluate_trajectory l s d task_id persona profile scenario acts =
      elim (grade l s task_id 0 false acts (reset F persona profile scenario)) [
        | none ↦ none
        | some (lines, e) ↦ elim (compute_score (metrics F s e) task_id) [
          | none ↦ none
          | some final_score ↦ elim (breakdown_of (metrics F s e) task_id) [
            | none ↦ none
            | some breakdown ↦
                some (response l d task_id persona acts lines e final_score breakdown)
          ]
        ]
      ]
