-- ===== src/Sim/Metrics.antt =====
-- `ExecutiveEmailEnv.metrics`: how well the emails of an episode were handled.
use autonomous_executive_ema.Base.{
  Bool, true, false, not, none, some, List, [], ◌∷◌, map, keep, length, null, count_if,
  if◌then◌else◌, Floats, whole, strict_unit_interval,
}
use autonomous_executive_ema.Models.{is_spam}
use autonomous_executive_ema.Sim.{EmailRecord, ExpectedAction, Env, Settings}
use autonomous_executive_ema.Sim.Actions.{same_label, expects_reply}
use autonomous_executive_ema.Sim.Scoring.{reply_keyword_score}

-- `e.predicted_label == e.expected_label`.
unfoldable pub is_labelled_right : EmailRecord → Bool
is_labelled_right m = elim m.predicted_label [
  | none ↦ false
  | some l ↦ same_label l m.expected_label
]

unfoldable pub same_action : ExpectedAction → ExpectedAction → Bool
same_action ExpectedAction.reply ExpectedAction.reply = true
same_action ExpectedAction.defer ExpectedAction.defer = true
same_action ExpectedAction.escalate ExpectedAction.escalate = true
same_action ExpectedAction.ignore ExpectedAction.ignore = true
same_action _ _ = false

-- `e.handled_action == a`.
unfoldable pub is_handled_by : ExpectedAction → EmailRecord → Bool
is_handled_by a m = elim m.handled_action [ none ↦ false | some b ↦ same_action b a ]

module _ (F : Floats) where
  pub record Metrics : Type 0 where
    pub classification_accuracy : F.Float
    pub action_correctness : F.Float
    pub response_quality : F.Float
    pub prioritization : F.Float
    pub resolved_ratio : F.Float

  -- The share of a list that passes a test, zero for no elements.
  unfoldable pub ratio_of : (EmailRecord → Bool) → List EmailRecord → F.Float
  ratio_of p ms =
      if null ms then whole F 0 else F.div (whole F (count_if p ms)) (whole F (length ms))

  -- `sum(values)`.
  unfoldable pub sum_from : F.Float → List F.Float → F.Float
  sum_from total [] = total
  sum_from total (x ∷ xs) = sum_from (F.add total x) xs

  unfoldable pub reply_value : Settings F → EmailRecord → F.Float
  reply_value s m =
      if not (is_handled_by ExpectedAction.reply m)
      then whole F 0
      else reply_keyword_score F s m.last_reply m.expected_reply_keywords

  unfoldable pub reply_quality_of : Settings F → List EmailRecord → F.Float
  reply_quality_of s targets =
      if null targets
      then whole F 0
      else F.div (sum_from (whole F 0) (map (reply_value s) targets)) (whole F (length targets))

  unfoldable pub metrics : Settings F → Env F → Metrics
  metrics s e =
      let actionable =
        keep (λ m. not (same_action m.expected_action ExpectedAction.ignore)) e.emails in
      let reply_targets = keep expects_reply e.emails in
      let non_spam = keep (λ m. not (is_spam m.expected_label)) e.emails in
      record {
        classification_accuracy = strict_unit_interval F (ratio_of is_labelled_right e.emails);
        action_correctness =
            strict_unit_interval F (ratio_of (λ m. is_handled_by m.expected_action m) actionable);
        response_quality = strict_unit_interval F (reply_quality_of s reply_targets);
        prioritization = strict_unit_interval F e.best_priority_similarity;
        resolved_ratio = strict_unit_interval F (ratio_of (λ m. m.resolved) non_spam);
      }
