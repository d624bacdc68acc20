-- ===== src/Sim/Actions.antt =====
-- The handlers of `ExecutiveEmailEnv`: one for each type of action, with the reward it returns and what
-- it writes into `info`. An absent key of `info` is `none`, or the empty list of interruptions.
pub mod Frame
use autonomous_executive_ema.Base.{
  ℕ, ◌+◌, ◌-◌, ◌*◌, String, Bool, true, false, not, ◌&&◌, ◌||◌, Option, none, some, List, [], ◌∷◌,
  ◌++◌, map, keep, length, null, leb, ltb, elem, truthy, if◌then◌else◌, or_default, str_eq, ℤ,
  pos_part, neg_part, Floats, whole, hundredths, fmax, clip_score, count_if, contains, Dict, lookup,
  insert, is_some,
}
use autonomous_executive_ema.Models.{
  ActionType, LabelType, spam, normal, urgent, Level, high, low, medium, SenderRole, client,
  internal, vendor, unknown, Action, is_spam, is_urgent,
}
use autonomous_executive_ema.Sim.{EmailRecord, ExpectedAction, Env, PersonaProfile, Settings}
use autonomous_executive_ema.Sim.Scoring.{
  compute_gold_priority_order, reply_keyword_score, ranking_similarity,
}

abbrev pub same_label : LabelType → LabelType → Bool
same_label spam spam = true
same_label normal normal = true
same_label urgent urgent = true
same_label _ _ = false

abbrev pub expects_reply : EmailRecord → Bool
expects_reply m = elim m.expected_action [ ExpectedAction.reply ↦ true | _ ↦ false ]

abbrev pub expects_escalation : EmailRecord → Bool
expects_escalation m = elim m.expected_action [ ExpectedAction.escalate ↦ true | _ ↦ false ]

abbrev pub expects_deferral : EmailRecord → Bool
expects_deferral m = elim m.expected_action [ ExpectedAction.defer ↦ true | _ ↦ false ]

-- `_find_email`, and the assignment to the fields of the email it finds.
unfoldable pub find_in : String → List EmailRecord → Option EmailRecord
find_in id [] = none
find_in id (m ∷ ms) = if str_eq m.id id then some m else find_in id ms

unfoldable pub find_email : Option String → List EmailRecord → Option EmailRecord
find_email none ms = none
find_email (some id) ms = if truthy id then find_in id ms else none

unfoldable pub change_first :
    String → (EmailRecord → EmailRecord) → List EmailRecord → List EmailRecord
change_first id f [] = []
change_first id f (m ∷ ms) = if str_eq m.id id then f m ∷ ms else m ∷ change_first id f ms

-- The changes that the handlers make to an email.
unfoldable pub label_email : LabelType → EmailRecord → EmailRecord
label_email l m = record m { predicted_label = some l; resolved = is_spam l || m.resolved }

unfoldable pub answer_email : String → EmailRecord → EmailRecord
answer_email text m = record m {
  handled_action = some ExpectedAction.reply;
  last_reply = some text;
  resolved = true;
}

unfoldable pub pass_on : EmailRecord → EmailRecord
pass_on m = record m { handled_action = some ExpectedAction.escalate; resolved = true }

unfoldable pub put_off : EmailRecord → EmailRecord
put_off m = record m {
  handled_action = some ExpectedAction.defer;
  resolved = expects_deferral m || m.resolved;
}

unfoldable pub is_recommended : Option String → Option String → Bool
is_recommended (some r) (some t) = truthy r && str_eq t r
is_recommended _ _ = false

module _ (F : Floats) where
  pub record Info : Type 0 where
    pub interruptions : List String
    pub error : Option String
    pub classification_correct : Option Bool
    pub ranking_similarity : Option F.Float
    pub reply_quality : Option F.Float
    pub terminal_penalty : Option F.Float
    pub message : Option String

  abbrev pub no_info : Info
  no_info = record {
    interruptions = [];
    error = none;
    classification_correct = none;
    ranking_similarity = none;
    reply_quality = none;
    terminal_penalty = none;
    message = none;
  }

  abbrev pub Outcome : Type 0
  Outcome = F.Float × (Info × Env F)

  -- `-0.1 * redundant_penalty_multiplier`.
  unfoldable pub redundant_penalty : Env F → F.Float
  redundant_penalty e =
      F.mul (F.neg (hundredths F 10)) e.persona_profile.redundant_penalty_multiplier

  abbrev pub change : EmailRecord → (EmailRecord → EmailRecord) → Env F → Env F
  change m f e = record e { emails = change_first m.id f e.emails }

  abbrev pub refused : String → Info → Env F → Outcome
  refused text info e = (redundant_penalty e, (record info { error = some text }, e))

  abbrev pub redundant : Info → Env F → Outcome
  redundant info e = (redundant_penalty e, (info, e))

  -- `_handle_classify`.
  unfoldable pub classify_found : EmailRecord → LabelType → Info → Env F → Outcome
  classify_found m l info e =
      let is_correct = same_label l m.expected_label in
      if is_some m.predicted_label then redundant info e else (
        (if is_correct then hundredths F 20 else whole F 0),
        (record info { classification_correct = some is_correct }, change m (label_email l) e),
      )

  unfoldable pub handle_classify : Action → Info → Env F → Outcome
  handle_classify a info e = elim (find_email a.email_id e.emails) [
    | none ↦ refused "classify requires email_id and label" info e
    | some m ↦ elim a.label [
      | none ↦ refused "classify requires email_id and label" info e
      | some l ↦ classify_found m l info e
    ]
  ]

  -- `_handle_prioritize`.
  unfoldable pub handle_prioritize : Settings F → Action → Info → Env F → Outcome
  handle_prioritize s a info e =
      let gold = compute_gold_priority_order F (keep (λ m. not m.resolved) e.emails) in
      let similarity = ranking_similarity F s a.priority_order gold in
      if null a.priority_order then refused "prioritize requires priority_order" info e else (
        F.mul (hundredths F 30) similarity,
        (
          record info { ranking_similarity = some (F.round similarity 4) },
          record e {
            last_priority_order = a.priority_order;
            best_priority_similarity = fmax F e.best_priority_similarity similarity;
          },
        ),
      )

  -- `_handle_reply`.
  unfoldable pub reply_found : Settings F → EmailRecord → String → Info → Env F → Outcome
  reply_found s m text info e =
      let quality = reply_keyword_score F s (some text) m.expected_reply_keywords in
      let reward = F.mul (hundredths F 50) quality in
      if m.resolved then redundant info e else (
        (if expects_reply m
            then reward
            else if m.critical
            then F.sub reward (whole F 1)
            else F.sub reward (hundredths F 20)),
        (record info { reply_quality = some (F.round quality 4) }, change m (answer_email text) e),
      )

  unfoldable pub handle_reply : Settings F → Action → Info → Env F → Outcome
  handle_reply s a info e =
      let content = or_default a.content "" in
      elim (find_email a.email_id e.emails) [
        | none ↦ refused "reply requires email_id and content" info e
        | some m ↦
            if not (truthy content)
            then refused "reply requires email_id and content" info e
            else reply_found s m content info e
      ]

  -- `_handle_escalate`.
  unfoldable pub escalation_reward : EmailRecord → Action → F.Float
  escalation_reward m a =
      if expects_escalation m
      then (if is_recommended m.recommended_escalation a.escalate_to
          then F.add (hundredths F 40) (hundredths F 10)
          else hundredths F 40)
      else if expects_reply m && m.critical
      then F.neg (hundredths F 30)
      else F.neg (hundredths F 10)

  unfoldable pub escalate_found : EmailRecord → Action → Info → Env F → Outcome
  escalate_found m a info e =
      if m.resolved then redundant info e else (escalation_reward m a, (info, change m pass_on e))

  unfoldable pub handle_escalate : Action → Info → Env F → Outcome
  handle_escalate a info e = elim (find_email a.email_id e.emails) [
    | none ↦ refused "escalate requires email_id" info e
    | some m ↦ escalate_found m a info e
  ]

  -- `_handle_defer`.
  unfoldable pub deferral_reward : EmailRecord → Env F → F.Float
  deferral_reward m e =
      if expects_deferral m
      then hundredths F 10
      else if is_urgent m.expected_label
      then F.mul (F.neg (hundredths F 70)) e.persona_profile.urgent_defer_penalty_multiplier
      else redundant_penalty e

  unfoldable pub defer_found : EmailRecord → Info → Env F → Outcome
  defer_found m info e =
      if m.resolved then redundant info e else (deferral_reward m e, (info, change m put_off e))

  unfoldable pub handle_defer : Action → Info → Env F → Outcome
  handle_defer a info e = elim (find_email a.email_id e.emails) [
    | none ↦ refused "defer requires email_id" info e
    | some m ↦ defer_found m info e
  ]

  unfoldable pub handle : Settings F → Action → Info → Env F → Outcome
  handle s a info e = elim a.action_type [
    | ActionType.classify ↦ handle_classify a info e
    | ActionType.prioritize ↦ handle_prioritize s a info e
    | ActionType.reply ↦ handle_reply s a info e
    | ActionType.escalate ↦ handle_escalate a info e
    | ActionType.defer ↦ handle_defer a info e
  ]
