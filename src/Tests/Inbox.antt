-- ===== src/Tests/Inbox.antt =====
-- The theorems on the policy and the signals, on the small inbox.
use autonomous_executive_ema.Base.{
  ◌≡◌, ◌+◌, refl, true, false, [], ◌∷◌, any, contains, count_if, elem, if◌then◌else◌,
}
use autonomous_executive_ema.Models.{legal, is_spam, is_sensitive}
use autonomous_executive_ema.Policy.{escalate_action, fresh}
use autonomous_executive_ema.Policy.Classifier.{classify_heuristic, mentions}
use autonomous_executive_ema.Pipeline.{run_policy, drive, max_iterations}
use autonomous_executive_ema.Pipeline.Plan.{plan, label_of, Distinct}
use autonomous_executive_ema.Pipeline.Refinement.{run_policy-eq-plan, run_policy_converges}
use autonomous_executive_ema.Pipeline.Coverage.{decides, decided_once, sensitive_escalated}
use autonomous_executive_ema.Enrich.{infer_priority, enrich_message, to_observation}
use autonomous_executive_ema.Enrich.Risk.{
  score, best_from, infer_risk_tag, Wins, infer_risk_tag_best,
}
use autonomous_executive_ema.Enrich.Patterns.{
  matches, search_from, pattern_here, literal_here, compile,
}
use autonomous_executive_ema.Enrich.Signals.{DistinctIds, risky_message_escalated}
use Prim.Native.String.{◌++◌}
use mathlib.Core.List.{Mem, Memᴰ}
use mathlib.Core.List.Memᴰ.{head}
use autonomous_executive_ema.Tests.Data.{lexicon, contract_mail, prize_mail, contract_email, inbox}

inbox-Distinct : Distinct inbox.emails
unfolding elem
inbox-Distinct = (refl, (refl, tt))

run_policy-eq-plan_example : run_policy lexicon inbox ≡ plan lexicon inbox
run_policy-eq-plan_example = run_policy-eq-plan lexicon inbox inbox-Distinct refl

run_policy_converges_example :
    drive lexicon (max_iterations inbox + 5) fresh inbox ≡ run_policy lexicon inbox
run_policy_converges_example = run_policy_converges lexicon inbox 5 inbox-Distinct refl

infer_risk_tag_best_example :
    Wins (score lexicon "the contract") (infer_risk_tag lexicon "the contract") legal
infer_risk_tag_best_example = infer_risk_tag_best lexicon "the contract" legal

contract-first : Memᴰ contract_email inbox.emails
contract-first = (head refl)

decided_once_example :
    count_if (decides "m1") (run_policy lexicon inbox)
    ≡ (if is_spam (label_of lexicon contract_email) then 0 else 1)
decided_once_example = decided_once lexicon inbox inbox-Distinct refl contract_email contract-first

contract-not-spam : is_spam (label_of lexicon contract_email) ≡ false
unfolding classify_heuristic mentions any contains
contract-not-spam = refl

sensitive_escalated_example : Mem (escalate_action contract_email) (run_policy lexicon inbox)
sensitive_escalated_example =
    sensitive_escalated lexicon inbox inbox-Distinct refl contract_email ∣ contract-first ∣₁ refl
      contract-not-spam

mails-DistinctIds : DistinctIds (contract_mail ∷ prize_mail ∷ [])
unfolding elem
mails-DistinctIds = (refl, (refl, tt))

contract-risky :
    is_sensitive (
      infer_risk_tag lexicon (lexicon.lower (contract_mail.subject ++ (" " ++ contract_mail.body))))
    ≡ true
unfolding infer_risk_tag best_from score count_if matches search_from pattern_here literal_here
    compile
contract-risky = refl

contract_mail-not-spam :
    is_spam (label_of lexicon (enrich_message lexicon contract_mail "me@acme.com")) ≡ false
unfolding enrich_message infer_priority infer_risk_tag best_from score count_if matches search_from
    pattern_here literal_here compile classify_heuristic mentions any contains
contract_mail-not-spam = refl

risky_message_escalated_example :
    Mem (escalate_action (enrich_message lexicon contract_mail "me@acme.com")) (
      run_policy lexicon
        (to_observation lexicon (contract_mail ∷ prize_mail ∷ []) "me@acme.com" 240))
risky_message_escalated_example =
    risky_message_escalated lexicon "me@acme.com" 240 (contract_mail ∷ prize_mail ∷ [])
      contract_mail mails-DistinctIds (head refl) contract-risky contract_mail-not-spam
