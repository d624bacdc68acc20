-- ===== src/Tests/Simulator.antt =====
-- Episodes of the simulator, their grades and the hybrid policy, on concrete inputs.
use autonomous_executive_ema.Base.{
  ◌≡◌, refl, true, none, some, List, [], ◌∷◌, arith, whole, Within, get_elem?, All,
}
use autonomous_executive_ema.Models.{Action, balanced}
use autonomous_executive_ema.Policy.{escalate_action}
use autonomous_executive_ema.Policy.Hybrid.{first_risky, run_hybrid, new_hybrid}
use autonomous_executive_ema.Policy.Hybrid.Stuck.{hybrid_repeats_escalation}
use autonomous_executive_ema.Sim.{EmailRecord, is_done, reset}
use autonomous_executive_ema.Sim.Steps.{step, run}
use autonomous_executive_ema.Sim.Endings.{episode_ends}
use autonomous_executive_ema.Sim.Mail.{run-total_copies, total_copies}
use autonomous_executive_ema.Sim.Final.{resolved_is_final, Closed}
use autonomous_executive_ema.Sim.Bounds.{step-reward}
use autonomous_executive_ema.Tests.Data.{lexicon, inbox, contract_email}
use autonomous_executive_ema.Tests.Numbers.{
  exact, exact_laws, exact_rounding, profile, settings, costs_positive, handled_record, scenario,
  start, put_off_contract, escalate_late,
}

abbrev two_actions : List Action
two_actions = put_off_contract ∷ escalate_late ∷ []

episode_ends_example :
    is_done exact (run exact settings two_actions (reset exact balanced profile scenario)) ≡ true
episode_ends_example =
    episode_ends exact settings balanced profile scenario two_actions costs_positive (omega arith)

run-total_copies_example :
    total_copies exact "m2" (run exact settings two_actions start) ≡ total_copies exact "m2" start
run-total_copies_example = run-total_copies exact settings "m2" two_actions start

resolved_is_final_example :
    (x : EmailRecord) × (get_elem? (run exact settings two_actions start).emails 0 ≡ some x)
    × Closed handled_record x
resolved_is_final_example =
    resolved_is_final exact settings 0 handled_record two_actions start refl refl

step-reward_example :
    Within exact
      (exact.neg (whole exact 1))
      (whole exact 1)
      (step exact settings escalate_late start).0.reward
unfolding is_done
step-reward_example =
    step-reward exact exact_laws exact_rounding settings escalate_late start refl refl

hybrid_repeats_escalation_example :
    All
      (λ a. a ≡ some (escalate_action contract_email))
      (run_hybrid lexicon true (λ o. none) (new_hybrid 5) (inbox ∷ inbox ∷ []))
unfolding first_risky
hybrid_repeats_escalation_example =
    hybrid_repeats_escalation lexicon (λ o. none) 5 contract_email (inbox ∷ inbox ∷ [])
      (refl, (refl, tt))
