-- ===== src/Pipeline/Refinement.antt =====
-- The loop of `run_policy` against the plan.
use autonomous_executive_ema.Base.{
  ℕ, ◌+◌, ◌*◌, ◌≤◌, ◌≡◌, refl, ap, sym, ◌∙◌, none, some, List, [], ◌∷◌, ◌++◌, lookup, length, arith,
  All, map, elem, ◌-◌,
}
use autonomous_executive_ema.Models.{Observation, ObservationEmail}
use autonomous_executive_ema.Policy.{
  fresh, next_action, first_unlabelled, ids, prioritize_action, classify_action,
}
use autonomous_executive_ema.Policy.Classifier.{Lexicon}
use autonomous_executive_ema.Policy.Ranking.{
  sort_by, sort_by-All, length-sort_by, opening_before, ranked_before,
}
use autonomous_executive_ema.Pipeline.{drive, run_policy, max_iterations}
use autonomous_executive_ema.Pipeline.Plan.{label_of, plan, Distinct}
use autonomous_executive_ema.Pipeline.Steps.{drive-some}
use autonomous_executive_ema.Pipeline.Labelling.{
  Unlabelled, labelling, label_all, label_all_at, drive-labelling,
}
use autonomous_executive_ema.Pipeline.Deciding.{Unhandled, sort_by-Distinct, drive-deciding}

Unlabelled-nil : (es : List ObservationEmail) → Unlabelled [] es
unfolding lookup
Unlabelled-nil [] = tt
Unlabelled-nil (e ∷ es) = (refl, Unlabelled-nil es)

Unhandled-nil : (es : List ObservationEmail) → Unhandled [] es
unfolding elem
Unhandled-nil [] = tt
Unhandled-nil (e ∷ es) = (refl, Unhandled-nil es)

module _ (lex : Lexicon) (o : Observation) where
  next_action-fresh :
      next_action lex fresh o
      ≡ (some (prioritize_action (ids (sort_by opening_before o.emails))), labelling [])
  unfolding next_action
  next_action-fresh = refl

  All-labelled :
      (es : List ObservationEmail)
      → All (λ e. lookup e.id (label_all lex [] o.emails) ≡ some (label_of lex e)) es
      → first_unlabelled (label_all lex [] o.emails) es ≡ none
  unfolding first_unlabelled
  All-labelled [] h = refl
  All-labelled (e ∷ es) h = rw (h.0) (All-labelled es h.1)

  drive-eq-plan :
      (f : ℕ)
      → Distinct o.emails
      → o.remaining_interruptions ≡ 0
      → length o.emails * 2 + 2 ≤ f
      → drive lex f fresh o ≡ plan lex o
  drive-eq-plan f d quiet fuel =
      let n = length o.emails in
      let labels = label_all lex [] o.emails in
      let at = label_all_at lex [] o.emails d in
      let k = f - 1 - n in
      ap (λ m. drive lex m fresh o) (omega arith)
      ∙ drive-some lex o (n + k) fresh (labelling []) _ next_action-fresh
      ∙ ap (λ rest. prioritize_action (ids (sort_by opening_before o.emails)) ∷ rest)
          (drive-labelling lex o [] [] o.emails (n + k) k refl tt (Unlabelled-nil o.emails) d refl
            ∙ ap (λ rest. map (λ e. classify_action e (label_of lex e)) o.emails ++ rest)
                (drive-deciding lex o labels (All-labelled o.emails at) quiet [] []
                  (sort_by ranked_before o.emails) k refl tt (Unhandled-nil _)
                  (sort_by-Distinct ranked_before o.emails d)
                  (sort_by-All ranked_before _ o.emails at)
                  (omega (arith, length-sort_by ranked_before o.emails))))

  -- On an inbox with distinct ids and no interruption to come, the loop over the mutable policy
  -- makes exactly the plan: one ordering, one label for each message in mailbox order, then one
  -- decision for each message that is not spam in ranked order.
  pub run_policy-eq-plan :
      Distinct o.emails → o.remaining_interruptions ≡ 0 → run_policy lex o ≡ plan lex o
  unfolding run_policy
  run_policy-eq-plan d quiet = drive-eq-plan (max_iterations o) d quiet (omega arith)

  -- On an inbox with distinct ids and no interruption to come, the cap of 4n + 8 rounds never cuts
  -- the loop short: more rounds change nothing.
  pub run_policy_converges :
      (more : ℕ)
      → Distinct o.emails
      → o.remaining_interruptions ≡ 0
      → drive lex (max_iterations o + more) fresh o ≡ run_policy lex o
  run_policy_converges more d quiet =
      drive-eq-plan (max_iterations o + more) d quiet (omega arith)
      ∙ sym (run_policy-eq-plan d quiet)
