-- ===== src/Pipeline/Keepalive.antt =====
-- The policy while interruptions are still to come.
use autonomous_executive_ema.Base.{
  ℕ, zero, suc, ◌<◌, ◌≡◌, ◌≢◌, none, length, arith, null, false, refl,
}
use autonomous_executive_ema.Models.{Observation}
use autonomous_executive_ema.Policy.{BaselinePolicy, fresh, next_action, label_or_settle, settle}
use autonomous_executive_ema.Policy.Classifier.{Lexicon}
use autonomous_executive_ema.Pipeline.{drive, run_policy, max_iterations}

module _ (lex : Lexicon) (o : Observation) (pending : 0 < o.remaining_interruptions)
    (inbox : null o.emails ≡ false) where
  not_done : (p : BaselinePolicy) → (next_action lex p o).0 ≢ none
  unfolding next_action label_or_settle settle
  not_done p = ground arith

  length-drive : (k : ℕ) (p : BaselinePolicy) → length (drive lex k p o) ≡ k
  unfolding drive
  length-drive zero p = refl
  length-drive (suc k) p = ground (arith, not_done p, length-drive k (next_action lex p o).1)

  -- While an interruption is still to come and the inbox is not empty, the policy always has one
  -- more action, so `run_policy` stops only at its cap, with 4n + 8 actions for n messages.
  pub length-run_policy_pending : length (run_policy lex o) ≡ max_iterations o
  unfolding run_policy
  length-run_policy_pending = length-drive (max_iterations o) fresh
