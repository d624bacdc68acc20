-- ===== src/Pipeline/Steps.antt =====
-- One round of the loop of `run_policy`, and the policy once every message has a label.
use autonomous_executive_ema.Base.{
  ℕ, suc, ◌≡◌, refl, arith, true, none, some, List, [], ◌∷◌, ◌++◌, String, lookup, elem, is_some,
  Dict,
}
use autonomous_executive_ema.Models.{Observation, ObservationEmail, Action, LabelType}
use autonomous_executive_ema.Policy.{BaselinePolicy, next_action, first_unlabelled, next_decision}
use autonomous_executive_ema.Policy.Classifier.{Lexicon}
use autonomous_executive_ema.Pipeline.{drive}

module _ (lex : Lexicon) (o : Observation) where
  pub drive-some :
      (k : ℕ) (p q : BaselinePolicy) (a : Action)
      → next_action lex p o ≡ (some a, q)
      → drive lex (suc k) p o ≡ a ∷ drive lex k q o
  unfolding drive
  drive-some k p q a e = ground arith

  pub drive-none :
      (k : ℕ) (p q : BaselinePolicy) → next_action lex p o ≡ (none, q) → drive lex (suc k) p o ≡ []
  unfolding drive
  drive-none k p q e = ground arith

  pub drive_next :
      (k : ℕ) (p q : BaselinePolicy)
      → next_action lex p o ≡ next_action lex q o
      → drive lex (suc k) p o ≡ drive lex (suc k) q o
  unfolding drive
  drive_next k p q e = ground arith

abbrev pub Labelled : Dict LabelType → List ObservationEmail → Type 0
Labelled labels [] = Unit
Labelled labels (e ∷ es) = (is_some (lookup e.id labels) ≡ true) × Labelled labels es

pub first_unlabelled-skip :
    (labels : Dict LabelType) (done rest : List ObservationEmail)
    → Labelled labels done
    → first_unlabelled labels (done ++ rest) ≡ first_unlabelled labels rest
unfolding first_unlabelled
first_unlabelled-skip labels [] rest h = refl
first_unlabelled-skip labels (e ∷ done) rest h =
    rw (h.0) (first_unlabelled-skip labels done rest h.1)

abbrev pub Handled : List String → List ObservationEmail → Type 0
Handled handled [] = Unit
Handled handled (e ∷ es) = (elem e.id handled ≡ true) × Handled handled es

pub next_decision-skip :
    (labels : Dict LabelType) (handled : List String) (done rest : List ObservationEmail)
    → Handled handled done
    → next_decision labels handled (done ++ rest) ≡ next_decision labels handled rest
unfolding next_decision
next_decision-skip labels handled [] rest h = refl
next_decision-skip labels handled (e ∷ done) rest h =
    rw (h.0) (next_decision-skip labels handled done rest h.1)
