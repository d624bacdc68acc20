-- ===== src/Pipeline/Labelling.antt =====
-- The second phase of `run_policy`: each message gets its label, in mailbox order.
use autonomous_executive_ema.Base.{
  ℕ, zero, suc, ◌+◌, ◌≡◌, refl, ap, sym, ◌∙◌, true, false, none, some, List, [], ◌∷◌, ◌++◌, map,
  String, Dict, lookup, insert, lookup-insert, elem, is_some, length, arith, str_eq_iff, All,
}
use mathlib.Core.List.{append_assoc}
use autonomous_executive_ema.Models.{Observation, ObservationEmail, LabelType}
use autonomous_executive_ema.Policy.{
  BaselinePolicy, next_action, label_or_settle, first_unlabelled, ids, classify_action,
}
use autonomous_executive_ema.Policy.Classifier.{Lexicon}
use autonomous_executive_ema.Pipeline.{drive}
use autonomous_executive_ema.Pipeline.Plan.{label_of, Distinct}
use autonomous_executive_ema.Pipeline.Steps.{drive-some, Labelled, first_unlabelled-skip}

abbrev pub Unlabelled : Dict LabelType → List ObservationEmail → Type 0
Unlabelled labels = All (λ e. lookup e.id labels ≡ none)

abbrev pub labelling : Dict LabelType → BaselinePolicy
labelling labels = record { did_prioritize = true; predicted_labels = labels; handled_ids = [] }

pub label_all : Lexicon → Dict LabelType → List ObservationEmail → Dict LabelType
label_all lex labels [] = labels
label_all lex labels (e ∷ es) = label_all lex (insert e.id (label_of lex e) labels) es

Labelled-insert :
    (k : String) (v : LabelType) (labels : Dict LabelType) (es : List ObservationEmail)
    → Labelled labels es
    → Labelled (insert k v labels) es
Labelled-insert k v labels [] h = tt
Labelled-insert k v labels (e ∷ es) h =
    (ground (arith, lookup-insert k e.id v labels), Labelled-insert k v labels es h.1)

Labelled-concat :
    (labels : Dict LabelType) (es : List ObservationEmail) (e : ObservationEmail)
    → Labelled labels es
    → is_some (lookup e.id labels) ≡ true
    → Labelled labels (es ++ e ∷ [])
Labelled-concat labels [] e h x = (x, tt)
Labelled-concat labels (f ∷ es) e h x = (h.0, Labelled-concat labels es e h.1 x)

Unlabelled-insert :
    (k : String) (v : LabelType) (labels : Dict LabelType) (es : List ObservationEmail)
    → elem k (ids es) ≡ false
    → Unlabelled labels es
    → Unlabelled (insert k v labels) es
unfolding elem
Unlabelled-insert k v labels [] d h = tt
Unlabelled-insert k v labels (e ∷ es) d h = (
  ground (arith, lookup-insert k e.id v labels, str_eq_iff k e.id, str_eq_iff e.id k),
  Unlabelled-insert k v labels es (ground arith) h.1,
)

pub lookup-label_all :
    (lex : Lexicon) (labels : Dict LabelType) (k : String) (es : List ObservationEmail)
    → elem k (ids es) ≡ false
    → lookup k (label_all lex labels es) ≡ lookup k labels
unfolding label_all elem
lookup-label_all lex labels k [] d = refl
lookup-label_all lex labels k (e ∷ es) d =
    lookup-label_all lex (insert e.id (label_of lex e) labels) k es (ground arith)
    ∙ ground (arith, lookup-insert e.id k (label_of lex e) labels)

-- Once all are labelled, each message has the label of its own text.
pub label_all_at :
    (lex : Lexicon) (labels : Dict LabelType) (es : List ObservationEmail)
    → Distinct es
    → All (λ e. lookup e.id (label_all lex labels es) ≡ some (label_of lex e)) es
unfolding label_all
label_all_at lex labels [] d = tt
label_all_at lex labels (e ∷ es) d =
    let labels' = insert e.id (label_of lex e) labels in
    (
      lookup-label_all lex labels' e.id es d.0
          ∙ ground (arith, lookup-insert e.id e.id (label_of lex e) labels, str_eq_iff e.id e.id),
      label_all_at lex labels' es d.1,
    )

module _ (lex : Lexicon) (o : Observation) where
  next_action-labelling :
      (labels : Dict LabelType) (e : ObservationEmail)
      → first_unlabelled labels o.emails ≡ some e
      → next_action lex (labelling labels) o ≡ (
        some (classify_action e (label_of lex e)),
        labelling (insert e.id (label_of lex e) labels),
      )
  unfolding next_action label_or_settle
  next_action-labelling labels e h = rw (h, label_or_settle)

  first_unlabelled-at :
      (labels : Dict LabelType) (done : List ObservationEmail) (e : ObservationEmail)
      (es : List ObservationEmail)
      → o.emails ≡ done ++ e ∷ es
      → Labelled labels done
      → lookup e.id labels ≡ none
      → first_unlabelled labels o.emails ≡ some e
  unfolding first_unlabelled
  first_unlabelled-at labels done e es split h n =
      ap (first_unlabelled labels) split ∙ first_unlabelled-skip labels done (e ∷ es) h ∙ rw n

  pub drive-labelling :
      (labels : Dict LabelType) (done es : List ObservationEmail) (f k : ℕ)
      → o.emails ≡ done ++ es
      → Labelled labels done
      → Unlabelled labels es
      → Distinct es
      → f ≡ length es + k
      → drive lex f (labelling labels) o
        ≡ map (λ e. classify_action e (label_of lex e)) es
          ++ drive lex k (labelling (label_all lex labels es)) o
  unfolding label_all
  drive-labelling labels done [] f k split h u d eq =
      ap (λ n. drive lex n (labelling labels) o) (omega arith)
  drive-labelling labels done (e ∷ es) zero k split h u d eq = absurd (omega arith)
  drive-labelling labels done (e ∷ es) (suc f) k split h u d eq =
      let labels' = insert e.id (label_of lex e) labels in
      drive-some lex o f (labelling labels) (labelling labels') _
        (next_action-labelling labels e (first_unlabelled-at labels done e es split h u.0))
      ∙ ap (λ rest. classify_action e (label_of lex e) ∷ rest)
          (drive-labelling labels' (done ++ e ∷ []) es f k
            (split ∙ sym (append_assoc done (e ∷ []) es))
            (Labelled-concat labels' done e (Labelled-insert e.id (label_of lex e) labels done h) (
              ground
                (arith, lookup-insert e.id e.id (label_of lex e) labels, str_eq_iff e.id e.id)))
            (Unlabelled-insert e.id (label_of lex e) labels es d.0 u.1) d.1 (omega arith))
