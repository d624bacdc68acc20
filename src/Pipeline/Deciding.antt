-- ===== src/Pipeline/Deciding.antt =====
-- The third phase of `run_policy`: one decision for each message that is not spam, in ranked order.
use autonomous_executive_ema.Base.{
  ℕ, zero, suc, ◌<◌, ◌≡◌, refl, ap, sym, ◌∙◌, Bool, true, false, Bool-cases, inl, inr, none, some,
  List, [], ◌∷◌, ◌++◌, String, Dict, lookup, elem, elem-cons_self, length, arith, str_eq_iff, All,
}
use mathlib.Core.List.{append_assoc}
use autonomous_executive_ema.Models.{Observation, ObservationEmail, Action, LabelType, is_spam}
use autonomous_executive_ema.Policy.{
  BaselinePolicy, next_action, label_or_settle, settle, first_unlabelled, next_decision, ids,
  decide,
}
use autonomous_executive_ema.Policy.Classifier.{Lexicon}
use autonomous_executive_ema.Policy.Ranking.{sort_by, place, ranked_before}
use autonomous_executive_ema.Pipeline.{drive}
use autonomous_executive_ema.Pipeline.Plan.{label_of, decisions, Distinct}
use autonomous_executive_ema.Pipeline.Steps.{
  drive-some, drive-none, drive_next, Handled, next_decision-skip,
}

abbrev pub Unhandled : List String → List ObservationEmail → Type 0
Unhandled handled = All (λ e. elem e.id handled ≡ false)

abbrev pub deciding : Dict LabelType → List String → BaselinePolicy
deciding labels handled = record {
  did_prioritize = true;
  predicted_labels = labels;
  handled_ids = handled;
}

Handled-cons :
    (k : String) (handled : List String) (es : List ObservationEmail)
    → Handled handled es
    → Handled (k ∷ handled) es
unfolding elem
Handled-cons k handled [] h = tt
Handled-cons k handled (e ∷ es) h = (ground arith, Handled-cons k handled es h.1)

Handled-concat :
    (handled : List String) (es : List ObservationEmail) (e : ObservationEmail)
    → Handled handled es
    → elem e.id handled ≡ true
    → Handled handled (es ++ e ∷ [])
Handled-concat handled [] e h x = (x, tt)
Handled-concat handled (f ∷ es) e h x = (h.0, Handled-concat handled es e h.1 x)

Unhandled-cons :
    (k : String) (handled : List String) (es : List ObservationEmail)
    → elem k (ids es) ≡ false
    → Unhandled handled es
    → Unhandled (k ∷ handled) es
unfolding elem
Unhandled-cons k handled [] d h = tt
Unhandled-cons k handled (e ∷ es) d h = (
  ground (arith, str_eq_iff k e.id, str_eq_iff e.id k),
  Unhandled-cons k handled es (ground arith) h.1,
)

-- Sorting keeps the ids distinct.
elem-place :
    (before : ObservationEmail → ObservationEmail → Bool) (k : String) (x : ObservationEmail)
    (ys : List ObservationEmail)
    → elem k (ids (place before x ys)) ≡ elem k (ids (x ∷ ys))
unfolding elem place
elem-place before k x [] = refl
elem-place before k x (y ∷ ys) = ground (arith, elem-place before k x ys)

place-Distinct :
    (before : ObservationEmail → ObservationEmail → Bool) (x : ObservationEmail)
    (ys : List ObservationEmail)
    → elem x.id (ids ys) ≡ false
    → Distinct ys
    → Distinct (place before x ys)
unfolding elem place
place-Distinct before x [] d h = (d, tt)
place-Distinct before x (y ∷ ys) d h = elim (Bool-cases (before y x)) [
  | inl b ↦ rw b (
    ground (arith, elem-place before y.id x ys, str_eq_iff x.id y.id, str_eq_iff y.id x.id),
    place-Distinct before x ys (ground arith) h.1,
  )
  | inr b ↦ rw b (d, h)
]

elem-sort_by :
    (before : ObservationEmail → ObservationEmail → Bool) (k : String) (es : List ObservationEmail)
    → elem k (ids (sort_by before es)) ≡ elem k (ids es)
unfolding elem sort_by
elem-sort_by before k [] = refl
elem-sort_by before k (e ∷ es) =
    elem-place before k e (sort_by before es) ∙ ground (arith, elem-sort_by before k es)

pub sort_by-Distinct :
    (before : ObservationEmail → ObservationEmail → Bool) (es : List ObservationEmail)
    → Distinct es
    → Distinct (sort_by before es)
unfolding sort_by
sort_by-Distinct before [] d = tt
sort_by-Distinct before (e ∷ es) d =
    place-Distinct before e (sort_by before es) (elem-sort_by before e.id es ∙ d.0)
      (sort_by-Distinct before es d.1)

module _ (lex : Lexicon) (o : Observation) (labels : Dict LabelType)
    (labelled : first_unlabelled labels o.emails ≡ none)
    (quiet : o.remaining_interruptions ≡ 0) where
  next_action-deciding :
      (handled : List String)
      → next_action lex (deciding labels handled) o ≡ settle (deciding labels handled) o
  unfolding next_action label_or_settle
  next_action-deciding handled = rw (labelled, label_or_settle)

  settle_some :
      (handled marked : List String) (a : Action)
      → next_decision labels handled (sort_by ranked_before o.emails) ≡ (some a, marked)
      → next_action lex (deciding labels handled) o ≡ (some a, deciding labels marked)
  unfolding settle
  settle_some handled marked a e = next_action-deciding handled ∙ ground (arith, e)

  settle_none :
      (handled marked : List String)
      → next_decision labels handled (sort_by ranked_before o.emails) ≡ (none, marked)
      → next_action lex (deciding labels handled) o ≡ (none, deciding labels marked)
  unfolding settle
  settle_none handled marked e = next_action-deciding handled ∙ ground (arith, e)

  -- What the loop does on `done ++ e ∷ es` when `done` is handled and `e` is not.
  at_spam :
      (handled : List String) (done : List ObservationEmail) (e : ObservationEmail)
      (es : List ObservationEmail)
      → sort_by ranked_before o.emails ≡ done ++ e ∷ es
      → Handled handled done
      → elem e.id handled ≡ false
      → lookup e.id labels ≡ some (label_of lex e)
      → is_spam (label_of lex e) ≡ true
      → next_decision labels handled (sort_by ranked_before o.emails)
        ≡ next_decision labels (e.id ∷ handled) es
  unfolding next_decision
  at_spam handled done e es split h u l s =
      ap (next_decision labels handled) split
      ∙ next_decision-skip labels handled done (e ∷ es) h
      ∙ rw (u, l, s)

  at_other :
      (handled : List String) (done : List ObservationEmail) (e : ObservationEmail)
      (es : List ObservationEmail)
      → sort_by ranked_before o.emails ≡ done ++ e ∷ es
      → Handled handled done
      → elem e.id handled ≡ false
      → lookup e.id labels ≡ some (label_of lex e)
      → is_spam (label_of lex e) ≡ false
      → next_decision labels handled (sort_by ranked_before o.emails)
        ≡ (some (decide (label_of lex e) e), e.id ∷ handled)
  unfolding next_decision
  at_other handled done e es split h u l s =
      ap (next_decision labels handled) split
      ∙ next_decision-skip labels handled done (e ∷ es) h
      ∙ rw (u, l, s)

  -- Two handled sets that lead to one decision lead to one run.
  settle_same :
      (handled marked : List String)
      → next_decision labels handled (sort_by ranked_before o.emails)
        ≡ next_decision labels marked (sort_by ranked_before o.emails)
      → settle (deciding labels handled) o ≡ settle (deciding labels marked) o
  unfolding settle
  settle_same handled marked e = ground arith

  drive_same :
      (f : ℕ) (handled marked : List String)
      → next_decision labels handled (sort_by ranked_before o.emails)
        ≡ next_decision labels marked (sort_by ranked_before o.emails)
      → drive lex f (deciding labels handled) o ≡ drive lex f (deciding labels marked) o
  unfolding drive
  drive_same zero handled marked e = refl
  drive_same (suc f) handled marked e = drive_next lex o f _ _ (
      next_action-deciding handled
      ∙ settle_same handled marked e
      ∙ sym (next_action-deciding marked))

  pub drive-deciding :
      (handled : List String) (done es : List ObservationEmail) (f : ℕ)
      → sort_by ranked_before o.emails ≡ done ++ es
      → Handled handled done
      → Unhandled handled es
      → Distinct es
      → All (λ e. lookup e.id labels ≡ some (label_of lex e)) es
      → length es < f
      → drive lex f (deciding labels handled) o ≡ decisions lex es
  drive-deciding handled done es zero split h u d l fuel = absurd (omega arith)
  drive-deciding handled done [] (suc f) split h u d l fuel =
      drive-none lex o f _ (deciding labels handled) (
        settle_none handled handled (
          ap (next_decision labels handled) split
          ∙ next_decision-skip labels handled done [] h
          ∙ unfold next_decision in refl))
  drive-deciding handled done (e ∷ es) (suc f) split h u d l fuel =
      let split' = split ∙ sym (append_assoc done (e ∷ []) es) in
      let h' =
        Handled-concat (e.id ∷ handled) done e (Handled-cons e.id handled done h)
          (elem-cons_self e.id handled) in
      let u' = Unhandled-cons e.id handled es d.0 u.1 in
      elim (Bool-cases (is_spam (label_of lex e))) [
        | inl s ↦ rw s (
            drive_same (suc f) handled (e.id ∷ handled) (
              at_spam handled done e es split h u.0 l.0 s
              ∙ sym (
                  ap (next_decision labels (e.id ∷ handled)) split'
                  ∙ next_decision-skip labels (e.id ∷ handled) (done ++ e ∷ []) es h'))
            ∙ drive-deciding (e.id ∷ handled) (done ++ e ∷ []) es (suc f) split' h' u' d.1 l.1
                (omega arith))
        | inr s ↦ rw s (
            drive-some lex o f _ (deciding labels (e.id ∷ handled)) _ (
              settle_some handled (e.id ∷ handled) _ (at_other handled done e es split h u.0 l.0 s))
            ∙ ap (λ rest. decide (label_of lex e) e ∷ rest)
                (drive-deciding (e.id ∷ handled) (done ++ e ∷ []) es f split' h' u' d.1 l.1
                  (omega arith)))
      ]
