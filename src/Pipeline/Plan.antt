-- ===== src/Pipeline/Plan.antt =====
-- A description of `run_policy` with no state: one ordering, one label for each message in mailbox
-- order, and one decision for each message that is not spam in ranked order.
use autonomous_executive_ema.Base.{◌≡◌, false, List, [], ◌∷◌, ◌++◌, map, elem, if◌then◌else◌}
use autonomous_executive_ema.Models.{Observation, ObservationEmail, Action, LabelType, is_spam}
use autonomous_executive_ema.Policy.{ids, prioritize_action, classify_action, decide}
use autonomous_executive_ema.Policy.Classifier.{Lexicon, classify_heuristic}
use autonomous_executive_ema.Policy.Ranking.{sort_by, opening_before, ranked_before}

abbrev pub label_of : Lexicon → ObservationEmail → LabelType
label_of lex e = classify_heuristic lex e.subject e.body e.priority_hint e.risk_tag

abbrev pub decisions : Lexicon → List ObservationEmail → List Action
decisions lex [] = []
decisions lex (e ∷ es) =
    if is_spam (label_of lex e)
    then decisions lex es
    else decide (label_of lex e) e ∷ decisions lex es

abbrev pub plan : Lexicon → Observation → List Action
plan lex o =
    prioritize_action (ids (sort_by opening_before o.emails))
    ∷ (map (λ e. classify_action e (label_of lex e)) o.emails
        ++ decisions lex (sort_by ranked_before o.emails))

-- No two messages share an id.
abbrev pub Distinct : List ObservationEmail → Type 0
Distinct [] = Unit
Distinct (e ∷ es) = (elem e.id (ids es) ≡ false) × Distinct es
