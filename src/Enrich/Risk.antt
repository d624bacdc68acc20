-- ===== src/Enrich/Risk.antt =====
-- The risk vocabulary of app/copilot/enrich.py and `infer_risk_tag`.
use autonomous_executive_ema.Base.{
  ℕ, ◌≤◌, ◌<◌, ◌≡◌, ◌⊎◌, refl, String, List, [], ◌∷◌, count_if, ltb, arith, if◌then◌else◌,
}
use autonomous_executive_ema.Models.{RiskTag, untagged, legal, security, finance, ops}
use autonomous_executive_ema.Policy.Classifier.{Lexicon}
use autonomous_executive_ema.Enrich.Patterns.{compile, matches}

-- `_RISK_TERMS`, the rows in the order of severity.
abbrev pub terms_of : RiskTag → List String
terms_of untagged = []
terms_of legal =
    "contract" ∷ "contracts" ∷ "contractual" ∷ "legal*" ∷ "lawsuit*" ∷ "liability" ∷ "nda"
    ∷ "indemnif*" ∷ "compliance" ∷ "gdpr" ∷ []
terms_of security =
    "breach*" ∷ "security" ∷ "phishing" ∷ "malware" ∷ "credential*" ∷ "vulnerab*" ∷ "ransomware"
    ∷ []
terms_of ops = "outage*" ∷ "downtime" ∷ "incident*" ∷ "deploy*" ∷ "sla" ∷ []
terms_of finance =
    "invoice*" ∷ "payment*" ∷ "wire transfer" ∷ "refund*" ∷ "billing" ∷ "forecast*" ∷ "budget*" ∷ []

abbrev pub severity_order : List RiskTag
severity_order = legal ∷ security ∷ ops ∷ finance ∷ []

-- The number of distinct terms of a tag that the text matches.
unfoldable pub score : Lexicon → String → RiskTag → ℕ
unfolding compile matches count_if
score lex text tag = count_if (λ term. matches lex (compile term) text) (terms_of tag)

-- The loop of `infer_risk_tag`, with the best tag and score so far.
unfoldable pub best_from : (RiskTag → ℕ) → RiskTag → ℕ → List RiskTag → RiskTag
best_from f best best_score [] = best
best_from f best best_score (tag ∷ tags) =
    best_from f (if ltb best_score (f tag) then tag else best)
      (if ltb best_score (f tag) then f tag else best_score) tags

unfoldable pub infer_risk_tag : Lexicon → String → RiskTag
unfolding best_from
infer_risk_tag lex text = best_from (score lex text) untagged 0 severity_order

-- How early a tag stands in the order of severity.
abbrev pub severity : RiskTag → ℕ
severity legal = 0
severity security = 1
severity ops = 2
severity finance = 3
severity untagged = 4

score-untagged : (lex : Lexicon) (text : String) → score lex text untagged ≡ 0
unfolding score count_if
score-untagged lex text = refl

-- `best` wins against `tag`: nothing scored at all, or `best` did score and `tag` is either not more
-- severe or has a lower score.
abbrev pub Wins : (RiskTag → ℕ) → RiskTag → RiskTag → Type 0
Wins f best tag =
    (f tag ≤ f best)
    × ((best ≡ untagged) ⊎ ((0 < f best) × ((severity best ≤ severity tag) ⊎ (f tag < f best))))

best_of_four :
    (f : RiskTag → ℕ) (tag : RiskTag)
    → f untagged ≡ 0
    → Wins f (best_from f untagged 0 severity_order) tag
unfolding best_from
best_of_four f untagged z = (ground arith, ground arith)
best_of_four f _ z = (ground arith, ground arith)

-- The tag that `infer_risk_tag` returns has the highest score of all tags. It is "none", or its
-- score is not 0 and each more severe tag has a strictly lower score.
pub infer_risk_tag_best :
    (lex : Lexicon) (text : String) (tag : RiskTag)
    → Wins (score lex text) (infer_risk_tag lex text) tag
unfolding infer_risk_tag
infer_risk_tag_best lex text tag = best_of_four (score lex text) tag (score-untagged lex text)
