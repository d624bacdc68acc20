-- ===== src/Policy/Classifier.antt =====
-- `classify_heuristic` of app/core/utils.py. The terms come from data/settings.yaml at run time and
-- `str.lower` from Unicode's tables, so both are parameters.
use autonomous_executive_ema.Base.{String, Bool, ◌||◌, List, any, contains, if◌then◌else◌}
use autonomous_executive_ema.Models.{
  LabelType, spam, normal, urgent, Level, RiskTag, is_high, is_sensitive,
}
use Prim.Native.Char.{Char}
use Prim.Native.String.{◌++◌}

-- `get_classifier_terms()`: the terms, already in lower case, and `str.lower`.
pub record Lexicon : Type 0 where
  pub lower : String → String
  pub spam_terms : List String
  pub urgent_terms : List String
  -- Unicode, as the pattern matcher reads it: `\w`, and equality of letters without case.
  pub is_word : Char → Bool
  pub same_letter : Char → Char → Bool

unfoldable pub mentions : List String → String → Bool
mentions terms text = any (λ term. contains term text) terms

unfoldable pub classify_heuristic : Lexicon → String → String → Level → RiskTag → LabelType
classify_heuristic lex subject body priority_hint risk_tag =
    let text = lex.lower (subject ++ (" " ++ body)) in
    if mentions lex.spam_terms text
    then spam
    else if is_high priority_hint || is_sensitive risk_tag
    then urgent
    else if mentions lex.urgent_terms text
    then urgent
    else normal
