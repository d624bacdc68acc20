-- ===== src/Enrich/Patterns.antt =====
-- The compiled term patterns of app/copilot/enrich.py: `\b(?:term\b)` for a whole word and
-- `\b(?:stem\w*)` for a word family, searched without case.
use Prim.Native.Char.{Char, code}
use autonomous_executive_ema.Base.{
  String, Bool, true, false, not, ◌&&◌, ◌||◌, Option, none, some, ◌==◌, str_eq, if◌then◌else◌,
}
use autonomous_executive_ema.Policy.Classifier.{Lexicon}

pub data Pattern : Type 0 where
  whole : String → Pattern
  stem : String → Pattern

-- The term without a trailing `*`, and whether it had one.
unfoldable pub split_star : String → String × Bool
split_star String.[] = ("", false)
split_star (String.◌∷◌ c s) =
    let (rest, starred) = split_star s in
    if code c == b'*' && str_eq s "" then ("", true) else (String.◌∷◌ c rest, starred)

unfoldable pub compile : String → Pattern
unfolding split_star
compile term = let (body, starred) = split_star term in if starred then stem body else whole term

module _ (lex : Lexicon) where
  abbrev pub word_at : Option Char → Bool
  word_at none = false
  word_at (some c) = lex.is_word c

  -- `\b` between two neighbours.
  unfoldable pub boundary : Option Char → Option Char → Bool
  boundary a b = (word_at a && not (word_at b)) || (not (word_at a) && word_at b)

  abbrev pub head_char : String → Option Char
  head_char String.[] = none
  head_char (String.◌∷◌ c s) = some c

  -- Whether `text`, which follows `last`, starts with the literal, and, for a whole word, a
  -- boundary follows.
  unfoldable pub literal_here : Bool → Option Char → String → String → Bool
  literal_here closed last String.[] text = not closed || boundary last (head_char text)
  literal_here closed last (String.◌∷◌ p ps) String.[] = false
  literal_here closed last (String.◌∷◌ p ps) (String.◌∷◌ c cs) =
      lex.same_letter p c && literal_here closed (some c) ps cs

  unfoldable pub pattern_here : Pattern → Option Char → String → Bool
  unfolding literal_here boundary
  pattern_here (whole term) last text =
      boundary last (head_char text) && literal_here true last term text
  pattern_here (stem term) last text =
      boundary last (head_char text) && literal_here false last term text

  -- `pattern.search(text)`, where `last` is the character before `text`.
  unfoldable pub search_from : Pattern → Option Char → String → Bool
  unfolding pattern_here
  search_from pat last String.[] = pattern_here pat last ""
  search_from pat last (String.◌∷◌ c s) =
      pattern_here pat last (String.◌∷◌ c s) || search_from pat (some c) s

  unfoldable pub matches : Pattern → String → Bool
  unfolding search_from
  matches pat text = search_from pat none text
