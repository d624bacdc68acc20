-- ===== src/Enrich/Signals.antt =====
-- From the fetched messages to the actions: enrichment and policy together.
use autonomous_executive_ema.Base.{
  ℕ, ◌≤◌, ◌≡◌, ◌⊎◌, refl, ap, ◌∙◌, true, false, String, List, [], ◌∷◌, map, elem, arith,
  if◌then◌else◌,
}
use Prim.Native.String.{◌++◌}
use mathlib.Core.List.{Mem, Memᴰ}
use autonomous_executive_ema.Models.{ObservationEmail, high, is_spam, is_sensitive, is_high}
use autonomous_executive_ema.Policy.{ids, escalate_action}
use autonomous_executive_ema.Policy.Classifier.{Lexicon}
use autonomous_executive_ema.Pipeline.{run_policy}
use autonomous_executive_ema.Pipeline.Plan.{label_of, Distinct}
use autonomous_executive_ema.Pipeline.Coverage.{sensitive_escalated}
use autonomous_executive_ema.Enrich.{FetchedMessage, enrich_message, to_observation, infer_priority}
use autonomous_executive_ema.Enrich.Risk.{infer_risk_tag}

abbrev pub message_ids : List FetchedMessage → List String
message_ids = map (λ m. m.provider_message_id)

-- No two fetched messages share a provider id.
abbrev pub DistinctIds : List FetchedMessage → Type 0
DistinctIds [] = Unit
DistinctIds (m ∷ ms) = (elem m.provider_message_id (message_ids ms) ≡ false) × DistinctIds ms

module _ (lex : Lexicon) (account : String) where
  abbrev enriched : List FetchedMessage → List ObservationEmail
  enriched = map (λ m. enrich_message lex m account)

  ids-enriched : (ms : List FetchedMessage) → ids (enriched ms) ≡ message_ids ms
  unfolding enrich_message
  ids-enriched [] = refl
  ids-enriched (m ∷ ms) = ap (λ rest. m.provider_message_id ∷ rest) (ids-enriched ms)

  enriched-Distinct : (ms : List FetchedMessage) → DistinctIds ms → Distinct (enriched ms)
  unfolding enrich_message
  enriched-Distinct [] d = tt
  enriched-Distinct (m ∷ ms) d =
      (ap (elem m.provider_message_id) (ids-enriched ms) ∙ d.0, enriched-Distinct ms d.1)

  enriched-Memᴰ :
      (m : FetchedMessage) (ms : List FetchedMessage)
      → Memᴰ m ms
      → Memᴰ (enrich_message lex m account) (enriched ms)
  enriched-Memᴰ m [] h = elim h [ ]
  enriched-Memᴰ m (n ∷ ms) (Memᴰ.head p) = Memᴰ.head (ap (λ x. enrich_message lex x account) p)
  enriched-Memᴰ m (n ∷ ms) (Memᴰ.tail h) = Memᴰ.tail (enriched-Memᴰ m ms h)

-- Of messages fetched with distinct ids, one whose text scores as legal or security and that the
-- classifier does not call spam is escalated by `run_policy` on the observation made of them.
pub risky_message_escalated :
    (lex : Lexicon) (account : String) (time : ℕ) (ms : List FetchedMessage) (m : FetchedMessage)
    → DistinctIds ms
    → Memᴰ m ms
    → is_sensitive (infer_risk_tag lex (lex.lower (m.subject ++ (" " ++ m.body)))) ≡ true
    → is_spam (label_of lex (enrich_message lex m account)) ≡ false
    → Mem
        (escalate_action (enrich_message lex m account))
        (run_policy lex (to_observation lex ms account time))
unfolding to_observation enrich_message
risky_message_escalated lex account time ms m d h s n =
    sensitive_escalated lex (to_observation lex ms account time)
      (enriched-Distinct lex account ms d) refl (enrich_message lex m account)
      ∣ enriched-Memᴰ lex account m ms h ∣₁ s n

-- The signals of every message are in range, and consistent: the value is at most 100 hundredths
-- and at least 40, and the deadline is 60 minutes exactly for high priority, which a legal or
-- security tag always brings.
pub enrich_message_signals :
    (lex : Lexicon) (m : FetchedMessage) (account : String)
    → let e = enrich_message lex m account in
      (e.business_value ≤ 100)
      × (40 ≤ e.business_value)
      × ((if is_high e.priority_hint then 60 else 240) ≤ e.deadline_minutes)
      × (e.deadline_minutes ≤ (if is_high e.priority_hint then 60 else 480))
      × ((is_sensitive e.risk_tag ≡ false) ⊎ (e.priority_hint ≡ high))
unfolding enrich_message infer_priority
enrich_message_signals lex m account = ground arith
