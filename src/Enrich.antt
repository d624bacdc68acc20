-- ===== src/Enrich.antt =====
-- app/copilot/enrich.py: the signals that the policy reads, inferred from a fetched message.
pub mod Patterns
pub mod Risk
pub mod Signals
use Prim.Native.Char.{code}
use Prim.Native.String.{◌++◌}
use Prim.Native.String
use autonomous_executive_ema.Base.{
  ℕ, ◌+◌, String, Bool, true, false, ◌||◌, ◌&&◌, List, [], ◌∷◌, map, length, leb, ◌==◌, str_eq, min,
  any, contains, elem, keep, truthy, if◌then◌else◌,
}
use autonomous_executive_ema.Models.{
  Observation, ObservationEmail, ThreadEntry, SenderRole, client, internal, vendor, unknown,
  RiskTag, Level, low, medium, high, balanced, is_high, is_sensitive,
}
use autonomous_executive_ema.Policy.Classifier.{Lexicon, mentions}
use autonomous_executive_ema.Policy.{ids}
use Risk.{infer_risk_tag}

-- `FetchedMessage` of app/copilot/providers/base.py.
pub record FetchedMessage : Type 0 where
  pub provider_message_id : String
  pub thread_id : String
  pub sender : String
  pub sender_name : String
  pub subject : String
  pub body : String
  pub references : List String
  pub received_at : String

abbrev pub freemail : List String
freemail = "gmail.com" ∷ "outlook.com" ∷ "hotmail.com" ∷ "yahoo.com" ∷ "icloud.com" ∷ "aol.com" ∷ []

abbrev pub vendor_hints : List String
vendor_hints = "noreply" ∷ "no-reply" ∷ "notifications" ∷ "billing" ∷ "support" ∷ "donotreply" ∷ []

-- `address.rsplit("@", 1)[-1]`.
unfoldable pub after_last_at : String → String
after_last_at String.[] = ""
after_last_at (String.◌∷◌ c s) =
    let rest = after_last_at s in
    if contains "@" s then rest else if code c == b'@' then s else String.◌∷◌ c s

unfoldable pub domain : Lexicon → String → String
domain lex address = if contains "@" address then lex.lower (after_last_at address) else ""

unfoldable pub infer_sender_role : Lexicon → String → String → SenderRole
infer_sender_role lex sender account_email =
    let sender_l = lex.lower sender in
    let dom = domain lex sender_l in
    let account_dom = domain lex (lex.lower account_email) in
    if truthy dom && (truthy account_dom && str_eq dom account_dom)
    then internal
    else if any (λ hint. contains hint sender_l) vendor_hints
    then vendor
    else if elem dom freemail
    then client
    else unknown

abbrev pub is_vendor : SenderRole → Bool
is_vendor vendor = true
is_vendor _ = false

unfoldable pub infer_priority : Lexicon → String → RiskTag → SenderRole → Level
infer_priority lex text risk_tag sender_role =
    if is_sensitive risk_tag || mentions lex.urgent_terms text
    then high
    else if is_vendor sender_role
    then low
    else medium

-- `_DEADLINE_BY_PRIORITY`, in minutes.
abbrev pub deadline_by_priority : Level → ℕ
deadline_by_priority high = 60
deadline_by_priority medium = 240
deadline_by_priority low = 480

-- `_BUSINESS_VALUE_BY_ROLE`, in hundredths.
abbrev pub business_value_by_role : SenderRole → ℕ
business_value_by_role client = 90
business_value_by_role internal = 70
business_value_by_role vendor = 40
business_value_by_role unknown = 50

unfoldable pub enrich_message : Lexicon → FetchedMessage → String → ObservationEmail
enrich_message lex msg account_email =
    let text = lex.lower (msg.subject ++ (" " ++ msg.body)) in
    let role = infer_sender_role lex msg.sender account_email in
    let risk = infer_risk_tag lex text in
    let priority = infer_priority lex text risk role in
    let value = business_value_by_role role in
    record {
      id = msg.provider_message_id;
      sender = msg.sender;
      sender_role = role;
      subject = msg.subject;
      body = msg.body;
      priority_hint = priority;
      deadline_minutes = deadline_by_priority priority;
      business_value = if is_high priority then min 100 (value + 10) else value;
      risk_tag = risk;
      thread_history = map (λ ref. record { from_address = ref; text = "" }) msg.references;
    }

unfoldable pub risk_level_of : List ObservationEmail → Level
risk_level_of emails =
    let high_risk = length (keep (λ e. is_sensitive e.risk_tag) emails) in
    if leb 2 high_risk then high else if high_risk == 1 then medium else low

unfoldable pub to_observation : Lexicon → List FetchedMessage → String → ℕ → Observation
to_observation lex messages account_email time_remaining =
    let emails = map (λ m. enrich_message lex m account_email) messages in
    record {
      emails = emails;
      time_remaining = time_remaining;
      pending_actions = ids emails;
      risk_level = risk_level_of emails;
      current_minute = 0;
      persona = balanced;
      remaining_interruptions = 0;
    }
