-- ===== src/Pipeline/Coverage.antt =====
-- What the actions of `run_policy` do to each message.
use autonomous_executive_ema.Base.{
  ℕ, ◌+◌, ◌*◌, ◌≤◌, ◌≡◌, refl, ap, ◌∙◌, true, false, Bool, ◌&&◌, none, some, String, List, [], ◌∷◌,
  map, length, length-append, length-map, arith, count_if, count_if-append, elem, str_eq,
  str_eq_iff, str_eq_refl, if◌then◌else◌, Bool-cases, inl, inr,
}
use mathlib.Core.List.{Mem, Memᴰ, mem-append_right, mem-cons_of_mem}
use mathlib.Core.List.Perm
use mathlib.Core.Logic.{∥∥₁_map}
use autonomous_executive_ema.Models.{
  Observation, ObservationEmail, Action, ActionType, reply, defer, escalate, is_spam, is_sensitive,
}
use autonomous_executive_ema.Policy.{ids, classify_action, escalate_action, decide}
use autonomous_executive_ema.Policy.Classifier.{Lexicon, classify_heuristic}
use autonomous_executive_ema.Policy.Ranking.{
  sort_by, place, sort_by-perm, ranked_before, length-sort_by,
}
use autonomous_executive_ema.Pipeline.{run_policy}
use autonomous_executive_ema.Pipeline.Plan.{label_of, decisions, plan, Distinct}
use autonomous_executive_ema.Pipeline.Refinement.{run_policy-eq-plan}

-- `a` is a reply, an escalation or a deferral of the message `k`.
abbrev pub settles : ActionType → Bool
settles reply = true
settles escalate = true
settles defer = true
settles _ = false

abbrev pub decides : String → Action → Bool
decides k a = settles a.action_type && elim a.email_id [ none ↦ false | some id ↦ str_eq id k ]

decides-decide :
    (lex : Lexicon) (k : String) (e : ObservationEmail)
    → decides k (decide (label_of lex e) e) ≡ str_eq e.id k
unfolding decide
decides-decide lex k e = ground arith

abbrev tally : Lexicon → String → List ObservationEmail → ℕ
tally lex k es = count_if (decides k) (decisions lex es)

tally-cons :
    (lex : Lexicon) (k : String) (e : ObservationEmail) (es : List ObservationEmail)
    → tally lex k (e ∷ es)
      ≡ (if is_spam (label_of lex e) then 0 else if str_eq e.id k then 1 else 0) + tally lex k es
unfolding count_if
tally-cons lex k e es = ground (arith, decides-decide lex k e)

tally-place :
    (lex : Lexicon) (k : String) (before : ObservationEmail → ObservationEmail → Bool)
    (e : ObservationEmail) (es : List ObservationEmail)
    → tally lex k (place before e es) ≡ tally lex k (e ∷ es)
unfolding place
tally-place lex k before e [] = refl
tally-place lex k before e (f ∷ es) = elim (Bool-cases (before f e)) [
  | inl b ↦ rw b (
      omega (
        arith,
        tally-cons lex k f (place before e es),
        tally-place lex k before e es,
        tally-cons lex k e es,
        tally-cons lex k e (f ∷ es),
        tally-cons lex k f es,
      ))
  | inr b ↦ rw b
]

tally-sort_by :
    (lex : Lexicon) (k : String) (before : ObservationEmail → ObservationEmail → Bool)
    (es : List ObservationEmail)
    → tally lex k (sort_by before es) ≡ tally lex k es
unfolding sort_by
tally-sort_by lex k before [] = refl
tally-sort_by lex k before (e ∷ es) = omega (
  arith,
  tally-place lex k before e (sort_by before es),
  tally-cons lex k e (sort_by before es),
  tally-cons lex k e es,
  tally-sort_by lex k before es,
)

tally_absent :
    (lex : Lexicon) (k : String) (es : List ObservationEmail)
    → elem k (ids es) ≡ false
    → tally lex k es ≡ 0
unfolding elem
tally_absent lex k [] d = unfold count_if in refl
tally_absent lex k (e ∷ es) d =
    tally-cons lex k e es ∙ ground (arith, tally_absent lex k es (ground arith))

abbrev once : Lexicon → ObservationEmail → ℕ
once lex e = if is_spam (label_of lex e) then 0 else 1

elem-Memᴰ :
    (es : List ObservationEmail) (e : ObservationEmail) → Memᴰ e es → elem e.id (ids es) ≡ true
unfolding elem
elem-Memᴰ [] e m = elim m [ ]
elem-Memᴰ (f ∷ es) e (Memᴰ.head p) = ground (arith, ap (λ x. x.id) p, str_eq_iff f.id e.id)
elem-Memᴰ (f ∷ es) e (Memᴰ.tail m) = ground (arith, elem-Memᴰ es e m)

tally_present :
    (lex : Lexicon) (es : List ObservationEmail) (e : ObservationEmail)
    → Distinct es
    → Memᴰ e es
    → tally lex e.id es ≡ once lex e
tally_present lex [] e d m = elim m [ ]
tally_present lex (f ∷ es) e d (Memᴰ.head p) =
    rw p (tally-cons lex f.id f es ∙ ground (arith, tally_absent lex f.id es d.0, str_eq_refl f.id))
tally_present lex (f ∷ es) e d (Memᴰ.tail m) =
    tally-cons lex e.id f es
    ∙ ground (
      arith,
      tally_present lex es e d.1 m,
      elem-Memᴰ es e m,
      d.0,
      str_eq_iff f.id e.id,
      ap (λ k. elem k (ids es)) {x = f.id} {y = e.id},
    )

tally-classified :
    (lex : Lexicon) (k : String) (es : List ObservationEmail)
    → count_if (decides k) (map (λ e. classify_action e (label_of lex e)) es) ≡ 0
unfolding count_if
tally-classified lex k [] = refl
tally-classified lex k (e ∷ es) = omega (arith, tally-classified lex k es)

tally-plan :
    (lex : Lexicon) (k : String) (o : Observation)
    → count_if (decides k) (plan lex o) ≡ tally lex k o.emails
unfolding count_if
tally-plan lex k o = omega (
  arith,
  count_if-append (decides k) (map (λ f. classify_action f (label_of lex f)) o.emails)
      (decisions lex (sort_by ranked_before o.emails)),
  tally-classified lex k o.emails,
  tally-sort_by lex k ranked_before o.emails,
)

length-decisions :
    (lex : Lexicon) (es : List ObservationEmail) → length (decisions lex es) ≤ length es
length-decisions lex [] = omega arith
length-decisions lex (e ∷ es) = ground (arith, length-decisions lex es)

length-plan : (lex : Lexicon) (o : Observation) → length (plan lex o) ≤ length o.emails * 2 + 1
length-plan lex o = omega (
  arith,
  length-append (map (λ f. classify_action f (label_of lex f)) o.emails)
      (decisions lex (sort_by ranked_before o.emails)),
  length-map (λ f. classify_action f (label_of lex f)) o.emails,
  length-decisions lex (sort_by ranked_before o.emails),
  length-sort_by ranked_before o.emails,
)

sensitive_label :
    (lex : Lexicon) (e : ObservationEmail)
    → is_sensitive e.risk_tag ≡ true
    → is_spam (label_of lex e) ≡ false
    → decide (label_of lex e) e ≡ escalate_action e
unfolding decide classify_heuristic
sensitive_label lex e s n = ground arith

decisions-Memᴰ :
    (lex : Lexicon) (e : ObservationEmail) (es : List ObservationEmail)
    → is_spam (label_of lex e) ≡ false
    → Memᴰ e es
    → Memᴰ (decide (label_of lex e) e) (decisions lex es)
decisions-Memᴰ lex e [] n m = elim m [ ]
decisions-Memᴰ lex e (f ∷ es) n (Memᴰ.head p) = rw (← p, n) (Memᴰ.head refl)
decisions-Memᴰ lex e (f ∷ es) n (Memᴰ.tail m) = elim (Bool-cases (is_spam (label_of lex f))) [
  | inl b ↦ rw b (decisions-Memᴰ lex e es n m)
  | inr b ↦ rw b (Memᴰ.tail (decisions-Memᴰ lex e es n m))
]

module _ (lex : Lexicon) (o : Observation) (d : Distinct o.emails)
    (quiet : o.remaining_interruptions ≡ 0) where
  -- Among the actions of `run_policy` on an inbox with distinct ids and no interruption to come,
  -- each message that the classifier calls spam has no reply, escalation or deferral, and each
  -- other message has exactly one of the three, counted together.
  pub decided_once :
      (e : ObservationEmail)
      → Memᴰ e o.emails
      → count_if (decides e.id) (run_policy lex o) ≡ (if is_spam (label_of lex e) then 0 else 1)
  decided_once e m =
      ap (count_if (decides e.id)) (run_policy-eq-plan lex o d quiet)
      ∙ tally-plan lex e.id o
      ∙ tally_present lex o.emails e d m

  -- On an inbox with distinct ids and no interruption to come, `run_policy` makes at most 2n + 1
  -- actions for n messages.
  pub length-run_policy : length (run_policy lex o) ≤ length o.emails * 2 + 1
  length-run_policy = omega (arith, ap length (run_policy-eq-plan lex o d quiet), length-plan lex o)

  -- On an inbox with distinct ids and no interruption to come, a message with a legal or security tag
  -- that the classifier does not call spam is escalated: the action that hands it to the role of its
  -- tag is among those that `run_policy` returns.
  pub sensitive_escalated :
      (e : ObservationEmail)
      → Mem e o.emails
      → is_sensitive e.risk_tag ≡ true
      → is_spam (label_of lex e) ≡ false
      → Mem (escalate_action e) (run_policy lex o)
  sensitive_escalated e m s n =
      rw (run_policy-eq-plan lex o d quiet, ← sensitive_label lex e s n)
        (mem-cons_of_mem _ (
          mem-append_right (map (λ f. classify_action f (label_of lex f)) o.emails) (
            ∥∥₁_map (Perm.subset (Perm.symm (sort_by-perm ranked_before o.emails)) e m)
              (decisions-Memᴰ lex e _ n))))
