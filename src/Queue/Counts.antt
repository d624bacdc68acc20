-- ===== src/Queue/Counts.antt =====
-- How often the provider was called for a row, and what one dispatch adds to the history.
use autonomous_executive_ema.Base.{
  ℕ, ◌+◌, ◌≤◌, ◌≡◌, refl, ap, false, Bool, ◌&&◌, Option, none, some, List, [], ◌∷◌, String,
  count_if, arith, ◌==◌, if◌then◌else◌, ◌⊎◌, inl, inr, Bool-cases, Option-cases, truthy, strip,
}
use autonomous_executive_ema.Models.{ActionType, reply, escalate}
use autonomous_executive_ema.Queue.{
  World, ActionRow, MailProvider, Write, Sent, WriteResult, is_outbound_write,
  create_escalation_draft,
}
use autonomous_executive_ema.Queue.Execute.{
  call, execute, execute_as, execute_escalation, no_mailbox, escalation_body, recipient_for,
  or_text,
}

abbrev pub is_for : ℕ → Option ℕ → Bool
is_for id none = false
is_for id (some j) = j == id

abbrev pub is_try : ℕ → Sent → Bool
is_try id s = is_outbound_write s.write && is_for id s.row

abbrev pub is_delivery : ℕ → Sent → Bool
is_delivery id s = s.ok && is_try id s

-- Outbound calls made for the row, and those of them that succeeded.
unfoldable pub tries : ℕ → List Sent → ℕ
tries id sent = count_if (is_try id) sent

unfoldable pub deliveries : ℕ → List Sent → ℕ
deliveries id sent = count_if (is_delivery id) sent

pub deliveries-le-tries : (id : ℕ) (sent : List Sent) → deliveries id sent ≤ tries id sent
unfolding deliveries tries count_if
deliveries-le-tries id [] = omega arith
deliveries-le-tries id (s ∷ sent) = ground (arith, deliveries-le-tries id sent)

pub tries-nil : (id : ℕ) → tries id [] ≡ 0
unfolding tries count_if
tries-nil id = refl

-- A call that is not outbound counts for no row.
pub tries_label :
    (id : ℕ) (s : Sent) (sent : List Sent)
    → is_outbound_write s.write ≡ false
    → (tries id (s ∷ sent) ≡ tries id sent) × (deliveries id (s ∷ sent) ≡ deliveries id sent)
unfolding tries deliveries count_if
tries_label id s sent h = (ground arith, ground arith)

-- A call made for one row counts for no other.
pub tries_other :
    (id j : ℕ) (s : Sent) (sent : List Sent)
    → s.row ≡ some j
    → (j == id) ≡ false
    → (tries id (s ∷ sent) ≡ tries id sent) × (deliveries id (s ∷ sent) ≡ deliveries id sent)
unfolding tries deliveries count_if
tries_other id j s sent e h = (ground arith, ground arith)

pub deliveries_own :
    (id : ℕ) (s : Sent) (sent : List Sent)
    → deliveries id (s ∷ sent) ≤ deliveries id sent + (if s.ok then 1 else 0)
unfolding deliveries count_if
deliveries_own id s sent = ground arith

-- One dispatch for `id` that reported `ok` took the history from `old` to `new`.
pub record Dispatched (id : ℕ) (ok : Bool) (old new : List Sent) : Type 0 where
  pub others :
      (j : ℕ)
      → (id == j) ≡ false
      → (tries j new ≡ tries j old) × (deliveries j new ≡ deliveries j old)
  pub own : deliveries id new ≤ deliveries id old + (if ok then 1 else 0)
  pub added : (new ≡ old) ⊎ ((s : Sent) × ((s.row ≡ some id) × (new ≡ s ∷ old)))

call-Dispatched :
    (provider : MailProvider) (id : ℕ) (write : Write) (w : World)
    → Dispatched id
        (call provider (some id) write w).0.ok
        w.sent
        (call provider (some id) write w).1.sent
unfolding call
call-Dispatched provider id write w = record {
  others = λ j h. tries_other j id _ w.sent refl h;
  own = deliveries_own id _ w.sent;
  added = inr (_, (refl, refl));
}

silent-Dispatched : (id : ℕ) (sent : List Sent) → Dispatched id false sent sent
silent-Dispatched id sent = record {
  others = λ j h. (refl, refl);
  own = omega arith;
  added = inl refl;
}

-- A dispatch makes one call for its row, or none and reports a failure.
abbrev pub CallsOnce : MailProvider → ℕ → World → WriteResult × World → Type 0
CallsOnce provider id w r =
    ((r.0.ok ≡ false) × (r.1 ≡ w)) ⊎ ((write : Write) × (r ≡ call provider (some id) write w))

execute_escalation-CallsOnce :
    (provider : MailProvider) (action : ActionRow) (message_id org : String) (w : World)
    → CallsOnce provider action.id w (execute_escalation provider action message_id org w)
unfolding execute_escalation no_mailbox
execute_escalation-CallsOnce provider action message_id org w =
    elim (Option-cases (recipient_for w org (strip (or_text action.escalate_to "")))) [
      | inl e ↦ inl (rw (e, execute_escalation) refl, rw (e, execute_escalation) refl)
      | inr (to, e) ↦ elim (Bool-cases (truthy to)) [
        | inl t ↦ inr (
          create_escalation_draft message_id
              (escalation_body (strip (or_text action.escalate_to "")) action.content) to,
          rw (e, execute_escalation) (rw t refl),
        )
        | inr t ↦
            inl (rw (e, execute_escalation) (rw t refl), rw (e, execute_escalation) (rw t refl))
      ]
    ]

execute_as-CallsOnce :
    (t : ActionType) (provider : MailProvider) (action : ActionRow) (message_id org : String)
    (w : World)
    → CallsOnce provider action.id w (execute_as t provider action message_id org w)
unfolding execute_as
execute_as-CallsOnce escalate provider action message_id org w =
    execute_escalation-CallsOnce provider action message_id org w
execute_as-CallsOnce reply provider action message_id org w = inr (_, refl)
execute_as-CallsOnce _ provider action message_id org w = inr (_, refl)

pub execute-CallsOnce :
    (provider : MailProvider) (action : ActionRow) (message_id org : String) (w : World)
    → CallsOnce provider action.id w (execute provider action message_id org w)
unfolding execute
execute-CallsOnce provider action message_id org w =
    execute_as-CallsOnce action.action_type provider action message_id org w

pub CallsOnce-Dispatched :
    (provider : MailProvider) (id : ℕ) (w : World) (r : WriteResult × World)
    → CallsOnce provider id w r
    → Dispatched id r.0.ok w.sent r.1.sent
CallsOnce-Dispatched provider id w r (inl (e, f)) = rw (e, f) (silent-Dispatched id w.sent)
CallsOnce-Dispatched provider id w r (inr (write, e)) = rw e (call-Dispatched provider id write w)

-- The tables do not change.
pub CallsOnce-tables :
    (provider : MailProvider) (id : ℕ) (w : World) (r : WriteResult × World)
    → CallsOnce provider id w r
    → (r.1.rows ≡ w.rows) × (r.1.next_id ≡ w.next_id) × (r.1.removed ≡ w.removed)
unfolding call
CallsOnce-tables provider id w r (inl (e, f)) =
    (ap (λ v. v.rows) f, ap (λ v. v.next_id) f, ap (λ v. v.removed) f)
CallsOnce-tables provider id w r (inr (write, e)) =
    (ap (λ v. v.1.rows) e, ap (λ v. v.1.next_id) e, ap (λ v. v.1.removed) e)
