-- ===== src/Queue/Trail.antt =====
-- A run of the program on its tables, from an empty queue: any sequence of syncs, approvals, rejections
-- and retries, of disconnected and broken mailboxes and of deletions of actions, by any users, with any
-- mail backends and any change of the configuration between them.
use autonomous_executive_ema.Base.{
  ℕ, Bool, ◌≤◌, ◌≡◌, refl, false, true, any, String, Option, List, [], ◌∷◌, All, All-map, Dict,
  arith, ◌⊎◌,
}
use autonomous_executive_ema.Billing.{License}
use autonomous_executive_ema.Budget.{Usage}
use autonomous_executive_ema.Queue.{
  World, ActionRow, remove_rows, MessageRow, Connection, Contact, CommitmentRow, MailProvider,
  Services, Sent, Status, proposed, executed, failed, rejected, is_outbound_write,
}
use autonomous_executive_ema.Queue.Review.{approve, reject}
use autonomous_executive_ema.Queue.Retry.{retry_failed_sends, mark_broken}
use autonomous_executive_ema.Mailboxes.{disconnect}
use autonomous_executive_ema.Mailboxes.Disconnecting.{disconnect-Good}
use autonomous_executive_ema.Queue.Invariant.Retrying.{mark_broken-Good}
use autonomous_executive_ema.Queue.Invariant.Removing.{remove_rows-Good}
use autonomous_executive_ema.Queue.Sync.{SyncInput, sync}
use autonomous_executive_ema.Queue.Sync.Draft.{Prose}
use autonomous_executive_ema.Queue.Counts.{deliveries, tries, deliveries-le-tries}
use autonomous_executive_ema.Queue.Invariant.{Good, Fits, Quota, is_backing}
use autonomous_executive_ema.Queue.Invariant.Decisions.{approve-Good, reject-Good}
use autonomous_executive_ema.Queue.Invariant.Resending.{retry_failed_sends-Good}
use autonomous_executive_ema.Queue.Invariant.Syncing.{sync-Calm, outbound}

-- The tables beside the queue, which other parts of the program write.
pub record Setup : Type 0 where
  pub licenses : List License
  pub messages : List MessageRow
  pub connections : List Connection
  pub contacts : List Contact
  pub commitments : List CommitmentRow

-- `erased` stands for each other deletion of actions: of an organization, of a sandbox, or by the demo
-- seed. It takes any of them.
pub data Op : Type 0 where
  configured : Setup → Op
  synced : SyncInput → Dict Prose → List Usage → Op
  approved_by : Services → MailProvider → ℕ → String → String → ℕ → Option String → Op
  rejected_by : ℕ → String → String → ℕ → Op
  retried : (Connection → Option MailProvider) → ℕ → String → ℕ → Op
  disconnected : Bool → String → String → String → Op
  broke : Connection → Op
  erased : (ActionRow → Bool) → Op

unfoldable pub apply : Op → World → World
apply (configured s) w = record w {
  licenses = s.licenses;
  messages = s.messages;
  connections = s.connections;
  contacts = s.contacts;
  commitments = s.commitments;
}
apply (synced i cache ledger) w = (sync i cache ledger w).1
apply (approved_by services provider now org user id edit) w =
    (approve services provider now org user id edit w).1
apply (rejected_by now org user id) w = (reject now org user id w).1
apply (retried build now org max_retries) w = (retry_failed_sends build now org max_retries w).0
apply (disconnected enforces org user id) w = (disconnect enforces org user id w).1
apply (broke c) w = mark_broken c w
apply (erased p) w = remove_rows p w

abbrev pub empty_world : World
empty_world = record {
  licenses = [];
  messages = [];
  connections = [];
  contacts = [];
  rows = [];
  next_id = 1;
  commitments = [];
  audit = [];
  sent = [];
  removed = [];
}

-- The operations, the latest first.
unfoldable pub run : List Op → World
run [] = empty_world
run (op ∷ ops) = apply op (run ops)

apply-Good : (op : Op) (w : World) → Good w → Good (apply op w)
unfolding apply
apply-Good (configured s) w g = g
apply-Good (synced i cache ledger) w g = (sync-Calm i cache ledger w (outbound w.sent) (g, refl)).0
apply-Good (approved_by services provider now org user id edit) w g =
    approve-Good services provider now org user id edit w g
apply-Good (rejected_by now org user id) w g = reject-Good now org user id w g
apply-Good (retried build now org max_retries) w g =
    retry_failed_sends-Good org max_retries w g build now
apply-Good (disconnected enforces org user id) w g = disconnect-Good enforces org user id w g
apply-Good (broke c) w g = mark_broken-Good c.org_id 0 c w g
apply-Good (erased p) w g = remove_rows-Good p w g

run-Good : (ops : List Op) → Good (run ops)
unfolding run
run-Good [] = record { distinct = tt; below = tt; fits = tt; gone_below = tt; backed = tt }
run-Good (op ∷ ops) = apply-Good op (run ops) (run-Good ops)

Quota-bounds :
    (t : Status) (id : ℕ) (sent : List Sent)
    → deliveries id sent ≤ tries id sent
    → Quota t id sent
    → deliveries id sent ≤ 1
Quota-bounds proposed id sent h q = omega (arith, h, q)
Quota-bounds rejected id sent h q = omega (arith, h, q)
Quota-bounds failed id sent h q = omega (arith, q)
Quota-bounds executed id sent h q = q

-- After any run, each action of the queue has been delivered at most once: at most one of the
-- outbound calls made for it succeeded.
pub delivered_once : (ops : List Op) → All (λ r. deliveries r.id (run ops).sent ≤ 1) (run ops).rows
delivered_once ops =
    All-map (Fits (run ops).sent) (λ r. deliveries r.id (run ops).sent ≤ 1)
      (λ r fit.
        Quota-bounds r.status r.id (run ops).sent (deliveries-le-tries r.id (run ops).sent)
          fit.quota)
      (run ops).rows (run-Good ops).fits

-- After any run, each outbound call that was ever made, a failed one included, was made for an action
-- that a human decided: it stands in the queue with that decision, or it did when it was deleted.
pub sends_are_decided :
    (ops : List Op)
    → All
        (λ s.
          (is_outbound_write s.write ≡ false)
          ⊎ ((any (is_backing s) (run ops).rows ≡ true)
              ⊎ (any (is_backing s) (run ops).removed ≡ true)))
        (run ops).sent
sends_are_decided ops = (run-Good ops).backed

-- After any run, the outbound calls made for an action of the queue fit its status: none if it waits
-- for a decision or is rejected, no successful one if it is failed, at most one if it is executed.
pub calls_fit_status :
    (ops : List Op) → All (λ r. Quota r.status r.id (run ops).sent) (run ops).rows
calls_fit_status ops =
    All-map (Fits (run ops).sent) (λ r. Quota r.status r.id (run ops).sent) (λ r fit. fit.quota)
      (run ops).rows (run-Good ops).fits

-- Whatever happened before, a sync makes no outbound call: the number of replies and escalations
-- sent is the same after it.
pub sync_sends_nothing :
    (ops : List Op) (i : SyncInput) (cache : Dict Prose) (ledger : List Usage)
    → outbound (sync i cache ledger (run ops)).1.sent ≡ outbound (run ops).sent
sync_sends_nothing ops i cache ledger =
    (sync-Calm i cache ledger (run ops) (outbound (run ops).sent) (run-Good ops, refl)).1
