-- ===== src/Worker/Queueing.antt =====
-- The sweep over the approval queue: the sync service and the retry as the worker's `SweepService`, with
-- `list_all_connected` and `orgs_with_failed_sends` of app/saas/repository.py. Demo sandboxes are no part
-- of this queue, so purging them changes nothing here; which organizations are sandboxes, the provider of
-- a connection and the rest of a sync's input are parameters.
use mathlib.Core.Path.{subst}
use autonomous_executive_ema.Base.{
  ℕ, ◌≡◌, refl, sym, ap, String, Bool, true, false, not, ◌&&◌, Option, none, some, List, [], ◌∷◌,
  ◌++◌, map, keep, elem, if◌then◌else◌, if-cases, Dict, Option-cases, inl, inr, All, ◌≤◌,
}
use autonomous_executive_ema.Budget.{Usage}
use autonomous_executive_ema.Queue.{
  World, Connection, ConnectionStatus, connected, MailProvider, is_failed_send,
}
use autonomous_executive_ema.Queue.Review.{Result, ok, err}
use autonomous_executive_ema.Queue.Sync.{SyncInput, SyncReport, sync}
use autonomous_executive_ema.Queue.Sync.Draft.{Prose}
use autonomous_executive_ema.Queue.Retry.{retry_failed_sends, mark_broken}
use autonomous_executive_ema.Queue.Counts.{deliveries}
use autonomous_executive_ema.Queue.Trail.{
  Op, synced as synced_op, retried as retried_op, broke, apply, run, delivered_once,
}
use autonomous_executive_ema.Worker.{
  Worker, Outcome, synced, broken, refused, SweepService, State, visit, visit_all, retry_orgs,
  added, sync_due_connections, is_due, empty_summary,
}

pub record Wiring : Type 0 where
  pub input : ℕ → Connection → World → Option SyncInput
  pub cache : Dict Prose
  pub ledger : List Usage
  pub build_provider : Connection → Option MailProvider
  pub is_sandbox : String → Bool
  pub max_retries : ℕ

abbrev is_connected : Connection → Bool
is_connected c = elim c.status [ connected ↦ true | ConnectionStatus.broken ↦ false ]

unfoldable pub list_all_connected : Wiring → World → List Connection
list_all_connected k w = keep (λ c. is_connected c && not (k.is_sandbox c.org_id)) w.connections

-- The organizations of the failed sends, each once.
unfoldable pub distinct : List String → List String
distinct [] = []
distinct (x ∷ xs) = let rest = distinct xs in if elem x rest then rest else x ∷ rest

unfoldable pub orgs_with_failed_sends : Wiring → World → List String
orgs_with_failed_sends k w =
    distinct (map (λ r. r.org_id) (keep (λ r. is_failed_send r.org_id k.max_retries r) w.rows))

unfoldable pub outcome_of : Result SyncReport → Outcome
outcome_of (ok report) = synced report.messages report.proposed
outcome_of (err e) = refused

-- The call of `service.sync` with a provider that `build_provider` makes: where it makes none, it has
-- marked the connection broken.
unfoldable pub sync_connection : Wiring → ℕ → Connection → World → Outcome × World
sync_connection k now c w = elim (k.input now c w) [
  | none ↦ (broken, mark_broken c w)
  | some i ↦ let (result, w2) = sync i k.cache k.ledger w in (outcome_of result, w2)
]

unfoldable pub retry_org : Wiring → ℕ → String → World → Option (ℕ × ℕ) × World
retry_org k now org w =
    let (w2, s) = retry_failed_sends k.build_provider now org k.max_retries w in
    (some (s.attempted, s.recovered), w2)

abbrev pub queue_service : Wiring → SweepService World
queue_service k = record {
  purge_expired = λ now w. w;
  list_all_connected = list_all_connected k;
  sync = sync_connection k;
  orgs_with_failed_sends = orgs_with_failed_sends k;
  retry_failed_sends = retry_org k;
}

-- What the program does without a person.
abbrev pub is_unattended : Op → Bool
is_unattended (synced_op i cache ledger) = true
is_unattended (retried_op build now org max_retries) = true
is_unattended (broke c) = true
is_unattended _ = false

module _ (k : Wiring) where
  -- A world that more syncs, retries and broken mailboxes lead to.
  abbrev Reached : List Op → World → Type 0
  Reached ops w =
      (more : List Op) × (All (λ op. is_unattended op ≡ true) more) × (w ≡ run (more ++ ops))

  Reached-op :
      (ops : List Op) (op : Op) (w : World)
      → is_unattended op ≡ true
      → Reached ops w
      → Reached ops (apply op w)
  unfolding run
  Reached-op ops op w u (more, us, e) = (op ∷ more, (u, us), ap (apply op) e)

  Reached-sync :
      (ops : List Op) (now : ℕ) (c : Connection) (w : World)
      → Reached ops w
      → Reached ops (sync_connection k now c w).1
  unfolding sync_connection apply
  Reached-sync ops now c w r = elim (Option-cases (k.input now c w)) [
    | inl n ↦ rw (sync_connection, n) (Reached-op ops (broke c) w refl r)
    | inr (i, p) ↦ rw (sync_connection, p) (Reached-op ops (synced_op i k.cache k.ledger) w refl r)
  ]

  Reached-visit :
      (ops : List Op) (now : ℕ) (conn : Connection) (st : State (queue_service k))
      → Reached ops st.0
      → Reached ops (visit (queue_service k) now conn st).0
  unfolding visit
  Reached-visit ops now conn (w, (worker, s)) r =
      if-cases (λ (x : State (queue_service k)). Reached ops x.0) (not (is_due worker conn now)) _ _
        (λ _. r) (λ _. Reached-sync ops now conn w r)

  Reached-visit_all :
      (ops : List Op) (now : ℕ) (conns : List Connection) (st : State (queue_service k))
      → Reached ops st.0
      → Reached ops (visit_all (queue_service k) now conns st).0
  unfolding visit_all
  Reached-visit_all ops now [] st r = r
  Reached-visit_all ops now (conn ∷ conns) st r =
      Reached-visit_all ops now conns (visit (queue_service k) now conn st)
        (Reached-visit ops now conn st r)

  Reached-retry_orgs :
      (ops : List Op) (now : ℕ) (orgs : List String) (w : World) (totals : ℕ × ℕ)
      → Reached ops w
      → Reached ops (retry_orgs (queue_service k) now orgs w totals).0
  unfolding retry_orgs retry_org apply
  Reached-retry_orgs ops now [] w totals r = r
  Reached-retry_orgs ops now (org ∷ orgs) w totals r =
      let result = (retry_org k now org w).0 in
      Reached-retry_orgs ops now orgs (retry_org k now org w).1
        (added (queue_service k) result totals)
        (Reached-op ops (retried_op k.build_provider now org k.max_retries) w refl r)

  pub sync_due_connections-run :
      (ops : List Op) (now : ℕ) (worker : Worker)
      → (more : List Op) × (All (λ op. is_unattended op ≡ true) more)
        × ((sync_due_connections (queue_service k) now (run ops) worker).1.0 ≡ run (more ++ ops))
  unfolding sync_due_connections
  sync_due_connections-run ops now worker =
      let conns = list_all_connected k (run ops) in
      let swept = visit_all (queue_service k) now conns (run ops, (worker, empty_summary)) in
      Reached-retry_orgs ops now (orgs_with_failed_sends k swept.0) swept.0 (0, 0)
        (Reached-visit_all ops now conns (run ops, (worker, empty_summary)) ([], tt, refl))

  -- So the worker delivers nothing twice: after a pass over the queue of any run, each action has been
  -- delivered at most once.
  pub pass_delivers_once :
      (ops : List Op) (now : ℕ) (worker : Worker)
      → let w = (sync_due_connections (queue_service k) now (run ops) worker).1.0 in
        All (λ r. deliveries r.id w.sent ≤ 1) w.rows
  pass_delivers_once ops now worker =
      let (more, us, e) = sync_due_connections-run ops now worker in
      subst (λ (w : World). All (λ r. deliveries r.id w.sent ≤ 1) w.rows) (sym e)
        (delivered_once (more ++ ops))
