-- ===== src/Tests/Operations.antt =====
-- A sweep of the background worker and the deletion of an organization, on concrete inputs.
use autonomous_executive_ema.Base.{
  ◌≡◌, refl, ℕ, false, none, some, [], ◌∷◌, All, arith, keep, elem, lookup,
}
use autonomous_executive_ema.Lifecycle.{
  Organization, Database, owned, get_org, delete_org, export_org, org_tables, remaining_rows,
  uncovered_tenant_tables,
}
use autonomous_executive_ema.Lifecycle.Erasure.{delete_org-erases}
use autonomous_executive_ema.Queue.{Connection}
use autonomous_executive_ema.Worker.{
  Worker, SweepService, refused, is_due, is_waiting, visit, visit_all, empty_summary,
}
use autonomous_executive_ema.Worker.Sweeping.{refused_waits}
use autonomous_executive_ema.Worker.Queueing.{Wiring}
use autonomous_executive_ema.Tests.Data.{mailbox, accepting, sync_input}

abbrev worker : Worker
worker = record {
  interval_seconds = 900;
  jitter_fraction = 10;
  poll_seconds = 60;
  crc32 = λ id. 7;
  retry_after = [];
  started_at = some 0;
  last_pass_at = none;
  last_pass = none;
  passes = 0;
  recent = [];
}

-- A service whose syncs all fail, over no state.
abbrev failing : SweepService ℕ
failing = record {
  purge_expired = λ now w. w;
  list_all_connected = λ w. mailbox ∷ [];
  sync = λ now c w. (refused, w);
  orgs_with_failed_sends = λ w. [];
  retry_failed_sends = λ now org w. (none, w);
}

abbrev second_box : Connection
second_box = record mailbox { id = "box2" }

refused_waits_example :
    is_due
      (visit_all failing 10
        (second_box ∷ [])
        (visit failing 10 mailbox (0, (worker, empty_summary)))).1.0
      mailbox
      500
    ≡ false
unfolding is_due is_waiting lookup
refused_waits_example =
    refused_waits failing 10 500 mailbox (second_box ∷ []) 0 worker empty_summary refl refl
      (refl, tt) (omega arith)

abbrev wiring : Wiring
wiring = record {
  input = λ now c w. some sync_input;
  cache = [];
  ledger = [];
  build_provider = λ c. some accepting;
  is_sandbox = λ org. false;
  max_retries = 3;
}

abbrev acme : Organization
acme = record { id = "acme"; name = "Acme"; sandbox_expires_at = none }

abbrev store : Database
store = record {
  organizations = acme ∷ record acme { id = "other" } ∷ [];
  tables = λ key.
      record { org_id = some "acme"; shown = key }
      ∷ record { org_id = some "other"; shown = key }
      ∷ [];
}

delete_org-erases_example :
    let after = (delete_org "acme" store).1 in
    All (λ k. keep (owned "acme") (after.tables k) ≡ []) org_tables
    × (remaining_rows "acme" after ≡ [])
    × (export_org "acme" after ≡ none)
    × (keep (owned "other") (after.tables "users") ≡ keep (owned "other") (store.tables "users"))
unfolding get_org
delete_org-erases_example = delete_org-erases "acme" "other" "users" store acme refl refl

nothing_uncovered : uncovered_tenant_tables ≡ []
unfolding uncovered_tenant_tables keep elem
nothing_uncovered = refl
