-- ===== src/Worker.antt =====
-- app/saas/sync_worker.py: the background sweep over the connected mailboxes. What it calls of the rest
-- is an interface, `SweepService`, on a state of any type. Times are seconds, `jitter_fraction` is
-- a number of hundredths, and the checksum of an id is a parameter. The task around the passes and the
-- logging are left out.
pub mod Passes
pub mod Sweeping
pub mod Queueing
use autonomous_executive_ema.Base.{
  ℕ, zero, suc, ◌+◌, ◌-◌, ◌*◌, ◌%◌, String, Bool, true, false, not, ◌&&◌, Option, none, some, List,
  [], ◌∷◌, ◌++◌, leb, ltb, Dict, lookup, insert, remove, length, or_default, if◌then◌else◌, is_some,
}
use autonomous_executive_ema.Queue.{Connection}

-- How `sync` of one connection ends: with its counts, with `BrokenConnectionError`, or with any other error.
pub data Outcome : Type 0 where
  synced : ℕ → ℕ → Outcome
  broken : Outcome
  refused : Outcome

-- What the worker calls: `purge_expired`, `list_all_connected`, `sync` on a provider built for the
-- connection, `orgs_with_failed_sends`, and `retry_failed_sends`, with the sends attempted and recovered,
-- or none where it raises.
pub record SweepService (W : Type 0) : Type 0 where
  pub purge_expired : ℕ → W → W
  pub list_all_connected : W → List Connection
  pub sync : ℕ → Connection → W → Outcome × W
  pub orgs_with_failed_sends : W → List String
  pub retry_failed_sends : ℕ → String → W → Option (ℕ × ℕ) × W

pub record Summary : Type 0 where
  pub checked : ℕ
  pub synced : ℕ
  pub messages : ℕ
  pub proposed : ℕ
  pub errors : ℕ
  pub retried : ℕ
  pub recovered : ℕ

abbrev pub empty_summary : Summary
empty_summary = record {
  checked = 0;
  synced = 0;
  messages = 0;
  proposed = 0;
  errors = 0;
  retried = 0;
  recovered = 0;
}

pub record Worker : Type 0 where
  pub interval_seconds : ℕ
  pub jitter_fraction : ℕ
  pub poll_seconds : ℕ
  pub crc32 : String → ℕ
  pub retry_after : Dict ℕ
  pub started_at : Option ℕ
  pub last_pass_at : Option ℕ
  pub last_pass : Option Summary
  pub passes : ℕ
  pub recent : List (ℕ × Summary)

-- `now < retry_at`.
unfoldable pub is_waiting : Option ℕ → ℕ → Bool
is_waiting none now = false
is_waiting (some retry_at) now = ltb now retry_at

-- `age >= interval * (1 + jitter)`, times 100000: the jitter is crc % 1000 / 1000 of the fraction.
unfoldable pub is_old : Worker → Connection → ℕ → ℕ → Bool
is_old k conn last now =
    leb (100000 * last + k.interval_seconds * (100000 + k.crc32 conn.id % 1000 * k.jitter_fraction))
      (100000 * now)

-- `is_due`.
unfoldable pub is_due : Worker → Connection → ℕ → Bool
is_due k conn now =
    if is_waiting (lookup conn.id k.retry_after) now
    then false
    else elim conn.synced_at [ none ↦ true | some last ↦ is_old k conn last now ]

-- What the outcome of a sync adds to the summary, and does to the waiting times.
unfoldable pub counted : Outcome → Summary → Summary
counted (synced messages proposed) s = record s {
  synced = s.synced + 1;
  messages = s.messages + messages;
  proposed = s.proposed + proposed;
}
counted broken s = record s { errors = s.errors + 1 }
counted refused s = record s { errors = s.errors + 1 }

unfoldable pub delayed : Outcome → Connection → ℕ → Worker → Worker
delayed (synced messages proposed) conn now k = record k {
  retry_after = remove conn.id k.retry_after;
}
delayed broken conn now k = k
delayed refused conn now k = record k {
  retry_after = insert conn.id (now + k.interval_seconds) k.retry_after;
}

module _ {W : Type 0} (service : SweepService W) where
  abbrev pub State : Type 0
  State = W × (Worker × Summary)

  -- One turn of the loop of `sync_due_connections`.
  unfoldable pub visit : ℕ → Connection → State → State
  visit now conn (w, (k, s)) =
      let seen = record s { checked = s.checked + 1 } in
      let (outcome, w2) = service.sync now conn w in
      if not (is_due k conn now)
      then (w, (k, seen))
      else (w2, (delayed outcome conn now k, counted outcome seen))

  unfoldable pub visit_all : ℕ → List Connection → State → State
  visit_all now [] st = st
  visit_all now (conn ∷ conns) st = visit_all now conns (visit now conn st)

  -- The loop of `_retry_failed_sends`: an organization whose retry raises is passed over.
  unfoldable pub added : Option (ℕ × ℕ) → ℕ × ℕ → ℕ × ℕ
  added none totals = totals
  added (some (attempted, recovered)) (retried, total) = (retried + attempted, total + recovered)

  unfoldable pub retry_orgs : ℕ → List String → W → ℕ × ℕ → W × (ℕ × ℕ)
  retry_orgs now [] w totals = (w, totals)
  retry_orgs now (org ∷ orgs) w totals =
      let (result, w2) = service.retry_failed_sends now org w in
      retry_orgs now orgs w2 (added result totals)

-- `del self.recent[:-10]`.
unfoldable pub drop_first : ℕ → List (ℕ × Summary) → List (ℕ × Summary)
drop_first zero xs = xs
drop_first (suc n) [] = []
drop_first (suc n) (x ∷ xs) = drop_first n xs

-- `_record_pass`.
unfoldable pub record_pass : Summary → ℕ → Worker → Worker
record_pass s now k =
    let all = k.recent ++ (now, s) ∷ [] in
    record k {
      passes = k.passes + 1;
      last_pass_at = some now;
      last_pass = some s;
      recent = drop_first (length all - 10) all;
    }

-- `sync_due_connections`.
unfoldable pub sync_due_connections :
    {W : Type 0} → SweepService W → ℕ → W → Worker → Summary × (W × Worker)
sync_due_connections service now w k =
    let w1 = service.purge_expired now w in
    let swept = visit_all service now (service.list_all_connected w1) (w1, (k, empty_summary)) in
    let retried = retry_orgs service now (service.orgs_with_failed_sends swept.0) swept.0 (0, 0) in
    let summary = record (swept.1.1) { retried = retried.1.0; recovered = retried.1.1 } in
    (summary, (retried.0, record_pass summary now swept.1.0))

-- `heartbeat`: whether the worker is taken for dead, three polls after its last pass, or its start.
unfoldable pub is_stale : Worker → ℕ → Bool
is_stale k now = elim k.last_pass_at [
  | some last ↦ ltb (last + k.poll_seconds * 3) now
  | none ↦ elim k.started_at [ some start ↦ ltb (start + k.poll_seconds * 3) now | none ↦ false ]
]
