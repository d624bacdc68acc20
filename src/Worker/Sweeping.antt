-- ===== src/Worker/Sweeping.antt =====
-- A sweep visits every connection, and leaves one that failed alone for an interval.
use autonomous_executive_ema.Base.{
  ℕ, ◌+◌, ◌≤◌, ◌<◌, ◌≡◌, refl, ◌∙◌, true, false, not, Option, some, List, [], ◌∷◌, ltb, lookup,
  lookup-insert, lookup-remove, length, if-cases, str_eq, str_eq_refl, All, arith,
}
use autonomous_executive_ema.Queue.{Connection}
use autonomous_executive_ema.Worker.{
  Worker, Summary, Outcome, synced, broken, refused, SweepService, State, is_due, is_waiting,
  counted, delayed, visit, visit_all,
}

-- The connections seen, and those that were synced or failed among them.
abbrev Tally : ℕ → Summary → Type 0
Tally n s = (s.checked ≡ n) × (s.synced + s.errors ≤ s.checked)

module _ {W : Type 0} (service : SweepService W) where
  counted-Tally :
      (n : ℕ) (o : Outcome) (s : Summary)
      → Tally n s
      → Tally (n + 1) (counted o (record s { checked = s.checked + 1 }))
  unfolding counted
  counted-Tally n (synced m p) s (c, h) = (omega (arith, c), omega (arith, h))
  counted-Tally n broken s (c, h) = (omega (arith, c), omega (arith, h))
  counted-Tally n refused s (c, h) = (omega (arith, c), omega (arith, h))

  visit-Tally :
      (n now : ℕ) (conn : Connection) (st : State service)
      → Tally n st.1.1
      → Tally (n + 1) (visit service now conn st).1.1
  unfolding visit
  visit-Tally n now conn (w, (k, s)) (c, h) =
      if-cases (λ (r : State service). Tally (n + 1) r.1.1) (not (is_due k conn now)) _ _
        (λ _. (omega (arith, c), omega (arith, h)))
        (λ _. counted-Tally n (service.sync now conn w).0 s (c, h))

  -- No connection stops the sweep: whatever the syncs do, a sweep checks every connection of its list, and
  -- counts each at most once as synced or failed.
  pub visit_all-checked :
      (now : ℕ) (conns : List Connection) (n : ℕ) (st : State service)
      → st.1.1.checked ≡ n
      → st.1.1.synced + st.1.1.errors ≤ st.1.1.checked
      → ((visit_all service now conns st).1.1.checked ≡ n + length conns)
        × ((visit_all service now conns st).1.1.synced + (visit_all service now conns st).1.1.errors
            ≤ n + length conns)
  unfolding visit_all
  visit_all-checked now [] n st c h = (omega (arith, c), omega (arith, c, h))
  visit_all-checked now (conn ∷ conns) n st c h =
      let (c', h') = visit-Tally n now conn st (c, h) in
      let (a, b) = visit_all-checked now conns (n + 1) (visit service now conn st) c' h' in
      (omega (arith, a), omega (arith, b))

  -- The time that a connection waits for.
  abbrev waits : Connection → State service → Option ℕ
  waits conn st = lookup conn.id st.1.0.retry_after

  other-waits :
      (now : ℕ) (conn c : Connection) (o : Outcome) (k : Worker)
      → str_eq c.id conn.id ≡ false
      → lookup conn.id (delayed o c now k).retry_after ≡ lookup conn.id k.retry_after
  unfolding delayed
  other-waits now conn c (synced m p) k d = lookup-remove c.id conn.id k.retry_after ∙ rw d refl
  other-waits now conn c broken k d = refl
  other-waits now conn c refused k d =
      lookup-insert c.id conn.id (now + k.interval_seconds) k.retry_after ∙ rw d refl

  visit-waits :
      (now : ℕ) (conn c : Connection) (st : State service)
      → str_eq c.id conn.id ≡ false
      → waits conn (visit service now c st) ≡ waits conn st
  unfolding visit
  visit-waits now conn c (w, (k, s)) d =
      if-cases (λ (r : State service). waits conn r ≡ lookup conn.id k.retry_after)
        (not (is_due k c now)) _ _ (λ _. refl)
        (λ _. other-waits now conn c (service.sync now c w).0 k d)

  visit_all-waits :
      (now : ℕ) (conn : Connection) (conns : List Connection) (st : State service)
      → All (λ (c : Connection). str_eq c.id conn.id ≡ false) conns
      → waits conn (visit_all service now conns st) ≡ waits conn st
  unfolding visit_all
  visit_all-waits now conn [] st d = refl
  visit_all-waits now conn (c ∷ conns) st (d, ds) =
      visit_all-waits now conn conns (visit service now c st) ds ∙ visit-waits now conn c st d

  visit-refused :
      (now : ℕ) (conn : Connection) (w : W) (k : Worker) (s : Summary)
      → is_due k conn now ≡ true
      → (service.sync now conn w).0 ≡ refused
      → waits conn (visit service now conn (w, (k, s))) ≡ some (now + k.interval_seconds)
  unfolding visit delayed
  visit-refused now conn w k s d r =
      rw (visit, d, r)
        (lookup-insert conn.id conn.id (now + k.interval_seconds) k.retry_after
          ∙ rw (str_eq_refl conn.id) refl)

  not-due :
      (k : Worker) (conn : Connection) (until later : ℕ)
      → lookup conn.id k.retry_after ≡ some until
      → later < until
      → is_due k conn later ≡ false
  unfolding is_due is_waiting
  not-due k conn until later w h =
      let early : ltb later until ≡ true = ground (arith, h) in rw (is_due, w) (rw early refl)

  -- A failure is not hammered: a connection that was due and whose sync was refused is not due again
  -- before a whole interval has passed, whatever the rest of the sweep does with the other connections.
  pub refused_waits :
      (now later : ℕ) (conn : Connection) (conns : List Connection) (w : W) (k : Worker)
      (s : Summary)
      → is_due k conn now ≡ true
      → (service.sync now conn w).0 ≡ refused
      → All (λ (c : Connection). str_eq c.id conn.id ≡ false) conns
      → later < now + k.interval_seconds
      → is_due (visit_all service now conns (visit service now conn (w, (k, s)))).1.0 conn later
        ≡ false
  refused_waits now later conn conns w k s d r others h =
      let st = visit service now conn (w, (k, s)) in
      not-due (visit_all service now conns st).1.0 conn (now + k.interval_seconds) later
        (visit_all-waits now conn conns st others ∙ visit-refused now conn w k s d r) h
