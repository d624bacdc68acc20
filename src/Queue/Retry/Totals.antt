-- ===== src/Queue/Retry/Totals.antt =====
-- The summary that a retry of failed sends returns.
use autonomous_executive_ema.Base.{
  ℕ, ◌+◌, ◌≤◌, ◌≡◌, String, Option, List, [], ◌∷◌, length, length-take, keep, arith, inl, inr,
  Option-cases,
}
use autonomous_executive_ema.Policy.Ranking.{sort_by}
use autonomous_executive_ema.Queue.{
  World, ActionRow, MessageRow, Connection, MailProvider, get_message, get_connection,
  list_failed_sends, decided_before, is_failed_send,
}
use autonomous_executive_ema.Queue.Retry.{
  Summary, empty_summary, attempt, retry_one, retry_all, retry_failed_sends,
}

-- The counts add up, and at most `n` attempts were made.
abbrev Fair : ℕ → Summary → Type 0
Fair n s = (s.attempted ≡ s.recovered + s.still_failing) × (s.attempted ≤ n)

Fair-attempt :
    (provider : MailProvider) (now : ℕ) (org : String) (a : ActionRow) (m : MessageRow) (w : World)
    (s : Summary) (n : ℕ)
    → Fair n s
    → Fair (n + 1) (attempt provider now org a m (w, s)).1
unfolding attempt
Fair-attempt provider now org a m w s n (e, b) = (ground (arith, e), ground (arith, b))

Fair-retry_one :
    (build : Connection → Option MailProvider) (now : ℕ) (org : String) (a : ActionRow) (w : World)
    (s : Summary) (n : ℕ)
    → Fair n s
    → Fair (n + 1) (retry_one build now org a (w, s)).1
unfolding retry_one
Fair-retry_one build now org a w s n h =
    let kept : Fair (n + 1) s = (h.0, omega (arith, h.1)) in
    elim (Option-cases (get_message org a.message_id w.messages)) [
      | inl e ↦ rw (retry_one, e) kept
      | inr (m, e) ↦ elim (Option-cases (get_connection org m.connection_id w.connections)) [
        | inl c ↦ rw (retry_one, e) (rw c kept)
        | inr (k, c) ↦ elim (Option-cases (build k)) [
          | inl q ↦ rw (retry_one, e) (rw c (rw q kept))
          | inr (provider, q) ↦
              rw (retry_one, e) (rw c (rw q (Fair-attempt provider now org a m w s n h)))
        ]
      ]
    ]

Fair-retry_all :
    (build : Connection → Option MailProvider) (now : ℕ) (org : String) (rows : List ActionRow)
    (ws : World × Summary) (n : ℕ)
    → Fair n ws.1
    → Fair (n + length rows) (retry_all build now org rows ws).1
unfolding retry_all
Fair-retry_all build now org [] ws n h = (h.0, omega (arith, h.1))
Fair-retry_all build now org (a ∷ rows) ws n h =
    let rest =
      Fair-retry_all build now org rows (retry_one build now org a ws) (n + 1)
        (Fair-retry_one build now org a ws.0 ws.1 n h) in
    (rest.0, omega (arith, rest.1))

-- A retry attempts at most 50 sends, and each attempt is counted either as recovered or as still
-- failing.
pub retry_failed_sends-totals :
    (build : Connection → Option MailProvider) (now : ℕ) (org : String) (max_retries : ℕ)
    (w : World)
    → ((retry_failed_sends build now org max_retries w).1.attempted
        ≡ (retry_failed_sends build now org max_retries w).1.recovered
          + (retry_failed_sends build now org max_retries w).1.still_failing)
      × ((retry_failed_sends build now org max_retries w).1.attempted ≤ 50)
unfolding retry_failed_sends list_failed_sends
retry_failed_sends-totals build now org max_retries w =
    let listed = list_failed_sends org max_retries w.rows in
    let few : length listed ≤ 50 =
      length-take 50 (sort_by decided_before (keep (is_failed_send org max_retries) w.rows)) in
    let all = Fair-retry_all build now org listed (w, empty_summary) 0 (omega arith, omega arith) in
    (all.0, omega (arith, all.1, few))
