-- ===== src/Queue/Invariant/Resending.antt =====
-- The invariant of the queue under a whole retry, and the failed sends that it lists.
use autonomous_executive_ema.Base.{
  ℕ, ◌≡◌, true, false, Option, String, List, [], ◌∷◌, All, All-both, All-map, All-take, All-keep,
  keep_passes, Pairs-take, Pairs-keep, keep, any, arith, str_eq, ◌⊎◌, inl, inr, Bool-cases,
}
use autonomous_executive_ema.Policy.Ranking.{sort_by, sort_by-All, sort_by-Pairs}
use autonomous_executive_ema.Queue.{
  World, ActionRow, Connection, MailProvider, Sent, Status, proposed, executed, failed, rejected,
  is_failed, is_failed_send, list_failed_sends, decided_before,
}
use autonomous_executive_ema.Queue.Rows.{DistinctIds, Apart}
use autonomous_executive_ema.Queue.Retry.{empty_summary, retry_failed_sends}
use autonomous_executive_ema.Queue.Counts.{deliveries}
use autonomous_executive_ema.Queue.Invariant.{Good, Fits, Quota}
use autonomous_executive_ema.Queue.Invariant.Dispatch.{is_at}
use autonomous_executive_ema.Queue.Invariant.Locate.{Alone, DistinctIds-Alone, Alone-Only}
use autonomous_executive_ema.Queue.Invariant.Retrying.{Mine, Pending, retry_all-Good}

-- The failed sends that are listed may all be attempted.
at_itself :
    (org : String) (rows : List ActionRow)
    → All (λ a. (str_eq a.org_id org ≡ false) ⊎ (any (is_at org a.id) rows ≡ true)) rows
unfolding any
at_itself org [] = tt
at_itself org (r ∷ rows) = (
  elim (Bool-cases (str_eq r.org_id org)) [ inl b ↦ inr (rw b (ground arith)) | inr b ↦ inl b ],
  All-map (λ a. (str_eq a.org_id org ≡ false) ⊎ (any (is_at org a.id) rows ≡ true))
      (λ a. (str_eq a.org_id org ≡ false) ⊎ (any (is_at org a.id) (r ∷ rows) ≡ true))
      (λ a h. elim h [ inl e ↦ inl e | inr e ↦ inr (ground (arith, e)) ]) rows (at_itself org rows),
)

undelivered_failed :
    (sent : List Sent) (a : ActionRow)
    → is_failed a.status ≡ true
    → Fits sent a
    → deliveries a.id sent ≡ 0
undelivered_failed sent a e fit = go a.status e fit.quota
  where
    go : (t : Status) → is_failed t ≡ true → Quota t a.id sent → deliveries a.id sent ≡ 0
    go failed e q = q
    go executed e q = ground arith
    go proposed e q = ground arith
    go rejected e q = ground arith

module _ (org : String) (max_retries : ℕ) (w : World) (g : Good w) where
  abbrev Known : ActionRow → Type 0
  Known a =
      (Fits w.sent a × Alone w.rows a)
      × ((str_eq a.org_id org ≡ false) ⊎ (any (is_at org a.id) w.rows ≡ true))

  Known-Pending :
      (a : ActionRow)
      → (is_failed_send org max_retries a ≡ true) × Known a
      → Pending org w.rows w.sent a
  Known-Pending a (passes, ((fit, alone), there)) = record {
    undelivered = undelivered_failed w.sent a (ground (arith, passes)) fit;
    only = Alone-Only (Mine org) a w.rows (ground (arith, passes), ground (arith, passes)) alone;
    there = elim there [ inl e ↦ ground (arith, passes, e) | inr e ↦ e ];
  }

  Pending-All : All (Pending org w.rows w.sent) (list_failed_sends org max_retries w.rows)
  unfolding list_failed_sends
  Pending-All =
      All-take (Pending org w.rows w.sent) 50
        (sort_by decided_before (keep (is_failed_send org max_retries) w.rows))
        (sort_by-All decided_before (Pending org w.rows w.sent)
          (keep (is_failed_send org max_retries) w.rows)
          (All-map (λ a. (is_failed_send org max_retries a ≡ true) × Known a)
            (Pending org w.rows w.sent) Known-Pending (keep (is_failed_send org max_retries) w.rows)
            (All-both (λ a. is_failed_send org max_retries a ≡ true) Known
              (keep (is_failed_send org max_retries) w.rows)
              (keep_passes (is_failed_send org max_retries) w.rows)
              (All-keep Known (is_failed_send org max_retries) w.rows (
                All-both (λ a. Fits w.sent a × Alone w.rows a)
                  (λ a. (str_eq a.org_id org ≡ false) ⊎ (any (is_at org a.id) w.rows ≡ true)) w.rows
                  (All-both (Fits w.sent) (Alone w.rows) w.rows g.fits
                    (DistinctIds-Alone w.rows g.distinct))
                  (at_itself org w.rows))))))

  apart_all : DistinctIds (list_failed_sends org max_retries w.rows)
  unfolding list_failed_sends
  apart_all =
      Pairs-take Apart 50 (sort_by decided_before (keep (is_failed_send org max_retries) w.rows)) (
        sort_by-Pairs decided_before Apart (λ a b h. ground (arith, h))
          (keep (is_failed_send org max_retries) w.rows)
          (Pairs-keep Apart (is_failed_send org max_retries) w.rows g.distinct))

  pub retry_failed_sends-Good :
      (build : Connection → Option MailProvider) (now : ℕ)
      → Good (retry_failed_sends build now org max_retries w).0
  unfolding retry_failed_sends
  retry_failed_sends-Good build now =
      retry_all-Good org now build (list_failed_sends org max_retries w.rows) (w, empty_summary) g
        apart_all Pending-All
