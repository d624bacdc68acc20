-- ===== src/Queue/Invariant/Retrying.antt =====
-- The invariant of the queue under the attempts of a retry, app/saas/sync_service.py.
use autonomous_executive_ema.Base.{
  ℕ, ◌+◌, ◌≡◌, refl, ap, ◌∙◌, true, false, Bool, Option, String, List, [], ◌∷◌, All, All-both,
  All-map, Pairs, any, arith, ◌==◌, str_eq, ◌⊎◌, inl, inr, Bool-cases, Option-cases, is_some,
  if◌then◌else◌,
}
use autonomous_executive_ema.Queue.{
  World, ActionRow, MessageRow, Connection, MailProvider, WriteResult, Sent, get_message,
  get_connection, set_row,
}
use autonomous_executive_ema.Queue.Rows.{DistinctIds, Apart, KeepsId, set_row-All}
use autonomous_executive_ema.Queue.Execute.{execute}
use autonomous_executive_ema.Queue.Review.{audit}
use autonomous_executive_ema.Queue.Retry.{
  Summary, attempt, retry_one, retry_all, mark_broken, mark_recovered, mark_still_failing,
  is_broken,
}
use autonomous_executive_ema.Queue.Counts.{
  Dispatched, deliveries, execute-CallsOnce, CallsOnce-Dispatched, CallsOnce-tables,
}
use autonomous_executive_ema.Queue.Invariant.{Good}
use autonomous_executive_ema.Queue.Invariant.Dispatch.{
  Only, is_at, settled, KeepsDecision, after_dispatch, set_row-any,
}

-- A row that the organization decided.
abbrev pub Mine : String → ActionRow → Type 0
Mine org r = (str_eq r.org_id org ≡ true) × (is_some r.decided_by ≡ true)

-- A failed send that may be attempted.
pub record Pending (org : String) (rows : List ActionRow) (sent : List Sent) (a : ActionRow)
    : Type 0 where
  pub undelivered : deliveries a.id sent ≡ 0
  pub only : Only (Mine org) a.id rows
  pub there : any (is_at org a.id) rows ≡ true

-- An update after an attempt: the id, the organization and the decision stay.
record Attempted (ok : Bool) (f : ActionRow → ActionRow) : Type 0 where
  keeps : KeepsId f
  org : (r : ActionRow) → (f r).org_id ≡ r.org_id
  decision : (r : ActionRow) → (f r).decided_by ≡ r.decided_by
  settles : (r : ActionRow) → (f r).status ≡ settled ok

if-Attempted :
    (b : Bool) (f g : ActionRow → ActionRow)
    → Attempted true f
    → Attempted false g
    → Attempted b (if b then f else g)
if-Attempted true f g h k = h
if-Attempted false f g h k = k

abbrev mark_for : ℕ → ActionRow → WriteResult → ActionRow → ActionRow
mark_for now a result =
    if result.ok
    then mark_recovered now (a.retry_count + 1) result a
    else mark_still_failing (a.retry_count + 1) result

mark_for-Attempted :
    (now : ℕ) (a : ActionRow) (result : WriteResult) → Attempted result.ok (mark_for now a result)
unfolding mark_recovered mark_still_failing
mark_for-Attempted now a result =
    if-Attempted result.ok (mark_recovered now (a.retry_count + 1) result a)
      (mark_still_failing (a.retry_count + 1) result)
      record { keeps = λ r. refl; org = λ r. refl; decision = λ r. refl; settles = λ r. refl }
      record { keeps = λ r. refl; org = λ r. refl; decision = λ r. refl; settles = λ r. refl }

Attempted-KeepsDecision : (ok : Bool) (f : ActionRow → ActionRow) → Attempted ok f → KeepsDecision f
Attempted-KeepsDecision ok f h r = elim (Bool-cases (is_some r.decided_by)) [
  | inl b ↦ inr (ap is_some (h.decision r) ∙ b)
  | inr b ↦ inl b
]

-- What stays true of another failed send.
Pending-other :
    (org : String) (w : World) (a b : ActionRow) (ok : Bool) (new : List Sent)
    (f : ActionRow → ActionRow)
    → DistinctIds w.rows
    → Dispatched a.id ok w.sent new
    → Attempted ok f
    → (a.id == b.id) ≡ false
    → Pending org w.rows w.sent b
    → Pending org (set_row org a.id f w.rows) new b
Pending-other org w a b ok new f distinct d m apart p = record {
  undelivered = (d.others b.id apart).1 ∙ p.undelivered;
  only =
      set_row-All (λ r. ((r.id == b.id) ≡ false) ⊎ Mine org r)
        (λ r. ((r.id == b.id) ≡ false) ⊎ Mine org r) org a.id f
        (λ r q e o. elim q [
          | inl n ↦ inl (ap (λ i. i == b.id) (m.keeps r) ∙ n)
          | inr (i, j) ↦ inr (ap (λ s. str_eq s org) (m.org r) ∙ i, ap is_some (m.decision r) ∙ j)
        ])
        (λ r q e. q) w.rows distinct p.only;
  there =
      set_row-any org a.id f (is_at org b.id) (is_at org b.id) w.rows
        (λ r. elim (Bool-cases (is_at org b.id r)) [ inl e ↦ inr e | inr e ↦ inl e ])
        (λ r. elim (Bool-cases (is_at org b.id r)) [
          | inl e ↦ inr (rw (m.keeps r, m.org r) e)
          | inr e ↦ inl e
        ])
        p.there;
}

abbrev Stays : String → List ActionRow → World → Type 0
Stays org bs w = Good w × All (Pending org w.rows w.sent) bs

module _ (org : String) (now : ℕ) where
  attempt-Stays :
      (provider : MailProvider) (a : ActionRow) (m : MessageRow) (bs : List ActionRow) (w : World)
      (s : Summary)
      → Good w
      → Pending org w.rows w.sent a
      → All (Apart a) bs
      → All (Pending org w.rows w.sent) bs
      → Stays org bs (attempt provider now org a m (w, s)).0
  unfolding attempt audit
  attempt-Stays provider a m bs w s g p apart ps =
      let r = execute provider a m.provider_message_id org w in
      let once = execute-CallsOnce provider a m.provider_message_id org w in
      let dispatched = CallsOnce-Dispatched provider a.id w r once in
      let tables = CallsOnce-tables provider a.id w r once in
      let f = mark_for now a r.0 in
      let marks = mark_for-Attempted now a r.0 in
      (
        rw (tables.0, tables.1, tables.2)
            (after_dispatch org a.id r.0.ok (Mine org) f marks.keeps marks.settles
              (λ b q. ap is_some (marks.decision b) ∙ q.1) (λ b q. q.0) w.sent r.1.sent dispatched
              p.undelivered (Attempted-KeepsDecision r.0.ok f marks) w.removed w.rows w.next_id
              p.only p.there g),
        All-map (λ b. Apart a b × Pending org w.rows w.sent b)
            (Pending org (set_row org a.id f r.1.rows) r.1.sent)
            (λ b q.
              let other =
                Pending-other org w a b r.0.ok r.1.sent f g.distinct dispatched marks
                  (ground (arith, q.0)) q.1 in
              record {
                undelivered = other.undelivered;
                only = rw tables.0 other.only;
                there = rw tables.0 other.there;
              })
            bs (All-both (Apart a) (Pending org w.rows w.sent) bs apart ps),
      )

  mark_broken-Stays :
      (c : Connection) (bs : List ActionRow) (w : World)
      → Stays org bs w
      → Stays org bs (mark_broken c w)
  unfolding mark_broken audit
  mark_broken-Stays c bs w h = elim (Bool-cases (is_broken c.status)) [
    | inl b ↦ rw (mark_broken, b) h
    | inr b ↦ rw (mark_broken, b) h
  ]

  pub mark_broken-Good : (c : Connection) (w : World) → Good w → Good (mark_broken c w)
  mark_broken-Good c w g = (mark_broken-Stays c [] w (g, tt)).0

  retry_one-Stays :
      (build : Connection → Option MailProvider) (a : ActionRow) (bs : List ActionRow) (w : World)
      (s : Summary)
      → Good w
      → Pending org w.rows w.sent a
      → All (Apart a) bs
      → All (Pending org w.rows w.sent) bs
      → Stays org bs (retry_one build now org a (w, s)).0
  unfolding retry_one
  retry_one-Stays build a bs w s g p apart ps =
      elim (Option-cases (get_message org a.message_id w.messages)) [
        | inl e ↦ rw (retry_one, e) (g, ps)
        | inr (m, e) ↦ elim (Option-cases (get_connection org m.connection_id w.connections)) [
          | inl c ↦ rw (retry_one, e) (rw c (g, ps))
          | inr (k, c) ↦ elim (Option-cases (build k)) [
            | inl q ↦ rw (retry_one, e) (rw c (rw q (mark_broken-Stays k bs w (g, ps))))
            | inr (provider, q) ↦
                rw (retry_one, e) (rw c (rw q (attempt-Stays provider a m bs w s g p apart ps)))
          ]
        ]
      ]

  pub retry_all-Good :
      (build : Connection → Option MailProvider) (bs : List ActionRow) (ws : World × Summary)
      → Good ws.0
      → Pairs Apart bs
      → All (Pending org ws.0.rows ws.0.sent) bs
      → Good (retry_all build now org bs ws).0
  unfolding retry_all
  retry_all-Good build [] ws g d p = g
  retry_all-Good build (b ∷ bs) ws g d p =
      let (g', p') = retry_one-Stays build b bs ws.0 ws.1 g p.0 d.0 p.1 in
      retry_all-Good build bs (retry_one build now org b ws) g' d.1 p'
