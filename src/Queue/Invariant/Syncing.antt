-- ===== src/Queue/Invariant/Syncing.antt =====
-- The invariant of the queue under a sync, and the outbound calls counted over one.
use autonomous_executive_ema.Base.{
  ℕ, ◌≡◌, refl, ◌∙◌, false, Bool, ◌&&◌, none, String, List, [], ◌∷◌, All-map, arith, ltb, length,
  inl, inr, Bool-cases, Option-cases, Dict, lookup, count_if,
}
use autonomous_executive_ema.Models.{ActionType, SenderRole, defer}
use autonomous_executive_ema.Learning.{PairStats}
use autonomous_executive_ema.Pipeline.{ProposedActionDraft}
use autonomous_executive_ema.Budget.{Usage}
use autonomous_executive_ema.Queue.{
  World, ActionRow, MessageRow, Connection, MailProvider, Write, add_label, Sent, is_outbound_write,
  WriteResult, create, type_in, active_types_for_message,
}
use autonomous_executive_ema.Queue.Execute.{call}
use autonomous_executive_ema.Queue.Review.{Result-cases, audit}
use autonomous_executive_ema.Queue.Counts.{tries_label}
use autonomous_executive_ema.Queue.Sync.{
  SyncInput, run_sync, sync, syncable, store_messages, start, job_for, desk_for, proposals_for,
}
use autonomous_executive_ema.Queue.Sync.Draft.{Prose}
use autonomous_executive_ema.Queue.Sync.Propose.{
  Job, Round, Groups, downgrade, hold, set_aside, route, propose_one, propose_all, role_of,
  deferred_row,
}
use autonomous_executive_ema.Queue.Sync.Labels.{
  Item, call_each, call_batch, auto_row, create_each, apply_group, apply_labels,
}
use autonomous_executive_ema.Queue.Invariant.{Good, Fits, create-Good, Quota-same}

abbrev pub is_outbound_call : Sent → Bool
is_outbound_call s = is_outbound_write s.write

-- The number of outbound calls ever made.
unfoldable pub outbound : List Sent → ℕ
outbound sent = count_if is_outbound_call sent

-- The invariant, with `n` outbound calls made.
abbrev pub Calm : ℕ → World → Type 0
Calm n w = Good w × (outbound w.sent ≡ n)

Fits-label :
    (s : Sent) (sent : List Sent)
    → is_outbound_write s.write ≡ false
    → (r : ActionRow) → Fits sent r
    → Fits (s ∷ sent) r
Fits-label s sent e r fit =
    let (h, k) = tries_label r.id s sent e in
    record {
      quota = Quota-same r.status r.id sent (s ∷ sent) h k fit.quota;
      decided = elim fit.decided [ inl t ↦ inl (h ∙ t) | inr t ↦ inr t ];
    }

call-Calm :
    (provider : MailProvider) (write : Write) (w : World) (n : ℕ)
    → is_outbound_write write ≡ false
    → Calm n w
    → Calm n (call provider none write w).1
unfolding call outbound count_if
call-Calm provider write w n e (g, c) = (
  record {
    distinct = g.distinct;
    below = g.below;
    fits =
        All-map (Fits w.sent) (Fits (call provider none write w).1.sent) (Fits-label _ w.sent e)
          w.rows g.fits;
    gone_below = g.gone_below;
    backed = (inl e, g.backed);
  },
  ground (arith, e, c),
)

create-Calm :
    (f : ℕ → ActionRow) (w : World) (n : ℕ)
    → (f w.next_id).id ≡ w.next_id
    → Calm n w
    → Calm n (create f w)
unfolding create
create-Calm f w n e (g, c) = (create-Good f w e g, c)

module _ (job : Job) (n : ℕ) where
  downgrade-Calm :
      (p : ProposedActionDraft) (m : MessageRow) (role : SenderRole) (stats : PairStats) (r : Round)
      → Calm n r.world
      → Calm n (downgrade job p m role stats r).world
  unfolding downgrade
  downgrade-Calm p m role stats r h =
      let result = call job.provider none (add_label p.email_id "deferred") r.world in
      create-Calm (deferred_row job p m role stats result.0) result.1 n refl
        (call-Calm job.provider (add_label p.email_id "deferred") r.world n refl h)

  hold-Calm :
      (p : ProposedActionDraft) (m : MessageRow) (r : Round)
      → Calm n r.world
      → Calm n (hold job p m r).world
  unfolding hold
  hold-Calm p m r h = create-Calm _ r.world n refl h

  route-Calm :
      (p : ProposedActionDraft) (m : MessageRow) (active : List ActionType) (r : Round)
      → Calm n r.world
      → Calm n (route job p m active r).world
  unfolding route set_aside
  route-Calm p m active r h = elim (Bool-cases (type_in p.action_type active)) [
    | inl b ↦ rw (route, b) h
    | inr b ↦ elim (Bool-cases p.requires_approval) [
      | inl a ↦
          elim (Option-cases
            (job.suppressed p.action_type (role_of (lookup p.email_id job.signals_by_id)))) [
              | inl s ↦ rw (route, b) (rw a (rw s (hold-Calm p m r h)))
              | inr (stats, s) ↦ elim (Bool-cases (type_in defer active)) [
                | inl d ↦ rw (route, b) (rw a (rw s (rw d h)))
                | inr d ↦ rw (route, b) (rw a (rw s (rw d (downgrade-Calm p m _ stats r h))))
              ]
            ]
      | inr a ↦ rw (route, b) (rw a h)
    ]
  ]

  propose_one-Calm :
      (p : ProposedActionDraft) (r : Round) → Calm n r.world → Calm n (propose_one job p r).world
  unfolding propose_one
  propose_one-Calm p r h = elim (Option-cases (lookup p.email_id job.row_by_provider_id)) [
    | inl e ↦ rw (propose_one, e) h
    | inr (m, e) ↦
        rw (propose_one, e)
          (route-Calm p m (active_types_for_message job.org_id m.id r.world.rows) r h)
  ]

  propose_all-Calm :
      (ps : List ProposedActionDraft) (r : Round)
      → Calm n r.world
      → Calm n (propose_all job ps r).world
  unfolding propose_all
  propose_all-Calm [] r h = h
  propose_all-Calm (p ∷ ps) r h = propose_all-Calm ps (propose_one job p r) (propose_one-Calm p r h)

  call_each-Calm :
      (label : String) (items : List Item) (w : World)
      → Calm n w
      → Calm n (call_each job label items w).1
  unfolding call_each
  call_each-Calm label [] w h = h
  call_each-Calm label (i ∷ items) w h =
      call_each-Calm label items (call job.provider none (add_label i.0.email_id label) w).1
        (call-Calm job.provider (add_label i.0.email_id label) w n refl h)

  create_each-Calm :
      (label : String) (rs : List (Item × WriteResult)) (w : World)
      → Calm n w
      → Calm n (create_each job label rs w)
  unfolding create_each
  create_each-Calm label [] w h = h
  create_each-Calm label (r ∷ rs) w h =
      create_each-Calm label rs (create (auto_row job label r) w)
        (create-Calm (auto_row job label r) w n refl h)

  apply_group-Calm :
      (label : String) (items : List Item) (w : World)
      → Calm n w
      → Calm n (apply_group job label items w)
  unfolding apply_group call_batch
  apply_group-Calm label items w h = elim (Bool-cases (job.has_batch && ltb 1 (length items))) [
    | inl b ↦ rw (apply_group, b) (create_each-Calm label _ _ (call-Calm job.provider _ w n refl h))
    | inr b ↦ rw (apply_group, b) (create_each-Calm label _ _ (call_each-Calm label items w h))
  ]

  apply_labels-Calm :
      (groups : Groups) (w : World) → Calm n w → Calm n (apply_labels job groups w).0
  unfolding apply_labels
  apply_labels-Calm [] w h = h
  apply_labels-Calm (g ∷ groups) w h =
      apply_labels-Calm groups (apply_group job g.0 g.1 w) (apply_group-Calm g.0 g.1 w h)

run_sync-Calm :
    (i : SyncInput) (c : Connection) (cache : Dict Prose) (ledger : List Usage) (w : World) (n : ℕ)
    → Calm n w
    → Calm n (run_sync i c cache ledger w).1
unfolding run_sync store_messages start audit
run_sync-Calm i c cache ledger w n h =
    let stored = store_messages i c.account_email w in
    let job = job_for i c.account_email w stored.0 stored.1.0 in
    let round =
      propose_all job (proposals_for i c.account_email)
        (start stored.0 (desk_for i cache ledger)) in
    apply_labels-Calm job n round.auto_by_label round.world (
      propose_all-Calm job n (proposals_for i c.account_email)
        (start stored.0 (desk_for i cache ledger)) h)

pub sync-Calm :
    (i : SyncInput) (cache : Dict Prose) (ledger : List Usage) (w : World) (n : ℕ)
    → Calm n w
    → Calm n (sync i cache ledger w).1
unfolding sync
sync-Calm i cache ledger w n h = elim (Result-cases (syncable i w)) [
  | inl (x, p) ↦ rw (sync, p) h
  | inr (c, p) ↦ rw (sync, p) (run_sync-Calm i c cache ledger w n h)
]
