-- ===== src/Queue/Invariant/Dispatch.antt =====
-- The invariant of the queue under one dispatch and the update of its row.
use autonomous_executive_ema.Base.{
  ℕ, ◌≤◌, ◌<◌, ◌≡◌, refl, true, false, Bool, ◌&&◌, some, String, List, [], ◌∷◌, All, All-both,
  All-map, any, ◌∙◌, is_some, arith, ◌==◌, str_eq, ◌⊎◌, inl, inr, Bool-cases, if◌then◌else◌,
}
use autonomous_executive_ema.Queue.{ActionRow, Sent, Status, executed, failed, set_row}
use autonomous_executive_ema.Queue.Rows.{KeepsId, set_row-All, set_row-DistinctIds}
use autonomous_executive_ema.Queue.Counts.{deliveries, Dispatched}
use autonomous_executive_ema.Queue.Invariant.{Inv, Fits, Quota, Quota-same, Backed, is_backing}

-- Of the rows, only those with `Q` have the id.
abbrev pub Only : (ActionRow → Type 0) → ℕ → List ActionRow → Type 0
Only Q id = All (λ r. ((r.id == id) ≡ false) ⊎ Q r)

abbrev pub is_at : String → ℕ → ActionRow → Bool
is_at org id r = r.id == id && str_eq r.org_id org

-- An update of a decided row leaves it decided.
abbrev pub KeepsDecision : (ActionRow → ActionRow) → Type 0
KeepsDecision f =
    (r : ActionRow) → (is_some r.decided_by ≡ false) ⊎ (is_some (f r).decided_by ≡ true)

any_weaker :
    (p q : ActionRow → Bool) (rows : List ActionRow)
    → ((r : ActionRow) → (p r ≡ false) ⊎ (q r ≡ true))
    → any p rows ≡ true
    → any q rows ≡ true
unfolding any
any_weaker p q [] k h = ground arith
any_weaker p q (r ∷ rows) k h = elim (k r) [
  | inl e ↦ elim (Bool-cases (q r)) [
    | inl b ↦ rw b refl
    | inr b ↦ rw b (any_weaker p q rows k (rw e at h))
  ]
  | inr e ↦ rw e refl
]

pub set_row-any :
    (org : String) (id : ℕ) (f : ActionRow → ActionRow) (p q : ActionRow → Bool)
    (rows : List ActionRow)
    → ((r : ActionRow) → (p r ≡ false) ⊎ (q r ≡ true))
    → ((r : ActionRow) → (p r ≡ false) ⊎ (q (f r) ≡ true))
    → any p rows ≡ true
    → any q (set_row org id f rows) ≡ true
unfolding set_row any
set_row-any org id f p q [] k m h = ground arith
set_row-any org id f p q (r ∷ rows) k m h = elim (Bool-cases (r.id == id && str_eq r.org_id org)) [
  | inl b ↦ rw b (elim (m r) [
    | inl e ↦ elim (Bool-cases (q (f r))) [
      | inl c ↦ rw c refl
      | inr c ↦ rw c (any_weaker p q rows k (rw e at h))
    ]
    | inr e ↦ rw e refl
  ])
  | inr b ↦ rw b (elim (k r) [
    | inl e ↦ elim (Bool-cases (q r)) [
      | inl c ↦ rw c refl
      | inr c ↦ rw c (set_row-any org id f p q rows k m (rw e at h))
    ]
    | inr e ↦ rw e refl
  ])
]

pub set_row-Backed :
    (org : String) (id : ℕ) (f : ActionRow → ActionRow) (s : Sent) (gone rows : List ActionRow)
    → KeepsId f
    → KeepsDecision f
    → Backed gone rows s
    → Backed gone (set_row org id f rows) s
set_row-Backed org id f s gone rows keeps keeps_decision (inl h) = inl h
set_row-Backed org id f s gone rows keeps keeps_decision (inr (inr h)) = inr (inr h)
set_row-Backed org id f s gone rows keeps keeps_decision (inr (inl h)) = inr (
    inl (
      set_row-any org id f (is_backing s) (is_backing s) rows
        (λ r. elim (Bool-cases (is_backing s r)) [ inl b ↦ inr b | inr b ↦ inl b ])
        (λ r. elim (keeps_decision r) [
          | inl e ↦ inl (rw e (ground arith))
          | inr e ↦ elim (Bool-cases (is_backing s r)) [
            | inl b ↦ inr (rw (keeps r, e) (ground (arith, b)))
            | inr b ↦ inl b
          ]
        ])
        h))

-- The update of the row with `id` makes the row back a call for it.
set_row-backing :
    (org : String) (id : ℕ) (f : ActionRow → ActionRow) (s : Sent) (P : ActionRow → Type 0)
    (rows : List ActionRow)
    → ((r : ActionRow) → P r → is_at org id r ≡ true → is_backing s (f r) ≡ true)
    → All P rows
    → any (is_at org id) rows ≡ true
    → any (is_backing s) (set_row org id f rows) ≡ true
unfolding set_row any
set_row-backing org id f s P [] k a h = ground arith
set_row-backing org id f s P (r ∷ rows) k a h =
    elim (Bool-cases (r.id == id && str_eq r.org_id org)) [
      | inl b ↦ rw b (rw (k r a.0 b) refl)
      | inr b ↦ rw b (elim (Bool-cases (is_backing s r)) [
        | inl c ↦ rw c refl
        | inr c ↦ rw c (set_row-backing org id f s P rows k a.1 (rw b at h))
      ])
    ]

-- The status that a dispatch leads to.
abbrev pub settled : Bool → Status
settled ok = if ok then executed else failed

module _ (org : String) (id : ℕ) (ok : Bool) (Q : ActionRow → Type 0) (f : ActionRow → ActionRow)
    (keeps : KeepsId f) (settles : (r : ActionRow) → (f r).status ≡ settled ok)
    (decides : (r : ActionRow) → Q r → is_some (f r).decided_by ≡ true)
    (in_org : (r : ActionRow) → Q r → str_eq r.org_id org ≡ true) where
  Quota-settled :
      (t : Status) (id : ℕ) (sent : List Sent)
      → t ≡ settled ok
      → deliveries id sent ≤ (if ok then 1 else 0)
      → Quota t id sent
  Quota-settled t id sent e h = elim (Bool-cases ok) [
    | inl b ↦ rw (e, b) (rw b at h)
    | inr b ↦ rw (e, b) (ground (arith, rw b at h))
  ]

  module _ (old new : List Sent) (d : Dispatched id ok old new)
      (undelivered : deliveries id old ≡ 0) where
    abbrev Before : ActionRow → Type 0
    Before r = Fits old r × (((r.id == id) ≡ false) ⊎ Q r)

    Fits-hit :
        (r : ActionRow)
        → Before r
        → (r.id == id) ≡ true
        → str_eq r.org_id org ≡ true
        → Fits new (f r)
    Fits-hit r (fit, only) e o = elim only [
      | inl h ↦ ground (arith, e, h)
      | inr q ↦
          let same : r.id ≡ id = ground (arith, e) in
          record {
            quota =
                Quota-settled (f r).status (f r).id new (settles r)
                  (rw (keeps r) (rw same (omega (arith, d.own, undelivered))));
            decided = inr (decides r q);
          }
    ]

    Fits-miss :
        (r : ActionRow) → Before r → (r.id == id && str_eq r.org_id org) ≡ false → Fits new r
    Fits-miss r (fit, only) e =
        let apart : (id == r.id) ≡ false = elim only [
          | inl h ↦ ground (arith, h)
          | inr q ↦ ground (arith, e, in_org r q)
        ] in
        let (h, k) = d.others r.id apart in
        record {
          quota = Quota-same r.status r.id old new h k fit.quota;
          decided = elim fit.decided [ inl t ↦ inl (h ∙ t) | inr t ↦ inr t ];
        }

    Backed-new :
        (rows : List ActionRow) (s : Sent)
        → s.row ≡ some id
        → All (λ r. ((r.id == id) ≡ false) ⊎ Q r) rows
        → any (is_at org id) rows ≡ true
        → any (is_backing s) (set_row org id f rows) ≡ true
    Backed-new rows s e only h =
        set_row-backing org id f s (λ r. ((r.id == id) ≡ false) ⊎ Q r) rows
          (λ r q b. elim q [
            | inl n ↦ ground (arith, n, b)
            | inr q ↦ rw (e, keeps r, decides r q) (ground (arith, b))
          ])
          only h

    Backed-All :
        (keeps_decision : KeepsDecision f) (gone rows : List ActionRow)
        → All (λ r. ((r.id == id) ≡ false) ⊎ Q r) rows
        → any (is_at org id) rows ≡ true
        → All (Backed gone rows) old
        → All (Backed gone (set_row org id f rows)) new
    Backed-All keeps_decision gone rows only h backed =
        let kept =
          All-map (Backed gone rows) (Backed gone (set_row org id f rows))
            (λ s. set_row-Backed org id f s gone rows keeps keeps_decision) old backed in
        elim d.added [
          | inl e ↦ rw e kept
          | inr (s, (e, grown)) ↦ rw grown (inr (inl (Backed-new rows s e only h)), kept)
        ]

    pub after_dispatch :
        (keeps_decision : KeepsDecision f) (gone rows : List ActionRow) (n : ℕ)
        → All (λ r. ((r.id == id) ≡ false) ⊎ Q r) rows
        → any (is_at org id) rows ≡ true
        → Inv gone rows n old
        → Inv gone (set_row org id f rows) n new
    after_dispatch keeps_decision gone rows n only h i = record {
      distinct = set_row-DistinctIds org id f keeps rows i.distinct;
      below =
          set_row-All (λ r. r.id < n) (λ r. r.id < n) org id f (λ r p e o. rw (keeps r) p)
            (λ r p e. p) rows i.distinct i.below;
      fits =
          set_row-All Before (Fits new) org id f Fits-hit Fits-miss rows i.distinct
            (All-both (Fits old) (λ r. ((r.id == id) ≡ false) ⊎ Q r) rows i.fits only);
      gone_below = i.gone_below;
      backed = Backed-All keeps_decision gone rows only h i.backed;
    }
