-- ===== src/Queue/Invariant.antt =====
-- The invariant of the queue: how the rows and the history of provider calls fit together.
pub mod Dispatch
pub mod Locate
pub mod Decisions
pub mod Retrying
pub mod Resending
pub mod Removing
pub mod Syncing
use autonomous_executive_ema.Base.{
  ℕ, ◌+◌, ◌≤◌, ◌<◌, ◌≡◌, refl, sym, true, false, Bool, ◌&&◌, ◌||◌, Option, none, some, String, List,
  [], ◌∷◌, ◌++◌, All, All-append, All-map, Pairs, Pairs-concat, any, count_if, is_some, arith, ◌==◌,
  ◌∙◌, ◌⊎◌, inl, inr, Bool-cases, if◌then◌else◌,
}
use autonomous_executive_ema.Queue.{
  World, ActionRow, Sent, Status, proposed, executed, failed, rejected, is_outbound_write, create,
}
use autonomous_executive_ema.Queue.Rows.{DistinctIds, Apart}
use autonomous_executive_ema.Queue.Counts.{
  deliveries-le-tries, tries, deliveries, is_try, is_delivery, is_for,
}

-- How often the provider may have been called for a row of the status.
abbrev pub Quota : Status → ℕ → List Sent → Type 0
Quota proposed id sent = tries id sent ≡ 0
Quota rejected id sent = tries id sent ≡ 0
Quota failed id sent = deliveries id sent ≡ 0
Quota executed id sent = deliveries id sent ≤ 1

pub record Fits (sent : List Sent) (r : ActionRow) : Type 0 where
  pub quota : Quota r.status r.id sent
  pub decided : (tries r.id sent ≡ 0) ⊎ (is_some r.decided_by ≡ true)

-- A row that a human decided, and that the call was made for.
abbrev pub is_backing : Sent → ActionRow → Bool
is_backing s r = is_for r.id s.row && is_some r.decided_by

-- The row may be in the table, or among those that were deleted.
abbrev pub Backed : List ActionRow → List ActionRow → Sent → Type 0
Backed gone rows s =
    (is_outbound_write s.write ≡ false)
    ⊎ ((any (is_backing s) rows ≡ true) ⊎ (any (is_backing s) gone ≡ true))

pub record Inv (gone rows : List ActionRow) (next_id : ℕ) (sent : List Sent) : Type 0 where
  pub distinct : DistinctIds rows
  pub below : All (λ r. r.id < next_id) rows
  pub fits : All (Fits sent) rows
  pub gone_below : All (λ r. r.id < next_id) gone
  pub backed : All (Backed gone rows) sent

abbrev pub Good : World → Type 0
Good w = Inv w.removed w.rows w.next_id w.sent

-- No call was made for an id that is not handed out yet.
none_backing :
    (s : Sent) (n : ℕ) (rows : List ActionRow)
    → All (λ r. r.id < n) rows
    → is_for n s.row ≡ true
    → any (is_backing s) rows ≡ false
unfolding any
none_backing s n [] h e = refl
none_backing s n (r ∷ rows) h e =
    let rest = none_backing s n rows h.1 e in
    elim (Bool-cases (is_for r.id s.row)) [
      | inl b ↦ absurd (clash s.row r.id n b e h.0)
      | inr b ↦ rw b rest
    ]
  where
    clash : (o : Option ℕ) (j n : ℕ) → is_for j o ≡ true → is_for n o ≡ true → j < n → ⊥
    clash none j n b e h = ground arith
    clash (some k) j n b e h = ground arith

pub tries_unused :
    (n : ℕ) (gone rows : List ActionRow) (sent : List Sent)
    → All (λ r. r.id < n) gone
    → All (λ r. r.id < n) rows
    → All (Backed gone rows) sent
    → tries n sent ≡ 0
unfolding tries count_if
tries_unused n gone rows [] g h k = refl
tries_unused n gone rows (s ∷ sent) g h k =
    let rest = tries_unused n gone rows sent g h k.1 in
    elim k.0 [
      | inl b ↦ ground (arith, b, rest)
      | inr b ↦ elim (Bool-cases (is_for n s.row)) [
        | inl e ↦ elim b [
          | inl c ↦ ground (arith, none_backing s n rows h e, c)
          | inr c ↦ ground (arith, none_backing s n gone g e, c)
        ]
        | inr e ↦ ground arith
      ]
    ]

any-concat :
    (p : ActionRow → Bool) (rows : List ActionRow) (r : ActionRow)
    → any p rows ≡ true
    → any p (rows ++ r ∷ []) ≡ true
unfolding any
any-concat p [] r h = ground arith
any-concat p (x ∷ rows) r h = elim (Bool-cases (p x)) [
  | inl b ↦ rw b refl
  | inr b ↦ rw b (any-concat p rows r (rw b at h))
]

Quota-unused :
    (t : Status) (n : ℕ) (sent : List Sent)
    → tries n sent ≡ 0
    → deliveries n sent ≡ 0
    → Quota t n sent
Quota-unused proposed n sent h k = h
Quota-unused rejected n sent h k = h
Quota-unused failed n sent h k = k
Quota-unused executed n sent h k = omega arith

-- A new row, of whatever status, keeps the invariant.
pub create-Good :
    (f : ℕ → ActionRow) (w : World) → (f w.next_id).id ≡ w.next_id → Good w → Good (create f w)
unfolding create
create-Good f w e g =
    let unused = tries_unused w.next_id w.removed w.rows w.sent g.gone_below g.below g.backed in
    let undelivered : deliveries w.next_id w.sent ≡ 0 =
      omega (arith, unused, deliveries-le-tries w.next_id w.sent) in
    record {
      distinct = Pairs-concat Apart w.rows (f w.next_id) g.distinct (
          All-map (λ r. r.id < w.next_id) (λ r. Apart r (f w.next_id)) (λ r h. rw e (ground arith))
            w.rows g.below);
      below =
          All-append (λ r. r.id < w.next_id + 1) w.rows (f w.next_id ∷ [])
            (All-map (λ r. r.id < w.next_id) (λ r. r.id < w.next_id + 1) (λ r h. omega arith) w.rows
              g.below)
            (rw e (omega arith), tt);
      fits = All-append (Fits w.sent) w.rows (f w.next_id ∷ []) g.fits (
        record {
          quota = rw e (Quota-unused (f w.next_id).status w.next_id w.sent unused undelivered);
          decided = inl (rw e unused);
        },
        tt,
      );
      gone_below =
          All-map (λ r. r.id < w.next_id) (λ r. r.id < w.next_id + 1) (λ r h. omega arith) w.removed
            g.gone_below;
      backed =
          All-map (Backed w.removed w.rows) (Backed w.removed (w.rows ++ f w.next_id ∷ []))
            (λ s b. elim b [
              | inl h ↦ inl h
              | inr (inl h) ↦ inr (inl (any-concat (is_backing s) w.rows (f w.next_id) h))
              | inr (inr h) ↦ inr (inr h)
            ])
            w.sent g.backed;
    }

-- Only the two counts of a row matter to its quota.
pub Quota-same :
    (t : Status) (j : ℕ) (old new : List Sent)
    → tries j new ≡ tries j old
    → deliveries j new ≡ deliveries j old
    → Quota t j old
    → Quota t j new
Quota-same proposed j old new h k q = h ∙ q
Quota-same rejected j old new h k q = h ∙ q
Quota-same failed j old new h k q = k ∙ q
Quota-same executed j old new h k q = omega (arith, k, q)
