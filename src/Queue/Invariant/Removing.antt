-- ===== src/Queue/Invariant/Removing.antt =====
-- The invariant of the queue when rows of it are deleted.
use autonomous_executive_ema.Base.{
  ◌<◌, ◌≡◌, refl, true, Bool, not, List, [], ◌∷◌, ◌++◌, All-map, All-append, All-keep, Pairs-keep,
  keep, any, ◌⊎◌, inl, inr, Bool-cases,
}
use autonomous_executive_ema.Queue.{World, ActionRow, remove_rows}
use autonomous_executive_ema.Queue.Rows.{Apart}
use autonomous_executive_ema.Queue.Invariant.{Good, Fits, Backed, is_backing}

-- What is found in a list is found among what is kept of it, or among the rest and more.
any-keep :
    (p q : ActionRow → Bool) (rows gone : List ActionRow)
    → (any p rows ≡ true) ⊎ (any p gone ≡ true)
    → (any p (keep (λ r. not (q r)) rows) ≡ true) ⊎ (any p (keep q rows ++ gone) ≡ true)
unfolding any keep
any-keep p q [] gone h = h
any-keep p q (r ∷ rows) gone h =
    let rest = any-keep p q rows gone in
    elim (Bool-cases (q r)) [
      | inl b ↦
          rw b
            (elim (Bool-cases (p r)) [ inl c ↦ inr (rw c refl) | inr c ↦ rw c (rest (rw c at h)) ])
      | inr b ↦
          rw b
            (elim (Bool-cases (p r)) [ inl c ↦ inl (rw c refl) | inr c ↦ rw c (rest (rw c at h)) ])
    ]

pub remove_rows-Good : (p : ActionRow → Bool) (w : World) → Good w → Good (remove_rows p w)
unfolding remove_rows
remove_rows-Good p w g = record {
  distinct = Pairs-keep Apart (λ r. not (p r)) w.rows g.distinct;
  below = All-keep (λ r. r.id < w.next_id) (λ r. not (p r)) w.rows g.below;
  fits = All-keep (Fits w.sent) (λ r. not (p r)) w.rows g.fits;
  gone_below =
      All-append (λ r. r.id < w.next_id) (keep p w.rows) w.removed
        (All-keep (λ r. r.id < w.next_id) p w.rows g.below) g.gone_below;
  backed =
      All-map (Backed w.removed w.rows)
        (Backed (keep p w.rows ++ w.removed) (keep (λ r. not (p r)) w.rows))
        (λ s b. elim b [
          | inl h ↦ inl h
          | inr h ↦ inr (any-keep (is_backing s) p w.rows w.removed h)
        ])
        w.sent g.backed;
}
