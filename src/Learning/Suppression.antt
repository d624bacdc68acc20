-- ===== src/Learning/Suppression.antt =====
-- What it takes for a pair of action type and sender role to be suppressed, and how far a decision
-- reaches back.
use autonomous_executive_ema.Base.{
  ℕ, ◌*◌, ◌≤◌, ◌≡◌, String, Bool, true, some, List, [], ◌∷◌, All, All-map, All-take, map, take,
  length, length-map, length-take, keep, keep_passes, truthy, arith, Bool-cases, inl, inr, ◌&&◌,
}
use autonomous_executive_ema.Policy.Ranking.{sort_by, sort_by-All}
use autonomous_executive_ema.Models.{ActionType, SenderRole}
use autonomous_executive_ema.Queue.{World, same_type}
use autonomous_executive_ema.Learning.{
  Decision, PairStats, accepted, pair_stats, is_suppressed, suppressed, list_decided,
  decision_window, Example, few_shot_examples, draft_body, is_accepted, edited_first,
}

-- A pair of action type and sender role is suppressed only when at least three proposals of it were
-- rejected, and four for each one that was approved or edited.
pub suppression_needs_rejections :
    (w : World) (org : String) (t : ActionType) (r : SenderRole) (s : PairStats)
    → suppressed w org t r ≡ some s
    → (3 ≤ s.rejected_count) × (4 * accepted s ≤ s.rejected_count)
unfolding suppressed
suppression_needs_rejections w org t r s h =
    elim (Bool-cases (is_suppressed (pair_stats t r (list_decided w org decision_window)))) [
      | inl b ↦
          let same : pair_stats t r (list_decided w org decision_window) ≡ s =
            ground (arith, rw (suppressed, b) at h) in
          let passes : is_suppressed s ≡ true = rw same at b in
          (ground (arith, passes), ground (arith, passes))
      | inr b ↦ ground (arith, rw (suppressed, b) at h)
    ]

-- At most `k` examples are given to the drafter, and none of them is blank.
pub examples_are_few :
    (w : World) (org : String) (t : ActionType) (k : ℕ)
    → (length (few_shot_examples w org t k) ≤ k)
      × All (λ e. truthy e.body ≡ true) (few_shot_examples w org t k)
unfolding few_shot_examples
examples_are_few w org t k = (
  rw (length-map to_example (take k ranked)) (length-take k ranked),
  mapped (take k ranked) (
      All-take Usable k ranked (
        sort_by-All edited_first Usable (keep test (list_decided w org decision_window)) (
          All-map (λ d. test d ≡ true) Usable (λ d h. ground (arith, h))
            (keep test (list_decided w org decision_window))
            (keep_passes test (list_decided w org decision_window))))),
)
  where
    to_example : Decision → Example
    to_example d = record { subject = d.subject; body = draft_body d }

    test : Decision → Bool
    test d =
        same_type t d.action.action_type && (is_accepted d.action.outcome && truthy (draft_body d))

    ranked : List Decision
    ranked = sort_by edited_first (keep test (list_decided w org decision_window))

    Usable : Decision → Type 0
    Usable d = truthy (draft_body d) ≡ true

    mapped :
        (ds : List Decision) → All Usable ds → All (λ e. truthy e.body ≡ true) (map to_example ds)
    mapped [] h = tt
    mapped (d ∷ ds) h = (h.0, mapped ds h.1)
