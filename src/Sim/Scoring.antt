-- ===== src/Sim/Scoring.antt =====
-- app/core/utils.py: the order of importance of the emails, and the scores of an order and of a reply.
use autonomous_executive_ema.Base.{
  ℕ, ◌+◌, String, not, Option, none, some, List, [], ◌∷◌, ◌++◌, map, keep, length, null, ltb, elem,
  truthy, if◌then◌else◌, or_default, ℤ, Floats, whole, hundredths, fmax, clip_score, count_if,
  contains, Dict, lookup, insert,
}
use autonomous_executive_ema.Models.{
  Level, high, low, medium, SenderRole, client, internal, vendor, unknown,
}
use autonomous_executive_ema.Policy.Ranking.{sort_by}
use autonomous_executive_ema.Sim.{EmailRecord, Settings}

-- The target of `seq_pred` and `seq_gold`: `index_gold[eid]`, where the last place of a repeated id counts.
unfoldable pub index_from : ℕ → List String → Dict ℕ → Dict ℕ
index_from i [] d = d
index_from i (x ∷ xs) d = index_from (i + 1) xs (insert x i d)

unfoldable pub places : Dict ℕ → List String → List ℕ
places d [] = []
places d (x ∷ xs) = elim (lookup x d) [ none ↦ places d xs | some i ↦ i ∷ places d xs ]

module _ (F : Floats) where
  -- `compute_gold_priority_order`.
  unfoldable pub importance_weight : SenderRole → F.Float
  importance_weight client = whole F 1
  importance_weight internal = hundredths F 70
  importance_weight vendor = hundredths F 50
  importance_weight unknown = hundredths F 30

  unfoldable pub hint_weight : Level → F.Float
  hint_weight high = whole F 1
  hint_weight medium = hundredths F 60
  hint_weight low = hundredths F 20

  unfoldable pub from_int : ℤ → F.Float
  from_int (ℤ.pos n) = whole F n
  from_int (ℤ.negsuc n) = F.neg (whole F (n + 1))

  unfoldable pub urgency_weight : Level → ℤ → F.Float
  urgency_weight hint deadline =
      let deadline_weight =
        fmax F (whole F 0) (F.sub (whole F 1) (F.div (from_int deadline) (whole F 240))) in
      F.add (F.mul (hundredths F 65) (hint_weight hint)) (F.mul (hundredths F 35) deadline_weight)

  unfoldable pub rank_value : EmailRecord → F.Float
  rank_value m =
      let urgency = urgency_weight m.priority_hint m.deadline_minutes in
      let importance = importance_weight m.sender_role in
      F.add
        (F.add (F.mul (hundredths F 45) urgency)
          (F.mul (hundredths F 30) (hundredths F m.business_value)))
        (F.mul (hundredths F 25) importance)

  unfoldable pub compute_gold_priority_order : List EmailRecord → List String
  compute_gold_priority_order ms =
      map (λ m. m.id) (sort_by (λ a b. F.lt (rank_value b) (rank_value a)) ms)

  -- `reply_keyword_score`.
  unfoldable pub reply_keyword_score : Settings F → Option String → List String → F.Float
  reply_keyword_score s reply_text keywords =
      let text = s.lower (or_default reply_text "") in
      let hits = count_if (λ kw. contains (s.lower kw) text) keywords in
      if null keywords
      then whole F 1
      else if not (truthy (or_default reply_text ""))
      then whole F 0
      else clip_score F (F.div (whole F hits) (whole F (length keywords)))

  -- `ranking_similarity`.
  unfoldable pub ranking_similarity : Settings F → List String → List String → F.Float
  ranking_similarity s predicted_order gold_order =
      let completed_order =
        predicted_order ++ keep (λ id. not (elem id predicted_order)) gold_order in
      let index_gold = index_from 0 gold_order [] in
      let seq_pred = places index_gold completed_order in
      let seq_gold = places index_gold gold_order in
      if null predicted_order
      then whole F 0
      else if ltb (length seq_pred) 2
      then whole F 0
      else elim (s.kendalltau seq_pred seq_gold) [
        | none ↦ whole F 0
        | some tau ↦ clip_score F (F.div (F.add tau (whole F 1)) (whole F 2))
      ]
