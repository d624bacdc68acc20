-- ===== src/Queue/Sync/Labels.antt =====
-- The second half of `_sync`: the labels set aside are written, a group in one call where the
-- provider can, and each becomes a row.
use autonomous_executive_ema.Base.{
  ℕ, ◌+◌, String, false, ◌&&◌, none, some, List, [], ◌∷◌, map, length, ltb, if◌then◌else◌,
}
use autonomous_executive_ema.Pipeline.{ProposedActionDraft}
use autonomous_executive_ema.Queue.{
  World, MessageRow, ActionRow, add_label, add_labels_batch, WriteResult, create, blank_row,
}
use autonomous_executive_ema.Queue.Execute.{call}
use autonomous_executive_ema.Queue.Sync.Propose.{
  Job, Groups, status_of, auto_outcome, executed_time,
}

abbrev pub Item : Type 0
Item = ProposedActionDraft × MessageRow

-- The results of a group, one for each item.
unfoldable pub call_each : Job → String → List Item → World → List (Item × WriteResult) × World
call_each job label [] w = ([], w)
call_each job label (item ∷ items) w =
    let (result, w') = call job.provider none (add_label item.0.email_id label) w in
    let (results, w'') = call_each job label items w' in ((item, result) ∷ results, w'')

unfoldable pub call_batch : Job → String → List Item → World → List (Item × WriteResult) × World
call_batch job label items w =
    let (result, w') =
      call job.provider none (add_labels_batch (map (λ i. i.0.email_id) items) label) w in
    (map (λ i. (i, result)) items, w')

abbrev pub auto_row : Job → String → Item × WriteResult → ℕ → ActionRow
auto_row job label (item, result) id =
    record (blank_row job.org_id item.1.id item.0.action_type (status_of result) false id) {
      content = item.0.content;
      escalate_to = item.0.escalate_to;
      label = some label;
      outcome = auto_outcome result;
      execution_ref = result.provider_ref;
      executed_at = executed_time result job.now;
    }

unfoldable pub create_each : Job → String → List (Item × WriteResult) → World → World
create_each job label [] w = w
create_each job label (r ∷ rs) w = create_each job label rs (create (auto_row job label r) w)

unfoldable pub apply_group : Job → String → List Item → World → World
apply_group job label items w =
    let (results, w') =
      if job.has_batch && ltb 1 (length items)
      then call_batch job label items w
      else call_each job label items w in
    create_each job label results w'

-- The world after the groups, and how many labels were applied.
unfoldable pub apply_labels : Job → Groups → World → World × ℕ
apply_labels job [] w = (w, 0)
apply_labels job ((label, items) ∷ groups) w =
    let (w', n) = apply_labels job groups (apply_group job label items w) in (w', length items + n)
