-- ===== src/Queue/Sync/Spending.antt =====
-- What the proposals of one sync spend on the model, app/saas/sync_service.py and app/saas/llm_budget.py.
use autonomous_executive_ema.Base.{
  ℕ, ◌+◌, ◌≤◌, ◌<◌, ◌≡◌, String, true, false, some, List, [], ◌∷◌, str_eq, if◌then◌else◌,
}
use autonomous_executive_ema.Models.{ActionType}
use autonomous_executive_ema.Budget.{LlmBudget, Usage}
use autonomous_executive_ema.Enrich.{FetchedMessage}
use autonomous_executive_ema.Learning.{Example}
use autonomous_executive_ema.Pipeline.{ProposedActionDraft}
use autonomous_executive_ema.Queue.Sync.Draft.{Writer, Desk, Prose}
use autonomous_executive_ema.Queue.Sync.Propose.{Job, Round}

-- What the ledger shows for an organization.
unfoldable pub spend : String → List Usage → ℕ
spend org [] = 0
spend org (u ∷ us) = (if str_eq u.org_id org then u.cost_usd else 0) + spend org us

-- No call of the model costs more than `k`, and a verification that may not ask it costs nothing.
pub record Priced (wr : Writer) (k : ℕ) : Type 0 where
  pub drafts :
      (m : FetchedMessage) (p : ProposedActionDraft) (es : List Example) (prose : Prose) (cost : ℕ)
      → wr.draft m p es ≡ some (prose, cost)
      → cost ≤ k
  pub checks :
      (body : String) (m : FetchedMessage) (t : ActionType) → (wr.verify true body m t).cost_usd ≤ k
  pub offline :
      (body : String) (m : FetchedMessage) (t : ActionType)
      → (wr.verify false body m t).cost_usd ≡ 0

module _ (org : String) (limit old k : ℕ) where
  -- A desk whose budget is the ledger's, beside what is booked elsewhere, and is overshot by less than `k`.
  pub record Funded (d : Desk) : Type 0 where
    pub budget : LlmBudget
    pub found : d.budget ≡ some budget
    pub for_org : budget.org_id ≡ org
    pub capped : budget.limit_usd ≡ limit
    pub booked : spend org d.ledger ≡ old + budget.spent_usd
    pub under : budget.spent_usd < limit + k

  module _ (wr : Writer) (up : wr.ledger_up ≡ true) (priced : Priced wr k)
      (positive : 0 < limit) where
    module _ (job : Job) (writes : job.writer ≡ wr) where
      abbrev OnDesk : Round → Type 0
      OnDesk r = Funded r.desk
