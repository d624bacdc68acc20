-- ===== src/Lib.antt =====
-- The core of the executive email copilot: the policy that turns an inbox into proposed actions, and
-- the approval queue that stands between those proposals and the mail provider.
--
-- The program fetches messages, infers signals from them (app/copilot/enrich.py), runs a deterministic
-- policy over the result (app/copilot/policy.py, app/copilot/pipeline.py) and stores what the policy
-- proposes (app/saas/sync_service.py over app/saas/repository.py). Labels are applied at once; a reply
-- or an escalation waits for a person, who approves, edits or rejects it. A background task retries the
-- approved writes that failed. Around this stand the license that an organization needs
-- (app/saas/billing.py), the budget for the language model (app/saas/llm_budget.py), the feedback that
-- suppresses unwanted proposals (app/saas/learning.py), the members of an organization
-- (app/saas/org_service.py), the signed tokens of sessions, links, forms and license keys
-- (app/saas/tokens.py), the background worker that syncs and retries (app/saas/sync_worker.py), the
-- deletion of an organization (app/saas/data_lifecycle.py) and the circuit breaker before a model
-- provider (app/llm/providers/circuit_breaker.py). A simulator with a grader (research/sim) measures the
-- policies on generated scenarios.
--
-- Files and the code that they model:
--   Base            Python's lists, strings and dictionaries, as far as the sources use them
--   Models          app/core/models.py: the literal types and the models of an observation
--   Policy          app/copilot/policy.py: BaselinePolicy.next_action; Policy.Classifier is
--                   classify_heuristic of app/core/utils.py, Policy.Ranking the two sort keys
--   Policy.Hybrid   app/copilot/policy.py: Executor and HybridPolicy, with the planner of
--                   app/llm/policy.py
--   Pipeline        app/copilot/pipeline.py: run_policy and to_proposals; Pipeline.Plan is a
--                   description of run_policy with no state, Pipeline.Refinement relates the two
--   Enrich          app/copilot/enrich.py; Enrich.Patterns is the search for a compiled term
--   Billing         app/saas/billing.py and LicenseRepository
--   Budget          app/saas/llm_budget.py
--   Learning        app/saas/learning.py
--   Members         app/saas/rbac.py, app/saas/org_service.py and UserRepository
--   Circuit         app/llm/providers/circuit_breaker.py
--   Requests        app/core/approval.py: the store of approval requests and their expiry
--   Sim             research/sim/environment.py: the simulated mailbox, with the helpers of
--                   app/core/utils.py; Sim.Actions holds the handlers, Sim.Steps the step,
--                   Sim.Metrics the metrics, Sim.Safety app/llm/safety, and Sim.Grader
--                   research/sim/grader.py
--   Queue           the rows of app/saas/models_db.py and the methods of app/saas/repository.py that
--                   the sync service calls; Queue.Sync is _sync, Queue.Execute _execute, Queue.Review
--                   _approve and reject, Queue.Retry retry_failed_sends, Queue.Commitments the
--                   recording of promises; Queue.Trail is a run of all of these, with mailboxes
--                   that break or are disconnected and actions that are deleted
--   Access          signed tokens and what they open: Access.Tokens is app/saas/tokens.py,
--                   Access.Licenses app/saas/licensing.py, Access.Sessions app/saas/auth.py,
--                   Access.Forms app/web/session.py and the states of app/saas/oauth.py
--   Security        app/core/security.py
--   Worker          app/saas/sync_worker.py; Worker.Queueing connects it to the queue
--   Lifecycle       app/saas/data_lifecycle.py and the purge of app/saas/sandbox.py
--   Mailboxes       disconnecting a mailbox (app/saas/mailbox.py, app/saas/repository.py)
--   Contacts        EscalationContactRepository of app/saas/repository.py
--   Tests           concrete inputs
--
-- A World holds the tables and, beside them, two histories that the program does not store: the provider
-- calls with their results, each with the action that it was made for, and the actions that were deleted.
-- The mail provider is a function of the first, so a backend may answer the same call differently each
-- time. An operation is a function
-- on worlds, with a result that is a value or an error; each session of the database is one step.
-- Records keep the names of the columns; of a row only the columns that the modelled code reads or
-- writes are kept, and of a draft not the confidence of the model. Ids of actions are numbers from a
-- counter, times are numbers, money is counted in a small unit, a business value in hundredths.
--
-- Parameters, as code outside the sources or code that is not modelled: the mail and the model providers, the drafter, the verifier
-- and the extractor of promises (an answer where they raise), hashes, Unicode's tables of letters, the
-- configured classifier terms, the reading of a clock; base64, JSON, HMAC and the hashing of
-- passwords. Of the simulator also the scenario, the settings file, the search of the safety patterns,
-- the rank correlation, the formatting of numbers, and the operations of floats (Base.Numeric): what
-- is said of floats holds for any comparison that is asymmetric, as that of IEEE 754 is, and for a
-- rounding that keeps the bounds.
--
-- Loops are recursion on their lists. run_policy has the cap of the source, 4n + 8 rounds for n messages.
--
-- Not modelled: the prompts and the reading of a model's answers, the scenarios of the simulator, the
-- web pages and routes, sign-up and the connection of a mailbox, single sign-on and cryptography, the
-- mail and model clients, the threads, the disk cache of drafts and the logging. Concurrent requests
-- are not modelled: operations follow one another.
pub mod Base
pub mod Models
pub mod Policy
pub mod Pipeline
pub mod Enrich
pub mod Billing
pub mod Queue
pub mod Learning
pub mod Budget
pub mod Members
pub mod Circuit
pub mod Requests
pub mod Sim
pub mod Access
pub mod Security
pub mod Worker
pub mod Lifecycle
pub mod Mailboxes
pub mod Contacts
mod Tests
