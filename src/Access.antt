-- ===== src/Access.antt =====
-- Signed tokens of the SaaS layer and what they open: app/saas/tokens.py and its four users, the
-- sessions of app/saas/auth.py, the license keys of app/saas/licensing.py, the form tokens of
-- app/web/session.py and the connect states of app/saas/oauth.py. Times are seconds.
pub mod Tokens
pub mod Licenses
pub mod Sessions
pub mod Forms
pub mod Separation
use autonomous_executive_ema.Base.{String}

-- A value, or the error that is raised in its place.
pub data Result {ℓ} (E : Type 0) (A : Type ℓ) : Type ℓ where
  ok : A → Result E A
  err : E → Result E A
