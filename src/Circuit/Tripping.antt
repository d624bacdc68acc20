-- ===== src/Circuit/Tripping.antt =====
-- When the circuit breaker cuts off the first provider.
use autonomous_executive_ema.Base.{
  ℕ, zero, suc, ◌+◌, ◌<◌, ◌≡◌, refl, false, String, Option, none, arith, leb,
}
use autonomous_executive_ema.Circuit.{opened, Breaker, is_available, raised, Provider, generate}

-- The breaker after `n` calls at the times `clock` in which the first provider raises and there is no
-- second one.
unfoldable pub outage : (ℕ → ℕ) → ℕ → Breaker → Breaker
outage clock zero b = b
outage clock (suc n) b = (generate (clock n) (clock n) (λ r. raised) none "" (outage clock n b)).1

-- While the breaker is open and its timeout has not passed, the first provider is not asked: the
-- result is the same for any other one.
pub opened_cuts_off :
    (now later : ℕ) (primary other : Provider) (secondary : Option Provider) (req : String)
    (b : Breaker)
    → b.state ≡ opened
    → now < b.last_failure_time + b.recovery_timeout
    → generate now later primary secondary req b ≡ generate now later other secondary req b
unfolding generate is_available
opened_cuts_off now later primary other secondary req b e h =
    let t : leb (b.last_failure_time + b.recovery_timeout) now ≡ false = ground (arith, h) in
    rw (generate, is_available, e) (rw t refl)

abbrev pub counted : ℕ → Breaker → Breaker
counted n b = record b { failure_count = n }
