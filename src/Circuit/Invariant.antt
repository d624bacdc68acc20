-- ===== src/Circuit/Invariant.antt =====
-- What holds of a circuit breaker between two calls.
use autonomous_executive_ema.Base.{
  ℕ, ◌+◌, ◌≤◌, ◌<◌, ◌≡◌, refl, String, Option, arith, leb, inl, inr, Bool-cases, Option-cases,
}
use autonomous_executive_ema.Circuit.{
  CircuitState, closed, opened, half_open, Breaker, is_available, on_success, on_failure, Answer,
  replied, raised, exhausted, Provider, ask_primary, ask_secondary, generate, StreamEnd, finished,
  broke_off, gave_up, StreamProvider, stream_result, generate_stream,
}

-- The counters fit the state: below the threshold while closed, a trial left while half open.
abbrev pub InBounds : CircuitState → Breaker → Type 0
InBounds closed b = b.failure_count < b.failure_threshold
InBounds opened b = 1 ≤ b.total_trips
InBounds half_open b = b.half_open_attempts < b.half_open_max_retries

pub record Sound (b : Breaker) : Type 0 where
  pub threshold : 1 ≤ b.failure_threshold
  pub trials : 1 ≤ b.half_open_max_retries
  pub bounds : InBounds b.state b

is_available-Sound : (now : ℕ) (b : Breaker) → Sound b → Sound (is_available now b).1
unfolding is_available
is_available-Sound now b s = go b.state refl
  where
    go : (c : CircuitState) → b.state ≡ c → Sound (is_available now b).1
    go closed e = rw (is_available, e) s
    go half_open e = rw (is_available, e) s
    go opened e = elim (Bool-cases (leb (b.last_failure_time + b.recovery_timeout) now)) [
      | inl t ↦
          rw (is_available, e)
            (rw t (record { threshold = s.threshold; trials = s.trials; bounds = s.trials }))
      | inr t ↦ rw (is_available, e) (rw t s)
    ]

on_success-Sound : (b : Breaker) → Sound b → Sound (on_success b)
unfolding on_success
on_success-Sound b s = record {
  threshold = s.threshold;
  trials = s.trials;
  bounds = omega (arith, s.threshold);
}

on_failure-Sound : (now : ℕ) (b : Breaker) → Sound b → Sound (on_failure now b)
unfolding on_failure
on_failure-Sound now b s = go b.state refl s.bounds
  where
    go : (c : CircuitState) → b.state ≡ c → InBounds c b → Sound (on_failure now b)
    go opened e h =
        rw (on_failure, e) (record { threshold = s.threshold; trials = s.trials; bounds = rw e h })
    go closed e h = elim (Bool-cases (leb b.failure_threshold (b.failure_count + 1))) [
      | inl t ↦
          rw (on_failure, e)
            (rw t (record { threshold = s.threshold; trials = s.trials; bounds = omega arith }))
      | inr t ↦
          rw (on_failure, e)
            (rw t (record {
              threshold = s.threshold;
              trials = s.trials;
              bounds = rw e (ground (arith, t));
            }))
    ]
    go half_open e h = elim (Bool-cases (leb b.half_open_max_retries (b.half_open_attempts + 1))) [
      | inl t ↦
          rw (on_failure, e)
            (rw t (record { threshold = s.threshold; trials = s.trials; bounds = omega arith }))
      | inr t ↦
          rw (on_failure, e)
            (rw t (record {
              threshold = s.threshold;
              trials = s.trials;
              bounds = rw e (ground (arith, t));
            }))
    ]

ask_primary-Sound :
    (later : ℕ) (primary : Provider) (secondary : Option Provider) (req : String) (b : Breaker)
    → Sound b
    → Sound (ask_primary later primary secondary req b).1
unfolding ask_primary
ask_primary-Sound later primary secondary req b s = go (primary req) refl
  where
    go : (a : Answer) → primary req ≡ a → Sound (ask_primary later primary secondary req b).1
    go (replied t) e = rw (ask_primary, e) (on_success-Sound b s)
    go exhausted e = rw (ask_primary, e) s
    go raised e = rw (ask_primary, e) (on_failure-Sound later b s)

ask_secondary-Sound :
    (later : ℕ) (secondary : Provider) (req : String) (b : Breaker)
    → Sound b
    → Sound (ask_secondary later secondary req b).1
unfolding ask_secondary
ask_secondary-Sound later secondary req b s = go (secondary req) refl
  where
    go : (a : Answer) → secondary req ≡ a → Sound (ask_secondary later secondary req b).1
    go (replied t) e = rw (ask_secondary, e) (on_success-Sound b s)
    go exhausted e = rw (ask_secondary, e) s
    go raised e = rw (ask_secondary, e) (on_failure-Sound later b s)

-- A call keeps the counters of a breaker within the bounds of its state, whatever the two providers
-- answer: fewer failures than the threshold while closed, a trial left while half open, at least one
-- trip counted while open.
pub generate-Sound :
    (now later : ℕ) (primary : Provider) (secondary : Option Provider) (req : String) (b : Breaker)
    → Sound b
    → Sound (generate now later primary secondary req b).1
unfolding generate
generate-Sound now later primary secondary req b s =
    let s' = is_available-Sound now b s in
    elim (Bool-cases (is_available now b).0) [
      | inl t ↦
          rw (generate, t) (ask_primary-Sound later primary secondary req (is_available now b).1 s')
      | inr t ↦ elim (Option-cases secondary) [
        | inl e ↦ rw (generate, t) (rw e s')
        | inr (p, e) ↦
            rw (generate, t) (rw e (ask_secondary-Sound later p req (is_available now b).1 s'))
      ]
    ]

stream_result-Sound :
    (later : ℕ) (end : StreamEnd) (b : Breaker) → Sound b → Sound (stream_result later end b)
stream_result-Sound later finished b s = on_success-Sound b s
stream_result-Sound later broke_off b s = on_failure-Sound later b s
stream_result-Sound later gave_up b s = s

-- So does a stream that is read to its end.
pub generate_stream-Sound :
    (now later : ℕ) (primary : StreamProvider) (secondary : Option StreamProvider) (req : String)
    (b : Breaker)
    → Sound b
    → Sound (generate_stream now later primary secondary req b).1
unfolding generate_stream
generate_stream-Sound now later primary secondary req b s =
    let s' = is_available-Sound now b s in
    let b' = (is_available now b).1 in
    elim (Bool-cases (is_available now b).0) [
      | inl t ↦ rw (generate_stream, t) (stream_result-Sound later (primary req).1 b' s')
      | inr t ↦ elim (Option-cases secondary) [
        | inl e ↦ rw (generate_stream, t) (rw e s')
        | inr (p, e) ↦ rw (generate_stream, t) (rw e (stream_result-Sound later (p req).1 b' s'))
      ]
    ]
