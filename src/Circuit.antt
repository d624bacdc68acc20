-- ===== src/Circuit.antt =====
-- app/llm/providers/circuit_breaker.py: the breaker in front of an LLM provider, with an optional
-- second one, a different object. The two providers are parameters, given for each call; a time is a
-- number of seconds.
pub mod Invariant
pub mod Tripping
use autonomous_executive_ema.Base.{
  ℕ, ◌+◌, ◌-◌, Bool, true, false, String, Option, none, some, List, [], ltb, leb, if◌then◌else◌,
}

pub data CircuitState : Type 0 where
  closed opened half_open : CircuitState

-- `CircuitBreaker`; `opened` is the state OPEN.
pub record Breaker : Type 0 where
  pub failure_threshold : ℕ
  pub recovery_timeout : ℕ
  pub half_open_max_retries : ℕ
  pub state : CircuitState
  pub failure_count : ℕ
  pub last_failure_time : ℕ
  pub half_open_attempts : ℕ
  pub total_trips : ℕ

-- The defaults of the constructor, as `CircuitBreakingProvider` takes them.
abbrev pub new_breaker : Breaker
new_breaker = record {
  failure_threshold = 3;
  recovery_timeout = 30;
  half_open_max_retries = 1;
  state = closed;
  failure_count = 0;
  last_failure_time = 0;
  half_open_attempts = 0;
  total_trips = 0;
}

-- `is_available`, which moves an open breaker to half open once the timeout has passed.
unfoldable pub is_available : ℕ → Breaker → Bool × Breaker
is_available now b = elim b.state [
  | closed ↦ (true, b)
  | opened ↦
      if leb (b.last_failure_time + b.recovery_timeout) now
      then (true, record b { state = half_open; half_open_attempts = 0 })
      else (false, b)
  | half_open ↦ (ltb b.half_open_attempts b.half_open_max_retries, b)
]

unfoldable pub on_success : Breaker → Breaker
on_success b = record b { state = closed; failure_count = 0; half_open_attempts = 0 }

abbrev pub trip : ℕ → Breaker → Breaker
trip now b = record b { state = opened; last_failure_time = now; total_trips = b.total_trips + 1 }

unfoldable pub on_failure : ℕ → Breaker → Breaker
on_failure now b =
    let counted = record b { failure_count = b.failure_count + 1 } in
    elim b.state [
      | half_open ↦
          let tried = record counted { half_open_attempts = b.half_open_attempts + 1 } in
          if leb b.half_open_max_retries tried.half_open_attempts then trip now tried else tried
      | closed ↦ if leb b.failure_threshold counted.failure_count then trip now counted else counted
      | opened ↦ counted
    ]

-- What a provider's `generate` does: `exhausted` is an `AllProvidersFailedError`, `raised` any other
-- exception.
pub data Answer : Type 0 where
  replied : String → Answer
  raised exhausted : Answer

abbrev pub Provider : Type 0
Provider = String → Answer

-- The call of the second provider after the first one raised.
unfoldable pub second_try : Option Provider → String → Answer
second_try none req = raised
second_try (some p) req = elim (p req) [
  | replied s ↦ replied s
  | raised ↦ exhausted
  | exhausted ↦ exhausted
]

-- A call of the first provider, with the time at which it fails if it does.
unfoldable pub ask_primary : ℕ → Provider → Option Provider → String → Breaker → Answer × Breaker
ask_primary later primary secondary req b = elim (primary req) [
  | replied s ↦ (replied s, on_success b)
  | exhausted ↦ (exhausted, b)
  | raised ↦ (second_try secondary req, on_failure later b)
]

-- A call of the second provider in place of the first.
unfoldable pub ask_secondary : ℕ → Provider → String → Breaker → Answer × Breaker
ask_secondary later secondary req b = elim (secondary req) [
  | replied s ↦ (replied s, on_success b)
  | exhausted ↦ (exhausted, b)
  | raised ↦ (exhausted, on_failure later b)
]

-- `generate`, asked at `now`.
unfoldable pub generate : ℕ → ℕ → Provider → Option Provider → String → Breaker → Answer × Breaker
generate now later primary secondary req b =
    let (available, b') = is_available now b in
    if available
    then ask_primary later primary secondary req b'
    else elim secondary [ none ↦ (exhausted, b') | some p ↦ ask_secondary later p req b' ]

-- `agenerate`: the same steps on what the providers' asynchronous calls answer.
unfoldable pub agenerate : ℕ → ℕ → Provider → Option Provider → String → Breaker → Answer × Breaker
agenerate now later primary secondary req b = generate now later primary secondary req b

-- How a stream of chunks ends that is read to its end.
pub data StreamEnd : Type 0 where
  finished broke_off gave_up : StreamEnd

abbrev pub StreamProvider : Type 0
StreamProvider = String → List String × StreamEnd

abbrev pub stream_result : ℕ → StreamEnd → Breaker → Breaker
stream_result later finished b = on_success b
stream_result later broke_off b = on_failure later b
stream_result later gave_up b = b

-- `generate_stream`: the second provider stands in for the first only when the circuit is open.
unfoldable pub generate_stream :
    ℕ
    → ℕ
    → StreamProvider
    → Option StreamProvider
    → String
    → Breaker
    → (List String × StreamEnd) × Breaker
generate_stream now later primary secondary req b =
    let (available, b') = is_available now b in
    if available then (primary req, stream_result later (primary req).1 b') else elim secondary [
      | none ↦ (([], gave_up), b')
      | some p ↦ (p req, stream_result later (p req).1 b')
    ]
