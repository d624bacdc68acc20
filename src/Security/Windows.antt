-- ===== src/Security/Windows.antt =====
-- How many requests a limiter lets through.
use autonomous_executive_ema.Base.{
  ℕ, ◌+◌, ◌-◌, ◌/◌, ◌≤◌, ◌≡◌, refl, sym, ap, ◌∙◌, String, Bool, true, false, some, List, [], ◌∷◌,
  leb, lookup, insert, lookup-insert, str_eq, str_eq_true, if◌then◌else◌, All, arith, Bool-cases,
  inl, inr,
}
use mathlib.Core.Path.{subst}
use autonomous_executive_ema.Security.{FixedWindowRateLimiter, count_in, allow}

-- How many requests for a key are let through, in a sequence of requests of any keys, each with its time.
unfoldable pub granted : String → ℕ → List (String × ℕ) → FixedWindowRateLimiter → ℕ
granted key limit [] l = 0
granted key limit ((k, now) ∷ requests) l =
    let (allowed, l2) = allow k limit now l in
    let rest = granted key limit requests l2 in
    (if str_eq k key then (if allowed then 1 else 0) else 0) + rest

-- The state after a request that is counted.
abbrev charged : String → ℕ → FixedWindowRateLimiter → FixedWindowRateLimiter
charged k now l =
    let window = now / l.window_seconds in
    record l { hits = insert k (window, count_in window (lookup k l.hits) + 1) l.hits }

allow-charged :
    (k : String) (limit now : ℕ) (l : FixedWindowRateLimiter)
    → 1 ≤ limit
    → allow k limit now l
      ≡ (leb (count_in (now / l.window_seconds) (lookup k l.hits) + 1) limit, charged k now l)
unfolding allow
allow-charged k limit now l p =
    let positive : leb limit 0 ≡ false = ground (arith, p) in rw positive refl

same_window : (w n : ℕ) → count_in w (some (w, n)) ≡ n
unfolding count_in
same_window w n = ground arith

-- The hits of a key after a request in the window.
count-charged :
    (key k : String) (now : ℕ) (l : FixedWindowRateLimiter)
    → let window = now / l.window_seconds in
      count_in window (lookup key (charged k now l).hits) ≡ (
        if str_eq k key
        then count_in window (lookup key l.hits) + 1
        else count_in window (lookup key l.hits))
count-charged key k now l =
    let window = now / l.window_seconds in
    let n = count_in window (lookup k l.hits) + 1 in
    ap (count_in window) (lookup-insert k key (window, n) l.hits)
    ∙ (elim (Bool-cases (str_eq k key)) [
      | inl b ↦ rw b (
          same_window window n
          ∙ ap (λ j. count_in window (lookup j l.hits) + 1) (str_eq_true k key b))
      | inr b ↦ rw b refl
    ])

-- One request and the rest, in numbers: the key has c hits, and its limit is not passed.
bound_step :
    (same : Bool) (limit c ck after rest : ℕ)
    → rest ≤ limit - after
    → after ≡ (if same then c + 1 else c)
    → (same ≡ true → ck ≡ c)
    → (if same then (if leb (ck + 1) limit then 1 else 0) else 0) + rest ≤ limit - c
bound_step true limit c ck after rest h a e = ground (arith, h, a, e refl)
bound_step false limit c ck after rest h a e = omega (arith, h, a)

granted-bound :
    (key : String) (limit window : ℕ) (requests : List (String × ℕ)) (l : FixedWindowRateLimiter)
    → 1 ≤ limit
    → All (λ (r : String × ℕ). r.1 / l.window_seconds ≡ window) requests
    → granted key limit requests l ≤ limit - count_in window (lookup key l.hits)
unfolding granted
granted-bound key limit window [] l p h = omega arith
granted-bound key limit window ((k, now) ∷ requests) l p (w, h) =
    rw (granted, allow-charged k limit now l p)
      (subst
        (λ v.
          (if str_eq k key
              then (if leb (count_in (now / l.window_seconds) (lookup k l.hits) + 1) limit
                  then 1
                  else 0)
              else 0)
            + granted key limit requests (charged k now l)
          ≤ limit - count_in v (lookup key l.hits))
        w
        (bound_step (str_eq k key) limit (count_in (now / l.window_seconds) (lookup key l.hits))
          (count_in (now / l.window_seconds) (lookup k l.hits))
          (count_in (now / l.window_seconds) (lookup key (charged k now l).hits))
          (granted key limit requests (charged k now l))
          (subst
            (λ v.
              granted key limit requests (charged k now l)
              ≤ limit - count_in v (lookup key (charged k now l).hits))
            (sym w) (granted-bound key limit window requests (charged k now l) p h))
          (count-charged key k now l)
          (λ b.
            ap (λ j. count_in (now / l.window_seconds) (lookup j l.hits)) (str_eq_true k key b))))

-- A limiter keeps its limit: of any sequence of requests in one window, with those of other keys between
-- them, at most `limit` requests of a key are let through, whatever was counted before. The limit is
-- positive.
pub granted-limit :
    (key : String) (limit window : ℕ) (requests : List (String × ℕ)) (l : FixedWindowRateLimiter)
    → 1 ≤ limit
    → All (λ (r : String × ℕ). r.1 / l.window_seconds ≡ window) requests
    → granted key limit requests l ≤ limit
granted-limit key limit window requests l p h =
    omega (arith, granted-bound key limit window requests l p h)
