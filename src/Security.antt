-- ===== src/Security.antt =====
-- app/core/security.py: the credentials of a request, the identifiers that are let through, and the rate
-- limiters. `str.upper` and `str.lower` are parameters; times are whole seconds.
pub mod Credentials
pub mod Windows
use Prim.Native.Char.{Char, code}
use autonomous_executive_ema.Base.{
  ℕ, zero, suc, ◌+◌, ◌/◌, max, String, Bool, true, false, not, ◌&&◌, ◌||◌, Option, none, some, List,
  [], ◌∷◌, leb, ltb, ◌==◌, Dict, lookup, insert, elem, any, null, strip, truthy, str_eq, or_default,
  if◌then◌else◌, is_some, prepend,
}
use Prim.Native.String.{◌++◌}

pub record Casing : Type 0 where
  pub upper : String → String
  pub lower : String → String

-- `_SAFE_ID_RE.match`: a run of 1 to 128 characters of the class, then `$`, which stands at the end and
-- also before a newline that ends the text.
abbrev between : ℕ → ℕ → ℕ → Bool
between low high n = leb low n && leb n high

unfoldable pub is_safe : Char → Bool
is_safe c =
    let n = code c in
    between 65 90 n || between 97 122 n || between 48 57 n || n == 95 || n == 46 || n == 45

abbrev pub at_end : Char → String → Bool
at_end c String.[] = code c == 10
at_end c (String.◌∷◌ d s) = false

unfoldable pub safe_run : ℕ → String → Bool
safe_run n String.[] = leb 1 n
safe_run n (String.◌∷◌ c s) =
    let rest = safe_run (n + 1) s in if is_safe c then ltb n 128 && rest else leb 1 n && at_end c s

unfoldable pub is_valid_identifier : String → Bool
is_valid_identifier value = truthy value && safe_run 0 value

-- `s.split(" ", 1)`: the first part, and the second where there is a space.
abbrev before : Char → String × Option String → String × Option String
before c (first, rest) = (String.◌∷◌ c first, rest)

unfoldable pub split_once : String → String × Option String
split_once String.[] = ("", none)
split_once (String.◌∷◌ c s) =
    let parts = split_once s in if code c == 32 then ("", some s) else before c parts

-- The token after `Bearer`, where there is one.
unfoldable pub bearer_of : Casing → String × Option String → Option String
bearer_of k (scheme, none) = none
bearer_of k (scheme, some rest) =
    if str_eq (k.lower scheme) "bearer" then some (strip rest) else none

abbrev pub text_of : Option String → String
text_of o = or_default o ""

-- `extract_bearer_token`.
unfoldable pub extract_bearer_token : Casing → Option String → Option String → Option String
extract_bearer_token k authorization api_key_header =
    let from_header =
      if truthy (text_of authorization)
      then bearer_of k (split_once (text_of authorization))
      else none in
    let from_key =
      if truthy (text_of api_key_header) then some (strip (text_of api_key_header)) else none in
    elim from_header [ some t ↦ some t | none ↦ from_key ]

abbrev pub mutating_methods : List String
mutating_methods = "POST" ∷ "PUT" ∷ "PATCH" ∷ "DELETE" ∷ []

unfoldable pub is_mutating : Casing → String → Bool
is_mutating k method = elem (k.upper method) mutating_methods

-- `presented is not None and presented == configured_token`.
abbrev pub presents : Option String → String → Bool
presents none token = false
presents (some t) token = str_eq t token

-- `request_is_authorized`.
unfoldable pub request_is_authorized :
    Casing → String → Option String → Option String → Option String → Bool
request_is_authorized k method configured_token authorization api_key_header =
    if not (truthy (text_of configured_token))
    then true
    else if not (is_mutating k method)
    then true
    else presents (extract_bearer_token k authorization api_key_header) (text_of configured_token)

abbrev pub sensitive_read_prefixes : List String
sensitive_read_prefixes =
    "/metrics" ∷ "/approval" ∷ "/episodes" ∷ "/preferences" ∷ "/feedback" ∷ "/learning" ∷ "/replay"
    ∷ "/dashboard" ∷ "/alerts" ∷ "/state" ∷ "/reports" ∷ []

-- `path.startswith(prefix)`.
unfoldable pub starts_with : String → String → Bool
starts_with String.[] path = true
starts_with (String.◌∷◌ c s) String.[] = false
starts_with (String.◌∷◌ c s) (String.◌∷◌ d t) =
    let rest = starts_with s t in code c == code d && rest

unfoldable pub is_sensitive_read : String → Bool
is_sensitive_read path =
    any (λ p. str_eq path p || starts_with (p ++ "/") path) sensitive_read_prefixes

-- The tenant of a token that was presented.
unfoldable pub tenant_of : Option String → Dict String → Option String → Bool × Option String
tenant_of configured_token tenants none = (false, none)
tenant_of configured_token tenants (some t) =
    if truthy (text_of configured_token) && str_eq t (text_of configured_token)
    then (true, some "default")
    else elim (lookup t tenants) [ some tenant ↦ (true, some tenant) | none ↦ (false, none) ]

-- `resolve_auth`.
unfoldable pub resolve_auth :
    Casing
    → String
    → Option String
    → Dict String
    → Option String
    → Option String
    → Bool
    → Bool × Option String
resolve_auth k method configured_token tenants authorization api_key_header enforce_reads =
    if not (truthy (text_of configured_token)) && null tenants
    then (true, none)
    else if not (is_mutating k method) && not enforce_reads
    then (true, none)
    else tenant_of configured_token tenants (extract_bearer_token k authorization api_key_header)

-- `FixedWindowRateLimiter`: for each key the window it was last seen in and the count there.
pub record FixedWindowRateLimiter : Type 0 where
  pub window_seconds : ℕ
  pub hits : Dict (ℕ × ℕ)

unfoldable pub new_limiter : ℕ → FixedWindowRateLimiter
new_limiter window_seconds = record { window_seconds = max 1 window_seconds; hits = [] }

-- The hits of a key in a window.
unfoldable pub count_in : ℕ → Option (ℕ × ℕ) → ℕ
count_in window none = 0
count_in window (some (start, count)) = if start == window then count else 0

-- `allow`.
unfoldable pub allow : String → ℕ → ℕ → FixedWindowRateLimiter → Bool × FixedWindowRateLimiter
allow key limit_per_minute now l =
    let window = now / l.window_seconds in
    let count = count_in window (lookup key l.hits) + 1 in
    if leb limit_per_minute 0
    then (true, l)
    else (leb count limit_per_minute, record l { hits = insert key (window, count) l.hits })

-- `login_attempt_allowed`: both windows are charged, whatever the first says.
unfoldable pub login_attempt_allowed :
    Casing → String → String → ℕ → ℕ → FixedWindowRateLimiter → Bool × FixedWindowRateLimiter
login_attempt_allowed k ip email limit now l =
    let (ip_ok, l2) = allow ("login:ip:" ++ ip) limit now l in
    let (email_ok, l3) = allow ("login:email:" ++ k.lower (strip email)) limit now l2 in
    if leb limit 0 then (true, l) else (ip_ok && email_ok, l3)

unfoldable pub lead_submission_allowed :
    String → ℕ → FixedWindowRateLimiter → Bool × FixedWindowRateLimiter
lead_submission_allowed ip now l = allow ("lead:" ++ ip) 5 now l

unfoldable pub sandbox_creation_allowed :
    String → ℕ → FixedWindowRateLimiter → Bool × FixedWindowRateLimiter
sandbox_creation_allowed ip now l = allow ("sandbox:" ++ ip) 8 now l
