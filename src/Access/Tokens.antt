-- ===== src/Access/Tokens.antt =====
-- app/saas/tokens.py. Base64 with JSON and the signature are a parameter; `str.split` and the checks are
-- written out. Claims are JSON objects of strings, numbers and lists of strings.
pub mod Roundtrip
use Prim.Native.Char.{code}
use Prim.Native.String.{String, ◌++◌}
use autonomous_executive_ema.Base.{
  ℕ, ◌+◌, Bool, true, false, not, ◌&&◌, ◌||◌, Option, none, some, List, [], ◌∷◌, leb, ltb, Dict,
  lookup, insert, truthy, str_eq, split_on, if◌then◌else◌,
}
use autonomous_executive_ema.Access.{Result, ok, err}

pub data Value : Type 0 where
  text : String → Value
  number : ℕ → Value
  texts : List String → Value

abbrev pub Claims : Type 0
Claims = Dict Value

-- `claims.get(key) == s`.
abbrev pub is_text : String → Option Value → Bool
is_text s (some (text t)) = str_eq t s
is_text s _ = false

-- `_b64url_encode(json.dumps(…))`, its inverse, `none` where it raises, and `_sign`.
pub record Codec : Type 0 where
  pub dumps : Claims → String
  pub loads : String → Option Claims
  pub sign : String → String → String

-- `TokenError`, by its cause, and the two other exceptions that leave `decode`: a text that is not ASCII
-- cannot be encoded, nor compared.
pub data TokenError : Type 0 where
  required malformed mis_signed not_json unexpected_algorithm expired : TokenError
  unencodable incomparable : TokenError

abbrev pub is_token_error : TokenError → Bool
is_token_error unencodable = false
is_token_error incomparable = false
is_token_error _ = true

unfoldable pub is_ascii : String → Bool
is_ascii String.[] = true
is_ascii (String.◌∷◌ c s) = ltb (code c) 128 && is_ascii s

abbrev pub header : Claims
header = ("alg", text "HS256") ∷ ("typ", text "JWT") ∷ []

-- The payload of `encode`.
unfoldable pub stamped : Claims → ℕ → ℕ → Claims
stamped claims ttl now = insert "exp" (number (now + ttl)) (insert "iat" (number now) claims)

abbrev pub signing_input : String → String → String
signing_input header_b64 payload_b64 = header_b64 ++ ("." ++ payload_b64)

abbrev pub assembled : String → String → String → String
assembled header_b64 payload_b64 signature =
    header_b64 ++ ("." ++ (payload_b64 ++ ("." ++ signature)))

-- `encode`.
unfoldable pub encode : Codec → Claims → String → ℕ → ℕ → Result TokenError String
encode k claims secret ttl now =
    let header_b64 = k.dumps header in
    let payload_b64 = k.dumps (stamped claims ttl now) in
    let signature = k.sign (signing_input header_b64 payload_b64) secret in
    if not (truthy secret) then err required else ok (assembled header_b64 payload_b64 signature)

-- The end of `decode`: the algorithm and the expiry.
unfoldable pub not_expired : Claims → Option Value → ℕ → Result TokenError Claims
not_expired payload (some (number exp)) now = if leb exp now then err expired else ok payload
not_expired payload _ now = err expired

unfoldable pub accepted : Claims → Claims → ℕ → Result TokenError Claims
accepted head payload now =
    if not (is_text "HS256" (lookup "alg" head))
    then err unexpected_algorithm
    else not_expired payload (lookup "exp" payload) now

unfoldable pub read_parts : Codec → String → String → ℕ → Result TokenError Claims
read_parts k header_b64 payload_b64 now = elim (k.loads header_b64) [
  | none ↦ err not_json
  | some head ↦ elim (k.loads payload_b64) [
    | none ↦ err not_json
    | some payload ↦ accepted head payload now
  ]
]

unfoldable pub check_parts :
    Codec → String → String → String → String → ℕ → Result TokenError Claims
check_parts k header_b64 payload_b64 signature secret now =
    let expected_sig = k.sign (signing_input header_b64 payload_b64) secret in
    if not (is_ascii header_b64 && is_ascii payload_b64)
    then err unencodable
    else if not (is_ascii signature)
    then err incomparable
    else if not (str_eq expected_sig signature)
    then err mis_signed
    else read_parts k header_b64 payload_b64 now

unfoldable pub decode_parts : Codec → List String → String → ℕ → Result TokenError Claims
decode_parts k (h ∷ p ∷ s ∷ []) secret now = check_parts k h p s secret now
decode_parts k _ secret now = err malformed

-- `decode`.
unfoldable pub decode : Codec → String → String → ℕ → Result TokenError Claims
decode k token secret now =
    if not (truthy token) || not (truthy secret)
    then err required
    else decode_parts k (split_on b'.' token) secret now
