-- ===== src/Access/Sessions.antt =====
-- app/saas/auth.py: sign-in, sessions, changes and resets of a password, over the rows of users. The
-- hashing of passwords is a parameter, and the salt that it draws stands in its argument. A session is
-- what `get_current_user` of app/saas/deps.py resolves.
pub mod Opening
pub mod Resetting
use autonomous_executive_ema.Base.{
  ℕ, ◌*◌, String, Bool, true, false, not, ◌&&◌, Option, none, some, List, [], ◌∷◌, lookup, str_eq,
  truthy, strip, if◌then◌else◌,
}
use autonomous_executive_ema.Members.{User, Role, owner, admin, member}
use autonomous_executive_ema.Access.{Result, ok, err}
use autonomous_executive_ema.Access.Tokens.{
  Value, text, Claims, is_text, Codec, TokenError, is_token_error, encode, decode,
}

-- A row of users with its password.
pub record Account : Type 0 where
  pub user : User
  pub password_hash : String

pub record Config : Type 0 where
  pub codec : Codec
  pub secret : String
  pub access_token_ttl_minutes : ℕ
  pub password_reset_ttl_minutes : ℕ
  pub lower : String → String
  -- `hash_password`, with its salt, and `verify_password`.
  pub hash_password : String → String → String
  pub verify_password : String → String → Bool

-- `AuthError`, by its cause; `unhandled` is an exception that `decode` lets through.
pub data AuthError : Type 0 where
  invalid_credentials account_disabled invalid_session not_a_session malformed_session
        account_gone :
      AuthError
  wrong_password invalid_link not_a_reset_link : AuthError
  signing_failed : TokenError → AuthError
  unhandled : TokenError → AuthError

abbrev pub is_row : String → String → Account → Bool
is_row org id a = str_eq a.user.id id && str_eq a.user.org_id org

-- `UserRepository.get`.
unfoldable pub get_account : String → String → List Account → Option Account
get_account org id [] = none
get_account org id (a ∷ rest) = if is_row org id a then some a else get_account org id rest

-- `UserRepository.get_by_email_global`.
unfoldable pub account_with_email : String → List Account → Option Account
account_with_email email [] = none
account_with_email email (a ∷ rest) =
    if str_eq a.user.email email then some a else account_with_email email rest

unfoldable pub get_by_email_global : Config → String → List Account → Option Account
get_by_email_global c email accounts = account_with_email (strip (c.lower email)) accounts

-- `UserRepository.set_password`.
unfoldable pub set_password : String → String → String → List Account → List Account
set_password org id hash [] = []
set_password org id hash (a ∷ rest) =
    if is_row org id a
    then record a { password_hash = hash } ∷ rest
    else a ∷ set_password org id hash rest

-- `AuthService.authenticate`.
unfoldable pub authenticate : Config → String → String → List Account → Result AuthError User
authenticate c email password accounts = elim (get_by_email_global c email accounts) [
  | none ↦ err invalid_credentials
  | some a ↦
      if not a.user.is_enabled
      then err account_disabled
      else if not (c.verify_password password a.password_hash)
      then err invalid_credentials
      else ok a.user
]

abbrev pub role_name : Role → String
role_name owner = "owner"
role_name admin = "admin"
role_name member = "member"

unfoldable pub session_claims : User → Claims
session_claims u =
    ("typ", text "session")
    ∷ ("sub", text u.id)
    ∷ ("org", text u.org_id)
    ∷ ("role", text (role_name u.role))
    ∷ []

-- `AuthService.issue_token`.
unfoldable pub issue_token : Config → User → ℕ → Result TokenError String
issue_token c u now =
    encode c.codec (session_claims u) c.secret (c.access_token_ttl_minutes * 60) now

-- A claim that names a row. One that is missing is empty, as is here one that is no string: the program
-- signs only strings under these names.
abbrev pub named : Option Value → String
named (some (text s)) = s
named _ = ""

abbrev pub raised : AuthError → TokenError → AuthError
raised e t = if is_token_error t then e else unhandled t

-- The live row that a session opens.
unfoldable pub admit : Option Account → Result AuthError User
admit none = err account_gone
admit (some a) = if not a.user.is_enabled then err account_disabled else ok a.user

unfoldable pub resolve_claims : Claims → List Account → Result AuthError User
resolve_claims claims accounts =
    let org_id = named (lookup "org" claims) in
    let user_id = named (lookup "sub" claims) in
    if not (is_text "session" (lookup "typ" claims))
    then err not_a_session
    else if not (truthy org_id && truthy user_id)
    then err malformed_session
    else admit (get_account org_id user_id accounts)

-- `AuthService.resolve`.
unfoldable pub resolve : Config → String → ℕ → List Account → Result AuthError User
resolve c token now accounts = elim (decode c.codec token c.secret now) [
  | err e ↦ err (raised invalid_session e)
  | ok claims ↦ resolve_claims claims accounts
]

-- `AuthService.change_password`: the rows after it, and the error if there is one.
unfoldable pub change_password :
    Config → User → String → String → String → List Account → Result AuthError (List Account)
change_password c u current new salt accounts = elim (get_by_email_global c u.email accounts) [
  | none ↦ err wrong_password
  | some a ↦
      if not (c.verify_password current a.password_hash)
      then err wrong_password
      else ok (set_password u.org_id u.id (c.hash_password salt new) accounts)
]

unfoldable pub reset_claims : User → Claims
reset_claims u = ("typ", text "password_reset") ∷ ("sub", text u.id) ∷ ("org", text u.org_id) ∷ []

-- `AuthService.request_password_reset`.
unfoldable pub request_password_reset :
    Config → String → ℕ → List Account → Option (Result TokenError String)
request_password_reset c email now accounts = elim (get_by_email_global c email accounts) [
  | none ↦ none
  | some a ↦
      some (encode c.codec (reset_claims a.user) c.secret (c.password_reset_ttl_minutes * 60) now)
]

unfoldable pub reset_claimed :
    Config → Claims → String → String → List Account → Result AuthError (User × List Account)
reset_claimed c claims new salt accounts =
    let org_id = named (lookup "org" claims) in
    let user_id = named (lookup "sub" claims) in
    if not (is_text "password_reset" (lookup "typ" claims))
    then err not_a_reset_link
    else if not (truthy org_id && truthy user_id)
    then err account_gone
    else elim (get_account org_id user_id accounts) [
      | none ↦ err account_gone
      | some a ↦ ok (a.user, set_password org_id user_id (c.hash_password salt new) accounts)
    ]

-- `AuthService.reset_password`.
unfoldable pub reset_password :
    Config → String → String → String → ℕ → List Account → Result AuthError (User × List Account)
reset_password c token new salt now accounts = elim (decode c.codec token c.secret now) [
  | err e ↦ err (raised invalid_link e)
  | ok claims ↦ reset_claimed c claims new salt accounts
]
