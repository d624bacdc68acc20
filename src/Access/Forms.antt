-- ===== src/Access/Forms.antt =====
-- app/web/session.py: the token of a form, bound to a session; app/saas/oauth.py: the state that a mailbox
-- connection carries. The digest of a session is a parameter.
use autonomous_executive_ema.Base.{
  ℕ, ◌≡◌, refl, ◌∙◌, ◌+◌, ◌<◌, String, true, not, Option, some, [], ◌∷◌, lookup, insert, str_eq,
  truthy, or_default, if-not, if◌then◌else◌,
}
use autonomous_executive_ema.Access.{Result, ok, err}
use autonomous_executive_ema.Access.Tokens.{
  text, Claims, is_text, Codec, TokenError, encode, decode, stamped,
}
use autonomous_executive_ema.Access.Tokens.Roundtrip.{
  CodecLaws, issued, truthy-issued, encode-issued, decode-issued, accepted-live,
}

pub record FormConfig : Type 0 where
  pub codec : Codec
  pub secret : String
  pub fingerprint : String → String

-- The answer 403, by its cause.
pub data FormError : Type 0 where
  missing not_a_form_token other_session : FormError
  invalid : TokenError → FormError

-- `session_token(request) or "anonymous"`.
unfoldable pub subject_of : Option String → String
subject_of session =
    let token = or_default session "" in if truthy token then token else "anonymous"

abbrev pub csrf_claims : FormConfig → Option String → Claims
csrf_claims c session =
    ("typ", text "csrf") ∷ ("sub", text (c.fingerprint (subject_of session))) ∷ []

abbrev pub csrf_ttl : ℕ
csrf_ttl = 28800

-- `issue_csrf_token`.
unfoldable pub issue_csrf_token : FormConfig → Option String → ℕ → Result TokenError String
issue_csrf_token c session now = encode c.codec (csrf_claims c session) c.secret csrf_ttl now

unfoldable pub form_claims : FormConfig → Option String → Claims → Result FormError (Unit {0})
form_claims c session claims =
    if not (is_text "csrf" (lookup "typ" claims))
    then err not_a_form_token
    else if not (is_text (c.fingerprint (subject_of session)) (lookup "sub" claims))
    then err other_session
    else ok tt

-- `verify_csrf`.
unfoldable pub verify_csrf :
    FormConfig → Option String → Option String → ℕ → Result FormError (Unit {0})
verify_csrf c session submitted now =
    let token = or_default submitted "" in
    let decoded : Result FormError (Unit {0}) = elim (decode c.codec token c.secret now) [
      | err e ↦ err (invalid e)
      | ok claims ↦ form_claims c session claims
    ] in
    if not (truthy token) then err missing else decoded

abbrev pub state_claims : String → String → String → Claims
state_claims org_id user_id provider =
    ("typ", text "oauth_state")
    ∷ ("org", text org_id)
    ∷ ("sub", text user_id)
    ∷ ("prov", text provider)
    ∷ []

-- `sign_state`.
unfoldable pub sign_state : FormConfig → String → String → String → ℕ → Result TokenError String
sign_state c org_id user_id provider now =
    encode c.codec (state_claims org_id user_id provider) c.secret 900 now

pub data StateError : Type 0 where
  not_a_state : StateError
  bad_state : TokenError → StateError

-- `verify_state`.
unfoldable pub verify_state : FormConfig → String → ℕ → Result StateError Claims
verify_state c state now = elim (decode c.codec state c.secret now) [
  | err e ↦ err (bad_state e)
  | ok claims ↦
      if not (is_text "oauth_state" (lookup "typ" claims)) then err not_a_state else ok claims
]

module _ (c : FormConfig) (L : CodecLaws c.codec) where
  form_claims-stamped :
      (session other : Option String) (now : ℕ)
      → form_claims c other (stamped (csrf_claims c session) csrf_ttl now) ≡ (
          if str_eq (c.fingerprint (subject_of session)) (c.fingerprint (subject_of other))
          then ok tt
          else err other_session)
  unfolding form_claims stamped insert lookup
  form_claims-stamped session other now =
      if-not (str_eq (c.fingerprint (subject_of session)) (c.fingerprint (subject_of other)))
        (err other_session) (ok tt)

  verify-decoded :
      (session : Option String) (token : String) (now : ℕ) (claims : Claims)
      → truthy token ≡ true
      → decode c.codec token c.secret now ≡ ok claims
      → verify_csrf c session (some token) now ≡ form_claims c session claims
  unfolding verify_csrf
  verify-decoded session token now claims t d = rw (verify_csrf, t, d) refl

  -- A form token is bound to its session: for the eight hours after it was issued, it is accepted from a
  -- session with the digest of the one it was issued for, and from every other it is refused as foreign.
  pub verify_csrf-issued :
      (session other : Option String) (now later : ℕ)
      → truthy c.secret ≡ true
      → later < now + csrf_ttl
      → (token : String) × (issue_csrf_token c session now ≡ ok token)
        × (verify_csrf c other (some token) later ≡ (
            if str_eq (c.fingerprint (subject_of session)) (c.fingerprint (subject_of other))
            then ok tt
            else err other_session))
  unfolding issue_csrf_token
  verify_csrf-issued session other now later t h =
      let claims = csrf_claims c session in
      let token = issued c.codec L claims c.secret csrf_ttl now in
      (
        token,
        encode-issued c.codec L claims c.secret csrf_ttl now t,
        verify-decoded other token later (stamped claims csrf_ttl now)
              (truthy-issued c.codec L claims c.secret csrf_ttl now)
              (decode-issued c.codec L claims c.secret csrf_ttl now later t
                ∙ accepted-live c.codec L claims csrf_ttl now later h)
            ∙ form_claims-stamped session other now,
      )
