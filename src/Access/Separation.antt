-- ===== src/Access/Separation.antt =====
-- All tokens are signed with one secret; each is good for one purpose.
use Prim.Native.String.{String}
use autonomous_executive_ema.Base.{
  ℕ, ◌+◌, ◌*◌, ◌<◌, ◌≡◌, refl, ◌∙◌, true, false, Option, some, List, lookup, insert, str_eq, truthy,
}
use autonomous_executive_ema.Members.{User}
use autonomous_executive_ema.Access.{ok, err}
use autonomous_executive_ema.Access.Tokens.{Claims, text, encode, decode, stamped}
use autonomous_executive_ema.Access.Tokens.Roundtrip.{
  CodecLaws, issued, truthy-issued, encode-issued, decode-issued, accepted-live, stamped-claim,
}
use autonomous_executive_ema.Access.Licenses.{
  Casts, not_a_license, license_terms, verify_license_key,
}
use autonomous_executive_ema.Access.Forms.{
  FormConfig, not_a_form_token, not_a_state, form_claims, verify_csrf, verify_state,
}
use autonomous_executive_ema.Access.Sessions.{
  Account, Config, not_a_session, not_a_reset_link, session_claims, issue_token, resolve_claims,
  resolve, reset_claimed, reset_password,
}
use autonomous_executive_ema.Access.Sessions.Opening.{resolve-live}

-- The configuration of the forms, with the same codec and secret.
abbrev pub forms_of : Config → (String → String) → FormConfig
forms_of c fingerprint = record { codec = c.codec; secret = c.secret; fingerprint = fingerprint }

module _ (c : Config) (L : CodecLaws c.codec) where
  live :
      (claims : Claims) (ttl now later : ℕ)
      → truthy c.secret ≡ true
      → later < now + ttl
      → decode c.codec (issued c.codec L claims c.secret ttl now) c.secret later
        ≡ ok (stamped claims ttl now)
  live claims ttl now later t h =
      decode-issued c.codec L claims c.secret ttl now later t
      ∙ accepted-live c.codec L claims ttl now later h

  foreign :
      (claims : Claims) (kind : String) (ttl now : ℕ) (accounts : List Account)
      → lookup "typ" claims ≡ some (text kind)
      → str_eq kind "session" ≡ false
      → resolve_claims (stamped claims ttl now) accounts ≡ err not_a_session
  unfolding resolve_claims
  foreign claims kind ttl now accounts k s =
      rw (stamped-claim c.codec L "typ" claims ttl now refl refl ∙ k, s) refl

  reset-refused :
      (u : User) (ttl now later : ℕ) (token new salt : String) (accounts : List Account)
      → decode c.codec token c.secret later ≡ ok (stamped (session_claims u) ttl now)
      → reset_password c token new salt later accounts ≡ err not_a_reset_link
  unfolding reset_password reset_claimed stamped session_claims insert lookup
  reset-refused u ttl now later token new salt accounts d = rw (reset_password, d) refl

  license-refused :
      (u : User) (ttl now later : ℕ) (token : String) (casts : Casts)
      → decode c.codec token c.secret later ≡ ok (stamped (session_claims u) ttl now)
      → verify_license_key c.codec casts token c.secret later ≡ err not_a_license
  unfolding verify_license_key license_terms stamped session_claims insert lookup
  license-refused u ttl now later token casts d = rw (verify_license_key, d) refl

  state-refused :
      (u : User) (ttl now later : ℕ) (token : String) (fingerprint : String → String)
      → decode c.codec token c.secret later ≡ ok (stamped (session_claims u) ttl now)
      → verify_state (forms_of c fingerprint) token later ≡ err not_a_state
  unfolding verify_state stamped session_claims insert lookup
  state-refused u ttl now later token fingerprint d = rw (verify_state, d) refl

  form-refused :
      (u : User) (ttl now later : ℕ) (token : String) (fingerprint : String → String)
      (session : Option String)
      → truthy token ≡ true
      → decode c.codec token c.secret later ≡ ok (stamped (session_claims u) ttl now)
      → verify_csrf (forms_of c fingerprint) session (some token) later ≡ err not_a_form_token
  unfolding verify_csrf form_claims stamped session_claims insert lookup
  form-refused u ttl now later token fingerprint session t d = rw (verify_csrf, t, d) refl

  -- Each token serves one purpose, though all are signed with one secret: a token of another type opens no
  -- session, whatever its claims; and while it lives the token of a session resets no password, is no
  -- license key, covers no form and connects no mailbox.
  pub tokens_are_separate :
      (claims : Claims) (kind : String) (u : User) (accounts : List Account) (casts : Casts)
      (fingerprint : String → String) (session : Option String) (new salt : String)
      (ttl now later : ℕ)
      → truthy c.secret ≡ true
      → lookup "typ" claims ≡ some (text kind)
      → str_eq kind "session" ≡ false
      → later < now + ttl
      → later < now + c.access_token_ttl_minutes * 60
      → (other token : String) × (encode c.codec claims c.secret ttl now ≡ ok other)
        × (issue_token c u now ≡ ok token)
        × (resolve c other later accounts ≡ err not_a_session)
        × (reset_password c token new salt later accounts ≡ err not_a_reset_link)
        × (verify_license_key c.codec casts token c.secret later ≡ err not_a_license)
        × (verify_csrf (forms_of c fingerprint) session (some token) later ≡ err not_a_form_token)
        × (verify_state (forms_of c fingerprint) token later ≡ err not_a_state)
  unfolding issue_token
  tokens_are_separate claims kind u accounts casts fingerprint session new salt ttl now later t k s
        h g =
      let ttl' = c.access_token_ttl_minutes * 60 in
      let mine = session_claims u in
      let token = issued c.codec L mine c.secret ttl' now in
      let d = live mine ttl' now later t g in
      (
        issued c.codec L claims c.secret ttl now,
        token,
        encode-issued c.codec L claims c.secret ttl now t,
        encode-issued c.codec L mine c.secret ttl' now t,
        resolve-live c L claims ttl now later accounts t h
            ∙ foreign claims kind ttl now accounts k s,
        reset-refused u ttl' now later token new salt accounts d,
        license-refused u ttl' now later token casts d,
        form-refused u ttl' now later token fingerprint session
            (truthy-issued c.codec L mine c.secret ttl' now) d,
        state-refused u ttl' now later token fingerprint d,
      )
