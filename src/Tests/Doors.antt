-- ===== src/Tests/Doors.antt =====
-- Tokens, sessions, forms, credentials and rate limits on concrete inputs.
use Prim.Native.String.{String}
use autonomous_executive_ema.Base.{
  ◌≡◌, refl, ◌+◌, ◌*◌, ◌≤◌, true, false, none, some, List, [], ◌∷◌, arith, lookup, str_eq, strip,
  split_on, if◌then◌else◌, or_default,
}
use autonomous_executive_ema.Members.{User, owner}
use autonomous_executive_ema.Access.{ok, err}
use autonomous_executive_ema.Access.Tokens.{
  stamped, encode, decode, is_ascii, unencodable, decode_parts, check_parts,
}
use autonomous_executive_ema.Access.Tokens.Roundtrip.{decode-encode}
use autonomous_executive_ema.Access.Licenses.{
  Plan, Casts, resolve_plan, mint_license, verify_license_key, default_days, not_a_license,
}
use autonomous_executive_ema.Access.Licenses.Minting.{granted, mint_license-verified}
use autonomous_executive_ema.Access.Forms.{
  FormConfig, issue_csrf_token, verify_csrf, verify_state, subject_of, other_session,
  not_a_form_token, not_a_state, verify_csrf-issued,
}
use autonomous_executive_ema.Access.Sessions.{
  Account, Config, issue_token, resolve, admit, get_account, get_by_email_global,
  account_with_email, request_password_reset, reset_password, authenticate, reset_claims,
  not_a_session, not_a_reset_link, unhandled,
}
use autonomous_executive_ema.Access.Sessions.Opening.{resolve-issued}
use autonomous_executive_ema.Access.Sessions.Resetting.{reset_password-lets_in}
use autonomous_executive_ema.Access.Separation.{forms_of, tokens_are_separate}
use autonomous_executive_ema.Security.{
  Casing, FixedWindowRateLimiter, resolve_auth, request_is_authorized,
}
use autonomous_executive_ema.Security.Credentials.{resolve_auth-eq-request_is_authorized}
use autonomous_executive_ema.Security.Windows.{granted as let_through, granted-limit}
use autonomous_executive_ema.Tests.Codec.{codec, codec_laws}

abbrev ann : User
ann = record { id = "u1"; org_id = "acme"; email = "ann@acme.com"; role = owner; is_enabled = true }

abbrev accounts : List Account
accounts = record { user = ann; password_hash = "old" } ∷ []

abbrev config : Config
config = record {
  codec = codec;
  secret = "secret";
  access_token_ttl_minutes = 60;
  password_reset_ttl_minutes = 60;
  lower = λ s. s;
  hash_password = λ salt s. s;
  verify_password = str_eq;
}

abbrev forms : FormConfig
forms = forms_of config (λ s. s)

abbrev casts : Casts
casts = record { shown = λ v. ""; parsed = λ s. none; letters = λ s. [] }

decode-encode_example :
    (token : String) × (encode codec (reset_claims ann) "secret" 60 0 ≡ ok token)
    × (decode codec token "secret" 30 ≡ ok (stamped (reset_claims ann) 60 0))
decode-encode_example =
    decode-encode codec codec_laws (reset_claims ann) "secret" 60 0 30 refl (omega arith)

abbrev team_plan : Plan
team_plan = record {
  key = "team";
  name = "Team";
  seats = 10;
  features = "approvals" ∷ "analytics" ∷ [];
}

mint_license-verified_example :
    let terms =
      granted "k1" "acme" "team"
        (or_default none team_plan.seats)
        (or_default none team_plan.features)
        0
        (0 + or_default (some 30) (default_days "team") * 86400) in
    (key : String) × (mint_license codec casts "k1" "acme" "team" "secret" none none (some 30) 0
      ≡ ok (key, terms))
    × (verify_license_key codec casts key "secret" 100 ≡ ok terms)
unfolding resolve_plan lookup
mint_license-verified_example =
    mint_license-verified codec codec_laws casts "k1" "acme" "team" "secret" team_plan none none
      (some 30) 0 100 refl refl (omega arith) (omega arith) (omega arith) (omega arith)

verify_csrf-issued_example :
    (token : String) × (issue_csrf_token forms (some "s1") 0 ≡ ok token)
    × (verify_csrf forms (some "s2") (some token) 9 ≡ (
        if str_eq
          (forms.fingerprint (subject_of (some "s1")))
          (forms.fingerprint (subject_of (some "s2")))
        then ok tt
        else err other_session))
verify_csrf-issued_example =
    verify_csrf-issued forms codec_laws (some "s1") (some "s2") 0 9 refl (omega arith)

resolve-issued_example :
    (token : String) × (issue_token config ann 0 ≡ ok token)
    × (resolve config token 9 accounts ≡ admit (get_account ann.org_id ann.id accounts))
resolve-issued_example =
    resolve-issued config codec_laws ann 0 9 accounts refl refl refl (omega arith)

-- A token outside ASCII is not refused: the exception leaves `resolve`.
resolve-unhandled : resolve config "é.b.c" 9 accounts ≡ err (unhandled unencodable)
unfolding split_on is_ascii resolve decode decode_parts check_parts
resolve-unhandled = refl

reset_password-lets_in_example :
    (token : String) × (after : List Account) × (request_password_reset config "ann@acme.com" 0
        accounts
      ≡ some (ok token))
    × (reset_password config token "new" "salt" 9 accounts ≡ ok (ann, after))
    × (authenticate config "ann@acme.com" "new" after ≡ ok ann)
unfolding get_by_email_global account_with_email get_account strip
reset_password-lets_in_example =
    reset_password-lets_in config codec_laws "ann@acme.com" "new" "salt"
      (record { user = ann; password_hash = "old" }) accounts 0 9 refl refl refl refl refl refl refl
      (omega arith)

tokens_are_separate_example :
    (other token : String) × (encode codec (reset_claims ann) "secret" 60 0 ≡ ok other)
    × (issue_token config ann 0 ≡ ok token)
    × (resolve config other 9 accounts ≡ err not_a_session)
    × (reset_password config token "new" "salt" 9 accounts ≡ err not_a_reset_link)
    × (verify_license_key codec casts token "secret" 9 ≡ err not_a_license)
    × (verify_csrf (forms_of config (λ s. s)) none (some token) 9 ≡ err not_a_form_token)
    × (verify_state (forms_of config (λ s. s)) token 9 ≡ err not_a_state)
unfolding reset_claims lookup
tokens_are_separate_example =
    tokens_are_separate config codec_laws (reset_claims ann) "password_reset" ann accounts casts
      (λ s. s) none "new" "salt" 60 0 9 refl refl refl (omega arith) (omega arith)

abbrev casing : Casing
casing = record { upper = λ s. s; lower = λ s. s }

resolve_auth-eq-request_is_authorized_example :
    (resolve_auth casing "POST" (some "key") [] (some "bearer key") none false).0
    ≡ request_is_authorized casing "POST" (some "key") (some "bearer key") none
resolve_auth-eq-request_is_authorized_example =
    resolve_auth-eq-request_is_authorized casing "POST" (some "key") (some "bearer key") none

abbrev limiter : FixedWindowRateLimiter
limiter = record { window_seconds = 60; hits = [] }

granted-limit_example :
    let_through "a" 2 (("a", 1) ∷ ("b", 2) ∷ ("a", 3) ∷ ("a", 59) ∷ []) limiter ≤ 2
granted-limit_example =
    granted-limit "a" 2 0 (("a", 1) ∷ ("b", 2) ∷ ("a", 3) ∷ ("a", 59) ∷ []) limiter (omega arith)
      (refl, (refl, (refl, (refl, tt))))
