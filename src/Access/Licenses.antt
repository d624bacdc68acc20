-- ===== src/Access/Licenses.antt =====
-- app/saas/licensing.py: the plans, and a license key as a signed token. The id of a key is drawn at
-- random, so it is an argument.
pub mod Minting
use autonomous_executive_ema.Base.{
  ℕ, ◌*◌, String, Bool, true, false, not, Option, none, some, List, [], ◌∷◌, ltb, lookup, str_eq,
  or_default, if◌then◌else◌,
}
use autonomous_executive_ema.Access.{Result, ok, err}
use autonomous_executive_ema.Access.Tokens.{
  Value, text, number, texts, Claims, is_text, Codec, TokenError, encode, decode,
}

pub record Plan : Type 0 where
  pub key : String
  pub name : String
  pub seats : ℕ
  pub features : List String

abbrev trial : Plan
trial = record {
  key = "trial";
  name = "Trial";
  seats = 3;
  features = "approvals" ∷ "analytics" ∷ "audit_log" ∷ "sso" ∷ [];
}

abbrev team : Plan
team = record { key = "team"; name = "Team"; seats = 10; features = "approvals" ∷ "analytics" ∷ [] }

abbrev business : Plan
business = record {
  key = "business";
  name = "Business";
  seats = 50;
  features = "approvals" ∷ "analytics" ∷ "audit_log" ∷ "sso" ∷ [];
}

abbrev enterprise : Plan
enterprise = record {
  key = "enterprise";
  name = "Enterprise";
  seats = 1000;
  features =
      "approvals" ∷ "analytics" ∷ "audit_log" ∷ "sso" ∷ "priority_support" ∷ "custom_models" ∷ [];
}

-- `PLANS`.
abbrev pub plans : List (String × Plan)
plans = ("trial", trial) ∷ ("team", team) ∷ ("business", business) ∷ ("enterprise", enterprise) ∷ []

-- `LicenseError`, by its cause.
pub data LicenseError : Type 0 where
  unknown_plan no_seats not_a_license malformed_claims too_long : LicenseError
  bad_token : TokenError → LicenseError

pub record Entitlement : Type 0 where
  pub key_id : String
  pub org_id : String
  pub plan : String
  pub seats : ℕ
  pub features : List String
  pub issued_at : ℕ
  pub expires_at : ℕ

-- `str(v)`, `int(v)` and `tuple(v)` where they are not the identity: a string for a value that is none,
-- the number that a string spells, and the characters of a string.
pub record Casts : Type 0 where
  pub shown : Value → String
  pub parsed : String → Option ℕ
  pub letters : String → List String

abbrev to_text : Casts → Value → String
to_text c (text s) = s
to_text c v = c.shown v

abbrev to_number : Casts → Value → Option ℕ
to_number c (number n) = some n
to_number c (text s) = c.parsed s
to_number c (texts l) = none

abbrev to_texts : Casts → Option Value → Option (List String)
to_texts c none = some []
to_texts c (some (texts l)) = some l
to_texts c (some (text s)) = some (c.letters s)
to_texts c (some (number n)) = none

-- `int(claims.get(key, 0))`.
abbrev number_or_zero : Casts → Option Value → Option ℕ
number_or_zero c none = some 0
number_or_zero c (some v) = to_number c v

unfoldable pub resolve_plan : String → Option Plan
resolve_plan plan_key = lookup plan_key plans

-- The terms that the claims of a key spell, where they spell any.
unfoldable pub entitlement_of : Casts → Claims → Option Entitlement
entitlement_of c claims = elim (lookup "jti" claims) [
  | none ↦ none
  | some jti ↦ elim (lookup "org" claims) [
    | none ↦ none
    | some org ↦ elim (lookup "plan" claims) [
      | none ↦ none
      | some plan ↦ elim (lookup "seats" claims) [
        | none ↦ none
        | some seats_claim ↦ elim (to_number c seats_claim) [
          | none ↦ none
          | some seats ↦ elim (to_texts c (lookup "feat" claims)) [
            | none ↦ none
            | some features ↦ elim (number_or_zero c (lookup "iat" claims)) [
              | none ↦ none
              | some iat ↦ elim (number_or_zero c (lookup "exp" claims)) [
                | none ↦ none
                | some exp ↦ some (record {
                  key_id = to_text c jti;
                  org_id = to_text c org;
                  plan = to_text c plan;
                  seats = seats;
                  features = features;
                  issued_at = iat;
                  expires_at = exp;
                })
              ]
            ]
          ]
        ]
      ]
    ]
  ]
]

unfoldable pub license_terms : Casts → Claims → Result LicenseError Entitlement
license_terms c claims =
    if not (is_text "license" (lookup "typ" claims))
    then err not_a_license
    else elim (entitlement_of c claims) [ none ↦ err malformed_claims | some terms ↦ ok terms ]

-- `verify_license_key`.
unfoldable pub verify_license_key :
    Codec → Casts → String → String → ℕ → Result LicenseError Entitlement
verify_license_key k c key secret now = elim (decode k key secret now) [
  | err e ↦ err (bad_token e)
  | ok claims ↦ license_terms c claims
]

unfoldable pub license_claims : String → String → String → ℕ → List String → Claims
license_claims key_id org_id plan seats features =
    ("typ", text "license")
    ∷ ("jti", text key_id)
    ∷ ("org", text org_id)
    ∷ ("plan", text plan)
    ∷ ("seats", number seats)
    ∷ ("feat", texts features)
    ∷ []

abbrev pub default_days : String → ℕ
default_days plan = if str_eq plan "trial" then 14 else 3650

-- The end of `mint_license`: the key is signed, and verified at once for its terms.
unfoldable pub signed_license :
    Codec → Casts → Claims → String → ℕ → ℕ → Result LicenseError (String × Entitlement)
signed_license k c claims secret ttl now = elim (encode k claims secret ttl now) [
  | err e ↦ err (bad_token e)
  | ok key ↦ elim (verify_license_key k c key secret now) [
    | err e ↦ err e
    | ok terms ↦ ok (key, terms)
  ]
]

-- `mint_license`; `too_long` is the OverflowError of `timedelta`.
unfoldable pub mint_license :
    Codec
    → Casts
    → String
    → String
    → String
    → String
    → Option ℕ
    → Option (List String)
    → Option ℕ
    → ℕ
    → Result LicenseError (String × Entitlement)
mint_license k c key_id org_id plan secret seats features valid_days now =
    elim (resolve_plan plan) [
      | none ↦ err unknown_plan
      | some plan_def ↦
          let effective_seats = or_default seats plan_def.seats in
          let effective_features = or_default features plan_def.features in
          let days = or_default valid_days (default_days plan) in
          if ltb effective_seats 1
          then err no_seats
          else if ltb 999999999 days
          then err too_long
          else signed_license k c
              (license_claims key_id org_id plan effective_seats effective_features) secret
              (days * 86400) now
    ]
