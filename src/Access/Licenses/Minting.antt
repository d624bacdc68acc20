-- ===== src/Access/Licenses/Minting.antt =====
-- The key that is minted, and the terms that are read back from it.
use Prim.Native.String.{String}
use autonomous_executive_ema.Base.{
  ℕ, ◌+◌, ◌*◌, ◌≤◌, ◌<◌, ◌≡◌, refl, ◌∙◌, true, false, Option, some, List, ltb, lookup, insert,
  truthy, or_default, arith,
}
use autonomous_executive_ema.Access.{ok}
use autonomous_executive_ema.Access.Tokens.{Claims, Codec, decode, stamped}
use autonomous_executive_ema.Access.Tokens.Roundtrip.{
  CodecLaws, issued, encode-issued, decode-issued, accepted-live,
}
use autonomous_executive_ema.Access.Licenses.{
  Plan, Entitlement, Casts, resolve_plan, entitlement_of, license_terms, verify_license_key,
  license_claims, default_days, signed_license, mint_license,
}

-- The terms of a key that is issued with these claims.
abbrev pub granted : String → String → String → ℕ → List String → ℕ → ℕ → Entitlement
granted key_id org_id plan seats features issued_at expires_at = record {
  key_id = key_id;
  org_id = org_id;
  plan = plan;
  seats = seats;
  features = features;
  issued_at = issued_at;
  expires_at = expires_at;
}

license_terms-stamped :
    (c : Casts) (key_id org_id plan : String) (seats : ℕ) (features : List String) (ttl now : ℕ)
    → license_terms c (stamped (license_claims key_id org_id plan seats features) ttl now)
      ≡ ok (granted key_id org_id plan seats features now (now + ttl))
unfolding license_terms entitlement_of stamped license_claims insert lookup
license_terms-stamped c key_id org_id plan seats features ttl now = refl

module _ (k : Codec) (L : CodecLaws k) (c : Casts) where
  verify-decoded :
      (key secret : String) (now : ℕ) (claims : Claims)
      → decode k key secret now ≡ ok claims
      → verify_license_key k c key secret now ≡ license_terms c claims
  unfolding verify_license_key
  verify-decoded key secret now claims d = rw (verify_license_key, d) refl

  verified-live :
      (key_id org_id plan secret : String) (seats : ℕ) (features : List String) (ttl now later : ℕ)
      → truthy secret ≡ true
      → later < now + ttl
      → verify_license_key k c
          (issued k L (license_claims key_id org_id plan seats features) secret ttl now)
          secret
          later
        ≡ ok (granted key_id org_id plan seats features now (now + ttl))
  verified-live key_id org_id plan secret seats features ttl now later t h =
      let claims = license_claims key_id org_id plan seats features in
      verify-decoded (issued k L claims secret ttl now) secret later (stamped claims ttl now)
        (decode-issued k L claims secret ttl now later t ∙ accepted-live k L claims ttl now later h)
      ∙ license_terms-stamped c key_id org_id plan seats features ttl now

  signed_license-granted :
      (key_id org_id plan secret : String) (seats : ℕ) (features : List String) (ttl now : ℕ)
      → truthy secret ≡ true
      → 1 ≤ ttl
      → signed_license k c (license_claims key_id org_id plan seats features) secret ttl now
        ≡ ok (
          issued k L (license_claims key_id org_id plan seats features) secret ttl now,
          granted key_id org_id plan seats features now (now + ttl),
        )
  unfolding signed_license
  signed_license-granted key_id org_id plan secret seats features ttl now t h =
      let claims = license_claims key_id org_id plan seats features in
      rw
        (
          signed_license,
          encode-issued k L claims secret ttl now t,
          verified-live key_id org_id plan secret seats features ttl now now t (omega (arith, h)),
        )
        refl

  -- A license key carries its terms: for a known plan, at least one seat, at least one day and no more
  -- than a `timedelta` takes, and a secret, a key is minted, and until its days are over the key is verified to the organization, the plan, the
  -- seats and the features it was minted for.
  pub mint_license-verified :
      (key_id org_id plan secret : String) (plan_def : Plan) (seats : Option ℕ)
      (features : Option (List String)) (days : Option ℕ) (now later : ℕ)
      → truthy secret ≡ true
      → resolve_plan plan ≡ some plan_def
      → 1 ≤ or_default seats plan_def.seats
      → 1 ≤ or_default days (default_days plan)
      → or_default days (default_days plan) ≤ 999999999
      → later < now + or_default days (default_days plan) * 86400
      → let terms =
          granted key_id org_id plan
            (or_default seats plan_def.seats)
            (or_default features plan_def.features)
            now
            (now + or_default days (default_days plan) * 86400) in
        (key : String) × (mint_license k c key_id org_id plan secret seats features days now
          ≡ ok (key, terms))
        × (verify_license_key k c key secret later ≡ ok terms)
  unfolding mint_license
  mint_license-verified key_id org_id plan secret plan_def seats features days now later t r s d
        most h =
      let n = or_default seats plan_def.seats in
      let fs = or_default features plan_def.features in
      let ttl = or_default days (default_days plan) * 86400 in
      let few : ltb n 1 ≡ false = ground (arith, s) in
      let fit : ltb 999999999 (or_default days (default_days plan)) ≡ false =
        ground (arith, most) in
      (
        issued k L (license_claims key_id org_id plan n fs) secret ttl now,
        rw (mint_license, r, few, fit)
            (signed_license-granted key_id org_id plan secret n fs ttl now t (omega (arith, d))),
        verified-live key_id org_id plan secret n fs ttl now later t h,
      )
