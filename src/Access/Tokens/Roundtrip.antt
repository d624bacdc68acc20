-- ===== src/Access/Tokens/Roundtrip.antt =====
-- A token that was issued, and one that was not.
use Prim.Native.Char.{Char}
use Prim.Native.String.{String, ◌++◌}
use Prim.Native.String.append.{nil as append_nil, cons as append_cons}
use autonomous_executive_ema.Base.{
  ℕ, ◌+◌, ◌<◌, ◌≡◌, refl, ap, ◌∙◌, true, false, some, ◌∷◌, lookup, insert, lookup-insert, truthy,
  str_eq, str_eq_refl, split_on-join, append-one, truthy-cons, split_on-lacks, lacks, arith,
}
use autonomous_executive_ema.Access.{ok}
use autonomous_executive_ema.Access.Tokens.{
  Codec, Claims, number, encode, decode, decode_parts, check_parts, read_parts, accepted,
  not_expired, stamped, header, signing_input, assembled, is_ascii,
}

-- What base64url and JSON do: an object that is written is read back, and neither a part nor a
-- signature has a character outside the alphabet of base64url.
pub record CodecLaws (k : Codec) : Type 0 where
  pub loads-dumps : (c : Claims) → k.loads (k.dumps c) ≡ some c
  pub dumps-plain : (c : Claims) → lacks b'.' (k.dumps c) ≡ true
  pub dumps-ascii : (c : Claims) → is_ascii (k.dumps c) ≡ true
  pub sign-plain : (input secret : String) → lacks b'.' (k.sign input secret) ≡ true
  pub sign-ascii : (input secret : String) → is_ascii (k.sign input secret) ≡ true

truthy-append : (s : String) (c : Char) (t : String) → truthy (s ++ (String.◌∷◌ c "" ++ t)) ≡ true
truthy-append String.[] c t =
    ap truthy (append_nil (String.◌∷◌ c "" ++ t) ∙ append-one c t) ∙ truthy-cons c t
truthy-append (String.◌∷◌ d s) c t =
    ap truthy (append_cons d s (String.◌∷◌ c "" ++ t)) ∙ truthy-cons d (s ++ (String.◌∷◌ c "" ++ t))

-- Three parts without a dot are found again.
pub decode-assembled :
    (k : Codec) (h p s secret : String) (now : ℕ)
    → lacks b'.' h ≡ true
    → lacks b'.' p ≡ true
    → lacks b'.' s ≡ true
    → truthy secret ≡ true
    → decode k (assembled h p s) secret now ≡ check_parts k h p s secret now
unfolding decode decode_parts
decode-assembled k h p s secret now lh lp ls t =
    let dot : Char = "." in
    let parts =
      split_on-join dot h (p ++ ("." ++ s)) lh
      ∙ ap (λ rest. h ∷ rest)
          (split_on-join dot p s lp ∙ ap (λ rest. p ∷ rest) (split_on-lacks b'.' s ls)) in
    rw (truthy-append h dot (p ++ ("." ++ s)), t) (ap (λ xs. decode_parts k xs secret now) parts)

module _ (k : Codec) (L : CodecLaws k) where
  -- What is read of a token whose signature is the right one.
  check-signed :
      (head payload : Claims) (secret : String) (now : ℕ)
      → let h = k.dumps head in
        let p = k.dumps payload in
        check_parts k h p (k.sign (signing_input h p) secret) secret now ≡ accepted head payload now
  unfolding check_parts read_parts
  check-signed head payload secret now =
      let h = k.dumps head in
      let p = k.dumps payload in
      let s = k.sign (signing_input h p) secret in
      rw
        (
          L.dumps-ascii head,
          L.dumps-ascii payload,
          L.sign-ascii (signing_input h p) secret,
          str_eq_refl s,
        )
        (rw (read_parts, L.loads-dumps head, L.loads-dumps payload) refl)

  -- The token that `encode` makes with a secret.
  abbrev pub issued : Claims → String → ℕ → ℕ → String
  issued claims secret ttl now =
      let h = k.dumps header in
      let p = k.dumps (stamped claims ttl now) in assembled h p (k.sign (signing_input h p) secret)

  pub encode-issued :
      (claims : Claims) (secret : String) (ttl now : ℕ)
      → truthy secret ≡ true
      → encode k claims secret ttl now ≡ ok (issued claims secret ttl now)
  unfolding encode
  encode-issued claims secret ttl now t = rw t refl

  pub decode-issued :
      (claims : Claims) (secret : String) (ttl now later : ℕ)
      → truthy secret ≡ true
      → decode k (issued claims secret ttl now) secret later
        ≡ accepted header (stamped claims ttl now) later
  decode-issued claims secret ttl now later t =
      let h = k.dumps header in
      let p = k.dumps (stamped claims ttl now) in
      let s = k.sign (signing_input h p) secret in
      decode-assembled k h p s secret later (L.dumps-plain header)
        (L.dumps-plain (stamped claims ttl now)) (L.sign-plain (signing_input h p) secret) t
      ∙ check-signed header (stamped claims ttl now) secret later

  pub truthy-issued :
      (claims : Claims) (secret : String) (ttl now : ℕ)
      → truthy (issued claims secret ttl now) ≡ true
  truthy-issued claims secret ttl now =
      let h = k.dumps header in
      let p = k.dumps (stamped claims ttl now) in
      let dot : Char = "." in truthy-append h dot (p ++ ("." ++ k.sign (signing_input h p) secret))

  -- A key keeps its claim when the two times are stamped on.
  pub stamped-claim :
      (key : String) (claims : Claims) (ttl now : ℕ)
      → str_eq "exp" key ≡ false
      → str_eq "iat" key ≡ false
      → lookup key (stamped claims ttl now) ≡ lookup key claims
  unfolding stamped
  stamped-claim key claims ttl now a b =
      lookup-insert "exp" key (number (now + ttl)) (insert "iat" (number now) claims)
      ∙ rw a (lookup-insert "iat" key (number now) claims ∙ rw b refl)

  pub accepted-live :
      (claims : Claims) (ttl now later : ℕ)
      → later < now + ttl
      → accepted header (stamped claims ttl now) later ≡ ok (stamped claims ttl now)
  unfolding accepted not_expired stamped lookup
  accepted-live claims ttl now later h =
      rw (lookup-insert "exp" "exp" (number (now + ttl)) (insert "iat" (number now) claims))
        (ground (arith, h))

  -- What `encode` signs, `decode` gives back: with a secret, the token of any claims is decoded to these
  -- claims with the times of issue and of expiry, at every time before it expires.
  pub decode-encode :
      (claims : Claims) (secret : String) (ttl now later : ℕ)
      → truthy secret ≡ true
      → later < now + ttl
      → (token : String) × (encode k claims secret ttl now ≡ ok token)
        × (decode k token secret later ≡ ok (stamped claims ttl now))
  decode-encode claims secret ttl now later t h = (
    issued claims secret ttl now,
    encode-issued claims secret ttl now t,
    decode-issued claims secret ttl now later t ∙ accepted-live claims ttl now later h,
  )
