-- ===== src/Access/Sessions/Opening.antt =====
-- Which tokens open a session, and onto which row.
use Prim.Native.String.{String}
use autonomous_executive_ema.Base.{
  ℕ, ◌+◌, ◌*◌, ◌<◌, ◌≡◌, refl, ◌∙◌, true, List, lookup, insert, truthy,
}
use autonomous_executive_ema.Members.{User}
use autonomous_executive_ema.Access.{ok}
use autonomous_executive_ema.Access.Tokens.{Claims, decode, stamped}
use autonomous_executive_ema.Access.Tokens.Roundtrip.{
  CodecLaws, issued, encode-issued, decode-issued, accepted-live,
}
use autonomous_executive_ema.Access.Sessions.{
  Account, Config, session_claims, issue_token, admit, get_account, resolve_claims, resolve,
}

module _ (c : Config) (L : CodecLaws c.codec) where
  pub resolve-decoded :
      (token : String) (now : ℕ) (claims : Claims) (accounts : List Account)
      → decode c.codec token c.secret now ≡ ok claims
      → resolve c token now accounts ≡ resolve_claims claims accounts
  unfolding resolve
  resolve-decoded token now claims accounts d = rw (resolve, d) refl

  pub resolve-live :
      (claims : Claims) (ttl now later : ℕ) (accounts : List Account)
      → truthy c.secret ≡ true
      → later < now + ttl
      → resolve c (issued c.codec L claims c.secret ttl now) later accounts
        ≡ resolve_claims (stamped claims ttl now) accounts
  resolve-live claims ttl now later accounts t h =
      resolve-decoded (issued c.codec L claims c.secret ttl now) later (stamped claims ttl now)
        accounts
        (decode-issued c.codec L claims c.secret ttl now later t
          ∙ accepted-live c.codec L claims ttl now later h)

  session-admits :
      (u : User) (ttl now : ℕ) (accounts : List Account)
      → truthy u.id ≡ true
      → truthy u.org_id ≡ true
      → resolve_claims (stamped (session_claims u) ttl now) accounts
        ≡ admit (get_account u.org_id u.id accounts)
  unfolding resolve_claims stamped session_claims insert lookup
  session-admits u ttl now accounts i o = rw (i, o) refl

  -- A session follows the account and not its token: until it expires, the token that was issued for a
  -- user resolves to the row that the table then has for that user's organization and id, with the role
  -- that stands there; a disabled row and a missing one are refused.
  pub resolve-issued :
      (u : User) (now later : ℕ) (accounts : List Account)
      → truthy c.secret ≡ true
      → truthy u.id ≡ true
      → truthy u.org_id ≡ true
      → later < now + c.access_token_ttl_minutes * 60
      → (token : String) × (issue_token c u now ≡ ok token)
        × (resolve c token later accounts ≡ admit (get_account u.org_id u.id accounts))
  unfolding issue_token
  resolve-issued u now later accounts t i o h =
      let ttl = c.access_token_ttl_minutes * 60 in
      (
        issued c.codec L (session_claims u) c.secret ttl now,
        encode-issued c.codec L (session_claims u) c.secret ttl now t,
        resolve-live (session_claims u) ttl now later accounts t h
            ∙ session-admits u ttl now accounts i o,
      )
