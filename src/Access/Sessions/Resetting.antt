-- ===== src/Access/Sessions/Resetting.antt =====
-- A reset password lets its user in.
use Prim.Native.String.{String}
use mathlib.Core.Path.{subst}
use mathlib.Core.Option.{some-injective}
use autonomous_executive_ema.Base.{
  ℕ, ◌+◌, ◌*◌, ◌<◌, ◌≡◌, refl, sym, ◌∙◌, Bool, true, false, not, Option, some, List, [], ◌∷◌,
  lookup, insert, str_eq, str_eq_refl, truthy, if◌then◌else◌, ◌⊎◌, inl, inr, arith, strip,
}
use autonomous_executive_ema.Members.{User}
use autonomous_executive_ema.Access.{ok, err}
use autonomous_executive_ema.Access.Tokens.{decode, stamped}
use autonomous_executive_ema.Access.Tokens.Roundtrip.{
  CodecLaws, issued, encode-issued, decode-issued, accepted-live,
}
use autonomous_executive_ema.Access.Sessions.{
  Account, Config, account_disabled, invalid_credentials, is_row, get_account, account_with_email,
  get_by_email_global, set_password, authenticate, reset_claims, reset_claimed,
  request_password_reset, reset_password,
}

abbrev with_hash : String → Account → Account
with_hash h a = record a { password_hash = h }

-- What the first test of a search says of its result.
first_row :
    (b : Bool) (x a : Account) (rest : Option Account)
    → (if b then some x else rest) ≡ some a
    → ((b ≡ true) × (x ≡ a)) ⊎ ((b ≡ false) × (rest ≡ some a))
first_row true x a rest h = inl (refl, some-injective x a h)
first_row false x a rest h = inr (refl, h)

account_with_email-email :
    (email : String) (accounts : List Account) (a : Account)
    → account_with_email email accounts ≡ some a
    → str_eq a.user.email email ≡ true
unfolding account_with_email
account_with_email-email email [] a h = ground (arith, h)
account_with_email-email email (x ∷ rest) a h =
    elim (first_row (str_eq x.user.email email) x a (account_with_email email rest) h) [
      | inl (b, e) ↦ subst (λ (z : Account). str_eq z.user.email email ≡ true) e b
      | inr (b, k) ↦ account_with_email-email email rest a k
    ]

is_row_self : (a : Account) → is_row a.user.org_id a.user.id a ≡ true
is_row_self a = ground (arith, str_eq_refl a.user.id, str_eq_refl a.user.org_id)

-- The row that an address and an id both find is found by the address with its new password.
set_password-found :
    (email hash : String) (accounts : List Account) (a : Account)
    → account_with_email email accounts ≡ some a
    → get_account a.user.org_id a.user.id accounts ≡ some a
    → account_with_email email (set_password a.user.org_id a.user.id hash accounts)
      ≡ some (with_hash hash a)
unfolding account_with_email get_account set_password
set_password-found email hash [] a h k = ground (arith, h)
set_password-found email hash (x ∷ rest) a h k =
    let org = a.user.org_id in
    let id = a.user.id in
    elim (first_row (str_eq x.user.email email) x a (account_with_email email rest) h) [
      | inl (b, e) ↦
          subst
            (λ (z : Account).
              account_with_email email (set_password z.user.org_id z.user.id hash (x ∷ rest))
              ≡ some (with_hash hash z))
            e (rw (is_row_self x, b) refl)
      | inr (b, h') ↦ elim (first_row (is_row org id x) x a (get_account org id rest) k) [
        | inl (c, e) ↦
            let same =
              subst (λ (z : Account). str_eq z.user.email email ≡ true) (sym e)
                (account_with_email-email email rest a h') in
            ground (arith, b, same)
        | inr (c, k') ↦ rw (c, b) (set_password-found email hash rest a h' k')
      ]
    ]

enter :
    (enabled verified : Bool) (u : User)
    → enabled ≡ true
    → verified ≡ true
    → (if not enabled
        then err account_disabled
        else if not verified
        then err invalid_credentials
        else ok u)
      ≡ ok u
enter true true u h k = refl
enter true false u h k = ground (arith, k)
enter false v u h k = ground (arith, h)

module _ (c : Config) (L : CodecLaws c.codec) where
  reset-live :
      (token new salt : String) (ttl now later : ℕ) (a : Account) (accounts : List Account)
      → truthy a.user.id ≡ true
      → truthy a.user.org_id ≡ true
      → get_account a.user.org_id a.user.id accounts ≡ some a
      → decode c.codec token c.secret later ≡ ok (stamped (reset_claims a.user) ttl now)
      → reset_password c token new salt later accounts
        ≡ ok (a.user, set_password a.user.org_id a.user.id (c.hash_password salt new) accounts)
  unfolding reset_password reset_claimed stamped reset_claims insert lookup
  reset-live token new salt ttl now later a accounts i o g d = rw (reset_password, d, i, o, g) refl

  lets_in :
      (email password : String) (a : Account) (accounts : List Account)
      → get_by_email_global c email accounts ≡ some a
      → a.user.is_enabled ≡ true
      → c.verify_password password a.password_hash ≡ true
      → authenticate c email password accounts ≡ ok a.user
  unfolding authenticate
  lets_in email password a accounts g e v =
      rw (authenticate, g)
        (enter a.user.is_enabled (c.verify_password password a.password_hash) a.user e v)

  -- A forgotten password is recovered: for an enabled account that its address and its id both find, a
  -- reset token is issued, the token sets the new password until it expires, and the new password then
  -- signs the user in. A password is taken to be verified against its own hash.
  pub reset_password-lets_in :
      (email new salt : String) (a : Account) (accounts : List Account) (now later : ℕ)
      → truthy c.secret ≡ true
      → truthy a.user.id ≡ true
      → truthy a.user.org_id ≡ true
      → a.user.is_enabled ≡ true
      → get_by_email_global c email accounts ≡ some a
      → get_account a.user.org_id a.user.id accounts ≡ some a
      → c.verify_password new (c.hash_password salt new) ≡ true
      → later < now + c.password_reset_ttl_minutes * 60
      → (token : String) × (after : List Account) × (request_password_reset c email now accounts
          ≡ some (ok token))
        × (reset_password c token new salt later accounts ≡ ok (a.user, after))
        × (authenticate c email new after ≡ ok a.user)
  unfolding request_password_reset get_by_email_global
  reset_password-lets_in email new salt a accounts now later t i o e g r v h =
      let ttl = c.password_reset_ttl_minutes * 60 in
      let claims = reset_claims a.user in
      let hash = c.hash_password salt new in
      let token = issued c.codec L claims c.secret ttl now in
      let after = set_password a.user.org_id a.user.id hash accounts in
      (
        token,
        after,
        rw (request_password_reset, g, encode-issued c.codec L claims c.secret ttl now t) refl,
        reset-live token new salt ttl now later a accounts i o r (
            decode-issued c.codec L claims c.secret ttl now later t
            ∙ accepted-live c.codec L claims ttl now later h),
        lets_in email new (with_hash hash a) after
            (set_password-found (strip (c.lower email)) hash accounts a g r) e v,
      )
