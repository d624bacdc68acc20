-- ===== src/Billing.antt =====
-- app/saas/billing.py over the license rows of app/saas/repository.py: what an organization may do.
-- Times are numbers of seconds; an ISO time that does not parse is `none`.
pub mod Revocation
use autonomous_executive_ema.Base.{
  ℕ, String, Bool, true, false, not, ◌&&◌, Option, none, some, List, [], ◌∷◌, ◌++◌, ltb, leb, keep,
  elem, str_eq, if◌then◌else◌, ◌==◌, or_default, null,
}

pub data LicenseStatus : Type 0 where
  active revoked : LicenseStatus

abbrev pub is_active : LicenseStatus → Bool
is_active active = true
is_active revoked = false

pub record License : Type 0 where
  pub org_id : String
  pub key_id : String
  pub plan : String
  pub seats : ℕ
  pub features : List String
  pub issued_at : ℕ
  pub expires_at : Option ℕ
  pub status : LicenseStatus

-- The status that an entitlement reports.
pub data Standing : Type 0 where
  no_license live expired : Standing

pub record Entitlement : Type 0 where
  pub plan : String
  pub seats : ℕ
  pub seats_used : ℕ
  pub features : List String
  pub standing : Standing
  pub is_valid : Bool

pub data BillingError : Type 0 where
  invalid_key other_organization key_revoked plan_expired feature_missing : BillingError

pub data Result {ℓ} (A : Type ℓ) : Type ℓ where
  ok : A → Result A
  err : BillingError → Result A

-- The active license of the organization with the latest `issued_at`; of two issued at the same
-- time, the one stored first.
unfoldable pub latest : List License → Option License
latest [] = none
latest (l ∷ ls) = elim (latest ls) [
  | none ↦ some l
  | some m ↦ if ltb l.issued_at m.issued_at then some m else some l
]

unfoldable pub get_active_for_org : String → List License → Option License
get_active_for_org org ls = latest (keep (λ l. str_eq l.org_id org && is_active l.status) ls)

unfoldable pub get_by_key_id : String → List License → Option License
get_by_key_id key [] = none
get_by_key_id key (l ∷ ls) = if str_eq l.key_id key then some l else get_by_key_id key ls

-- `LicenseRepository.revoke`, on the first row of the key in the organization.
unfoldable pub revoke : String → String → List License → List License
revoke org key [] = []
revoke org key (l ∷ ls) =
    if str_eq l.key_id key && str_eq l.org_id org
    then record l { status = revoked } ∷ ls
    else l ∷ revoke org key ls

-- `LicenseRepository.revoke_all_for_org`.
unfoldable pub revoke_all_for_org : String → List License → List License
revoke_all_for_org org [] = []
revoke_all_for_org org (l ∷ ls) =
    (if str_eq l.org_id org && is_active l.status then record l { status = revoked } else l)
    ∷ revoke_all_for_org org ls

-- The signed terms of a key, as `licensing.verify_license_key` returns them.
pub record Terms : Type 0 where
  pub key_id : String
  pub org_id : String
  pub plan : String
  pub seats : ℕ
  pub features : List String
  pub expires_at : ℕ

-- `LicenseRepository.upsert`: the row of a known key is renewed in place.
unfoldable pub upsert : Terms → String → ℕ → List License → List License
upsert t org now [] =
    record {
      org_id = org;
      key_id = t.key_id;
      plan = t.plan;
      seats = t.seats;
      features = t.features;
      issued_at = now;
      expires_at = some t.expires_at;
      status = active;
    }
    ∷ []
upsert t org now (l ∷ ls) =
    if str_eq l.key_id t.key_id
    then record l {
      plan = t.plan;
      seats = t.seats;
      features = t.features;
      expires_at = some t.expires_at;
      status = active;
    }
      ∷ ls
    else l ∷ upsert t org now ls

abbrev pub has_expired : Option ℕ → ℕ → Bool
has_expired none now = false
has_expired (some t) now = leb t now

unfoldable pub current_entitlement : List License → ℕ → ℕ → String → Entitlement
current_entitlement ls seats_used now org = elim (get_active_for_org org ls) [
  | none ↦ record {
    plan = "none";
    seats = 0;
    seats_used = seats_used;
    features = [];
    standing = no_license;
    is_valid = false;
  }
  | some l ↦ record {
    plan = l.plan;
    seats = l.seats;
    seats_used = seats_used;
    features = l.features;
    standing = if has_expired l.expires_at now && is_active l.status then expired else live;
    is_valid = is_active l.status && not (has_expired l.expires_at now);
  }
]

unfoldable pub has_seat_available : Entitlement → Bool
has_seat_available e = if not e.is_valid then false else ltb e.seats_used e.seats

unfoldable pub require_active : Entitlement → Result Entitlement
require_active e = if not e.is_valid then err plan_expired else ok e

unfoldable pub require_feature : Entitlement → String → Result (Unit {0})
require_feature e feature = if not (elem feature e.features) then err feature_missing else ok tt

-- `activate_license`, where `verified` is what the verification of the key returned; the answer is
-- the license table after it.
unfoldable pub activate_license : Option Terms → List License → ℕ → String → Result (List License)
activate_license verified ls now org = elim verified [
  | none ↦ err invalid_key
  | some t ↦
      if not (str_eq t.org_id org)
      then err other_organization
      else elim (get_by_key_id t.key_id ls) [
        | none ↦ ok (upsert t org now ls)
        | some l ↦ if not (is_active l.status) then err key_revoked else ok (upsert t org now ls)
      ]
]
