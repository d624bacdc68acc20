-- ===== src/Members.antt =====
-- app/saas/rbac.py, app/saas/org_service.py and the part of `UserRepository` behind it: who belongs to
-- an organization, and in which role. Passwords and the mail of an invitation are left out; the
-- lower-casing of an address is a parameter.
pub mod Owners
use autonomous_executive_ema.Base.{
  ℕ, String, Bool, true, false, not, ◌&&◌, Option, none, some, List, [], ◌∷◌, ◌++◌, leb, ltb, any,
  count_if, strip, str_eq, if◌then◌else◌,
}
use autonomous_executive_ema.Billing.{License, current_entitlement, has_seat_available}

pub data Role : Type 0 where
  member admin owner : Role

pub record User : Type 0 where
  pub id : String
  pub org_id : String
  pub email : String
  pub role : Role
  pub is_enabled : Bool

-- `OrgError`, by its cause; the HTTP status is 422, 403, 402, 409, 404, 409 and 409.
pub data OrgError : Type 0 where
  unknown_role above_own_role no_seats email_taken member_not_found last_owner own_account :
      OrgError

pub data Result {ℓ} (A : Type ℓ) : Type ℓ where
  ok : A → Result A
  err : OrgError → Result A

abbrev pub rank : Role → ℕ
rank member = 1
rank admin = 2
rank owner = 3

-- `role in ROLES`: the role that a name stands for.
abbrev pub role_of_name : String → Option Role
role_of_name name =
    if str_eq name "owner"
    then some owner
    else if str_eq name "admin"
    then some admin
    else if str_eq name "member"
    then some member
    else none

abbrev pub role_at_least : Role → Role → Bool
role_at_least role required = leb (rank required) (rank role)

abbrev pub can_manage_members : Role → Bool
can_manage_members role = role_at_least role admin

unfoldable pub can_assign_role : Role → Role → Bool
can_assign_role actor target =
    if not (can_manage_members actor) then false else leb (rank target) (rank actor)

abbrev pub is_owner : Role → Bool
is_owner owner = true
is_owner _ = false

abbrev pub is_user : String → String → User → Bool
is_user org id u = str_eq u.id id && str_eq u.org_id org

abbrev pub is_owner_of : String → User → Bool
is_owner_of org u = str_eq u.org_id org && is_owner u.role

-- `UserRepository.get`.
unfoldable pub get_user : String → String → List User → Option User
get_user org id [] = none
get_user org id (u ∷ us) = if is_user org id u then some u else get_user org id us

-- `UserRepository.update_role`.
unfoldable pub update_role : String → String → Role → List User → List User
update_role org id role [] = []
update_role org id role (u ∷ us) =
    if is_user org id u then record u { role = role } ∷ us else u ∷ update_role org id role us

-- `UserRepository.delete`.
unfoldable pub delete : String → String → List User → List User
delete org id [] = []
delete org id (u ∷ us) = if is_user org id u then us else u ∷ delete org id us

-- `len(owners)`.
unfoldable pub count_owners : String → List User → ℕ
count_owners org us = count_if (is_owner_of org) us

-- `UserRepository.count_active_for_org`.
unfoldable pub count_active_for_org : String → List User → ℕ
count_active_for_org org us = count_if (λ u. str_eq u.org_id org && u.is_enabled) us

-- `UserRepository.email_exists`, where `lower` is the lower-casing.
unfoldable pub email_exists : (String → String) → String → List User → Bool
email_exists lower email us = any (λ u. str_eq u.email (strip (lower email))) us

-- `OrgService.invite_member`, with the id that the new row gets.
unfoldable pub invite_member :
    (String → String)
    → List License
    → ℕ
    → User
    → String
    → String
    → String
    → List User
    → Result User × List User
invite_member lower licenses now actor new_id email name us = elim (role_of_name name) [
  | none ↦ (err unknown_role, us)
  | some role ↦
      if not (can_assign_role actor.role role)
      then (err above_own_role, us)
      else if not (
          has_seat_available
            (current_entitlement licenses (count_active_for_org actor.org_id us) now actor.org_id))
      then (err no_seats, us)
      else if email_exists lower email us
      then (err email_taken, us)
      else let u : User = record {
        id = new_id;
        org_id = actor.org_id;
        email = strip (lower email);
        role = role;
        is_enabled = true;
      } in
        (ok u, us ++ u ∷ [])
]

-- Whether taking the owner's role from a user would leave no owner.
abbrev pub is_last_owner : String → User → List User → Bool
is_last_owner org target us = is_owner target.role && leb (count_owners org us) 1

-- `OrgService.change_member_role`.
unfoldable pub change_member_role : User → String → String → List User → Result User × List User
change_member_role actor id name us = elim (role_of_name name) [
  | none ↦ (err unknown_role, us)
  | some role ↦
      if not (can_assign_role actor.role role)
      then (err above_own_role, us)
      else elim (get_user actor.org_id id us) [
        | none ↦ (err member_not_found, us)
        | some target ↦
            if not (is_owner role) && is_last_owner actor.org_id target us
            then (err last_owner, us)
            else (ok (record target { role = role }), update_role actor.org_id id role us)
      ]
]

-- `OrgService.remove_member`.
unfoldable pub remove_member : User → String → List User → Result (Unit {0}) × List User
remove_member actor id us =
    if str_eq id actor.id then (err own_account, us) else elim (get_user actor.org_id id us) [
      | none ↦ (err member_not_found, us)
      | some target ↦
          if is_last_owner actor.org_id target us
          then (err last_owner, us)
          else (ok tt, delete actor.org_id id us)
    ]
