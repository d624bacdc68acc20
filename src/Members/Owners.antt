-- ===== src/Members/Owners.antt =====
-- The guards on the last owner and on the seats, over app/saas/org_service.py.
use autonomous_executive_ema.Base.{
  ℕ, ◌+◌, ◌≤◌, ◌<◌, ◌≡◌, true, false, not, Bool, ◌&&◌, String, some, List, [], ◌∷◌, ◌++◌, arith,
  inl, inr, Bool-cases, Option-cases, count_if, count_if-append, max, str_eq, if◌then◌else◌,
}
use autonomous_executive_ema.Billing.{License, Entitlement, current_entitlement, has_seat_available}
use autonomous_executive_ema.Members.{
  Role, User, is_owner, is_user, is_owner_of, get_user, update_role, delete, count_owners,
  invite_member, change_member_role, remove_member, is_last_owner, role_of_name, can_assign_role,
  count_active_for_org, email_exists,
}

-- Whoever is re-roled, the owners of an organization are one fewer at most, and no fewer if the new
-- role is owner or the user found was not one.
update_role-owners :
    (at_org org id : String) (role : Role) (us : List User)
    → count_owners at_org us ≤ count_owners at_org (update_role org id role us) + 1
unfolding update_role count_owners count_if
update_role-owners at_org org id role [] = omega arith
update_role-owners at_org org id role (u ∷ us) =
    ground (arith, update_role-owners at_org org id role us)

update_role-keeps :
    (org id : String) (role : Role) (us : List User) (t : User)
    → get_user org id us ≡ some t
    → (is_owner t.role && not (is_owner role)) ≡ false
    → count_owners org us ≤ count_owners org (update_role org id role us)
unfolding update_role count_owners count_if get_user
update_role-keeps org id role [] t e h = omega arith
update_role-keeps org id role (u ∷ us) t e h = elim (Bool-cases (is_user org id u)) [
  | inl b ↦
      let same : u ≡ t = ground (arith, rw b at e) in
      rw b (weaker (is_owner u.role) (is_owner role) (rw same h))
  | inr b ↦ rw b (omega (arith, update_role-keeps org id role us t (rw b at e) h))
]
  where
    weaker :
        (x y : Bool)
        → (x && not y) ≡ false
        → (if str_eq u.org_id org && x then 1 else 0) + count_if (is_owner_of org) us
          ≤ (if str_eq u.org_id org && y then 1 else 0) + count_if (is_owner_of org) us
    weaker true true h = omega arith
    weaker true false h = ground arith
    weaker false y h = ground arith

delete-owners :
    (org id : String) (us : List User)
    → count_owners org us ≤ count_owners org (delete org id us) + 1
unfolding delete count_owners count_if
delete-owners org id [] = omega arith
delete-owners org id (u ∷ us) = ground (arith, delete-owners org id us)

delete-keeps :
    (org id : String) (us : List User) (t : User)
    → get_user org id us ≡ some t
    → is_owner t.role ≡ false
    → count_owners org us ≤ count_owners org (delete org id us)
unfolding delete count_owners count_if get_user
delete-keeps org id [] t e h = omega arith
delete-keeps org id (u ∷ us) t e h = elim (Bool-cases (is_user org id u)) [
  | inl b ↦
      let same : u ≡ t = ground (arith, rw b at e) in
      let plain : is_owner u.role ≡ false = rw same h in rw b (ground (arith, plain))
  | inr b ↦ rw b (omega (arith, delete-keeps org id us t (rw b at e) h))
]

abbrev pub HasOwner : String → List User → Type 0
HasOwner org us = 1 ≤ count_owners org us

change-keeps :
    (org id : String) (role : Role) (us : List User) (t : User)
    → get_user org id us ≡ some t
    → (not (is_owner role) && is_last_owner org t us) ≡ false
    → HasOwner org us
    → HasOwner org (update_role org id role us)
change-keeps org id role us t e h o = elim (Bool-cases (is_owner t.role && not (is_owner role))) [
  | inl b ↦
      let many : 1 < count_owners org us = ground (arith, h, b) in
      omega (arith, many, update_role-owners org org id role us)
  | inr b ↦ omega (arith, o, update_role-keeps org id role us t e b)
]

remove-keeps :
    (org id : String) (us : List User) (t : User)
    → get_user org id us ≡ some t
    → is_last_owner org t us ≡ false
    → HasOwner org us
    → HasOwner org (delete org id us)
remove-keeps org id us t e h o = elim (Bool-cases (is_owner t.role)) [
  | inl b ↦
      let many : 1 < count_owners org us = ground (arith, h, b) in
      omega (arith, many, delete-owners org id us)
  | inr b ↦ omega (arith, o, delete-keeps org id us t e b)
]

-- An organization with an owner still has one after a change of a member's role, whether the change
-- is made or refused.
pub change_keeps_owner :
    (actor : User) (id name : String) (us : List User)
    → HasOwner actor.org_id us
    → HasOwner actor.org_id (change_member_role actor id name us).1
unfolding change_member_role
change_keeps_owner actor id name us o = elim (Option-cases (role_of_name name)) [
  | inl e ↦ rw (change_member_role, e) o
  | inr (role, e) ↦ elim (Bool-cases (not (can_assign_role actor.role role))) [
    | inl b ↦ rw (change_member_role, e) (rw b o)
    | inr b ↦ elim (Option-cases (get_user actor.org_id id us)) [
      | inl g ↦ rw (change_member_role, e) (rw b (rw g o))
      | inr (t, g) ↦ elim (Bool-cases (not (is_owner role) && is_last_owner actor.org_id t us)) [
        | inl l ↦ rw (change_member_role, e) (rw b (rw g (rw l o)))
        | inr l ↦
            rw (change_member_role, e)
              (rw b (rw g (rw l (change-keeps actor.org_id id role us t g l o))))
      ]
    ]
  ]
]

-- An organization with an owner still has one after the removal of a member, whether the removal is
-- made or refused.
pub remove_keeps_owner :
    (actor : User) (id : String) (us : List User)
    → HasOwner actor.org_id us
    → HasOwner actor.org_id (remove_member actor id us).1
unfolding remove_member
remove_keeps_owner actor id us o = elim (Bool-cases (str_eq id actor.id)) [
  | inl b ↦ rw (remove_member, b) o
  | inr b ↦ elim (Option-cases (get_user actor.org_id id us)) [
    | inl g ↦ rw (remove_member, b) (rw g o)
    | inr (t, g) ↦ elim (Bool-cases (is_last_owner actor.org_id t us)) [
      | inl l ↦ rw (remove_member, b) (rw g (rw l o))
      | inr l ↦ rw (remove_member, b) (rw g (rw l (remove-keeps actor.org_id id us t g l o)))
    ]
  ]
]

seats_used-current_entitlement :
    (ls : List License) (n now : ℕ) (org : String)
    → (current_entitlement ls n now org).seats_used ≡ n
unfolding current_entitlement
seats_used-current_entitlement ls n now org = ground arith

seat_is_free :
    (ls : List License) (n now : ℕ) (org : String)
    → has_seat_available (current_entitlement ls n now org) ≡ true
    → n < (current_entitlement ls n now org).seats
unfolding has_seat_available
seat_is_free ls n now org h = ground (arith, h, seats_used-current_entitlement ls n now org)

active_one_more :
    (org : String) (us : List User) (u : User)
    → count_active_for_org org (us ++ u ∷ []) ≤ count_active_for_org org us + 1
unfolding count_active_for_org count_if
active_one_more org us u =
    ground (arith, count_if-append (λ v. str_eq v.org_id org && v.is_enabled) us (u ∷ []))

-- An invitation never takes an organization past the seats of its plan: the number of active members
-- after it is at most the number before it, or at most the seats.
pub invite_within_seats :
    (lower : String → String) (ls : List License) (now : ℕ) (actor : User)
    (new_id email name : String) (us : List User)
    → count_active_for_org actor.org_id (invite_member lower ls now actor new_id email name us).1
      ≤ max
          (count_active_for_org actor.org_id us)
          (current_entitlement ls (count_active_for_org actor.org_id us) now actor.org_id).seats
unfolding invite_member
invite_within_seats lower ls now actor new_id email name us =
    elim (Option-cases (role_of_name name)) [
      | inl e ↦ rw (invite_member, e) (omega arith)
      | inr (role, e) ↦ elim (Bool-cases (not (can_assign_role actor.role role))) [
        | inl b ↦ rw (invite_member, e) (rw b (omega arith))
        | inr b ↦ elim (Bool-cases (has_seat_available plan)) [
          | inr f ↦ rw (invite_member, e) (rw b (rw f (omega arith)))
          | inl f ↦ elim (Bool-cases (email_exists lower email us)) [
            | inl x ↦ rw (invite_member, e) (rw b (rw f (rw x (omega arith))))
            | inr x ↦
                rw (invite_member, e)
                  (rw b (
                    rw f (
                      rw x (
                        one_more
                          (seat_is_free ls (count_active_for_org actor.org_id us) now actor.org_id
                            f)
                          _))))
          ]
        ]
      ]
    ]
  where
    plan : Entitlement
    plan = current_entitlement ls (count_active_for_org actor.org_id us) now actor.org_id

    one_more :
        count_active_for_org actor.org_id us < plan.seats
        → (u : User)
        → count_active_for_org actor.org_id (us ++ u ∷ [])
          ≤ max (count_active_for_org actor.org_id us) plan.seats
    one_more h u = omega (arith, h, active_one_more actor.org_id us u)
