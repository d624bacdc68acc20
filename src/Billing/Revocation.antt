-- ===== src/Billing/Revocation.antt =====
-- What an entitlement says, whatever happened to the license rows.
use autonomous_executive_ema.Base.{
  ℕ, ◌≡◌, refl, ap, false, ◌&&◌, none, List, [], ◌∷◌, String, str_eq, str_eq_iff, keep, arith, ◌∙◌,
}
use autonomous_executive_ema.Billing.{
  License, is_active, latest, get_active_for_org, revoke_all_for_org, current_entitlement,
  has_seat_available,
}

none_active :
    (org : String) (ls : List License)
    → keep (λ l. str_eq l.org_id org && is_active l.status) (revoke_all_for_org org ls) ≡ []
unfolding keep revoke_all_for_org
none_active org [] = refl
none_active org (l ∷ ls) = ground (arith, none_active org ls)

no_active :
    (org : String) (ls : List License) → get_active_for_org org (revoke_all_for_org org ls) ≡ none
unfolding get_active_for_org
no_active org ls = ap latest (none_active org ls) ∙ unfold latest in refl

-- After every license of an organization is revoked its entitlement is not valid, at any time, and
-- it has no seat for another member.
pub revoke_all_cuts_off :
    (org : String) (ls : List License) (used now : ℕ)
    → ((current_entitlement (revoke_all_for_org org ls) used now org).is_valid ≡ false)
      × (has_seat_available (current_entitlement (revoke_all_for_org org ls) used now org) ≡ false)
unfolding current_entitlement has_seat_available
revoke_all_cuts_off org ls used now =
    (ground (arith, no_active org ls), ground (arith, no_active org ls))

revoke_keeps_others :
    (org other : String) (ls : List License)
    → str_eq other org ≡ false
    → keep (λ l. str_eq l.org_id other && is_active l.status) (revoke_all_for_org org ls)
      ≡ keep (λ l. str_eq l.org_id other && is_active l.status) ls
unfolding keep revoke_all_for_org
revoke_keeps_others org other [] d = refl
revoke_keeps_others org other (l ∷ ls) d = ground (
  arith,
  revoke_keeps_others org other ls d,
  str_eq_iff l.org_id org,
  str_eq_iff l.org_id other,
  str_eq_iff other org,
)

same_active :
    (org other : String) (ls : List License)
    → str_eq other org ≡ false
    → get_active_for_org other (revoke_all_for_org org ls) ≡ get_active_for_org other ls
unfolding get_active_for_org
same_active org other ls d = ap latest (revoke_keeps_others org other ls d)

-- Revoking every license of one organization leaves the entitlement of each other one as it was.
pub revoke_all_is_local :
    (org other : String) (ls : List License) (used now : ℕ)
    → str_eq other org ≡ false
    → current_entitlement (revoke_all_for_org org ls) used now other
      ≡ current_entitlement ls used now other
unfolding current_entitlement
revoke_all_is_local org other ls used now d = rw (same_active org other ls d, current_entitlement)
