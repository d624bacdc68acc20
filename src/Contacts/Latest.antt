-- ===== src/Contacts/Latest.antt =====
-- The table of contacts is a map from roles to addresses.
use autonomous_executive_ema.Base.{
  ◌≡◌, refl, ◌∙◌, String, ◌&&◌, Option, none, some, List, [], ◌∷◌, keep, Dict, insert, lookup,
  lookup-insert, str_eq, str_eq_true, if◌then◌else◌, arith, Bool-cases, inl, inr,
}
use text.Mathlib.TextEquality.{eq_iff}
use autonomous_executive_ema.Queue.{Contact, email_for}
use autonomous_executive_ema.Contacts.{
  is_contact, set_email, clear, fill, map_for_org, Change, pointed, unset, apply_changes, latest,
}

email_for-set_email :
    (o r email org role : String) (cs : List Contact)
    → email_for org role (set_email o r email cs)
      ≡ (if str_eq o org && str_eq r role then some email else email_for org role cs)
unfolding email_for set_email
email_for-set_email o r email org role [] = refl
email_for-set_email o r email org role (c ∷ cs) = ground (
  arith,
  eq_iff o org,
  eq_iff r role,
  eq_iff c.org_id o,
  eq_iff c.org_id org,
  eq_iff c.role r,
  eq_iff c.role role,
  email_for-set_email o r email org role cs,
)

email_for-clear :
    (o r org role : String) (cs : List Contact)
    → email_for org role (clear o r cs).1
      ≡ (if str_eq o org && str_eq r role then none else email_for org role cs)
unfolding email_for clear keep
email_for-clear o r org role [] = ground arith
email_for-clear o r org role (c ∷ cs) = ground (
  arith,
  eq_iff o org,
  eq_iff r role,
  eq_iff c.org_id o,
  eq_iff c.org_id org,
  eq_iff c.role r,
  eq_iff c.role role,
  email_for-clear o r org role cs,
)

-- One row at most for each role of an organization.
abbrev IsUnique : List Contact → Type 0
IsUnique [] = Unit
IsUnique (c ∷ cs) = (email_for c.org_id c.role cs ≡ none) × IsUnique cs

set_email-IsUnique :
    (o r email : String) (cs : List Contact) → IsUnique cs → IsUnique (set_email o r email cs)
unfolding set_email email_for
set_email-IsUnique o r email [] u = (refl, tt)
set_email-IsUnique o r email (c ∷ cs) (n, u) = elim (Bool-cases (is_contact o r c)) [
  | inl b ↦ rw b (n, u)
  | inr b ↦ rw b (
    email_for-set_email o r email c.org_id c.role cs
        ∙ ground
            (arith, b, n, eq_iff o c.org_id, eq_iff r c.role, eq_iff c.org_id o, eq_iff c.role r),
    set_email-IsUnique o r email cs u,
  )
]

clear-IsUnique : (o r : String) (cs : List Contact) → IsUnique cs → IsUnique (clear o r cs).1
unfolding clear keep
clear-IsUnique o r [] u = tt
clear-IsUnique o r (c ∷ cs) (n, u) = elim (Bool-cases (is_contact o r c)) [
  | inl b ↦ rw b (clear-IsUnique o r cs u)
  | inr b ↦
      rw b (email_for-clear o r c.org_id c.role cs ∙ ground (arith, n), clear-IsUnique o r cs u)
]

apply_changes-IsUnique : (xs : List Change) → IsUnique (apply_changes xs)
apply_changes-IsUnique [] = tt
apply_changes-IsUnique (pointed o r email ∷ xs) =
    set_email-IsUnique o r email (apply_changes xs) (apply_changes-IsUnique xs)
apply_changes-IsUnique (unset o r ∷ xs) =
    clear-IsUnique o r (apply_changes xs) (apply_changes-IsUnique xs)

email_for-apply_changes :
    (org role : String) (xs : List Change)
    → email_for org role (apply_changes xs) ≡ latest org role xs
unfolding email_for latest
email_for-apply_changes org role [] = refl
email_for-apply_changes org role (pointed o r email ∷ xs) =
    email_for-set_email o r email org role (apply_changes xs)
    ∙ rw (email_for-apply_changes org role xs) refl
email_for-apply_changes org role (unset o r ∷ xs) =
    email_for-clear o r org role (apply_changes xs) ∙ rw (email_for-apply_changes org role xs) refl

abbrev or_else : Option String → Option String → Option String
or_else none d = d
or_else (some x) d = some x

lookup-fill :
    (org role : String) (cs : List Contact) (d : Dict String)
    → IsUnique cs
    → lookup role (fill org cs d) ≡ or_else (email_for org role cs) (lookup role d)
unfolding fill email_for
lookup-fill org role [] d u = refl
lookup-fill org role (c ∷ cs) d (n, u) = elim (Bool-cases (str_eq c.org_id org)) [
  | inr b ↦ rw b (lookup-fill org role cs d u)
  | inl b ↦ elim (Bool-cases (str_eq c.role role)) [
    | inr e ↦ rw b (
        rw e (
          lookup-fill org role cs (insert c.role c.email d) u
          ∙ rw (lookup-insert c.role role c.email d) (rw e refl)))
    | inl e ↦
        let absent : email_for org role cs ≡ none =
          rw (str_eq_true c.org_id org b, str_eq_true c.role role e) at n in
        rw b (
          rw e (
            lookup-fill org role cs (insert c.role c.email d) u
            ∙ rw (absent, lookup-insert c.role role c.email d) (rw e refl)))
  ]
]

or_else-none : (o : Option String) → or_else o none ≡ o
or_else-none none = refl
or_else-none (some x) = refl

-- After any sequence of changes of an empty table, both readings of it, the address of one role and the
-- dictionary of all, give for every organization and role what the latest change of that role set, and
-- nothing when there was none or it cleared the role.
pub contacts-eq-latest :
    (org role : String) (xs : List Change)
    → (email_for org role (apply_changes xs) ≡ latest org role xs)
      × (lookup role (map_for_org org (apply_changes xs)) ≡ latest org role xs)
unfolding map_for_org lookup
contacts-eq-latest org role xs = (
  email_for-apply_changes org role xs,
  lookup-fill org role (apply_changes xs) [] (apply_changes-IsUnique xs)
      ∙ or_else-none (email_for org role (apply_changes xs))
      ∙ email_for-apply_changes org role xs,
)
