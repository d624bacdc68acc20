-- ===== src/Contacts.antt =====
-- `EscalationContactRepository` of app/saas/repository.py: the address that each escalation role of an
-- organization resolves to. `email_for` is in Queue.
pub mod Latest
use autonomous_executive_ema.Base.{
  String, Bool, not, ◌&&◌, Option, none, some, List, [], ◌∷◌, keep, any, Dict, insert, str_eq,
  if◌then◌else◌,
}
use autonomous_executive_ema.Queue.{Contact}

abbrev pub is_contact : String → String → Contact → Bool
is_contact org role c = str_eq c.org_id org && str_eq c.role role

-- `set_email`.
unfoldable pub set_email : String → String → String → List Contact → List Contact
set_email org role email [] = record { org_id = org; role = role; email = email } ∷ []
set_email org role email (c ∷ cs) =
    if is_contact org role c
    then (record c { email = email }) ∷ cs
    else c ∷ set_email org role email cs

-- `clear`, with whether a row was removed.
unfoldable pub clear : String → String → List Contact → Bool × List Contact
clear org role cs = (any (is_contact org role) cs, keep (λ c. not (is_contact org role c)) cs)

-- The dictionary of `map_for_org`, filled row by row.
unfoldable pub fill : String → List Contact → Dict String → Dict String
fill org [] d = d
fill org (c ∷ cs) d = fill org cs (if str_eq c.org_id org then insert c.role c.email d else d)

unfoldable pub map_for_org : String → List Contact → Dict String
map_for_org org cs = fill org cs []

-- A change of the table, and the changes since it was empty, the latest first.
pub data Change : Type 0 where
  pointed : String → String → String → Change
  unset : String → String → Change

abbrev pub apply_change : Change → List Contact → List Contact
apply_change (pointed org role email) cs = set_email org role email cs
apply_change (unset org role) cs = (clear org role cs).1

abbrev pub apply_changes : List Change → List Contact
apply_changes [] = []
apply_changes (x ∷ xs) = apply_change x (apply_changes xs)

-- What the latest change of a role says of it.
unfoldable pub latest : String → String → List Change → Option String
latest org role [] = none
latest org role (pointed o r email ∷ xs) =
    if str_eq o org && str_eq r role then some email else latest org role xs
latest org role (unset o r ∷ xs) =
    if str_eq o org && str_eq r role then none else latest org role xs
