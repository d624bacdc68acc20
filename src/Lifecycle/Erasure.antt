-- ===== src/Lifecycle/Erasure.antt =====
-- What a deletion leaves behind, and what it leaves alone.
use mathlib.Core.Path.{subst}
use autonomous_executive_ema.Base.{
  count_if-keep-not, ℕ, ◌+◌, ◌≡◌, refl, sym, ◌∙◌, String, true, false, not, ◌&&◌, Option, none,
  some, List, [], ◌∷◌, map, keep, elem, str_eq, str_eq_true, if◌then◌else◌, is_some, if-cases, All,
  keep-disjoint, arith, Bool-cases, Option-cases, inl, inr,
}
use autonomous_executive_ema.Lifecycle.{
  Row, Organization, Database, tenant_tables, owned_by, owned, org_tables, left_in, remaining_rows,
  get_org, export_org, cleared, delete_org, is_expired, expired_sandbox_ids, purge, purge_expired,
}

module _ (org : String) where
  -- What a filter and its opposite leave together.
  none-left : (rows : List Row) → keep (owned org) (keep (λ row. not (owned org row)) rows) ≡ []
  unfolding keep
  none-left [] = refl
  none-left (r ∷ rows) = elim (Bool-cases (owned org r)) [
    | inl b ↦ rw b (none-left rows)
    | inr b ↦ rw b (rw b (none-left rows))
  ]

  foreign-owner :
      (other : String) (o : Option String)
      → str_eq org other ≡ false
      → owned_by org o ≡ true
      → owned_by other o ≡ false
  foreign-owner other none d h = ground (arith, h)
  foreign-owner other (some o) d h =
      subst (λ x. str_eq x other ≡ false) (sym (str_eq_true o org h)) d

  foreign-row :
      (other : String) (r : Row)
      → str_eq org other ≡ false
      → owned org r ≡ true
      → owned other r ≡ false
  unfolding owned
  foreign-row other r d h = foreign-owner other r.org_id d h

  others-left :
      (other : String) (rows : List Row)
      → str_eq org other ≡ false
      → keep (owned other) (keep (λ row. not (owned org row)) rows) ≡ keep (owned other) rows
  others-left other rows d =
      keep-disjoint (owned org) (owned other) rows (λ r h. foreign-row other r d h)

  org-gone : (os : List Organization) → get_org org (keep (λ x. not (str_eq x.id org)) os) ≡ none
  unfolding keep get_org
  org-gone [] = refl
  org-gone (o ∷ os) = elim (Bool-cases (str_eq o.id org)) [
    | inl b ↦ rw b (org-gone os)
    | inr b ↦ rw b (rw b (org-gone os))
  ]

  -- Each table with an organization column is one of those that a deletion walks.
  covered : All (λ key. elem key tenant_tables ≡ true) org_tables
  unfolding elem
  covered = (refl, (refl, (refl, (refl, (refl, (refl, (refl, (refl, (refl, (refl, tt))))))))))

  cleared-tables :
      (keys : List String) (db : Database)
      → All (λ key. elem key tenant_tables ≡ true) keys
      → All (λ key. keep (owned org) (cleared org db key) ≡ []) keys
  unfolding cleared
  cleared-tables [] db h = tt
  cleared-tables (key ∷ keys) db (h, hs) =
      (rw h (none-left (db.tables key)), cleared-tables keys db hs)

  left_in-cleared :
      (keys : List String) (os : List Organization) (db : Database)
      → All (λ key. elem key tenant_tables ≡ true) keys
      → left_in org (record { organizations = os; tables = cleared org db }) keys ≡ []
  unfolding left_in cleared
  left_in-cleared [] os db h = refl
  left_in-cleared (key ∷ keys) os db (h, hs) =
      rw h (rw (count_if-keep-not (owned org) (db.tables key)) (left_in-cleared keys os db hs))

  others-cleared :
      (other : String) (db : Database) (key : String)
      → str_eq org other ≡ false
      → keep (owned other) (cleared org db key) ≡ keep (owned other) (db.tables key)
  unfolding cleared
  others-cleared other db key d =
      if-cases (λ rows. keep (owned other) rows ≡ keep (owned other) (db.tables key))
        (elem key tenant_tables) _ _ (λ _. others-left other (db.tables key) d) (λ _. refl)

  deleted :
      (db : Database) (o : Organization)
      → get_org org db.organizations ≡ some o
      → (delete_org org db).1 ≡ record {
        organizations = keep (λ x. not (str_eq x.id org)) db.organizations;
        tables = cleared org db;
      }
  unfolding delete_org
  deleted db o h = rw (delete_org, h) refl

  -- An erasure is complete and is confined: when an organization that exists is deleted, no table of the
  -- schema that has an organization column holds a row of it, so that `remaining_rows` reports nothing, and it
  -- cannot be exported, while every table holds the same rows of any other organization as before.
  pub delete_org-erases :
      (other key : String) (db : Database) (o : Organization)
      → get_org org db.organizations ≡ some o
      → str_eq org other ≡ false
      → let after = (delete_org org db).1 in
        All (λ k. keep (owned org) (after.tables k) ≡ []) org_tables
        × (remaining_rows org after ≡ [])
        × (export_org org after ≡ none)
        × (keep (owned other) (after.tables key) ≡ keep (owned other) (db.tables key))
  unfolding export_org remaining_rows
  delete_org-erases other key db o h d =
      subst
        (λ (after : Database).
          All (λ k. keep (owned org) (after.tables k) ≡ []) org_tables
          × (remaining_rows org after ≡ [])
          × (export_org org after ≡ none)
          × (keep (owned other) (after.tables key) ≡ keep (owned other) (db.tables key)))
        (sym (deleted db o h))
        (
          cleared-tables org_tables db covered,
          rw
              (
                remaining_rows,
                count_if-keep-not (λ (o : Organization). str_eq o.id org) db.organizations,
              )
              (left_in-cleared org_tables (keep (λ x. not (str_eq x.id org)) db.organizations) db
                covered),
          rw (export_org, org-gone db.organizations) refl,
          others-cleared other db key d,
        )

-- Deleting organizations leaves the rows of another alone.
delete-others :
    (org other key : String) (db : Database)
    → str_eq org other ≡ false
    → keep (owned other) ((delete_org org db).1.tables key) ≡ keep (owned other) (db.tables key)
unfolding delete_org
delete-others org other key db d = elim (Option-cases (get_org org db.organizations)) [
  | inl n ↦ rw (delete_org, n) refl
  | inr (o, p) ↦ rw (delete_org, p) (others-cleared org other db key d)
]

purge-others :
    (orgs : List String) (other key : String) (n : ℕ) (db : Database)
    → All (λ org. str_eq org other ≡ false) orgs
    → keep (owned other) ((purge orgs (n, db)).1.tables key) ≡ keep (owned other) (db.tables key)
unfolding purge
purge-others [] other key n db h = refl
purge-others (org ∷ orgs) other key n db (d, h) =
    purge-others orgs other key (if is_some (delete_org org db).0 then n + 1 else n)
      (delete_org org db).1 h
    ∙ delete-others org other key db d

expired-others :
    (now : ℕ) (other : String) (os : List Organization)
    → All (λ o. (str_eq o.id other && is_expired now o) ≡ false) os
    → All (λ org. str_eq org other ≡ false) (map (λ o. o.id) (keep (is_expired now) os))
unfolding keep
expired-others now other [] h = tt
expired-others now other (o ∷ os) (h, hs) = elim (Bool-cases (is_expired now o)) [
  | inl b ↦ rw b (ground (arith, b, h), expired-others now other os hs)
  | inr b ↦ rw b (expired-others now other os hs)
]

-- A purge takes expired sandboxes only: the rows of an organization that is no sandbox past its deadline
-- are the same in every table after it.
pub purge_expired-spares :
    (now : ℕ) (other key : String) (db : Database)
    → All (λ o. (str_eq o.id other && is_expired now o) ≡ false) db.organizations
    → keep (owned other) ((purge_expired now db).1.tables key) ≡ keep (owned other) (db.tables key)
unfolding purge_expired expired_sandbox_ids
purge_expired-spares now other key db h =
    purge-others (expired_sandbox_ids now db) other key 0 db
      (expired-others now other db.organizations h)
