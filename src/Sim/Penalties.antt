-- ===== src/Sim/Penalties.antt =====
-- The penalties for deadlines, and the bounds of a reward.
use autonomous_executive_ema.Base.{
  ◌≡◌, refl, String, Bool, true, false, List, [], ◌∷◌, inl, inr, ◌⊎◌, arith, Floats, ap,
  if◌then◌else◌, if-cases, not, ◌&&◌, elem, elem-cons_self, whole, hundredths, All,
}
use autonomous_executive_ema.Sim.{Env, EmailRecord}
use autonomous_executive_ema.Sim.Steps.{charge_overdue, apply_deadline_penalties, is_overdue}

-- An email that the next round of charges passes over.
abbrev Settled : List String → EmailRecord → Type 0
Settled ids m = (elem m.id ids ≡ true) ⊎ (is_overdue m ≡ false)

Settled-cons :
    (id : String) (ids : List String) (m : EmailRecord) → Settled ids m → Settled (id ∷ ids) m
unfolding elem
Settled-cons id ids m (inl h) = inl (ground (arith, h))
Settled-cons id ids m (inr h) = inr h

uncharged : (b c : Bool) → (not b && c) ≡ false → (b ≡ true) ⊎ (c ≡ false)
uncharged b c h = ground (arith, h)

passed_over : (b c : Bool) → (b ≡ true) ⊎ (c ≡ false) → (not b && c) ≡ false
passed_over b c h = ground (arith, h)

module _ (F : Floats) where
  module _ (amount : F.Float) where
    -- What was settled stays so in the rest of the loop, and each email that is passed becomes so.
    charge-Settled :
        (m : EmailRecord) (ms : List EmailRecord) (p : F.Float) (ids : List String)
        → Settled ids m
        → Settled (charge_overdue F amount ms p ids).1 m
    unfolding charge_overdue
    charge-Settled m [] p ids h = h
    charge-Settled m (x ∷ ms) p ids h =
        let is_charged = not (elem x.id ids) && is_overdue x in
        charge-Settled m ms (if is_charged then F.sub p amount else p)
          (if is_charged then x.id ∷ ids else ids)
          (if-cases (λ js. Settled js m) is_charged _ _ (λ _. Settled-cons x.id ids m h) (λ _. h))

    charge-All :
        (ms : List EmailRecord) (p : F.Float) (ids : List String)
        → All (Settled (charge_overdue F amount ms p ids).1) ms
    unfolding charge_overdue
    charge-All [] p ids = tt
    charge-All (x ∷ ms) p ids =
        let is_charged = not (elem x.id ids) && is_overdue x in
        let q = if is_charged then F.sub p amount else p in
        let js = if is_charged then x.id ∷ ids else ids in
        (
          charge-Settled x ms q js (
              if-cases (λ ks. Settled ks x) is_charged _ _ (λ _. inl (elem-cons_self x.id ids))
                (λ c. uncharged (elem x.id ids) (is_overdue x) c)),
          charge-All ms q js,
        )

    charge-none :
        (ms : List EmailRecord) (p : F.Float) (ids : List String)
        → All (Settled ids) ms
        → charge_overdue F amount ms p ids ≡ (p, ids)
    unfolding charge_overdue
    charge-none [] p ids h = refl
    charge-none (x ∷ ms) p ids (h, hs) =
        rw (passed_over (elem x.id ids) (is_overdue x) h) (charge-none ms p ids hs)

  -- A missed deadline is charged once: charging the deadlines of a state a second time costs nothing and
  -- changes nothing.
  pub apply_deadline_penalties_once :
      (e : Env F)
      → let again = apply_deadline_penalties F (apply_deadline_penalties F e).1 in
        (again.0 ≡ whole F 0) × (again.1 ≡ (apply_deadline_penalties F e).1)
  unfolding apply_deadline_penalties
  apply_deadline_penalties_once e =
      let amount = F.mul (hundredths F 70) e.persona_profile.deadline_penalty_multiplier in
      let first = charge_overdue F amount e.emails (whole F 0) e.deadline_penalized_ids in
      let same =
        charge-none amount e.emails (whole F 0) first.1
          (charge-All amount e.emails (whole F 0) e.deadline_penalized_ids) in
      (
        ap (λ r. r.0) same,
        ap (λ (r : F.Float × List String). record e { deadline_penalized_ids = r.1 }) same,
      )
