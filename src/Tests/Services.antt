-- ===== src/Tests/Services.antt =====
-- The theorems on licenses, members, contacts and the circuit breaker, and a suppressed pair.
use autonomous_executive_ema.Base.{
  ◌≤◌, ◌≡◌, refl, true, false, [], ◌∷◌, some, List, lookup, arith, max, keep, take, count_if,
}
use autonomous_executive_ema.Billing.{current_entitlement, revoke_all_for_org, has_seat_available}
use autonomous_executive_ema.Billing.Revocation.{revoke_all_cuts_off}
use autonomous_executive_ema.Circuit.{
  Breaker, new_breaker, opened, closed, Provider, replied, raised, generate, is_available,
  ask_secondary, on_success,
}
use autonomous_executive_ema.Circuit.Invariant.{Sound}
use autonomous_executive_ema.Members.{
  User, owner, change_member_role, invite_member, count_active_for_org, count_owners,
}
use autonomous_executive_ema.Members.Owners.{HasOwner, change_keeps_owner, invite_within_seats}
use autonomous_executive_ema.Contacts.{Change, pointed, unset, apply_changes, latest, map_for_org}
use autonomous_executive_ema.Contacts.Latest.{contacts-eq-latest}
use autonomous_executive_ema.Learning.{PairStats, suppressed, pair_stats, list_decided, join}
use autonomous_executive_ema.Models.{reply, unknown}
use autonomous_executive_ema.Policy.Ranking.{sort_by, place}
use autonomous_executive_ema.Queue.{World, email_for, ActionRow, rejected, refused, get_message}
use autonomous_executive_ema.Tests.Data.{license, queue, waiting}

revoke_all_cuts_off_example :
    ((current_entitlement (revoke_all_for_org "acme" (license ∷ [])) 0 5 "acme").is_valid ≡ false)
    × (has_seat_available
          (current_entitlement (revoke_all_for_org "acme" (license ∷ [])) 0 5 "acme")
        ≡ false)
revoke_all_cuts_off_example = revoke_all_cuts_off "acme" (license ∷ []) 0 5

abbrev failing : Provider
failing = λ req. raised

abbrev answering : Provider
answering = λ req. replied "ok"

abbrev broken_circuit : Breaker
broken_circuit = record new_breaker {
  state = opened;
  failure_count = 3;
  last_failure_time = 100;
  total_trips = 1;
}

broken_circuit-Sound : Sound broken_circuit
broken_circuit-Sound = record {
  threshold = omega arith;
  trials = omega arith;
  bounds = omega arith;
}

-- A reply of the second provider closes the breaker before its timeout.
secondary_closes : (generate 110 111 failing (some answering) "hi" broken_circuit).1.state ≡ closed
unfolding generate is_available ask_secondary on_success
secondary_closes = refl

abbrev ann : User
ann = record {
  id = "ann";
  org_id = "acme";
  email = "ann@acme.com";
  role = owner;
  is_enabled = true;
}

abbrev bob : User
bob = record ann { id = "bob"; email = "bob@acme.com" }

team-HasOwner : HasOwner "acme" (ann ∷ bob ∷ [])
unfolding count_owners count_if
team-HasOwner = omega arith

change_keeps_owner_example :
    HasOwner "acme" (change_member_role ann "bob" "member" (ann ∷ bob ∷ [])).1
change_keeps_owner_example = change_keeps_owner ann "bob" "member" (ann ∷ bob ∷ []) team-HasOwner

invite_within_seats_example :
    count_active_for_org "acme"
      (invite_member (λ s. s) (license ∷ []) 5 ann "eve" "eve@acme.com" "member" (ann ∷ [])).1
    ≤ max
        (count_active_for_org "acme" (ann ∷ []))
        (current_entitlement (license ∷ []) (count_active_for_org "acme" (ann ∷ [])) 5 "acme").seats
invite_within_seats_example =
    invite_within_seats (λ s. s) (license ∷ []) 5 ann "eve" "eve@acme.com" "member" (ann ∷ [])

-- Three rejected replies to one sender.
abbrev turned_down : ActionRow
turned_down = record waiting {
  status = rejected;
  outcome = some refused;
  decided_by = some "ann";
  decided_at = some 3;
}

abbrev bad_record : World
bad_record = record queue {
  rows = turned_down ∷ record turned_down { id = 2 } ∷ record turned_down { id = 3 } ∷ [];
}

abbrev three_rejections : PairStats
three_rejections = record { approved_count = 0; edited_count = 0; rejected_count = 3 }

reply-suppressed : suppressed bad_record "acme" reply unknown ≡ some three_rejections
unfolding suppressed pair_stats list_decided join keep sort_by place take get_message count_if
reply-suppressed = refl

-- A role that was set, cleared and set again, the latest change first.
abbrev changes : List Change
changes =
    pointed "acme" "legal_team" "new@acme.com"
    ∷ unset "acme" "legal_team"
    ∷ pointed "other" "legal_team" "law@other.com"
    ∷ pointed "acme" "legal_team" "law@acme.com"
    ∷ []

contacts-eq-latest_example :
    (email_for "acme" "legal_team" (apply_changes changes) ≡ latest "acme" "legal_team" changes)
    × (lookup "legal_team" (map_for_org "acme" (apply_changes changes))
        ≡ latest "acme" "legal_team" changes)
contacts-eq-latest_example = contacts-eq-latest "acme" "legal_team" changes

latest_address : latest "acme" "legal_team" changes ≡ some "new@acme.com"
unfolding latest
latest_address = refl
