-- ===== src/Samples/Holding.antt =====
-- Leases and locks.
use mathlib.Core.List.{Memᴰ}
use mathlib.Core.Bool.{false≢true}
use researchd_agent.Domain.Base.{seconds}
use researchd_agent.Persistence.Table.{select_where}
use researchd_agent.Persistence.Table.Keyed.{find, Unique}
use researchd_agent.Prelude.{
  nat_eq, string_eq, ok, raise, ℕ, ◌+◌, ◌≤◌, ◌<◌, String, ◌≡◌, refl, ◌≢◌, inl, true, Option, none,
  some, [], ◌∷◌, ◌++◌, arith, eq_iff, option_eq,
}
use researchd_agent.Samples.Data.{any_owner, draw_at}
use researchd_agent.Scheduler.Leases.{
  LeaseRow, Leases, scalar_one_or_none, live, before_colon, LeaseRequest, duplicate_slot, new_lease,
  grant, past_run, acquire, token_of, heartbeat, live_for_run, multiple_results_found,
}
use researchd_agent.Scheduler.Leases.Exclusion.{Refused, live_lease_refuses}
use researchd_agent.Scheduler.Leases.Renewal.{second_lease_breaks_run, revived_lease_overlaps}
use researchd_agent.Scheduler.Locks.{
  LockRow, Locks, lock_key, LockRequest, wanted, acquire_lock, pair_eq,
}
use researchd_agent.Scheduler.Locks.Holding.{held_lock_refuses}

abbrev lease_of : String → String → ℕ → Option ℕ → LeaseRow
lease_of run token expires released = record {
  id = "L-1";
  project_id = some "P-1";
  task_id = some "T-1";
  run_id = some run;
  owner = "scheduler:codex";
  token = token;
  expires_at = expires;
  heartbeat_at = none;
  created_at = 0;
  released_at = released;
}

abbrev request_for : String → LeaseRequest
request_for run = record {
  project_id = some "P-1";
  task_id = some "T-1";
  run_id = some run;
  owner = "scheduler:codex";
  lease_seconds = 300;
}

abbrev held_row : LeaseRow
held_row = lease_of "R-1" "tok-1" 100 none

abbrev held_rows : Leases
held_rows = held_row ∷ []

ten_before : 10 < 100
ten_before = omega arith

live_lease_refuses_example :
    Refused any_owner (request_for "R-1") (draw_at 10 "tok-2") held_rows held_row
live_lease_refuses_example =
    live_lease_refuses any_owner (request_for "R-1") (draw_at 10 "tok-2") held_rows held_row
      (Memᴰ.head refl) (inl (refl, refl, ten_before))

lease_Unique : Unique token_of held_rows
unfolding find
lease_Unique = (refl, tt)

lease_found : find token_of "tok-1" held_rows ≡ some held_row
unfolding find
lease_found = refl

abbrev again_rows : Leases
again_rows = held_rows ++ new_lease any_owner (request_for "R-1") (draw_at 200 "tok-2") ∷ []

granted_again :
    acquire any_owner (request_for "R-1") (draw_at 200 "tok-2") held_rows
    ≡ (ok (some "tok-2"), again_rows)
unfolding acquire select_where scalar_one_or_none duplicate_slot past_run grant before_colon
granted_again = refl

second_lease_breaks_run_example :
    (live_for_run (some "R-1") 250 again_rows ≡ raise multiple_results_found)
    × ((acquire any_owner (request_for "R-1") (draw_at 300 "tok-3") again_rows).0
        ≡ raise multiple_results_found)
second_lease_breaks_run_example =
    second_lease_breaks_run any_owner (request_for "R-1") (draw_at 200 "tok-2") held_rows again_rows
      "tok-2" held_row (draw_at 300 "tok-3") 250 granted_again (Memᴰ.head refl) refl

abbrev other_rows : Leases
other_rows = held_rows ++ new_lease any_owner (request_for "R-2") (draw_at 200 "tok-2") ∷ []

granted_other :
    acquire any_owner (request_for "R-2") (draw_at 200 "tok-2") held_rows
    ≡ (ok (some "tok-2"), other_rows)
unfolding acquire select_where scalar_one_or_none duplicate_slot past_run grant before_colon
granted_other = refl

token_is_fresh : find token_of "tok-2" held_rows ≡ none
unfolding find
token_is_fresh = refl

before_old_runs_out : 260 < 250 + seconds 300
before_old_runs_out = omega arith

before_new_runs_out : 260 < 200 + seconds 300
before_new_runs_out = omega arith

revived_lease_overlaps_example :
    ((heartbeat "tok-1" 300 250 251 other_rows).1 ≡ true)
    × ((a : LeaseRow) × (find token_of "tok-1" (heartbeat "tok-1" 300 250 251 other_rows).0
          ≡ some a)
        × (live 260 a ≡ true))
    × ((b : LeaseRow) × (find token_of "tok-2" (heartbeat "tok-1" 300 250 251 other_rows).0
          ≡ some b)
        × (live 260 b ≡ true)
        × (b.run_id ≡ some "R-2"))
revived_lease_overlaps_example =
    revived_lease_overlaps any_owner (request_for "R-2") (draw_at 200 "tok-2") held_rows other_rows
      "tok-2" "tok-1" held_row 250 251 260 lease_Unique lease_found refl token_is_fresh
      granted_other before_old_runs_out before_new_runs_out

abbrev lock_row : LockRow
lock_row = record {
  id = "K-1";
  project_id = "P-1";
  scope = "repo";
  owner = "one";
  token = "tok-1";
  acquired_at = 0;
  expires_at = 100;
}

abbrev lock_rows : Locks
lock_rows = lock_row ∷ []

abbrev lock_request : LockRequest
lock_request = record { project_id = "P-1"; scope = "repo"; owner = "two"; lock_seconds = 60 }

lock_Unique : Unique lock_key lock_rows
unfolding find
lock_Unique = (refl, tt)

lock_found : find lock_key (wanted lock_request) lock_rows ≡ some lock_row
unfolding find
lock_found = refl

held_lock_refuses_example :
    acquire_lock lock_request "K-2" "tok-2" 10 lock_rows ≡ (ok none, lock_rows)
held_lock_refuses_example =
    held_lock_refuses lock_request lock_rows lock_row lock_Unique lock_found "K-2" "tok-2" 10
      ten_before

run_out : 100 ≤ 200
run_out = omega arith

other_tokens : ◌≢◌ {A = String} "tok-2" "tok-1"
other_tokens h = false≢true ((eq_iff "tok-2" "tok-1").1 h)

ten_to_twenty : 10 ≤ 20
ten_to_twenty = omega arith
