-- ===== src/Scheduler/Sender/Fenced.antt =====
-- A sender whose row was claimed by another while it delivered.
use researchd_agent.Domain.Base.{seconds}
use researchd_agent.Domain.Enums.Outbox.{OutboxStatus, outbox_status_eq}
use researchd_agent.Persistence.Outbox.{
  OutboxRow, row_id, Outbox, get_by_idempotency_key, claimable, claim, mark_sent,
}
use researchd_agent.Persistence.Outbox.Claims.{OutboxCall, send, interleave, calls_sent}
use researchd_agent.Persistence.Outbox.Generations.{
  claims_of, attempts_count_claims, stale_sender_fenced,
}
use researchd_agent.Persistence.Table.{execute}
use researchd_agent.Persistence.Table.Keyed.{
  find, Unique, if_meets, find-update_self, hit, count-hit, update-Unique,
}
use researchd_agent.Prelude.{
  ◌==◌, nat_eq, string_eq, ℕ, suc, ◌+◌, ◌<◌, String, ◌≡◌, refl, sym, ap, subst, ◌∙◌, true, false,
  Option, some, List, arith, option_eq,
}
use researchd_agent.Scheduler.Sender.{
  DeliveryAnswer, SenderDb, Stats, Surroundings, after_answer, meanwhile, send_one, delivered,
  patch_skipped, delivery_failed,
}

after_answer-fenced :
    (env : Surroundings) (now generation : ℕ) (answer : DeliveryAnswer) (r : OutboxRow)
    (db : SenderDb) (stats : Stats)
    → mark_sent r.id generation now db.outbox ≡ (db.outbox, false)
    → (r.attempts == generation) ≡ false
    → ((after_answer env now generation answer (some r) (db, stats)).0.outbox ≡ db.outbox)
      × ((after_answer env now generation answer (some r) (db, stats)).0.reports ≡ db.reports)
      × ((after_answer env now generation answer (some r) (db, stats)).0.projections
          ≡ db.projections)
      × ((after_answer env now generation answer (some r) (db, stats)).0.events ≡ db.events)
after_answer-fenced env now generation (delivered k) r db stats h n = rw h (refl, refl, refl, refl)
after_answer-fenced env now generation patch_skipped r db stats h n = rw h (refl, refl, refl, refl)
after_answer-fenced env now generation (delivery_failed error) r db stats h n =
    rw n (refl, refl, refl, refl)

later_generation : (a b n : ℕ) → a ≡ b + n → 0 < n → (a == b) ≡ false
later_generation a b n e lt = ground arith

same_some : {A : Type 0} {a b : A} → ◌≡◌ {A = Option A} (some a) (some b) → a ≡ b
same_some h = cc

abbrev in_flight_row : ℕ → OutboxRow → OutboxRow
in_flight_row now r = record r {
  attempts = r.attempts + 1;
  status = OutboxStatus.in_flight;
  next_attempt_at = some (now + seconds 60);
}

claim-Unique :
    (id : String) (a now : ℕ) (rows : Outbox)
    → Unique row_id rows
    → Unique row_id (claim id a 60 now rows).0
unfolding claim execute
claim-Unique id a now rows u = update-Unique row_id id (claimable a now) _ rows (λ x. refl) u

claim-in_flight :
    (now : ℕ) (r : OutboxRow) (rows : Outbox)
    → find row_id r.id rows ≡ some r
    → claimable r.attempts now r ≡ true
    → find row_id r.id (claim r.id r.attempts 60 now rows).0 ≡ some (in_flight_row now r)
unfolding claim execute
claim-in_flight now r rows h m =
    find-update_self row_id r.id (claimable r.attempts now) _ rows (λ x. refl)
    ∙ ap (if_meets row_id (claimable r.attempts now) _) h
    ∙ rw m refl

claim-wins :
    (now : ℕ) (r : OutboxRow) (rows : Outbox)
    → Unique row_id rows
    → find row_id r.id rows ≡ some r
    → claimable r.attempts now r ≡ true
    → (claim r.id r.attempts 60 now rows).1 ≡ true
unfolding claim execute
claim-wins now r rows u h m =
    count-hit row_id r.id (claimable r.attempts now) rows u
    ∙ ap (hit row_id (claimable r.attempts now)) h
    ∙ m

mark_sent-fenced :
    (cs : List OutboxCall) (now : ℕ) (id : String) (generation : ℕ) (r : OutboxRow) (rows : Outbox)
    → Unique row_id rows
    → find row_id id rows ≡ some r
    → r.attempts ≡ generation
    → 0 < claims_of id cs rows
    → mark_sent id generation now (interleave cs rows) ≡ (interleave cs rows, false)
unfolding send
mark_sent-fenced cs now id generation r rows u h same won =
    stale_sender_fenced cs (calls_sent id generation now) id r rows u h won (refl, sym same)

-- A sender claims a row, and while it delivers another sender claims the row too. Whatever the delivery answers, the
-- first sender then leaves the row, its report, the projection states and the events as they are.
pub reclaimed_row_is_left :
    (env : Surroundings) (now : ℕ) (r found : OutboxRow) (db : SenderDb) (stats : Stats)
    → Unique row_id db.outbox
    → find row_id r.id db.outbox ≡ some r
    → claimable r.attempts now r ≡ true
    → 0 < claims_of r.id (env.others r) (claim r.id r.attempts 60 now db.outbox).0
    → find row_id r.id (meanwhile env now r db.outbox) ≡ some found
    → get_by_idempotency_key r.idempotency_key (meanwhile env now r db.outbox) ≡ some found
    → found.id ≡ r.id
    → ((send_one env now r (db, stats)).0.outbox ≡ meanwhile env now r db.outbox)
      × ((send_one env now r (db, stats)).0.reports ≡ db.reports)
      × ((send_one env now r (db, stats)).0.projections ≡ db.projections)
      × ((send_one env now r (db, stats)).0.events ≡ db.events)
unfolding send_one
reclaimed_row_is_left env now r found db stats u h m won at_id at_key_found same =
    let rows = meanwhile env now r db.outbox in
    let table = (claim r.id r.attempts 60 now db.outbox).0 in
    let unique = claim-Unique r.id r.attempts now db.outbox u in
    let there = claim-in_flight now r db.outbox h m in
    let fenced =
      mark_sent-fenced (env.others r) now r.id (r.attempts + 1) (in_flight_row now r) table unique
        there refl won in
    let (r', at_r', grown) =
      attempts_count_claims (env.others r) r.id (in_flight_row now r) table unique there in
    let same_row = same_some (sym at_id ∙ at_r') in
    let moved_on =
      later_generation found.attempts (r.attempts + 1) (claims_of r.id (env.others r) table)
        (ap (λ x. x.attempts) same_row ∙ grown) won in
    rw (claim-wins now r db.outbox u h m, at_key_found)
      (after_answer-fenced env now (r.attempts + 1) (env.deliver r) found
        (record db { outbox = rows }) (record stats { claimed = suc stats.claimed })
        (subst (λ k. mark_sent k (r.attempts + 1) now rows ≡ (rows, false)) (sym same) fenced)
        moved_on)
