-- ===== src/Persistence/Outbox/Claims.antt =====
-- Claims, leases and generations over every interleaving of senders.
use researchd_agent.Domain.Enums.Outbox.{OutboxStatus, outbox_status_eq}
use researchd_agent.Persistence.Outbox.{
  OutboxRow, row_id, Outbox, has_key, present, enqueue, claimable, claim, held, release, mark_sent,
  mark_dead, backoff,
}
use researchd_agent.Persistence.Table.{execute}
use researchd_agent.Persistence.Table.Keyed.{find, find-update_miss, find-append_some}
use researchd_agent.Prelude.{
  Bool-cases, ◌==◌, nat_eq, string_eq, ℕ, String, ◌≡◌, refl, inl, inr, Bool, true, false, ◌||◌,
  Option, none, some, List, [], ◌∷◌, arith,
}

-- one method call of one sender
pub data OutboxCall : Type 0 where
  calls_enqueue : OutboxRow → OutboxCall
  calls_claim : (id : String) (attempts lease_seconds now : ℕ) → OutboxCall
  calls_release : (id : String) (attempts : ℕ) → OutboxCall
  calls_sent : (id : String) (attempts now : ℕ) → OutboxCall
  calls_dead : (id : String) (attempts : ℕ) (error : String) → OutboxCall
  calls_backoff : (id : String) (attempts now : ℕ) → OutboxCall

-- a rolled back insert leaves the table as it was
abbrev pub inserted : Outbox → Option Outbox → Outbox × Bool
inserted rows none = (rows, false)
inserted rows (some new) = (new, true)

unfoldable pub send : OutboxCall → Outbox → Outbox × Bool
send (calls_enqueue r) rows = inserted rows (enqueue r rows)
send (calls_claim id attempts lease_seconds now) rows = claim id attempts lease_seconds now rows
send (calls_release id attempts) rows = release id attempts rows
send (calls_sent id attempts now) rows = mark_sent id attempts now rows
send (calls_dead id attempts error) rows = mark_dead id attempts error rows
send (calls_backoff id attempts now) rows = backoff id attempts now rows

-- the calls of all senders, in the order in which the database ran them
unfoldable pub interleave : List OutboxCall → Outbox → Outbox
interleave [] rows = rows
interleave (c ∷ cs) rows = interleave cs (send c rows).0

-- SENT and DEAD
abbrev pub is_settled_row : OutboxRow → Bool
is_settled_row r = r.status == OutboxStatus.sent || r.status == OutboxStatus.dead

settled_unclaimable :
    (attempts now : ℕ) (r : OutboxRow)
    → is_settled_row r ≡ true
    → (claimable attempts now r ≡ false) × (held attempts r ≡ false)
settled_unclaimable attempts now r h = (ground arith, ground arith)

pub enqueue-keeps :
    (id : String) (r new : OutboxRow) (rows : Outbox)
    → find row_id id rows ≡ some r
    → find row_id id (inserted rows (enqueue new rows)).0 ≡ some r
unfolding enqueue
enqueue-keeps id r new rows h =
    elim (Bool-cases (present (find row_id new.id rows) || has_key new.idempotency_key rows)) [
      | inl y ↦ rw y h
      | inr n ↦ rw n (find-append_some row_id id rows new r h)
    ]

settled_call :
    (c : OutboxCall) (id : String) (r : OutboxRow) (rows : Outbox)
    → find row_id id rows ≡ some r
    → is_settled_row r ≡ true
    → find row_id id (send c rows).0 ≡ some r
unfolding send claim release mark_sent mark_dead backoff execute
settled_call (calls_enqueue new) id r rows h s = enqueue-keeps id r new rows h
settled_call (calls_claim j a l now) id r rows h s =
    find-update_miss row_id j id (claimable a now) _ rows r (λ x. refl) h
      (settled_unclaimable a now r s).0
settled_call (calls_release j a) id r rows h s =
    find-update_miss row_id j id (held a) _ rows r (λ x. refl) h (settled_unclaimable a 0 r s).1
settled_call (calls_sent j a now) id r rows h s =
    find-update_miss row_id j id (held a) _ rows r (λ x. refl) h (settled_unclaimable a 0 r s).1
settled_call (calls_dead j a error) id r rows h s =
    find-update_miss row_id j id (held a) _ rows r (λ x. refl) h (settled_unclaimable a 0 r s).1
settled_call (calls_backoff j a now) id r rows h s =
    find-update_miss row_id j id (held a) _ rows r (λ x. refl) h (settled_unclaimable a 0 r s).1

-- No sequence of calls of the outbox's methods (enqueue, claim, release, mark_sent, mark_dead and backoff, by any number
-- of senders in any order) changes a row that is SENT or DEAD.
pub settled_row_stays :
    (cs : List OutboxCall) (id : String) (r : OutboxRow) (rows : Outbox)
    → find row_id id rows ≡ some r
    → is_settled_row r ≡ true
    → find row_id id (interleave cs rows) ≡ some r
unfolding interleave
settled_row_stays [] id r rows h s = h
settled_row_stays (c ∷ cs) id r rows h s =
    settled_row_stays cs id r (send c rows).0 (settled_call c id r rows h s) s
