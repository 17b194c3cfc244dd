-- ===== src/Persistence/Outbox.antt =====
-- src/researchd/persistence/outbox.py and the rows of `OutboxRow` and `OutboxAttemptRow` in models.py. Each
-- method is its one statement over the table of rows; `now` is what it reads from the clock. The payload is
-- the keys that the sender reads. `updated_at` is never read and is left out.
pub mod Claims
pub mod Generations
pub mod Backoff
use researchd_agent.Domain.Base.{seconds}
use researchd_agent.Domain.Enums.Outbox.{OutboxStatus, outbox_status_eq}
use researchd_agent.Persistence.Repository.{sort_onto}
use researchd_agent.Persistence.Table.{select_where, take, execute}
use researchd_agent.Persistence.Table.Keyed.{find, at_key}
use researchd_agent.Prelude.{
  leb, if◌then◌else◌, ◌==◌, nat_eq, string_eq, any, truthy, ℕ, ◌+◌, ◌*◌, ◌^◌, min, String, Bool,
  true, false, ◌&&◌, ◌||◌, Option, none, some, List, [], ◌∷◌, ◌++◌, option_eq,
}

pub record Payload : Type 0 where
  pub kind : Option String
  pub platform_message_id : Option String
  pub report_id : Option String
  pub document_id : String
  pub section_key : String
  pub text : String
  pub expected_remote : Option String
  pub content_hash : Option String
  pub skipped : Bool

pub record OutboxRow : Type 0 where
  pub id : String
  pub project_id : Option String
  pub destination : String
  pub idempotency_key : String
  pub payload : Payload
  pub status : OutboxStatus
  pub attempts : ℕ
  pub max_attempts : ℕ
  pub next_attempt_at : Option ℕ
  pub last_error : Option String
  pub created_at : ℕ
  pub sent_at : Option ℕ

pub record OutboxAttemptRow : Type 0 where
  pub id : String
  pub outbox_id : String
  pub attempted_at : ℕ
  pub success : Bool
  pub error : Option String

abbrev pub row_id : OutboxRow → String
row_id r = r.id

abbrev pub Outbox : Type 0
Outbox = List OutboxRow

abbrev pub has_key : String → Outbox → Bool
has_key k rows = any (λ r. r.idempotency_key == k) rows

unfoldable pub new_row : String → String → String → Payload → Option String → ℕ → ℕ → OutboxRow
new_row id destination idempotency_key payload project_id max_attempts now = record {
  id = id;
  project_id = project_id;
  destination = destination;
  idempotency_key = idempotency_key;
  payload = payload;
  status = OutboxStatus.pending;
  attempts = 0;
  max_attempts = max_attempts;
  next_attempt_at = none;
  last_error = none;
  created_at = now;
  sent_at = none;
}

abbrev pub present {ℓ} : {A : Type ℓ} → Option A → Bool
present none = false
present (some _) = true

-- `none` is the violation of a unique column when the insert is flushed
unfoldable pub enqueue : OutboxRow → Outbox → Option Outbox
enqueue r rows =
    if present (find row_id r.id rows) || has_key r.idempotency_key rows
    then none
    else some (rows ++ r ∷ [])

-- `next_attempt_at <= now`, which is not true of NULL
abbrev pub due : ℕ → Option ℕ → Bool
due now none = false
due now (some t) = leb t now

abbrev pub due_or_null : ℕ → Option ℕ → Bool
due_or_null now none = true
due_or_null now (some t) = leb t now

abbrev pub sendable : ℕ → OutboxRow → Bool
sendable now r =
    r.status == OutboxStatus.pending && due_or_null now r.next_attempt_at
    || r.status == OutboxStatus.in_flight && due now r.next_attempt_at

abbrev pub to_destination : Option String → OutboxRow → Bool
to_destination none r = true
to_destination (some d) r = if truthy d then r.destination == d else true

unfoldable pub pending : ℕ → ℕ → Option String → Outbox → List OutboxRow
unfolding sort_onto
pending now limit destination rows = take limit (
    sort_onto (λ r. r.created_at) []
      (select_where (λ r. sendable now r && to_destination destination r) rows))

unfoldable pub get_by_idempotency_key : String → Outbox → Option OutboxRow
get_by_idempotency_key k [] = none
get_by_idempotency_key k (r ∷ rows) =
    if r.idempotency_key == k then some r else get_by_idempotency_key k rows

abbrev pub claimable : ℕ → ℕ → OutboxRow → Bool
claimable attempts now r =
    r.attempts == attempts
    && (r.status == OutboxStatus.pending
        || r.status == OutboxStatus.in_flight && due now r.next_attempt_at)

unfoldable pub claim : String → ℕ → ℕ → ℕ → Outbox → Outbox × Bool
claim id attempts lease_seconds now = execute (at_key row_id id (claimable attempts now)) (λ r.
    record r {
      attempts = attempts + 1;
      status = OutboxStatus.in_flight;
      next_attempt_at = some (now + seconds lease_seconds);
    })

-- the row is in flight, in the generation of the caller
abbrev pub held : ℕ → OutboxRow → Bool
held attempts r = r.status == OutboxStatus.in_flight && r.attempts == attempts

unfoldable pub release : String → ℕ → Outbox → Outbox × Bool
release id attempts =
    execute (at_key row_id id (held attempts))
      (λ r. record r { status = OutboxStatus.pending; next_attempt_at = none })

unfoldable pub record_attempt :
    String → String → Bool → Option String → ℕ → List OutboxAttemptRow → List OutboxAttemptRow
record_attempt id outbox_id success error now log =
    log
    ++ (record {
      id = id;
      outbox_id = outbox_id;
      attempted_at = now;
      success = success;
      error = error;
    })
      ∷ []

unfoldable pub mark_sent : String → ℕ → ℕ → Outbox → Outbox × Bool
mark_sent id attempts now =
    execute (at_key row_id id (held attempts))
      (λ r. record r { status = OutboxStatus.sent; sent_at = some now; last_error = none })

-- `error` is the message, already cut to 2000 characters
unfoldable pub mark_dead : String → ℕ → String → Outbox → Outbox × Bool
mark_dead id attempts error =
    execute (at_key row_id id (held attempts))
      (λ r. record r { status = OutboxStatus.dead; last_error = some error })

abbrev pub backoff_base_seconds : ℕ
backoff_base_seconds = 5

abbrev pub backoff_max_seconds : ℕ
backoff_max_seconds = 300

-- in seconds
unfoldable pub next_backoff_delay : ℕ → ℕ
next_backoff_delay attempts = min (backoff_base_seconds * 2 ^ min attempts 6) backoff_max_seconds

unfoldable pub backoff : String → ℕ → ℕ → Outbox → Outbox × Bool
backoff id attempts now = execute (at_key row_id id (held attempts)) (λ r. record r {
  status = OutboxStatus.pending;
  next_attempt_at = some (now + seconds (next_backoff_delay attempts));
})
