-- ===== src/Scheduler/Sender.antt =====
-- `OutboxSender.send_pending` of src/researchd/scheduler/outbox_sender.py with its write-backs. What the delivery of a row answers and
-- the calls that other senders commit meanwhile are given; the clock reads the same throughout a pass.
pub mod Retries
pub mod Fenced
use Prim.Native.String.{◌++◌ as str_append}
use researchd_agent.Application.ApplyResult.Whole.{has_event}
use researchd_agent.Application.Audit.Data.{first_chars}
use researchd_agent.Domain.Event.{Event, system_actor}
use researchd_agent.Persistence.Outbox.{
  Payload, OutboxRow, OutboxAttemptRow, Outbox, pending, get_by_idempotency_key, claim,
  record_attempt, mark_sent, mark_dead, backoff,
}
use researchd_agent.Persistence.Outbox.Claims.{OutboxCall, interleave}
use researchd_agent.Persistence.Table.{update_where}
use researchd_agent.Prelude.{
  leb, if◌then◌else◌, ◌==◌, nat_eq, string_eq, any, truthy, given, ℕ, suc, ◌+◌, String, Bool, true,
  false, not, ◌&&◌, Option, none, some, List, [], ◌∷◌, ◌++◌, option_eq,
}

pub data DeliveryAnswer : Type 0 where
  delivered : String → DeliveryAnswer
  patch_skipped : DeliveryAnswer
  delivery_failed : String → DeliveryAnswer

-- the columns of `ReportRow` and `ProjectionStateRow` that are written
pub record ReportHandle : Type 0 where
  pub report_id : String
  pub platform_message_id : Option String
  pub status : Option String

pub record ProjectionStateRow : Type 0 where
  pub id : String
  pub project_id : Option String
  pub document_id : String
  pub section_key : String
  pub content_hash : Option String

pub record SenderDb : Type 0 where
  pub outbox : Outbox
  pub attempts_log : List OutboxAttemptRow
  pub reports : List ReportHandle
  pub projections : List ProjectionStateRow
  pub events : List Event

pub record Stats : Type 0 where
  pub claimed : ℕ
  pub sent : ℕ
  pub failed : ℕ
  pub dead : ℕ
  pub released : ℕ
  pub skipped : ℕ

-- the surroundings of a pass, and the ids that it draws for a row
pub record Surroundings : Type 0 where
  pub deliver : OutboxRow → DeliveryAnswer
  pub others : OutboxRow → List OutboxCall
  pub attempt_id : OutboxRow → String
  pub projection_id : OutboxRow → String
  pub event_id : OutboxRow → String
  pub section_hash : String → String

abbrev pub SenderState : Type 0
SenderState = SenderDb × Stats

abbrev pub set_payload : String → Payload → Outbox → Outbox
set_payload id payload rows =
    update_where (λ r. r.id == id) (λ r. record r { payload = payload }) rows

abbrev pub is_report : Option String → ReportHandle → Bool
is_report none r = false
is_report (some k) r = truthy k && r.report_id == k

unfoldable pub write_back_delivery : OutboxRow → String → SenderDb → SenderDb
write_back_delivery row delivery_id db = if not (truthy delivery_id) then db else record db {
  outbox =
      set_payload row.id (record row.payload { platform_message_id = some delivery_id }) db.outbox;
  reports =
      update_where (is_report row.payload.report_id)
        (λ r. record r { platform_message_id = some delivery_id; status = some "SENT" }) db.reports;
}

abbrev pub is_state : OutboxRow → ProjectionStateRow → Bool
is_state row s =
    s.project_id == row.project_id
    && s.document_id == row.payload.document_id
    && s.section_key == row.payload.section_key

abbrev pub text_or_none : Option String → String
text_or_none none = "None"
text_or_none (some s) = s

abbrev pub hash_of : (String → String) → Payload → String
hash_of section_hash p =
    if given p.content_hash then text_or_none p.content_hash else section_hash p.text

abbrev pub projection_key : OutboxRow → String → String
projection_key row content_hash = str_append "projection-sent:" (
    str_append (text_or_none row.project_id) (
      str_append ":" (
        str_append row.payload.document_id (
          str_append ":" (
            str_append row.payload.section_key
              (str_append ":" (str_append content_hash (str_append ":" row.id))))))))

abbrev pub projection_event : ℕ → String → OutboxRow → String → Event
projection_event now event_id row content_hash = record {
  event_id = event_id;
  event_type = "projection.updated";
  occurred_at = now;
  project_id = row.project_id;
  aggregate = record {
    type = "projection";
    id = str_append row.payload.document_id (str_append ":" row.payload.section_key);
    version = 1;
  };
  actor = system_actor;
  correlation_id = none;
  causation_id = none;
  idempotency_key = projection_key row content_hash;
  payload =
      ("section_key", row.payload.section_key)
      ∷ ("content_hash", content_hash)
      ∷ ("outbox_row_id", row.id)
      ∷ [];
}

abbrev pub projected :
    String → OutboxRow → String → List ProjectionStateRow → List ProjectionStateRow
projected id row content_hash states =
    if any (is_state row) states
    then update_where (is_state row) (λ s. record s { content_hash = some content_hash }) states
    else states
      ++ record {
        id = id;
        project_id = row.project_id;
        document_id = row.payload.document_id;
        section_key = row.payload.section_key;
        content_hash = some content_hash;
      }
        ∷ []

abbrev pub is_doc_block : Option String → Bool
is_doc_block none = false
is_doc_block (some kind) = kind == "doc_block"

unfoldable pub write_back_projection : Surroundings → ℕ → OutboxRow → SenderDb → SenderDb
write_back_projection env now row db =
    let content_hash = hash_of env.section_hash row.payload in
    if not (is_doc_block row.payload.kind) then db else record db {
      projections = projected (env.projection_id row) row content_hash db.projections;
      events =
          if has_event (projection_key row content_hash) db.events
          then db.events
          else db.events ++ projection_event now (env.event_id row) row content_hash ∷ [];
    }

abbrev pub logged : Surroundings → ℕ → OutboxRow → Bool → Option String → SenderDb → SenderDb
logged env now row success error db = record db {
  attempts_log = record_attempt (env.attempt_id row) row.id success error now db.attempts_log;
}

-- the human's edit stays: the row is completed, and marked so that it is not queued again
abbrev pub after_skip : Surroundings → ℕ → ℕ → Option OutboxRow → SenderState → SenderState
after_skip env now generation none s = s
after_skip env now generation (some row) (db, stats) =
    let marked = mark_sent row.id generation now db.outbox in
    let outbox =
      if marked.1
      then set_payload row.id (record row.payload { skipped = true }) marked.0
      else marked.0 in
    (
      record (logged env now row true none db) { outbox = outbox },
      record stats { skipped = suc stats.skipped },
    )

-- a row that was claimed since is left, and the attempt is not committed
abbrev pub after_failure :
    Surroundings → ℕ → ℕ → String → Option OutboxRow → SenderState → SenderState
after_failure env now generation error none s = s
after_failure env now generation error (some row) (db, stats) =
    let noted = logged env now row false (some (first_chars 1000 error)) db in
    if not (row.attempts == generation)
    then (db, stats)
    else if leb row.max_attempts row.attempts
    then (
      record noted { outbox = (mark_dead row.id generation (first_chars 2000 error) db.outbox).0 },
      record stats { dead = suc stats.dead; failed = suc stats.failed },
    )
    else (
      record noted { outbox = (backoff row.id generation now db.outbox).0 },
      record stats { released = suc stats.released; failed = suc stats.failed },
    )

abbrev pub after_delivery :
    Surroundings → ℕ → ℕ → String → Option OutboxRow → SenderState → SenderState
after_delivery env now generation delivery_id none s = s
after_delivery env now generation delivery_id (some row) (db, stats) =
    let marked = mark_sent row.id generation now db.outbox in
    let noted = record (logged env now row true none db) { outbox = marked.0 } in
    (
      if marked.1
          then write_back_projection env now row (write_back_delivery row delivery_id noted)
          else noted,
      record stats { sent = suc stats.sent },
    )

abbrev pub after_answer :
    Surroundings → ℕ → ℕ → DeliveryAnswer → Option OutboxRow → SenderState → SenderState
after_answer env now generation (delivered delivery_id) found s =
    after_delivery env now generation delivery_id found s
after_answer env now generation patch_skipped found s = after_skip env now generation found s
after_answer env now generation (delivery_failed error) found s =
    after_failure env now generation error found s

-- the table once the row was claimed and the other senders ran
abbrev pub meanwhile : Surroundings → ℕ → OutboxRow → Outbox → Outbox
meanwhile env now row rows = interleave (env.others row) (claim row.id row.attempts 60 now rows).0

-- the body of the loop
unfoldable pub send_one : Surroundings → ℕ → OutboxRow → SenderState → SenderState
unfolding claim interleave mark_sent mark_dead backoff get_by_idempotency_key record_attempt
    write_back_delivery write_back_projection
send_one env now row (db, stats) =
    let rows = meanwhile env now row db.outbox in
    if not (claim row.id row.attempts 60 now db.outbox).1
    then (db, stats)
    else after_answer env now (row.attempts + 1) (env.deliver row)
        (get_by_idempotency_key row.idempotency_key rows)
        (record db { outbox = rows }, record stats { claimed = suc stats.claimed })

unfoldable pub send_rows : Surroundings → ℕ → List OutboxRow → SenderState → SenderState
unfolding send_one
send_rows env now [] s = s
send_rows env now (row ∷ rows) s = send_rows env now rows (send_one env now row s)

abbrev pub no_stats : Stats
no_stats = record { claimed = 0; sent = 0; failed = 0; dead = 0; released = 0; skipped = 0 }

unfoldable pub send_pending : Surroundings → ℕ → ℕ → SenderDb → SenderState
unfolding send_rows pending
send_pending env now max_per_tick db =
    send_rows env now (pending now max_per_tick none db.outbox) (db, no_stats)
