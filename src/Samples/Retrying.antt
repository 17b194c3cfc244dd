-- ===== src/Samples/Retrying.antt =====
-- Rows of the outbox through the passes of a sender.
use researchd_agent.Domain.Enums.Outbox.{OutboxStatus, outbox_status_eq}
use researchd_agent.Persistence.Outbox.{OutboxRow, row_id, get_by_idempotency_key, claim}
use researchd_agent.Persistence.Outbox.Claims.{send, interleave, calls_claim}
use researchd_agent.Persistence.Outbox.Generations.{claims_of}
use researchd_agent.Persistence.Table.{update_where, count_where, select_where, take, execute}
use researchd_agent.Persistence.Table.Keyed.{find, Unique}
use researchd_agent.Prelude.{
  nat_eq, string_eq, ℕ, ◌<◌, ◌≡◌, refl, sym, subst, false, none, some, [], ◌∷◌, arith, option_eq,
}
use researchd_agent.Scheduler.Sender.{
  SenderDb, Surroundings, meanwhile, send_one, no_stats, send_pending, delivered, delivery_failed,
}
use researchd_agent.Scheduler.Sender.Fenced.{reclaimed_row_is_left}
use researchd_agent.Scheduler.Sender.Retries.{Stands, Failing, try_again, poisoned_row_dies}

abbrev letter : ℕ → OutboxRow
letter attempts = record {
  id = "O-1";
  project_id = some "P-1";
  destination = "feishu";
  idempotency_key = "key-1";
  payload = record {
    kind = some "message";
    platform_message_id = none;
    report_id = some "RPT-1";
    document_id = "";
    section_key = "";
    text = "done";
    expected_remote = none;
    content_hash = none;
    skipped = false;
  };
  status = OutboxStatus.pending;
  attempts = attempts;
  max_attempts = 3;
  next_attempt_at = none;
  last_error = none;
  created_at = 0;
  sent_at = none;
}

abbrev sender_db : SenderDb
sender_db = record {
  outbox = letter 0 ∷ [];
  attempts_log = [];
  reports = record { report_id = "RPT-1"; platform_message_id = none; status = none } ∷ [];
  projections = [];
  events = [];
}

abbrev offline : Surroundings
offline = record {
  deliver = λ r. delivery_failed "offline";
  others = λ r. [];
  attempt_id = λ r. "X-1";
  projection_id = λ r. "X-2";
  event_id = λ r. "EVT-1";
  section_hash = λ t. t;
}

abbrev always_offline : Failing offline
always_offline = record { message = "offline"; fails = λ r. refl; alone = λ r. refl }

letter-Stands : Stands "O-1" (letter 0) sender_db.outbox
unfolding find
letter-Stands = ((refl, tt), (refl, tt), refl)

poisoned_row_dies_example :
    (r' : OutboxRow) × (find row_id "O-1"
        (try_again offline "O-1" (1 ∷ 2 ∷ 3 ∷ []) (sender_db, no_stats)).0.outbox
      ≡ some r')
    × (r'.status ≡ OutboxStatus.dead)
    × (r'.attempts ≡ 3)
poisoned_row_dies_example =
    poisoned_row_dies offline always_offline (1 ∷ 2 ∷ 3 ∷ []) (letter 0) (sender_db, no_stats) refl
      (omega arith) letter-Stands (omega arith)

-- another sender claims the row when its lease has run out
abbrev overtaken : Surroundings
overtaken = record offline {
  deliver = λ r. delivered "M-1";
  others = λ r. calls_claim "O-1" 1 60 60000009 ∷ [];
}

abbrev overtaken_row : OutboxRow
overtaken_row = record (letter 2) {
  status = OutboxStatus.in_flight;
  next_attempt_at = some 120000009;
}

one_letter : Unique row_id sender_db.outbox
unfolding find
one_letter = (refl, tt)

letter_found : find row_id "O-1" sender_db.outbox ≡ some (letter 0)
unfolding find
letter_found = refl

another_claims :
    claims_of "O-1" (overtaken.others (letter 0)) (claim "O-1" 0 60 5 sender_db.outbox).0 ≡ 1
unfolding claims_of claim execute update_where count_where
another_claims = refl

overtaken_found :
    find row_id "O-1" (meanwhile overtaken 5 (letter 0) sender_db.outbox) ≡ some overtaken_row
unfolding find interleave send claim execute update_where
overtaken_found = refl

overtaken_by_key :
    get_by_idempotency_key "key-1" (meanwhile overtaken 5 (letter 0) sender_db.outbox)
    ≡ some overtaken_row
unfolding get_by_idempotency_key interleave send claim execute update_where
overtaken_by_key = refl

reclaimed_row_is_left_example :
    ((send_one overtaken 5 (letter 0) (sender_db, no_stats)).0.outbox
      ≡ meanwhile overtaken 5 (letter 0) sender_db.outbox)
    × ((send_one overtaken 5 (letter 0) (sender_db, no_stats)).0.reports ≡ sender_db.reports)
    × ((send_one overtaken 5 (letter 0) (sender_db, no_stats)).0.projections ≡ [])
    × ((send_one overtaken 5 (letter 0) (sender_db, no_stats)).0.events ≡ [])
reclaimed_row_is_left_example =
    reclaimed_row_is_left overtaken 5 (letter 0) overtaken_row sender_db no_stats one_letter
      letter_found refl (subst (λ n. 0 < n) (sym another_claims) (omega arith)) overtaken_found
      overtaken_by_key refl

-- a pass that delivers
delivered_letter :
    (send_pending (record offline { deliver = λ r. delivered "M-1" }) 5 20 sender_db).0.reports
    ≡ record { report_id = "RPT-1"; platform_message_id = some "M-1"; status = some "SENT" } ∷ []
unfolding send_pending take select_where execute count_where update_where
delivered_letter = refl
