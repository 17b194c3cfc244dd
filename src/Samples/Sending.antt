-- ===== src/Samples/Sending.antt =====
-- Outbox rows, the delivery of a document block, and saves.
use researchd_agent.Application.Audit.Data.{base_of_task, with_task_base}
use researchd_agent.Domain.Enums.Outbox.{OutboxStatus, outbox_status_eq}
use researchd_agent.Domain.Enums.Work.{TaskStatus, task_status_eq}
use researchd_agent.Domain.Task.{Task}
use researchd_agent.Persistence.Outbox.{
  Payload, OutboxRow, row_id, Outbox, claim, next_backoff_delay, backoff,
}
use researchd_agent.Persistence.Outbox.Backoff.{backoff_bounds}
use researchd_agent.Persistence.Outbox.Claims.{
  OutboxCall, send, interleave, settled_row_stays, calls_claim, calls_sent, calls_backoff,
}
use researchd_agent.Persistence.Outbox.Generations.{
  claims_of, stale_sender_fenced, live_lease_excludes,
}
use researchd_agent.Persistence.Repository.{object_id, addressed, stale_save, bumped, written, save}
use researchd_agent.Persistence.Repository.Versions.{first_writer_wins}
use researchd_agent.Persistence.Table.{update_where, count_where, execute}
use researchd_agent.Persistence.Table.Keyed.{find, Unique}
use researchd_agent.Prelude.{
  nat_eq, string_eq, contains, ok, raise, ℕ, ◌+◌, ◌≤◌, ◌<◌, String, ◌≡◌, refl, ◌↔◌, Bool, true,
  false, Option, none, some, List, [], ◌∷◌, arith, All, option_eq,
}
use researchd_agent.Samples.Data.{task_in}
use researchd_agent.Scheduler.Delivery.{
  DocPlatform, DocWrite, text_at, write_block, deliver_doc_block, update_block, human_patch_skip,
}
use researchd_agent.Scheduler.Delivery.Overwrites.{
  overwritten, sent_text, overwrites_only_expected, unchanged_block_is_skipped,
}
use researchd_agent.Scheduler.Readiness.{task_dispatch_decision, dispatch}
use researchd_agent.Scheduler.Readiness.Dispatching.{Completed, dispatches_exactly}

abbrev block_payload : Payload
block_payload = record {
  kind = some "doc_block";
  platform_message_id = none;
  report_id = none;
  document_id = "doc-1";
  section_key = "status";
  text = "new";
  expected_remote = some "old";
  content_hash = some "hash";
  skipped = false;
}

abbrev row_in : OutboxStatus → ℕ → Option ℕ → OutboxRow
row_in status attempts next_attempt_at = record {
  id = "O-1";
  project_id = some "P-1";
  destination = "feishu";
  idempotency_key = "key-1";
  payload = block_payload;
  status = status;
  attempts = attempts;
  max_attempts = 8;
  next_attempt_at = next_attempt_at;
  last_error = none;
  created_at = 0;
  sent_at = none;
}

abbrev one_row : OutboxStatus → ℕ → Option ℕ → Outbox
one_row status attempts next_attempt_at = row_in status attempts next_attempt_at ∷ []

abbrev two_senders : List OutboxCall
two_senders = calls_claim "O-1" 0 60 5 ∷ calls_claim "O-1" 0 60 6 ∷ calls_backoff "O-1" 1 7 ∷ []

found_in :
    (s : OutboxStatus) (n : ℕ) (t : Option ℕ)
    → find row_id "O-1" (one_row s n t) ≡ some (row_in s n t)
unfolding find
found_in s n t = refl

single_Unique : (s : OutboxStatus) (n : ℕ) (t : Option ℕ) → Unique row_id (one_row s n t)
unfolding find
single_Unique s n t = (refl, tt)

settled_row_stays_example :
    find row_id "O-1" (interleave two_senders (one_row OutboxStatus.sent 1 none))
    ≡ some (row_in OutboxStatus.sent 1 none)
settled_row_stays_example =
    settled_row_stays two_senders "O-1" (row_in OutboxStatus.sent 1 none)
      (one_row OutboxStatus.sent 1 none) (found_in OutboxStatus.sent 1 none) refl

claimed_once : 0 < claims_of "O-1" two_senders (one_row OutboxStatus.pending 0 none)
unfolding claims_of send claim backoff execute count_where update_where find
claimed_once = omega arith

stale_sender_fenced_example :
    send (calls_sent "O-1" 0 9) (interleave two_senders (one_row OutboxStatus.pending 0 none))
    ≡ (interleave two_senders (one_row OutboxStatus.pending 0 none), false)
stale_sender_fenced_example =
    stale_sender_fenced two_senders (calls_sent "O-1" 0 9) "O-1"
      (row_in OutboxStatus.pending 0 none) (one_row OutboxStatus.pending 0 none)
      (single_Unique OutboxStatus.pending 0 none) (found_in OutboxStatus.pending 0 none)
      claimed_once (refl, refl)

soon : 5 < 60
soon = omega arith

live_lease_excludes_example :
    claim "O-1" 1 60 5 (one_row OutboxStatus.in_flight 1 (some 60))
    ≡ (one_row OutboxStatus.in_flight 1 (some 60), false)
live_lease_excludes_example =
    live_lease_excludes "O-1" 1 60 5 60 (row_in OutboxStatus.in_flight 1 (some 60))
      (one_row OutboxStatus.in_flight 1 (some 60))
      (single_Unique OutboxStatus.in_flight 1 (some 60))
      (found_in OutboxStatus.in_flight 1 (some 60)) refl refl soon

two_le_three : 2 ≤ 3
two_le_three = omega arith

backoff_bounds_example :
    (5 ≤ next_backoff_delay 2)
    × (next_backoff_delay 2 ≤ next_backoff_delay 3)
    × (next_backoff_delay 3 ≤ 300)
    × (next_backoff_delay (3 + 6) ≡ 300)
backoff_bounds_example = backoff_bounds 2 3 two_le_three

abbrev platform_at : String → Bool → DocPlatform
platform_at remote conflicts = record {
  listed = ("status", remote) ∷ [];
  revised = none;
  write_conflicts = conflicts;
  listed_again = ("status", remote) ∷ [];
}

abbrev one_update : List DocWrite
one_update = update_block "status" "new" "old" ∷ []

delivered : deliver_doc_block block_payload (platform_at "old" false) ≡ ok (one_update, "hash")
unfolding deliver_doc_block write_block text_at
delivered = refl

overwrites_only_expected_example :
    All (λ w. (overwritten w ≡ "old") × (sent_text w ≡ "new")) one_update
overwrites_only_expected_example =
    overwrites_only_expected block_payload (platform_at "old" false) one_update "hash" delivered

reads_old : text_at "status" (("status", "old") ∷ []) ≡ "old"
unfolding text_at
reads_old = refl

unchanged_block_is_skipped_example :
    deliver_doc_block block_payload (platform_at "old" true) ≡ raise human_patch_skip
unchanged_block_is_skipped_example =
    unchanged_block_is_skipped block_payload (platform_at "old" true) reads_old refl refl refl
      reads_old

abbrev stored_task : Task
stored_task = task_in TaskStatus.ready

abbrev edited : String → Task
edited message = record stored_task { error_message = some message }

task_found : find (object_id base_of_task) "X-1" (stored_task ∷ []) ≡ some stored_task
unfolding find
task_found = refl

task_Unique : Unique (object_id base_of_task) (stored_task ∷ [])
unfolding find
task_Unique = (refl, tt)

first_writer_wins_example :
    (save base_of_task with_task_base 4 (edited "a") (stored_task ∷ [])
      ≡ ok (
        bumped base_of_task with_task_base 4 (edited "a"),
        update_where
            (addressed base_of_task (edited "a"))
            (written base_of_task with_task_base 4 (edited "a"))
            (stored_task ∷ []),
      ))
    × (find (object_id base_of_task) "X-1" (
          update_where
            (addressed base_of_task (edited "a"))
            (written base_of_task with_task_base 4 (edited "a"))
            (stored_task ∷ []))
        ≡ some (written base_of_task with_task_base 4 (edited "a") stored_task))
    × (save base_of_task with_task_base 5 (edited "b") (
          update_where
            (addressed base_of_task (edited "a"))
            (written base_of_task with_task_base 4 (edited "a"))
            (stored_task ∷ []))
        ≡ raise (stale_save base_of_task (edited "b")))
first_writer_wins_example =
    first_writer_wins base_of_task with_task_base (λ b r. refl) 4 5 (edited "a") (edited "b")
      stored_task (stored_task ∷ []) task_Unique task_found refl refl refl

abbrev no_ids : Option (List String)
no_ids = some []

dispatches_exactly_example : (task_dispatch_decision stored_task [] no_ids no_ids ≡ dispatch) ↔ (
    (TaskStatus.ready ≡ TaskStatus.ready)
    × (false ≡ false)
    × All (λ d. contains d [] ≡ false) stored_task.blocked_by
    × Completed no_ids [])
dispatches_exactly_example = dispatches_exactly stored_task [] no_ids no_ids
