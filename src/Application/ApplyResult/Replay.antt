-- ===== src/Application/ApplyResult/Replay.antt =====
-- A second application of a result for one run.
use text.Mathlib.TextPositions.{eq_refl}
use researchd_agent.Application.ApplyResult.Data.{
  ApplyDb, WorkResult, Draws, ApplyOutcome, applied_key, run_replayed,
}
use researchd_agent.Application.ApplyResult.Parts.{apply_fresh-events}
use researchd_agent.Application.ApplyResult.Whole.{has_event, applied_event, apply_work_result}
use researchd_agent.Application.Paths.{FileSystem}
use researchd_agent.Domain.Run.{Run}
use researchd_agent.Prelude.{
  Bool-cases, ◌==◌, nat_eq, string_eq, ok, ℕ, ◌≡◌, refl, sym, ap, ◌∙◌, ◌⊎◌, inl, inr, true, false,
  ok-injective, option_eq, list_eq, any-append,
}

-- A result that was applied is not applied again: another application for the run, of whatever result, at
-- whatever time and over whatever files, reports a replay and changes nothing.
pub applied_once :
    (fs other_fs : FileSystem) (now after : ℕ) (draws fresh : Draws) (run : Run)
    (result other : WorkResult) (db end : ApplyDb) (outcome : ApplyOutcome)
    → apply_work_result fs now draws run result db ≡ ok (outcome, end)
    → apply_work_result other_fs after fresh run other end ≡ ok (run_replayed, end)
unfolding apply_work_result
applied_once fs other_fs now after draws fresh run result other db end outcome h =
    rw (marked (Bool-cases (has_event (applied_key run.run_id) db.events))) refl
  where
    marked :
        (has_event (applied_key run.run_id) db.events ≡ true)
          ⊎ (has_event (applied_key run.run_id) db.events ≡ false)
        → has_event (applied_key run.run_id) end.events ≡ true
    marked (inl y) =
        ap (λ z. has_event (applied_key run.run_id) z.1.events) (sym (ok-injective (rw y at h))) ∙ y
    marked (inr n) =
        ap (has_event (applied_key run.run_id))
          (sym (apply_fresh-events fs now draws run result db end outcome (rw n at h)))
        ∙ any-append (λ ev. ev.idempotency_key == applied_key run.run_id)
            (applied_event now draws.event_id run) db.events (eq_refl (applied_key run.run_id))
