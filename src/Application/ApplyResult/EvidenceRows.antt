-- ===== src/Application/ApplyResult/EvidenceRows.antt =====
-- src/researchd/application/apply_result.py: the loop over the candidates of evidence.
use researchd_agent.Application.ApplyResult.Data.{
  LiteratureEntries, ComputationalEntries, EvidenceCandidate, ApplyError, new_base, text_or,
  row_saved, added_here, duplicate_row,
}
use researchd_agent.Application.Audit.Data.{base_of_evidence, with_evidence_base}
use researchd_agent.Domain.Enums.Evidence.{EvidenceStatus, evidence_status_eq}
use researchd_agent.Domain.Evidence.{LiteratureProvenance, ComputationalProvenance, Evidence}
use researchd_agent.Domain.Run.{Run}
use researchd_agent.Persistence.Repository.{save}
use researchd_agent.Persistence.Rows.Storing.{stored}
use researchd_agent.Persistence.Table.Keyed.{find}
use researchd_agent.Prelude.{
  if◌then◌else◌, ◌==◌, nat_eq, string_eq, given, Result, ok, ◌>>=◌, ℕ, suc, String, not, ◌||◌,
  Option, none, some, List, [], ◌∷◌, option_eq, require,
}

abbrev pub evidence_id_of : Evidence → String
evidence_id_of e = e.evidence_id

abbrev pub opt_or : Option String → Option String → Option String
opt_or a b = if given a then a else b

abbrev pub literature_of : Option LiteratureEntries → Option LiteratureProvenance
literature_of none = none
literature_of (some l) =
    if given l.source_id || given l.doi
    then some (record {
      source_id = text_or l.source_id (text_or l.doi "unknown");
      locator = opt_or l.locator l.url;
      snapshot_artifact_id = none;
      fetched_at = none;
      limitations = [];
    })
    else none

abbrev pub computational_of :
    String → Option ComputationalEntries → List String → Option ComputationalProvenance
computational_of run_id none refs = none
computational_of run_id (some c) [] = none
computational_of run_id (some c) (ref ∷ refs) = some (record {
  run_id = run_id;
  artifact_id = ref;
  code_commit = c.code_commit;
  data_snapshot = c.data_snapshot;
  interpretation_limits = c.interpretation_limits;
})

abbrev pub new_evidence : ℕ → Run → EvidenceCandidate → Evidence
new_evidence now run cand = record {
  base = new_base cand.local_ref run.project_id now;
  evidence_id = cand.local_ref;
  type = cand.type;
  status = EvidenceStatus.candidate;
  statement = cand.statement;
  task_id = some run.task_id;
  run_id = some run.run_id;
  artifact_refs = cand.artifact_refs;
  literature = literature_of cand.literature;
  computational = computational_of run.run_id cand.computational cand.artifact_refs;
  model_annotation = none;
  limitations = cand.limitations;
}

-- the candidate of an earlier run, overwritten by this run's
abbrev pub superseded_by : Run → EvidenceCandidate → Evidence → Evidence
superseded_by run cand e = record e {
  statement = cand.statement;
  type = cand.type;
  run_id = some run.run_id;
  task_id = some run.task_id;
  artifact_refs = cand.artifact_refs;
  literature = literature_of cand.literature;
  computational = computational_of run.run_id cand.computational cand.artifact_refs;
  limitations = cand.limitations;
}

-- the rows and `counts["evidence"]`
abbrev pub EvidenceState : Type 0
EvidenceState = List Evidence × ℕ

unfoldable pub write_evidence : ℕ → Evidence → EvidenceState → Result ApplyError EvidenceState
unfolding save
write_evidence now e (rows, n) = do
  saved ← row_saved (save base_of_evidence with_evidence_base now e rows)
  ok (saved, suc n)

unfoldable pub place_candidate :
    ℕ → Run → EvidenceCandidate → Option Evidence → EvidenceState → Result ApplyError EvidenceState
unfolding write_evidence
place_candidate now run cand none s = write_evidence now (new_evidence now run cand) s
place_candidate now run cand (some e) s =
    if e.status == EvidenceStatus.verified
    then ok s
    else if not (e.run_id == some run.run_id)
    then write_evidence now (superseded_by run cand e) s
    else ok s

-- `stored` are the rows that the session had flushed before
unfoldable pub apply_candidates :
    ℕ
    → Run
    → List Evidence
    → List EvidenceCandidate
    → EvidenceState
    → Result ApplyError EvidenceState
unfolding place_candidate
apply_candidates now run stored [] s = ok s
apply_candidates now run stored (cand ∷ cands) s =
    require (not (added_here evidence_id_of cand.local_ref stored s.0))
      (duplicate_row cand.local_ref)
      (place_candidate now run cand (find evidence_id_of cand.local_ref s.0) s)
    >>= apply_candidates now run stored cands
