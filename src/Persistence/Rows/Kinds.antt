-- ===== src/Persistence/Rows/Kinds.antt =====
-- The repositories of src/researchd/persistence/repositories.py whose objects are read back as they were written.
use researchd_agent.Domain.Evidence.{
  Artifact, LiteratureProvenance, ComputationalProvenance, ModelAnnotationProvenance, Evidence,
}
use researchd_agent.Domain.Issue.{Issue}
use researchd_agent.Domain.Task.{TaskContract, Task}
use researchd_agent.Persistence.Rows.{Dumping}
use researchd_agent.Persistence.Rows.Findings.{
  ArtifactRow, row_of_artifact, artifact_of_row, IssueRow, row_of_issue, issue_of_row,
  issue_roundtrip, EvidenceRow, row_of_evidence, evidence_of_row, evidence_roundtrip,
}
use researchd_agent.Persistence.Rows.Storing.{StoredAs}
use researchd_agent.Persistence.Rows.Tasks.{TaskRow, row_of_task, task_of_row, task_roundtrip}
use researchd_agent.Prelude.{refl}

abbrev pub artifact_rows : StoredAs Artifact ArtifactRow
artifact_rows = record {
  kind = record {
    object_base = λ o. o.base;
    with_object_base = λ b o. record o { base = b };
    row_base = λ r. r.base;
    with_row_base = λ b r. record r { base = b };
    to_row = row_of_artifact;
    base-to_row = λ o. refl;
    with_base-to_row = λ b o. refl;
  };
  to_domain = artifact_of_row;
  domain-to_row = λ o. refl;
}

abbrev pub issue_rows : StoredAs Issue IssueRow
issue_rows = record {
  kind = record {
    object_base = λ o. o.base;
    with_object_base = λ b o. record o { base = b };
    row_base = λ r. r.base;
    with_row_base = λ b r. record r { base = b };
    to_row = row_of_issue;
    base-to_row = λ o. refl;
    with_base-to_row = λ b o. refl;
  };
  to_domain = issue_of_row;
  domain-to_row = issue_roundtrip;
}

abbrev pub task_rows : (contracts : Dumping TaskContract) → StoredAs Task (TaskRow contracts)
task_rows contracts = record {
  kind = record {
    object_base = λ o. o.base;
    with_object_base = λ b o. record o { base = b };
    row_base = λ r. r.base;
    with_row_base = λ b r. record r { base = b };
    to_row = row_of_task contracts;
    base-to_row = λ o. refl;
    with_base-to_row = λ b o. refl;
  };
  to_domain = task_of_row contracts;
  domain-to_row = task_roundtrip contracts;
}

abbrev pub evidence_rows :
    (literatures : Dumping LiteratureProvenance) (computations : Dumping ComputationalProvenance)
    (annotations : Dumping ModelAnnotationProvenance)
    → StoredAs Evidence (EvidenceRow literatures computations annotations)
evidence_rows literatures computations annotations = record {
  kind = record {
    object_base = λ o. o.base;
    with_object_base = λ b o. record o { base = b };
    row_base = λ r. r.base;
    with_row_base = λ b r. record r { base = b };
    to_row = row_of_evidence literatures computations annotations;
    base-to_row = λ o. refl;
    with_base-to_row = λ b o. refl;
  };
  to_domain = evidence_of_row literatures computations annotations;
  domain-to_row = evidence_roundtrip literatures computations annotations;
}
