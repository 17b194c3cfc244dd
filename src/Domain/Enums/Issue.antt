-- ===== src/Domain/Enums/Issue.antt =====
-- src/researchd/domain/enums.py: issues, with `==` on each.
use researchd_agent.Prelude.{Eq, ◌≡◌, ◌↔◌, Bool, true, false, arith}

pub data IssueStatus : Type 0 where
  opened investigating resolved accepted_risk superseded : IssueStatus

abbrev pub issue_status_beq : IssueStatus → IssueStatus → Bool
issue_status_beq opened opened = true
issue_status_beq investigating investigating = true
issue_status_beq resolved resolved = true
issue_status_beq accepted_risk accepted_risk = true
issue_status_beq superseded superseded = true
issue_status_beq _ _ = false

pub issue_status_beq_iff : (a b : IssueStatus) → (issue_status_beq a b ≡ true) ↔ (a ≡ b)
issue_status_beq_iff a b = ground arith

instance abbrev pub issue_status_eq : Eq IssueStatus
issue_status_eq = record { beq = issue_status_beq; beq_iff = issue_status_beq_iff }
