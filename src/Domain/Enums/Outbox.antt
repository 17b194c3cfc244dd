-- ===== src/Domain/Enums/Outbox.antt =====
-- src/researchd/domain/enums.py: outbox rows, with `==` on each.
use researchd_agent.Prelude.{Eq, ◌≡◌, ◌↔◌, Bool, true, false, arith}

pub data OutboxStatus : Type 0 where
  pending in_flight sent dead : OutboxStatus

abbrev pub outbox_status_beq : OutboxStatus → OutboxStatus → Bool
outbox_status_beq pending pending = true
outbox_status_beq in_flight in_flight = true
outbox_status_beq sent sent = true
outbox_status_beq dead dead = true
outbox_status_beq _ _ = false

pub outbox_status_beq_iff : (a b : OutboxStatus) → (outbox_status_beq a b ≡ true) ↔ (a ≡ b)
outbox_status_beq_iff a b = ground arith

instance abbrev pub outbox_status_eq : Eq OutboxStatus
outbox_status_eq = record { beq = outbox_status_beq; beq_iff = outbox_status_beq_iff }
