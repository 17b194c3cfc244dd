-- ===== src/Domain/StateMachine.antt =====
-- src/researchd/domain/state_machine.py. A machine is its table and its state; `transition` hands
-- back the new state, or raises `InvalidTransition` and leaves the state as it was.
use researchd_agent.Prelude.{
  if◌then◌else◌, Eq, nat_eq, string_eq, contains, Result, ok, raise, String, Bool, not, ◌&&◌, List,
}

pub record InvalidTransition {ℓ} (S : Type ℓ) : Type ℓ where
  pub object : String
  pub current : S
  pub target : S
  pub reason : String

module _ {ℓ} {S : Type ℓ} ⦃e : Eq S⦄ (transitions : S → List S) where
  unfoldable pub can : S → S → Bool → Bool
  can state target guard = guard && contains target (transitions state)

  unfoldable pub transition : String → S → S → Bool → String → Result (InvalidTransition S) S
  transition name state target guard reason =
      if not (can state target guard)
      then raise (record { object = name; current = state; target = target; reason = reason })
      else ok target
