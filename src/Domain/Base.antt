-- ===== src/Domain/Base.antt =====
-- src/researchd/domain/base.py. An instant is a number of microseconds, and every method that reads
-- the clock is given what it reads. The free-form `metadata` is with the objects that use it.
use researchd_agent.Prelude.{ℕ, ◌*◌, String, Option}

pub record DomainModel : Type 0 where
  pub id : String
  pub project_id : Option String
  pub version : ℕ
  pub created_at : ℕ
  pub updated_at : ℕ
  pub created_by : String

-- `timedelta(seconds=n)`
abbrev pub seconds : ℕ → ℕ
seconds n = n * 1000000
