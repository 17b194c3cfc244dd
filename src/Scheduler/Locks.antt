-- ===== src/Scheduler/Locks.antt =====
-- `WorkspaceLockRepo` of src/researchd/scheduler/leases.py, over the rows of `WorkspaceLockRow`.
pub mod Holding
use researchd_agent.Domain.Base.{seconds}
use researchd_agent.Persistence.Table.{update_where, select_where, execute}
use researchd_agent.Persistence.Table.Keyed.{at_key}
use researchd_agent.Prelude.{
  ltb, if◌then◌else◌, Eq, ◌==◌, nat_eq, string_eq, Result, ok, raise, ℕ, ◌+◌, String, ◌≡◌, ◌↔◌,
  Bool, true, ◌&&◌, Option, none, some, List, [], ◌∷◌, ◌++◌, arith, eq_iff,
}
use researchd_agent.Scheduler.Leases.{MultipleRows, scalar_one_or_none}

pub record LockRow : Type 0 where
  pub id : String
  pub project_id : String
  pub scope : String
  pub owner : String
  pub token : String
  pub acquired_at : ℕ
  pub expires_at : ℕ

abbrev pub Locks : Type 0
Locks = List LockRow

abbrev pub pair_beq : String × String → String × String → Bool
pair_beq (a, b) (c, d) = a == c && b == d

pub pair_beq_iff : (p q : String × String) → (pair_beq p q ≡ true) ↔ (p ≡ q)
pair_beq_iff (a, b) (c, d) =
    (λ h. ground (arith, eq_iff a c, eq_iff b d), λ h. ground (arith, eq_iff a c, eq_iff b d))

instance abbrev pub pair_eq : Eq (String × String)
pair_eq = record { beq = pair_beq; beq_iff = pair_beq_iff }

abbrev pub lock_key : LockRow → String × String
lock_key r = (r.project_id, r.scope)

abbrev pub lock_id : LockRow → String
lock_id r = r.id

abbrev pub default_lock_seconds : ℕ
default_lock_seconds = 3600

pub record LockRequest : Type 0 where
  pub project_id : String
  pub scope : String
  pub owner : String
  pub lock_seconds : ℕ

abbrev pub wanted : LockRequest → String × String
wanted q = (q.project_id, q.scope)

abbrev pub taken_over : LockRequest → String → ℕ → LockRow → LockRow
taken_over q token now r = record r {
  owner = q.owner;
  token = token;
  acquired_at = now;
  expires_at = now + seconds q.lock_seconds;
}

abbrev pub new_lock : LockRequest → String → String → ℕ → LockRow
new_lock q id token now = record {
  id = id;
  project_id = q.project_id;
  scope = q.scope;
  owner = q.owner;
  token = token;
  acquired_at = now;
  expires_at = now + seconds q.lock_seconds;
}

-- `acquire` after its query for the existing row
unfoldable pub take_lock :
    Result MultipleRows (Option LockRow)
    → LockRequest
    → (id token : String) → ℕ
    → Locks
    → Result MultipleRows (Option String) × Locks
take_lock (raise e) q id token now rows = (raise e, rows)
take_lock (ok none) q id token now rows = (ok (some token), rows ++ new_lock q id token now ∷ [])
take_lock (ok (some r)) q id token now rows =
    if ltb now r.expires_at
    then (ok none, rows)
    else (ok (some token), update_where (λ x. x.id == r.id) (taken_over q token now) rows)

-- `id` and `token` are what the call draws
unfoldable pub acquire_lock :
    LockRequest → (id token : String) → ℕ → Locks → Result MultipleRows (Option String) × Locks
unfolding take_lock
acquire_lock q id token now rows =
    take_lock (scalar_one_or_none (select_where (λ r. lock_key r == wanted q) rows)) q id token now
      rows

unfoldable pub release_lock : String → String → String → ℕ → Locks → Locks × Bool
release_lock project_id scope token now =
    execute (at_key lock_key (project_id, scope) (λ r. r.token == token))
      (λ r. record r { expires_at = now })
