-- ===== src/Scheduler/Leases.antt =====
-- `LeaseRepo` of src/researchd/scheduler/leases.py. The database's LIKE is the parameter `matches`: whether an
-- owner is LIKE a prefix followed by ":%". The times are the successive readings of the clock in a call.
pub mod Exclusion
pub mod Renewal
use Prim.Native.Char.{code}
use researchd_agent.Domain.Base.{seconds}
use researchd_agent.Persistence.Table.{select_where, take, execute}
use researchd_agent.Persistence.Table.Keyed.{at_key}
use researchd_agent.Prelude.{
  ltb, leb, if◌then◌else◌, ◌==◌, nat_eq, string_eq, truthy, given, Result, ok, raise, ◌>>=◌, ◌>>◌,
  ℕ, ◌+◌, String, Bool, true, false, not, ◌&&◌, Option, none, some, List, [], ◌∷◌, ◌++◌, option_eq,
}

pub record LeaseRow : Type 0 where
  pub id : String
  pub project_id : Option String
  pub task_id : Option String
  pub run_id : Option String
  pub owner : String
  pub token : String
  pub expires_at : ℕ
  pub heartbeat_at : Option ℕ
  pub created_at : ℕ
  pub released_at : Option ℕ

abbrev pub Leases : Type 0
Leases = List LeaseRow

pub data MultipleRows : Type 0 where
  multiple_results_found : MultipleRows

-- `scalar_one_or_none()`
unfoldable pub scalar_one_or_none : {R : Type 0} → List R → Result MultipleRows (Option R)
scalar_one_or_none [] = ok none
scalar_one_or_none (r ∷ []) = ok (some r)
scalar_one_or_none (_ ∷ _ ∷ _) = raise multiple_results_found

-- `column == value`, which SQLAlchemy turns into IS NULL for `None`
abbrev pub same_or_null : Option String → Option String → Bool
same_or_null none none = true
same_or_null (some a) (some b) = a == b
same_or_null _ _ = false

abbrev pub is_null : Option ℕ → Bool
is_null none = true
is_null (some _) = false

-- not released, and the lease runs beyond `now`
abbrev pub live : ℕ → LeaseRow → Bool
live now r = ltb now r.expires_at && is_null r.released_at

-- `owner.split(":")[0]`, on the characters of the text
unfoldable pub before_colon : String → String
before_colon String.[] = ""
before_colon (String.◌∷◌ c s) =
    let rest = before_colon s in if code c == b':' then "" else String.◌∷◌ c rest

abbrev pub default_lease_seconds : ℕ
default_lease_seconds = 300

pub record LeaseRequest : Type 0 where
  pub project_id : Option String
  pub task_id : Option String
  pub run_id : Option String
  pub owner : String
  pub lease_seconds : ℕ

-- the identifier and the token that the call draws, and the clock at its four readings
pub record Draw : Type 0 where
  pub id : String
  pub token : String
  pub at_run : ℕ
  pub at_task : ℕ
  pub at_expiry : ℕ
  pub at_creation : ℕ

abbrev pub is_held : ℕ → Option LeaseRow → Bool
is_held now none = false
is_held now (some r) = live now r

abbrev pub other_run : Option LeaseRow → Option String → Bool
other_run none run_id = false
other_run (some r) run_id = not (same_or_null r.run_id run_id)

module _ (matches : String → String → Bool) where
  -- the row is a live lease of the task under an owner of the same role
  abbrev pub in_slot : ℕ → LeaseRequest → LeaseRow → Bool
  in_slot now q r =
      same_or_null r.task_id q.task_id
      && matches (before_colon q.owner) r.owner
      && is_null r.released_at
      && ltb now r.expires_at

  unfoldable pub duplicate_slot : ℕ → LeaseRequest → Leases → Result MultipleRows Bool
  duplicate_slot now q rows =
      if given q.task_id && truthy q.owner
      then (do
        dup ← scalar_one_or_none (select_where (in_slot now q) rows)
        ok (other_run dup q.run_id))
      else ok false

  abbrev pub new_lease : LeaseRequest → Draw → LeaseRow
  new_lease q d = record {
    id = d.id;
    project_id = q.project_id;
    task_id = q.task_id;
    run_id = q.run_id;
    owner = q.owner;
    token = d.token;
    expires_at = d.at_expiry + seconds q.lease_seconds;
    heartbeat_at = none;
    created_at = d.at_creation;
    released_at = none;
  }

  unfoldable pub grant :
      Result MultipleRows Bool
      → LeaseRequest
      → Draw
      → Leases
      → Result MultipleRows (Option String) × Leases
  grant (raise e) q d rows = (raise e, rows)
  grant (ok true) q d rows = (ok none, rows)
  grant (ok false) q d rows = (ok (some d.token), rows ++ new_lease q d ∷ [])

  unfoldable pub past_run :
      Result MultipleRows (Option LeaseRow)
      → LeaseRequest
      → Draw
      → Leases
      → Result MultipleRows (Option String) × Leases
  unfolding grant duplicate_slot
  past_run (raise e) q d rows = (raise e, rows)
  past_run (ok existing) q d rows =
      if is_held d.at_run existing
      then (ok none, rows)
      else grant (duplicate_slot d.at_task q rows) q d rows

  unfoldable pub acquire :
      LeaseRequest → Draw → Leases → Result MultipleRows (Option String) × Leases
  unfolding past_run
  acquire q d rows =
      past_run (scalar_one_or_none (select_where (λ r. same_or_null r.run_id q.run_id) rows)) q d
        rows

abbrev pub token_of : LeaseRow → String
token_of r = r.token

abbrev pub unreleased : LeaseRow → Bool
unreleased r = is_null r.released_at

-- `at` and `now` are the two readings
unfoldable pub heartbeat : String → ℕ → ℕ → ℕ → Leases → Leases × Bool
heartbeat token lease_seconds at now =
    execute (at_key token_of token unreleased)
      (λ r. record r { expires_at = at + seconds lease_seconds; heartbeat_at = some now })

unfoldable pub release_lease : String → ℕ → Leases → Leases × Bool
release_lease token now =
    execute (at_key token_of token unreleased) (λ r. record r { released_at = some now })

abbrev pub if_live : ℕ → Option LeaseRow → Option LeaseRow
if_live now none = none
if_live now (some r) =
    if not (is_null r.released_at) then none else if leb r.expires_at now then none else some r

unfoldable pub live_for_run : Option String → ℕ → Leases → Result MultipleRows (Option LeaseRow)
live_for_run run_id now rows = do
  found ← scalar_one_or_none (select_where (λ r. same_or_null r.run_id run_id) rows)
  ok (if_live now found)

-- ORDER BY expires_at; rows that expire together keep their order
unfoldable pub insert_by_expiry : LeaseRow → Leases → Leases
insert_by_expiry r [] = r ∷ []
insert_by_expiry r (x ∷ xs) =
    if ltb r.expires_at x.expires_at then r ∷ x ∷ xs else x ∷ insert_by_expiry r xs

unfoldable pub by_expiry : Leases → Leases → Leases
by_expiry sorted [] = sorted
by_expiry sorted (r ∷ rows) = by_expiry (insert_by_expiry r sorted) rows

unfoldable pub expired : ℕ → ℕ → Leases → Leases
unfolding by_expiry insert_by_expiry
expired limit now rows =
    take limit
      (by_expiry [] (select_where (λ r. is_null r.released_at && leb r.expires_at now) rows))
