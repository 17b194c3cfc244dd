-- ===== src/Scheduler/Sender/Retries.antt =====
-- A row whose deliveries all fail.
use researchd_agent.Application.Audit.Data.{failing, first_chars}
use researchd_agent.Domain.Base.{seconds}
use researchd_agent.Domain.Enums.Outbox.{OutboxStatus, outbox_status_eq}
use researchd_agent.Persistence.Outbox.{
  OutboxRow, row_id, Outbox, get_by_idempotency_key, claimable, claim, held, mark_dead,
  next_backoff_delay, backoff,
}
use researchd_agent.Persistence.Outbox.Claims.{interleave}
use researchd_agent.Persistence.Table.{execute}
use researchd_agent.Persistence.Table.Keyed.{
  find, Unique, at_key, KeepsKey, if_meets, find-update_self, hit, count-hit, execute-miss,
  update-Unique, update_any-Unique,
}
use researchd_agent.Prelude.{
  leb, if◌then◌else◌, Bool-cases, ◌==◌, nat_eq, string_eq, length, ℕ, suc, ◌+◌, ◌≤◌, ◌<◌, String,
  ◌≡◌, refl, sym, ap, subst, ◌∙◌, ◌≢◌, inl, inr, Bool, true, false, Option, none, some, List, [],
  ◌∷◌, arith, eq_iff, option_eq,
}
use researchd_agent.Scheduler.Sender.{
  SenderDb, Stats, Surroundings, SenderState, after_failure, send_one, delivery_failed,
}

abbrev pub key_of : OutboxRow → String
key_of r = r.idempotency_key

by_key : (k : String) (rows : Outbox) → get_by_idempotency_key k rows ≡ find key_of k rows
unfolding get_by_idempotency_key find
by_key k [] = refl
by_key k (r ∷ rs) = rw (by_key k rs) refl

same_some : {A : Type 0} {a b : A} → ◌≡◌ {A = Option A} (some a) (some b) → a ≡ b
same_some h = cc

some-ne-none : {A : Type 0} {a : A} → ◌≢◌ {A = Option A} (some a) none
some-ne-none h = cc

-- a row that is there is found under its key
key_present :
    (id : String) (rows : Outbox) (r : OutboxRow)
    → find row_id id rows ≡ some r
    → find key_of (key_of r) rows ≢ none
unfolding find
key_present id [] r h = absurd (some-ne-none (sym h))
key_present id (x ∷ xs) r h = elim (Bool-cases (row_id x == id)) [
  | inl y ↦
      let same = ap key_of (same_some (rw y at h)) in
      rw ((eq_iff (key_of x) (key_of r)).1 same) some-ne-none
  | inr n ↦ elim (Bool-cases (key_of x == key_of r)) [
    | inl y ↦ rw y some-ne-none
    | inr o ↦ rw o (key_present id xs r (rw n at h))
  ]
]

found_by_key :
    (id : String) (rows : Outbox) (r : OutboxRow)
    → Unique key_of rows
    → find row_id id rows ≡ some r
    → find key_of (key_of r) rows ≡ some r
unfolding find
found_by_key id [] r u h = absurd (some-ne-none (sym h))
found_by_key id (x ∷ xs) r u h = elim (Bool-cases (row_id x == id)) [
  | inl y ↦
      let same = same_some (rw y at h) in
      rw ((eq_iff (key_of x) (key_of r)).1 (ap key_of same)) (ap some same)
  | inr n ↦ elim (Bool-cases (key_of x == key_of r)) [
    | inl y ↦ absurd (
        key_present id xs r (rw n at h)
          (subst (λ k. find key_of k xs ≡ none) ((eq_iff (key_of x) (key_of r)).0 y) u.0))
    | inr o ↦ rw o (found_by_key id xs r u.1 (rw n at h))
  ]
]

-- the row stands in the table, and both ids and keys are unique
abbrev pub Stands : String → OutboxRow → Outbox → Type 0
Stands id r rows = Unique row_id rows × Unique key_of rows × (find row_id id rows ≡ some r)

-- a statement that hits the row
execute-Stands :
    (id : String) (q : OutboxRow → Bool) (f : OutboxRow → OutboxRow) (r : OutboxRow) (rows : Outbox)
    → KeepsKey row_id f
    → KeepsKey key_of f
    → Stands id r rows
    → q r ≡ true
    → Stands id (f r) (execute (at_key row_id id q) f rows).0
      × ((execute (at_key row_id id q) f rows).1 ≡ true)
unfolding execute
execute-Stands id q f r rows keeps keeps_key (ids, keys, h) m = (
  (
    update-Unique row_id id q f rows keeps ids,
    update_any-Unique key_of (at_key row_id id q) f rows keeps_key keys,
    find-update_self row_id id q f rows keeps ∙ ap (if_meets row_id q f) h ∙ rw m refl,
  ),
  count-hit row_id id q rows ids ∙ ap (hit row_id q) h ∙ m,
)

abbrev claimed_row : ℕ → OutboxRow → OutboxRow
claimed_row now r = record r {
  attempts = r.attempts + 1;
  status = OutboxStatus.in_flight;
  next_attempt_at = some (now + seconds 60);
}

abbrev dead_row : String → OutboxRow → OutboxRow
dead_row error r = record r { status = OutboxStatus.dead; last_error = some error }

abbrev waiting_row : ℕ → OutboxRow → OutboxRow
waiting_row now r = record r {
  status = OutboxStatus.pending;
  next_attempt_at = some (now + seconds (next_backoff_delay r.attempts));
}

-- the row after a failure of the delivery that claimed it
abbrev failed_row : ℕ → String → OutboxRow → OutboxRow
failed_row now error r =
    if leb r.max_attempts r.attempts then dead_row (first_chars 2000 error) r else waiting_row now r

held_claimed : (now : ℕ) (r : OutboxRow) → held (r.attempts + 1) (claimed_row now r) ≡ true
held_claimed now r = ground arith

claimable-pending :
    (now : ℕ) (r : OutboxRow) → r.status ≡ OutboxStatus.pending → claimable r.attempts now r ≡ true
claimable-pending now r h = ground arith

after_failure-Stands :
    (env : Surroundings) (now : ℕ) (error : String) (r : OutboxRow) (db : SenderDb) (stats : Stats)
    → Stands r.id (claimed_row now r) db.outbox
    → Stands r.id
        (failed_row now error (claimed_row now r))
        (after_failure env now
          (r.attempts + 1)
          error
          (some (claimed_row now r))
          (db, stats)).0.outbox
unfolding mark_dead backoff
after_failure-Stands env now error r db stats s =
    elim (Bool-cases (leb r.max_attempts (r.attempts + 1))) [
      | inl y ↦
          rw (same_generation (r.attempts + 1), y)
            (execute-Stands r.id (held (r.attempts + 1)) _ (claimed_row now r) db.outbox (λ x. refl)
              (λ x. refl) s (held_claimed now r)).0
      | inr n ↦
          rw (same_generation (r.attempts + 1), n)
            (execute-Stands r.id (held (r.attempts + 1)) _ (claimed_row now r) db.outbox (λ x. refl)
              (λ x. refl) s (held_claimed now r)).0
    ]
  where
    same_generation : (n : ℕ) → (n == n) ≡ true
    same_generation n = ground arith

-- the deliveries all fail, and nobody else sends
pub record Failing (env : Surroundings) : Type 0 where
  pub message : String
  pub fails : (r : OutboxRow) → env.deliver r ≡ delivery_failed message
  pub alone : (r : OutboxRow) → env.others r ≡ []

-- the claim as an update
abbrev claiming : ℕ → OutboxRow → OutboxRow → OutboxRow
claiming now r x = record x {
  attempts = r.attempts + 1;
  status = OutboxStatus.in_flight;
  next_attempt_at = some (now + seconds 60);
}

send_one-failed :
    (env : Surroundings) (failing : Failing env) (now : ℕ) (r : OutboxRow) (db : SenderDb)
    (stats : Stats)
    → r.status ≡ OutboxStatus.pending
    → Stands r.id r db.outbox
    → Stands r.id
        (failed_row now failing.message (claimed_row now r))
        (send_one env now r (db, stats)).0.outbox
unfolding send_one claim interleave
send_one-failed env failing now r db stats status s =
    let (stands, hits) =
      execute-Stands r.id (claimable r.attempts now) (claiming now r) r db.outbox (λ x. refl)
        (λ x. refl) s (claimable-pending now r status) in
    let rows =
      (execute (at_key row_id r.id (claimable r.attempts now)) (claiming now r) db.outbox).0 in
    let again =
      by_key r.idempotency_key rows
      ∙ found_by_key r.id rows (claimed_row now r) stands.1 stands.2 in
    rw (hits, failing.fails r, failing.alone r, again)
      (after_failure-Stands env now failing.message r (record db { outbox = rows })
        (record stats { claimed = suc stats.claimed }) stands)

abbrev pub try_found : Surroundings → ℕ → Option OutboxRow → SenderState → SenderState
try_found env now none s = s
try_found env now (some r) s = send_one env now r s

-- the tries of one row at some times, each of the row as it then stands
unfoldable pub try_again : Surroundings → String → List ℕ → SenderState → SenderState
unfolding send_one
try_again env id [] s = s
try_again env id (now ∷ times) s =
    try_again env id times (try_found env now (find row_id id s.0.outbox) s)

dead_unclaimable :
    (now : ℕ) (r : OutboxRow) → r.status ≡ OutboxStatus.dead → claimable r.attempts now r ≡ false
dead_unclaimable now r h = ground arith

send_one-dead :
    (env : Surroundings) (now : ℕ) (r : OutboxRow) (s : SenderState)
    → r.status ≡ OutboxStatus.dead
    → Stands r.id r s.0.outbox
    → send_one env now r s ≡ s
unfolding send_one claim
send_one-dead env now r s status (ids, _, h) =
    let missed =
      execute-miss row_id r.id (claimable r.attempts now) (claiming now r) s.0.outbox r ids h
        (dead_unclaimable now r status) in
    rw missed refl

try_again-step :
    (env : Surroundings) (id : String) (now : ℕ) (times : List ℕ) (r : OutboxRow) (s : SenderState)
    → find row_id id s.0.outbox ≡ some r
    → try_again env id (now ∷ times) s ≡ try_again env id times (send_one env now r s)
unfolding try_again
try_again-step env id now times r s h = ap (λ o. try_again env id times (try_found env now o s)) h

dead_stays :
    (env : Surroundings) (times : List ℕ) (r : OutboxRow) (s : SenderState)
    → r.status ≡ OutboxStatus.dead
    → Stands r.id r s.0.outbox
    → try_again env r.id times s ≡ s
unfolding try_again
dead_stays env [] r s status stands = refl
dead_stays env (now ∷ times) r s status stands =
    ap (λ o. try_again env r.id times (try_found env now o s)) stands.2
    ∙ ap (try_again env r.id times) (send_one-dead env now r s status stands)
    ∙ dead_stays env times r s status stands

last_attempt : (a m : ℕ) → a < m → leb m (a + 1) ≡ true → a + 1 ≡ m
last_attempt a m lt h = ground arith

attempts_left : (a m : ℕ) → leb m (a + 1) ≡ false → a + 1 < m
attempts_left a m h = ground arith

no_time_left : (a m : ℕ) → a < m → m ≤ a + 0 → ⊥
no_time_left a m lt le = omega arith

one_time_less : (a m n : ℕ) → m ≤ a + suc n → m ≤ (a + 1) + n
one_time_less a m n le = omega arith

-- While every delivery fails and nobody else sends, a pending row is DEAD after as many tries as it has attempts left,
-- however they are timed and however many tries follow, with exactly its `max_attempts` attempts made.
pub poisoned_row_dies :
    (env : Surroundings) (failing : Failing env) (times : List ℕ) (r : OutboxRow) (s : SenderState)
    → r.status ≡ OutboxStatus.pending
    → r.attempts < r.max_attempts
    → Stands r.id r s.0.outbox
    → r.max_attempts ≤ r.attempts + length times
    → (r' : OutboxRow) × (find row_id r.id (try_again env r.id times s).0.outbox ≡ some r')
      × (r'.status ≡ OutboxStatus.dead)
      × (r'.attempts ≡ r.max_attempts)
poisoned_row_dies env failing [] r s status lt stands le =
    absurd (no_time_left r.attempts r.max_attempts lt le)
poisoned_row_dies env failing (now ∷ times) r s status lt stands le =
    let after = send_one-failed env failing now r s.0 s.1 status stands in
    elim (Bool-cases (leb r.max_attempts (r.attempts + 1))) [
      | inl y ↦
          let dead = dead_row (first_chars 2000 failing.message) (claimed_row now r) in
          let dead_stands =
            subst
              (λ b.
                Stands r.id (if b then dead else waiting_row now (claimed_row now r))
                  (send_one env now r s).0.outbox)
              y after in
          (
            dead,
            ap (λ z. find row_id r.id z.0.outbox)
                  (try_again-step env r.id now times r s stands.2
                    ∙ dead_stays env times dead (send_one env now r s) refl dead_stands)
                ∙ dead_stands.2,
            refl,
            last_attempt r.attempts r.max_attempts lt y,
          )
      | inr n ↦
          let waiting = waiting_row now (claimed_row now r) in
          let waits =
            subst
              (λ b.
                Stands r.id
                  (if b
                    then dead_row (first_chars 2000 failing.message) (claimed_row now r)
                    else waiting)
                  (send_one env now r s).0.outbox)
              n after in
          let (r', found, dead, made) =
            poisoned_row_dies env failing times waiting (send_one env now r s) refl
              (attempts_left r.attempts r.max_attempts n) waits
              (one_time_less r.attempts r.max_attempts (length times) le) in
          (
            r',
            ap (λ z. find row_id r.id z.0.outbox) (try_again-step env r.id now times r s stands.2)
                ∙ found,
            dead,
            made,
          )
    ]
