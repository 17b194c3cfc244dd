-- ===== src/Persistence/Outbox/Generations.antt =====
-- `attempts` as the generation of a row, and the calls of older generations.
use mathlib.Core.Bool.{false≢true}
use text.Mathlib.TextPositions.{eq_refl}
use researchd_agent.Domain.Base.{seconds}
use researchd_agent.Domain.Enums.Outbox.{OutboxStatus, outbox_status_eq}
use researchd_agent.Persistence.Outbox.{
  OutboxRow, row_id, Outbox, has_key, present, enqueue, claimable, claim, held, release, mark_sent,
  mark_dead, backoff,
}
use researchd_agent.Persistence.Outbox.Claims.{
  OutboxCall, inserted, send, interleave, enqueue-keeps, calls_enqueue, calls_claim, calls_release,
  calls_sent, calls_dead, calls_backoff,
}
use researchd_agent.Persistence.Table.{update_where, execute}
use researchd_agent.Persistence.Table.Keyed.{
  find, Unique, at_key, KeepsKey, if_meets, find-update_self, find-update_ne, hit, count-hit,
  execute-miss, find-update_miss, update-Unique, append-Unique,
}
use researchd_agent.Prelude.{
  if◌then◌else◌, Bool-cases, ◌==◌, nat_eq, string_eq, ℕ, ◌+◌, ◌<◌, String, ◌≡◌, refl, sym, ap,
  subst, ◌∙◌, inl, inr, Bool, true, false, ◌&&◌, ◌||◌, Option, none, some, List, [], ◌∷◌, arith,
  eq_iff,
}

-- the call claimed the row
abbrev pub claimed : String → OutboxCall → Outbox → Bool
claimed id (calls_claim j a l now) rows = j == id && (claim j a l now rows).1
claimed id (calls_enqueue r) rows = false
claimed id (calls_release j a) rows = false
claimed id (calls_sent j a now) rows = false
claimed id (calls_dead j a e) rows = false
claimed id (calls_backoff j a now) rows = false

abbrev pub one_if : Bool → ℕ
one_if b = if b then 1 else 0

-- how many of the calls claimed the row
unfoldable pub claims_of : String → List OutboxCall → Outbox → ℕ
claims_of id [] rows = 0
claims_of id (c ∷ cs) rows = one_if (claimed id c rows) + claims_of id cs (send c rows).0

-- the row after a call, with its generation
abbrev After : String → OutboxRow → ℕ → Outbox → Type 0
After id r n rows =
    (r' : OutboxRow) × (find row_id id rows ≡ some r') × (r'.attempts ≡ r.attempts + n)

same_generation :
    (j id : String) (q : OutboxRow → Bool) (f : OutboxRow → OutboxRow) (rows : Outbox)
    (r : OutboxRow)
    → KeepsKey row_id f
    → ((x : OutboxRow) → (f x).attempts ≡ x.attempts)
    → find row_id id rows ≡ some r
    → After id r 0 (update_where (at_key row_id j q) f rows)
same_generation j id q f rows r keeps gen h = elim (Bool-cases (j == id)) [
  | inl y ↦ elim (Bool-cases (q r)) [
    | inl m ↦ (
      f r,
      rw ((eq_iff j id).0 y)
          (find-update_self row_id id q f rows keeps ∙ ap (if_meets row_id q f) h ∙ rw m refl),
      omega (arith, gen r),
    )
    | inr n ↦ (r, find-update_miss row_id j id q f rows r keeps h n, omega arith)
  ]
  | inr o ↦ (
    r,
    find-update_ne row_id id j q f rows keeps (λ e. false≢true (sym o ∙ (eq_iff j id).1 e)) ∙ h,
    omega arith,
  )
]

claim_hits :
    (id : String) (a l now : ℕ) (rows : Outbox) (r : OutboxRow)
    → Unique row_id rows
    → find row_id id rows ≡ some r
    → claimed id (calls_claim id a l now) rows ≡ claimable a now r
unfolding claim execute
claim_hits id a l now rows r u h =
    rw (eq_refl id)
      (count-hit row_id id (claimable a now) rows u ∙ ap (hit row_id (claimable a now)) h)

claimable_generation : (a now : ℕ) (r : OutboxRow) → claimable a now r ≡ true → r.attempts ≡ a
claimable_generation a now r h = ground arith

claim_generation_self :
    (id : String) (a l now : ℕ) (rows : Outbox) (r : OutboxRow)
    → Unique row_id rows
    → find row_id id rows ≡ some r
    → After id r (one_if (claimed id (calls_claim id a l now) rows)) (claim id a l now rows).0
claim_generation_self id a l now rows r u h = elim (Bool-cases (claimable a now r)) [
  | inl m ↦ (
    record r {
      attempts = a + 1;
      status = OutboxStatus.in_flight;
      next_attempt_at = some (now + seconds l);
    },
    unfold claim execute in
        find-update_self row_id id (claimable a now) _ rows (λ x. refl)
        ∙ ap (if_meets row_id (claimable a now) _) h
        ∙ rw m refl,
    rw (claim_hits id a l now rows r u h ∙ m) (omega (arith, claimable_generation a now r m)),
  )
  | inr n ↦ (
    r,
    unfold claim execute in
        find-update_miss row_id id id (claimable a now) _ rows r (λ x. refl) h n,
    rw (claim_hits id a l now rows r u h ∙ n) (omega arith),
  )
]

claim_generation :
    (j id : String) (a l now : ℕ) (rows : Outbox) (r : OutboxRow)
    → Unique row_id rows
    → find row_id id rows ≡ some r
    → After id r (one_if (claimed id (calls_claim j a l now) rows)) (claim j a l now rows).0
unfolding claim execute
claim_generation j id a l now rows r u h = elim (Bool-cases (j == id)) [
  | inl y ↦
      subst
        (λ k.
          After id r (one_if (claimed id (calls_claim k a l now) rows)) (claim k a l now rows).0)
        (sym ((eq_iff j id).0 y)) (claim_generation_self id a l now rows r u h)
  | inr o ↦ rw o (
    r,
    find-update_ne row_id id j (claimable a now) _ rows (λ x. refl)
          (λ e. false≢true (sym o ∙ (eq_iff j id).1 e))
        ∙ h,
    omega arith,
  )
]

generation_call :
    (c : OutboxCall) (id : String) (r : OutboxRow) (rows : Outbox)
    → Unique row_id rows
    → find row_id id rows ≡ some r
    → After id r (one_if (claimed id c rows)) (send c rows).0
unfolding send release mark_sent mark_dead backoff execute
generation_call (calls_enqueue new) id r rows u h = (r, enqueue-keeps id r new rows h, omega arith)
generation_call (calls_claim j a l now) id r rows u h = claim_generation j id a l now rows r u h
generation_call (calls_release j a) id r rows u h =
    same_generation j id (held a) _ rows r (λ x. refl) (λ x. refl) h
generation_call (calls_sent j a now) id r rows u h =
    same_generation j id (held a) _ rows r (λ x. refl) (λ x. refl) h
generation_call (calls_dead j a e) id r rows u h =
    same_generation j id (held a) _ rows r (λ x. refl) (λ x. refl) h
generation_call (calls_backoff j a now) id r rows u h =
    same_generation j id (held a) _ rows r (λ x. refl) (λ x. refl) h

absent : {R : Type 0} (o : Option R) → present o ≡ false → o ≡ none
absent none h = refl
absent (some r) h = cc

enqueue-Unique :
    (new : OutboxRow) (rows : Outbox)
    → Unique row_id rows
    → Unique row_id (inserted rows (enqueue new rows)).0
unfolding enqueue
enqueue-Unique new rows u =
    elim (Bool-cases (present (find row_id new.id rows) || has_key new.idempotency_key rows)) [
      | inl y ↦ rw y u
      | inr n ↦
          rw n (append-Unique row_id rows new u (absent (find row_id new.id rows) (ground arith)))
    ]

-- No call makes two rows share an identifier.
call-Unique : (c : OutboxCall) (rows : Outbox) → Unique row_id rows → Unique row_id (send c rows).0
unfolding send claim release mark_sent mark_dead backoff execute
call-Unique (calls_enqueue new) rows u = enqueue-Unique new rows u
call-Unique (calls_claim j a l now) rows u =
    update-Unique row_id j (claimable a now) _ rows (λ x. refl) u
call-Unique (calls_release j a) rows u = update-Unique row_id j (held a) _ rows (λ x. refl) u
call-Unique (calls_sent j a now) rows u = update-Unique row_id j (held a) _ rows (λ x. refl) u
call-Unique (calls_dead j a e) rows u = update-Unique row_id j (held a) _ rows (λ x. refl) u
call-Unique (calls_backoff j a now) rows u = update-Unique row_id j (held a) _ rows (λ x. refl) u

-- Over any interleaving the row's `attempts` grows by exactly the number of calls that claimed it.
pub attempts_count_claims :
    (cs : List OutboxCall) (id : String) (r : OutboxRow) (rows : Outbox)
    → Unique row_id rows
    → find row_id id rows ≡ some r
    → (r' : OutboxRow) × (find row_id id (interleave cs rows) ≡ some r')
      × (r'.attempts ≡ r.attempts + claims_of id cs rows)
unfolding interleave claims_of
attempts_count_claims [] id r rows u h = (r, h, omega arith)
attempts_count_claims (c ∷ cs) id r rows u h =
    let (r', h', e) = generation_call c id r rows u h in
    let (r'', h'', e') = attempts_count_claims cs id r' (send c rows).0 (call-Unique c rows u) h' in
    (r'', h'', omega arith)

interleave-Unique :
    (cs : List OutboxCall) (rows : Outbox) → Unique row_id rows → Unique row_id (interleave cs rows)
unfolding interleave
interleave-Unique [] rows u = u
interleave-Unique (c ∷ cs) rows u = interleave-Unique cs (send c rows).0 (call-Unique c rows u)

-- the row and the generation that a call names
abbrev pub NamesGeneration : OutboxCall → String → ℕ → Type 0
NamesGeneration (calls_enqueue r) id g = ⊥
NamesGeneration (calls_claim j a l now) id g = (j ≡ id) × (a ≡ g)
NamesGeneration (calls_release j a) id g = (j ≡ id) × (a ≡ g)
NamesGeneration (calls_sent j a now) id g = (j ≡ id) × (a ≡ g)
NamesGeneration (calls_dead j a e) id g = (j ≡ id) × (a ≡ g)
NamesGeneration (calls_backoff j a now) id g = (j ≡ id) × (a ≡ g)

stale_call :
    (c : OutboxCall) (id : String) (g : ℕ) (r : OutboxRow) (rows : Outbox)
    → Unique row_id rows
    → find row_id id rows ≡ some r
    → g < r.attempts
    → NamesGeneration c id g
    → send c rows ≡ (rows, false)
unfolding send claim release mark_sent mark_dead backoff
stale_call (calls_enqueue new) id g r rows u h lt n = absurd n
stale_call (calls_claim j a l now) id g r rows u h lt (e, e') =
    rw (e, e') (execute-miss row_id id (claimable g now) _ rows r u h (ground arith))
stale_call (calls_release j a) id g r rows u h lt (e, e') =
    rw (e, e') (execute-miss row_id id (held g) _ rows r u h (ground arith))
stale_call (calls_sent j a now) id g r rows u h lt (e, e') =
    rw (e, e') (execute-miss row_id id (held g) _ rows r u h (ground arith))
stale_call (calls_dead j a x) id g r rows u h lt (e, e') =
    rw (e, e') (execute-miss row_id id (held g) _ rows r u h (ground arith))
stale_call (calls_backoff j a now) id g r rows u h lt (e, e') =
    rw (e, e') (execute-miss row_id id (held g) _ rows r u h (ground arith))

-- A sender that still acts in the generation in which it read or claimed the row has no effect once
-- somebody has claimed the row since: its call changes no row and reports failure.
pub stale_sender_fenced :
    (cs : List OutboxCall) (c : OutboxCall) (id : String) (r : OutboxRow) (rows : Outbox)
    → Unique row_id rows
    → find row_id id rows ≡ some r
    → 0 < claims_of id cs rows
    → NamesGeneration c id r.attempts
    → send c (interleave cs rows) ≡ (interleave cs rows, false)
stale_sender_fenced cs c id r rows u h won n =
    let (r', h', e) = attempts_count_claims cs id r rows u h in
    stale_call c id r.attempts r' (interleave cs rows) (interleave-Unique cs rows u) h'
      (omega arith) n

lease_live :
    (a t now : ℕ) (r : OutboxRow)
    → r.status ≡ OutboxStatus.in_flight
    → r.next_attempt_at ≡ some t
    → now < t
    → claimable a now r ≡ false
lease_live a t now r s e lt = ground arith

-- While the lease of a row in flight runs, nobody can claim the row in any generation.
pub live_lease_excludes :
    (id : String) (a l now t : ℕ) (r : OutboxRow) (rows : Outbox)
    → Unique row_id rows
    → find row_id id rows ≡ some r
    → r.status ≡ OutboxStatus.in_flight
    → r.next_attempt_at ≡ some t
    → now < t
    → claim id a l now rows ≡ (rows, false)
unfolding claim
live_lease_excludes id a l now t r rows u h s e lt =
    execute-miss row_id id (claimable a now) _ rows r u h (lease_live a t now r s e lt)
