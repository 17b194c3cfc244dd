-- ===== src/Scheduler/Locks/Holding.antt =====
-- What is given while a resource is held.
use text.Mathlib.TextPositions.{eq_refl}
use researchd_agent.Persistence.Table.{update_where, select_where, execute}
use researchd_agent.Persistence.Table.Keyed.{
  find, Unique, if_meets, find-update, select-find, find-update_self, hit, count-hit, execute-miss,
  update_any-Unique,
}
use researchd_agent.Prelude.{
  ltb, Bool-cases, ◌==◌, nat_eq, string_eq, ok, ℕ, ◌≤◌, ◌<◌, String, ◌≡◌, refl, ap, ◌∙◌, ◌≢◌, inl,
  inr, true, false, none, some, arith, eq_iff,
}
use researchd_agent.Scheduler.Leases.{scalar_one_or_none}
use researchd_agent.Scheduler.Locks.{
  LockRow, Locks, lock_key, LockRequest, wanted, taken_over, take_lock, acquire_lock, release_lock,
  pair_eq,
}

ltb_of_lt : (a b : ℕ) → a < b → ltb a b ≡ true
ltb_of_lt a b h = ground arith

ltb_of_le : (a b : ℕ) → a ≤ b → ltb b a ≡ false
ltb_of_le a b h = ground arith

other_token : (a b : String) → b ≢ a → (b == a) ≡ false
other_token a b ne = elim (Bool-cases (b == a)) [
  | inl y ↦ absurd (ne ((eq_iff b a).0 y))
  | inr n ↦ n
]

-- the table has the lock of a resource in this row
module _ (q : LockRequest) (rows : Locks) (r : LockRow) (u : Unique lock_key rows)
    (h : find lock_key (wanted q) rows ≡ some r) where
  lookup_lock : scalar_one_or_none (select_where (λ x. lock_key x == wanted q) rows) ≡ ok (some r)
  unfolding scalar_one_or_none
  lookup_lock = rw (select-find lock_key (wanted q) rows u, h) refl

  -- While the lock of a resource has not run out, nobody gets it, and the table stays as it is.
  pub held_lock_refuses :
      (id token : String) (now : ℕ)
      → now < r.expires_at
      → acquire_lock q id token now rows ≡ (ok none, rows)
  unfolding acquire_lock take_lock
  held_lock_refuses id token now lt = rw (lookup_lock, ltb_of_lt now r.expires_at lt) refl

  stolen :
      (token : String) (now : ℕ)
      → find lock_key (wanted q) (update_where (λ x. x.id == r.id) (taken_over q token now) rows)
        ≡ some (taken_over q token now r)
  stolen token now =
      find-update lock_key (wanted q) (λ x. x.id == r.id) (taken_over q token now) rows (λ x. refl)
      ∙ ap (if_meets lock_key (λ x. x.id == r.id) (taken_over q token now)) h
      ∙ rw (eq_refl r.id) refl

  stolen_Unique :
      (token : String) (now : ℕ)
      → Unique lock_key (update_where (λ x. x.id == r.id) (taken_over q token now) rows)
  stolen_Unique token now =
      update_any-Unique lock_key (λ x. x.id == r.id) (taken_over q token now) rows (λ x. refl) u

  -- A lock that has run out goes to the next who asks for it. From then on the former holder's release does
  -- nothing, if the new token is another one, and the table still has one lock for each resource.
  pub expired_lock_is_stolen :
      (id token : String) (now after : ℕ)
      → r.expires_at ≤ now
      → token ≢ r.token
      → ((acquire_lock q id token now rows).0 ≡ ok (some token))
        × (find lock_key (wanted q) (acquire_lock q id token now rows).1
            ≡ some (taken_over q token now r))
        × (release_lock q.project_id q.scope r.token after (acquire_lock q id token now rows).1
            ≡ ((acquire_lock q id token now rows).1, false))
        × Unique lock_key (acquire_lock q id token now rows).1
  unfolding acquire_lock take_lock
  expired_lock_is_stolen id token now after ran_out other =
      rw (lookup_lock, ltb_of_le r.expires_at now ran_out)
        (
          refl,
          stolen token now,
          unfold release_lock in
              execute-miss lock_key (wanted q) (λ x. x.token == r.token) _ _
                (taken_over q token now r) (stolen_Unique token now) (stolen token now)
                (other_token r.token token other),
          stolen_Unique token now,
        )

  abbrev freed : ℕ → LockRow
  freed now = record r { expires_at = now }

  released :
      (now : ℕ)
      → find lock_key (wanted q) (release_lock q.project_id q.scope r.token now rows).0
        ≡ some (freed now)
  unfolding release_lock execute
  released now =
      find-update_self lock_key (wanted q) (λ x. x.token == r.token) _ rows (λ x. refl)
      ∙ ap (if_meets lock_key (λ x. x.token == r.token) (λ x. record x { expires_at = now })) h
      ∙ rw (eq_refl r.token) refl

  released_Unique :
      (now : ℕ) → Unique lock_key (release_lock q.project_id q.scope r.token now rows).0
  unfolding release_lock execute
  released_Unique now = update_any-Unique lock_key _ _ rows (λ x. refl) u

  release_told : (now : ℕ) → (release_lock q.project_id q.scope r.token now rows).1 ≡ true
  unfolding release_lock execute
  release_told now =
      count-hit lock_key (wanted q) (λ x. x.token == r.token) rows u
      ∙ ap (hit lock_key (λ x. x.token == r.token)) h
      ∙ eq_refl r.token

acquire_free :
    (q : LockRequest) (rows : Locks) (r : LockRow) (id token : String) (now : ℕ)
    → Unique lock_key rows
    → find lock_key (wanted q) rows ≡ some r
    → r.expires_at ≤ now
    → (acquire_lock q id token now rows).0 ≡ ok (some token)
unfolding acquire_lock take_lock
acquire_free q rows r id token now u h le =
    rw (lookup_lock q rows r u h, ltb_of_le r.expires_at now le) refl

-- A release by the holder makes the lock free at once: the next to ask, at that time or later, gets it.
pub released_lock_is_free :
    (q : LockRequest) (rows : Locks) (r : LockRow) (id token : String) (now after : ℕ)
    → Unique lock_key rows
    → find lock_key (wanted q) rows ≡ some r
    → now ≤ after
    → ((release_lock q.project_id q.scope r.token now rows).1 ≡ true)
      × ((acquire_lock q id token after (release_lock q.project_id q.scope r.token now rows).0).0
          ≡ ok (some token))
released_lock_is_free q rows r id token now after u h le = (
  release_told q rows r u h now,
  acquire_free q _ (freed q rows r u h now) id token after (released_Unique q rows r u h now)
      (released q rows r u h now) le,
)
