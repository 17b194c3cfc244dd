-- ===== src/Scheduler/Leases/Exclusion.antt =====
-- What `LeaseRepo.acquire` of src/researchd/scheduler/leases.py refuses while a live lease stands.
use mathlib.Core.List.{Memᴰ}
use researchd_agent.Persistence.Table.Selecting.{mem-select}
use researchd_agent.Prelude.{
  Bool-cases, truthy, given, Result, ok, raise, ℕ, ◌<◌, String, ◌≡◌, refl, sym, ap, ◌⊎◌, inl, inr,
  Bool, true, false, Option, none, some, List, [], ◌∷◌, arith,
}
use researchd_agent.Scheduler.Leases.{
  LeaseRow, Leases, MultipleRows, scalar_one_or_none, same_or_null, live, before_colon,
  LeaseRequest, Draw, is_held, in_slot, duplicate_slot, grant, past_run, acquire,
  multiple_results_found,
}

-- a result that carries no token
abbrev pub NoToken : Result MultipleRows (Option String) → Type 0
NoToken (raise e) = Unit
NoToken (ok none) = Unit
NoToken (ok (some t)) = ⊥

-- What a query for one row says when the row is among those selected.
scalar-mem :
    {R : Type 0} (r : R) (rows : List R)
    → Memᴰ r rows
    → (scalar_one_or_none rows ≡ ok (some r))
      ⊎ (scalar_one_or_none rows ≡ raise multiple_results_found)
unfolding scalar_one_or_none
scalar-mem r [] m = elim m [ ]
scalar-mem r (x ∷ []) (Memᴰ.tail m) = elim m [ ]
scalar-mem r (x ∷ []) (Memᴰ.head e) = inl (ap (λ y. ok (some y)) (sym e))
scalar-mem r (x ∷ y ∷ rows) (Memᴰ.head e) = inr refl
scalar-mem r (x ∷ y ∷ rows) (Memᴰ.tail m) = inr refl

module _ (matches : String → String → Bool) (q : LeaseRequest) (d : Draw) (rows : Leases)
    (r : LeaseRow) where
  -- the lease is the run's own and lives when the call looks for it
  abbrev pub HoldsRun : Type 0
  HoldsRun =
      (same_or_null r.run_id q.run_id ≡ true) × (r.released_at ≡ none) × (d.at_run < r.expires_at)

  -- the lease is another run's of the task, under an owner of the same role, and lives when the call looks
  abbrev pub HoldsSlot : Type 0
  HoldsSlot =
      (given q.task_id ≡ true)
      × (truthy q.owner ≡ true)
      × (same_or_null r.task_id q.task_id ≡ true)
      × (matches (before_colon q.owner) r.owner ≡ true)
      × (same_or_null r.run_id q.run_id ≡ false)
      × (r.released_at ≡ none)
      × (d.at_task < r.expires_at)

  abbrev pub Refused : Type 0
  Refused = NoToken (acquire matches q d rows).0 × ((acquire matches q d rows).1 ≡ rows)

  live_now : (now : ℕ) → r.released_at ≡ none → now < r.expires_at → live now r ≡ true
  live_now now e lt = rw e (ground arith)

  run_refused : Memᴰ r rows → HoldsRun → Refused
  unfolding acquire past_run
  run_refused m (same, free, lt) =
      elim (scalar-mem r _ (mem-select (λ x. same_or_null x.run_id q.run_id) r rows same m)) [
        | inl one ↦ rw (one, live_now d.at_run free lt) (tt, refl)
        | inr many ↦ rw many (tt, refl)
      ]

  slot_duplicate :
      Memᴰ r rows
      → HoldsSlot
      → (duplicate_slot matches d.at_task q rows ≡ ok true)
        ⊎ (duplicate_slot matches d.at_task q rows ≡ raise multiple_results_found)
  unfolding duplicate_slot
  slot_duplicate m (task, owner, same, like, other, free, lt) =
      rw (task, owner)
        (elim (scalar-mem r _ (mem-select (in_slot matches d.at_task q) r rows in_it m)) [
          | inl one ↦ inl (rw (one, other) refl)
          | inr many ↦ inr (rw many refl)
        ])
    where
      in_it : in_slot matches d.at_task q r ≡ true
      in_it = rw (same, like, free) (ground arith)

  grant_refused :
      Memᴰ r rows
      → HoldsSlot
      → NoToken (grant matches (duplicate_slot matches d.at_task q rows) q d rows).0
        × ((grant matches (duplicate_slot matches d.at_task q rows) q d rows).1 ≡ rows)
  unfolding grant
  grant_refused m h = elim (slot_duplicate m h) [
    | inl one ↦ rw one (tt, refl)
    | inr many ↦ rw many (tt, refl)
  ]

  past_refused :
      (found : Result MultipleRows (Option LeaseRow))
      → NoToken (grant matches (duplicate_slot matches d.at_task q rows) q d rows).0
        × ((grant matches (duplicate_slot matches d.at_task q rows) q d rows).1 ≡ rows)
      → NoToken (past_run matches found q d rows).0 × ((past_run matches found q d rows).1 ≡ rows)
  unfolding past_run
  past_refused (raise e) g = (tt, refl)
  past_refused (ok existing) g = elim (Bool-cases (is_held d.at_run existing)) [
    | inl y ↦ rw y (tt, refl)
    | inr n ↦ rw n g
  ]

  slot_refused : Memᴰ r rows → HoldsSlot → Refused
  unfolding acquire
  slot_refused m h = past_refused _ (grant_refused m h)

  -- While a live lease of the run, or of another run in the same slot of the task, is in the table,
  -- `acquire` hands out no token and writes nothing.
  pub live_lease_refuses : Memᴰ r rows → HoldsRun ⊎ HoldsSlot → Refused
  live_lease_refuses m (inl h) = run_refused m h
  live_lease_refuses m (inr h) = slot_refused m h
