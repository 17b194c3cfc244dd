-- ===== src/Scheduler/Leases/Renewal.antt =====
-- What renewal and reclaiming do to leases that have run out.
use mathlib.Core.List.{Memᴰ}
use text.Mathlib.TextPositions.{eq_refl}
use researchd_agent.Domain.Base.{seconds}
use researchd_agent.Persistence.Outbox.{held}
use researchd_agent.Persistence.Table.{select_where, execute}
use researchd_agent.Persistence.Table.Keyed.{
  find, Unique, if_meets, find-update_self, find-update_ne, hit, count-hit, find-append_none,
  find-append_some, append-Unique,
}
use researchd_agent.Persistence.Table.Selecting.{mem-select, select-append, select-one}
use researchd_agent.Prelude.{
  Bool-cases, nat_eq, string_eq, Result, ok, raise, ℕ, ◌+◌, ◌<◌, String, ◌≡◌, refl, sym, ap, subst,
  ◌∙◌, ◌≢◌, inl, inr, Bool, true, false, Option, none, some, List, [], ◌∷◌, ◌++◌, arith,
  ok-injective, raise-ne-ok, option_eq,
}
use researchd_agent.Scheduler.Leases.{
  LeaseRow, Leases, MultipleRows, scalar_one_or_none, same_or_null, live, default_lease_seconds,
  LeaseRequest, Draw, is_held, duplicate_slot, new_lease, grant, past_run, acquire, token_of,
  unreleased, heartbeat, live_for_run, multiple_results_found,
}

same_some : {A : Type 0} {a b : A} → ◌≡◌ {A = Option A} (some a) (some b) → a ≡ b
same_some h = cc

none_given : {A : Type 0} {a : A} → ◌≢◌ {A = Option A} none (some a)
none_given h = cc

-- A heartbeat renews every lease that was not released, also one that ran out long before.
pub heartbeat_renews :
    (token : String) (lease_seconds at now : ℕ) (rows : Leases) (r : LeaseRow)
    → Unique token_of rows
    → find token_of token rows ≡ some r
    → r.released_at ≡ none
    → ((heartbeat token lease_seconds at now rows).1 ≡ true)
      × (find token_of token (heartbeat token lease_seconds at now rows).0
          ≡ some (record r { expires_at = at + seconds lease_seconds; heartbeat_at = some now }))
unfolding heartbeat execute
heartbeat_renews token l at now rows r u h free = (
  count-hit token_of token unreleased rows u ∙ ap (hit token_of unreleased) h ∙ is_free,
  find-update_self token_of token unreleased _ rows (λ x. refl)
      ∙ ap (if_meets token_of unreleased _) h
      ∙ rw is_free refl,
)
  where
    is_free : unreleased r ≡ true
    is_free = rw free refl

module _ (matches : String → String → Bool) (q : LeaseRequest) (d : Draw) (rows rows' : Leases)
    (token : String) where
  -- a granted call adds its lease at the end, and nothing else
  abbrev pub Granted : Type 0
  Granted = (token ≡ d.token) × (rows' ≡ rows ++ new_lease matches q d ∷ [])

  grant_granted :
      (dup : Result MultipleRows Bool)
      → grant matches dup q d rows ≡ (ok (some token), rows')
      → Granted
  unfolding grant
  grant_granted (raise e) h = absurd (raise-ne-ok (ap (λ p. p.0) h))
  grant_granted (ok true) h = absurd (none_given (ok-injective (ap (λ p. p.0) h)))
  grant_granted (ok false) h =
      (sym (same_some (ok-injective (ap (λ p. p.0) h))), sym (ap (λ p. p.1) h))

  past_granted :
      (found : Result MultipleRows (Option LeaseRow))
      → past_run matches found q d rows ≡ (ok (some token), rows')
      → Granted
  unfolding past_run
  past_granted (raise e) h = absurd (raise-ne-ok (ap (λ p. p.0) h))
  past_granted (ok existing) h = elim (Bool-cases (is_held d.at_run existing)) [
    | inl y ↦ absurd (none_given (ok-injective (ap (λ p. p.0) (rw y at h))))
    | inr n ↦ grant_granted (duplicate_slot matches d.at_task q rows) (rw n at h)
  ]

  pub acquire_granted : acquire matches q d rows ≡ (ok (some token), rows') → Granted
  unfolding acquire
  acquire_granted h = past_granted _ h

same_run_refl : (run : Option String) → same_or_null run run ≡ true
same_run_refl none = refl
same_run_refl (some r) = eq_refl r

two_found :
    {R : Type 0} (r x : R) (xs : List R)
    → Memᴰ r xs
    → scalar_one_or_none (xs ++ x ∷ []) ≡ raise multiple_results_found
unfolding scalar_one_or_none
two_found r x [] m = elim m [ ]
two_found r x (y ∷ []) m = refl
two_found r x (y ∷ z ∷ xs) m = refl

abbrev pub Raised : Result MultipleRows (Option String) × Leases → Type 0
Raised r = r.0 ≡ raise multiple_results_found

module _ (matches : String → String → Bool) (q : LeaseRequest) (d : Draw) (rows rows' : Leases)
    (token : String) (r : LeaseRow) where
  both_selected :
      rows' ≡ rows ++ new_lease matches q d ∷ []
      → Memᴰ r rows
      → same_or_null r.run_id q.run_id ≡ true
      → scalar_one_or_none (select_where (λ x. same_or_null x.run_id q.run_id) rows')
        ≡ raise multiple_results_found
  both_selected e m same =
      rw
        (
          e,
          select-append (λ x. same_or_null x.run_id q.run_id) rows (new_lease matches q d ∷ []),
          last_selected,
        )
        (two_found r (new_lease matches q d) _
          (mem-select (λ x. same_or_null x.run_id q.run_id) r rows same m))
    where
      last_selected :
          select_where (λ x. same_or_null x.run_id q.run_id) (new_lease matches q d ∷ [])
          ≡ new_lease matches q d ∷ []
      last_selected =
          select-one (λ x. same_or_null x.run_id q.run_id) (new_lease matches q d)
            (same_run_refl q.run_id)

  -- A run that had a lease before, released or run out, and is granted one again has two rows from then on,
  -- so that looking up its live lease, and acquiring it once more, raise.
  pub second_lease_breaks_run :
      (d' : Draw) (now : ℕ)
      → acquire matches q d rows ≡ (ok (some token), rows')
      → Memᴰ r rows
      → same_or_null r.run_id q.run_id ≡ true
      → (live_for_run q.run_id now rows' ≡ raise multiple_results_found)
        × ((acquire matches q d' rows').0 ≡ raise multiple_results_found)
  unfolding live_for_run acquire past_run
  second_lease_breaks_run d' now h m same =
      let (t, e) = acquire_granted matches q d rows rows' token h in
      rw (both_selected e m same) (refl, refl)

lease_lives :
    (now : ℕ) (r : LeaseRow) → r.released_at ≡ none → now < r.expires_at → live now r ≡ true
lease_lives now r e lt = rw e (ground arith)

module _ (matches : String → String → Bool) (q : LeaseRequest) (d : Draw) (rows : Leases)
    (old : String) (r : LeaseRow) (u : Unique token_of rows)
    (held : find token_of old rows ≡ some r) (free : r.released_at ≡ none)
    (fresh : find token_of d.token rows ≡ none) where
  abbrev both : Leases
  both = rows ++ new_lease matches q d ∷ []

  new_found : find token_of d.token both ≡ some (new_lease matches q d)
  new_found =
      find-append_none token_of d.token rows (new_lease matches q d) fresh
      ∙ rw (eq_refl d.token) refl

  tokens_differ : old ≢ d.token
  tokens_differ e = none_given (sym fresh ∙ subst (λ k. find token_of k rows ≡ some r) e held)

  both-live :
      (at now t : ℕ)
      → t < at + seconds default_lease_seconds
      → t < d.at_expiry + seconds q.lease_seconds
      → ((heartbeat old default_lease_seconds at now both).1 ≡ true)
        × ((a : LeaseRow) × (find token_of old (heartbeat old default_lease_seconds at now both).0
              ≡ some a)
            × (live t a ≡ true))
        × ((b : LeaseRow) × (find token_of d.token
                (heartbeat old default_lease_seconds at now both).0
              ≡ some b)
            × (live t b ≡ true)
            × (b.run_id ≡ q.run_id))
  both-live at now t before_a before_b =
      let (told, found) =
        heartbeat_renews old default_lease_seconds at now both r
          (append-Unique token_of rows (new_lease matches q d) u fresh)
          (find-append_some token_of old rows (new_lease matches q d) r held) free in
      let renewed : LeaseRow = record r {
        expires_at = at + seconds default_lease_seconds;
        heartbeat_at = some now;
      } in
      (
        told,
        (renewed, found, lease_lives t renewed free before_a),
        (
          new_lease matches q d,
          unfold heartbeat execute in
              find-update_ne token_of d.token old unreleased _ both (λ x. refl) tokens_differ
              ∙ new_found,
          lease_lives t (new_lease matches q d) refl before_b,
          refl,
        ),
      )

-- A lease was granted while another lease, which was never released, is in the table. If the holder of that
-- older lease sends a heartbeat afterwards, it is told that it holds the lease, and both leases are live at once
-- at any time before either one runs out, also where the older one had run out before the grant.
pub revived_lease_overlaps :
    (matches : String → String → Bool) (q : LeaseRequest) (d : Draw) (rows rows' : Leases)
    (token old : String) (r : LeaseRow) (at now t : ℕ)
    → Unique token_of rows
    → find token_of old rows ≡ some r
    → r.released_at ≡ none
    → find token_of d.token rows ≡ none
    → acquire matches q d rows ≡ (ok (some token), rows')
    → t < at + seconds default_lease_seconds
    → t < d.at_expiry + seconds q.lease_seconds
    → ((heartbeat old default_lease_seconds at now rows').1 ≡ true)
      × ((a : LeaseRow) × (find token_of old (heartbeat old default_lease_seconds at now rows').0
            ≡ some a)
          × (live t a ≡ true))
      × ((b : LeaseRow) × (find token_of token (heartbeat old default_lease_seconds at now rows').0
            ≡ some b)
          × (live t b ≡ true)
          × (b.run_id ≡ q.run_id))
revived_lease_overlaps matches q d rows rows' token old r at now t u held free fresh won before_a
      before_b =
    let (tk, e) = acquire_granted matches q d rows rows' token won in
    rw (tk, e) (both-live matches q d rows old r u held free fresh at now t before_a before_b)
