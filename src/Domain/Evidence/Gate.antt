-- ===== src/Domain/Evidence/Gate.antt =====
-- How evidence comes to be VERIFIED.
use mathlib.Core.Bool.{false≢true}
use mathlib.Core.List.{Memᴰ}
use researchd_agent.Domain.Enums.Evidence.{
  EvidenceStatus, evidence_status_beq_iff, EvidenceType, evidence_status_eq, evidence_type_eq,
}
use researchd_agent.Domain.Evidence.{
  ComputationalProvenance, Evidence, is_text, computational_ok, provenance_of, provenance_ok,
  set_evidence_status, verify, transition_evidence,
}
use researchd_agent.Domain.Machines.Tables.{evidence_transitions}
use researchd_agent.Domain.StateMachine.{can, transition}
use researchd_agent.Prelude.{
  Bool-cases, ◌==◌, nat_eq, string_eq, contains→mem, ok, ℕ, String, ◌≡◌, refl, sym, ap, subst, ◌∙◌,
  ◌≢◌, inl, inr, true, Option, none, some, List, arith, eq_iff, ok-injective, raise-ne-ok,
  option_eq,
}

-- one call that returned
pub data EvidenceStep (e : Evidence) : Evidence → Type 0 where
  by_verify : {f : Evidence} (now : ℕ) → verify now e ≡ ok f → EvidenceStep e f
  by_transition :
      {f : Evidence} (now : ℕ) (target : EvidenceStatus)
      → transition_evidence now target e ≡ ok f
      → EvidenceStep e f

pub data EvidenceHistory (e : Evidence) : Evidence → Type 0 where
  no_step : EvidenceHistory e e
  one_more : {f g : Evidence} → EvidenceHistory e f → EvidenceStep f g → EvidenceHistory e g

pub verify-ok :
    (now : ℕ) (e f : Evidence)
    → verify now e ≡ ok f
    → (provenance_ok e ≡ true) × (f ≡ set_evidence_status now EvidenceStatus.verified e)
unfolding verify
verify-ok now e f h = elim (Bool-cases (provenance_ok e)) [
  | inl p ↦ elim (Bool-cases (can evidence_transitions e.status EvidenceStatus.verified true)) [
    | inl c ↦ (p, ok-injective (sym (rw (p, c) at h)))
    | inr n ↦ absurd (raise-ne-ok (rw (p, n) at h))
  ]
  | inr n ↦ absurd (raise-ne-ok (rw n at h))
]

pub transition_evidence-ok :
    (now : ℕ) (target : EvidenceStatus) (e f : Evidence)
    → transition_evidence now target e ≡ ok f
    → (target ≢ EvidenceStatus.verified) × (f ≡ set_evidence_status now target e)
unfolding transition_evidence transition
transition_evidence-ok now target e f h = elim (Bool-cases (target == EvidenceStatus.verified)) [
  | inl y ↦ absurd (raise-ne-ok (rw y at h))
  | inr n ↦ elim (Bool-cases (can evidence_transitions e.status target true)) [
    | inl c ↦ (
      (λ v. false≢true (sym n ∙ (evidence_status_beq_iff target EvidenceStatus.verified).1 v)),
      ok-injective (sym (rw (n, c) at h)),
    )
    | inr d ↦ absurd (raise-ne-ok (rw (n, d) at h))
  ]
]

-- a call that returned has changed the status and the time of the update, and nothing else
step-changes :
    {e f : Evidence}
    → EvidenceStep e f
    → (now : ℕ) × (s : EvidenceStatus) × (f ≡ set_evidence_status now s e)
step-changes {e} {f} (by_verify now h) = (now, EvidenceStatus.verified, (verify-ok now e f h).1)
step-changes {e} {f} (by_transition now target h) =
    (now, target, (transition_evidence-ok now target e f h).1)

-- the step that made evidence VERIFIED found its provenance in order
step_verifies :
    {e f : Evidence}
    → EvidenceStep e f
    → f.status ≡ EvidenceStatus.verified
    → provenance_ok e ≡ true
step_verifies {e} {f} (by_verify now h) v = (verify-ok now e f h).0
step_verifies {e} {f} (by_transition now target h) v =
    let (other, same) = transition_evidence-ok now target e f h in
    absurd (other (sym (ap (λ x. x.status) same) ∙ v))

abbrev SameSubject : Evidence → Evidence → Type 0
SameSubject e f =
    (provenance_ok f ≡ provenance_ok e)
    × (f.type ≡ e.type)
    × (f.computational ≡ e.computational)
    × (f.run_id ≡ e.run_id)
    × (f.artifact_refs ≡ e.artifact_refs)

pub same_provenance :
    (k : EvidenceType) (now : ℕ) (s : EvidenceStatus) (e : Evidence)
    → provenance_of k (set_evidence_status now s e) ≡ provenance_of k e
unfolding provenance_of
same_provenance EvidenceType.literature now s e = refl
same_provenance _ now s e = refl

step-SameSubject : {e f : Evidence} → EvidenceStep e f → SameSubject e f
unfolding provenance_ok
step-SameSubject {e} s =
    let (now, status, same) = step-changes s in
    rw same (same_provenance e.type now status e, refl, refl, refl, refl)

history-SameSubject : {e f : Evidence} → EvidenceHistory e f → SameSubject e f
history-SameSubject no_step = (refl, refl, refl, refl, refl)
history-SameSubject (one_more h s) =
    let (a, b, c, d, r) = history-SameSubject h in
    let (a', b', c', d', r') = step-SameSubject s in (a' ∙ a, b' ∙ b, c' ∙ c, d' ∙ d, r' ∙ r)

-- Whatever calls of `verify` and `transition` returned, evidence that they took to VERIFIED passes
-- `provenance_ok`.
pub verified_has_provenance :
    {e f : Evidence}
    → EvidenceHistory e f
    → e.status ≢ EvidenceStatus.verified
    → f.status ≡ EvidenceStatus.verified
    → provenance_ok f ≡ true
verified_has_provenance no_step n v = absurd (n v)
verified_has_provenance (one_more h s) n v = (step-SameSubject s).0 ∙ step_verifies s v

-- what `provenance_ok` asks of computational evidence
abbrev pub HasRunAndArtifact : Evidence → Type 0
HasRunAndArtifact e =
    (c : ComputationalProvenance) × (e.computational ≡ some c)
    × (e.run_id ≡ some c.run_id)
    × Memᴰ c.artifact_id e.artifact_refs

is_text→eq : (s : String) (o : Option String) → is_text s o ≡ true → o ≡ some s
is_text→eq s none h = cc
is_text→eq s (some o) h = ap some (sym ((eq_iff s o).0 h))

computational_ok→ :
    (o : Option ComputationalProvenance) (run_id : Option String) (refs : List String)
    → computational_ok o run_id refs ≡ true
    → (c : ComputationalProvenance) × (o ≡ some c)
      × (run_id ≡ some c.run_id)
      × Memᴰ c.artifact_id refs
computational_ok→ none run_id refs h = cc
computational_ok→ (some c) run_id refs h = (
  c,
  refl,
  is_text→eq c.run_id run_id (ground arith),
  contains→mem c.artifact_id refs (ground arith),
)

-- Computational evidence that such calls took to VERIFIED has a computational provenance that names the
-- evidence's own run, and an artifact that is among the evidence's artifact references.
pub verified_computational :
    {e f : Evidence}
    → EvidenceHistory e f
    → e.type ≡ EvidenceType.computational
    → e.status ≢ EvidenceStatus.verified
    → f.status ≡ EvidenceStatus.verified
    → HasRunAndArtifact f
unfolding provenance_ok
verified_computational {e} {f} h t n v =
    computational_ok→ f.computational f.run_id f.artifact_refs (
      subst (λ k. provenance_of k f ≡ true) ((history-SameSubject h).1 ∙ t)
        (verified_has_provenance h n v))
