-- ===== src/Application/Audit/SoundRows.antt =====
-- Rows of evidence that are VERIFIED only with provenance, through the writes of an audit.
use researchd_agent.Application.Audit.Candidates.{
  evidence_saved, save_evidence, Progress, or_kept, save_verified, try_verify,
}
use researchd_agent.Application.Audit.Data.{AuditError, base_of_evidence, with_evidence_base}
use researchd_agent.Application.EvidenceValidation.{Records, ValidationError, verify_evidence}
use researchd_agent.Application.EvidenceValidation.Provenance.{verify_evidence-ok}
use researchd_agent.Domain.Enums.Evidence.{
  EvidenceStatus, EvidenceType, evidence_status_eq, evidence_type_eq,
}
use researchd_agent.Domain.Evidence.{Evidence, provenance_of, provenance_ok}
use researchd_agent.Domain.Evidence.Gate.{verify-ok, same_provenance}
use researchd_agent.Persistence.Repository.{
  StaleVersion, object_id, addressed, written, update_row, save_over, save,
}
use researchd_agent.Persistence.Table.{update_where, count_where}
use researchd_agent.Persistence.Table.Keyed.{find}
use researchd_agent.Prelude.{
  Bool-cases, ◌==◌, nat_eq, string_eq, Result, ok, raise, ℕ, ◌≡◌, refl, ap, subst, ◌∙◌, ◌≢◌, ◌⊎◌,
  inl, inr, Bool, true, Option, none, some, List, [], ◌∷◌, ◌++◌, All, ok-injective, raise-ne-ok,
  option_eq,
}

-- VERIFIED only with provenance
abbrev pub Sound : Evidence → Type 0
Sound e = (e.status ≢ EvidenceStatus.verified) ⊎ (provenance_ok e ≡ true)

AllSound-update :
    (p : Evidence → Bool) (f : Evidence → Evidence) (rows : List Evidence)
    → ((r : Evidence) → Sound (f r))
    → All Sound rows
    → All Sound (update_where p f rows)
unfolding update_where
AllSound-update p f [] hf a = tt
AllSound-update p f (r ∷ rs) hf a = elim (Bool-cases (p r)) [
  | inl y ↦ rw y (hf r, AllSound-update p f rs hf a.1)
  | inr n ↦ rw n (a.0, AllSound-update p f rs hf a.1)
]

AllSound-append :
    (rows : List Evidence) (r : Evidence) → All Sound rows → Sound r → All Sound (rows ++ r ∷ [])
AllSound-append [] r a h = (h, tt)
AllSound-append (x ∷ xs) r a h = (a.0, AllSound-append xs r a.1 h)

written_provenance :
    (k : EvidenceType) (now : ℕ) (e row : Evidence)
    → provenance_of k (written base_of_evidence with_evidence_base now e row) ≡ provenance_of k e
unfolding provenance_of
written_provenance EvidenceType.literature now e row = refl
written_provenance _ now e row = refl

written-Sound :
    (now : ℕ) (e row : Evidence)
    → Sound e
    → Sound (written base_of_evidence with_evidence_base now e row)
unfolding provenance_ok
written-Sound now e row (inl n) = inl n
written-Sound now e row (inr p) = inr (written_provenance e.type now e row ∙ p)

AllSound-saved :
    (now : ℕ) (e : Evidence) (rows : List Evidence) (found : Option Evidence)
    (p : Evidence × List Evidence)
    → Sound e
    → All Sound rows
    → save_over base_of_evidence with_evidence_base found now e rows ≡ ok p
    → All Sound p.1
unfolding update_row
AllSound-saved now e rows none p s a h =
    subst (λ q. All Sound q.1) (ok-injective h) (AllSound-append rows e a s)
AllSound-saved now e rows (some x) p s a h =
    elim (Bool-cases (count_where (addressed base_of_evidence e) rows == 0)) [
      | inl y ↦ absurd (raise-ne-ok (rw y at h))
      | inr n ↦
          subst (λ q. All Sound q.1) (ok-injective (rw n at h))
            (AllSound-update (addressed base_of_evidence e)
              (written base_of_evidence with_evidence_base now e) rows
              (λ r. written-Sound now e r s) a)
    ]

evidence_saved-ok :
    (r : Result StaleVersion (Evidence × List Evidence)) (rows : List Evidence)
    → evidence_saved r ≡ ok rows
    → (p : Evidence × List Evidence) × (r ≡ ok p) × (p.1 ≡ rows)
evidence_saved-ok (raise x) rows h = absurd (raise-ne-ok h)
evidence_saved-ok (ok p) rows h = (p, refl, ok-injective h)

pub save_evidence-AllSound :
    (now : ℕ) (e : Evidence) (rows rows' : List Evidence)
    → Sound e
    → All Sound rows
    → save_evidence now e rows ≡ ok rows'
    → All Sound rows'
unfolding save
save_evidence-AllSound now e rows rows' s a h =
    let (p, hp, same) =
      evidence_saved-ok (save base_of_evidence with_evidence_base now e rows) rows' h in
    subst (All Sound) same (
      AllSound-saved now e rows
        (find (object_id base_of_evidence) (object_id base_of_evidence e) rows) p s a hp)

or_kept-AllSound :
    (p : Progress) (r : Result AuditError (List Evidence))
    → All Sound p.0
    → ((rows : List Evidence) → r ≡ ok rows → All Sound rows)
    → All Sound (or_kept p r).0
or_kept-AllSound p (raise x) a f = a
or_kept-AllSound p (ok rows) a f = f rows refl

verified-Sound :
    (now : ℕ) (db : Records) (e v : Evidence) → verify_evidence now db e ≡ ok v → Sound v
unfolding provenance_ok
verified-Sound now db e v h =
    let (_, hv, _, _) = verify_evidence-ok now db e v h in
    let (p, same) = verify-ok now e v hv in
    inr (ap provenance_ok same ∙ same_provenance e.type now EvidenceStatus.verified e ∙ p)

save_verified-AllSound :
    (now : ℕ) (db : Records) (e : Evidence) (rows rows' : List Evidence)
    (r : Result ValidationError Evidence)
    → verify_evidence now db e ≡ r
    → All Sound rows
    → save_verified now rows r ≡ ok rows'
    → All Sound rows'
save_verified-AllSound now db e rows rows' (raise x) v a h = absurd (raise-ne-ok h)
save_verified-AllSound now db e rows rows' (ok w) v a h =
    save_evidence-AllSound now w rows rows' (verified-Sound now db e w v) a h

pub try_verify-AllSound :
    (now : ℕ) (db : Records) (e : Evidence) (p : Progress)
    → All Sound p.0
    → All Sound (try_verify now db e p).0
unfolding try_verify
try_verify-AllSound now db e p a =
    or_kept-AllSound p (save_verified now p.0 (verify_evidence now db e)) a
      (λ rows h. save_verified-AllSound now db e p.0 rows (verify_evidence now db e) refl a h)
