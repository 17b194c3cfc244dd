-- ===== src/Application/ApplyResult/ForeignClaims.antt =====
-- The claims of other projects through the application of a result.
use mathlib.Core.Bool.{false≢true}
use researchd_agent.Application.ApplyResult.ClaimRows.{
  base_of_claim, with_claim_base, claim_id_of, new_claim, changed_claim, add_links, ClaimState,
  save_claim, write_claim, retire, change_claim, apply_changes,
}
use researchd_agent.Application.ApplyResult.Data.{
  ApplyDb, ClaimOperation, ClaimChange, WorkResult, Draws, ApplyOutcome, text_or, applied_key,
  create_claim, update_claim, retire_claim,
}
use researchd_agent.Application.ApplyResult.Parts.{apply_fresh-ok}
use researchd_agent.Application.ApplyResult.Saved.{row_saved-other}
use researchd_agent.Application.ApplyResult.Whole.{has_event, apply_work_result}
use researchd_agent.Application.Paths.{FileSystem}
use researchd_agent.Domain.Claim.{Claim}
use researchd_agent.Domain.Enums.Claim.{ClaimUseState, claim_use_state_eq}
use researchd_agent.Domain.Run.{Run}
use researchd_agent.Persistence.Repository.Others.{found_key, found_has, Named}
use researchd_agent.Persistence.Table.Keyed.{find}
use researchd_agent.Prelude.{
  Bool-cases, ◌==◌, nat_eq, string_eq, ok, ℕ, suc, String, ◌≡◌, refl, sym, ap, subst, ◌∙◌, ◌≢◌, inl,
  inr, Option, none, some, List, [], ◌∷◌, eq_iff, All, ok-injective, option_beq_iff, option_eq,
  bind-ok, list_eq,
}

abbrev pub NamedClaim : Claim → Type 0
NamedClaim = Named base_of_claim claim_id_of

-- the rows keep their names, and the one at a key stays
abbrev Kept : String → ClaimState → ClaimState → Type 0
Kept k s u = All NamedClaim u.claims × (find claim_id_of k u.claims ≡ find claim_id_of k s.claims)

write_claim-Kept :
    (now : ℕ) (k claim_id : String) (change : ClaimChange) (c : Claim) (s u : ClaimState)
    → All NamedClaim s.claims
    → NamedClaim c
    → k ≢ c.claim_id
    → write_claim now claim_id change c s ≡ ok u
    → Kept k s u
unfolding write_claim
write_claim-Kept now k claim_id change c s u a named ne h =
    let (rows, h1, g1) = bind-ok (save_claim now c s.claims) h in
    let (linked, _, h2) =
      bind-ok (add_links s.links claim_id change.evidence_relations s.links) g1 in
    let end = ap (λ z. z.claims) (ok-injective h2) in
    let (kept, there) =
      row_saved-other base_of_claim with_claim_base claim_id_of (λ b r. refl) (λ b r. refl) now k c
        s.claims rows a named ne h1 in
    (subst (All NamedClaim) end kept, ap (find claim_id_of k) (sym end) ∙ there)

retire-Kept :
    (now : ℕ) (k : String) (c : Claim) (s u : ClaimState)
    → All NamedClaim s.claims
    → NamedClaim c
    → k ≢ c.claim_id
    → retire now c s ≡ ok u
    → Kept k s u
unfolding retire
retire-Kept now k c s u a named ne h =
    let gone = record c { use_state = ClaimUseState.retired } in
    let (rows, h1, h2) = bind-ok (save_claim now gone s.claims) h in
    let end = ap (λ z. z.claims) (ok-injective h2) in
    let (kept, there) =
      row_saved-other base_of_claim with_claim_base claim_id_of (λ b r. refl) (λ b r. refl) now k
        gone s.claims rows a named ne h1 in
    (subst (All NamedClaim) end kept, ap (find claim_id_of k) (sym end) ∙ there)

unchanged : (k : String) (s u : ClaimState) → All NamedClaim s.claims → s ≡ u → Kept k s u
unchanged k s u a p =
    (subst (λ z. All NamedClaim z.claims) p a, ap (λ z. find claim_id_of k z.claims) (sym p))

change_claim-Kept :
    (now : ℕ) (project_id : Option String) (k claim_id : String) (change : ClaimChange)
    (op : ClaimOperation) (found : Option Claim) (s u : ClaimState)
    → All NamedClaim s.claims
    → find claim_id_of claim_id s.claims ≡ found
    → k ≢ claim_id
    → change_claim now project_id claim_id change op found s ≡ ok u
    → Kept k s u
unfolding change_claim
change_claim-Kept now project_id k claim_id change retire_claim none s u a f ne h =
    unchanged k s u a (ok-injective h)
change_claim-Kept now project_id k claim_id change create_claim none s u a f ne h =
    write_claim-Kept now k claim_id change (new_claim now project_id claim_id change) s u a refl ne
      h
change_claim-Kept now project_id k claim_id change update_claim none s u a f ne h =
    write_claim-Kept now k claim_id change (new_claim now project_id claim_id change) s u a refl ne
      h
change_claim-Kept now project_id k claim_id change op (some c) s u a f ne h =
    let named = found_has NamedClaim claim_id_of claim_id s.claims c a f in
    let other = λ (p : k ≡ c.claim_id). ne (p ∙ found_key claim_id_of claim_id s.claims c f) in
    elim (Bool-cases (c.project_id == project_id)) [
      | inr n ↦ unchanged k s u a (ok-injective (rw n at h))
      | inl y ↦ by_operation op named other (rw y at h)
    ]
  where
    by_operation :
        (o : ClaimOperation)
        → NamedClaim c
        → k ≢ c.claim_id
        → elim o [
          | retire_claim ↦ retire now c s
          | _ ↦ write_claim now claim_id change (changed_claim change c) s
        ]
          ≡ ok u
        → Kept k s u
    by_operation retire_claim named other p = retire-Kept now k c s u a named other p
    by_operation create_claim named other p =
        write_claim-Kept now k claim_id change (changed_claim change c) s u a named other p
    by_operation update_claim named other p =
        write_claim-Kept now k claim_id change (changed_claim change c) s u a named other p

change_claim-foreign :
    (now : ℕ) (project_id : Option String) (claim_id : String) (change : ClaimChange)
    (op : ClaimOperation) (c : Claim) (s u : ClaimState)
    → c.project_id ≢ project_id
    → change_claim now project_id claim_id change op (some c) s ≡ ok u
    → s ≡ u
unfolding change_claim
change_claim-foreign now project_id claim_id change op c s u ne h =
    elim (Bool-cases (c.project_id == project_id)) [
      | inl y ↦ absurd (ne ((option_beq_iff c.project_id project_id).0 y))
      | inr n ↦ ok-injective (rw n at h)
    ]

apply_changes-foreign :
    (now : ℕ) (project_id : Option String) (ids : ℕ → String) (n : ℕ) (k : String) (c : Claim)
    (changes : List ClaimChange) (s u : ClaimState)
    → All NamedClaim s.claims
    → find claim_id_of k s.claims ≡ some c
    → c.project_id ≢ project_id
    → apply_changes now project_id ids n changes s ≡ ok u
    → find claim_id_of k u.claims ≡ some c
unfolding apply_changes
apply_changes-foreign now project_id ids n k c [] s u a f ne h =
    ap (λ z. find claim_id_of k z.claims) (sym (ok-injective h)) ∙ f
apply_changes-foreign now project_id ids n k c (change ∷ changes) s u a f ne h =
    let claim_id = text_or change.claim_id (ids n) in
    let found = find claim_id_of claim_id s.claims in
    let (m, h1, h2) =
      bind-ok (change_claim now project_id claim_id change change.operation found s) h in
    elim (Bool-cases (k == claim_id)) [
      | inl y ↦
          let here_found = subst (λ j. find claim_id_of j s.claims ≡ some c) ((eq_iff k _).0 y) f in
          let same = change_claim-foreign now project_id claim_id change change.operation c s m ne (
            subst (λ o. change_claim now project_id claim_id change change.operation o s ≡ ok m)
              here_found h1) in
          apply_changes-foreign now project_id ids (suc n) k c changes m u
            (subst (λ z. All NamedClaim z.claims) same a)
            (subst (λ z. find claim_id_of k z.claims ≡ some c) same f) ne h2
      | inr o ↦
          let (named, there) =
            change_claim-Kept now project_id k claim_id change change.operation found s m a refl
              (λ p. false≢true (sym o ∙ (eq_iff k _).1 p)) h1 in
          apply_changes-foreign now project_id ids (suc n) k c changes m u named (there ∙ f) ne h2
    ]

-- Where the id of each claim is its public id, a result that is applied leaves every claim of another project as it
-- was, whatever changes the worker asks for under its id.
pub foreign_claim_is_untouched :
    (fs : FileSystem) (now : ℕ) (draws : Draws) (run : Run) (result : WorkResult)
    (db after : ApplyDb) (outcome : ApplyOutcome) (k : String) (c : Claim)
    → All NamedClaim db.claims
    → find claim_id_of k db.claims ≡ some c
    → c.project_id ≢ run.project_id
    → apply_work_result fs now draws run result db ≡ ok (outcome, after)
    → find claim_id_of k after.claims ≡ some c
unfolding apply_work_result
foreign_claim_is_untouched fs now draws run result db after outcome k c a f ne h =
    elim (Bool-cases (has_event (applied_key run.run_id) db.events)) [
      | inl y ↦ ap (λ z. find claim_id_of k z.1.claims) (sym (ok-injective (rw y at h))) ∙ f
      | inr n ↦
          let (_, _, _, changed, _, _, _, got, _, _, same, _) =
            apply_fresh-ok fs now draws run result db after outcome (rw n at h) in
          ap (find claim_id_of k) (sym same)
          ∙ apply_changes-foreign now run.project_id draws.claim_ids 0 k c result.claim_changes
              (record { claims = db.claims; links = db.links; count = 0 }) changed a f ne got
    ]
