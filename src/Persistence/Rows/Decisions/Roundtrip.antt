-- ===== src/Persistence/Rows/Decisions/Roundtrip.antt =====
-- Reading a decision back after its save.
use researchd_agent.Application.ApplyResult.Data.{row_saved}
use researchd_agent.Domain.Base.{DomainModel}
use researchd_agent.Domain.Decision.{Decision}
use researchd_agent.Domain.Enums.Values.{
  member_of-decision_status_value, member_of-decision_category_value,
}
use researchd_agent.Persistence.Repository.{StaleVersion, object_id}
use researchd_agent.Persistence.Repository.Stored.{save-Saved}
use researchd_agent.Persistence.Rows.{list_column-list_or_null}
use researchd_agent.Persistence.Rows.Decisions.{
  DecisionRow, DecisionOptionRow, row_of_decision, of_decision, read_options, decision_of_row,
  option_rows, DecisionTables, with_options, decision_rows, save_decision,
}
use researchd_agent.Persistence.Rows.Decisions.Options.{read_options-written}
use researchd_agent.Persistence.Rows.Storing.{save_row, save_row-ok}
use researchd_agent.Persistence.Table.{select_where}
use researchd_agent.Persistence.Table.Keyed.{find, Unique}
use researchd_agent.Prelude.{
  nat_eq, string_eq, length, Result, ok, raise, ℕ, suc, ◌≤◌, ◌≡◌, refl, sym, ap, subst, ◌∙◌, ◌⊎◌,
  inl, inr, not, some, List, ◌++◌, ok-injective, raise-ne-ok, option_eq,
}

-- a row of the decision, whatever its common columns, beside its options
reads_back :
    (d : Decision) (b : DomainModel) (options : List DecisionOptionRow)
    → read_options d.decision_id options ≡ d.options
    → decision_of_row options (row_of_decision (record d { base = b }))
      ≡ some (record d { base = b })
unfolding decision_of_row
reads_back d b options h =
    rw
      (
        member_of-decision_status_value d.status,
        member_of-decision_category_value d.category,
        h,
        list_column-list_or_null d.evidence_refs,
        list_column-list_or_null d.blocking_scope,
        list_column-list_or_null d.continue_scope,
      )
      refl

with_options-ok :
    (d : Decision) (options : List DecisionOptionRow)
    (r : Result StaleVersion (Decision × List DecisionRow)) (saved : Decision)
    (after : DecisionTables)
    → with_options r d options ≡ ok (saved, after)
    → (r ≡ ok (saved, after.decisions))
      × (select_where (λ row. not (of_decision d.decision_id row)) options
            ++ option_rows d 0 d.options
          ≡ after.options)
with_options-ok d options (raise x) saved after h = absurd (raise-ne-ok h)
with_options-ok d options (ok (result, decisions)) saved after h =
    let out = ok-injective h in (ap (λ z. ok (z.0, z.1.decisions)) out, ap (λ z. z.1.options) out)

abbrev pub decision_row_base : DecisionRow → DomainModel
decision_row_base row = row.base

-- The row `row` that is stored under the id of the decision has the common fields of the decision that the save handed
-- back, but for the time of creation, which is the row's, and is read back as that decision.
abbrev pub ReadBack : Decision → DecisionTables → DecisionRow → Type 0
ReadBack saved after row =
    (row.base ≡ record saved.base { created_at = row.base.created_at })
    × (decision_of_row after.options row ≡ some (record saved { base = row.base }))

same_but_base :
    (now : ℕ) (d saved : Decision) (b : DomainModel)
    → (saved ≡ d)
      ⊎ (saved
          ≡ record d { base = record d.base { version = suc d.base.version; updated_at = now } })
    → ◌≡◌ {A = Decision} (record d { base = b }) (record saved { base = b })
same_but_base now d saved b (inl e) = ap (λ (z : Decision). record z { base = b }) (sym e)
same_but_base now d saved b (inr e) = ap (λ (z : Decision). record z { base = b }) (sym e)

read_as_saved :
    (now : ℕ) (d saved : Decision) (after : DecisionTables) (b : DomainModel) (row : DecisionRow)
    → row ≡ row_of_decision (record d { base = b })
    → b ≡ record saved.base { created_at = b.created_at }
    → (saved ≡ d)
      ⊎ (saved
          ≡ record d { base = record d.base { version = suc d.base.version; updated_at = now } })
    → read_options d.decision_id after.options ≡ d.options
    → ReadBack saved after row
read_as_saved now d saved after b row e same handed mine =
    subst (ReadBack saved after) (sym e)
      (same, reads_back d b after.options mine ∙ ap some (same_but_base now d saved b handed))

-- Where the ids of the stored rows are unique, after a decision with at most ten options is saved, whatever options were
-- stored, the row under its id is read back, with the rows of options, as the decision that the save handed back, with
-- its options in their order; only the time of creation is the row's.
pub decision_roundtrip :
    (now : ℕ) (d saved : Decision) (tables after : DecisionTables)
    → length d.options ≤ 10
    → Unique (object_id decision_row_base) tables.decisions
    → save_decision now d tables ≡ ok (saved, after)
    → (row : DecisionRow) × (find (object_id decision_row_base) d.id after.decisions ≡ some row)
      × ReadBack saved after row
unfolding save_decision
decision_roundtrip now d saved tables after few u h =
    let (row_saved, options) =
      with_options-ok d tables.options (save_row decision_rows now d tables.decisions) saved after
        h in
    let (as_row, handed) =
      save_row-ok decision_rows now d tables.decisions (saved, after.decisions) row_saved in
    let (row, there, how) =
      save-Saved decision_row_base (λ b r. record r { base = b }) (λ b r. refl) now
        (row_of_decision d) tables.decisions (row_of_decision saved, after.decisions) u as_row in
    let mine =
      subst (λ l. read_options d.decision_id l ≡ d.options) options
        (read_options-written d tables.options few) in
    (
      row,
      there,
      elim how [
        | inl (e, q) ↦
            read_as_saved now d saved after d.base row e
              (ap (λ (r : DecisionRow). record r.base { created_at = d.base.created_at }) (sym q))
              handed mine
        | inr (x, e, q) ↦
            read_as_saved now d saved after
              (record d.base {
                version = suc d.base.version;
                updated_at = now;
                created_at = x.base.created_at;
              })
              row e
              (ap (λ (r : DecisionRow). record r.base { created_at = x.base.created_at }) (sym q))
              handed mine
      ],
    )
