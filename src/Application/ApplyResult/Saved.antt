-- ===== src/Application/ApplyResult/Saved.antt =====
-- Rows after the saves of an applied result.
use researchd_agent.Application.ApplyResult.Data.{row_saved}
use researchd_agent.Domain.Base.{DomainModel}
use researchd_agent.Persistence.Repository.{StaleVersion, object_id, save}
use researchd_agent.Persistence.Repository.Others.{save-All, Named, save-other_public}
use researchd_agent.Persistence.Table.Keyed.{find}
use researchd_agent.Prelude.{
  nat_eq, string_eq, Result, ok, raise, ℕ, String, ◌≡◌, refl, subst, ◌≢◌, List, All, ok-injective,
  raise-ne-ok, option_eq,
}

pub row_saved-ok :
    {R : Type 0} (r : Result StaleVersion (R × List R)) (rows : List R)
    → row_saved r ≡ ok rows
    → (p : R × List R) × (r ≡ ok p) × (p.1 ≡ rows)
row_saved-ok (raise x) rows h = absurd (raise-ne-ok h)
row_saved-ok (ok p) rows h = (p, refl, ok-injective h)

pub row_saved-other :
    {R : Type 0} (base_of : R → DomainModel) (with_base : DomainModel → R → R)
    (public_id : R → String) (law : (b : DomainModel) (r : R) → base_of (with_base b r) ≡ b)
    (keeps : (b : DomainModel) (r : R) → public_id (with_base b r) ≡ public_id r) (now : ℕ)
    (k : String) (obj : R) (rows after : List R)
    → All (Named base_of public_id) rows
    → Named base_of public_id obj
    → k ≢ public_id obj
    → row_saved (save base_of with_base now obj rows) ≡ ok after
    → All (Named base_of public_id) after × (find public_id k after ≡ find public_id k rows)
row_saved-other base_of with_base public_id law keeps now k obj rows after a named ne h =
    let (p, hp, same) = row_saved-ok (save base_of with_base now obj rows) after h in
    subst (λ l. All (Named base_of public_id) l × (find public_id k l ≡ find public_id k rows)) same
      (save-other_public base_of with_base public_id law keeps now k obj rows p a named ne hp)

pub row_saved-All :
    {R : Type 0} (base_of : R → DomainModel) (with_base : DomainModel → R → R)
    (law : (b : DomainModel) (r : R) → base_of (with_base b r) ≡ b) (P : R → Type 0) (obj : R)
    (now : ℕ) (rows after : List R)
    → P obj
    → ((b : DomainModel) → b.id ≡ object_id base_of obj → P (with_base b obj))
    → All P rows
    → row_saved (save base_of with_base now obj rows) ≡ ok after
    → All P after
row_saved-All base_of with_base law P obj now rows after kept lands a h =
    let (p, hp, same) = row_saved-ok (save base_of with_base now obj rows) after h in
    subst (All P) same (save-All base_of with_base law P obj kept lands now rows p a hp)
