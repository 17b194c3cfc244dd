-- ===== src/Persistence/Table.antt =====
-- How a table and the statements on it are read: a table is the list of its rows in insertion order, and an
-- UPDATE changes the rows that meet its WHERE and reports how many there were.
pub mod Keyed
pub mod Selecting
use researchd_agent.Prelude.{
  if◌then◌else◌, ◌==◌, nat_eq, string_eq, ℕ, zero, suc, Bool, List, [], ◌∷◌,
}

module _ {R : Type 0} where
  unfoldable pub update_where : (R → Bool) → (R → R) → List R → List R
  update_where p f [] = []
  update_where p f (r ∷ rs) = (if p r then f r else r) ∷ update_where p f rs

  unfoldable pub count_where : (R → Bool) → List R → ℕ
  count_where p [] = 0
  count_where p (r ∷ rs) = let rest = count_where p rs in if p r then suc rest else rest

  unfoldable pub select_where : (R → Bool) → List R → List R
  select_where p [] = []
  select_where p (r ∷ rs) = let rest = select_where p rs in if p r then r ∷ rest else rest

  unfoldable pub take : ℕ → List R → List R
  take zero rs = []
  take (suc n) [] = []
  take (suc n) (r ∷ rs) = r ∷ take n rs

  -- an UPDATE, with `rowcount == 1`
  unfoldable pub execute : (R → Bool) → (R → R) → List R → List R × Bool
  execute p f rows = (update_where p f rows, count_where p rows == 1)
