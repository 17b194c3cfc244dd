-- ===== src/Persistence/Rows/Decisions/Options.antt =====
-- The rows of the options of a decision: their order, and what is read of them.
use mathlib.Core.Bool.{false≢true}
use text.Mathlib.TextPositions.{eq_refl}
use Prim.Native.Char.{Char, code}
use Prim.Native.String.append.{nil, cons}
use Prim.Native.String.{◌++◌ as str_append}
use researchd_agent.Domain.Decision.{DecisionOption, Decision}
use researchd_agent.Persistence.Rows.Decisions.{
  DecisionOptionRow, text_before, insert_row, sort_rows, options_from, of_decision, read_options,
  decimal_from, option_suffix, option_row, option_rows,
}
use researchd_agent.Persistence.Table.{select_where}
use researchd_agent.Persistence.Table.Selecting.{select-append}
use researchd_agent.Prelude.{
  ltb, Bool-cases, ◌==◌, nat_eq, string_eq, length, all, ℕ, zero, suc, ◌+◌, ◌-◌, ◌≤◌, String, ◌≡◌,
  refl, sym, ap, ◌∙◌, inl, inr, Bool, true, false, not, ◌&&◌, List, [], ◌∷◌, ◌++◌, arith, option_eq,
}

irreflexive : (n : ℕ) → ltb n n ≡ false
irreflexive n = ground arith

reflexive : (n : ℕ) → (n == n) ≡ true
reflexive n = ground arith

append_nil_text : (t : String) → str_append "" t ≡ t
append_nil_text t = λ i. nil t i

append_cons_text :
    (c : Char) (s t : String) → str_append (String.◌∷◌ c s) t ≡ String.◌∷◌ c (str_append s t)
append_cons_text c s t = λ i. cons c s t i

text_before-append :
    (p s t : String) → text_before (str_append p s) (str_append p t) ≡ text_before s t
unfolding text_before
text_before-append String.[] s t = rw (append_nil_text s, append_nil_text t) refl
text_before-append (String.◌∷◌ c p) s t =
    rw (append_cons_text c p s, append_cons_text c p t, irreflexive (code c), reflexive (code c))
      (text_before-append p s t)

both : (a b : Bool) → a && b ≡ true → (a ≡ true) × (b ≡ true)
both true true h = (refl, refl)
both true false h = cc
both false b h = cc

all-middle :
    {A : Type 0} (p : A → Bool) (xs ys : List A) (a : A) → all p (xs ++ a ∷ ys) ≡ true → p a ≡ true
all-middle p [] ys a h = (both _ (all p ys) h).0
all-middle p (x ∷ xs) ys a h = all-middle p xs ys a ((both (p x) _ h).1)

all-left : {A : Type 0} (p : A → Bool) (xs ys : List A) → all p (xs ++ ys) ≡ true → all p xs ≡ true
all-left p [] ys h = refl
all-left p (x ∷ xs) ys h =
    let (here_true, rest) = both (p x) (all p (xs ++ ys)) h in rw here_true (all-left p xs ys rest)

-- texts, none of which comes before an earlier one
abbrev none_after : String → List String → Bool
none_after s ts = all (λ t. not (text_before t s)) ts

unfoldable ascending : List String → Bool
ascending [] = true
ascending (s ∷ ts) = none_after s ts && ascending ts

ascending-left : (xs ys : List String) → ascending (xs ++ ys) ≡ true → ascending xs ≡ true
unfolding ascending
ascending-left [] ys h = refl
ascending-left (x ∷ xs) ys h =
    let (first_true, rest) = both (none_after x (xs ++ ys)) (ascending (xs ++ ys)) h in
    rw (all-left (λ t. not (text_before t x)) xs ys first_true) (ascending-left xs ys rest)

unfoldable suffixes : ℕ → ℕ → List String
suffixes n zero = []
suffixes n (suc k) = option_suffix n ∷ suffixes (suc n) k

ten_ascending : ascending (suffixes 0 10) ≡ true
unfolding ascending suffixes text_before decimal_from
ten_ascending = refl

suffixes-split : (n a b : ℕ) → suffixes n (a + b) ≡ suffixes n a ++ suffixes (n + a) b
unfolding suffixes
suffixes-split n zero b = ap (suffixes n) (zero_add b) ∙ ap (λ m. suffixes m b) (add_zero n)
  where
    zero_add : (m : ℕ) → 0 + m ≡ m
    zero_add m = omega arith

    add_zero : (m : ℕ) → m ≡ m + 0
    add_zero m = omega arith
suffixes-split n (suc a) b =
    ap (suffixes n) (suc_add a b)
    ∙ ap (λ l. option_suffix n ∷ l)
        (suffixes-split (suc n) a b ∙ ap (λ m. suffixes (suc n) a ++ suffixes m b) (move n a))
  where
    suc_add : (m k : ℕ) → suc m + k ≡ suc (m + k)
    suc_add m k = omega arith

    move : (m k : ℕ) → suc m + k ≡ m + suc k
    move m k = omega arith

few_ascending : (k : ℕ) → k ≤ 10 → ascending (suffixes 0 k) ≡ true
few_ascending k h = ascending-left (suffixes 0 k) (suffixes (0 + k) (10 - k)) (
    ap ascending (sym (suffixes-split 0 k (10 - k)))
    ∙ ap (λ m. ascending (suffixes 0 m)) (fills k h)
    ∙ ten_ascending)
  where
    fills : (m : ℕ) → m ≤ 10 → m + (10 - m) ≡ 10
    fills m le = omega arith

-- rows whose ids are such texts
abbrev none_sooner : String → List DecisionOptionRow → Bool
none_sooner s rows = all (λ r. not (text_before r.id s)) rows

unfoldable in_order : List DecisionOptionRow → Bool
in_order [] = true
in_order (r ∷ rs) = none_sooner r.id rs && in_order rs

none_sooner-option_rows :
    (d : Decision) (s : String) (n : ℕ) (opts : List DecisionOption)
    → none_sooner (str_append d.id s) (option_rows d n opts)
      ≡ none_after s (suffixes n (length opts))
unfolding option_rows suffixes
none_sooner-option_rows d s n [] = refl
none_sooner-option_rows d s n (opt ∷ opts) =
    rw (text_before-append d.id (option_suffix n) s, none_sooner-option_rows d s (suc n) opts) refl

in_order-option_rows :
    (d : Decision) (n : ℕ) (opts : List DecisionOption)
    → in_order (option_rows d n opts) ≡ ascending (suffixes n (length opts))
unfolding option_rows suffixes in_order ascending
in_order-option_rows d n [] = refl
in_order-option_rows d n (opt ∷ opts) =
    rw
      (
        none_sooner-option_rows d (option_suffix n) (suc n) opts,
        in_order-option_rows d (suc n) opts,
      )
      refl

insert_row-last :
    (r : DecisionOptionRow) (rows : List DecisionOptionRow)
    → all (λ x. not (text_before r.id x.id)) rows ≡ true
    → insert_row r rows ≡ rows ++ r ∷ []
unfolding insert_row
insert_row-last r [] h = refl
insert_row-last r (x ∷ xs) h = elim (Bool-cases (text_before r.id x.id)) [
  | inl y ↦ absurd (false≢true (rw y at h))
  | inr n ↦ rw n (ap (λ l. x ∷ l) (insert_row-last r xs (rw n at h)))
]

not_before_earlier :
    (xs ys : List DecisionOptionRow) (r : DecisionOptionRow)
    → in_order (xs ++ r ∷ ys) ≡ true
    → all (λ x. not (text_before r.id x.id)) xs ≡ true
unfolding in_order
not_before_earlier [] ys r h = refl
not_before_earlier (x ∷ xs) ys r h =
    let (first_true, rest) = both (none_sooner x.id (xs ++ r ∷ ys)) (in_order (xs ++ r ∷ ys)) h in
    rw (all-middle (λ y. not (text_before y.id x.id)) xs ys r first_true)
      (not_before_earlier xs ys r rest)

append_assoc : {A : Type 0} (xs ys zs : List A) → (xs ++ ys) ++ zs ≡ xs ++ (ys ++ zs)
append_assoc [] ys zs = refl
append_assoc (x ∷ xs) ys zs = ap (λ l. x ∷ l) (append_assoc xs ys zs)

sort_rows-in_order :
    (sorted rows : List DecisionOptionRow)
    → in_order (sorted ++ rows) ≡ true
    → sort_rows sorted rows ≡ sorted ++ rows
unfolding sort_rows
sort_rows-in_order sorted [] h = append_nil sorted
  where
    append_nil : {A : Type 0} (xs : List A) → xs ≡ xs ++ []
    append_nil [] = refl
    append_nil (x ∷ xs) = ap (λ l. x ∷ l) (append_nil xs)
sort_rows-in_order sorted (r ∷ rows) h =
    let shifted = append_assoc sorted (r ∷ []) rows in
    rw (insert_row-last r sorted (not_before_earlier sorted rows r h))
      (sort_rows-in_order (sorted ++ r ∷ []) rows (ap in_order shifted ∙ h) ∙ shifted)

select_own :
    (d : Decision) (n : ℕ) (opts : List DecisionOption)
    → select_where (of_decision d.decision_id) (option_rows d n opts) ≡ option_rows d n opts
unfolding select_where option_rows
select_own d n [] = refl
select_own d n (opt ∷ opts) =
    rw (eq_refl d.decision_id) (ap (λ l. option_row d n opt ∷ l) (select_own d (suc n) opts))

select_deleted :
    (p : DecisionOptionRow → Bool) (rows : List DecisionOptionRow)
    → select_where p (select_where (λ r. not (p r)) rows) ≡ []
unfolding select_where
select_deleted p [] = refl
select_deleted p (r ∷ rs) = elim (Bool-cases (p r)) [
  | inl y ↦ rw y (select_deleted p rs)
  | inr n ↦ rw (n, n) (select_deleted p rs)
]

options_from-option_rows :
    (d : Decision) (n : ℕ) (opts : List DecisionOption) → options_from (option_rows d n opts) ≡ opts
unfolding option_rows
options_from-option_rows d n [] = refl
options_from-option_rows d n (opt ∷ opts) =
    ap (λ l. opt ∷ l) (options_from-option_rows d (suc n) opts)

pub read_options-written :
    (d : Decision) (rows : List DecisionOptionRow)
    → length d.options ≤ 10
    → read_options d.decision_id (
        select_where (λ row. not (of_decision d.decision_id row)) rows ++ option_rows d 0 d.options)
      ≡ d.options
unfolding read_options
read_options-written d rows few =
    let mine = of_decision d.decision_id in
    let kept = select_where (λ row. not (mine row)) rows in
    let selected =
      select-append mine kept (option_rows d 0 d.options)
      ∙ ap (λ l. l ++ select_where mine (option_rows d 0 d.options)) (select_deleted mine rows)
      ∙ select_own d 0 d.options in
    let ordered = in_order-option_rows d 0 d.options ∙ few_ascending (length d.options) few in
    ap (λ l. options_from (sort_rows [] l)) selected
    ∙ ap options_from (sort_rows-in_order [] (option_rows d 0 d.options) ordered)
    ∙ options_from-option_rows d 0 d.options
