-- ===== src/Domain/Decision/Answers.antt =====
-- Which answers a decision accepts, and what later calls do to them.
use mathlib.Core.Bool.{false≢true}
use researchd_agent.Domain.Decision.{
  DecisionOption, Decision, DecisionMethod, transition_decision, stale, apply_answer,
  apply_decision, withdraw,
}
use researchd_agent.Domain.Enums.Decision.{DecisionStatus, decision_status_eq}
use researchd_agent.Domain.Machines.Tables.{decision_transitions}
use researchd_agent.Domain.StateMachine.{can, transition}
use researchd_agent.Prelude.{
  Bool-cases, ◌==◌, nat_eq, string_eq, any, contains, ok, ℕ, String, ◌≡◌, refl, ◌∙◌, ◌↔◌, ◌⊎◌, inl,
  inr, Bool, true, false, ◌||◌, Option, none, some, List, [], ◌∷◌, arith, eq_iff, raise-ne-ok,
}

-- `version` is absent, or the decision's own
abbrev pub Current : Option ℕ → ℕ → Type 0
Current none current = Unit
Current (some v) current = v ≡ current

-- one of the options has the identifier
abbrev pub HasOption : String → List DecisionOption → Type 0
HasOption k [] = ⊥
HasOption k (o ∷ os) = (o.option_id ≡ k) ⊎ HasOption k os

or_true : (b : Bool) → (b || true) ≡ true
or_true b = ground arith

Current-iff : (version : Option ℕ) (n : ℕ) → (stale version n ≡ false) ↔ Current version n
Current-iff none n = (λ _. tt, λ _. refl)
Current-iff (some v) n = (λ h. ground arith, λ h. ground arith)

any→HasOption :
    (k : String) (os : List DecisionOption) → any (λ o. o.option_id == k) os ≡ true → HasOption k os
any→HasOption k [] h = absurd (false≢true h)
any→HasOption k (o ∷ os) h = elim (Bool-cases (o.option_id == k)) [
  | inl y ↦ inl ((eq_iff o.option_id k).0 y)
  | inr n ↦ inr (any→HasOption k os (rw n at h))
]

HasOption→any :
    (k : String) (os : List DecisionOption) → HasOption k os → any (λ o. o.option_id == k) os ≡ true
HasOption→any k [] h = absurd h
HasOption→any k (o ∷ os) (inl e) = rw ((eq_iff o.option_id k).1 e) refl
HasOption→any k (o ∷ os) (inr m) = rw (HasOption→any k os m) (or_true (o.option_id == k))

HasOption-iff :
    (k : String) (os : List DecisionOption)
    → (any (λ o. o.option_id == k) os ≡ true) ↔ HasOption k os
HasOption-iff k os = (any→HasOption k os, HasOption→any k os)

opened_iff :
    (s : DecisionStatus)
    → (contains s (DecisionStatus.opened ∷ []) ≡ true) ↔ (s ≡ DecisionStatus.opened)
opened_iff s = (λ h. ground arith, λ h. ground arith)

opened_may_be_answered :
    can decision_transitions DecisionStatus.opened DecisionStatus.answered true ≡ true
unfolding can decision_transitions
opened_may_be_answered = refl

answer_returned :
    (now : ℕ) (k actor : String) (version : Option ℕ) (d : Decision)
    → (apply_answer now k actor version d).0 ≡ ok DecisionStatus.answered
    → Current version d.decision_version
      × HasOption k d.options
      × (d.status ≡ DecisionStatus.opened)
unfolding apply_answer
answer_returned now k actor version d h = elim (Bool-cases (stale version d.decision_version)) [
  | inl y ↦ absurd (raise-ne-ok (rw y at h))
  | inr fresh ↦ elim (Bool-cases (any (λ o. o.option_id == k) d.options)) [
    | inr n ↦ absurd (raise-ne-ok (rw (fresh, n) at h))
    | inl y ↦ elim (Bool-cases (contains d.status (DecisionStatus.opened ∷ []))) [
      | inr n ↦ absurd (raise-ne-ok (rw (fresh, y, n) at h))
      | inl o ↦ (
        (Current-iff version d.decision_version).0 fresh,
        (HasOption-iff k d.options).0 y,
        (opened_iff d.status).0 o,
      )
    ]
  ]
]

answer_granted :
    (now : ℕ) (k actor : String) (version : Option ℕ) (d : Decision)
    → Current version d.decision_version
      × HasOption k d.options
      × (d.status ≡ DecisionStatus.opened)
    → (apply_answer now k actor version d).0 ≡ ok DecisionStatus.answered
unfolding apply_answer transition_decision transition
answer_granted now k actor version d (current, has, opened) =
    rw
      (
        (Current-iff version d.decision_version).1 current,
        (HasOption-iff k d.options).1 has,
        opened,
        opened_may_be_answered,
      )
      refl

-- `apply_answer` returns exactly for an OPEN decision, a version that is absent or the current one, and
-- an option of the decision.
pub apply_answer_exact :
    (now : ℕ) (option_id actor : String) (version : Option ℕ) (d : Decision)
    → ((apply_answer now option_id actor version d).0 ≡ ok DecisionStatus.answered) ↔ (
        Current version d.decision_version
        × HasOption option_id d.options
        × (d.status ≡ DecisionStatus.opened))
apply_answer_exact now option_id actor version d =
    (answer_returned now option_id actor version d, answer_granted now option_id actor version d)

-- one call of a method of `Decision`
pub data DecisionCall : Type 0 where
  call_move : DecisionStatus → DecisionCall
  call_answer : String → String → Option ℕ → DecisionCall
  call_apply : ℕ → DecisionCall
  call_withdraw : DecisionCall

unfoldable pub ask : ℕ → DecisionCall → DecisionMethod
unfolding transition_decision apply_answer apply_decision withdraw
ask now (call_move target) = transition_decision now target
ask now (call_answer option_id actor version) = apply_answer now option_id actor version
ask now (call_apply revision) = apply_decision now revision
ask now call_withdraw = withdraw now

unfoldable pub ask_all : List (ℕ × DecisionCall) → Decision → Decision
ask_all [] d = d
ask_all ((now, c) ∷ rest) d = ask_all rest (ask now c d).1

-- not CANDIDATE and not OPEN
abbrev is_settled : DecisionStatus → Bool
is_settled DecisionStatus.candidate = false
is_settled DecisionStatus.opened = false
is_settled _ = true

settled_stays :
    (s u : DecisionStatus)
    → is_settled s ≡ true
    → can decision_transitions s u true ≡ true
    → is_settled u ≡ true
unfolding can decision_transitions
settled_stays s u h c = ground arith

abbrev Keeps : Decision → Decision → Type 0
Keeps d f =
    (is_settled f.status ≡ true)
    × (f.answer ≡ d.answer)
    × (f.answered_by ≡ d.answered_by)
    × (f.answered_at ≡ d.answered_at)

transition_decision-Keeps :
    (now : ℕ) (target : DecisionStatus) (d f : Decision)
    → Keeps d f
    → Keeps d (transition_decision now target f).1
unfolding transition_decision transition
transition_decision-Keeps now target d f k =
    elim (Bool-cases (can decision_transitions f.status target true)) [
      | inl c ↦ rw c (settled_stays f.status target k.0 c, k.1, k.2, k.3)
      | inr n ↦ rw n k
    ]

Keeps-refl : (d : Decision) → is_settled d.status ≡ true → Keeps d d
Keeps-refl d h = (h, refl, refl, refl)

settled_not_opened :
    (s : DecisionStatus) → is_settled s ≡ true → contains s (DecisionStatus.opened ∷ []) ≡ false
settled_not_opened s h = ground arith

answer-Keeps :
    (now : ℕ) (k actor : String) (version : Option ℕ) (d : Decision)
    → is_settled d.status ≡ true
    → Keeps d (apply_answer now k actor version d).1
unfolding apply_answer
answer-Keeps now k actor version d h = elim (Bool-cases (stale version d.decision_version)) [
  | inl y ↦ rw y (Keeps-refl d h)
  | inr f ↦ elim (Bool-cases (any (λ o. o.option_id == k) d.options)) [
    | inr n ↦ rw (f, n) (Keeps-refl d h)
    | inl y ↦ rw (f, y, settled_not_opened d.status h) (Keeps-refl d h)
  ]
]

ask-Keeps :
    (now : ℕ) (c : DecisionCall) (d : Decision)
    → is_settled d.status ≡ true
    → Keeps d (ask now c d).1
unfolding ask apply_decision withdraw
ask-Keeps now (call_move target) d h = transition_decision-Keeps now target d d (Keeps-refl d h)
ask-Keeps now (call_answer k actor version) d h = answer-Keeps now k actor version d h
ask-Keeps now (call_apply revision) d h =
    transition_decision-Keeps now DecisionStatus.applied d
      (record d { applied_revision = some revision }) (Keeps-refl d h)
ask-Keeps now call_withdraw d h =
    transition_decision-Keeps now DecisionStatus.withdrawn d d (Keeps-refl d h)

settled-Keeps :
    (calls : List (ℕ × DecisionCall)) (d : Decision)
    → is_settled d.status ≡ true
    → Keeps d (ask_all calls d)
unfolding ask_all
settled-Keeps [] d h = Keeps-refl d h
settled-Keeps ((now, c) ∷ rest) d h =
    let (s, a, b, e) = ask-Keeps now c d h in
    let (s', a', b', e') = settled-Keeps rest (ask now c d).1 s in (s', a' ∙ a, b' ∙ b, e' ∙ e)

answer_writes :
    (now : ℕ) (k actor : String) (version : Option ℕ) (d : Decision)
    → (apply_answer now k actor version d).0 ≡ ok DecisionStatus.answered
    → let f = (apply_answer now k actor version d).1 in
      (is_settled f.status ≡ true) × (f.answer ≡ some k) × (f.answered_by ≡ some actor)
unfolding apply_answer transition_decision transition
answer_writes now k actor version d h =
    let (current, has, opened) = answer_returned now k actor version d h in
    rw
      (
        (Current-iff version d.decision_version).1 current,
        (HasOption-iff k d.options).1 has,
        opened,
        opened_may_be_answered,
      )
      (refl, refl, refl)

-- Once `apply_answer` returned, no later calls, failing or not, change the recorded answer or who gave it.
pub answered_once :
    (now : ℕ) (option_id actor : String) (version : Option ℕ) (d : Decision)
    (calls : List (ℕ × DecisionCall))
    → (apply_answer now option_id actor version d).0 ≡ ok DecisionStatus.answered
    → ((ask_all calls (apply_answer now option_id actor version d).1).answer ≡ some option_id)
      × ((ask_all calls (apply_answer now option_id actor version d).1).answered_by ≡ some actor)
answered_once now k actor version d calls h =
    let (s, a, b) = answer_writes now k actor version d h in
    let (s', a', b', e') = settled-Keeps calls (apply_answer now k actor version d).1 s in
    (a' ∙ a, b' ∙ b)
