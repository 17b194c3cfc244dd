-- ===== src/Application/Commands/Accepted.antt =====
-- What a command that was accepted looks like.
use researchd_agent.Application.Commands.{
  FlagValue, Flags, ParsedCommand, CommandSpec, command_specs, spec_in, match_flag, set_flag,
  settle, Parsing, add_word, add_flag, take_match, consume, at_start, within, parse_named, tail_of,
  after_root, parse_command, flag_text, flag_true, unknown_name,
}
use researchd_agent.Prelude.{
  leb, leb→le, Bool-cases, ◌==◌, nat_eq, string_eq, length, contains, ok, ◌≤◌, String, ◌≡◌, refl,
  sym, subst, inl, inr, true, Option, none, some, List, [], ◌∷◌, All, ok-injective, raise-ne-ok,
  option_eq, require_some, bind-ok, require_some-ok,
}

-- each flag is one that the command allows
abbrev pub AllAllowed : List String → Flags → Type 0
AllAllowed allowed = All (λ f. contains f.0 allowed ≡ true)

abbrev MayWait : List String → Option String → Type 0
MayWait allowed none = Unit
MayWait allowed (some k) = contains k allowed ≡ true

set_flag-AllAllowed :
    (allowed : List String) (k : String) (v : FlagValue) (flags : Flags)
    → contains k allowed ≡ true
    → AllAllowed allowed flags
    → AllAllowed allowed (set_flag k v flags)
unfolding set_flag
set_flag-AllAllowed allowed k v [] h a = (h, tt)
set_flag-AllAllowed allowed k v ((j, w) ∷ rest) h a = elim (Bool-cases (j == k)) [
  | inl y ↦ rw y (h, a.1)
  | inr n ↦ rw n (a.0, set_flag-AllAllowed allowed k v rest h a.1)
]

settle-AllAllowed :
    (allowed : List String) (waiting : Option String) (flags : Flags)
    → MayWait allowed waiting
    → AllAllowed allowed flags
    → AllAllowed allowed (settle waiting flags)
settle-AllAllowed allowed none flags h a = a
settle-AllAllowed allowed (some k) flags h a = set_flag-AllAllowed allowed k flag_true flags h a

-- the flags read so far, and the one that waits
abbrev Lawful : List String → Parsing → Type 0
Lawful allowed s = MayWait allowed s.waiting × AllAllowed allowed s.read_flags

add_word-Lawful :
    (allowed : List String) (tok : String) (w : Option String) (s : Parsing)
    → s.waiting ≡ w
    → Lawful allowed s
    → Lawful allowed (add_word tok w s)
add_word-Lawful allowed tok none s e l = l
add_word-Lawful allowed tok (some k) s e l = (
  tt,
  set_flag-AllAllowed allowed k (flag_text tok) s.read_flags (subst (MayWait allowed) e l.0) l.1,
)

add_flag-Lawful :
    (allowed : List String) (flag : String) (v : Option String) (s : Parsing)
    → contains flag allowed ≡ true
    → Lawful allowed s
    → Lawful allowed (add_flag flag v s)
add_flag-Lawful allowed flag none s h l =
    (h, settle-AllAllowed allowed s.waiting s.read_flags l.0 l.1)
add_flag-Lawful allowed flag (some text) s h l = (
  tt,
  set_flag-AllAllowed allowed flag (flag_text text) (settle s.waiting s.read_flags) h
      (settle-AllAllowed allowed s.waiting s.read_flags l.0 l.1),
)

take_match-Lawful :
    (allowed : List String) (tok : String) (m : Option (String × Option String)) (s t : Parsing)
    → Lawful allowed s
    → take_match allowed tok m s ≡ ok t
    → Lawful allowed t
take_match-Lawful allowed tok none s t l h =
    subst (Lawful allowed) (ok-injective h) (add_word-Lawful allowed tok s.waiting s refl l)
take_match-Lawful allowed tok (some (flag, v)) s t l h = elim (Bool-cases (contains flag allowed)) [
  | inl y ↦ subst (Lawful allowed) (ok-injective (rw y at h)) (add_flag-Lawful allowed flag v s y l)
  | inr n ↦ absurd (raise-ne-ok (rw n at h))
]

consume-AllAllowed :
    (allowed tokens : List String) (s : Parsing) (parts : List String × Flags)
    → Lawful allowed s
    → consume allowed tokens s ≡ ok parts
    → AllAllowed allowed parts.1
unfolding consume
consume-AllAllowed allowed [] s parts l h =
    subst (λ p. AllAllowed allowed p.1) (ok-injective h)
      (settle-AllAllowed allowed s.waiting s.read_flags l.0 l.1)
consume-AllAllowed allowed (tok ∷ rest) s parts l h =
    let (t, ht, hr) = bind-ok (take_match allowed tok (match_flag tok) s) h in
    consume-AllAllowed allowed rest t parts
      (take_match-Lawful allowed tok (match_flag tok) s t l ht) hr

-- what the table says of a command
abbrev ByTable : ParsedCommand → Type 0
ByTable c =
    (spec : CommandSpec) × (spec_in c.name command_specs ≡ some spec)
    × (spec.lo ≤ length c.args)
    × (length c.args ≤ spec.hi)
    × All (λ f. contains f.0 spec.allowed ≡ true) c.flags

within-ok :
    (spec : CommandSpec) (parts : List String × Flags) (name : String) (c : ParsedCommand)
    → within spec parts name ≡ ok c
    → (spec.lo ≤ length parts.0)
      × (length parts.0 ≤ spec.hi)
      × (c ≡ record { name = name; args = parts.0; flags = parts.1 })
within-ok spec (args, flags) name c h = elim (Bool-cases (leb spec.lo (length args))) [
  | inr n ↦ absurd (raise-ne-ok (rw n at h))
  | inl y ↦ elim (Bool-cases (leb (length args) spec.hi)) [
    | inr n ↦ absurd (raise-ne-ok (rw (y, n) at h))
    | inl z ↦ (
      leb→le spec.lo (length args) y,
      leb→le (length args) spec.hi z,
      sym (ok-injective (rw (y, z) at h)),
    )
  ]
]

parse_named-ByTable :
    (name : String) (rest : List String) (c : ParsedCommand)
    → parse_named name rest ≡ ok c
    → ByTable c
unfolding parse_named
parse_named-ByTable name rest c h =
    let (spec, hs, h1) = bind-ok (require_some (spec_in name command_specs) unknown_name) h in
    let (parts, hp, h2) = bind-ok (consume spec.allowed rest at_start) h1 in
    let (low, high, same) = within-ok spec parts name c h2 in
    subst ByTable (sym same) (
      spec,
      require_some-ok (spec_in name command_specs) unknown_name hs,
      low,
      high,
      consume-AllAllowed spec.allowed rest at_start parts (tt, tt) hp,
    )

after_root-ByTable :
    (lower : String → String) (rest : List String) (c : ParsedCommand)
    → after_root lower rest ≡ ok c
    → ByTable c
after_root-ByTable lower [] c h = absurd (raise-ne-ok h)
after_root-ByTable lower (name ∷ rest) c h = parse_named-ByTable (lower name) rest c h

-- A command that was accepted is one of the table, has as many arguments as the table allows, and carries no
-- flag but those that the table allows it.
pub accepted_by_table :
    (lower : String → String) (tokens : List String) (c : ParsedCommand)
    → parse_command lower tokens ≡ ok c
    → (spec : CommandSpec) × (spec_in c.name command_specs ≡ some spec)
      × (spec.lo ≤ length c.args)
      × (length c.args ≤ spec.hi)
      × All (λ f. contains f.0 spec.allowed ≡ true) c.flags
unfolding parse_command
accepted_by_table lower [] c h = absurd (raise-ne-ok h)
accepted_by_table lower (root ∷ rest) c h =
    elim (Bool-cases (contains (lower root) ("/research" ∷ "/researchd" ∷ []))) [
      | inl y ↦ after_root-ByTable lower rest c (rw y at h)
      | inr n ↦
          elim (Bool-cases
            (contains (lower root) ("/decision" ∷ "/explain" ∷ "/task" ∷ "/claim" ∷ []))) [
              | inl y ↦ parse_named-ByTable (tail_of (lower root)) rest c (rw (n, y) at h)
              | inr m ↦ absurd (raise-ne-ok (rw (n, m) at h))
            ]
    ]
