-- ===== src/Application/Commands.antt =====
-- `parse_command` of src/researchd/application/commands.py. The parameter `lower` is `str.lower`; the tokens are
-- what `text.strip().split()` gives.
pub mod Accepted
use Prim.Native.Char.{code}
use Prim.Native.String.{◌++◌ as str_append}
use researchd_agent.Prelude.{
  leb, if◌then◌else◌, ◌==◌, nat_eq, string_eq, length, contains, Result, ok, raise, ◌>>=◌, ◌>>◌, ℕ,
  String, Bool, true, false, not, ◌&&◌, ◌||◌, Option, none, some, List, [], ◌∷◌, ◌++◌, option_eq,
  require_some,
}

-- the value of a flag: a text, or `True`
pub data FlagValue : Type 0 where
  flag_text : String → FlagValue
  flag_true : FlagValue

abbrev pub Flags : Type 0
Flags = List (String × FlagValue)

pub record ParsedCommand : Type 0 where
  pub name : String
  pub args : List String
  pub flags : Flags

pub data UnknownCommand : Type 0 where
  no_command unknown_name : UnknownCommand
  unknown_flag : String → UnknownCommand
  wrong_arity : (lo hi got : ℕ) → UnknownCommand

pub record CommandSpec : Type 0 where
  pub lo : ℕ
  pub hi : ℕ
  pub allowed : List String

abbrev plain : ℕ → ℕ → CommandSpec
plain lo hi = record { lo = lo; hi = hi; allowed = [] }

unfoldable pub command_specs : List (String × CommandSpec)
command_specs =
    ("bind", plain 1 2)
    ∷ ("status", plain 0 0)
    ∷ ("pause", plain 0 0)
    ∷ ("resume", plain 0 0)
    ∷ ("digest", plain 0 0)
    ∷ ("sync", plain 0 0)
    ∷ ("model", plain 0 2)
    ∷ ("config", plain 1 3)
    ∷ ("decision", record { lo = 2; hi = 2; allowed = "--version" ∷ [] })
    ∷ ("explain", plain 1 1)
    ∷ ("task", plain 1 1)
    ∷ ("claim", plain 1 1)
    ∷ []

unfoldable pub spec_in : String → List (String × CommandSpec) → Option CommandSpec
spec_in name [] = none
spec_in name ((n, spec) ∷ rest) =
    let others = spec_in name rest in if n == name then some spec else others

abbrev between : ℕ → ℕ → ℕ → Bool
between lo hi c = leb lo c && leb c hi

-- `[a-z-]` where case is ignored, which takes in four letters beyond ASCII
abbrev is_flag_char : ℕ → Bool
is_flag_char c =
    between 97 122 c || between 65 90 c || c == 45 || c == 304 || c == 305 || c == 383 || c == 8490

abbrev map_option {ℓ} : {A B : Type ℓ} → (A → B) → Option A → Option B
map_option f none = none
map_option f (some a) = some (f a)

-- the flag's characters after the dashes, and the value after "="
unfoldable pub match_name : Bool → String → Option (String × Option String)
match_name some_read String.[] = if some_read then some ("", none) else none
match_name some_read (String.◌∷◌ c s) =
    let rest = match_name true s in
    if is_flag_char (code c)
    then map_option (λ m. (String.◌∷◌ c m.0, m.1)) rest
    else if code c == b'=' && some_read
    then some ("", some s)
    else none

-- `FLAG_RE.match`
unfoldable pub match_flag : String → Option (String × Option String)
unfolding match_name
match_flag (String.◌∷◌ c (String.◌∷◌ d s)) =
    if code c == b'-' && code d == b'-'
    then map_option (λ m. (str_append "--" m.0, m.1)) (match_name false s)
    else none
match_flag _ = none

-- `flags[flag] = value`
unfoldable pub set_flag : String → FlagValue → Flags → Flags
set_flag k v [] = (k, v) ∷ []
set_flag k v ((j, w) ∷ rest) = if j == k then (k, v) ∷ rest else (j, w) ∷ set_flag k v rest

-- a flag that waits for its value meets a flag or the end
abbrev pub settle : Option String → Flags → Flags
settle none flags = flags
settle (some k) flags = set_flag k flag_true flags

-- The loop's variables. `waiting` is the flag of the token before, which takes a token that is no flag as its value.
pub record Parsing : Type 0 where
  pub waiting : Option String
  pub words : List String
  pub read_flags : Flags

abbrev pub add_word : String → Option String → Parsing → Parsing
add_word tok none s = record s { words = s.words ++ tok ∷ [] }
add_word tok (some k) s = record s {
  waiting = none;
  read_flags = set_flag k (flag_text tok) s.read_flags;
}

abbrev pub add_flag : String → Option String → Parsing → Parsing
add_flag flag none s = record s { waiting = some flag; read_flags = settle s.waiting s.read_flags }
add_flag flag (some text) s = record s {
  waiting = none;
  read_flags = set_flag flag (flag_text text) (settle s.waiting s.read_flags);
}

abbrev pub take_match :
    List String → String → Option (String × Option String) → Parsing → Result UnknownCommand Parsing
take_match allowed tok none s = ok (add_word tok s.waiting s)
take_match allowed tok (some (flag, v)) s =
    if not (contains flag allowed) then raise (unknown_flag flag) else ok (add_flag flag v s)

unfoldable pub consume :
    List String → List String → Parsing → Result UnknownCommand (List String × Flags)
unfolding match_flag set_flag
consume allowed [] s = ok (s.words, settle s.waiting s.read_flags)
consume allowed (tok ∷ rest) s = take_match allowed tok (match_flag tok) s >>= consume allowed rest

abbrev pub at_start : Parsing
at_start = record { waiting = none; words = []; read_flags = [] }

abbrev pub within : CommandSpec → List String × Flags → String → Result UnknownCommand ParsedCommand
within spec (args, flags) name =
    if leb spec.lo (length args) && leb (length args) spec.hi
    then ok (record { name = name; args = args; flags = flags })
    else raise (wrong_arity spec.lo spec.hi (length args))

-- once the root is known: the name, and the tokens after it
unfoldable pub parse_named : String → List String → Result UnknownCommand ParsedCommand
unfolding spec_in command_specs consume
parse_named name rest = do
  spec ← require_some (spec_in name command_specs) unknown_name
  parts ← consume spec.allowed rest at_start
  within spec parts name

abbrev pub tail_of : String → String
tail_of String.[] = ""
tail_of (String.◌∷◌ c s) = s

module _ (lower : String → String) where
  abbrev pub after_root : List String → Result UnknownCommand ParsedCommand
  after_root [] = raise no_command
  after_root (name ∷ rest) = parse_named (lower name) rest

  unfoldable pub parse_command : List String → Result UnknownCommand ParsedCommand
  unfolding parse_named
  parse_command [] = raise no_command
  parse_command (root ∷ rest) =
      if contains (lower root) ("/research" ∷ "/researchd" ∷ [])
      then after_root rest
      else if contains (lower root) ("/decision" ∷ "/explain" ∷ "/task" ∷ "/claim" ∷ [])
      then parse_named (tail_of (lower root)) rest
      else raise no_command
