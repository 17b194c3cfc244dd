-- ===== src/Prelude/Text.antt =====
-- What the program asks of texts: whether one is empty, and whether `strip()` leaves nothing.
use Prim.Native.Nat.{ℕ}
use Prim.Native.Char.{code}
use Prim.Native.String.{String}
use mathlib.Core.Bool.{Bool, true, false, ◌&&◌, ◌||◌}
use mathlib.Core.Option.{Option, none, some}
use mathlib.Core.Path.{◌≡◌, refl}
use researchd_agent.Prelude.Tests.{leb, ◌==◌, nat_eq}

-- `str.isspace` of one code point
abbrev pub is_space : ℕ → Bool
is_space c =
    leb 9 c && leb c 13
    || leb 28 c && leb c 32
    || c == 133
    || c == 160
    || c == 5760
    || leb 8192 c && leb c 8202
    || c == 8232
    || c == 8233
    || c == 8239
    || c == 8287
    || c == 12288

-- `not s.strip()`
unfoldable pub is_blank : String → Bool
is_blank String.[] = true
is_blank (String.◌∷◌ c s) = is_space (code c) && is_blank s

-- `bool(s)`
abbrev pub truthy : String → Bool
truthy String.[] = false
truthy (String.◌∷◌ c s) = true

-- `bool(s)` where `s` may be `None`
abbrev pub given : Option String → Bool
given none = false
given (some s) = truthy s

blank_spaces : is_blank " \t" ≡ true
unfolding is_blank
blank_spaces = refl
