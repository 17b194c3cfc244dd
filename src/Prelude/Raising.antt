-- ===== src/Prelude/Raising.antt =====
-- Raised exceptions as values. A method that mutates its object before it raises returns the
-- object beside the error too.
use mathlib.Core.Path.{◌≡◌, refl}
use mathlib.Core.Logic.{◌≢◌}
use mathlib.Core.Bool.{Bool, true, false}
use mathlib.Core.Option.{Option, none, some}

pub data Result {ℓ} (E A : Type ℓ) : Type ℓ where
  ok : A → Result E A
  raise : E → Result E A

abbrev pub Method {ℓ} : Type ℓ → Type ℓ → Type ℓ → Type ℓ
Method E S A = S → Result E A × S

infixl 10 ◌>>=◌ ◌>>◌
abbrev pub ◌>>=◌ {ℓ} : {E A B : Type ℓ} → Result E A → (A → Result E B) → Result E B
ok a >>= f = f a
raise c >>= f = raise c

abbrev pub ◌>>◌ {ℓ} : {E A B : Type ℓ} → Result E A → Result E B → Result E B
m >> k = m >>= λ _. k

pub ok-injective {ℓ} : {E A : Type ℓ} {a b : A} → ◌≡◌ {A = Result E A} (ok a) (ok b) → a ≡ b
ok-injective h = cc

pub raise-ne-ok {ℓ} : {E A : Type ℓ} {e : E} {a : A} → ◌≢◌ {A = Result E A} (raise e) (ok a)
raise-ne-ok h = cc

-- `if not b: raise e`
abbrev pub require {ℓ} : {E : Type ℓ} {A : Type ℓ} → Bool → E → Result E A → Result E A
require true e rest = rest
require false e rest = raise e

-- `if x is None: raise e`
abbrev pub require_some {ℓ} : {E A : Type ℓ} → Option A → E → Result E A
require_some none e = raise e
require_some (some a) e = ok a

pub require-ok {ℓ} :
    {E A : Type ℓ} {rest : Result E A} {a : A} (b : Bool) (e : E)
    → require b e rest ≡ ok a
    → (b ≡ true) × (rest ≡ ok a)
require-ok true e h = (refl, h)
require-ok false e h = cc

pub bind-ok {ℓ} :
    {E A B : Type ℓ} {f : A → Result E B} {b : B} (m : Result E A)
    → (m >>= f) ≡ ok b
    → (a : A) × (m ≡ ok a) × (f a ≡ ok b)
bind-ok (ok a) h = (a, refl, h)
bind-ok (raise e) h = cc

pub require_some-ok {ℓ} :
    {E A : Type ℓ} {a : A} (o : Option A) (e : E) → require_some o e ≡ ok a → o ≡ some a
require_some-ok none e h = cc
require_some-ok (some x) e h = cc
