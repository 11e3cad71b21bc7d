-- ===== src/Common/Errors.antt =====
-- errors/errors.go: the sentinel errors, and Go's chains of wrapped errors. The text of a message
-- is kept without the values that are formatted into it.
use Prim.Native.String.{String}
use mathlib.Core.Path.{◌≡◌, refl}
use mathlib.Core.Logic.{ite}
use mathlib.Core.Bool.{Bool, true, false}

pub data Sentinel : Type 0 where
  not_primary : Sentinel
  pipeline_not_set : Sentinel
  entry_exists : Sentinel
  entry_not_found : Sentinel
  unsupported_match_kind : Sentinel
  target_unsupported : Sentinel
  stream_closed : Sentinel
  arbitration_failed : Sentinel
  election_id_zero : Sentinel
  invalid_bit_width : Sentinel
  invalid_match_field : Sentinel
  invalid_action_param : Sentinel

unfoldable pub Sentinel-discrete : Discrete Sentinel
Sentinel-discrete = hlevel

-- `sentinel s` is the variable itself, `plain` an error with a text alone, and `wrap` what
-- `fmt.Errorf("…: %w", err)` returns.
pub data Error : Type 0 where
  sentinel : Sentinel → Error
  plain : String → Error
  wrap : String → Error → Error

-- `errors.Is(err, target)` for a sentinel: some error of the chain is the target.
unfoldable pub is : Error → Sentinel → Bool
is (sentinel s) t = ite (Sentinel-discrete s t) true false
is (plain m) t = false
is (wrap m e) t = is e t

pub data Result {ℓ} (A : Type ℓ) : Type ℓ where
  ok : A → Result A
  err : Error → Result A

infixl 5 ◌>>=◌ ◌>>◌
abbrev pub ◌>>=◌ {ℓ κ} : {A : Type ℓ} {B : Type κ} → Result A → (A → Result B) → Result B
ok a >>= f = f a
err e >>= f = err e

abbrev pub ◌>>◌ {ℓ κ} : {A : Type ℓ} {B : Type κ} → Result A → Result B → Result B
m >> k = m >>= λ _. k

-- `if err != nil { return fmt.Errorf("…: %w", err) }`
abbrev pub wrapping {ℓ} : {A : Type ℓ} → String → Result A → Result A
wrapping m (ok a) = ok a
wrapping m (err e) = err (wrap m e)

-- A result that is an error, whichever.
abbrev pub IsErr {ℓ} : {A : Type ℓ} → Result A → Type 0
IsErr (ok a) = ⊥
IsErr (err e) = Unit

-- A failure by which `errors.Is` finds the sentinel.
abbrev pub FailsBy {ℓ} : {A : Type ℓ} → Sentinel → Result A → Type 0
FailsBy s (ok a) = ⊥
FailsBy s (err e) = is e s ≡ true

pub ok-injective {ℓ} : {A : Type ℓ} {a b : A} → ok a ≡ ok b → a ≡ b
ok-injective h = cc

pub err-ne-ok {ℓ} : {A : Type ℓ} {e : Error} {a : A} → ¬ (err e ≡ ok a)
err-ne-ok h = cc

-- The parts of a chain that succeeds.
pub bind-ok {ℓ κ} :
    {A : Type ℓ} {B : Type κ} (x : Result A) (f : A → Result B) (b : B)
    → (x >>= f) ≡ ok b
    → (a : A) × (x ≡ ok a) × (f a ≡ ok b)
bind-ok (ok a) f b h = (a, refl, h)
bind-ok (err e) f b h = cc

pub then-ok {ℓ κ} :
    {A : Type ℓ} {B : Type κ} (x : Result A) (y : Result B) (b : B)
    → (x >> y) ≡ ok b
    → ((a : A) × (x ≡ ok a)) × (y ≡ ok b)
then-ok (ok a) y b h = ((a, refl), h)
then-ok (err e) y b h = cc

pub wrapping-ok {ℓ} :
    {A : Type ℓ} (m : String) (x : Result A) (a : A) → wrapping m x ≡ ok a → x ≡ ok a
wrapping-ok m (ok b) a h = h
wrapping-ok m (err e) a h = cc
