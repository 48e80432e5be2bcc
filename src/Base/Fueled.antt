-- ===== src/Base/Fueled.antt =====
-- Actions that may run out of fuel: no result says that the fuel is spent.
use mathlib.Core.Option.{Option, none, some}
use sealed_secrets.Base.Results.{Outcome, ok, err, panic}
use sealed_secrets.Base.Action.{Action}

abbrev pub Fueled {ℓ κ} : Type ℓ → Type κ → Type (ℓ ⊔ κ)
Fueled S A = S → Option (Outcome A × S)

abbrev pub total {ℓ κ} : {S : Type ℓ} {A : Type κ} → Action S A → Fueled S A
total m s = some (m s)

abbrev pub continue {ℓ κ μ} :
    {S : Type ℓ} {A : Type κ} {B : Type μ}
    → (A → Fueled S B)
    → Option (Outcome A × S)
    → Option (Outcome B × S)
continue f none = none
continue f (some (ok a, s)) = f a s
continue f (some (err e, s)) = some (err e, s)
continue f (some (panic, s)) = some (panic, s)

infixl 5 ◌>>=◌
abbrev pub ◌>>=◌ {ℓ κ μ} :
    {S : Type ℓ} {A : Type κ} {B : Type μ} → Fueled S A → (A → Fueled S B) → Fueled S B
◌>>=◌ m f s = continue f (m s)
