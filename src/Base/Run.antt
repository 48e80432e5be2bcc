-- ===== src/Base/Run.antt =====
-- A run of a loop on fuel that may fail: no result says that the fuel is spent.
use mathlib.Core.Option.{Option, none, some}
use mathlib.Core.Path.{◌≡◌, refl}
use sealed_secrets.Base.Results.{Outcome, ok, err, panic}

abbrev pub Run {ℓ} : Type ℓ → Type ℓ
Run A = Option (Outcome A)

abbrev pub pure {ℓ} : {A : Type ℓ} → Outcome A → Run A
pure r = some r

infixl 5 ◌>>=◌
abbrev pub ◌>>=◌ {ℓ κ} : {A : Type ℓ} {B : Type κ} → Run A → (A → Run B) → Run B
none >>= f = none
some (ok a) >>= f = f a
some (err e) >>= f = some (err e)
some panic >>= f = some panic

pub run-injective {ℓ} : {A : Type ℓ} {a b : A} → some a ≡ some b → a ≡ b
run-injective h = cc

-- Both parts of a run that succeeds have succeeded.
pub run-eq-ok {ℓ κ} :
    {A : Type ℓ} {B : Type κ} (m : Run A) (f : A → Run B) {b : B}
    → (m >>= f) ≡ some (ok b)
    → (a : A) × (m ≡ some (ok a)) × (f a ≡ some (ok b))
run-eq-ok none f h = cc
run-eq-ok (some (ok a)) f h = (a, refl, h)
run-eq-ok (some (err e)) f h = cc
run-eq-ok (some panic) f h = cc
