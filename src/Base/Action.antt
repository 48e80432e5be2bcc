-- ===== src/Base/Action.antt =====
-- Code that changes a state and may fail: what was done before an error stays done, so the state comes
-- back beside the error too.
use mathlib.Core.Path.{◌≡◌, refl}
use native.Mathlib.Omega.{arith}
use sealed_secrets.Base.Results.{Outcome, ok, err, panic}

abbrev pub Action {ℓ κ} : Type ℓ → Type κ → Type (ℓ ⊔ κ)
Action S A = S → Outcome A × S

module _ {ℓ κ} {S : Type ℓ} {A : Type κ} where
  abbrev pub lift : Outcome A → Action S A
  lift r s = (r, s)

  abbrev pub return : A → Action S A
  return a s = (ok a, s)

  -- The outcome as a value, where the code looks at the error itself.
  unfoldable pub attempt : Action S A → Action S (Outcome A)
  attempt m s = let (r, s') = m s in (ok r, s')

module _ {ℓ κ μ} {S : Type ℓ} {A : Type κ} {B : Type μ} where
  abbrev pub continue : (A → Action S B) → Outcome A × S → Outcome B × S
  continue f (ok a, s) = f a s
  continue f (err e, s) = (err e, s)
  continue f (panic, s) = (panic, s)

  infixl 5 ◌>>=◌
  abbrev pub ◌>>=◌ : Action S A → (A → Action S B) → Action S B
  ◌>>=◌ m f s = continue f (m s)

  -- Inversion of a successful bind.
  pub bind-eq-ok :
      (m : Action S A) (f : A → Action S B) (s : S) {b : B} {t : S}
      → (m >>= f) s ≡ (ok b, t)
      → (a : A) × (u : S) × (m s ≡ (ok a, u)) × (f a u ≡ (ok b, t))
  bind-eq-ok m f s h = bind_result (m s) h
    where
      bind_result :
          (r : Outcome A × S) {b : B} {t : S}
          → continue f r ≡ (ok b, t)
          → (a : A) × (u : S) × (r ≡ (ok a, u)) × (f a u ≡ (ok b, t))
      bind_result (ok a, u) h = (a, u, refl, h)
      bind_result (err e, u) h = ground arith
      bind_result (panic, u) h = ground arith

infixl 5 ◌>>◌
abbrev pub ◌>>◌ {ℓ κ} : {S : Type ℓ} {B : Type κ} → Action S (Unit {0}) → Action S B → Action S B
m >> k = m >>= λ _. k
