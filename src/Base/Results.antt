-- ===== src/Base/Results.antt =====
-- What a Go function with an error result can do: return a value, return an error, or panic.
use Prim.Native.String.{String}
use mathlib.Core.Path.{◌≡◌, refl}
use mathlib.Core.Logic.{◌⊎◌, inl, inr}
use mathlib.Core.Bool.{Bool, true, false}

-- `not_found` is an error for which `errors.IsNotFound` holds; `external` is any other error of a
-- callee outside the repository, by its text; the rest are the repository's own.
pub data Error : Type 0 where
  not_found : String → Error
  external : String → Error
  own : String → Error

-- err.Error()
abbrev pub message : Error → String
message (not_found s) = s
message (external s) = s
message (own s) = s

abbrev pub is_not_found : Error → Bool
is_not_found (not_found s) = true
is_not_found _ = false

pub data Outcome {ℓ} (A : Type ℓ) : Type ℓ where
  ok : A → Outcome A
  err : Error → Outcome A
  panic : Outcome A

-- r, err := first; if err != nil { return err }; second
infixl 5 ◌>>=◌ ◌>>◌
abbrev pub ◌>>=◌ {ℓ κ} : {X : Type ℓ} {Y : Type κ} → Outcome X → (X → Outcome Y) → Outcome Y
panic >>= second = panic
err failure >>= second = err failure
ok x >>= second = second x

abbrev pub ◌>>◌ {κ} : {Y : Type κ} → Outcome (Unit {0}) → Outcome Y → Outcome Y
first >> second = first >>= λ done. second

abbrev pub map_ok {ℓ κ} : {X : Type ℓ} {Y : Type κ} → (X → Y) → Outcome X → Outcome Y
map_ok g first = first >>= λ x. ok (g x)

-- if !passed { return failure }
abbrev pub guard : Bool → Error → Outcome (Unit {0})
guard false failure = err failure
guard true failure = ok tt

abbrev pub is_ok {ℓ} : {X : Type ℓ} → Outcome X → Bool
is_ok (ok x) = true
is_ok _ = false

-- Both parts of a chain that succeeds have succeeded.
pub >>=-eq-ok {ℓ κ} :
    {X : Type ℓ} {Y : Type κ} (first : Outcome X) (second : X → Outcome Y) {y : Y}
    → (first >>= second) ≡ ok y
    → (x : X) × (first ≡ ok x) × (second x ≡ ok y)
>>=-eq-ok panic second broken = cc
>>=-eq-ok (err failure) second broken = cc
>>=-eq-ok (ok x) second succeeded = (x, refl, succeeded)

pub ok-injective {ℓ} : {A : Type ℓ} {a b : A} → ok a ≡ ok b → a ≡ b
ok-injective h = cc

pub Outcome-cases {ℓ} :
    {A : Type ℓ} (m : Outcome A)
    → ((a : A) × (m ≡ ok a)) ⊎ ((e : Error) × (m ≡ err e)) ⊎ (m ≡ panic)
Outcome-cases (ok a) = inl (a, refl)
Outcome-cases (err e) = inr (inl (e, refl))
Outcome-cases panic = inr (inr refl)
