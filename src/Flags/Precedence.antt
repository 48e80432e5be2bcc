-- ===== src/Flags/Precedence.antt =====
-- Which flags the environment sets, and under which names.
use sealed_secrets.Base.{
  ◌≡◌, ◌≢◌, refl, sym, ap, ◌∙◌, String, true, false, List, [], ◌∷◌, any, none, some, Bytes, ◌==◌,
  eq_iff, eq_refl, subst, Bool-cases, Option-cases, inl, inr, AnyOf,
}
use sealed_secrets.Flags.{
  Flag, FlagSet, Environment, Variables, is_set, env_name, from_env, visit_all, set_flags_from_env,
}
use sealed_secrets.Flags.Names.{IsEnvName, env_name-IsEnvName}

-- No flag of the list writes to the variable.
abbrev pub IsFree : String → List Flag → Type 0
IsFree x [] = Unit
IsFree x (f ∷ flags) = (f.variable ≢ x) × IsFree x flags

-- Each flag writes to a variable of its own.
abbrev pub AreApart : List Flag → Type 0
AreApart [] = Unit
AreApart (f ∷ flags) = IsFree f.variable flags × AreApart flags

==-false : (a b : String) → a ≢ b → (a == b) ≡ false
==-false a b other = elim (Bool-cases (a == b)) [
  | inl same ↦ absurd (other ((eq_iff a b).0 same))
  | inr h ↦ h
]

IsFree-AnyOf :
    (x : String) (f : Flag) (flags : List Flag)
    → IsFree x flags
    → AnyOf (λ g. g ≡ f) flags
    → f.variable ≢ x
IsFree-AnyOf x f [] free h = elim h [ ]
IsFree-AnyOf x f (g ∷ flags) (other, free) (inl same) =
    subst (λ (k : Flag). k.variable ≢ x) same other
IsFree-AnyOf x f (g ∷ flags) (other, free) (inr later) = IsFree-AnyOf x f flags free later

any-AnyOf :
    (name : String) (names : List String)
    → any (λ n. n == name) names ≡ true
    → AnyOf (λ n. n ≡ name) names
any-AnyOf name [] h = cc h
any-AnyOf name (n ∷ names) h = elim (Bool-cases (n == name)) [
  | inl same ↦ inl ((eq_iff n name).0 same)
  | inr other ↦ inr (any-AnyOf name names (rw other at h))
]

any-not-AnyOf :
    (name : String) (names : List String)
    → any (λ n. n == name) names ≡ false
    → ¬ AnyOf (λ n. n ≡ name) names
any-not-AnyOf name [] h is_in = elim is_in [ ]
any-not-AnyOf name (n ∷ names) h is_in = elim (Bool-cases (n == name)) [
  | inl same ↦ cc (rw same at h)
  | inr other ↦ elim is_in [
    | inl found ↦ cc (other, (eq_iff n name).1 found)
    | inr later ↦ any-not-AnyOf name names (rw other at h) later
  ]
]

module _ (env : Environment) (prefix : String) (fs : FlagSet) where
  visit_all-IsFree :
      (x : String) (flags : List Flag) (vars : Variables env)
      → IsFree x flags
      → visit_all env prefix fs flags vars x ≡ vars x
  unfolding visit_all
  visit_all-IsFree x [] vars h = refl
  visit_all-IsFree x (f ∷ flags) vars (other, h) =
      visit_all-IsFree x flags _ h ∙ rw (==-false f.variable x other) refl

  visit_all-AreApart :
      (f : Flag) (flags : List Flag) (vars : Variables env)
      → AreApart flags
      → AnyOf (λ g. g ≡ f) flags
      → visit_all env prefix fs flags vars f.variable ≡ from_env env prefix fs f (vars f.variable)
  unfolding visit_all
  visit_all-AreApart f (g ∷ flags) vars (free, apart) (inl same) =
      subst
        (λ (k : Flag).
          visit_all env prefix fs (g ∷ flags) vars k.variable
          ≡ from_env env prefix fs k (vars k.variable))
        same (visit_all-IsFree g.variable flags _ free ∙ rw (eq_refl g.variable) refl)
  visit_all-AreApart f (g ∷ flags) vars (free, apart) (inr later) =
      visit_all-AreApart f flags _ apart later
      ∙ ap (from_env env prefix fs f) (
          rw
            (==-false g.variable f.variable
              (λ e. IsFree-AnyOf g.variable f flags free later (sym e)))
            refl)
  visit_all-AreApart f [] vars apart h = elim h [ ]

  -- The variable of a flag before and after: a flag that was set explicitly keeps its value, and another one
  -- goes through its Set with what the environment has under the flag's name, if it has something.
  pub data IsPrecedent (f : Flag) (before after : env.Value) : Type 0 where
    explicit : AnyOf (λ n. n ≡ f.name) fs.actual → after ≡ before → IsPrecedent f before after
    from_environment :
        (key : Bytes) (text : String)
        → ¬ AnyOf (λ n. n ≡ f.name) fs.actual
        → IsEnvName prefix f.name key
        → env.lookup_env key ≡ some text
        → after ≡ env.set f text before
        → IsPrecedent f before after
    default :
        (key : Bytes)
        → ¬ AnyOf (λ n. n ≡ f.name) fs.actual
        → IsEnvName prefix f.name key
        → env.lookup_env key ≡ none
        → after ≡ before
        → IsPrecedent f before after

  from_env-IsPrecedent : (f : Flag) (v : env.Value) → IsPrecedent f v (from_env env prefix fs f v)
  unfolding from_env
  from_env-IsPrecedent f v = elim (Bool-cases (is_set env fs f)) [
    | inl set ↦ rw set (explicit (any-AnyOf f.name fs.actual set) refl)
    | inr unset ↦ elim (Option-cases (env.lookup_env (env_name prefix f.name))) [
      | inl nothing ↦
          rw (unset, nothing)
            (default (env_name prefix f.name) (any-not-AnyOf f.name fs.actual unset)
              (env_name-IsEnvName prefix f.name) nothing refl)
      | inr (text, found) ↦
          rw (unset, found)
            (from_environment (env_name prefix f.name) text (any-not-AnyOf f.name fs.actual unset)
              (env_name-IsEnvName prefix f.name) found refl)
    ]
  ]

  -- If the flags of a set write to variables of their own, then after SetFlagsFromEnv the variable of a
  -- flag that was set explicitly is what it was, that of another flag has gone through its Set with the
  -- value that the environment has under the prefix without a trailing underscore and the flag's name
  -- in upper case with underscores, if there is one, and is otherwise what it was, and a variable that
  -- is no flag's is what it was.
  pub set_flags_from_env_lem :
      (f : Flag) (x : String) (vars : Variables env)
      → AreApart fs.formal
      → AnyOf (λ g. g ≡ f) fs.formal
      → IsFree x fs.formal
      → IsPrecedent f (vars f.variable) (set_flags_from_env env prefix fs vars f.variable)
        × (set_flags_from_env env prefix fs vars x ≡ vars x)
  unfolding set_flags_from_env
  set_flags_from_env_lem f x vars apart is_in is_free = (
    subst (IsPrecedent f (vars f.variable)) (sym (visit_all-AreApart f fs.formal vars apart is_in))
        (from_env-IsPrecedent f (vars f.variable)),
    visit_all-IsFree x fs.formal vars is_free,
  )
