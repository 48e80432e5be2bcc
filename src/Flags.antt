-- ===== src/Flags.antt =====
-- SetFlagsFromEnv of pkg/flagenv/flagenv.go and, word for word the same, of pkg/pflagenv/flagenv.go. Flags write to
-- variables, which two flags may share.
pub mod Names
pub mod Precedence
use sealed_secrets.Base.{
  ℕ, ◌-◌, String, Bool, true, false, ◌&&◌, not, List, [], ◌∷◌, ◌++◌, map, Option, none, some, Bytes,
  bytes_of, any, eqb, ltb, ◌==◌, if◌then◌else◌,
}

-- A flag, with the variable that its Value writes to.
pub record Flag : Type 0 where
  pub name : String
  pub variable : String

-- A FlagSet: the names that Visit goes through, and the flags of VisitAll.
pub record FlagSet : Type 0 where
  pub actual : List String
  pub formal : List Flag

-- strings.TrimSuffix(prefix, "_")
unfoldable pub clean_prefix : Bytes → Bytes
clean_prefix [] = []
clean_prefix (b ∷ []) = if eqb b b'_' then [] else b ∷ []
clean_prefix (b ∷ c ∷ bs) = b ∷ clean_prefix (c ∷ bs)

-- strings.ToUpper and the replacement of a dash, for a byte of an ASCII text.
abbrev pub upper : ℕ → ℕ
upper b = if eqb b b'-' then b'_' else if not (ltb b b'a') && not (ltb b'z' b) then b - 32 else b

-- The name of the environment variable
unfoldable pub env_name : String → String → Bytes
unfolding clean_prefix bytes_of
env_name prefix name = clean_prefix (bytes_of prefix) ++ (b'_' ∷ map upper (bytes_of name))

-- What the variables hold, os.LookupEnv, and Value.Set, whose error is dropped.
pub record Environment : Type 1 where
  pub Value : Type 0
  pub lookup_env : Bytes → Option String
  pub set : Flag → String → Value → Value

module _ (env : Environment) where
  abbrev pub Variables : Type 0
  Variables = String → env.Value

  abbrev pub assign : String → env.Value → Variables → Variables
  assign x v vars y = if x == y then v else vars y

  -- set[f.Name]
  abbrev pub is_set : FlagSet → Flag → Bool
  is_set fs f = any (λ name. name == f.name) fs.actual

  abbrev pub looked_up : Flag → Option String → env.Value → env.Value
  looked_up f none v = v
  looked_up f (some e) v = env.set f e v

  -- The value of a flag after its turn.
  unfoldable pub from_env : String → FlagSet → Flag → env.Value → env.Value
  unfolding env_name
  from_env prefix fs f v =
      if is_set fs f then v else looked_up f (env.lookup_env (env_name prefix f.name)) v

  -- The loop of VisitAll
  unfoldable pub visit_all : String → FlagSet → List Flag → Variables → Variables
  unfolding from_env
  visit_all prefix fs [] vars = vars
  visit_all prefix fs (f ∷ flags) vars =
      visit_all prefix fs flags (assign f.variable (from_env prefix fs f (vars f.variable)) vars)

  -- SetFlagsFromEnv
  unfoldable pub set_flags_from_env : String → FlagSet → Variables → Variables
  unfolding visit_all
  set_flags_from_env prefix fs vars = visit_all prefix fs fs.formal vars
