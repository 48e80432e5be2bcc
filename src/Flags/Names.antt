-- ===== src/Flags/Names.antt =====
-- The name of the environment variable of a flag, described without the code that makes it.
use sealed_secrets.Base.{
  ℕ, ◌+◌, ◌≤◌, ◌<◌, ◌≡◌, ◌≢◌, ◌⊎◌, refl, ap, String, false, not, ◌&&◌, [], ◌∷◌, ◌++◌, map, eqb, ltb,
  arith, Bytes, bytes_of, Bool-cases, inl, inr,
}
use sealed_secrets.Flags.{clean_prefix, upper, env_name}

-- A prefix without a trailing underscore, of which at most one is removed.
pub data IsTrimmed (prefix out : Bytes) : Type 0 where
  trimmed : prefix ≡ out ++ (95 ∷ []) → IsTrimmed prefix out
  untrimmed : out ≡ prefix → ((l : Bytes) → prefix ≢ l ++ (95 ∷ [])) → IsTrimmed prefix out

-- A byte of a flag's name and of the variable: a dash becomes an underscore, a lower-case letter the upper-case
-- one, 32 below it, and every other byte stays.
pub data IsEnvByte (b out : ℕ) : Type 0 where
  dash : b ≡ 45 → out ≡ 95 → IsEnvByte b out
  letter : 97 ≤ b → b ≤ 122 → out + 32 ≡ b → IsEnvByte b out
  another : b ≢ 45 → (b < 97) ⊎ (122 < b) → out ≡ b → IsEnvByte b out

abbrev pub IsEnvText : Bytes → Bytes → Type 0
IsEnvText [] [] = Unit
IsEnvText [] (c ∷ cs) = ⊥
IsEnvText (b ∷ bs) [] = ⊥
IsEnvText (b ∷ bs) (c ∷ cs) = IsEnvByte b c × IsEnvText bs cs

-- The name of an environment variable for a prefix and the name of a flag.
pub record IsEnvName (prefix name : String) (key : Bytes) : Type 0 where
  pub start : Bytes
  pub rest : Bytes
  pub joined : key ≡ start ++ (95 ∷ rest)
  pub of_prefix : IsTrimmed (bytes_of prefix) start
  pub of_name : IsEnvText (bytes_of name) rest

cons-injective : (a b : ℕ) (l m : Bytes) → ◌≡◌ {A = Bytes} (a ∷ l) (b ∷ m) → l ≡ m
cons-injective a b l m e = cc

head-injective : (a b : ℕ) (l m : Bytes) → ◌≡◌ {A = Bytes} (a ∷ l) (b ∷ m) → a ≡ b
head-injective a b l m e = cc

no_end : (l : Bytes) → [] ≢ l ++ (95 ∷ [])
no_end [] e = cc
no_end (a ∷ l) e = cc

one-untrimmed : (b : ℕ) → eqb b 95 ≡ false → (l : Bytes) → (b ∷ []) ≢ l ++ (95 ∷ [])
one-untrimmed b other [] e =
    let same = head-injective b 95 [] [] e in absurd (ground (arith, same, other))
one-untrimmed b other (a ∷ l) e = no_end l (cons-injective b a [] (l ++ (95 ∷ [])) e)

more-untrimmed :
    (b c : ℕ) (bs : Bytes)
    → ((l : Bytes) → (c ∷ bs) ≢ l ++ (95 ∷ []))
    → (l : Bytes) → (b ∷ c ∷ bs) ≢ l ++ (95 ∷ [])
more-untrimmed b c bs none_such [] e = absurd (cc (cons-injective b 95 (c ∷ bs) [] e))
more-untrimmed b c bs none_such (a ∷ l) e =
    none_such l (cons-injective b a (c ∷ bs) (l ++ (95 ∷ [])) e)

clean_prefix-IsTrimmed : (prefix : Bytes) → IsTrimmed prefix (clean_prefix prefix)
unfolding clean_prefix
clean_prefix-IsTrimmed [] = untrimmed refl no_end
clean_prefix-IsTrimmed (b ∷ []) = elim (Bool-cases (eqb b 95)) [
  | inl same ↦ rw same (trimmed (ap (λ x. x ∷ []) (ground arith)))
  | inr other ↦ rw other (untrimmed refl (one-untrimmed b other))
]
clean_prefix-IsTrimmed (b ∷ c ∷ bs) = elim (clean_prefix-IsTrimmed (c ∷ bs)) [
  | trimmed e ↦ trimmed (ap (λ l. b ∷ l) e)
  | untrimmed e none_such ↦ untrimmed (ap (λ l. b ∷ l) e) (more-untrimmed b c bs none_such)
]

upper-IsEnvByte : (b : ℕ) → IsEnvByte b (upper b)
upper-IsEnvByte b = elim (Bool-cases (eqb b 45)) [
  | inl same ↦ rw same (dash (ground arith) refl)
  | inr other ↦ elim (Bool-cases (not (ltb b 97) && not (ltb 122 b))) [
    | inl small ↦ rw (other, small) (letter (ground arith) (ground arith) (ground arith))
    | inr large ↦ rw (other, large) (another (ground arith) (ground arith) refl)
  ]
]

upper-IsEnvText : (bs : Bytes) → IsEnvText bs (map upper bs)
upper-IsEnvText [] = tt
upper-IsEnvText (b ∷ bs) = (upper-IsEnvByte b, upper-IsEnvText bs)

pub env_name-IsEnvName : (prefix name : String) → IsEnvName prefix name (env_name prefix name)
unfolding env_name
env_name-IsEnvName prefix name = record {
  start = clean_prefix (bytes_of prefix);
  rest = map upper (bytes_of name);
  joined = refl;
  of_prefix = clean_prefix-IsTrimmed (bytes_of prefix);
  of_name = upper-IsEnvText (bytes_of name);
}
