-- ===== src/Funcs/Prefix.antt =====
-- Which names validateKeyPrefix accepts.
use Prim.Native.Char.{Char, code}
use sealed_secrets.Base.{
  ℕ, zero, suc, ◌+◌, ◌≤◌, ◌<◌, String, ◌≡◌, ◌↔◌, ◌⊎◌, refl, ap, sym, ◌∙◌, ltb→lt, Bool, true, false,
  ◌||◌, [], ◌∷◌, ◌++◌, List, ok, any, map, eqb, bytes_of, length, ltb, arith, Bool-cases, inl, inr,
  ltb→le,
}
use sealed_secrets.Funcs.{
  runes, kube_chars, is_kube_char, check_runes, validate_key_prefix, max_name_length,
}

-- A lower-case letter, a digit or a dash, by its code point.
abbrev pub IsNameChar : Char → Type 0
IsNameChar c = ((97 ≤ code c) × (code c ≤ 122)) ⊎ ((48 ≤ code c) × (code c ≤ 57)) ⊎ (code c ≡ 45)

abbrev pub IsKubeName : String → Type 0
IsKubeName String.[] = Unit
IsKubeName (String.◌∷◌ c s) = IsNameChar c × IsKubeName s

-- Some numbers in a row.
unfoldable range : ℕ → ℕ → List ℕ
range a zero = []
range a (suc k) = a ∷ range (suc a) k

kube_chars_lem : map code (runes kube_chars) ≡ range 97 26 ++ (range 48 10 ++ (45 ∷ []))
unfolding runes range
kube_chars_lem = refl

any-++ : (n : ℕ) (l r : List ℕ) → any (eqb n) (l ++ r) ≡ (any (eqb n) l || any (eqb n) r)
any-++ n [] r = refl
any-++ n (a ∷ l) r = elim (Bool-cases (eqb n a)) [
  | inl same ↦ rw same
  | inr other ↦ rw (other, any-++ n l r)
]

in_front :
    (n a k : ℕ) (rest : Bool)
    → (rest ≡ true) ↔ ((suc a ≤ n) × (n < suc a + k))
    → ((eqb n a || rest) ≡ true) ↔ ((a ≤ n) × (n < a + suc k))
in_front n a k true (to, from) =
    let (low, high) = to refl in (λ h. (omega (arith, low), omega (arith, high)), λ h. ground arith)
in_front n a k false (to, from) = (λ h. ground arith, λ h. ground arith)

any-range : (n a k : ℕ) → (any (eqb n) (range a k) ≡ true) ↔ ((a ≤ n) × (n < a + k))
unfolding range
any-range n a zero = (λ h. cc h, λ h. absurd (omega (arith, h.0, h.1)))
any-range n a (suc k) = in_front n a k (any (eqb n) (range (suc a) k)) (any-range n (suc a) k)

is_kube_char-ranges :
    (c : Char)
    → is_kube_char c ≡ (
        any (eqb (code c)) (range 97 26)
        || (any (eqb (code c)) (range 48 10) || any (eqb (code c)) (45 ∷ [])))
unfolding is_kube_char
is_kube_char-ranges c =
    ap (any (eqb (code c))) kube_chars_lem
    ∙ any-++ (code c) (range 97 26) (range 48 10 ++ (45 ∷ []))
    ∙ ap (λ b. any (eqb (code c)) (range 97 26) || b) (any-++ (code c) (range 48 10) (45 ∷ []))

three_ranges :
    (n : ℕ) (letters digits : Bool)
    → (letters ≡ true) ↔ ((97 ≤ n) × (n < 123))
    → (digits ≡ true) ↔ ((48 ≤ n) × (n < 58))
    → ((letters || (digits || any (eqb n) (45 ∷ []))) ≡ true)
      ↔ (((97 ≤ n) × (n ≤ 122)) ⊎ ((48 ≤ n) × (n ≤ 57)) ⊎ (n ≡ 45))
three_ranges n true digits (to, from) d =
    (λ h. inl ((to refl).0, omega (arith, (to refl).1)), λ h. refl)
three_ranges n false true (to, from) (to', from') =
    (λ h. inr (inl ((to' refl).0, omega (arith, (to' refl).1))), λ h. refl)
three_ranges n false false (to, from) (to', from') = (
  λ h. inr (inr (ground arith)),
  λ h. elim h [
    | inl letter ↦ cc (from (letter.0, omega (arith, letter.1)))
    | inr (inl digit) ↦ cc (from' (digit.0, omega (arith, digit.1)))
    | inr (inr dash) ↦ rw dash
  ],
)

is_kube_char-IsNameChar : (c : Char) → (is_kube_char c ≡ true) ↔ IsNameChar c
is_kube_char-IsNameChar c =
    rw (is_kube_char-ranges c)
      (three_ranges (code c) _ _ (any-range (code c) 97 26) (any-range (code c) 48 10))

check_runes_iff : (name s : String) → (check_runes name (runes s) ≡ ok name) ↔ IsKubeName s
unfolding check_runes runes
check_runes_iff name String.[] = (λ _. tt, λ _. refl)
check_runes_iff name (String.◌∷◌ c s) =
    let (to, from) = check_runes_iff name s in
    let (good_to, good_from) = is_kube_char-IsNameChar c in
    elim (Bool-cases (is_kube_char c)) [
      | inl good ↦ (λ h. (good_to good, to (rw (good, check_runes) at h)), λ h. rw good (from h.1))
      | inr bad ↦ (λ h. cc (rw (bad, check_runes) at h), λ h. cc (bad, good_from h.0))
    ]

check_runes_same :
    (name : String) (cs : List Char) {out : String} → check_runes name cs ≡ ok out → out ≡ name
unfolding check_runes
check_runes_same name [] h = cc
check_runes_same name (c ∷ cs) h = elim (Bool-cases (is_kube_char c)) [
  | inl good ↦ check_runes_same name cs (rw (good, check_runes) at h)
  | inr bad ↦ cc (rw (bad, check_runes) at h)
]

-- validateKeyPrefix accepts a name, and then returns that name, exactly if it has at most 245 bytes and
-- each of its characters is a lower-case letter, a digit or a dash.
pub validate_key_prefix_iff :
    (name out : String)
    → (validate_key_prefix name ≡ ok out)
      ↔ ((length (bytes_of name) ≤ 245) × IsKubeName name × (out ≡ name))
unfolding validate_key_prefix
validate_key_prefix_iff name out =
    elim (Bool-cases (ltb max_name_length (length (bytes_of name)))) [
      | inl long ↦ (
        λ h. cc (rw (long, validate_key_prefix) at h),
        λ h. absurd (omega (arith, ltb→lt max_name_length (length (bytes_of name)) long)),
      )
      | inr short ↦ (
        λ h.
            let checked : check_runes name (runes name) ≡ ok out =
              rw (short, validate_key_prefix) at h in
            let same = check_runes_same name (runes name) checked in
            (
              ltb→le max_name_length (length (bytes_of name)) short,
              (check_runes_iff name name).0 (checked ∙ ap (λ s. ok s) same),
              same,
            ),
        λ h. rw short ((check_runes_iff name name).1 h.1 ∙ ap (λ s. ok s) (sym h.2)),
      )
    ]
