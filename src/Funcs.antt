-- ===== src/Funcs.antt =====
-- pkg/controller/funcs.go: the check of a key prefix and the removal of duplicates.
pub mod Schedule
pub mod Pace
pub mod Duplicates
pub mod Prefix
use Prim.Native.Char.{Char, code}
use Prim.Native.String
use Prim.Native.String.{char_at}
use sealed_secrets.Base.{
  ℕ, zero, suc, ◌/◌, ◌%◌, map, Error, String, Bool, true, false, List, [], ◌∷◌, ◌++◌, Option, none,
  some, own, Outcome, ok, err, bytes_of, length, ltb, eqb, any, if◌then◌else◌,
}
use sealed_secrets.Base.GoMap.{Entries, lookup, insert}

abbrev pub kube_chars : String
kube_chars = "abcdefghijklmnopqrstuvwxyz0123456789-"

abbrev pub max_name_length : ℕ
max_name_length = 245

-- The runes of a text, as `for _, char := range name` visits them.
unfoldable pub runes : String → List Char
runes String.[] = []
runes (String.◌∷◌ c s) = c ∷ runes s

-- strings.ContainsRune(kubeChars, char)
unfoldable pub is_kube_char : Char → Bool
unfolding runes
is_kube_char c = any (eqb (code c)) (map code (runes kube_chars))

-- The loop of validateKeyPrefix.
unfoldable pub check_runes : String → List Char → Outcome String
check_runes name [] = ok name
check_runes name (c ∷ cs) =
    let rest = check_runes name cs in
    if is_kube_char c
    then rest
    else err (own (String.◌++◌ "name contains illegal character " (String.◌∷◌ c String.[])))

-- The decimal digits of a number below 10 ^ fuel, for `%d`, before a text.
unfoldable pub decimal : ℕ → ℕ → String → String
decimal zero n text = text
decimal (suc fuel) n text =
    let text' = String.◌∷◌ (char_at "0123456789" (n % 10)) text in
    let rest = decimal fuel (n / 10) text' in if ltb n 10 then text' else rest

abbrev pub too_long : ℕ → Error
too_long size = own (
    String.◌++◌ "name is too long, must be shorter than " (
      decimal (suc max_name_length) max_name_length
        (String.◌++◌ ", got " (decimal (suc size) size ""))))

-- validateKeyPrefix
unfoldable pub validate_key_prefix : String → Outcome String
unfolding check_runes
validate_key_prefix name =
    let size = length (bytes_of name) in
    if ltb max_name_length size then err (too_long size) else check_runes name (runes name)

abbrev pub is_new : Option Bool → Bool
is_new none = true
is_new (some _) = false

-- The loop of removeDuplicates, with the set of items seen and the list so far.
unfoldable pub collect : List String → Entries Bool → List String → List String
collect [] all_keys list = list
collect (item ∷ items) all_keys list =
    let rest = collect items (insert item true all_keys) (list ++ (item ∷ [])) in
    let skip = collect items all_keys list in if is_new (lookup item all_keys) then rest else skip

-- removeDuplicates
unfoldable pub remove_duplicates : List String → List String
unfolding collect
remove_duplicates str_slice = collect str_slice [] []
