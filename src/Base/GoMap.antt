-- ===== src/Base/GoMap.antt =====
-- Go's `map[string]V`: nil, or a table of entries. A `range` loop visits the entries in the order of the
-- table; Go leaves that order open, so statements about loops are made for every table.
use Prim.Native.String.{String}
use mathlib.Core.Path.{◌≡◌, refl, ap, ◌∙◌}
use mathlib.Core.Logic.{inl, inr}
use mathlib.Core.Bool.{false}
use mathlib.Core.Option.{Option, none, some}
use mathlib.Core.List.{List, [], ◌∷◌}
use native.Mathlib.Omega.{arith}
use text.Mathlib.Text.{◌==◌}
use text.Mathlib.TextEquality.{eq_iff}
use text.Mathlib.TextPositions.{eq_refl}
use sealed_secrets.Base.Tests.{if◌then◌else◌, Bool-cases}
use sealed_secrets.Base.Results.{Outcome, ok, panic, ◌>>=◌}

not_sym : (k j : String) → (j == k) ≡ false → (k == j) ≡ false
not_sym k j h = ground (arith, eq_iff k j, eq_iff j k)

abbrev pub or_else {ℓ} : {A : Type ℓ} → Option A → Option A → Option A
or_else none b = b
or_else (some a) b = some a

abbrev pub Entries {ℓ} : Type ℓ → Type ℓ
Entries V = List (String × V)

module _ {ℓ} {V : Type ℓ} where
  unfoldable pub lookup : String → Entries V → Option V
  lookup key [] = none
  lookup key ((first, value) ∷ rest) = if first == key then some value else lookup key rest

  unfoldable pub insert : String → V → Entries V → Entries V
  insert key value [] = (key, value) ∷ []
  insert key value ((first, old) ∷ rest) =
      if first == key then (key, value) ∷ rest else (first, old) ∷ insert key value rest

  unfoldable pub without : String → Entries V → Entries V
  without k [] = []
  without k ((j, w) ∷ m) = let rest = without k m in if j == k then rest else (j, w) ∷ rest

  -- m[key] = value; m[asked]
  pub lookup-insert :
      (key asked : String) (value : V) (table' : Entries V)
      → lookup asked (insert key value table')
        ≡ (if key == asked then some value else lookup asked table')
  unfolding lookup insert
  lookup-insert key asked value ((first, old) ∷ rest) =
      let later = lookup-insert key asked value rest in
      ground (arith, later, eq_iff first key, eq_iff first asked, eq_iff key asked)
  lookup-insert key asked value [] = refl

  pub lookup-insert_self :
      (key : String) (value : V) (table' : Entries V)
      → lookup key (insert key value table') ≡ some value
  lookup-insert_self key value table' = lookup-insert key key value table' ∙ rw eq_refl

  pub lookup-without :
      (k j : String) (m : Entries V)
      → lookup j (without k m) ≡ (if k == j then none else lookup j m)
  unfolding lookup without
  lookup-without k j [] = ground arith
  lookup-without k j ((i, v) ∷ m) =
      ground (arith, lookup-without k j m, eq_iff i k, eq_iff i j, eq_iff k j)

  -- for k, v := range src { dst[k] = v }
  unfoldable pub insert_all : Entries V → Entries V → Entries V
  insert_all [] dst = dst
  insert_all ((k, v) ∷ src) dst = insert_all src (insert k v dst)

  -- No key twice: what a Go map guarantees.
  abbrev pub IsTable : Entries V → Type ℓ
  IsTable [] = Unit
  IsTable ((k, v) ∷ m) = (lookup k m ≡ none) × IsTable m

  pub insert-IsTable : (k : String) (v : V) (m : Entries V) → IsTable m → IsTable (insert k v m)
  unfolding insert lookup
  insert-IsTable k v [] t = (refl, tt)
  insert-IsTable k v ((j, w) ∷ m) (fresh, t) = elim (Bool-cases (j == k)) [
    | inl same ↦ rw same (rw (← (eq_iff j k).0 same) fresh, t)
    | inr other ↦
        rw other (lookup-insert k j v m ∙ rw (not_sym k j other) fresh, insert-IsTable k v m t)
  ]

  -- The merged table answers by the source where it has the key, and by the old table elsewhere.
  pub lookup-insert_all :
      (src dst : Entries V) (j : String)
      → IsTable src
      → lookup j (insert_all src dst) ≡ or_else (lookup j src) (lookup j dst)
  unfolding insert_all lookup
  lookup-insert_all [] dst j t = refl
  lookup-insert_all ((k, v) ∷ src) dst j (fresh, t) = elim (Bool-cases (k == j)) [
    | inl same ↦
        let e : k ≡ j = (eq_iff k j).0 same in
        rw same (
          lookup-insert_all src (insert k v dst) j t
          ∙ ground (arith, e, ap (λ i. lookup i src) e, lookup-insert k j v dst))
    | inr other ↦ rw other (lookup-insert_all src (insert k v dst) j t ∙ rw (lookup-insert, other))
  ]

module _ {ℓ} {V : Type ℓ} where
  pub insert_all-IsTable : (src dst : Entries V) → IsTable dst → IsTable (insert_all src dst)
  unfolding insert_all
  insert_all-IsTable [] dst t = t
  insert_all-IsTable ((k, v) ∷ src) dst t =
      insert_all-IsTable src (insert k v dst) (insert-IsTable k v dst t)

or_else-none {ℓ} : {A : Type ℓ} (o : Option A) → or_else o none ≡ o
or_else-none none = refl
or_else-none (some a) = refl

-- A table copied into an empty one answers the same.
pub lookup-copy {ℓ} :
    {V : Type ℓ} (m : Entries V) (k : String) → IsTable m → lookup k (insert_all m []) ≡ lookup k m
unfolding lookup
lookup-copy m k t = lookup-insert_all m [] k t ∙ or_else-none (lookup k m)

module _ {ℓ κ} {V : Type ℓ} {W : Type κ} (f : V → W) where
  -- A loop that converts each value.
  abbrev pub map_values : Entries V → Entries W
  map_values [] = []
  map_values ((k, v) ∷ m) = (k, f v) ∷ map_values m

  abbrev pub map_option : Option V → Option W
  map_option none = none
  map_option (some v) = some (f v)

  pub lookup-map_values :
      (k : String) (m : Entries V) → lookup k (map_values m) ≡ map_option (lookup k m)
  unfolding lookup
  lookup-map_values k [] = refl
  lookup-map_values k ((j, v) ∷ m) = elim (Bool-cases (j == k)) [
    | inl same ↦ rw same
    | inr other ↦ rw other (lookup-map_values k m)
  ]

  pub map_values-IsTable : (m : Entries V) → IsTable m → IsTable (map_values m)
  map_values-IsTable [] t = tt
  map_values-IsTable ((k, v) ∷ m) (fresh, t) =
      (lookup-map_values k m ∙ rw fresh, map_values-IsTable m t)

pub data GoMap {ℓ} (V : Type ℓ) : Type ℓ where
  nil_map : GoMap V
  table : Entries V → GoMap V

module _ {ℓ} {V : Type ℓ} where
  -- What a `range` loop visits.
  abbrev pub entries : GoMap V → Entries V
  entries nil_map = []
  entries (table m) = m

  -- v, ok := m[k]
  unfoldable pub get : GoMap V → String → Option V
  unfolding lookup
  get m k = lookup k (entries m)

  -- m[k] = v panics on the nil map.
  abbrev pub put : GoMap V → String → V → Outcome (GoMap V)
  put nil_map k v = panic
  put (table m) k v = ok (table (insert k v m))

  -- delete(m, k) does nothing on the nil map.
  abbrev pub delete : GoMap V → String → GoMap V
  delete nil_map k = nil_map
  delete (table m) k = table (without k m)

  -- for k, v := range src { dst[k] = v }
  unfoldable pub put_all : Entries V → GoMap V → Outcome (GoMap V)
  put_all [] dst = ok dst
  put_all ((k, v) ∷ src) dst = put dst k v >>= put_all src

  -- if m == nil { m = map[string]V{} }
  abbrev pub made : GoMap V → GoMap V
  made nil_map = table []
  made (table m) = table m

  pub put_all-table :
      (src dst : Entries V) → put_all src (table dst) ≡ ok (table (insert_all src dst))
  unfolding put_all insert_all
  put_all-table [] dst = refl
  put_all-table ((k, v) ∷ src) dst = put_all-table src (insert k v dst)

  pub get-delete :
      (m : GoMap V) (k j : String) → get (delete m k) j ≡ (if k == j then none else get m j)
  unfolding get
  get-delete nil_map k j = ground arith
  get-delete (table m) k j = lookup-without k j m

  pub get-table : (m : Entries V) (k : String) → get (table m) k ≡ lookup k m
  unfolding get
  get-table m k = refl

  pub get-nil_map : (k : String) → get nil_map k ≡ none
  unfolding get
  get-nil_map k = refl

abbrev pub or_empty : Option String → String
or_empty none = ""
or_empty (some v) = v

-- m[k] of a `map[string]string`: the empty text where the key is missing.
abbrev pub index : GoMap String → String → String
index m k = or_empty (get m k)
