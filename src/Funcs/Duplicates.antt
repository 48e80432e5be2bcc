-- ===== src/Funcs/Duplicates.antt =====
-- What removeDuplicates keeps.
use sealed_secrets.Base.{
  String, ◌≡◌, refl, sym, ap, ◌∙◌, Bool, true, false, not, ◌||◌, [], ◌∷◌, ◌++◌, List, any, ◌==◌,
  eq_iff, arith, Bool-cases, inl, inr,
}
use sealed_secrets.Base.GoMap.{Entries, lookup, insert, lookup-insert}
use sealed_secrets.Funcs.{collect, remove_duplicates, is_new}

-- The item is in the list.
abbrev pub contains : String → List String → Bool
contains k = any (λ j. j == k)

-- No item twice.
abbrev pub IsDistinct : List String → Type 0
IsDistinct [] = Unit
IsDistinct (x ∷ xs) = (contains x xs ≡ false) × IsDistinct xs

or_assoc : (a b c : Bool) → ((a || b) || c) ≡ (a || (b || c))
or_assoc true b c = refl
or_assoc false b c = refl

contains-append :
    (k : String) (xs ys : List String) → contains k (xs ++ ys) ≡ (contains k xs || contains k ys)
contains-append k [] ys = refl
contains-append k (x ∷ xs) ys =
    ap (λ b. x == k || b) (contains-append k xs ys)
    ∙ sym (or_assoc (x == k) (contains k xs) (contains k ys))

IsDistinct-concat :
    (xs : List String) (x : String)
    → contains x xs ≡ false
    → IsDistinct xs
    → IsDistinct (xs ++ (x ∷ []))
IsDistinct-concat [] x h d = (refl, tt)
IsDistinct-concat (y ∷ xs) x h (fresh, d) = (
  contains-append y xs (x ∷ []) ∙ ground (arith, h, fresh, eq_iff x y, eq_iff y x),
  IsDistinct-concat xs x (ground (arith, h)) d,
)

-- The set of the loop holds the items of its list.
abbrev Tracks : Entries Bool → List String → Type 0
Tracks all_keys list = (k : String) → is_new (lookup k all_keys) ≡ not (contains k list)

Tracks-insert :
    (all_keys : Entries Bool) (list : List String) (item : String)
    → Tracks all_keys list
    → Tracks (insert item true all_keys) (list ++ (item ∷ []))
Tracks-insert all_keys list item t k =
    rw (lookup-insert, contains-append k list (item ∷ [])) (ground (arith, t k))

contains-skip :
    (k item : String) (list items : List String)
    → contains item list ≡ true
    → (contains k list || contains k items) ≡ (contains k list || contains k (item ∷ items))
contains-skip k item list items h = elim (Bool-cases (item == k)) [
  | inl same ↦ let found : contains k list ≡ true = rw (← (eq_iff item k).0 same) h in rw found refl
  | inr other ↦ rw other refl
]

-- The loop adds the items that the list does not hold, each once.
collect-contains :
    (items : List String) (all_keys : Entries Bool) (list : List String) (k : String)
    → Tracks all_keys list
    → contains k (collect items all_keys list) ≡ (contains k list || contains k items)
unfolding collect
collect-contains [] all_keys list k t = ground arith
collect-contains (item ∷ items) all_keys list k t =
    elim (Bool-cases (is_new (lookup item all_keys))) [
      | inl new ↦
          rw (new, collect)
            (collect-contains items (insert item true all_keys) (list ++ (item ∷ [])) k
                (Tracks-insert all_keys list item t)
              ∙ rw (contains-append k list (item ∷ [])) (ground arith))
      | inr old ↦
          rw (old, collect)
            (collect-contains items all_keys list k t
              ∙ contains-skip k item list items (ground (arith, t item)))
    ]

collect-IsDistinct :
    (items : List String) (all_keys : Entries Bool) (list : List String)
    → Tracks all_keys list
    → IsDistinct list
    → IsDistinct (collect items all_keys list)
unfolding collect
collect-IsDistinct [] all_keys list t d = d
collect-IsDistinct (item ∷ items) all_keys list t d =
    elim (Bool-cases (is_new (lookup item all_keys))) [
      | inl new ↦
          rw (new, collect)
            (collect-IsDistinct items (insert item true all_keys) (list ++ (item ∷ []))
              (Tracks-insert all_keys list item t)
              (IsDistinct-concat list item (ground (arith, t item)) d))
      | inr old ↦ rw (old, collect) (collect-IsDistinct items all_keys list t d)
    ]

Tracks-nil : Tracks [] []
unfolding lookup
Tracks-nil k = refl

-- removeDuplicates returns a list that holds no item twice and holds exactly the items of its argument.
remove_duplicates_lem :
    (items : List String)
    → IsDistinct (remove_duplicates items)
      × ((k : String) → contains k (remove_duplicates items) ≡ contains k items)
unfolding remove_duplicates
remove_duplicates_lem items =
    (collect-IsDistinct items [] [] Tracks-nil tt, λ k. collect-contains items [] [] k Tracks-nil)
