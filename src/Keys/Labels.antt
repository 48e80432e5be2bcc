-- ===== src/Keys/Labels.antt =====
-- The labels of a stored key.
use sealed_secrets.Base.{
  String, ◌≡◌, [], ◌∷◌, List, some, ok, ok-injective, >>=-eq-ok, subst, ◌==◌, eq_refl, Bool-cases,
  inl, inr, if◌then◌else◌,
}
use sealed_secrets.Base.GoMap.{Entries, insert, lookup, lookup-insert}
use sealed_secrets.Base.Split.{split}
use sealed_secrets.Funcs.{remove_duplicates}
use sealed_secrets.Keys.{key_value, add_labels, key_labels}

abbrev IsActive : String → Entries String → Type 0
IsActive kr_label labels = lookup kr_label labels ≡ some "active"

lookup-single : (kr_label : String) → IsActive kr_label ((kr_label, "active") ∷ [])
unfolding lookup
lookup-single kr_label = rw eq_refl

step-IsActive :
    (kr_label k v : String) (labels : Entries String)
    → IsActive kr_label labels
    → IsActive kr_label (if k == kr_label then labels else insert k v labels)
step-IsActive kr_label k v labels h = elim (Bool-cases (k == kr_label)) [
  | inl same ↦ rw same h
  | inr other ↦ rw other (rw (lookup-insert, other) h)
]

add_labels-IsActive :
    (kr_label : String) (ls : List String) (labels out : Entries String)
    → IsActive kr_label labels
    → add_labels kr_label ls labels ≡ ok out
    → IsActive kr_label out
unfolding add_labels
add_labels-IsActive kr_label [] labels out h e = subst (IsActive kr_label) (ok-injective e) h
add_labels-IsActive kr_label (l ∷ ls) labels out h e =
    let (kv, _, rest) = >>=-eq-ok (key_value l) _ e in
    add_labels-IsActive kr_label ls _ out (step-IsActive kr_label kv.0 kv.1 labels h) rest

-- Whatever additional labels are asked for, if they can be split, the labels of a key that is stored
-- hold the registry's own label with the value active.
key_labels-IsActive :
    (kr_label additional_labels : String) (out : Entries String)
    → key_labels kr_label additional_labels ≡ ok out
    → lookup kr_label out ≡ some "active"
unfolding key_labels
key_labels-IsActive kr_label additional_labels out e = elim (Bool-cases (additional_labels == "")) [
  | inl empty ↦
      subst (IsActive kr_label) (ok-injective (rw (empty, key_labels) at e))
        (lookup-single kr_label)
  | inr some_labels ↦
      add_labels-IsActive kr_label (remove_duplicates (split b',' additional_labels))
        ((kr_label, "active") ∷ []) out (lookup-single kr_label) (rw (some_labels, key_labels) at e)
]
