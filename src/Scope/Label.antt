-- ===== src/Scope/Label.antt =====
-- What an encryption label pins down: the label of one scope and place is not that of another.
use sealed_secrets.Base.{
  String, ◌≡◌, ◌≢◌, refl, ap, sym, ◌∙◌, ◌↔◌, [], ◌∷◌, ◌++◌, arith, Bytes, bytes_of, All,
}
use mathlib.Core.Path.{ap₂}
use sealed_secrets.Scope.{
  SealingScope, strict_scope, namespace_wide_scope, cluster_wide_scope, other_scope,
  encryption_label,
}

-- Without the byte `/`, as the name of a namespace is.
abbrev pub HasNoSlash : Bytes → Type 0
HasNoSlash = All (λ b. b ≢ b'/')

-- The part before the first separator is determined by the whole.
split_unique :
    (a a' b b' : Bytes)
    → HasNoSlash a
    → HasNoSlash a'
    → a ++ (b'/' ∷ b) ≡ a' ++ (b'/' ∷ b')
    → (a ≡ a') × (b ≡ b')
split_unique [] [] b b' h h' e = (refl, ground arith)
split_unique [] (x ∷ a') b b' h h' e = absurd (ground (arith, h'.0))
split_unique (x ∷ a) [] b b' h h' e = absurd (ground (arith, h.0))
split_unique (x ∷ a) (y ∷ a') b b' h h' e =
    let r = split_unique a a' b b' h.1 h'.1 (ground arith) in (ground (arith, r.0), r.1)

slash_free-ne : (a b c : Bytes) → HasNoSlash a → a ≢ b ++ (b'/' ∷ c)
slash_free-ne [] [] c h e = cc
slash_free-ne [] (x ∷ b) c h e = cc
slash_free-ne (x ∷ a) [] c h e = ground (arith, h.0)
slash_free-ne (x ∷ a) (y ∷ b) c h e = slash_free-ne a b c h.1 (ground arith)

-- A place that a secret can be sealed for: a namespace whose bytes are not empty and hold no slash.
abbrev pub IsNamespace : String → Type 0
IsNamespace ns = (bytes_of ns ≢ []) × HasNoSlash (bytes_of ns)

-- Where a sealed secret can be unsealed: anywhere, in one namespace, or under one name in it.
pub data Pin : Type 0 where
  anywhere : Pin
  in_namespace : Bytes → Pin
  exactly : Bytes → Bytes → Pin

-- What each scope promises.
abbrev pub pin : String → String → SealingScope → Pin
pin ns name cluster_wide_scope = anywhere
pin ns name namespace_wide_scope = in_namespace (bytes_of ns)
pin ns name _ = exactly (bytes_of ns) (bytes_of name)

abbrev label_of_pin : Pin → Bytes
label_of_pin anywhere = []
label_of_pin (in_namespace ns) = ns
label_of_pin (exactly ns name) = ns ++ (b'/' ∷ name)

abbrev IsGood : Pin → Type 0
IsGood anywhere = Unit
IsGood (in_namespace ns) = (ns ≢ []) × HasNoSlash ns
IsGood (exactly ns name) = HasNoSlash ns

label_of_pin-injective : (p q : Pin) → IsGood p → IsGood q → label_of_pin p ≡ label_of_pin q → p ≡ q
label_of_pin-injective anywhere anywhere g g' e = refl
label_of_pin-injective anywhere (in_namespace ns) g g' e = absurd (g'.0 (sym e))
label_of_pin-injective anywhere (exactly ns name) g g' e = absurd (slash_free-ne [] ns name tt e)
label_of_pin-injective (in_namespace ns) anywhere g g' e = absurd (g.0 e)
label_of_pin-injective (in_namespace ns) (in_namespace ns') g g' e = ap in_namespace e
label_of_pin-injective (in_namespace ns) (exactly ns' name) g g' e =
    absurd (slash_free-ne ns ns' name g.1 e)
label_of_pin-injective (exactly ns name) anywhere g g' e =
    absurd (slash_free-ne [] ns name tt (sym e))
label_of_pin-injective (exactly ns name) (in_namespace ns') g g' e =
    absurd (slash_free-ne ns' ns name g'.1 (sym e))
label_of_pin-injective (exactly ns name) (exactly ns' name') g g' e =
    let r = split_unique ns ns' name name' g g' e in ap₂ exactly r.0 r.1

encryption_label-pin :
    (s : SealingScope) (ns name : String)
    → encryption_label ns name s ≡ label_of_pin (pin ns name s)
unfolding encryption_label
encryption_label-pin strict_scope ns name = refl
encryption_label-pin namespace_wide_scope ns name = refl
encryption_label-pin cluster_wide_scope ns name = refl
encryption_label-pin (other_scope n) ns name = refl

pin-IsGood : (s : SealingScope) (ns name : String) → IsNamespace ns → IsGood (pin ns name s)
pin-IsGood strict_scope ns name h = h.1
pin-IsGood namespace_wide_scope ns name h = h
pin-IsGood cluster_wide_scope ns name h = tt
pin-IsGood (other_scope n) ns name h = h.1

-- For namespaces that are not empty and hold no slash, two encryption labels are equal exactly if the
-- scopes promise the same place: anywhere for two cluster-wide ones, the same namespace for two
-- namespace-wide ones, and the same namespace and name for two others.
pub encryption_label-injective :
    (s s' : SealingScope) (ns name ns' name' : String)
    → IsNamespace ns
    → IsNamespace ns'
    → (encryption_label ns name s ≡ encryption_label ns' name' s')
      ↔ (pin ns name s ≡ pin ns' name' s')
encryption_label-injective s s' ns name ns' name' h h' = (
  λ e.
      label_of_pin-injective (pin ns name s) (pin ns' name' s') (pin-IsGood s ns name h)
        (pin-IsGood s' ns' name' h')
        (sym (encryption_label-pin s ns name) ∙ e ∙ encryption_label-pin s' ns' name'),
  λ e. encryption_label-pin s ns name ∙ ap label_of_pin e ∙ sym (encryption_label-pin s' ns' name'),
)
