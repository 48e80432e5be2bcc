-- ===== src/Registry/Held.antt =====
-- The private key of the most recent key opens what is sealed for it: a key for its public key is among
-- the private keys that the registry hands to Unseal.
use sealed_secrets.Base.{
  some-injective, ltb, ℕ, String, ◌≡◌, refl, sym, ap, ◌∙◌, [], ◌∷◌, Option, none, some, ok,
  >>=-eq-ok, ok-injective, subst, Bool-cases, inl, inr, ◌==◌, eq_iff,
}
use sealed_secrets.Base.GoMap.{Entries, insert, map_values}
use sealed_secrets.Crypto.{Primitives, public_key_fingerprint}
use sealed_secrets.Crypto.Laws.{HasKey}
use sealed_secrets.World.{World}
use sealed_secrets.Registry.{
  Key, KeyRegistry, new_key_registry, more_recent, register_new_key, private_keys,
}

-- Two public keys with one fingerprint are the same key.
pub record IsCollisionFree (p : Primitives) : Type 0 where
  pub same_key :
      (pk pk' : p.PublicKey) (fp : String)
      → public_key_fingerprint p pk ≡ ok fp
      → public_key_fingerprint p pk' ≡ ok fp
      → pk ≡ pk'

module _ {p : Primitives} (w : World p) where
  abbrev privates : Entries (Key w) → Entries p.PrivateKey
  privates = map_values (λ (k : Key w). k.private)

  -- The fingerprint under which a key stands is that of its public key.
  abbrev IsNamed : Key w → Type 0
  IsNamed k = public_key_fingerprint p (p.public k.private) ≡ ok k.fingerprint

  abbrev AllNamed : Entries (Key w) → Type 0
  AllNamed [] = Unit
  AllNamed ((fp, k) ∷ keys) = (fp ≡ k.fingerprint) × IsNamed k × AllNamed keys

  insert-AllNamed :
      (keys : Entries (Key w)) (k : Key w)
      → IsNamed k
      → AllNamed keys
      → AllNamed (insert k.fingerprint k keys)
  unfolding insert
  insert-AllNamed [] k n a = (refl, n, tt)
  insert-AllNamed ((fp, k') ∷ keys) k n (e, n', a) = elim (Bool-cases (fp == k.fingerprint)) [
    | inl same ↦ rw same (refl, n, a)
    | inr other ↦ rw other (e, n', insert-AllNamed keys k n a)
  ]

  insert-HasKey_self :
      (keys : Entries (Key w)) (k : Key w)
      → HasKey p (p.public k.private) (privates (insert k.fingerprint k keys))
  unfolding insert
  insert-HasKey_self [] k = inl refl
  insert-HasKey_self ((fp, k') ∷ keys) k = elim (Bool-cases (fp == k.fingerprint)) [
    | inl same ↦ rw same (inl refl)
    | inr other ↦ rw other (inr (insert-HasKey_self keys k))
  ]

  -- What every key and the most recent one satisfy.
  pub record IsHeld (kr : KeyRegistry w) : Type 0 where
    pub all_named : AllNamed kr.keys
    pub latest_held :
        (m : Key w)
        → kr.most_recent_key ≡ some m
        → HasKey p (p.public m.private) (private_keys w kr)

  module _ (free : IsCollisionFree p) where
    insert-HasKey :
        (keys : Entries (Key w)) (k : Key w) (pk : p.PublicKey)
        → IsNamed k
        → AllNamed keys
        → HasKey p pk (privates keys)
        → HasKey p pk (privates (insert k.fingerprint k keys))
    unfolding insert
    insert-HasKey [] k pk n a h = elim h [ ]
    insert-HasKey ((fp, k') ∷ keys) k pk n (e, n', a) (inl same_key) =
        elim (Bool-cases (fp == k.fingerprint)) [
          | inl same ↦
              let e' : k'.fingerprint ≡ k.fingerprint = sym e ∙ (eq_iff fp k.fingerprint).0 same in
              rw same (inl (free.same_key _ _ k.fingerprint n (n' ∙ ap (λ f. ok f) e') ∙ same_key))
          | inr other ↦ rw other (inl same_key)
        ]
    insert-HasKey ((fp, k') ∷ keys) k pk n (e, n', a) (inr later) =
        elim (Bool-cases (fp == k.fingerprint)) [
          | inl same ↦ rw same (inr later)
          | inr other ↦ rw other (inr (insert-HasKey keys k pk n a later))
        ]

    add_key-latest :
        (keys : Entries (Key w)) (o : Option (Key w)) (k m : Key w)
        → IsNamed k
        → AllNamed keys
        → ((m' : Key w) → o ≡ some m' → HasKey p (p.public m'.private) (privates keys))
        → more_recent w o k ≡ some m
        → HasKey p (p.public m.private) (privates (insert k.fingerprint k keys))
    unfolding more_recent
    add_key-latest keys none k m n a h e =
        subst
          (λ (x : Key w). HasKey p (p.public x.private) (privates (insert k.fingerprint k keys)))
          (some-injective e) (insert-HasKey_self keys k)
    add_key-latest keys (some m') k m n a h e =
        elim (Bool-cases (ltb m'.ordering_time k.ordering_time)) [
          | inl later ↦
              subst
                (λ (x : Key w).
                  HasKey p (p.public x.private) (privates (insert k.fingerprint k keys)))
                (some-injective (rw later at e)) (insert-HasKey_self keys k)
          | inr before ↦
              subst
                (λ (x : Key w).
                  HasKey p (p.public x.private) (privates (insert k.fingerprint k keys)))
                (some-injective (rw before at e)) (insert-HasKey keys k _ n a (h m' refl))
        ]

    -- If public keys with one fingerprint are the same, and in a registry each key stands under its
    -- fingerprint and the private keys hold one for the public key of the most recent key, then a
    -- successful registerNewKey leaves it so.
    pub register_new_key-IsHeld :
        (kr kr' : KeyRegistry w) (priv_key : p.PrivateKey) (cert : w.Cert) (ordering_time : ℕ)
        → IsHeld kr
        → register_new_key w kr priv_key cert ordering_time ≡ ok kr'
        → IsHeld kr'
    unfolding register_new_key
    register_new_key-IsHeld kr kr' priv_key cert ordering_time h e =
        let (fp, named, e') = >>=-eq-ok (public_key_fingerprint p (p.public priv_key)) _ e in
        subst (λ (r : KeyRegistry w). IsHeld r) (ok-injective e')
          (record {
            all_named = insert-AllNamed kr.keys _ named h.all_named;
            latest_held =
                λ m. add_key-latest kr.keys kr.most_recent_key _ m named h.all_named h.latest_held;
          })

  pub new_key_registry-IsHeld :
      (namespace prefix label : String) (keysize : ℕ)
      → IsHeld (new_key_registry w namespace prefix label keysize)
  unfolding new_key_registry
  new_key_registry-IsHeld namespace prefix label keysize = record {
    all_named = tt;
    latest_held = λ m e. cc;
  }
