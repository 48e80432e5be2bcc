-- ===== src/Registry/Order.antt =====
-- The most recent key of a registry is the one with the latest ordering time.
use sealed_secrets.Base.{
  subst, some-injective, ltb→lt, ltb→le, ℕ, ◌≤◌, String, ◌≡◌, ◌≢◌, refl, [], Option, none, some, ok,
  arith, ltb, ◌==◌, >>=-eq-ok, ok-injective, Bool-cases, inl, inr,
}
use native.Mathlib.Nat.{le_refl, le_trans}
use sealed_secrets.Base.GoMap.{Entries, insert, lookup, lookup-insert, lookup-insert_self}
use sealed_secrets.Crypto.{Primitives, public_key_fingerprint}
use sealed_secrets.World.{World}
use sealed_secrets.Registry.{Key, KeyRegistry, new_key_registry, more_recent, register_new_key}

none_found {ℓ} : {V : Type ℓ} {m : Entries V} (k : String) → m ≡ [] → lookup k m ≡ none
unfolding lookup
none_found k e = rw e

module _ {p : Primitives} (w : World p) where
  -- No key of the table is later than a time.
  abbrev pub IsBounded : Entries (Key w) → ℕ → Type 0
  IsBounded keys t = (fp : String) (k : Key w) → lookup fp keys ≡ some k → k.ordering_time ≤ t

  insert-IsBounded :
      (keys : Entries (Key w)) (k : Key w) (t t' : ℕ)
      → IsBounded keys t
      → t ≤ t'
      → k.ordering_time ≤ t'
      → IsBounded (insert k.fingerprint k keys) t'
  insert-IsBounded keys k t t' h a b fp k' e = elim (Bool-cases (k.fingerprint == fp)) [
    | inl same ↦
        let found : some k ≡ some k' = rw (lookup-insert k.fingerprint fp k keys, same) at e in
        subst (λ (o : Key w). o.ordering_time ≤ t') (some-injective found) b
    | inr other ↦ le_trans (h fp k' (rw (lookup-insert k.fingerprint fp k keys, other) at e)) a
  ]

  lookup-insert-ne-none :
      (keys : Entries (Key w)) (fp fp' : String) (k : Key w)
      → lookup fp' keys ≢ none
      → lookup fp' (insert fp k keys) ≢ none
  lookup-insert-ne-none keys fp fp' k h e = elim (Bool-cases (fp == fp')) [
    | inl same ↦ cc (rw (lookup-insert fp fp' k keys, same) at e)
    | inr other ↦ h (rw (lookup-insert fp fp' k keys, other) at e)
  ]

  -- No key is later than the most recent one, which is there as soon as there is a key, and whose
  -- fingerprint is registered.
  pub data IsOrdered (keys : Entries (Key w)) : Option (Key w) → Type 0 where
    no_keys : keys ≡ [] → IsOrdered keys none
    latest :
        (m : Key w)
        → IsBounded keys m.ordering_time
        → lookup m.fingerprint keys ≢ none
        → IsOrdered keys (some m)

  self_found :
      (keys : Entries (Key w)) (k : Key w)
      → lookup k.fingerprint (insert k.fingerprint k keys) ≢ none
  self_found keys k e = cc (e, lookup-insert_self k.fingerprint k keys)

  add_key-IsOrdered :
      (keys : Entries (Key w)) (m : Option (Key w)) (k : Key w)
      → IsOrdered keys m
      → IsOrdered (insert k.fingerprint k keys) (more_recent w m k)
  unfolding more_recent
  add_key-IsOrdered keys m k (no_keys e) =
      latest k
        (insert-IsBounded keys k 0 k.ordering_time (λ fp k' found. cc (found, none_found fp e))
          (omega arith) (le_refl _))
        (self_found keys k)
  add_key-IsOrdered keys m k (latest m' h r) =
      elim (Bool-cases (ltb m'.ordering_time k.ordering_time)) [
        | inl later ↦ rw later (
            latest k
              (insert-IsBounded keys k m'.ordering_time k.ordering_time h
                (omega (arith, ltb→lt _ _ later)) (le_refl _))
              (self_found keys k))
        | inr before ↦ rw before (
            latest m'
              (insert-IsBounded keys k m'.ordering_time m'.ordering_time h (le_refl _)
                (ltb→le _ _ before))
              (lookup-insert-ne-none keys k.fingerprint m'.fingerprint k r))
      ]

  pub new_key_registry-IsOrdered :
      (namespace prefix label : String) (keysize : ℕ)
      → IsOrdered
          (new_key_registry w namespace prefix label keysize).keys
          (new_key_registry w namespace prefix label keysize).most_recent_key
  unfolding new_key_registry
  new_key_registry-IsOrdered namespace prefix label keysize = no_keys refl

  -- If no key of a registry is later than its most recent one, which is registered, or there is no key
  -- at all, then after a successful registerNewKey no key is later than the most recent one, and the
  -- most recent one is registered.
  pub register_new_key-IsOrdered :
      (kr kr' : KeyRegistry w) (priv_key : p.PrivateKey) (cert : w.Cert) (ordering_time : ℕ)
      → IsOrdered kr.keys kr.most_recent_key
      → register_new_key w kr priv_key cert ordering_time ≡ ok kr'
      → IsOrdered kr'.keys kr'.most_recent_key
  unfolding register_new_key
  register_new_key-IsOrdered kr kr' priv_key cert ordering_time h e =
      let (fp, _, e') = >>=-eq-ok (public_key_fingerprint p (p.public priv_key)) _ e in
      subst (λ (r : KeyRegistry w). IsOrdered r.keys r.most_recent_key) (ok-injective e')
        (add_key-IsOrdered kr.keys kr.most_recent_key _ h)
