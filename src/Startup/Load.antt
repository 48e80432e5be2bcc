-- ===== src/Startup/Load.antt =====
-- What initKeyRegistry loads.
use sealed_secrets.Base.{
  String, ◌≡◌, refl, ap, subst, [], ◌∷◌, ◌++◌, List, Error, Outcome, ok, err, panic, Outcome-cases,
  inl, inr, ok-injective, ℕ,
}
use sealed_secrets.Base.Action.{attempt, bind-eq-ok, lift}
use sealed_secrets.Crypto.{Primitives}
use sealed_secrets.Sealed.{Secret}
use sealed_secrets.World.{World}
use sealed_secrets.Registry.{KeyRegistry, register_new_key, new_key_registry}
use sealed_secrets.Registry.Order.{
  IsOrdered, register_new_key-IsOrdered, new_key_registry-IsOrdered,
}
use sealed_secrets.Registry.Held.{
  IsCollisionFree, IsHeld, register_new_key-IsHeld, new_key_registry-IsHeld,
}
use sealed_secrets.Keys.{read_key}
use sealed_secrets.Startup.{
  registry_new_key_with_secret, load_keys, init_key_registry, get_key_order_priority,
  with_legacy_key,
}

module _ {p : Primitives} (w : World p) where
  -- A property that registering a key keeps holds after the loop.
  module _ (P : KeyRegistry w → Type 0)
      (keep : (kr kr' : KeyRegistry w) (priv_key : p.PrivateKey) (cert : w.Cert) (t : ℕ)
        → P kr
        → register_new_key w kr priv_key cert t ≡ ok kr'
        → P kr') where
    registry_new_key_with_secret_keeps :
        (secret : Secret) (priority : String) (kr kr' : KeyRegistry w)
        → P kr
        → registry_new_key_with_secret w secret priority kr ≡ ok kr'
        → P kr'
    unfolding registry_new_key_with_secret
    registry_new_key_with_secret_keeps secret priority kr kr' h e =
        read_cases (read_key w secret) refl
      where
        read_cases : (r : Outcome (p.PrivateKey × List w.Cert)) → read_key w secret ≡ r → P kr'
        read_cases (ok (key, [])) r = cc (rw (r, registry_new_key_with_secret) at e)
        read_cases (ok (key, cert ∷ certs)) r =
            keep kr kr' key cert (get_key_order_priority w priority cert secret) h
              (rw (r, registry_new_key_with_secret) at e)
        read_cases (err x) r = cc (rw (r, registry_new_key_with_secret) at e)
        read_cases panic r = cc (rw (r, registry_new_key_with_secret) at e)

    load_keys_keeps :
        (secrets : List Secret) (priority : String) (kr kr' : KeyRegistry w)
        → P kr
        → load_keys w secrets priority kr ≡ ok kr'
        → P kr'
    unfolding load_keys
    load_keys_keeps [] priority kr kr' h e = subst P (ok-injective e) h
    load_keys_keeps (secret ∷ secrets) priority kr kr' h e =
        elim (Outcome-cases (registry_new_key_with_secret w secret priority kr)) [
          | inl (kr1, r) ↦
              load_keys_keeps secrets priority kr1 kr'
                (registry_new_key_with_secret_keeps secret priority kr kr1 h r)
                (rw (r, load_keys) at e)
          | inr (inl (x, r)) ↦ cc (rw (r, load_keys) at e)
          | inr (inr r) ↦ cc (rw (r, load_keys) at e)
        ]

    init_key_registry_keeps :
        (sort : List Secret → List Secret) (namespace prefix label priority : String) (keysize : ℕ)
        (s s' : w.State) (kr : KeyRegistry w)
        → P (new_key_registry w namespace prefix label keysize)
        → init_key_registry w sort namespace prefix label keysize priority s ≡ (ok kr, s')
        → P kr
    unfolding init_key_registry
    init_key_registry_keeps sort namespace prefix label priority keysize s s' kr h e =
        let (listed, s1, _, e1) = bind-eq-ok (w.list_secrets namespace _) _ s e in
        let (legacy, s2, _, e2) = bind-eq-ok (attempt (w.get_secret namespace prefix)) _ s1 e1 in
        let (items, s3, _, e3) = bind-eq-ok (lift (with_legacy_key w listed legacy)) _ s2 e2 in
        load_keys_keeps (sort items) priority (new_key_registry w namespace prefix label keysize) kr
          h (ap (λ t. t.0) e3)

  -- If public keys with one fingerprint are the same, the registry that initKeyRegistry returns has the
  -- latest of its keys as the most recent one, each key stands under the fingerprint of its public key,
  -- and the private keys hold one for the public key of the most recent one, however the secrets were
  -- sorted.
  pub init_key_registry_lem :
      IsCollisionFree p
      → (sort : List Secret → List Secret) (namespace prefix label priority : String) (keysize : ℕ)
        (s s' : w.State) (kr : KeyRegistry w)
      → init_key_registry w sort namespace prefix label keysize priority s ≡ (ok kr, s')
      → IsOrdered w kr.keys kr.most_recent_key × IsHeld w kr
  init_key_registry_lem free sort namespace prefix label priority keysize s s' kr e = (
    init_key_registry_keeps (λ kr. IsOrdered w kr.keys kr.most_recent_key)
        (register_new_key-IsOrdered w) sort namespace prefix label priority keysize s s' kr
        (new_key_registry-IsOrdered w namespace prefix label keysize) e,
    init_key_registry_keeps (IsHeld w) (register_new_key-IsHeld w free) sort namespace prefix label
        priority keysize s s' kr (new_key_registry-IsHeld w namespace prefix label keysize) e,
  )

  -- If the loop that loads the stored keys comes through some of them, and readKey reports an error for
  -- the next one, then the loop panics, whatever keys stand behind it.
  load_keys-unreadable :
      (before after : List Secret) (secret : Secret) (priority : String) (kr kr' : KeyRegistry w)
      (e : Error)
      → load_keys w before priority kr ≡ ok kr'
      → read_key w secret ≡ err e
      → load_keys w (before ++ (secret ∷ after)) priority kr ≡ panic
  unfolding load_keys registry_new_key_with_secret
  load_keys-unreadable [] after secret priority kr kr' e h r =
      rw (r, load_keys, registry_new_key_with_secret)
  load_keys-unreadable (s ∷ before) after secret priority kr kr' e h r =
      elim (Outcome-cases (registry_new_key_with_secret w s priority kr)) [
        | inl (kr1, ok_first) ↦
            rw (ok_first, load_keys)
              (load_keys-unreadable before after secret priority kr1 kr' e
                (rw (ok_first, load_keys) at h) r)
        | inr (inl (x, bad)) ↦ cc (rw (bad, load_keys) at h)
        | inr (inr bad) ↦ cc (rw (bad, load_keys) at h)
      ]
