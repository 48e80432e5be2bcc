-- ===== src/Startup/Stored.antt =====
-- A key that writeKey has stored.
use sealed_secrets.Base.{ap, ◌∙◌, ◌≡◌, String, [], ◌∷◌, ok, ok-injective}
use sealed_secrets.Base.Action.{bind-eq-ok, lift}
use sealed_secrets.Crypto.{Primitives}
use sealed_secrets.Sealed.{Secret}
use sealed_secrets.World.{World}
use sealed_secrets.Registry.{KeyRegistry}
use sealed_secrets.Keys.{key_secret, write_key}

module _ {p : Primitives} (w : World p) where
  -- A key and its certificate stand in a Secret that the cluster was asked to create, and has, in the
  -- registry's namespace.
  pub record IsKeyStored (kr : KeyRegistry w) (annotations labels : String)
      (priv_key : p.PrivateKey) (cert : w.Cert) (before after : w.State) (name : String)
      : Type 0 where
    pub secret : Secret
    pub created : Secret
    pub of_key :
        key_secret w priv_key
          (cert ∷ [])
          kr.namespace
          kr.key_label
          kr.key_prefix
          annotations
          labels
          0
        ≡ ok secret
    pub is_created : w.create_secret kr.namespace secret before ≡ (ok created, after)
    pub is_named : created.meta.name ≡ name

  pub write_key-IsKeyStored :
      (kr : KeyRegistry w) (annotations labels : String) (priv_key : p.PrivateKey) (cert : w.Cert)
      (s1 s2 : w.State) (name : String)
      → write_key w priv_key
          (cert ∷ [])
          kr.namespace
          kr.key_label
          kr.key_prefix
          annotations
          labels
          0
          s1
        ≡ (ok name, s2)
      → IsKeyStored kr annotations labels priv_key cert s1 s2 name
  unfolding write_key
  write_key-IsKeyStored kr annotations labels priv_key cert s1 s2 name e =
      let made =
        key_secret w priv_key (cert ∷ []) kr.namespace kr.key_label kr.key_prefix annotations labels
          0 in
      let (secret, s', lifted, e1) = bind-eq-ok (lift made) _ s1 e in
      let (created, s'', asked, e2) = bind-eq-ok (w.create_secret kr.namespace secret) _ s' e1 in
      record {
        secret = secret;
        created = created;
        of_key = ap (λ x. x.0) lifted;
        is_created =
            ap (w.create_secret kr.namespace secret) (ap (λ x. x.1) lifted)
            ∙ asked
            ∙ ap (λ x. (ok created, x)) (ap (λ x. x.1) e2);
        is_named = ok-injective (ap (λ x. x.0) e2);
      }
