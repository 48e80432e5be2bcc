-- ===== src/Controller/Rotation.antt =====
-- What Rotate makes of a sealed secret can be unsealed with the keys at hand.
use sealed_secrets.Base.{
  ◌≡◌, sym, ap, ◌∙◌, subst, String, Bool, Option-cases, inl, inr, Outcome, ok, err, panic,
  ok-injective,
}
use sealed_secrets.Base.Action.{bind-eq-ok}
use sealed_secrets.Base.GoMap.{IsTable, entries}
use sealed_secrets.Crypto.{Primitives}
use sealed_secrets.Crypto.Laws.{IsCorrect, IsTotal, IsBinding, HasKey}
use sealed_secrets.Sealed.{Secret, SealedSecret, Codecs}
use sealed_secrets.Sealed.Seal.{new_sealed_secret}
use sealed_secrets.Sealed.Unseal.{unseal}
use sealed_secrets.Sealed.Items.{IsBase64}
use sealed_secrets.Sealed.RoundTrip.{IsReopened, applied, unseal-new_sealed_secret}
use sealed_secrets.World.{World}
use sealed_secrets.Registry.{KeyRegistry, private_keys, latest_private_key}
use sealed_secrets.Registry.Held.{IsHeld}
use sealed_secrets.Controller.{Controller}
use sealed_secrets.Controller.Reconcile.{attempt_unseal}
use sealed_secrets.Controller.Rotate.{Documents, wrapped, wrapping, latest, aligned, reseal}

pub wrapped-ok {ℓ} :
    {A : Type ℓ} (text : String) (r : Outcome A) {a : A} → wrapped text r ≡ ok a → r ≡ ok a
wrapped-ok text (ok x) h = h
wrapped-ok text (err e) h = cc
wrapped-ok text panic h = cc

module _ {p : Primitives} (c : Codecs) (w : World p) (d : Documents) where
  -- The latest private key is one of those that unseal.
  latest-HasKey :
      (kr : KeyRegistry w) (k : p.PrivateKey)
      → IsHeld w kr
      → latest_private_key w kr ≡ ok k
      → HasKey p (p.public k) (private_keys w kr)
  unfolding latest_private_key
  latest-HasKey kr k held e = elim (Option-cases kr.most_recent_key) [
    | inl missing ↦ cc (rw (missing, latest_private_key) at e)
    | inr (m, found) ↦
        subst (λ x. HasKey p (p.public x) (private_keys w kr))
          (ok-injective (rw (found, latest_private_key) at e)) (held.latest_held m found)
  ]

  -- What a successful resealing has done.
  pub reseal-ok :
      (s : SealedSecret) (t t' : Controller w) (resealed : SealedSecret)
      → reseal c w d s t ≡ (ok resealed, t')
      → (secret : Secret) × (unseal p c t.accept_deprecated_v1_data
            (aligned d s)
            (private_keys w t.registry)
          ≡ ok secret)
        × (k : p.PrivateKey) × (latest_private_key w t.registry ≡ ok k)
        × (new_sealed_secret p c (p.public k) secret (w.rand t.world)
            ≡ (ok resealed, (new_sealed_secret p c (p.public k) secret (w.rand t.world)).1))
  unfolding reseal attempt_unseal
  reseal-ok s t t' resealed e =
      let (secret, t1, opened, e1) =
        bind-eq-ok (wrapping c w d "error decrypting secret. " (attempt_unseal c w (aligned d s))) _
          t e in
      let (k, t2, got, e2) = bind-eq-ok (latest c w d) _ t1 e1 in
      let same1 : t ≡ t1 = ap (λ x. x.1) opened in
      let same2 : t ≡ t2 = same1 ∙ ap (λ x. x.1) got in
      let made : (new_sealed_secret p c (p.public k) secret (w.rand t2.world)).0 ≡ ok resealed =
        wrapped-ok "error creating new sealed secret. " _ (ap (λ x. x.0) e2) in
      let made' : (new_sealed_secret p c (p.public k) secret (w.rand t.world)).0 ≡ ok resealed =
        subst
          (λ (u : Controller w).
            (new_sealed_secret p c (p.public k) secret (w.rand u.world)).0 ≡ ok resealed)
          (sym same2) made in
      (
        secret,
        wrapped-ok "error decrypting secret. " _ (ap (λ x. x.0) opened),
        k,
        ap (λ (u : Controller w). latest_private_key w u.registry) same1 ∙ ap (λ x. x.0) got,
        ap (λ r. (r, (new_sealed_secret p c (p.public k) secret (w.rand t.world)).1)) made',
      )

  module _ (correct : IsCorrect p) (total : IsTotal p) (binding : IsBinding p)
      (base64 : IsBase64 c) where
    -- With an RSA-OAEP whose decryption undoes the encryption under the same key and label, returns no
    -- panic and fails for every other key and label, ciphertexts shorter than 65536 bytes, and an AES-
    -- GCM and a base64 that decode what they encoded, and a registry whose private keys hold one for
    -- the public key of its most recent key: when Rotate has unsealed an aligned sealed secret to a
    -- Secret whose Data and StringData have no key twice and made a new sealed secret of it, then that
    -- one, applied to a cluster, is unsealed by the keys of the same registry, and keeps the items and
    -- the rest of that Secret as sealing and unsealing does.
    pub reseal-IsReopened :
        (s : SealedSecret) (t t' : Controller w) (resealed cluster : SealedSecret) (secret : Secret)
        (flag : Bool)
        → IsHeld w t.registry
        → unseal p c t.accept_deprecated_v1_data (aligned d s) (private_keys w t.registry)
          ≡ ok secret
        → IsTable (entries secret.secret_data)
        → IsTable (entries secret.string_data)
        → reseal c w d s t ≡ (ok resealed, t')
        → (out : Secret) × (unseal p c flag (applied resealed cluster) (private_keys w t.registry)
            ≡ ok out)
          × IsReopened secret out
    reseal-IsReopened s t t' resealed cluster secret flag held opened tables tables' e =
        let (secret', opened', k, latest_one, sealed) = reseal-ok s t t' resealed e in
        let same : secret' ≡ secret = ok-injective (sym opened' ∙ opened) in
        let sealed' =
          subst
            (λ x.
              new_sealed_secret p c (p.public k) x (w.rand t.world)
              ≡ (ok resealed, (new_sealed_secret p c (p.public k) x (w.rand t.world)).1))
            same sealed in
        unseal-new_sealed_secret p c (p.public k) secret resealed _ _ sealed' correct total binding
          base64 (private_keys w t.registry) (latest-HasKey t.registry k held latest_one) flag
          cluster tables tables'
