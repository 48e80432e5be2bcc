-- ===== src/Server/Renewal.antt =====
-- kubeseal --re-encrypt against the server of the controller.
use sealed_secrets.Base.{◌≡◌, refl, sym, ap, ◌∙◌, subst, String, Bool, Outcome, ok, Bytes}
use sealed_secrets.Base.Action.{bind-eq-ok, lift, ◌>>=◌}
use sealed_secrets.Base.GoMap.{entries, IsTable}
use sealed_secrets.Crypto.{Primitives}
use sealed_secrets.Crypto.Laws.{IsCorrect, IsTotal, IsBinding}
use sealed_secrets.Sealed.{Secret, SealedSecret, Codecs}
use sealed_secrets.Sealed.Unseal.{unseal}
use sealed_secrets.Sealed.Items.{IsBase64}
use sealed_secrets.Sealed.RoundTrip.{IsReopened, applied}
use sealed_secrets.World.{World, sealed}
use sealed_secrets.Multidoc.{YamlPackage}
use sealed_secrets.Registry.{private_keys}
use sealed_secrets.Registry.Held.{IsHeld}
use sealed_secrets.Controller.{Controller}
use sealed_secrets.Controller.Rotate.{Documents, aligned, reseal}
use sealed_secrets.Controller.Rotation.{reseal-ok, reseal-IsReopened}
use sealed_secrets.Server.{RateLimiter}
use sealed_secrets.Kubeseal.{Serializers, Session}
use sealed_secrets.Kubeseal.Cluster.{Answer, answered, conflict, refused, ClusterClient}
use sealed_secrets.Kubeseal.Output.{sealed_secret_output}
use sealed_secrets.Kubeseal.Remote.{
  answer_to_rotate, on_cluster, on_session, sent, reset, rotate_content, re_encrypt_one,
}
use sealed_secrets.Server.Validation.{Site}
use sealed_secrets.Server.Rotation.{IsRotationProxy, serve_rotate-ok}

module _ {p : Primitives} (c : Codecs) (w : World p) (d : Documents) (y : YamlPackage)
    (l : RateLimiter) where
  module _ (net : ClusterClient (Site c w d y l)) (proxy : IsRotationProxy c w d y l net)
      (k : Serializers) (ns name output_format : String) where
    -- A sealed secret was opened, sealed again with the latest key and written, and the controller opens what was
    -- written.
    pub record IsRenewed (secret cluster : SealedSecret) (flag : Bool) (t : Controller w)
        (s s' : Session p) : Type 0 where
      pub old : Secret
      pub made : SealedSecret
      pub opened : Secret
      pub was_opened :
          unseal p c t.accept_deprecated_v1_data (aligned d secret) (private_keys w t.registry)
          ≡ ok old
      pub is_written : sealed_secret_output k output_format made s ≡ (ok tt, s')
      pub is_opened : unseal p c flag (applied made cluster) (private_keys w t.registry) ≡ ok opened
      pub is_reopened : IsReopened old opened

    -- The two sides agree on the JSON of a sealed secret and of what resealing makes of it.
    pub record Agree (t : Controller w) (secret : SealedSecret) : Type 0 where
      pub content : Bytes
      pub marshalled : k.marshal secret ≡ ok content
      pub decoded : d.decode content ≡ ok (sealed secret)
      pub returned :
          (made : SealedSecret) (b : Bytes)
          → (reseal c w d secret t).0 ≡ ok made
          → d.marshal made ≡ ok b
          → k.unmarshal b ≡ ok made

    answered-reseal :
        (to : net.RestClient × String) (secret : SealedSecret) (t t' : Site c w d y l)
        (content body : Bytes)
        → d.decode content ≡ ok (sealed secret)
        → rotate_content net ns name k p output_format to content t ≡ (ok body, t')
        → (made : SealedSecret) × (reseal c w d secret t.0 ≡ (ok made, t'.0))
          × (d.marshal made ≡ ok body)
    answered-reseal to secret t t' content body got e =
        by_answer (sent net ns name "/v1/rotate" to content t) refl e
      where
        by_answer :
            (x : Answer × Site c w d y l)
            → sent net ns name "/v1/rotate" to content t ≡ x
            → ◌≡◌ {A = Outcome Bytes × Site c w d y l}
                (answer_to_rotate net ns name k p output_format x.0, x.1)
                (ok body, t')
            → (made : SealedSecret) × (reseal c w d secret t.0 ≡ (ok made, t'.0))
              × (d.marshal made ≡ ok body)
        by_answer (answered raw, u) is_x e =
            let (reply, served, status, same) =
              proxy.only_success to ns name content t u raw is_x in
            let (made, resealed, marshalled) =
              serve_rotate-ok c w d y l proxy.headers content secret t.0 u.0 t.1 u.1 reply got
                served status in
            (
              made,
              resealed ∙ ap (λ v. (ok made, v)) (ap (λ x. x.1.0) e),
              marshalled ∙ sym same ∙ ap (λ x. x.0) e,
            )
        by_answer (conflict failure, u) is_x e = absurd (cc e)
        by_answer (refused failure, u) is_x e = absurd (cc e)

    abbrev reset_of : SealedSecret → SealedSecret
    reset_of = reset net ns name k p output_format

    written_by :
        (made : SealedSecret) (body : Bytes) (t t' : Site c w d y l) (s s' : Session p)
        → k.unmarshal body ≡ ok made
        → (lift (k.unmarshal body) >>= λ ssecret.
              on_session net ns name k p output_format
                (sealed_secret_output k output_format (reset_of ssecret)))
            (t, s)
          ≡ (ok tt, (t', s'))
        → sealed_secret_output k output_format (reset_of made) s ≡ (ok tt, s')
    written_by made body t t' s s' returned e = ap (λ x. (x.0, x.1.1)) (rw returned at e)

    -- What follows the answer of the server.
    after_answer :
        (to : net.RestClient × String) (secret : SealedSecret) (t t' u : Site c w d y l)
        (s s' s1 : Session p) (body : Bytes) (agree : Agree t.0 secret)
        → ◌≡◌ {A = Outcome Bytes × (Site c w d y l × Session p)}
            (on_cluster net ns name k p output_format
              (rotate_content net ns name k p output_format to agree.content)
              (t, s))
            (ok body, (u, s1))
        → (lift (k.unmarshal body) >>= λ ssecret.
              on_session net ns name k p output_format
                (sealed_secret_output k output_format (reset_of ssecret)))
            (u, s1)
          ≡ (ok tt, (t', s'))
        → (made : SealedSecret) × (v : Controller w) × (reseal c w d secret t.0 ≡ (ok made, v))
          × (sealed_secret_output k output_format (reset_of made) s ≡ (ok tt, s'))
    after_answer to secret t t' u s s' s1 body agree asked e =
        let (made, resealed, marshalled) =
          answered-reseal to secret t u agree.content body agree.decoded
            (ap (λ x. (x.0, x.1.0)) asked) in
        let same : s ≡ s1 = ap (λ x. x.1.1) asked in
        (
          made,
          u.0,
          resealed,
          subst (λ v. sealed_secret_output k output_format (reset_of made) v ≡ (ok tt, s'))
              (sym same)
              (written_by made body u t' s1 s'
                (agree.returned made body (ap (λ x. x.0) resealed) marshalled) e),
        )

    -- The steps of a successful re-encryption: resealing by the controller, and the output.
    re_encrypt_one-ok :
        (to : net.RestClient × String) (secret : SealedSecret) (t t' : Site c w d y l)
        (s s' : Session p)
        → Agree t.0 secret
        → re_encrypt_one net ns name k p output_format to secret (t, s) ≡ (ok tt, (t', s'))
        → (made : SealedSecret) × (u : Controller w) × (reseal c w d secret t.0 ≡ (ok made, u))
          × (sealed_secret_output k output_format (reset_of made) s ≡ (ok tt, s'))
    unfolding re_encrypt_one
    re_encrypt_one-ok to secret t t' s s' agree e =
        let on_net =
          on_cluster net ns name k p output_format
            (rotate_content net ns name k p output_format to agree.content) in
        let (body, (u, s1), asked, e1) =
          bind-eq-ok on_net _ (t, s) (rw (agree.marshalled, re_encrypt_one) at e) in
        after_answer to secret t t' u s s' s1 body agree asked e1

    module _ (correct : IsCorrect p) (total : IsTotal p) (binding : IsBinding p)
        (base64 : IsBase64 c) where
      resealed-IsRenewed :
          (secret cluster made : SealedSecret) (flag : Bool) (t u : Controller w) (s s' : Session p)
          → IsHeld w t.registry
          → ((old : Secret)
              → unseal p c t.accept_deprecated_v1_data
                  (aligned d secret)
                  (private_keys w t.registry)
                ≡ ok old
              → IsTable (entries old.secret_data) × IsTable (entries old.string_data))
          → reseal c w d secret t ≡ (ok made, u)
          → sealed_secret_output k output_format (reset_of made) s ≡ (ok tt, s')
          → IsRenewed secret cluster flag t s s'
      resealed-IsRenewed secret cluster made flag t u s s' held tables resealed written =
          let (old, was_opened, key, latest_one, sealing) =
            reseal-ok c w d secret t u made resealed in
          let (tables0, tables1) = tables old was_opened in
          let (opened, is_opened, is_reopened) =
            reseal-IsReopened c w d correct total binding base64 secret t u made cluster old flag
              held was_opened tables0 tables1 resealed in
          record {
            old = old;
            made = reset_of made;
            opened = opened;
            was_opened = was_opened;
            is_written = written;
            is_opened = is_opened;
            is_reopened = is_reopened;
          }

      -- With an RSA-OAEP whose decryption undoes the encryption under the same key and label, returns
      -- no panic and fails for every other key and label, ciphertexts shorter than 65536 bytes, and an
      -- AES-GCM and a base64 that decode what they encoded, and a proxy of the API that reports as a
      -- success only the body of a reply with the status 200: when kubeseal and the controller agree on
      -- the JSON of a sealed secret, the private keys of the controller's registry hold one for the
      -- public key of its most recent key, and the body of the loop of ReEncryptSealedSecret succeeds,
      -- then the controller could open the sealed secret with its template aligned, and what was
      -- written to the output is a sealed secret that the controller opens, when it is applied to the
      -- cluster under its own name, namespace and annotations with whatever else the cluster has of it,
      -- to the items and the rest of what it opened before, if the Data and the StringData of that have
      -- no key twice.
      pub re_encrypt_one-IsRenewed :
          (to : net.RestClient × String) (secret cluster : SealedSecret) (flag : Bool)
          (t t' : Site c w d y l) (s s' : Session p)
          → Agree t.0 secret
          → IsHeld w t.0.registry
          → ((old : Secret)
              → unseal p c t.0.accept_deprecated_v1_data
                  (aligned d secret)
                  (private_keys w t.0.registry)
                ≡ ok old
              → IsTable (entries old.secret_data) × IsTable (entries old.string_data))
          → re_encrypt_one net ns name k p output_format to secret (t, s) ≡ (ok tt, (t', s'))
          → IsRenewed secret cluster flag t.0 s s'
      re_encrypt_one-IsRenewed to secret cluster flag t t' s s' agree held tables e =
          let (made, u, resealed, written) = re_encrypt_one-ok to secret t t' s s' agree e in
          resealed-IsRenewed secret cluster made flag t.0 u s s' held tables resealed written
