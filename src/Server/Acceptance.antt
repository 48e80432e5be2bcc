-- ===== src/Server/Acceptance.antt =====
-- When the keys of the controller unseal every sealed secret, kubeseal --validate says so.
use sealed_secrets.Base.{Each, ℕ, ◌≡◌, refl, sym, ap, subst, String, List, [], ◌∷◌, some, ok, Bytes}
use sealed_secrets.Base.Action.{attempt}
use sealed_secrets.Base.GoMap.{Entries}
use sealed_secrets.Crypto.{Primitives}
use sealed_secrets.Sealed.{SealedSecret, Codecs}
use sealed_secrets.World.{World, sealed}
use sealed_secrets.Multidoc.{YamlPackage, ensure_not_multi_doc}
use sealed_secrets.Controller.Rotate.{Documents, attempt_unseal_content}
use sealed_secrets.Controller.Reconcile.{attempt_unseal}
use sealed_secrets.Server.{Request, RateLimiter, admitted, httpserver, handle_verify}
use sealed_secrets.Server.Service.{serve}
use sealed_secrets.Server.Replies.{verify_request, coded}
use sealed_secrets.Server.Validation.{Site, Unseals, Encoded, IsProxy, serve-Kept}
use sealed_secrets.Kubeseal.{Reader, Serializers}
use sealed_secrets.Kubeseal.Cluster.{ClusterClient, get_service_port_name}
use sealed_secrets.Kubeseal.Documents.{DocumentDecoder, read_sealed_secrets}
use sealed_secrets.Kubeseal.Remote.{validate_one, validate_all, validate_sealed_secret}

module _ {p : Primitives} (c : Codecs) (w : World p) (d : Documents) (y : YamlPackage)
    (l : RateLimiter) where
  -- The limiter lets every request through.
  abbrev pub IsOpen : Type 0
  IsOpen =
      (r : Request) (s : l.Store) → (limits : Entries String) × ((l.limit r s).0 ≡ admitted limits)

  served_valid :
      (headers : Entries String) (content : Bytes) (t : Site c w d y l) (secret : SealedSecret)
      → IsOpen
      → ensure_not_multi_doc y content ≡ ok tt
      → d.decode content ≡ ok (sealed secret)
      → Unseals c w d y l t.0 secret
      → (limits : Entries String) × ((serve w c d y l (verify_request headers content) t).0
          ≡ ok (coded limits 200))
  unfolding httpserver handle_verify attempt_unseal_content attempt_unseal
  served_valid headers content t secret is_open one got (out, opened) =
      let (limits, let_through) = is_open (verify_request headers content) t.1 in
      (limits, rw (let_through, one, got, opened) refl)

  module _ (is_open : IsOpen) (net : ClusterClient (Site c w d y l)) (proxy : IsProxy c w d y l net)
      (k : Serializers) (ns name : String) where
    accept_one :
        (to : net.RestClient × String) (secret : SealedSecret) (t : Site c w d y l)
        → Encoded c w d y l k secret
        → Unseals c w d y l t.0 secret
        → (t' : Site c w d y l) × (validate_one net ns name k to secret t ≡ (ok tt, t'))
          × (t'.0 ≡ t.0)
    unfolding validate_one
    accept_one to secret t (content, made, one, got) opened =
        let served = serve w c d y l (verify_request proxy.headers content) t in
        let (limits, valid) = served_valid proxy.headers content t secret is_open one got opened in
        let (raw, said) =
          proxy.succeeds to ns name content [] t served.1 (coded limits 200)
            (ap (λ o. (o, served.1)) valid) refl in
        (served.1, rw (made, said, validate_one) refl, serve-Kept c w d y l proxy.headers content t)

    accept_all :
        (to : net.RestClient × String) (secrets : List SealedSecret) (t : Site c w d y l)
        → Each (Encoded c w d y l k) secrets
        → Each (Unseals c w d y l t.0) secrets
        → (t' : Site c w d y l) × (validate_all net ns name k to secrets t ≡ (ok tt, t'))
    unfolding validate_all
    accept_all to [] t encoded opened = (t, refl)
    accept_all to (secret ∷ secrets) t (first, others) (opens, rest) =
        let (u, accepted, same) = accept_one to secret t first opens in
        let (t', e) =
          accept_all to secrets u others
            (subst (λ v. Each (Unseals c w d y l v) secrets) (sym same) rest) in
        (t', rw accepted e)

    -- With a proxy of the API that hands requests to the controller's server and reports a reply with
    -- the status 200 as a success, a rate limiter that lets every request through, and a configuration,
    -- a client and a service with a port at hand: when the reading ends with a list of sealed secrets
    -- that the controller decodes from what json.Marshal makes of them, and the keys of the controller
    -- unseal each of them, then ValidateSealedSecret succeeds.
    pub validate_sealed_secret-Unseals_total :
        (z : DocumentDecoder SealedSecret) (fuel : ℕ) (in_ : Reader) (secrets : List SealedSecret)
        (t : Site c w d y l) (conf : net.Config) (client : net.RestClient) (port : String)
        (ports : List String)
        → net.client_config ≡ ok conf
        → net.new_for_config conf ≡ ok client
        → (net.get_service client ns name t).0 ≡ ok (port ∷ ports)
        → read_sealed_secrets z fuel in_ ≡ some (ok secrets)
        → Each (Encoded c w d y l k) secrets
        → Each (Unseals c w d y l t.0) secrets
        → (t' : Site c w d y l) × (validate_sealed_secret net ns name k z fuel in_ t
            ≡ some (ok tt, t'))
    unfolding validate_sealed_secret get_service_port_name attempt
    validate_sealed_secret-Unseals_total z fuel in_ secrets t conf client port ports e1 e2 e3 got
          encoded opens =
        let u = (net.get_service client ns name t).1 in
        let (t', e) =
          accept_all (client, port) secrets u encoded
            (subst (λ (v : Site c w d y l). Each (Unseals c w d y l v.0) secrets)
              (sym (proxy.keeps client ns name t)) opens) in
        (t', rw (got, e1, e2, e3, validate_sealed_secret) (ap (λ x. some x) e))
