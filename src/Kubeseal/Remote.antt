-- ===== src/Kubeseal/Remote.antt =====
-- ValidateSealedSecret and ReEncryptSealedSecret of pkg/kubeseal/kubeseal.go, which ask the controller through the
-- proxy of the API.
use Prim.Native.String
use sealed_secrets.Base.{
  ℕ, String, List, [], ◌∷◌, Option, none, some, own, message, Error, Outcome, ok, err, panic, Bytes,
}
use sealed_secrets.Base.Action.{Action, lift, return, ◌>>=◌, ◌>>◌}
use sealed_secrets.Crypto.{Primitives}
use sealed_secrets.Sealed.{SealedSecret}
use sealed_secrets.Kubeseal.{Reader, Serializers, Session}
use sealed_secrets.Kubeseal.Cluster.{
  Answer, answered, conflict, refused, Address, ClusterClient, get_service_port_name,
}
use sealed_secrets.Kubeseal.Documents.{DocumentDecoder, read_sealed_secrets}
use sealed_secrets.Kubeseal.Output.{sealed_secret_output}

-- fmt.Errorf(text+"%v", err)
abbrev pub with_text : String → Error → Error
with_text text e = own (String.◌++◌ text (message e))

module _ {S : Type 0} (net : ClusterClient S) (controller_ns controller_name : String) where
  abbrev pub controller_address : String → Address
  controller_address port_name = record {
    scheme = "http";
    name = controller_name;
    port = port_name;
  }

  -- The client and the port of the controller.
  abbrev pub connected : Action S (net.RestClient × String)
  connected = do
    conf ← lift net.client_config
    rest_client ← lift (net.new_for_config conf)
    port_name ← get_service_port_name net rest_client controller_ns controller_name
    return (rest_client, port_name)

  abbrev pub sent : String → net.RestClient × String → Bytes → S → Answer × S
  sent suffix to content = net.post to.0 controller_ns (controller_address to.1) suffix content

  module _ (k : Serializers) where
    abbrev pub marshalled : Outcome Bytes → Outcome Bytes
    marshalled (ok content) = ok content
    marshalled (err e) = err (with_text "error while marshalling sealed secret: " e)
    marshalled panic = panic

    abbrev pub validity : SealedSecret → Answer → Outcome (Unit {0})
    validity secret (answered raw) = ok tt
    validity secret (conflict e) =
        err (own (String.◌++◌ "unable to decrypt sealed secret: " secret.meta.name))
    validity secret (refused e) = err (with_text "cannot validate sealed secret: " e)

    -- The body of the loop of ValidateSealedSecret.
    unfoldable pub validate_one : net.RestClient × String → SealedSecret → Action S (Unit {0})
    validate_one to secret = lift (marshalled (k.marshal secret)) >>= λ content s.
        let (answer, s') = sent "/v1/verify" to content s in (validity secret answer, s')

    unfoldable pub validate_all : net.RestClient × String → List SealedSecret → Action S (Unit {0})
    unfolding validate_one
    validate_all to [] = return tt
    validate_all to (secret ∷ secrets) = validate_one to secret >> validate_all to secrets

    abbrev pub readable : Outcome (List SealedSecret) → Outcome (List SealedSecret)
    readable (ok secrets) = ok secrets
    readable (err e) = err (own "unable to decrypt sealed secret")
    readable panic = panic

    -- ValidateSealedSecret; no result if the fuel for the reading is spent.
    unfoldable pub validate_sealed_secret :
        DocumentDecoder SealedSecret → ℕ → Reader → S → Option (Outcome (Unit {0}) × S)
    unfolding validate_all
    validate_sealed_secret y fuel in_ s = elim (read_sealed_secrets y fuel in_) [
      | none ↦ none
      | some secrets ↦ some ((connected >>= λ to. lift (readable secrets) >>= validate_all to) s)
    ]

    module _ (p : Primitives) (output_format : String) where
      -- What a run of kubeseal changes: the cluster and its own session.
      abbrev pub Run : Type 0
      Run = S × Session p

      abbrev pub on_cluster {ℓ} : {A : Type ℓ} → Action S A → Action Run A
      on_cluster m r = let (o, s) = m r.0 in (o, (s, r.1))

      abbrev pub on_session {ℓ} : {A : Type ℓ} → Action (Session p) A → Action Run A
      on_session m r = let (o, t) = m r.1 in (o, (r.0, t))

      abbrev pub answer_to_rotate : Answer → Outcome Bytes
      answer_to_rotate (answered raw) = raw
      answer_to_rotate (conflict e) = err (own "unable to rotate secret")
      answer_to_rotate (refused e) = err (with_text "cannot re-encrypt secret: " e)

      abbrev pub reset : SealedSecret → SealedSecret
      reset ssecret = record ssecret {
        meta = record ssecret.meta {
          creation_timestamp = 0;
          deletion_timestamp = none;
          generation = 0;
        };
      }

      abbrev pub rotate_content : net.RestClient × String → Bytes → Action S Bytes
      rotate_content to content s =
          let (answer, s') = sent "/v1/rotate" to content s in (answer_to_rotate answer, s')

      -- The body of the loop of ReEncryptSealedSecret.
      unfoldable pub re_encrypt_one : net.RestClient × String → SealedSecret → Action Run (Unit {0})
      re_encrypt_one to secret = do
        content ← lift (k.marshal secret)
        body ← on_cluster (rotate_content to content)
        ssecret ← lift (k.unmarshal body)
        on_session (sealed_secret_output k output_format (reset ssecret))

      unfoldable pub re_encrypt_all :
          net.RestClient × String → List SealedSecret → Action Run (Unit {0})
      unfolding re_encrypt_one
      re_encrypt_all to [] = return tt
      re_encrypt_all to (secret ∷ secrets) = re_encrypt_one to secret >> re_encrypt_all to secrets

      -- ReEncryptSealedSecret; no result if the fuel for the reading is spent.
      unfoldable pub re_encrypt_sealed_secret :
          DocumentDecoder SealedSecret → ℕ → Reader → Run → Option (Outcome (Unit {0}) × Run)
      unfolding re_encrypt_all
      re_encrypt_sealed_secret y fuel in_ s = elim (read_sealed_secrets y fuel in_) [
        | none ↦ none
        | some secrets ↦
            some ((on_cluster connected >>= λ to. lift secrets >>= re_encrypt_all to) s)
      ]
