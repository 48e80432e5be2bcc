-- ===== src/Kubeseal/Output.antt =====
-- resourceOutput, prettyEncoder, sealedSecretOutput and decodeSealedSecret of pkg/kubeseal/kubeseal.go.
use Prim.Native.Char.{code}
use Prim.Native.String
use sealed_secrets.Base.{
  ℕ, ◌+◌, String, Bool, true, false, ◌&&◌, none, some, own, Outcome, ok, err, Bytes, bytes_of, eqb,
  ltb, ◌==◌, if◌then◌else◌,
}
use sealed_secrets.Base.Action.{Action, lift, ◌>>=◌, ◌>>◌}
use sealed_secrets.Crypto.{Primitives}
use sealed_secrets.Sealed.{SealedSecret}
use sealed_secrets.Kubeseal.{Resource, sealed_resource, Serializers, Session, write}

abbrev pub lower : ℕ → ℕ
lower c = if ltb c b'A' then c else if ltb b'Z' c then c else c + 32

-- strings.ToLower(s) == t, for a text t in lower case without an i or a k, which are the only letters of ASCII
-- that ToLower makes of others.
unfoldable pub equals_lowered : String → String → Bool
equals_lowered String.[] String.[] = true
equals_lowered (String.◌∷◌ c s) (String.◌∷◌ d t) =
    let rest = equals_lowered s t in eqb (lower (code c)) (code d) && rest
equals_lowered _ _ = false

pub data Format : Type 0 where
  json yaml unsupported : Format

abbrev pub format_of : String → Format
format_of output_format =
    if equals_lowered output_format "json"
    then json
    else if output_format == ""
    then json
    else if equals_lowered output_format "yaml"
    then yaml
    else unsupported

abbrev pub content_type_json : String
content_type_json = "application/json"

abbrev pub content_type_yaml : String
content_type_yaml = "application/yaml"

-- SchemeGroupVersion
abbrev pub scheme_group_version : String
scheme_group_version = "bitnami.com/v1alpha1"

module _ (k : Serializers) where
  -- prettyEncoder: the plain serializer if there is no pretty one.
  unfoldable pub pretty_encoder : String → Outcome k.Serializer
  pretty_encoder media_type = elim (k.info media_type) [
    | none ↦ err (own (String.◌++◌ "binary can't serialize " media_type))
    | some found ↦ ok (elim found.0 [ none ↦ found.1 | some pretty ↦ pretty ])
  ]

  -- decodeSealedSecret
  unfoldable pub decode_sealed_secret : Bytes → Outcome SealedSecret
  decode_sealed_secret b = k.decode_into_sealed b

  module _ {p : Primitives} where
    abbrev encoded : String → String → Resource → Action (Session p) Bytes
    encoded content_type gv obj =
        lift (pretty_encoder content_type) >>= λ pretty_enc. lift (k.encode pretty_enc gv obj)

    abbrev pub output_as : Format → String → String → Resource → Action (Session p) (Unit {0})
    output_as json output_format gv obj =
        encoded content_type_json gv obj >>= λ buf. write buf >> write (bytes_of "\n")
    output_as yaml output_format gv obj =
        write (bytes_of "---\n") >> (encoded content_type_yaml gv obj >>= λ buf. write buf)
    output_as unsupported output_format gv obj =
        lift (err (own (String.◌++◌ "unsupported output format: " output_format)))

    -- resourceOutput
    unfoldable pub resource_output : String → String → Resource → Action (Session p) (Unit {0})
    unfolding pretty_encoder
    resource_output output_format gv obj = output_as (format_of output_format) output_format gv obj

    -- sealedSecretOutput
    unfoldable pub sealed_secret_output : String → SealedSecret → Action (Session p) (Unit {0})
    unfolding resource_output
    sealed_secret_output output_format ssecret =
        resource_output output_format scheme_group_version (sealed_resource ssecret)
