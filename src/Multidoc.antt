-- ===== src/Multidoc.antt =====
-- pkg/multidocyaml/multidocyaml.go. The decoder of the YAML package is a parameter.
use sealed_secrets.Base.{Bool, Outcome, ok, err, own, Bytes, is_ok, if◌then◌else◌}

pub record YamlPackage : Type 1 where
  pub Decoder : Type 0
  pub new_decoder : Bytes → Decoder
  pub decode : Decoder → Outcome (Unit {0}) × Decoder

module _ (y : YamlPackage) where
  -- isMultiDocumentYAML: a second document decodes; whether the first one did is not looked at.
  unfoldable pub is_multi_document_yaml : Bytes → Bool
  is_multi_document_yaml src =
      let (first, dec) = y.decode (y.new_decoder src) in
      let (second, dec') = y.decode dec in is_ok second

  -- EnsureNotMultiDoc
  unfoldable pub ensure_not_multi_doc : Bytes → Outcome (Unit {0})
  unfolding is_multi_document_yaml
  ensure_not_multi_doc src =
      if is_multi_document_yaml src
      then err (
          own
            "Multistream YAML not supported yet (see https://github.com/bitnami-labs/sealed-secrets/issues/114)")
      else ok tt
