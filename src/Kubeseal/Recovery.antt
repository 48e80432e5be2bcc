-- ===== src/Kubeseal/Recovery.antt =====
-- UnsealSealedSecret of pkg/kubeseal/kubeseal.go.
use sealed_secrets.Base.{ℕ, String, Bool, List, [], Option, none, some, Outcome}
use sealed_secrets.Base.Action.{Action, lift, ◌>>=◌}
use sealed_secrets.Base.GoMap.{Entries}
use sealed_secrets.Crypto.{Primitives}
use sealed_secrets.Sealed.{Secret, Codecs}
use sealed_secrets.Sealed.Unseal.{unseal}
use sealed_secrets.Kubeseal.{Reader, Serializers, Session, secret_resource}
use sealed_secrets.Kubeseal.Documents.{DocumentDecoder}
use sealed_secrets.Kubeseal.Output.{decode_sealed_secret, resource_output}
use sealed_secrets.Kubeseal.PrivateKeys.{KeyFiles, read_priv_keys}

-- v1.SchemeGroupVersion
abbrev pub core_group_version : String
core_group_version = "v1"

module _ {p : Primitives} (c : Codecs) (k : Serializers) (accept_deprecated_v1_data : Bool)
    (output_format : String) where
  -- The part behind the reading of the keys.
  unfoldable pub unseal_with : Reader → Entries p.PrivateKey → Action (Session p) (Unit {0})
  unseal_with r priv_keys = do
    b ← lift r
    ss ← lift (decode_sealed_secret k b)
    sec ← lift (unseal p c accept_deprecated_v1_data ss priv_keys)
    resource_output k output_format core_group_version (secret_resource sec)

  -- UnsealSealedSecret; no result if the fuel for the reading of the keys is spent.
  unfoldable pub unseal_sealed_secret :
      KeyFiles p
      → DocumentDecoder Secret
      → ℕ
      → Reader
      → List String
      → Session p
      → Option (Outcome (Unit {0}) × Session p)
  unfolding unseal_with
  unseal_sealed_secret f y fuel r priv_keys_filenames s =
      elim (read_priv_keys f y fuel priv_keys_filenames []) [
        | none ↦ none
        | some priv_keys ↦ some ((lift priv_keys >>= unseal_with r) s)
      ]
