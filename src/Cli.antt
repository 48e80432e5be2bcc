-- ===== src/Cli.antt =====
-- The command line: runCLI of cmd/kubeseal/main.go (Cli/Run), and its process (Cli/Process). The flags are parsed, and
-- what a run changes is a state: the cluster, the output w, the file to merge into, and the output file.
pub mod Run
pub mod Saved
pub mod Process
pub mod Exits
use sealed_secrets.Base.{
  ℕ, String, Bool, true, false, not, ◌&&◌, ◌||◌, List, [], ◌∷◌, Option, none, some, own, Error,
  Outcome, ok, err, panic, Bytes, bytes_of, ◌==◌, if◌then◌else◌, eqb, length,
}
use sealed_secrets.Scope.{SealingScope}
use sealed_secrets.Controller.{has_suffix}
use sealed_secrets.Crypto.{Primitives}
use sealed_secrets.Sealed.{Secret, SealedSecret, Codecs}
use sealed_secrets.Kubeseal.{Reader, Serializers, Session}
use sealed_secrets.Kubeseal.Cluster.{ClusterClient, Certificates}
use sealed_secrets.Kubeseal.Documents.{DocumentDecoder}
use sealed_secrets.Kubeseal.Merge.{FileCalls}
use sealed_secrets.Kubeseal.Prepare.{ClientNamespace}
use sealed_secrets.Kubeseal.PrivateKeys.{KeyFiles}

-- cliFlags, without the path of the configuration
pub record CliFlags : Type 0 where
  pub cert_url : String
  pub controller_ns : String
  pub controller_name : String
  pub output_format : String
  pub output_file_name : String
  pub input_file_name : String
  pub dump_cert : Bool
  pub allow_empty_data : Bool
  pub validate_secret : Bool
  pub merge_into : String
  pub raw : Bool
  pub secret_name : String
  pub from_file : List String
  pub sealing_scope : SealingScope
  pub re_encrypt : Bool
  pub unseal : Bool
  pub priv_keys : List String
  pub help : Bool

-- What a run is given from outside the repository. `now` is the time at which the certificate is checked,
-- `namespace_error` the error of clientConfig.Namespace(), `temp_file` the outcome of renameio.TempFile,
-- and `close_atomically_replace` the error of CloseAtomicallyReplace for a name and the bytes that were written, after
-- which the old file stands.
pub record Surroundings (p : Primitives) (S : Type 0) : Type 1 where
  pub codecs : Codecs
  pub serializers : Serializers
  pub secret_decoder : DocumentDecoder Secret
  pub sealed_decoder : DocumentDecoder SealedSecret
  pub fuel : ℕ
  pub net : ClusterClient S
  pub certificates : Certificates p
  pub key_files : KeyFiles p
  pub files : FileCalls
  pub client : ClientNamespace
  pub namespace_error : Option Error
  pub now : ℕ
  pub accept_deprecated_v1_data : Bool
  pub stdin : Reader
  pub open_input : String → Outcome Reader
  pub temp_file : String → Outcome (Unit {0})
  pub close_atomically_replace : String → Bytes → Option Error

-- reEncrypt updates its input in place unless an output file is given.
unfoldable pub output_name : CliFlags → String
output_name flags =
    if flags.re_encrypt && flags.output_file_name == "" && not (flags.input_file_name == "")
    then flags.input_file_name
    else flags.output_file_name

-- The extension of an output file decides on the format.
unfoldable pub format_for : CliFlags → String → String
unfolding has_suffix bytes_of
format_for flags name =
    if has_suffix (bytes_of name) (bytes_of ".yaml") || has_suffix (bytes_of name) (bytes_of ".yml")
    then "yaml"
    else flags.output_format

abbrev pub is_empty {ℓ} : {A : Type ℓ} → List A → Bool
is_empty l = eqb (length l) 0
