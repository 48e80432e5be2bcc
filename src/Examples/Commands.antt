-- ===== src/Examples/Commands.antt =====
-- Runs of the command line in toy surroundings.
use sealed_secrets.Base.{
  ℕ, ◌≡◌, refl, true, false, [], ◌∷◌, none, some, err, external, ok, panic, bytes_of, utf8,
}
use sealed_secrets.Base.Action.{attempt}
use sealed_secrets.Base.GoMap.{get, insert, lookup, without}
use sealed_secrets.Scope.{
  strict_scope, encryption_label, secret_scope, update_scope_annotations, delete_all,
  strip_last_applied_annotations,
}
use sealed_secrets.Controller.{has_suffix}
use sealed_secrets.Crypto.{uint16, public_key_fingerprint}
use sealed_secrets.Crypto.Decrypt.{open_parts, single_decrypt, hybrid_decrypt}
use sealed_secrets.Sealed.{SealedSecret}
use sealed_secrets.Sealed.Unseal.{
  unseal, decrypt_items, render_items, without_errors, decrypt_item, place,
}
use sealed_secrets.Kubeseal.Cluster.{
  ClusterClient, Certificates, rsa_public, refused, get_service_port_name, open_cert_cluster,
  open_cert,
}
use sealed_secrets.Kubeseal.Documents.{DocumentDecoder, end_of_file}
use sealed_secrets.Kubeseal.Output.{
  equals_lowered, pretty_encoder, decode_sealed_secret, resource_output,
}
use sealed_secrets.Kubeseal.PrivateKeys.{
  parse_priv_key, read_priv_keys_from_file, add_priv_keys, read_priv_keys,
}
use sealed_secrets.Kubeseal.Recovery.{unseal_with, unseal_sealed_secret}
use sealed_secrets.Cli.{CliFlags, Surroundings, output_name, format_for}
use sealed_secrets.Cli.Run.{State, command, run_into, input_of, run_cli}
use sealed_secrets.Cli.Process.{Parser, run_parsed, main_e, run_main}
use sealed_secrets.Cli.Exits.{given, run_main-told}
use sealed_secrets.Examples.Toy.{key_a, toy, toy_codecs}
use sealed_secrets.Examples.Sealing.{a_sealed_secret}
use sealed_secrets.Examples.Client.{toy_docs, toy_serializers, toy_files, toy_file, toy_namespace}

-- A cluster whose service has no ports.
abbrev no_ports : ClusterClient (Unit {0})
no_ports = record {
  Config = Unit;
  RestClient = Unit;
  client_config = ok tt;
  accepting = λ types conf. conf;
  new_for_config = λ conf. ok tt;
  get_service = λ client ns name t. (ok [], t);
  proxy_get = λ client ns address path t. (ok (ok []), t);
  post = λ client ns address suffix content t. (refused (external "no route"), t);
  open_file = λ name t. (ok (ok []), t);
  http_get = λ uri t. (err (external "no route"), t);
  parse_url = λ uri. ok "";
}

abbrev toy_certificates : Certificates toy
toy_certificates = record {
  Certificate = ℕ;
  parse_certs_pem = λ bytes. ok bytes;
  public_key = λ cert. rsa_public key_a;
  not_after = λ cert. cert;
}

abbrev no_sealed_docs : DocumentDecoder SealedSecret
no_sealed_docs = record {
  Decoder = Unit;
  new_decoder = λ r. tt;
  next = λ dec. (a_sealed_secret, end_of_file, dec);
  is_empty = λ s. true;
}

abbrev toy_surroundings : Surroundings toy (Unit {0})
toy_surroundings = record {
  codecs = toy_codecs;
  serializers = toy_serializers;
  secret_decoder = toy_docs;
  sealed_decoder = no_sealed_docs;
  fuel = 2;
  net = no_ports;
  certificates = toy_certificates;
  key_files = toy_files;
  files = toy_file;
  client = toy_namespace;
  namespace_error = none;
  now = 0;
  accept_deprecated_v1_data = false;
  stdin = ok [];
  open_input = λ name. err (external "no such file");
  temp_file = λ name. ok tt;
  close_atomically_replace = λ name bytes. none;
}

abbrev no_flags : CliFlags
no_flags = record {
  cert_url = "";
  controller_ns = "kube-system";
  controller_name = "sealed-secrets-controller";
  output_format = "json";
  output_file_name = "f";
  input_file_name = "";
  dump_cert = false;
  allow_empty_data = false;
  validate_secret = false;
  merge_into = "";
  raw = false;
  secret_name = "";
  from_file = [];
  sealing_scope = strict_scope;
  re_encrypt = false;
  unseal = false;
  priv_keys = [];
  help = false;
}

abbrev unseal_flags : CliFlags
unseal_flags = record no_flags { unseal = true; priv_keys = "b" ∷ "a" ∷ [] }

abbrev fresh_state : State toy_surroundings
fresh_state = record {
  cluster = tt;
  session = record { random = tt; out = [] };
  merge_file = [];
  replaced = none;
}

abbrev saved_state : State toy_surroundings
saved_state = record {
  cluster = tt;
  session = record { random = tt; out = 7 ∷ 10 ∷ [] };
  merge_file = [];
  replaced = some ("f", 7 ∷ 10 ∷ []);
}

run_cli_example : run_cli toy_surroundings unseal_flags fresh_state ≡ some (ok tt, saved_state)
unfolding run_cli input_of run_into command output_name format_for has_suffix unseal_sealed_secret
    unseal_with read_priv_keys read_priv_keys_from_file parse_priv_key add_priv_keys
    public_key_fingerprint decode_sealed_secret resource_output pretty_encoder equals_lowered unseal
    decrypt_items render_items without_errors decrypt_item hybrid_decrypt single_decrypt uint16
    open_parts place get lookup insert bytes_of utf8 encryption_label secret_scope
    update_scope_annotations delete_all without strip_last_applied_annotations
run_cli_example = refl

abbrev toy_parser : Parser
toy_parser = record {
  parse = λ args. ok (unseal_flags, false);
  parse_go = ok tt;
  build_info = none;
}

run_main_example :
    run_main toy_surroundings toy_parser "UNKNOWN" [] fresh_state
    ≡ some (record { status = 0; complaint = "" }, saved_state)
unfolding run_main main_e run_parsed
run_main_example = rw run_cli_example refl

run_main-told_example : saved_state.replaced ≡ some ("f", saved_state.session.out)
run_main-told_example =
    run_main-told toy_surroundings toy_parser "UNKNOWN" [] unseal_flags "f" fresh_state saved_state
      (record { status = 0; complaint = "" }) refl refl refl (given refl) refl (λ e. cc e)
      (λ e. cc e) run_main_example

-- The panic for a service without ports leaves an empty output file.
run_cli_panic_example :
    run_cli toy_surroundings no_flags fresh_state
    ≡ some (panic, record fresh_state { replaced = some ("f", []) })
unfolding run_cli input_of run_into command output_name format_for open_cert open_cert_cluster
    get_service_port_name attempt
run_cli_panic_example = refl
