-- ===== src/Cli/Run.antt =====
-- The run: which command the flags choose, and when the output file is replaced.
use Prim.Native.String
use sealed_secrets.Base.{
  String, not, ◌&&◌, [], ◌∷◌, Option, none, some, own, Error, Outcome, ok, err, panic, Bytes, ◌==◌,
  if◌then◌else◌, ltb,
}
use sealed_secrets.Base.Action.{Action, lift, return}
use sealed_secrets.Base.Fueled.{Fueled, total, ◌>>=◌}
use sealed_secrets.Scope.{scope_code}
use sealed_secrets.Crypto.{Primitives}
use sealed_secrets.Kubeseal.{Reader, Session, write}
use sealed_secrets.Kubeseal.Cluster.{open_cert, parse_key}
use sealed_secrets.Kubeseal.Merge.{seal_merging_into}
use sealed_secrets.Kubeseal.Prepare.{SealOptions}
use sealed_secrets.Kubeseal.Raw.{encrypt_secret_item, parse_from_file}
use sealed_secrets.Kubeseal.Recovery.{unseal_sealed_secret}
use sealed_secrets.Kubeseal.Remote.{validate_sealed_secret, re_encrypt_sealed_secret}
use sealed_secrets.Kubeseal.Seal.{seal}
use sealed_secrets.Cli.{CliFlags, Surroundings, output_name, format_for, is_empty}

module _ {p : Primitives} {S : Type 0} (w : Surroundings p S) where
  -- What a run changes; `replaced` is the output file with its new content, once it has replaced the old one.
  pub record State : Type 0 where
    pub cluster : S
    pub session : Session p
    pub merge_file : w.files.File
    pub replaced : Option (String × Bytes)

  abbrev pub on_cluster {ℓ} : {A : Type ℓ} → Action S A → Fueled State A
  on_cluster m t = let (r, s) = m t.cluster in some (r, record t { cluster = s })

  abbrev pub on_session {ℓ} : {A : Type ℓ} → Action (Session p) A → Fueled State A
  on_session m t = let (r, s) = m t.session in some (r, record t { session = s })

  abbrev pub with_session :
      State → Option (Outcome (Unit {0}) × Session p) → Option (Outcome (Unit {0}) × State)
  with_session t none = none
  with_session t (some (r, s)) = some (r, record t { session = s })

  abbrev pub with_cluster :
      State → Option (Outcome (Unit {0}) × S) → Option (Outcome (Unit {0}) × State)
  with_cluster t none = none
  with_cluster t (some (r, s)) = some (r, record t { cluster = s })

  abbrev pub with_both :
      State → Option (Outcome (Unit {0}) × (S × Session p)) → Option (Outcome (Unit {0}) × State)
  with_both t none = none
  with_both t (some (r, s)) = some (r, record t { cluster = s.0; session = s.1 })

  abbrev pub with_file :
      State
      → Option (Outcome (Unit {0}) × (Session p × w.files.File))
      → Option (Outcome (Unit {0}) × State)
  with_file t none = none
  with_file t (some (r, s)) = some (r, record t { session = s.0; merge_file = s.1 })

module _ {p : Primitives} {S : Type 0} (w : Surroundings p S) (flags : CliFlags) where
  abbrev pub options : String → SealOptions
  options output_format = record {
    output_format = output_format;
    scope = flags.sealing_scope;
    allow_empty_data = flags.allow_empty_data;
    override_name = flags.secret_name;
    override_namespace = "";
  }

  -- The message, without the scope that ends it.
  abbrev pub must_provide : String → Error
  must_provide flag =
      own (String.◌++◌ "must provide the " (String.◌++◌ flag " flag with --raw and --scope"))

  -- The namespace for a raw item
  unfoldable pub raw_namespace : Outcome String
  raw_namespace =
      if ltb (scope_code flags.sealing_scope) 2
      then elim w.namespace_error [
        | some e ↦ err e
        | none ↦
            if w.client.ns == ""
            then err (must_provide "--namespace")
            else if flags.secret_name == "" && ltb (scope_code flags.sealing_scope) 1
            then err (must_provide "--name")
            else ok w.client.ns
      ]
      else ok ""

  -- The plaintext of a raw item
  unfoldable pub raw_data : Outcome Bytes
  raw_data = elim flags.from_file [
    | [] ↦ w.stdin
    | file ∷ more ↦
        if is_empty more
        then w.key_files.read_file (parse_from_file file).1
        else err (own "must provide only one --from-file when encrypting a single item with --raw")
  ]

  unfoldable pub encrypt_raw : p.PublicKey → Fueled (State w) (Unit {0})
  unfolding raw_namespace raw_data
  encrypt_raw pub_key = total (lift raw_namespace) >>= λ ns. total (lift raw_data) >>= λ plaintext.
      on_session w
        (encrypt_secret_item w.codecs flags.secret_name ns plaintext flags.sealing_scope pub_key)

  -- The commands that need the certificate
  unfoldable pub with_certificate : String → Reader → Reader → Fueled (State w) (Unit {0})
  unfolding encrypt_raw
  with_certificate output_format input f =
      if flags.dump_cert
      then (total (lift f) >>= λ bytes. on_session w (write bytes))
      else (total (lift (parse_key w.certificates w.now f)) >>= λ pub_key.
          if not (flags.merge_into == "")
          then (λ t. with_file w t (
              seal_merging_into w.codecs w.serializers pub_key (options output_format) w.client
                w.files w.secret_decoder w.fuel input flags.merge_into (t.session, t.merge_file)))
          else if flags.raw
          then encrypt_raw pub_key
          else (λ t. with_session w t (
              seal w.codecs w.serializers pub_key (options output_format) w.client w.secret_decoder
                w.fuel input t.session)))

  -- The command that the flags choose.
  unfoldable pub command : String → Reader → Fueled (State w) (Unit {0})
  unfolding with_certificate
  command output_format input =
      if flags.unseal
      then (λ t. with_session w t (
          unseal_sealed_secret w.codecs w.serializers w.accept_deprecated_v1_data output_format
            w.key_files w.secret_decoder w.fuel input flags.priv_keys t.session))
      else if flags.validate_secret
      then (λ t. with_cluster w t (
          validate_sealed_secret w.net flags.controller_ns flags.controller_name w.serializers
            w.sealed_decoder w.fuel input t.cluster))
      else if flags.re_encrypt
      then (λ t. with_both w t (
          re_encrypt_sealed_secret w.net flags.controller_ns flags.controller_name w.serializers p
            output_format w.sealed_decoder w.fuel input (t.cluster, t.session)))
      else (on_cluster w (open_cert w.net flags.controller_ns flags.controller_name flags.cert_url)
          >>= λ f. with_certificate output_format input f)

  -- What the error of CloseAtomicallyReplace, which is dropped, says of the file.
  abbrev pub replacing : String → Option Error → State w → State w
  replacing name none t = record t { replaced = some (name, t.session.out) }
  replacing name (some e) t = t

  -- The deferred closure: it looks at the error only, so a panic passes for a success.
  abbrev pub close_output :
      String → Option (Outcome (Unit {0}) × State w) → Option (Outcome (Unit {0}) × State w)
  close_output name none = none
  close_output name (some (err e, t)) = some (err e, t)
  close_output name (some (r, t)) =
      some (r, replacing name (w.close_atomically_replace name t.session.out) t)

  -- A run into an output file
  unfoldable pub run_into : String → Reader → Fueled (State w) (Unit {0})
  unfolding command format_for
  run_into name input = total (lift (w.temp_file name)) >>= λ made t.
      close_output name (
        command (format_for flags name) input
          (record t { session = record t.session { out = [] } }))

  abbrev pub not_readable : Outcome Reader → Outcome Reader
  not_readable (ok r) = ok r
  not_readable (err e) = err (own "Could not read file specified with --secret-file")
  not_readable panic = panic

  unfoldable pub input_of : Outcome Reader
  input_of =
      if flags.input_file_name == ""
      then ok w.stdin
      else not_readable (w.open_input flags.input_file_name)

  -- runCLI, without the help text and the hints on a terminal
  unfoldable pub run_cli : Fueled (State w) (Unit {0})
  unfolding input_of run_into output_name command
  run_cli =
      if flags.help
      then total (return tt)
      else if not (is_empty flags.from_file) && not flags.raw
      then total (lift (err (own "--from-file requires --raw")))
      else (total (lift input_of) >>= λ input.
          if output_name flags == ""
          then command flags.output_format input
          else run_into (output_name flags) input)
