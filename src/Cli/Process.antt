-- ===== src/Cli/Process.antt =====
-- The process of the command line: mainE and main of cmd/kubeseal/main.go. pflag, with what bindFlags and
-- bindClientFlags give it, is a parameter.
use Prim.Native.String
use sealed_secrets.Base.{
  ℕ, String, Bool, List, Option, none, some, message, Outcome, ok, err, panic, bytes_of,
  if◌then◌else◌,
}
use sealed_secrets.Base.Action.{lift}
use sealed_secrets.Base.Fueled.{Fueled, total, ◌>>=◌}
use sealed_secrets.Crypto.{Primitives}
use sealed_secrets.Kubeseal.{write}
use sealed_secrets.Startup.Process.{default_version, fallback_version}
use sealed_secrets.Cli.{CliFlags, Surroundings}
use sealed_secrets.Cli.Run.{State, on_session, run_cli}

-- fs.Parse, which gives the flags and whether --version is set, gofs.Parse, and debug.ReadBuildInfo.
pub record Parser : Type 0 where
  pub parse : List String → Outcome (CliFlags × Bool)
  pub parse_go : Outcome (Unit {0})
  pub build_info : Option String

-- What is left of a process: its exit status, and the text on the standard error. A panic ends it with the status 2 and
-- a trace that the model leaves out.
pub record Exit : Type 0 where
  pub status : ℕ
  pub complaint : String

module _ {p : Primitives} {S : Type 0} (w : Surroundings p S) (parser : Parser) where
  -- What mainE does with the flags.
  unfoldable pub run_parsed : String → CliFlags × Bool → Fueled (State w) (Unit {0})
  run_parsed version (flags, print_version) =
      if print_version
      then on_session w
          (write (bytes_of (String.◌++◌ "kubeseal version: " (String.◌++◌ version "\n"))))
      else run_cli w flags

  -- mainE, with the version that was linked in.
  unfoldable pub main_e : String → List String → Fueled (State w) (Unit {0})
  unfolding run_parsed
  main_e version args = total (lift (parser.parse args)) >>= λ flags.
      total (lift parser.parse_go) >>= λ parsed.
      run_parsed (fallback_version parser.build_info version default_version) flags

  abbrev pub exit_of : Outcome (Unit {0}) → Exit
  exit_of (ok done) = record { status = 0; complaint = "" }
  exit_of (err e) = record {
    status = 1;
    complaint = String.◌++◌ "error: " (String.◌++◌ (message e) "\n");
  }
  exit_of panic = record { status = 2; complaint = "" }

  abbrev pub told : Option (Outcome (Unit {0}) × State w) → Option (Exit × State w)
  told none = none
  told (some (out, s)) = some (exit_of out, s)

  -- main
  unfoldable pub run_main : String → List String → State w → Option (Exit × State w)
  unfolding main_e
  run_main version args s = told (main_e version args s)
