-- ===== src/Cli/Exits.antt =====
-- The exit status of the command line tells what became of the output file.
use sealed_secrets.Base.{
  ◌≡◌, ◌≢◌, refl, sym, eq_iff, Bool-cases, inl, inr, true, subst, String, false, List, Option, none,
  some, Outcome, ok, panic, ◌==◌, if◌then◌else◌, eqb, some-injective,
}
use sealed_secrets.Crypto.{Primitives}
use sealed_secrets.Cli.{CliFlags, Surroundings, output_name}
use sealed_secrets.Cli.Run.{State, run_cli}
use sealed_secrets.Cli.Saved.{after_close, IsSaved, failed, succeeded, panicked, run_cli-IsSaved}
use sealed_secrets.Cli.Process.{Parser, Exit, run_parsed, main_e, exit_of, told, run_main}

-- The output file: the one that the flags name, or, if they name none, the input file of a re-encryption.
pub data IsOutput (flags : CliFlags) (name : String) : Type 0 where
  given : flags.output_file_name ≡ name → IsOutput flags name
  in_place :
      flags.re_encrypt ≡ true
      → flags.output_file_name ≡ ""
      → flags.input_file_name ≡ name
      → IsOutput flags name

output_name-IsOutput :
    (flags : CliFlags) (name : String)
    → IsOutput flags name
    → (name == "") ≡ false
    → output_name flags ≡ name
unfolding output_name
output_name-IsOutput flags name (given e) full =
    let some_name : (flags.output_file_name == "") ≡ false =
      subst (λ (x : String). (x == "") ≡ false) (sym e) full in
    elim (Bool-cases flags.re_encrypt) [
      | inl again ↦ rw (again, some_name) e
      | inr other ↦ rw other e
    ]
output_name-IsOutput flags name (in_place again empty e) full =
    let some_name : (flags.input_file_name == "") ≡ false =
      subst (λ (x : String). (x == "") ≡ false) (sym e) full in
    rw (again, (eq_iff flags.output_file_name "").1 empty, some_name) e

module _ {p : Primitives} {S : Type 0} (w : Surroundings p S) (parser : Parser) where
  saved-told :
      (flags : CliFlags) (name : String) (s t : State w) (o : Outcome (Unit {0}))
      → IsSaved w flags name s t o
      → t.replaced ≡ (
          if eqb (exit_of w parser o).status 1
          then s.replaced
          else after_close
              (w.close_atomically_replace name t.session.out)
              s.replaced
              (some (name, t.session.out)))
  saved-told flags name s t o (failed e h) = h
  saved-told flags name s t o (succeeded h) = h
  saved-told flags name s t o (panicked h) = h

  -- The same for the name that the code chooses.
  run_main-output :
      (version : String) (args : List String) (flags : CliFlags) (s t : State w) (exit : Exit)
      → parser.parse args ≡ ok (flags, false)
      → parser.parse_go ≡ ok tt
      → flags.help ≡ false
      → (output_name flags == "") ≡ false
      → w.open_input flags.input_file_name ≢ panic
      → w.temp_file (output_name flags) ≢ panic
      → run_main w parser version args s ≡ some (exit, t)
      → t.replaced ≡ (
          if eqb exit.status 1
          then s.replaced
          else after_close
              (w.close_atomically_replace (output_name flags) t.session.out)
              s.replaced
              (some (output_name flags, t.session.out)))
  unfolding run_main main_e run_parsed
  run_main-output version args flags s t exit parsed parsed_go no_help has_output safe_input
        safe_output e =
      by_run (run_cli w flags s) refl (rw (parsed, parsed_go, run_main) at e)
    where
      by_run :
          (x : Option (Outcome (Unit {0}) × State w))
          → run_cli w flags s ≡ x
          → told w parser x ≡ some (exit, t)
          → t.replaced ≡ (
              if eqb exit.status 1
              then s.replaced
              else after_close
                  (w.close_atomically_replace (output_name flags) t.session.out)
                  s.replaced
                  (some (output_name flags, t.session.out)))
      by_run none is_x e' = absurd (cc e')
      by_run (some (o, u)) is_x e' =
          let same : ◌≡◌ {A = Exit × State w} (exit_of w parser o, u) (exit, t) =
            some-injective e' in
          subst
            (λ (y : Exit × State w). y.1.replaced ≡ (
              if eqb y.0.status 1
              then s.replaced
              else after_close (w.close_atomically_replace (output_name flags) y.1.session.out)
                  s.replaced (some (output_name flags, y.1.session.out))))
            same
            (saved-told flags (output_name flags) s u o
              (run_cli-IsSaved w flags s u o no_help has_output safe_input safe_output is_x))

  -- When a run of the process of the command line comes to an end, whose arguments could be parsed and
  -- ask neither for the version nor for help, where an output file is named or, for a re-encryption
  -- without one, an input file, and neither the opening of its input nor the making of the temporary
  -- file panics: with the exit status 1 the output file has not been replaced, and with every other
  -- status, which is that of a success or of a panic, it has been replaced by exactly what was written
  -- to the output, unless CloseAtomicallyReplace fails for that, and then the old file stands.
  pub run_main-told :
      (version : String) (args : List String) (flags : CliFlags) (name : String) (s t : State w)
      (exit : Exit)
      → parser.parse args ≡ ok (flags, false)
      → parser.parse_go ≡ ok tt
      → flags.help ≡ false
      → IsOutput flags name
      → (name == "") ≡ false
      → w.open_input flags.input_file_name ≢ panic
      → w.temp_file name ≢ panic
      → run_main w parser version args s ≡ some (exit, t)
      → t.replaced ≡ (
          if eqb exit.status 1
          then s.replaced
          else after_close
              (w.close_atomically_replace name t.session.out)
              s.replaced
              (some (name, t.session.out)))
  run_main-told version args flags name s t exit parsed parsed_go no_help is_output full safe_input
        safe_output e =
      let same = output_name-IsOutput flags name is_output full in
      subst
        (λ (x : String). t.replaced ≡ (
          if eqb exit.status 1
          then s.replaced
          else after_close (w.close_atomically_replace x t.session.out) s.replaced
              (some (x, t.session.out))))
        same
        (run_main-output version args flags s t exit parsed parsed_go no_help
          (subst (λ (x : String). (x == "") ≡ false) (sym same) full) safe_input
          (subst (λ (x : String). w.temp_file x ≢ panic) (sym same) safe_output) e)
