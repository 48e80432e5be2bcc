-- ===== src/Cli/Saved.antt =====
-- The output file of a run is replaced as a whole, and only if the run has no error.
use sealed_secrets.Base.{
  ◌≡◌, ◌≢◌, refl, sym, ◌∙◌, String, Bool, true, false, Option, none, some, Error, Outcome, ok, err,
  panic, ◌==◌, if◌then◌else◌, not, ◌&&◌, Bool-cases, Outcome-cases, inl, inr, subst,
}
use sealed_secrets.Base.Action.{Action, lift}
use sealed_secrets.Base.Fueled.{Fueled, total, continue, ◌>>=◌}
use sealed_secrets.Crypto.{Primitives}
use sealed_secrets.Kubeseal.{Reader, Session}
use sealed_secrets.Cli.{CliFlags, Surroundings, output_name, format_for, is_empty}
use sealed_secrets.Cli.Run.{
  State, on_cluster, on_session, with_session, with_cluster, with_both, with_file, raw_namespace,
  raw_data, encrypt_raw, with_certificate, command, replacing, close_output, run_into, not_readable,
  input_of, run_cli,
}

-- A file after its replacement, by the error of that.
abbrev pub after_close {ℓ} : {A : Type ℓ} → Option Error → A → A → A
after_close none old new = new
after_close (some e) old new = old

module _ {p : Primitives} {S : Type 0} (w : Surroundings p S) (flags : CliFlags) where
  abbrev pub IsReplaced : String → State w → State w → Type 0
  IsReplaced name s t =
      t.replaced
      ≡ after_close (w.close_atomically_replace name t.session.out) s.replaced
          (some (name, t.session.out))

  -- The output file after a run, by the outcome and the output.
  pub data IsSaved (name : String) (s t : State w) : Outcome (Unit {0}) → Type 0 where
    failed : (e : Error) → t.replaced ≡ s.replaced → IsSaved name s t (err e)
    succeeded : IsReplaced name s t → IsSaved name s t (ok tt)
    panicked : IsReplaced name s t → IsSaved name s t panic

  abbrev Keeps {ℓ} : {A : Type ℓ} → Fueled (State w) A → Type ℓ
  Keeps {A = A} m = (s t : State w) (o : Outcome A) → m s ≡ some (o, t) → t.replaced ≡ s.replaced

  some_state {ℓ} :
      {A : Type ℓ} {o o' : Outcome A} {s t : State w}
      → ◌≡◌ {A = Option (Outcome A × State w)} (some (o, s)) (some (o', t))
      → s.replaced ≡ t.replaced
  some_state e = cc

  closed_state :
      {o o' : Outcome (Unit {0})} {s t : State w}
      → ◌≡◌ {A = Option (Outcome (Unit {0}) × State w)} (some (o, s)) (some (o', t))
      → ◌≡◌ {A = Outcome (Unit {0}) × State w} (o, s) (o', t)
  closed_state e = cc

  >>=-Keeps {ℓ κ} :
      {A : Type ℓ} {B : Type κ} (m : Fueled (State w) A) (f : A → Fueled (State w) B)
      → Keeps m
      → ((a : A) → Keeps (f a))
      → Keeps (m >>= f)
  >>=-Keeps {A = A} m f hm hf s t o e = continued (m s) refl e
    where
      continued :
          (x : Option (Outcome A × State w))
          → m s ≡ x
          → continue f x ≡ some (o, t)
          → t.replaced ≡ s.replaced
      continued none is_x e = absurd (cc e)
      continued (some (ok a, u)) is_x e = hf a u t o e ∙ hm s u (ok a) is_x
      continued (some (err failure, u)) is_x e = sym (some_state e) ∙ hm s u (err failure) is_x
      continued (some (panic, u)) is_x e = sym (some_state e) ∙ hm s u panic is_x

  total-Keeps {ℓ} : {A : Type ℓ} (r : Outcome A) → Keeps (total (lift r))
  total-Keeps r s t o e = sym (some_state e)

  on_session-Keeps {ℓ} : {A : Type ℓ} (m : Action (Session p) A) → Keeps (on_session w m)
  on_session-Keeps m s t o e = sym (some_state e)

  on_cluster-Keeps {ℓ} : {A : Type ℓ} (m : Action S A) → Keeps (on_cluster w m)
  on_cluster-Keeps m s t o e = sym (some_state e)

  with_session-Keeps :
      (f : State w → Option (Outcome (Unit {0}) × Session p)) → Keeps (λ s. with_session w s (f s))
  with_session-Keeps f s t o e = kept (f s) e
    where
      kept :
          (x : Option (Outcome (Unit {0}) × Session p))
          → with_session w s x ≡ some (o, t)
          → t.replaced ≡ s.replaced
      kept none e = absurd (cc e)
      kept (some x) e = sym (some_state e)

  with_cluster-Keeps :
      (f : State w → Option (Outcome (Unit {0}) × S)) → Keeps (λ s. with_cluster w s (f s))
  with_cluster-Keeps f s t o e = kept (f s) e
    where
      kept :
          (x : Option (Outcome (Unit {0}) × S))
          → with_cluster w s x ≡ some (o, t)
          → t.replaced ≡ s.replaced
      kept none e = absurd (cc e)
      kept (some x) e = sym (some_state e)

  with_both-Keeps :
      (f : State w → Option (Outcome (Unit {0}) × (S × Session p)))
      → Keeps (λ s. with_both w s (f s))
  with_both-Keeps f s t o e = kept (f s) e
    where
      kept :
          (x : Option (Outcome (Unit {0}) × (S × Session p)))
          → with_both w s x ≡ some (o, t)
          → t.replaced ≡ s.replaced
      kept none e = absurd (cc e)
      kept (some x) e = sym (some_state e)

  with_file-Keeps :
      (f : State w → Option (Outcome (Unit {0}) × (Session p × w.files.File)))
      → Keeps (λ s. with_file w s (f s))
  with_file-Keeps f s t o e = kept (f s) e
    where
      kept :
          (x : Option (Outcome (Unit {0}) × (Session p × w.files.File)))
          → with_file w s x ≡ some (o, t)
          → t.replaced ≡ s.replaced
      kept none e = absurd (cc e)
      kept (some x) e = sym (some_state e)

  if-Keeps :
      (b : Bool) {m m' : Fueled (State w) (Unit {0})}
      → Keeps m
      → Keeps m'
      → Keeps (if b then m else m')
  if-Keeps true h h' = h
  if-Keeps false h h' = h'

  encrypt_raw-Keeps : (pub_key : p.PublicKey) → Keeps (encrypt_raw w flags pub_key)
  unfolding encrypt_raw
  encrypt_raw-Keeps pub_key =
      >>=-Keeps (total (lift (raw_namespace w flags))) _ (total-Keeps (raw_namespace w flags))
        (λ ns.
          >>=-Keeps (total (lift (raw_data w flags))) _ (total-Keeps (raw_data w flags))
            (λ plaintext. on_session-Keeps _))

  with_certificate-Keeps :
      (output_format : String) (input f : Reader)
      → Keeps (with_certificate w flags output_format input f)
  unfolding with_certificate
  with_certificate-Keeps output_format input f =
      if-Keeps flags.dump_cert (>>=-Keeps _ _ (total-Keeps f) (λ bytes. on_session-Keeps _)) (
        >>=-Keeps _ _ (total-Keeps _) (λ pub_key.
          if-Keeps (not (flags.merge_into == "")) (with_file-Keeps _)
            (if-Keeps flags.raw (encrypt_raw-Keeps pub_key) (with_session-Keeps _))))

  command-Keeps :
      (output_format : String) (input : Reader) → Keeps (command w flags output_format input)
  unfolding command
  command-Keeps output_format input = if-Keeps flags.unseal (with_session-Keeps _) (
      if-Keeps flags.validate_secret (with_cluster-Keeps _) (
        if-Keeps flags.re_encrypt (with_both-Keeps _)
          (>>=-Keeps _ _ (on_cluster-Keeps _) (λ f. with_certificate-Keeps output_format input f))))

  replacing-IsReplaced :
      (name : String) (s u : State w) (r : Option Error)
      → u.replaced ≡ s.replaced
      → w.close_atomically_replace name u.session.out ≡ r
      → IsReplaced name s (replacing w flags name r u)
  replacing-IsReplaced name s u none kept is_r = rw is_r refl
  replacing-IsReplaced name s u (some e) kept is_r = rw is_r kept

  close_output-IsSaved :
      (name : String) (s : State w) (x : Option (Outcome (Unit {0}) × State w)) (t : State w)
      (o : Outcome (Unit {0}))
      → ((u : State w) (o' : Outcome (Unit {0})) → x ≡ some (o', u) → u.replaced ≡ s.replaced)
      → close_output w flags name x ≡ some (o, t)
      → IsSaved name s t o
  close_output-IsSaved name s none t o kept e = absurd (cc e)
  close_output-IsSaved name s (some (ok done, u)) t o kept e =
      subst (λ y. IsSaved name s y.1 y.0) (closed_state e)
        (succeeded (replacing-IsReplaced name s u _ (kept u (ok done) refl) refl))
  close_output-IsSaved name s (some (err failure, u)) t o kept e =
      subst (λ y. IsSaved name s y.1 y.0) (closed_state e)
        (failed failure (kept u (err failure) refl))
  close_output-IsSaved name s (some (panic, u)) t o kept e =
      subst (λ y. IsSaved name s y.1 y.0) (closed_state e)
        (panicked (replacing-IsReplaced name s u _ (kept u panic refl) refl))

  run_into-IsSaved :
      (name : String) (input : Reader) (s t : State w) (o : Outcome (Unit {0}))
      → w.temp_file name ≢ panic
      → run_into w flags name input s ≡ some (o, t)
      → IsSaved name s t o
  unfolding run_into
  run_into-IsSaved name input s t o safe e = elim (Outcome-cases (w.temp_file name)) [
    | inl (made, is_made) ↦
        close_output-IsSaved name s _ t o
          (λ u o' e'. command-Keeps (format_for flags name) input _ u o' e')
          (rw (is_made, run_into) at e)
    | inr (inl (failure, unmade)) ↦
        subst (λ y. IsSaved name s y.1 y.0) (closed_state (rw (unmade, run_into) at e))
          (failed failure refl)
    | inr (inr broken) ↦ absurd (safe broken)
  ]

  not_readable-safe : (r : Outcome Reader) → r ≢ panic → not_readable w flags r ≢ panic
  not_readable-safe (ok r) safe e = cc
  not_readable-safe (err failure) safe e = cc
  not_readable-safe panic safe e = safe refl

  input_of-safe : w.open_input flags.input_file_name ≢ panic → input_of w flags ≢ panic
  unfolding input_of
  input_of-safe safe e = elim (Bool-cases (flags.input_file_name == "")) [
    | inl unnamed ↦ absurd (cc (rw (unnamed, input_of) at e))
    | inr named ↦ not_readable-safe _ safe (rw (named, input_of) at e)
  ]

  -- When a run of the command line with an output file comes to an end, and neither the opening of its
  -- input nor the making of the temporary file panics: with an error the output file has not been
  -- replaced; without one or after a panic it has been replaced by exactly what was written to the output,
  -- unless its closing and replacing failed, and then it has not.
  pub run_cli-IsSaved :
      (s t : State w) (o : Outcome (Unit {0}))
      → flags.help ≡ false
      → (output_name flags == "") ≡ false
      → w.open_input flags.input_file_name ≢ panic
      → w.temp_file (output_name flags) ≢ panic
      → run_cli w flags s ≡ some (o, t)
      → IsSaved (output_name flags) s t o
  unfolding run_cli
  run_cli-IsSaved s t o no_help has_output safe_input safe_output e =
      elim (Bool-cases (not (is_empty flags.from_file) && not flags.raw)) [
        | inl misused ↦
            subst (λ y. IsSaved (output_name flags) s y.1 y.0)
              (closed_state (rw (no_help, misused, run_cli) at e)) (failed _ refl)
        | inr fine ↦ elim (Outcome-cases (input_of w flags)) [
          | inl (input, got) ↦
              run_into-IsSaved (output_name flags) input s t o safe_output
                (rw (no_help, fine, got, has_output, run_cli) at e)
          | inr (inl (failure, bad)) ↦
              subst (λ y. IsSaved (output_name flags) s y.1 y.0)
                (closed_state (rw (no_help, fine, bad, run_cli) at e)) (failed failure refl)
          | inr (inr broken) ↦ absurd (input_of-safe safe_input broken)
        ]
      ]
