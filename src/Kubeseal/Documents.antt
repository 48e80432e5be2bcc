-- ===== src/Kubeseal/Documents.antt =====
-- readSecrets and readSealedSecrets of pkg/kubeseal/kubeseal.go: one loop over the documents of a stream. The
-- decoder of the YAML package is a parameter.
use sealed_secrets.Base.{
  ℕ, zero, suc, Bool, true, false, List, [], ◌∷◌, ◌++◌, Option, none, some, Error, Outcome, ok, err,
  if◌then◌else◌,
}
use sealed_secrets.Sealed.{Secret, SealedSecret}
use sealed_secrets.Kubeseal.{Reader}

-- The error of Decode: none, io.EOF itself, an error that wraps io.EOF, or another one.
pub data DecodeResult : Type 0 where
  decoded end_of_file : DecodeResult
  wrapped_end_of_file failed : Error → DecodeResult

-- yaml.NewYAMLOrJSONDecoder for objects of one type, and the comparison with the empty object.
pub record DocumentDecoder (A : Type 0) : Type 1 where
  pub Decoder : Type 0
  pub new_decoder : Reader → Decoder
  pub next : Decoder → A × DecodeResult × Decoder
  pub is_empty : A → Bool

-- errors.Is(err, io.EOF)
abbrev pub is_end : DecodeResult → Bool
is_end end_of_file = true
is_end (wrapped_end_of_file e) = true
is_end _ = false

-- The error if it is neither nil nor io.EOF
abbrev pub problem : DecodeResult → Option Error
problem decoded = none
problem end_of_file = none
problem (wrapped_end_of_file e) = some e
problem (failed e) = some e

module _ {A : Type 0} (y : DocumentDecoder A) where
  abbrev pub unless_problem : DecodeResult → Option (Outcome (List A)) → Option (Outcome (List A))
  unless_problem r rest = elim (problem r) [ none ↦ rest | some e ↦ some (err e) ]

  -- The loop, with the fuel and the objects so far. No result says that the fuel is spent.
  unfoldable pub read_documents : ℕ → y.Decoder → List A → Option (Outcome (List A))
  read_documents zero dec secrets = none
  read_documents (suc fuel) dec secrets =
      let (sec, r, dec') = y.next dec in
      let skipped = read_documents fuel dec' secrets in
      let added = read_documents fuel dec' (secrets ++ (sec ∷ [])) in
      if y.is_empty sec
      then if is_end r then some (ok secrets) else skipped
      else unless_problem r added

-- readSecrets
unfoldable pub read_secrets : DocumentDecoder Secret → ℕ → Reader → Option (Outcome (List Secret))
read_secrets y fuel r = read_documents y fuel (y.new_decoder r) []

-- readSealedSecrets
unfoldable pub read_sealed_secrets :
    DocumentDecoder SealedSecret → ℕ → Reader → Option (Outcome (List SealedSecret))
read_sealed_secrets y fuel r = read_documents y fuel (y.new_decoder r) []
