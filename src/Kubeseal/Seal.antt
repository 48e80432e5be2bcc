-- ===== src/Kubeseal/Seal.antt =====
-- Seal of pkg/kubeseal/kubeseal.go.
use sealed_secrets.Base.{ℕ, List, [], ◌∷◌, Option, none, some, own, Outcome, err}
use sealed_secrets.Base.Action.{Action, lift, return, ◌>>=◌, ◌>>◌}
use sealed_secrets.Crypto.{Primitives}
use sealed_secrets.Sealed.{Secret, Codecs}
use sealed_secrets.Sealed.Seal.{new_sealed_secret}
use sealed_secrets.Kubeseal.{Reader, Serializers, Session, drawing}
use sealed_secrets.Kubeseal.Documents.{DocumentDecoder, read_secrets}
use sealed_secrets.Kubeseal.Output.{sealed_secret_output}
use sealed_secrets.Kubeseal.Prepare.{SealOptions, ClientNamespace, prepare}

module _ {p : Primitives} (c : Codecs) (k : Serializers) (pub_key : p.PublicKey) (o : SealOptions)
    (client : ClientNamespace) where
  -- The body of the loop.
  unfoldable pub seal_secret : Secret → Action (Session p) (Unit {0})
  seal_secret secret = do
    prepared ← lift (prepare o client secret)
    ssecret ← drawing (new_sealed_secret p c pub_key prepared)
    sealed_secret_output k o.output_format ssecret

  -- The loop over the secrets.
  unfoldable pub seal_secrets : List Secret → Action (Session p) (Unit {0})
  unfolding seal_secret
  seal_secrets [] = return tt
  seal_secrets (secret ∷ secrets) = seal_secret secret >> seal_secrets secrets

  abbrev pub seal_read : Outcome (List Secret) → Action (Session p) (Unit {0})
  seal_read r = lift r >>= λ secrets. elim secrets [
    | [] ↦ lift (err (own "no secrets found. Ensure the input is valid and UTF-8 encoded"))
    | secret ∷ rest ↦ seal_secrets (secret ∷ rest)
  ]

  -- Seal; no result if the fuel for the reading is spent.
  unfoldable pub seal :
      DocumentDecoder Secret → ℕ → Reader → Session p → Option (Outcome (Unit {0}) × Session p)
  unfolding seal_secrets
  seal y fuel r s = elim (read_secrets y fuel r) [
    | none ↦ none
    | some secrets ↦ some (seal_read secrets s)
  ]
