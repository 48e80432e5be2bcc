-- ===== src/Kubeseal/Merge.antt =====
-- SealMergingInto of pkg/kubeseal/kubeseal.go. The open file is a state with the calls that are made of it.
use sealed_secrets.Base.{ℕ, String, [], Option, none, some, Outcome, ok, err, panic, Bytes}
use sealed_secrets.Base.Results
use sealed_secrets.Base.Action.{Action, lift, ◌>>=◌, ◌>>◌}
use sealed_secrets.Base.GoMap.{GoMap, entries, put_all}
use sealed_secrets.Crypto.{Primitives}
use sealed_secrets.Sealed.{Secret, SealedSecret, Codecs}
use sealed_secrets.Kubeseal.{Reader, Serializers, Session}
use sealed_secrets.Kubeseal.Documents.{DocumentDecoder}
use sealed_secrets.Kubeseal.Output.{decode_sealed_secret, sealed_secret_output}
use sealed_secrets.Kubeseal.Prepare.{SealOptions, ClientNamespace}
use sealed_secrets.Kubeseal.Seal.{seal}

-- os.OpenFile for reading and writing, io.ReadAll, Truncate(0), Seek(0, 0), io.Copy and Close.
pub record FileCalls : Type 1 where
  pub File : Type 0
  pub open_file : String → Action File (Unit {0})
  pub read_all : Action File Bytes
  pub truncate : Action File (Unit {0})
  pub seek : Action File (Unit {0})
  pub copy : Bytes → Action File (Unit {0})
  pub close : Action File (Unit {0})

-- for k, v := range src { dst[k] = v }, which panics for a nil map as soon as there is an entry
abbrev pub merged_map {ℓ} : {V : Type ℓ} → GoMap V → GoMap V → Outcome (GoMap V)
merged_map src dst = put_all (entries src) dst

-- The original with other maps.
abbrev pub merged_as :
    SealedSecret → GoMap String → GoMap String → GoMap String → GoMap String → SealedSecret
merged_as orig encrypted_data annotations labels template_data =
    let template = orig.spec.template in
    record orig {
      spec = record orig.spec {
        encrypted_data = encrypted_data;
        template = record template {
          meta = record template.meta { annotations = annotations; labels = labels };
          template_data = template_data;
        };
      };
    }

-- The four loops of the merge.
unfoldable pub merged : SealedSecret → SealedSecret → Outcome SealedSecret
merged orig update =
    let template = orig.spec.template in
    let news = update.spec.template in
    Results.◌>>=◌ (merged_map update.spec.encrypted_data orig.spec.encrypted_data) λ encrypted_data.
      Results.◌>>=◌ (merged_map news.meta.annotations template.meta.annotations) λ annotations.
        Results.◌>>=◌ (merged_map news.meta.labels template.meta.labels) λ labels.
          Results.◌>>=◌ (merged_map news.template_data template.template_data)
            λ template_data. ok (merged_as orig encrypted_data annotations labels template_data)

module _ (f : FileCalls) where
  -- The rewriting of the file.
  unfoldable pub rewrite : Bytes → Action f.File (Unit {0})
  rewrite out = f.truncate >> (f.seek >> (f.copy out >> f.close))

  -- What is read of the file first.
  unfoldable pub read_original : String → Action f.File Bytes
  read_original filename = f.open_file filename >> f.read_all

module _ {p : Primitives} (c : Codecs) (k : Serializers) (pub_key : p.PublicKey) (o : SealOptions)
    (client : ClientNamespace) where
  -- An output of its own.
  abbrev pub buffer : Session p → Session p
  buffer s = record s { out = [] }

  abbrev pub rendering : SealedSecret → Action (Session p) Bytes
  rendering orig s =
      let (r, s') = sealed_secret_output k o.output_format orig (buffer s) in
      (Results.map_ok (λ (done : Unit {0}). s'.out) r, s')

  -- The merge of what Seal has written into the original, rendered.
  unfoldable pub merge_update :
      SealedSecret → Outcome (Unit {0}) × Session p → Outcome Bytes × Session p
  unfolding merged
  merge_update orig (r, s) =
      (lift (
            Results.◌>>=◌ r
              λ done. Results.◌>>=◌ (decode_sealed_secret k s.out) λ update. merged orig update)
          >>= rendering)
        s

  -- Everything before the file is written: the bytes to write.
  unfoldable pub render_merged :
      DocumentDecoder Secret → ℕ → Reader → Bytes → Session p → Option (Outcome Bytes × Session p)
  unfolding merge_update
  render_merged y fuel r b s = elim (decode_sealed_secret k b) [
    | ok orig ↦
        (let o' = record o {
          override_name = orig.meta.name;
          override_namespace = orig.meta.namespace;
        } in
          elim (seal c k pub_key o' client y fuel r (buffer s)) [
            | none ↦ none
            | some sealed ↦ some (merge_update orig sealed)
          ])
    | err e ↦ some (err e, s)
    | panic ↦ some (panic, s)
  ]

  module _ (f : FileCalls) where
    abbrev pub rewritten :
        Outcome Bytes × Session p → f.File → Outcome (Unit {0}) × (Session p × f.File)
    rewritten (ok out, s) file = let (r, file') = rewrite f out file in (r, (s, file'))
    rewritten (err e, s) file = (err e, (s, file))
    rewritten (panic, s) file = (panic, (s, file))

    abbrev pub after_reading :
        DocumentDecoder Secret
        → ℕ
        → Reader
        → Outcome Bytes × f.File
        → Session p
        → Option (Outcome (Unit {0}) × (Session p × f.File))
    after_reading y fuel r (ok b, file) s = elim (render_merged y fuel r b s) [
      | none ↦ none
      | some rendered ↦ some (rewritten rendered file)
    ]
    after_reading y fuel r (err e, file) s = some (err e, (s, file))
    after_reading y fuel r (panic, file) s = some (panic, (s, file))

    -- SealMergingInto. The deferred Close is not modelled, since its error is dropped.
    unfoldable pub seal_merging_into :
        DocumentDecoder Secret
        → ℕ
        → Reader
        → String
        → (Session p × f.File)
        → Option (Outcome (Unit {0}) × (Session p × f.File))
    unfolding read_original rewrite render_merged
    seal_merging_into y fuel r filename (s, file) =
        after_reading y fuel r (read_original f filename file) s
