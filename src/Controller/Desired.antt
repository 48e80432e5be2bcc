-- ===== src/Controller/Desired.antt =====
-- The secret that the controller writes over an existing one: the middle of unseal in
-- pkg/controller/controller.go.
use sealed_secrets.Base.{Outcome, ok, ◌>>=◌, if◌then◌else◌}
use sealed_secrets.Base.GoMap.{entries, made, put_all}
use sealed_secrets.Sealed.{Secret}
use sealed_secrets.Controller.{is_annotated_to_be_managed, is_annotated_to_be_patched}

-- secret.ObjectMeta.OwnerReferences = newSecret.ObjectMeta.OwnerReferences, if managed
abbrev pub take_owners : Secret → Secret → Secret
take_owners new_secret secret =
    if is_annotated_to_be_managed secret
    then record secret {
      meta = record secret.meta { owner_references = new_secret.meta.owner_references };
    }
    else secret

-- The branch for a secret that is annotated to be patched: the new entries go over the old ones.
unfoldable pub patched : Secret → Secret → Outcome Secret
patched secret new_secret = do
  secret_data ← put_all (entries new_secret.secret_data) (made secret.secret_data)
  labels ← put_all (entries new_secret.meta.labels) (made secret.meta.labels)
  annotations ← put_all (entries new_secret.meta.annotations) secret.meta.annotations
  ok (
      take_owners new_secret (record secret {
        meta = record secret.meta { labels = labels; annotations = annotations };
        secret_data = secret_data;
      }))

-- The other branch: the new contents replace the old ones.
unfoldable pub replaced : Secret → Secret → Secret
replaced secret new_secret = record secret {
  meta = record secret.meta {
    annotations = new_secret.meta.annotations;
    labels = new_secret.meta.labels;
    owner_references = new_secret.meta.owner_references;
  };
  secret_data = new_secret.secret_data;
}

-- The copy of the secret after all the changes, its type included.
unfoldable pub desired_secret : Secret → Secret → Outcome Secret
unfolding patched replaced
desired_secret secret new_secret = do
  changed ←
      if is_annotated_to_be_patched secret
      then patched secret new_secret
      else ok (replaced secret new_secret)
  ok (record changed { type = new_secret.type })
