-- ===== src/Examples/Merge.antt =====
-- A sealed secret into which another one is merged.
use sealed_secrets.Base.{◌≡◌, refl, String, false, [], ◌∷◌, ◌++◌, ok, inl, inr, bytes_of, utf8}
use sealed_secrets.Base.GoMap.{nil_map, table, get, insert, lookup, or_else, put_all, without}
use sealed_secrets.Scope.{
  encryption_label, secret_scope, update_scope_annotations, delete_all,
  strip_last_applied_annotations,
}
use sealed_secrets.Crypto.{put_uint16}
use sealed_secrets.Crypto.Encrypt.{hybrid_encrypt}
use sealed_secrets.Sealed.{Secret, SealedSecret}
use sealed_secrets.Sealed.Seal.{sealed_object, new_sealed_secret}
use sealed_secrets.Sealed.Unseal.{unseal}
use sealed_secrets.Sealed.RoundTrip.{applied, item}
use sealed_secrets.Kubeseal.Merge.{merged}
use sealed_secrets.Kubeseal.MergedItems.{unseal-merged}
use sealed_secrets.Examples.Toy.{
  key_a, toy, toy_codecs, toy_encode, toy-IsCorrect, toy-IsTotal, toy-IsBinding,
  toy_codecs-IsBase64,
}
use sealed_secrets.Examples.Sealing.{
  a_secret, a_sealed_secret, header, ciphertext, two_keys, new_sealed_secret_example,
}

-- Another value under the key t.
abbrev new_secret : Secret
new_secret = record a_secret { secret_data = nil_map; string_data = table (("t", "w") ∷ []) }

abbrev new_sealed : SealedSecret
new_sealed = sealed_object new_secret (("t", toy_encode (header ++ bytes_of "w")) ∷ [])

abbrev merged_sealed : SealedSecret
merged_sealed =
    sealed_object a_secret
      (("k", toy_encode ciphertext) ∷ ("t", toy_encode (header ++ bytes_of "w")) ∷ [])

new_sealed_example : new_sealed_secret toy toy_codecs key_a new_secret tt ≡ (ok new_sealed, tt)
unfolding new_sealed_secret hybrid_encrypt put_uint16 bytes_of utf8 insert secret_scope get lookup
    encryption_label update_scope_annotations delete_all strip_last_applied_annotations without
new_sealed_example = refl

merged_example : merged a_sealed_secret new_sealed ≡ ok merged_sealed
unfolding merged put_all insert strip_last_applied_annotations
merged_example = refl

unseal-merged_example :
    (opened : Secret) × (unseal toy toy_codecs false
        (applied merged_sealed a_sealed_secret)
        two_keys
      ≡ ok opened)
    × ((k : String) → get opened.secret_data k ≡ or_else (item new_secret k) (item a_secret k))
unfolding lookup
unseal-merged_example =
    unseal-merged toy toy_codecs toy-IsCorrect toy-IsTotal toy-IsBinding toy_codecs-IsBase64
      two_keys key_a key_a a_secret new_secret a_sealed_secret new_sealed merged_sealed
      a_sealed_secret false tt tt tt tt (inr (inl refl)) (inr (inl refl)) (refl, tt) (refl, tt) tt
      (refl, tt) refl new_sealed_secret_example new_sealed_example merged_example
