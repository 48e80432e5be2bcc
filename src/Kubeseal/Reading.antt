-- ===== src/Kubeseal/Reading.antt =====
-- The loop over the documents ends, and what it returns.
use mathlib.Core.List.{append-nil, append_assoc}
use sealed_secrets.Base.{
  ℕ, zero, suc, ◌<◌, ◌≡◌, refl, sym, ap, ◌∙◌, Bool, true, false, ◌&&◌, List, [], ◌∷◌, ◌++◌, some,
  Outcome, ok, err, panic, map_ok, if◌then◌else◌, length, arith, Bool-cases, inl, inr,
}
use sealed_secrets.Sealed.{Secret}
use sealed_secrets.Kubeseal.{Reader}
use sealed_secrets.Kubeseal.Documents.{
  DocumentDecoder, DecodeResult, decoded, end_of_file, wrapped_end_of_file, failed, is_end,
  read_secrets, unless_problem, read_documents,
}

-- The results of Decode that say that the file ends: io.EOF, as it is or wrapped.
abbrev pub says_end : DecodeResult → Bool
says_end decoded = false
says_end end_of_file = true
says_end (wrapped_end_of_file e) = true
says_end (failed e) = false

is_end-says_end : (r : DecodeResult) → is_end r ≡ says_end r
is_end-says_end decoded = refl
is_end-says_end end_of_file = refl
is_end-says_end (wrapped_end_of_file e) = refl
is_end-says_end (failed e) = refl

module _ {A : Type 0} (y : DocumentDecoder A) where
  -- The documents that a decoder gives, up to an empty one with the end of the file.
  pub data Gives : y.Decoder → List (A × DecodeResult) → Type 0 where
    ends :
        (dec dec' : y.Decoder) (sec : A) (r : DecodeResult)
        → y.next dec ≡ (sec, r, dec')
        → y.is_empty sec ≡ true
        → says_end r ≡ true
        → Gives dec []
    gives :
        (dec dec' : y.Decoder) (sec : A) (r : DecodeResult) (docs : List (A × DecodeResult))
        → y.next dec ≡ (sec, r, dec')
        → (y.is_empty sec && says_end r) ≡ false
        → Gives dec' docs
        → Gives dec ((sec, r) ∷ docs)

  -- The objects of the documents that are not empty, up to the first of them with an error. The end of the
  -- file as it is counts as no error, and one that is wrapped as an error.
  unfoldable pub collected : List (A × DecodeResult) → Outcome (List A)
  collected [] = ok []
  collected ((sec, decoded) ∷ docs) =
      let rest = collected docs in if y.is_empty sec then rest else map_ok (λ l. sec ∷ l) rest
  collected ((sec, end_of_file) ∷ docs) =
      let rest = collected docs in if y.is_empty sec then rest else map_ok (λ l. sec ∷ l) rest
  collected ((sec, wrapped_end_of_file e) ∷ docs) =
      let rest = collected docs in if y.is_empty sec then rest else err e
  collected ((sec, failed e) ∷ docs) =
      let rest = collected docs in if y.is_empty sec then rest else err e

  collected-empty :
      (sec : A) (r : DecodeResult) (docs : List (A × DecodeResult))
      → y.is_empty sec ≡ true
      → collected ((sec, r) ∷ docs) ≡ collected docs
  unfolding collected
  collected-empty sec decoded docs empty = rw empty
  collected-empty sec end_of_file docs empty = rw empty
  collected-empty sec (wrapped_end_of_file e) docs empty = rw empty
  collected-empty sec (failed e) docs empty = rw empty

  -- A kept object stands before those of the rest.
  append_one :
      (secrets : List A) (sec : A) (rest : Outcome (List A))
      → map_ok (λ l. (secrets ++ (sec ∷ [])) ++ l) rest
        ≡ map_ok (λ l. secrets ++ l) (map_ok (λ l. sec ∷ l) rest)
  append_one secrets sec (ok l) = ap (λ x. ok x) (append_assoc secrets (sec ∷ []) l)
  append_one secrets sec (err e) = refl
  append_one secrets sec panic = refl

  unless_problem-added :
      (secrets : List A) (sec : A) (r : DecodeResult) (docs : List (A × DecodeResult))
      → y.is_empty sec ≡ false
      → unless_problem y r (some (map_ok (λ l. (secrets ++ (sec ∷ [])) ++ l) (collected docs)))
        ≡ some (map_ok (λ l. secrets ++ l) (collected ((sec, r) ∷ docs)))
  unfolding collected
  unless_problem-added secrets sec decoded docs full =
      rw full (ap (λ x. some x) (append_one secrets sec (collected docs)))
  unless_problem-added secrets sec end_of_file docs full =
      rw full (ap (λ x. some x) (append_one secrets sec (collected docs)))
  unless_problem-added secrets sec (wrapped_end_of_file e) docs full = rw full refl
  unless_problem-added secrets sec (failed e) docs full = rw full refl

  read_documents-Gives :
      (docs : List (A × DecodeResult)) (dec : y.Decoder) (fuel : ℕ) (secrets : List A)
      → Gives dec docs
      → length docs < fuel
      → read_documents y fuel dec secrets ≡ some (map_ok (λ l. secrets ++ l) (collected docs))
  unfolding read_documents collected
  read_documents-Gives docs dec zero secrets g h = absurd (omega arith)
  read_documents-Gives _ _ (suc fuel) secrets (ends dec dec' sec r e empty end) h =
      rw (e, empty, is_end-says_end r, end) (ap (λ l. some (ok l)) (sym (append-nil secrets)))
  read_documents-Gives _ _ (suc fuel) secrets (gives dec dec' sec r docs e more g) h =
      let skipped = read_documents-Gives docs dec' fuel secrets g (omega (arith, h)) in
      let added =
        read_documents-Gives docs dec' fuel (secrets ++ (sec ∷ [])) g (omega (arith, h)) in
      elim (Bool-cases (y.is_empty sec)) [
        | inl empty ↦
            let no_end : says_end r ≡ false = rw empty at more in
            rw (e, empty, is_end-says_end r, no_end, collected-empty sec r docs empty) skipped
        | inr full ↦ rw (e, full, added) (unless_problem-added secrets sec r docs full)
      ]

map_ok_id {ℓ} : {A : Type ℓ} (r : Outcome A) → map_ok (λ a. a) r ≡ r
map_ok_id (ok a) = refl
map_ok_id (err e) = refl
map_ok_id panic = refl

-- When the decoder gives some number of documents before an empty one with the end of the file,
-- readSecrets ends in fewer than that number and two steps, with the objects of the documents that are
-- not empty, or with the error of the first of them that has one but io.EOF itself.
pub read_secrets-Gives :
    (y : DocumentDecoder Secret) (r : Reader) (docs : List (Secret × DecodeResult)) (fuel : ℕ)
    → Gives y (y.new_decoder r) docs
    → length docs < fuel
    → read_secrets y fuel r ≡ some (collected y docs)
unfolding read_secrets
read_secrets-Gives y r docs fuel g h =
    read_documents-Gives y docs (y.new_decoder r) fuel [] g h
    ∙ ap (λ x. some x) (map_ok_id (collected y docs))
