-- ===== src/Base/Merged.antt =====
-- A map that is written over another one, entry by entry.
use mathlib.Core.Path.{◌≡◌, refl}
use Prim.Native.String.{String}
use mathlib.Core.Logic.{◌⊎◌, inl, inr}
use mathlib.Core.List.{[], ◌∷◌}
use sealed_secrets.Base.Results.{ok, panic}
use sealed_secrets.Base.GoMap.{
  GoMap, nil_map, table, Entries, entries, made, get, or_else, put_all, insert_all, put_all-table,
  lookup-insert_all, IsTable,
}

-- What is in the merged map: the entry of the new one, or else of the old one.
abbrev pub Merged {ℓ} : {V : Type ℓ} → GoMap V → GoMap V → GoMap V → Type ℓ
Merged out new old = (k : String) → get out k ≡ or_else (get new k) (get old k)

pub put_all-made {ℓ} :
    {V : Type ℓ} (src dst : GoMap V)
    → IsTable (entries src)
    → (out : GoMap V) × (put_all (entries src) (made dst) ≡ ok out) × Merged out src dst
unfolding get
put_all-made src nil_map t = (
  table (insert_all (entries src) []),
  put_all-table (entries src) [],
  λ k. lookup-insert_all (entries src) [] k t,
)
put_all-made src (table m) t = (
  table (insert_all (entries src) m),
  put_all-table (entries src) m,
  λ k. lookup-insert_all (entries src) m k t,
)

-- Writing entries over a map succeeds, or panics.
pub put_all_total {ℓ} :
    {V : Type ℓ} (src : Entries V) (dst : GoMap V)
    → ((out : GoMap V) × (put_all src dst ≡ ok out)) ⊎ (put_all src dst ≡ panic)
unfolding put_all
put_all_total [] dst = inl (dst, refl)
put_all_total ((k, v) ∷ src) nil_map = inr refl
put_all_total ((k, v) ∷ src) (table m) = inl (table _, put_all-table ((k, v) ∷ src) m)

pub put_all-nil_map {ℓ} :
    {V : Type ℓ} (k : String) (v : V) (src : Entries V) → put_all ((k, v) ∷ src) nil_map ≡ panic
unfolding put_all
put_all-nil_map k v src = refl
