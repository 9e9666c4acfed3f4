-- ===== src/Prelude/Dict.antt =====
-- Go's maps with string keys, as association lists in which a key stands at most once.
use prefab_cloud_go.Prelude.Tests.{if◌then◌else◌}
use prefab_cloud_go.Prelude.Text.{GoString, str_eq, str_eq_iff}
use mathlib.Core.Path.{◌≡◌, refl}
use mathlib.Core.Option.{Option, none, some}
use mathlib.Core.List.{List, [], ◌∷◌}
use native.Mathlib.Omega.{arith}

abbrev pub Dict {ℓ} : Type ℓ → Type ℓ
Dict V = List (GoString × V)

module _ {ℓ} {V : Type ℓ} where
  unfoldable pub get : GoString → Dict V → Option V
  get k [] = none
  get k ((j, v) ∷ m) = if str_eq j k then some v else get k m

  unfoldable pub put : GoString → V → Dict V → Dict V
  put k v [] = (k, v) ∷ []
  put k v ((j, w) ∷ m) = if str_eq j k then (k, v) ∷ m else (j, w) ∷ put k v m

  -- `delete(m, k)`.
  unfoldable pub remove : GoString → Dict V → Dict V
  remove k [] = []
  remove k ((j, v) ∷ m) = let rest = remove k m in if str_eq j k then rest else (j, v) ∷ rest

  unfoldable pub keys : Dict V → List GoString
  keys [] = []
  keys ((j, v) ∷ m) = j ∷ keys m

  pub get-put :
      (k j : GoString) (v : V) (m : Dict V)
      → get j (put k v m) ≡ (if str_eq k j then some v else get j m)
  unfolding get put
  get-put k j v [] = refl
  get-put k j v ((i, w) ∷ m) =
      ground (arith, str_eq_iff k j, str_eq_iff i k, str_eq_iff i j, get-put k j v m)

  pub get-remove :
      (k j : GoString) (m : Dict V) → get j (remove k m) ≡ (if str_eq k j then none else get j m)
  unfolding get remove
  get-remove k j [] = ground arith
  get-remove k j ((i, v) ∷ m) =
      ground (arith, str_eq_iff i k, str_eq_iff i j, str_eq_iff k j, get-remove k j m)

pub ruleset dict_laws = (get-put, get-remove)

-- No key stands twice.
abbrev pub IsMap {ℓ} : {V : Type ℓ} → Dict V → Type ℓ
IsMap [] = Unit
IsMap ((k, v) ∷ m) = (get k m ≡ none) × IsMap m

-- `for k, v := range m { onto[k] = v }`.
module _ {ℓ} {V : Type ℓ} where
  unfoldable pub put_all : Dict V → Dict V → Dict V
  unfolding put
  put_all onto [] = onto
  put_all onto ((k, v) ∷ m) = put_all (put k v onto) m

  -- The value of the map that was copied, or else the value that was there.
  abbrev pub or_else : Option V → Option V → Option V
  or_else (some v) o = some v
  or_else none o = o

  pub get-put_all :
      (k : GoString) (onto m : Dict V)
      → IsMap m
      → get k (put_all onto m) ≡ or_else (get k m) (get k onto)
  unfolding put_all get
  get-put_all k onto [] h = refl
  get-put_all k onto ((j, v) ∷ m) h =
      ground (arith, get-put_all k (put j v onto) m, get-put j k v onto, str_eq_iff j k, h)

  pub put-IsMap : (k : GoString) (v : V) (m : Dict V) → IsMap m → IsMap (put k v m)
  unfolding get put
  put-IsMap k v [] h = (refl, tt)
  put-IsMap k v ((j, w) ∷ m) h =
      ground (arith, put-IsMap k v m, get-put k j v m, str_eq_iff j k, str_eq_iff k j)

  pub put_all-IsMap : (onto m : Dict V) → IsMap onto → IsMap (put_all onto m)
  unfolding put_all
  put_all-IsMap onto [] h = h
  put_all-IsMap onto ((k, v) ∷ m) h = put_all-IsMap (put k v onto) m (put-IsMap k v onto h)

  pub remove-IsMap : (k : GoString) (m : Dict V) → IsMap m → IsMap (remove k m)
  unfolding get remove
  remove-IsMap k [] h = tt
  remove-IsMap k ((j, w) ∷ m) h = ground (arith, remove-IsMap k m, get-remove k j m)

  pub or_else-get_nil : (k : GoString) (o : Option V) → or_else o (get k []) ≡ o
  unfolding get
  or_else-get_nil k o = ground arith
