-- ===== src/Client/Binding.antt =====
-- A client that is bound to a context answers as its parent does with that context.
use prefab_cloud_go.Prelude.{
  Bool-cases, GoString, str_eq, str_eq_iff, ret, ◌>>=◌, ◌≡◌, refl, ap, ◌∙◌, inl, inr, Bool, none,
  List, [], ◌∷◌, ◌++◌, arith,
}
use prefab_cloud_go.Prelude.Dict
use prefab_cloud_go.Prelude.Dict.{Dict, IsMap, get-put, put_all-IsMap}
use prefab_cloud_go.Contexts.{NamedContext, ContextSet, merge, new_context_set}
use prefab_cloud_go.Client.{
  Client, of_context, Reader, internal_get_value, process_value, get_value, with_context,
}

-- No key of the second map is in the first.
abbrev AreFresh {ℓ} : {V : Type ℓ} → Dict V → Dict V → Type ℓ
AreFresh onto [] = Unit
AreFresh onto ((k, v) ∷ m) = (Dict.get k onto ≡ none) × AreFresh onto m

put-fresh {ℓ} :
    {V : Type ℓ} (k : GoString) (v : V) (onto : Dict V)
    → Dict.get k onto ≡ none
    → Dict.put k v onto ≡ onto ++ ((k, v) ∷ [])
unfolding Dict.put Dict.get
put-fresh k v [] h = refl
put-fresh k v ((j, w) ∷ onto) h = elim (Bool-cases (str_eq j k)) [
  | inl y ↦ absurd (cc (rw (y) at h))
  | inr n ↦ rw (n) (ap (λ l. (j, w) ∷ l) (put-fresh k v onto (rw (n) at h)))
]

AreFresh-put {ℓ} :
    {V : Type ℓ} (k : GoString) (v : V) (onto m : Dict V)
    → AreFresh onto m
    → Dict.get k m ≡ none
    → AreFresh (Dict.put k v onto) m
unfolding Dict.get
AreFresh-put k v onto [] h e = tt
AreFresh-put k v onto ((j, w) ∷ m) h e = elim (Bool-cases (str_eq j k)) [
  | inl y ↦ absurd (cc (rw (y) at e))
  | inr n ↦ (
    ground (arith, get-put k j v onto, str_eq_iff k j, str_eq_iff j k, n, h.0),
    AreFresh-put k v onto m h.1 (rw (n) at e),
  )
]

snoc_append {ℓ} :
    {A : Type ℓ} (a : List A) (x : A) (b : List A) → (a ++ (x ∷ [])) ++ b ≡ a ++ (x ∷ b)
snoc_append [] x b = refl
snoc_append (y ∷ a) x b = ap (λ l. y ∷ l) (snoc_append a x b)

append_nil {ℓ} : {A : Type ℓ} (l : List A) → l ≡ l ++ []
append_nil [] = refl
append_nil (x ∷ l) = ap (λ r. x ∷ r) (append_nil l)

put_all-fresh {ℓ} :
    {V : Type ℓ} (onto m : Dict V) → IsMap m → AreFresh onto m → Dict.put_all onto m ≡ onto ++ m
unfolding Dict.put_all
put_all-fresh onto [] h f = append_nil onto
put_all-fresh onto ((k, v) ∷ m) h f =
    put_all-fresh (Dict.put k v onto) m h.1 (AreFresh-put k v onto m f.1 h.0)
    ∙ ap (λ l. l ++ m) (put-fresh k v onto f.0)
    ∙ snoc_append onto (k, v) m

AreFresh-nil {ℓ} : {V : Type ℓ} (m : Dict V) → AreFresh [] m
unfolding Dict.get
AreFresh-nil [] = tt
AreFresh-nil ((k, v) ∷ m) = (refl, AreFresh-nil m)

-- A merge holds each context once, and merging it with no other is the same set.
merge_twice :
    (a b : ContextSet) → merge (merge (a ∷ b ∷ []) ∷ new_context_set ∷ []) ≡ merge (a ∷ b ∷ [])
unfolding merge Dict.put_all
merge_twice a b =
    let both : Dict NamedContext = Dict.put_all (Dict.put_all [] a.data_) b.data_ in
    let is_map = put_all-IsMap (Dict.put_all [] a.data_) b.data_ (put_all-IsMap [] a.data_ tt) in
    let same : Dict.put_all [] both ≡ both = put_all-fresh [] both is_map (AreFresh-nil both) in
    ap (λ d. record { data_ = d }) same

-- Every getter of a client that is bound to a further context by `WithContext`, asked without a context,
-- answers as the client that it was bound from, asked with this context; and the client is left as that
-- leaves it.
pub get_value-with_context {ℓ} :
    {T : Type ℓ} (c : Client) (bound set : ContextSet) (reader : Reader T) (in_time : Bool)
    (key : GoString)
    → get_value c (with_context bound set) reader in_time key new_context_set
      ≡ get_value c bound reader in_time key set
unfolding get_value with_context
get_value-with_context c bound set reader in_time key =
    ap
      (λ merged.
        internal_get_value (record c { recorded = of_context merged ∷ c.recorded }) in_time key
          merged
        >>= λ r. ret (r.0, process_value reader r.1))
      (merge_twice bound set)
