-- ===== src/Stores/Composite/Laws.antt =====
-- Which store answers, and that the keys of the composite are the keys of its configs.
use prefab_cloud_go.Prelude.{
  Option-cases, All, any_of, GoString, str_eq, ◌≡◌, refl, ◌∙◌, ◌↔◌, inl, inr, Bool, true, false,
  ◌||◌, Option, none, some, List, [], ◌∷◌, arith,
}
use prefab_cloud_go.Prelude.Dict
use prefab_cloud_go.Prelude.Dict.{Dict, IsMap, get-put, put-IsMap}
use prefab_cloud_go.Proto.{Config}
use prefab_cloud_go.Interfaces.{ConfigStoreGetter}
use prefab_cloud_go.Stores.Composite.{
  CompositeConfigStore, composite_config, add_keys, unique_keys, as_getter,
}
use prefab_cloud_go.Stores.Api
use prefab_cloud_go.Stores.Api.{ApiConfigStore}
use prefab_cloud_go.Contexts.{ContextSet}

-- The first store that has the key has this config for it.
pub data FirstStore (key : GoString) (config : Config) : List ConfigStoreGetter → Type 0 where
  here :
      {store : ConfigStoreGetter} {rest : List ConfigStoreGetter}
      → store.get_config key ≡ some config
      → FirstStore key config (store ∷ rest)
  later :
      {store : ConfigStoreGetter} {rest : List ConfigStoreGetter}
      → store.get_config key ≡ none
      → FirstStore key config rest
      → FirstStore key config (store ∷ rest)

FirstStore-composite_config :
    {key : GoString} {config : Config} {stores : CompositeConfigStore}
    → FirstStore key config stores
    → composite_config stores key ≡ some config
unfolding composite_config
FirstStore-composite_config (here e) = rw e
FirstStore-composite_config (later e f) = rw e (FirstStore-composite_config f)

composite_config-FirstStore :
    (stores : CompositeConfigStore) (key : GoString) (config : Config)
    → composite_config stores key ≡ some config
    → FirstStore key config stores
unfolding composite_config
composite_config-FirstStore [] key config e = absurd (cc e)
composite_config-FirstStore (store ∷ rest) key config e =
    elim (Option-cases (store.get_config key)) [
      | inl h ↦ later h (composite_config-FirstStore rest key config (rw h at e))
      | inr h ↦ here (h.1 ∙ (rw h.1 at e))
    ]

-- The composite store has a config for a key exactly if some store has it, and then it is the config
-- of the first store that has the key.
pub composite_config_iff :
    (stores : CompositeConfigStore) (key : GoString) (config : Config)
    → ((as_getter stores).get_config key ≡ some config) ↔ FirstStore key config stores
unfolding as_getter
composite_config_iff stores key config =
    (composite_config-FirstStore stores key config, FirstStore-composite_config)

abbrev pub is_some {ℓ} : {A : Type ℓ} → Option A → Bool
is_some (some a) = true
is_some none = false

-- The keys that a store lists are those it has a config for.
abbrev pub ListsItsKeys : ConfigStoreGetter → Type 0
ListsItsKeys store =
    (key : GoString)
    → any_of (λ listed. str_eq listed key) store.keys ≡ is_some (store.get_config key)

any_of-keys {ℓ} :
    {V : Type ℓ} (m : Dict V) (key : GoString)
    → any_of (λ listed. str_eq listed key) (Dict.keys m) ≡ is_some (Dict.get key m)
unfolding any_of Dict.keys Dict.get
any_of-keys [] key = refl
any_of-keys ((k, v) ∷ m) key = ground (arith, any_of-keys m key)

is_some-add_keys :
    (keys : List GoString) (seen : Dict {0} Unit) (key : GoString)
    → is_some (Dict.get key (add_keys keys seen))
      ≡ (any_of (λ listed. str_eq listed key) keys || is_some (Dict.get key seen))
unfolding add_keys any_of
is_some-add_keys [] seen key = refl
is_some-add_keys (k ∷ keys) seen key =
    ground (arith, is_some-add_keys keys (Dict.put k tt seen) key, get-put k key tt seen)

is_some-unique_keys :
    (stores : CompositeConfigStore) (seen : Dict {0} Unit) (key : GoString)
    → All ListsItsKeys stores
    → is_some (Dict.get key (unique_keys stores seen))
      ≡ (is_some (composite_config stores key) || is_some (Dict.get key seen))
unfolding unique_keys composite_config
is_some-unique_keys [] seen key h = refl
is_some-unique_keys (store ∷ rest) seen key h = ground (
  arith,
  is_some-unique_keys rest (add_keys store.keys seen) key h.1,
  is_some-add_keys store.keys seen key,
  h.0 key,
)

add_keys-IsMap :
    (keys : List GoString) (seen : Dict {0} Unit) → IsMap seen → IsMap (add_keys keys seen)
unfolding add_keys
add_keys-IsMap [] seen h = h
add_keys-IsMap (k ∷ keys) seen h = add_keys-IsMap keys (Dict.put k tt seen) (put-IsMap k tt seen h)

unique_keys-IsMap :
    (stores : CompositeConfigStore) (seen : Dict {0} Unit)
    → IsMap seen
    → IsMap (unique_keys stores seen)
unfolding unique_keys
unique_keys-IsMap [] seen h = h
unique_keys-IsMap (store ∷ rest) seen h =
    unique_keys-IsMap rest (add_keys store.keys seen) (add_keys-IsMap store.keys seen h)

or_false : (b : Bool) → (b || false) ≡ b
or_false true = refl
or_false false = refl

-- If every store lists the keys that it has a config for, then so does the composite store, and it
-- lists none of them twice.
pub composite-ListsItsKeys :
    (stores : CompositeConfigStore)
    → All ListsItsKeys stores
    → ListsItsKeys (as_getter stores) × IsMap (unique_keys stores [])
unfolding as_getter Dict.get
composite-ListsItsKeys stores h = (
  λ key.
      any_of-keys (unique_keys stores []) key
      ∙ is_some-unique_keys stores [] key h
      ∙ or_false (is_some (composite_config stores key)),
  unique_keys-IsMap stores [] tt,
)

pub api-ListsItsKeys :
    (cs : ApiConfigStore) (set : ContextSet) → ListsItsKeys (Api.as_getter cs set)
unfolding Api.as_getter Api.get_config
api-ListsItsKeys cs set key = any_of-keys cs.config_map key
