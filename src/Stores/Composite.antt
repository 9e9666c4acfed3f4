-- ===== src/Stores/Composite.antt =====
-- pkg/internal/stores/composite_config_store.go. Go leaves the order of `Keys` open; here it is the
-- order in which the keys were first met.
pub mod Laws
use prefab_cloud_go.Prelude.{
  ℕ, zero, suc, ◌+◌, ◌-◌, ◌*◌, ◌/◌, ◌%◌, ◌^◌, ◌≤◌, ◌<◌, ltb, leb, ◌==◌, bool_eq, if◌then◌else◌,
  ltb→lt, lt→ltb, leb→le, ==_iff, Bool-cases, Option-cases, length, get_elem?, length-append, All,
  any_of, ℤ, pos, negsuc, pos_part, neg_part, ◌≤ℤ◌, ◌<ℤ◌, ltb_ℤ, leb_ℤ, eq_ℤ, eq_ℤ_iff, GoString,
  codes, str_eq, str_eq_iff, str_eq_refl, str_lt, has_prefix, has_suffix, contains, join, split,
  cons_first, upper_byte, lower_byte, has_prefix_iff, Outcome, ret, panics, unfinished, ◌>>=◌,
  >>=-eq-ret, ◌≡◌, refl, sym, ap, ◌∙◌, ◌≢◌, ◌↔◌, ◌⊎◌, inl, inr, Bool, true, false, not, ◌&&◌, ◌||◌,
  Option, none, some, List, [], ◌∷◌, ◌++◌, map, arith,
}
use prefab_cloud_go.Prelude.Dict
use prefab_cloud_go.Prelude.Dict.{Dict}
use prefab_cloud_go.Proto.{Config}
use prefab_cloud_go.GoValue.{Any}
use prefab_cloud_go.Interfaces.{ConfigStoreGetter}

-- `CompositeConfigStore`: its stores.
abbrev pub CompositeConfigStore : Type 0
CompositeConfigStore = List ConfigStoreGetter

unfoldable pub composite_config : CompositeConfigStore → GoString → Option Config
composite_config [] key = none
composite_config (store ∷ rest) key = elim (store.get_config key) [
  | some config ↦ some config
  | none ↦ composite_config rest key
]

unfoldable pub composite_context_value : CompositeConfigStore → GoString → Option Any
composite_context_value [] name = none
composite_context_value (store ∷ rest) name = elim (store.get_context_value name) [
  | some value ↦ some value
  | none ↦ composite_context_value rest name
]

-- `uniqueKeys[key] = struct{}{}` for every key.
unfoldable pub add_keys : List GoString → Dict {0} Unit → Dict {0} Unit
add_keys [] seen = seen
add_keys (key ∷ keys) seen = add_keys keys (Dict.put key tt seen)

unfoldable pub unique_keys : CompositeConfigStore → Dict {0} Unit → Dict {0} Unit
unique_keys [] seen = seen
unique_keys (store ∷ rest) seen = unique_keys rest (add_keys store.keys seen)

unfoldable pub composite_env_id : CompositeConfigStore → ℤ
composite_env_id [] = pos 0
composite_env_id (store ∷ rest) =
    if eq_ℤ store.get_project_env_id (pos 0)
    then composite_env_id rest
    else store.get_project_env_id

unfoldable pub as_getter : CompositeConfigStore → ConfigStoreGetter
as_getter stores = record {
  get_config = composite_config stores;
  keys = Dict.keys (unique_keys stores []);
  get_context_value = composite_context_value stores;
  get_project_env_id = composite_env_id stores;
}
