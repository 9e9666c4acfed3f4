-- ===== src/Stores/Yaml/Walk.antt =====
-- The walk over nested maps: what holds of the configs of leaves and of flags, and is passed on from a
-- field to its map, holds of all configs.
use prefab_cloud_go.Prelude.{
  if◌then◌else◌, All, All-append, All-map, ℤ, GoString, codes, str_eq, Outcome, ret, ◌≡◌, refl, ap,
  ◌∙◌, Bool, true, false, Option, none, some, List, [], ◌∷◌, ◌++◌,
}
use mathlib.Core.Path.{subst}
use prefab_cloud_go.Errors.{Result, ok, unless_error-eq-ok}
use prefab_cloud_go.Proto.{Config}
use prefab_cloud_go.GoValue.{Any, AnyMap, Host}
use prefab_cloud_go.Stores.Yaml.{
  get_field, leaf_config, flag_config, underscore_config, map_configs, followed_by,
  handle_map_key_value, handle_fields, handle_all, parsed_file, parse_yaml,
}

-- Every value of a field has the property.
abbrev pub AllFields : (Any → Type 0) → AnyMap → Type 0
AllFields P AnyMap.empty = Unit
AllFields P (AnyMap.field k v rest) = P v × AllFields P rest

-- What a call that returned configs says of them.
abbrev pub Yields : Outcome (Result (List Config)) → (Config → Type 0) → Type 0
Yields m P = (configs : List Config) → m ≡ ret (ok configs) → All P configs

followed_by-Yields :
    (P : Config → Type 0) (first others : Outcome (Result (List Config)))
    → Yields first P
    → Yields others P
    → Yields (followed_by first others) P
followed_by-Yields P first others f g made h =
    let (configs, e, rest) = unless_error-eq-ok first _ h in
    let (more, e', last) = unless_error-eq-ok others _ rest in
    let same : configs ++ more ≡ made = cc last in
    subst (All P) same (All-append P configs more (f configs e) (g more e'))

module _ (host : Host) (Good : Any → Type 0) (P : List GoString → GoString → Config → Type 0)
    (fields_good : (fields : AnyMap) → Good (Any.map fields) → AllFields Good fields)
    (leaf : (path : List GoString) (key : GoString) (value : Any)
      → Yields (leaf_config host path key value) (P path key))
    (flag : (path : List GoString) (key : GoString) (fields : AnyMap) (value : Any)
      → Good (Any.map fields)
      → get_field (codes "feature_flag") fields ≡ some value
      → Yields (flag_config host key fields value) (P path key))
    (up : (path : List GoString) (key next : GoString) (config : Config)
      → P (path ++ (key ∷ [])) next config
      → P path key config) where
  underscore-Yields :
      (path : List GoString) (key : GoString) (o : Option Any)
      → Yields (underscore_config host path key o) (P path key)
  unfolding underscore_config
  underscore-Yields path key none configs h =
      let same : [] ≡ configs = cc h in subst (All (P path key)) same tt
  underscore-Yields path key (some value) configs h = leaf path key value configs h

  section_step :
      (path : List GoString) (key : GoString) (fields : AnyMap) (o : Option Any)
      → Good (Any.map fields)
      → get_field (codes "feature_flag") fields ≡ o
      → Yields (handle_fields host (path ++ (key ∷ [])) fields) (P path key)
      → Yields
          (map_configs host path key fields o (handle_fields host (path ++ (key ∷ [])) fields))
          (P path key)
  unfolding map_configs
  section_step path key fields (some value) good e nested = flag path key fields value good e
  section_step path key fields none good e nested =
      followed_by-Yields (P path key) _ _
        (underscore-Yields path key (get_field (codes "_") fields)) nested

  field_step :
      (path : List GoString) (key : GoString) (skipped : Bool)
      (first others : Outcome (Result (List Config)))
      → Yields first (P path key)
      → Yields others (P path key)
      → Yields (if skipped then others else followed_by first others) (P path key)
  field_step path key true first others f g = g
  field_step path key false first others f g = followed_by-Yields (P path key) first others f g

  mutual
    unfolding handle_map_key_value

    pub handle_map_key_value-Yields :
        (path : List GoString) (key : GoString) (value : Any)
        → Good value
        → Yields (handle_map_key_value host path key value) (P path key)
    handle_map_key_value-Yields path key (Any.map fields) good =
        section_step path key fields (get_field (codes "feature_flag") fields) good refl
          (handle_fields-Yields path key fields (fields_good fields good))
    handle_map_key_value-Yields path key value good = leaf path key value

    handle_fields-Yields :
        (path : List GoString) (key : GoString) (fields : AnyMap)
        → AllFields Good fields
        → Yields (handle_fields host (path ++ (key ∷ [])) fields) (P path key)
    handle_fields-Yields path key AnyMap.empty good configs h =
        let same : [] ≡ configs = cc h in subst (All (P path key)) same tt
    handle_fields-Yields path key (AnyMap.field next value rest) good made e =
        field_step path key (str_eq next (codes "_")) _ _
          (λ configs h.
            All-map (P (path ++ (key ∷ [])) next) (P path key) configs
              (λ config. up path key next config)
              (handle_map_key_value-Yields (path ++ (key ∷ [])) next value good.0 configs h))
          (handle_fields-Yields path key rest good.1) made e

  pub handle_all-Yields :
      (R : Config → Type 0)
      → ((key : GoString) (config : Config) → P [] key config → R config)
      → (fields : AnyMap) → AllFields Good fields
      → Yields (handle_all host fields) R
  unfolding handle_all
  handle_all-Yields R top AnyMap.empty good configs h =
      let same : [] ≡ configs = cc h in subst (All R) same tt
  handle_all-Yields R top (AnyMap.field key value rest) good made e =
      followed_by-Yields R (handle_map_key_value host [] key value) (handle_all host rest)
        (λ configs h.
          All-map (P [] key) R configs (top key)
            (handle_map_key_value-Yields [] key value good.0 configs h))
        (handle_all-Yields R top rest good.1) made e

of_file :
    (host : Host) (file : Option AnyMap) (configs : List Config) (env_id : ℤ)
    → parsed_file host file ≡ ret (ok (configs, env_id))
    → (fields : AnyMap) × (file ≡ some fields) × (handle_all host fields ≡ ret (ok configs))
unfolding parsed_file
of_file host none configs env_id h = absurd (cc h)
of_file host (some fields) configs env_id h =
    let (made, e, last) = unless_error-eq-ok (handle_all host fields) _ h in
    let same : made ≡ configs = cc last in (fields, refl, e ∙ ap (λ c. ret (ok c)) same)

-- A file that is parsed holds a map, and its configs are those of the map.
pub parse_yaml-handle_all :
    (host : Host) (unmarshal_yaml : GoString → Option AnyMap) (yaml_data : GoString)
    (configs : List Config) (env_id : ℤ)
    → parse_yaml host unmarshal_yaml yaml_data ≡ ret (ok (configs, env_id))
    → (fields : AnyMap) × (unmarshal_yaml yaml_data ≡ some fields)
      × (handle_all host fields ≡ ret (ok configs))
unfolding parse_yaml
parse_yaml-handle_all host unmarshal_yaml yaml_data = of_file host (unmarshal_yaml yaml_data)
