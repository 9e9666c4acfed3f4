-- ===== src/Stores/Yaml/Keys.antt =====
-- Under which keys the configs of a file stand.
use prefab_cloud_go.Prelude.{
  Bool-cases, All, GoString, codes, has_prefix, join, Outcome, ret, panics, unfinished, ◌>>=◌,
  >>=-eq-ret, ◌≡◌, refl, sym, ap, ◌∙◌, ◌⊎◌, inl, inr, Bool, true, false, Option, none, some, List,
  [], ◌∷◌, ◌++◌,
}
use mathlib.Core.Path.{subst}
use prefab_cloud_go.Errors.{ok}
use prefab_cloud_go.Proto.{Config, ConfigType, ConfigValue}
use prefab_cloud_go.GoValue.{Any, AnyMap, Host}
use prefab_cloud_go.ConfigValues.{create}
use prefab_cloud_go.Stores.Yaml.{
  get_field, yaml_config, if_created, level_value, create_config, one_config, dotted, flag_value,
  value_config, flag_config, leaf_config, map_configs, handle_map_key_value,
}
use prefab_cloud_go.Stores.Yaml.Walk.{AllFields, Yields, handle_map_key_value-Yields}

-- The key, or one that goes on with a dot behind it.
abbrev pub Below : GoString → GoString → Type 0
Below section key = (key ≡ section) ⊎ ((rest : GoString) × (key ≡ section ++ (b'.' ∷ rest)))

append_assoc {ℓ} : {A : Type ℓ} (a b c : List A) → (a ++ b) ++ c ≡ a ++ (b ++ c)
append_assoc [] b c = refl
append_assoc (x ∷ a) b c = ap (λ l. x ∷ l) (append_assoc a b c)

join-snoc :
    (sep p q : GoString) (ps : List GoString)
    → join sep ((p ∷ ps) ++ (q ∷ [])) ≡ join sep (p ∷ ps) ++ (sep ++ q)
unfolding join
join-snoc sep p q [] = refl
join-snoc sep p q (r ∷ ps) =
    ap (λ s. p ++ (sep ++ s)) (join-snoc sep r q ps)
    ∙ ap (λ s. p ++ s) (sym (append_assoc sep (join sep (r ∷ ps)) (sep ++ q)))
    ∙ sym (append_assoc p (sep ++ join sep (r ∷ ps)) (sep ++ q))

dotted_next :
    (path : List GoString) (key next : GoString)
    → dotted (path ++ (key ∷ [])) next ≡ dotted path key ++ (b'.' ∷ next)
unfolding dotted
dotted_next [] key next = join-snoc (codes ".") key next []
dotted_next (p ∷ path) key next = join-snoc (codes ".") p next (path ++ (key ∷ []))

Below-up :
    (path : List GoString) (key next k : GoString)
    → Below (dotted (path ++ (key ∷ [])) next) k
    → Below (dotted path key) k
Below-up path key next k (inl same) = inr (next, same ∙ dotted_next path key next)
Below-up path key next k (inr (rest, same)) = inr (
  next ++ (b'.' ∷ rest),
  same
      ∙ ap (λ s. s ++ (b'.' ∷ rest)) (dotted_next path key next)
      ∙ append_assoc (dotted path key) (b'.' ∷ next) (b'.' ∷ rest),
)

-- No map in the value has the key "feature_flag".
unfoldable mutual
  pub NoFlags : Any → Type 0
  NoFlags (Any.map fields) = (get_field (codes "feature_flag") fields ≡ none) × NoFlagsIn fields
  NoFlags _ = Unit

  pub NoFlagsIn : AnyMap → Type 0
  NoFlagsIn AnyMap.empty = Unit
  NoFlagsIn (AnyMap.field key value rest) = NoFlags value × NoFlagsIn rest

all_fields : (fields : AnyMap) → NoFlagsIn fields → AllFields NoFlags fields
unfolding NoFlags
all_fields AnyMap.empty h = tt
all_fields (AnyMap.field key value rest) h = (h.0, all_fields rest h.1)

created_key :
    (key : GoString) (config_type : ConfigType) (m : Outcome (ConfigValue × Bool)) {config : Config}
    → (m >>= λ made. ret (if_created key config_type made)) ≡ ret (some config)
    → config.key ≡ key
unfolding if_created yaml_config
created_key key config_type (ret (value, true)) {config} h =
    let same : yaml_config key config_type value ≡ config = cc h in sym (ap (λ c. c.key) same)
created_key key config_type (ret (value, false)) h = absurd (cc h)
created_key key config_type panics h = absurd (cc h)
created_key key config_type unfinished h = absurd (cc h)

create_config_key :
    (host : Host) (key : GoString) (value : Any) (config_type : ConfigType) {config : Config}
    → create_config host key value config_type ≡ ret (some config)
    → config.key ≡ key
unfolding create_config
create_config_key host key value config_type h =
    elim (Bool-cases (has_prefix key (codes "log-level"))) [
      | inl y ↦ created_key key ConfigType.log_level_type (level_value host value) (rw (y) at h)
      | inr n ↦ created_key key config_type (create host value) (rw (n) at h)
    ]

-- The one config of a call that returned, with the key.
one_config_key :
    (key : GoString) (m : Outcome (Option Config)) (configs : List Config)
    → ((config : Config) → m ≡ ret (some config) → config.key ≡ key)
    → (m >>= λ made. ret (one_config key made)) ≡ ret (ok configs)
    → (config : Config) × (configs ≡ config ∷ []) × (config.key ≡ key)
unfolding one_config
one_config_key key (ret (some config)) configs f h = (config, cc h, f config refl)
one_config_key key (ret none) configs f h = absurd (cc h)
one_config_key key panics configs f h = absurd (cc h)
one_config_key key unfinished configs f h = absurd (cc h)

leaf-Below :
    (host : Host) (path : List GoString) (key : GoString) (value : Any)
    → Yields (leaf_config host path key value) (λ config. Below (dotted path key) config.key)
unfolding leaf_config
leaf-Below host path key value configs h =
    let full : GoString = dotted path key in
    let (config, one, named) =
      one_config_key full _ configs (λ c e. create_config_key host full value ConfigType.config e)
        h in
    subst (All (λ c. Below full c.key)) (sym one) (inl named, tt)

-- A value in which no map has the key "feature_flag": the key of every config that is made of it is the
-- dotted path of the value, or goes on behind that with a dot.
pub handle_map_key_value-Below :
    (host : Host) (path : List GoString) (key : GoString) (value : Any) (configs : List Config)
    → NoFlags value
    → handle_map_key_value host path key value ≡ ret (ok configs)
    → All (λ config. Below (dotted path key) config.key) configs
unfolding NoFlags
handle_map_key_value-Below host path key value configs h e =
    handle_map_key_value-Yields host NoFlags (λ p k config. Below (dotted p k) config.key)
      (λ fields good. all_fields fields good.1) (leaf-Below host)
      (λ p k fields v good has. absurd (cc (sym good.0 ∙ has)))
      (λ p k next config. Below-up p k next config.key) path key value h configs e

flag_value_key :
    (host : Host) (key : GoString) (config_type : ConfigType) (made : ConfigValue × Bool)
    (configs : List Config)
    → flag_value host key config_type made ≡ ret (ok configs)
    → (config : Config) × (configs ≡ config ∷ []) × (config.key ≡ key)
unfolding flag_value
flag_value_key host key config_type (value, true) configs h =
    one_config_key key _ configs
      (λ c e. create_config_key host key (Any.config_value_pointer value) config_type e) h
flag_value_key host key config_type (value, false) configs h = absurd (cc h)

value_key :
    (host : Host) (key : GoString) (config_type : ConfigType) (o : Option Any)
    (configs : List Config)
    → value_config host key config_type o ≡ ret (ok configs)
    → (config : Config) × (configs ≡ config ∷ []) × (config.key ≡ key)
unfolding value_config
value_key host key config_type none configs h = absurd (cc h)
value_key host key config_type (some value) configs h =
    let (made, _, last) = >>=-eq-ret (create host value) _ h in
    flag_value_key host key config_type made configs last

-- A map with the key "feature_flag" makes one config, and its key is the last part of the path alone:
-- the sections that the map stands in do not count.
pub feature_flag_key :
    (host : Host) (path : List GoString) (key : GoString) (fields : AnyMap) (flag : Any)
    (configs : List Config)
    → get_field (codes "feature_flag") fields ≡ some flag
    → handle_map_key_value host path key (Any.map fields) ≡ ret (ok configs)
    → (config : Config) × (configs ≡ config ∷ []) × (config.key ≡ key)
unfolding handle_map_key_value map_configs flag_config
feature_flag_key host path key fields flag configs has h =
    value_key host key _ (get_field (codes "value") fields) configs (rw (has) at h)
