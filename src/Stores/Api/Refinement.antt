-- ===== src/Stores/Api/Refinement.antt =====
-- The store against its abstract view: for each key the config with the greatest id.
use prefab_cloud_go.Prelude.{
  if◌then◌else◌, All, ltb_ℤ, GoString, str_eq, str_eq_iff, ◌≡◌, refl, sym, ◌∙◌, false, Option, none,
  some, List, [], ◌∷◌, arith,
}
use prefab_cloud_go.Proto.{Config}
use prefab_cloud_go.Stores.Api.{ApiConfigStore, is_empty, set_config, set_all, get_config}
use prefab_cloud_go.Stores.Api.Updates.{after, get_config-set_config}

-- Of two configs of one key, the first if its id is at least that of the second.
abbrev pub newer : Option Config → Option Config → Option Config
newer none o = o
newer (some a) none = some a
newer (some a) (some b) = if ltb_ℤ a.id b.id then some b else some a

-- The config of the key with the greatest id in a list, the first of those with that id.
pub newest : GoString → List Config → Option Config
newest key [] = none
newest key (config ∷ rest) =
    if str_eq config.key key then newer (some config) (newest key rest) else newest key rest

after-newer :
    (o : Option Config) (new : Config)
    → is_empty new.rows ≡ false
    → after o new ≡ newer o (some new)
after-newer none new h = refl
after-newer (some current) new h = ground arith

newer_assoc : (a b c : Option Config) → newer (newer a b) c ≡ newer a (newer b c)
newer_assoc none b c = refl
newer_assoc (some a) none c = refl
newer_assoc (some a) (some b) none = ground arith
newer_assoc (some a) (some b) (some c) = ground arith

newer-none : (o : Option Config) → newer o none ≡ o
newer-none none = refl
newer-none (some a) = refl

-- One config with rows, on each key.
get-set_config :
    (cs : ApiConfigStore) (config : Config) (key : GoString)
    → is_empty config.rows ≡ false
    → get_config (set_config cs config) key
      ≡ newer (get_config cs key) (if str_eq config.key key then some config else none)
get-set_config cs config key h = ground (
  arith,
  get_config-set_config cs config key,
  str_eq_iff config.key key,
  newer-none (get_config cs key),
  after-newer (get_config cs key) config h,
)

-- Configs that have rows, set one after the other: the store then has for each key the newest of what
-- it had and of what came in.
pub set_all_refines :
    (cs : ApiConfigStore) (configs : List Config) (key : GoString)
    → All (λ config. is_empty config.rows ≡ false) configs
    → get_config (set_all cs configs) key ≡ newer (get_config cs key) (newest key configs)
unfolding set_all newest
set_all_refines cs [] key h = sym (newer-none (get_config cs key))
set_all_refines cs (config ∷ rest) key h =
    set_all_refines (set_config cs config) rest key h.1
    ∙ ground (
      arith,
      get-set_config cs config key h.0,
      newer-none (get_config cs key),
      newer_assoc (get_config cs key) (some config) (newest key rest),
    )
