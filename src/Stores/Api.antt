-- ===== src/Stores/Api.antt =====
-- pkg/internal/stores/apiconfigstore.go. The lock makes each method one step; a run of the store is a
-- sequence of steps.
pub mod Updates
pub mod Watermark
pub mod Fetch
pub mod Refinement
use prefab_cloud_go.Prelude.{
  ℕ, zero, suc, ◌+◌, ◌-◌, ◌*◌, ◌/◌, ◌%◌, ◌^◌, ◌≤◌, ◌<◌, ltb, leb, ◌==◌, bool_eq, if◌then◌else◌,
  ltb→lt, lt→ltb, leb→le, ==_iff, Bool-cases, Option-cases, length, get_elem?, length-append, All,
  any_of, ℤ, pos, negsuc, pos_part, neg_part, ◌≤ℤ◌, ◌<ℤ◌, ltb_ℤ, leb_ℤ, eq_ℤ, eq_ℤ_iff, GoString,
  codes, str_eq, str_eq_iff, str_eq_refl, str_lt, has_prefix, has_suffix, contains, join, split,
  cons_first, upper_byte, lower_byte, has_prefix_iff, Outcome, ret, panics, unfinished, ◌>>=◌,
  >>=-eq-ret, ◌≡◌, refl, sym, ap, ◌∙◌, ◌≢◌, ◌↔◌, ◌⊎◌, inl, inr, Bool, true, false, not, ◌&&◌, ◌||◌,
  Option, none, some, List, [], ◌∷◌, ◌++◌, arith, Outcome, ret, panics,
}
use prefab_cloud_go.Prelude.Dict
use prefab_cloud_go.Prelude.Dict.{Dict}
use prefab_cloud_go.Proto.{Config, ConfigRow, Configs, get_project_env_id}
use prefab_cloud_go.GoValue.{Any, Host}
use prefab_cloud_go.Contexts.{ContextSet, new_context_set_from_proto, get_context_value}
use prefab_cloud_go.Interfaces.{ConfigStoreGetter}

pub record ApiConfigStore : Type 0 where
  pub config_map : Dict Config
  pub context_set : Option ContextSet
  pub high_watermark : ℤ
  pub project_env_id : ℤ
  pub initialized : Bool

-- The store that `NewAPIConfigStore` makes. Its context set is nil until configs come in.
abbrev pub new_api_config_store : ApiConfigStore
new_api_config_store = record {
  config_map = [];
  context_set = none;
  high_watermark = pos 0;
  project_env_id = pos 0;
  initialized = false;
}

abbrev pub is_empty {ℓ} : {A : Type ℓ} → List A → Bool
is_empty [] = true
is_empty (x ∷ xs) = false

-- The switch of `setConfig`: the second case is `(!empty && exists && newer) || !exists`.
updated_map : Config → Option Config → Dict Config → Dict Config
updated_map new none m = Dict.put new.key new m
updated_map new (some current) m =
    if is_empty new.rows && ltb_ℤ current.id new.id
    then Dict.remove new.key m
    else if not (is_empty new.rows) && ltb_ℤ current.id new.id
    then Dict.put new.key new m
    else m

unfoldable pub set_config : ApiConfigStore → Config → ApiConfigStore
unfolding updated_map
set_config cs new = record cs {
  config_map = updated_map new (Dict.get new.key cs.config_map) cs.config_map;
  high_watermark = if ltb_ℤ cs.high_watermark new.id then new.id else cs.high_watermark;
}

unfoldable pub set_all : ApiConfigStore → List Config → ApiConfigStore
set_all cs [] = cs
set_all cs (config ∷ rest) = set_all (set_config cs config) rest

unfoldable pub set_configs : ApiConfigStore → List Config → ℤ → ApiConfigStore
set_configs cs configs env_id =
    set_all (record cs { initialized = true; project_env_id = env_id }) configs

unfoldable pub set_from_configs_proto : Host → ApiConfigStore → Configs → ApiConfigStore
set_from_configs_proto host cs configs =
    set_configs
      (record cs { context_set = some (new_context_set_from_proto host configs.default_context) })
      configs.configs (get_project_env_id configs.config_service_pointer)

unfoldable pub get_config : ApiConfigStore → GoString → Option Config
get_config cs key = Dict.get key cs.config_map

-- `GetContextValue`: a nil context set is dereferenced.
unfoldable pub api_context_value : ApiConfigStore → GoString → Outcome (Option Any)
api_context_value cs property_name = elim cs.context_set [
  | none ↦ panics
  | some set ↦ ret (get_context_value set property_name)
]

-- The store as a `ConfigStoreGetter`, once it has a context set.
unfoldable pub as_getter : ApiConfigStore → ContextSet → ConfigStoreGetter
as_getter cs set = record {
  get_config = get_config cs;
  keys = Dict.keys cs.config_map;
  get_context_value = get_context_value set;
  get_project_env_id = cs.project_env_id;
}

abbrev pub max_retries : ℕ
max_retries = 10

-- What `fetchFromServer` does: the store, how often `finishedLoading` and `then` were called, whether
-- it returned an error, and the seconds that it slept.
pub record Fetched : Type 0 where
  pub store : ApiConfigStore
  pub finished_calls : ℕ
  pub then_calls : ℕ
  pub failed : Bool
  pub slept : ℕ

abbrev pub loaded : Host → ApiConfigStore → Configs → ℕ → Fetched
loaded host cs configs slept = record {
  store = set_from_configs_proto host cs configs;
  finished_calls = 1;
  then_calls = 1;
  failed = false;
  slept = slept;
}

abbrev pub gave_up : ApiConfigStore → ℕ → Fetched
gave_up cs slept = record {
  store = cs;
  finished_calls = 0;
  then_calls = 1;
  failed = true;
  slept = slept;
}

-- `load n` is the answer to the request of the attempt n, `none` for an error; `left` is
-- `maxRetries - retriesAttempted`.
unfoldable pub fetch_left : Host → (ℕ → Option Configs) → ApiConfigStore → ℕ → ℕ → ℕ → Fetched
fetch_left host load cs zero attempted slept = elim (load attempted) [
  | some configs ↦ loaded host cs configs slept
  | none ↦ gave_up cs slept
]
fetch_left host load cs (suc left) attempted slept = elim (load attempted) [
  | some configs ↦ loaded host cs configs slept
  | none ↦ fetch_left host load cs left (suc attempted) (slept + attempted)
]

unfoldable pub fetch_from_server : Host → (ℕ → Option Configs) → ApiConfigStore → Fetched
unfolding fetch_left
fetch_from_server host load cs = fetch_left host load cs max_retries 0 0
