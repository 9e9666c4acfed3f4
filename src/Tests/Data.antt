-- ===== src/Tests/Data.antt =====
-- A host whose float64s are whole numbers, and small values, contexts, configs and stores.
use prefab_cloud_go.Prelude.{
  ℕ, ◌*◌, ◌/◌, ltb, leb, if◌then◌else◌, ℤ, pos, pos_part, GoString, codes, str_eq, ret, true, false,
  none, some, List, [], ◌∷◌,
}
use prefab_cloud_go.Proto.{
  ConfigValue, config_value, ConfigValueType, Float64, Config, ConfigRow, Criterion, Operator,
  ConfigType, ValueType, Configs, Provided, ProvidedSource, WeightedValues, weighted, no_more,
}
use prefab_cloud_go.GoValue.{Any, Host}
use prefab_cloud_go.Contexts.{ContextSet}
use prefab_cloud_go.Interfaces.{ConfigStoreGetter, ContextValueGetter}
use prefab_cloud_go.Evaluator.{ConfigRuleEvaluator, ConditionMatch}
use prefab_cloud_go.Resolver.{ConfigResolver, new_config_resolver}
use prefab_cloud_go.Client.{Client, OnInitializationFailure}

abbrev bits : Float64 → ℕ
bits (Float64.float_bits n) = n

abbrev pub whole_number_host : Host
whole_number_host = record {
  float_of_int = λ n. Float64.float_bits (pos_part n);
  int_of_float = λ x. pos (bits x);
  float_lt = λ x y. ltb (bits x) (bits y);
  float_le = λ x y. leb (bits x) (bits y);
  float_mul = λ x y. Float64.float_bits (bits x * bits y);
  float_div = λ x y. Float64.float_bits (bits x / bits y);
  format_value = λ v. [];
  match_regexp = λ pattern text. none;
  parse_rfc3339 = λ text. none;
  unmarshal_json = λ text. none;
  marshal_json = λ m. none;
  parse_duration = λ text. none;
  parse_float = λ text. none;
  murmur3_sum32 = λ text. 0;
  lookup_env = λ name. none;
  now_millis = pos 0;
}

abbrev pub string_value : GoString → ConfigValue
string_value s = config_value (ConfigValueType.string s) none none

abbrev pub int_value : ℤ → ConfigValue
int_value n = config_value (ConfigValueType.int n) none none

abbrev pub secret_value : ConfigValue
secret_value = config_value (ConfigValueType.string (codes "s3")) (some true) none

abbrev pub provided_by_port : Provided
provided_by_port = record { source = some ProvidedSource.env_var; lookup = some (codes "PORT") }

-- user.team is one of the teams.
abbrev pub in_team : Criterion
in_team = record {
  property_name = codes "user.team";
  operator = Operator.prop_is_one_of;
  value_to_match = config_value (ConfigValueType.string_list (codes "core" ∷ [])) none none;
}

-- The segment "staff" holds.
abbrev pub in_staff : Criterion
in_staff = record {
  property_name = [];
  operator = Operator.in_seg;
  value_to_match = string_value (codes "staff");
}

abbrev pub flag_row : ConfigRow
flag_row = record {
  project_env_id = none;
  values =
      record { criteria = in_staff ∷ []; value = int_value (pos 1) }
      ∷ record { criteria = []; value = int_value (pos 0) }
      ∷ [];
}

abbrev config_of : GoString → ℤ → List ConfigRow → Config
config_of key id rows = record {
  id = id;
  key = key;
  rows = rows;
  config_type = ConfigType.config;
  value_type = ValueType.int_type;
}

abbrev pub flag : Config
flag = config_of (codes "flag") (pos 3) (flag_row ∷ [])

abbrev pub new_flag : Config
new_flag = config_of (codes "flag") (pos 7) (flag_row ∷ [])

abbrev pub deleted_flag : Config
deleted_flag = config_of (codes "flag") (pos 9) []

-- "staff" holds for the team.
abbrev pub staff : Config
staff = config_of (codes "staff") (pos 4) (
    record {
      project_env_id = none;
      values =
          record {
            criteria = in_team ∷ [];
            value = config_value (ConfigValueType.bool true) none none;
          }
          ∷ [];
    }
    ∷ [])

abbrev pub core_user : ContextValueGetter
core_user name = if str_eq name (codes "user.team") then some (Any.string (codes "core")) else none

abbrev pub staff_store : ConfigStoreGetter
staff_store = record {
  get_config = λ key. if str_eq key (codes "staff") then some staff else none;
  keys = codes "staff" ∷ [];
  get_context_value = λ name. none;
  get_project_env_id = pos 1;
}

abbrev pub evaluator : ConfigRuleEvaluator
evaluator = record { host = whole_number_host; config_store = staff_store; project_env_id = pos 1 }

abbrev pub batch : Configs
batch = record {
  configs = flag ∷ staff ∷ [];
  config_service_pointer = some (pos 1);
  default_context = none;
}

unfoldable pub staff_resolver : ConfigResolver
unfolding new_config_resolver
staff_resolver =
    new_config_resolver whole_number_host (record { open_gcm = λ key iv sealed. none }) staff_store
      2 (Float64.float_bits 1) (λ name. some (codes "8080"))

-- A resolver whose rule evaluation gives one match.
abbrev pub resolver_to : ConditionMatch → ConfigResolver
resolver_to m = record staff_resolver { evaluate = λ config context. ret m }

abbrev pub match_to : ConfigValue → ConditionMatch
match_to v = record {
  match = v;
  row_index = some 0;
  conditional_value_index = some 0;
  is_match = true;
}

abbrev pub halves : WeightedValues
halves =
    weighted (pos 1) (string_value (codes "a"))
      (weighted (pos 1) (string_value (codes "b")) no_more)

abbrev pub user_context : ContextSet
user_context = record {
  data_ =
      (
        codes "user",
        record { data_ = (codes "key", Any.string (codes "u1")) ∷ []; name = codes "user" },
      )
      ∷ [];
}

abbrev pub odd_context : ContextSet
odd_context = record {
  data_ =
      (codes "user", record { data_ = (codes "key", Any.bool true) ∷ []; name = codes "user" })
      ∷ [];
}

-- A client whose first configs have not come in.
abbrev pub waiting_client : Client
waiting_client = record {
  on_initialization_failure = OnInitializationFailure.return_nil_match;
  global_context = user_context;
  config_store = staff_store;
  config_resolver = record (resolver_to (match_to (int_value (pos 5)))) {
    config_store = staff_store;
  };
  initialized = false;
  recorded = [];
}
