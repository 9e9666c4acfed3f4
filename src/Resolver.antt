-- ===== src/Resolver.antt =====
-- pkg/internal/config_resolver.go. Fields that the source types by an interface are functions.
pub mod Coercion
pub mod Outcomes
pub mod Confidential
use prefab_cloud_go.Prelude.{
  ℕ, zero, suc, ◌+◌, ◌-◌, ◌*◌, ◌/◌, ◌%◌, ◌^◌, ◌≤◌, ◌<◌, ltb, leb, ◌==◌, bool_eq, if◌then◌else◌,
  ltb→lt, lt→ltb, leb→le, ==_iff, Bool-cases, Option-cases, length, get_elem?, length-append, All,
  any_of, ℤ, pos, negsuc, pos_part, neg_part, ◌≤ℤ◌, ◌<ℤ◌, ltb_ℤ, leb_ℤ, eq_ℤ, eq_ℤ_iff, GoString,
  codes, str_eq, str_eq_iff, str_eq_refl, str_lt, has_prefix, has_suffix, contains, join, split,
  cons_first, upper_byte, lower_byte, has_prefix_iff, Outcome, ret, panics, unfinished, ◌>>=◌,
  >>=-eq-ret, ◌≡◌, refl, sym, ap, ◌∙◌, ◌≢◌, ◌↔◌, ◌⊎◌, inl, inr, Bool, true, false, not, ◌&&◌, ◌||◌,
  Option, none, some, List, [], ◌∷◌, ◌++◌, arith,
}
use prefab_cloud_go.Prelude.Decimal.{atoi}
use prefab_cloud_go.Errors.{Error, Result, ok, err}
use prefab_cloud_go.Proto.{
  ConfigValue, nil_value, config_value, ConfigValueType, WeightedValues, Provided, ProvidedSource,
  Config, ConfigType, ValueType, Float64, get_type, get_confidential, get_decrypt_with, get_source,
  get_string,
}
use prefab_cloud_go.GoValue.{Any, IntKind, Host}
use prefab_cloud_go.ConfigValues.{create, extract_value, Extracted}
use prefab_cloud_go.Interfaces.{ContextValueGetter, ConfigStoreGetter}
use prefab_cloud_go.Evaluator.{ConditionMatch, ConfigRuleEvaluator, evaluate_config}
use prefab_cloud_go.Weighted
use prefab_cloud_go.Encryption.{Cipher, decrypt_value}

pub record ConfigMatch : Type 0 where
  pub config_id : ℤ
  pub config_type : ConfigType
  pub original_match : ConfigValue
  pub match : ConfigValue
  pub config_key : GoString
  pub weighted_value_index : Option ℕ
  pub row_index : Option ℕ
  pub conditional_value_index : Option ℕ
  pub is_match : Bool

pub record ConfigResolver : Type 0 where
  pub host : Host
  pub config_store : ConfigStoreGetter
  pub evaluate : Config → ContextValueGetter → Outcome ConditionMatch
  pub resolve_weighted :
      WeightedValues → Option GoString → GoString → ContextValueGetter → Outcome (ConfigValue × ℕ)
  pub decrypt : GoString → GoString → Outcome (Result GoString)
  pub lookup_env : GoString → Option GoString
  pub context_getter : ContextValueGetter

-- `NewConfigResolver`, with the depth of segments that is followed and the random draw.
unfoldable pub new_config_resolver :
    Host → Cipher → ConfigStoreGetter → ℕ → Float64 → (GoString → Option GoString) → ConfigResolver
new_config_resolver host cipher store fuel draw lookup_env = record {
  host = host;
  config_store = store;
  evaluate = λ config context.
      evaluate_config
        (record { host = host; config_store = store; project_env_id = store.get_project_env_id })
        context fuel config;
  resolve_weighted = Weighted.resolve host draw;
  decrypt = decrypt_value cipher;
  lookup_env = lookup_env;
  context_getter = store.get_context_value;
}

-- `multiContextGetter` over the passed and the implicit context.
unfoldable pub multi_context : ContextValueGetter → ContextValueGetter → ContextValueGetter
multi_context passed implicit name = elim (passed name) [ some v ↦ some v | none ↦ implicit name ]

-- `NewConfigMatchFromConditionMatch`, and the three fields set behind its call.
unfoldable pub config_match_of : ConditionMatch → GoString → Config → ConfigMatch
config_match_of m key config = record {
  config_id = config.id;
  config_type = config.config_type;
  original_match = m.match;
  match = m.match;
  config_key = key;
  weighted_value_index = none;
  row_index = m.row_index;
  conditional_value_index = m.conditional_value_index;
  is_match = m.is_match;
}

look_up : ConfigResolver → Option GoString → Option GoString
look_up c none = none
look_up c (some key) = c.lookup_env key

unfoldable pub handle_provided : ConfigResolver → Provided → Option GoString
unfolding look_up get_source
handle_provided c provided = elim (get_source provided) [
  | ProvidedSource.env_var ↦ look_up c provided.lookup
  | _ ↦ none
]

-- `strconv.ParseBool`.
unfoldable pub parse_bool : GoString → Option Bool
parse_bool s =
    if any_of (str_eq s)
      (codes "1" ∷ codes "t" ∷ codes "T" ∷ codes "TRUE" ∷ codes "true" ∷ codes "True" ∷ [])
    then some true
    else if any_of (str_eq s)
        (codes "0" ∷ codes "f" ∷ codes "F" ∷ codes "FALSE" ∷ codes "false" ∷ codes "False" ∷ [])
    then some false
    else none

as_any {ℓ} : {A : Type ℓ} → (A → Any) → Option A → Option Any
as_any f (some a) = some (f a)
as_any f none = none

-- `none` where the coercion does not work.
unfoldable pub coerce_value : Host → GoString → ValueType → Option Any
unfolding as_any
coerce_value host value ValueType.string_type = some (Any.string value)
coerce_value host value ValueType.not_set_value_type = some (Any.string value)
coerce_value host value ValueType.int_type = as_any (Any.int IntKind.plain) (atoi value)
coerce_value host value ValueType.double_type = as_any Any.float64 (host.parse_float value)
coerce_value host value ValueType.bool_type = as_any Any.bool (parse_bool value)
coerce_value host value _ = none

decrypt_with_key : ConfigResolver → Any → GoString → Outcome (Result GoString)
decrypt_with_key c (Any.string key) text = c.decrypt key text
decrypt_with_key c _ text = ret (err Error.secret_key_not_string)

with_secret : ConfigResolver → Extracted → GoString → Outcome (Result GoString)
unfolding decrypt_with_key
with_secret c key text =
    if key.ok then decrypt_with_key c key.value text else ret (err Error.secret_key_lookup_failed)

secret_match : ConfigResolver → ConditionMatch → GoString → Outcome (Result GoString)
unfolding with_secret
secret_match c m text =
    if m.is_match
    then with_secret c (extract_value c.host m.match) text
    else ret (err Error.no_match_in_config_value)

secret_config :
    ConfigResolver → ContextValueGetter → Option Config → GoString → Outcome (Result GoString)
unfolding secret_match
secret_config c context none text = ret (err Error.no_config_value_exists)
secret_config c context (some config) text = do m ← c.evaluate config context; secret_match c m text

unfoldable pub handle_decryption :
    ConfigResolver → ConfigValue → ContextValueGetter → Outcome (Result GoString)
unfolding secret_config
handle_decryption c cv context =
    secret_config c context (c.config_store.get_config (get_decrypt_with cv))
      (get_string (get_type cv))

-- A match so far, whether `Match` is another object than `OriginalMatch`, and the error with which
-- the function returned early.
pub record Step : Type 0 where
  pub config_match : ConfigMatch
  pub replaced : Bool
  pub error : Option Error

abbrev keep : ConfigMatch → Step
keep m = record { config_match = m; replaced = false; error = none }

abbrev fail : ConfigMatch → Error → Step
fail m e = record { config_match = m; replaced = false; error = some e }

abbrev replace : ConfigMatch → ConfigValue → Step
replace m v = record { config_match = record m { match = v }; replaced = true; error = none }

coerced_step : ConfigResolver → ConfigMatch → Option Any → Outcome Step
coerced_step c m none = ret (fail m Error.type_coercion_failed)
coerced_step c m (some v) = create c.host v >>= λ made. ret (replace m made.0)

env_step : ConfigResolver → ConfigMatch → ValueType → Option GoString → Outcome Step
unfolding coerced_step
env_step c m type none = ret (fail m Error.env_var_not_exist)
env_step c m type (some value) = coerced_step c m (coerce_value c.host value type)

provided_step : ConfigResolver → ConfigMatch → ValueType → Option Provided → Outcome Step
unfolding env_step
provided_step c m type none = ret (keep m)
provided_step c m type (some p) = env_step c m type (handle_provided c p)

weighted_step :
    ConfigResolver
    → ConfigMatch
    → ContextValueGetter
    → WeightedValues
    → Option GoString
    → Outcome Step
weighted_step c m context values hash_by =
    c.resolve_weighted values hash_by m.config_key context >>= λ r.
    ret (replace (record m { weighted_value_index = some r.1 }) r.0)

-- `BoolPtr(true)` on a message; on nil the assignment is a panic.
set_confidential : ConfigValue → Outcome ConfigValue
set_confidential nil_value = panics
set_confidential (config_value t c d) = ret (config_value t (some true) d)

decrypted_step : ConfigResolver → ConfigMatch → Result GoString → Outcome Step
unfolding set_confidential
decrypted_step c m (err e) = ret (fail m e)
decrypted_step c m (ok text) = do
  made ← create c.host (Any.string text)
  value ← set_confidential made.0
  ret (replace m value)

string_step : ConfigResolver → ConfigMatch → ContextValueGetter → Outcome Step
unfolding decrypted_step
string_step c m context =
    if str_eq (get_decrypt_with m.match) []
    then ret (keep m)
    else do text ← handle_decryption c m.match context; decrypted_step c m text

-- The switch over the type of the match.
unfoldable pub resolve_step :
    ConfigResolver → ConfigMatch → ContextValueGetter → ValueType → ConfigValueType → Outcome Step
unfolding weighted_step provided_step string_step
resolve_step c m context type (ConfigValueType.weighted_values values hash_by) =
    weighted_step c m context values hash_by
resolve_step c m context type (ConfigValueType.provided p) = provided_step c m type p
resolve_step c m context type (ConfigValueType.string s) = string_step c m context
resolve_step c m context type _ = ret (keep m)

-- Behind the switch: a confidential original makes what replaced it confidential.
unfoldable pub finish : Step → Outcome (ConfigMatch × Option Error)
unfolding set_confidential
finish s = elim s.error [
  | some e ↦ ret (s.config_match, some e)
  | none ↦
      if s.replaced
        && str_eq (get_decrypt_with s.config_match.original_match) []
        && get_confidential s.config_match.original_match
      then (set_confidential s.config_match.match >>= λ v.
          ret (record s.config_match { match = v }, none))
      else ret (s.config_match, none)
]

unfoldable pub resolve_value_for_config :
    ConfigResolver → Config → ContextValueGetter → GoString → Outcome (ConfigMatch × Option Error)
resolve_value_for_config c config passed key =
    let context = multi_context passed c.context_getter in
    c.evaluate config context >>= λ rule_match.
    resolve_step c (config_match_of rule_match key config) context config.value_type
      (get_type rule_match.match)
    >>= finish

-- The zero ConfigMatch with its key.
abbrev pub missing : GoString → ConfigMatch
missing key = record {
  config_id = pos 0;
  config_type = ConfigType.not_set_config_type;
  original_match = nil_value;
  match = nil_value;
  config_key = key;
  weighted_value_index = none;
  row_index = none;
  conditional_value_index = none;
  is_match = false;
}

unfoldable pub resolve_value :
    ConfigResolver → GoString → ContextValueGetter → Outcome (ConfigMatch × Option Error)
resolve_value c key context = elim (c.config_store.get_config key) [
  | none ↦ ret (missing key, some Error.config_does_not_exist)
  | some config ↦ resolve_value_for_config c config context key
]
