-- ===== src/Client.antt =====
-- pkg/client.go: the getters, and the wait for the first configs. How long the client waits is the
-- input `in_time` of a call: whether loading finishes before the timeout.
pub mod Startup
pub mod Waiting
pub mod Getters
pub mod Typed
pub mod Unbound
pub mod Binding
use prefab_cloud_go.Prelude.{
  ℕ, zero, suc, ◌+◌, ◌-◌, ◌*◌, ◌/◌, ◌%◌, ◌^◌, ◌≤◌, ◌<◌, ltb, leb, ◌==◌, bool_eq, if◌then◌else◌,
  ltb→lt, lt→ltb, leb→le, ==_iff, Bool-cases, Option-cases, length, get_elem?, length-append, All,
  any_of, ℤ, pos, negsuc, pos_part, neg_part, ◌≤ℤ◌, ◌<ℤ◌, ltb_ℤ, leb_ℤ, eq_ℤ, eq_ℤ_iff, GoString,
  codes, str_eq, str_eq_iff, str_eq_refl, str_lt, has_prefix, has_suffix, contains, join, split,
  cons_first, upper_byte, lower_byte, has_prefix_iff, Outcome, ret, panics, unfinished, ◌>>=◌,
  >>=-eq-ret, ◌≡◌, refl, sym, ap, ◌∙◌, ◌≢◌, ◌↔◌, ◌⊎◌, inl, inr, Bool, true, false, not, ◌&&◌, ◌||◌,
  Option, none, some, List, [], ◌∷◌, ◌++◌, map, arith,
}
use prefab_cloud_go.Errors.{Error, Result, ok, err}
use prefab_cloud_go.Proto.{ConfigValue, nil_value, config_value, Config, LogLevel, Float64}
use prefab_cloud_go.GoValue.{Any, Host}
use prefab_cloud_go.ConfigValues.{
  extract_int_value, extract_bool_value, extract_string_value, extract_float_value,
  extract_string_list_value, extract_duration_value, extract_json_value_without_error,
  extract_log_level_value,
}
use prefab_cloud_go.Contexts.{ContextSet, get_context_value, merge}
use prefab_cloud_go.Interfaces.{ConfigStoreGetter}
use prefab_cloud_go.Resolver.{ConfigMatch, ConfigResolver, resolve_value}

pub data OnInitializationFailure : Type 0 where
  return_error return_nil_match : OnInitializationFailure

pub data AwaitInitializationResult : Type 0 where
  success timeout : AwaitInitializationResult

-- What the client hands to its telemetry, the latest first.
pub data Recorded : Type 0 where
  of_context : ContextSet → Recorded
  of_evaluation : ConfigMatch → Recorded

-- `Client`; `initialized` is whether the channel `initializationComplete` is closed, which is so once
-- `closeInitializationCompleteOnce` has run.
pub record Client : Type 0 where
  pub on_initialization_failure : OnInitializationFailure
  pub global_context : ContextSet
  pub config_store : ConfigStoreGetter
  pub config_resolver : ConfigResolver
  pub initialized : Bool
  pub recorded : List Recorded

unfoldable pub close_initialization : Client → Client
close_initialization c = record c { initialized = true }

unfoldable pub await_initialization : Client → Bool → AwaitInitializationResult
await_initialization c in_time =
    if c.initialized || in_time
    then AwaitInitializationResult.success
    else AwaitInitializationResult.timeout

-- The client behind the wait, or the error of the timeout. When loading finishes in time, the channel
-- is closed.
unfoldable pub after_waiting : Client → Bool → Client × Option Error
unfolding close_initialization await_initialization
after_waiting c in_time = elim (await_initialization c in_time) [
  | AwaitInitializationResult.success ↦ (close_initialization c, none)
  | AwaitInitializationResult.timeout ↦ elim c.on_initialization_failure [
    | OnInitializationFailure.return_nil_match ↦ (close_initialization c, none)
    | OnInitializationFailure.return_error ↦ (c, some Error.initialization_timeout)
  ]
]

resolved : Client → ConfigMatch × Option Error → Client × Result ConfigMatch
resolved c (m, some e) = (c, err e)
resolved c (m, none) = (record c { recorded = of_evaluation m ∷ c.recorded }, ok m)

unfoldable pub internal_get_value :
    Client → Bool → GoString → ContextSet → Outcome (Client × Result ConfigMatch)
unfolding resolved
internal_get_value c in_time key set =
    let waited = after_waiting c in_time in
    elim waited.1 [
      | some e ↦ ret (waited.0, err e)
      | none ↦ resolve_value c.config_resolver key (get_context_value set) >>= λ r.
          ret (resolved waited.0 r)
    ]

unfoldable pub client_keys : Client → Bool → Client × Result (List GoString)
client_keys c in_time =
    let waited = after_waiting c in_time in
    elim waited.1 [ some e ↦ (waited.0, err e) | none ↦ (waited.0, ok c.config_store.keys) ]

-- What a getter returns: the value, `ok` and the error.
pub record Answer {ℓ} (T : Type ℓ) : Type ℓ where
  pub value : T
  pub ok : Bool
  pub error : Option Error

-- How a getter reads its type: the zero value, the parse function, and which results of it are the nil
-- interface.
pub record Reader {ℓ} (T : Type ℓ) : Type ℓ where
  pub zero_value : T
  pub parse : ConfigValue → T × Bool
  pub is_nil : T → Bool

module _ {ℓ} {T : Type ℓ} where
  not_found : Reader T → Option Error → Answer T
  not_found reader e = record { value = reader.zero_value; ok = false; error = e }

  -- `clientParseValueWrapper`, and the checks behind it.
  read_answer : Reader T → T × Bool → Answer T
  unfolding not_found
  read_answer reader (v, true) =
      if reader.is_nil v
      then not_found reader none
      else record { value = v; ok = true; error = none }
  read_answer reader (v, false) = not_found reader none

  match_answer : Reader T → ConfigValue → Answer T
  unfolding read_answer not_found
  match_answer reader nil_value = not_found reader (some Error.no_result)
  match_answer reader (config_value t c d) = read_answer reader (reader.parse (config_value t c d))

  -- `fetchAndProcessValue`, behind `internalGetValue`.
  unfoldable pub process_value : Reader T → Result ConfigMatch → Answer T
  unfolding match_answer not_found
  process_value reader (err e) = not_found reader (some e)
  process_value reader (ok m) = match_answer reader m.match

  -- `clientInternalGetValueFunc`, for the context that the client is bound to.
  unfoldable pub get_value :
      Client → ContextSet → Reader T → Bool → GoString → ContextSet → Outcome (Client × Answer T)
  unfolding process_value
  get_value c bound reader in_time key set =
      let merged = merge (bound ∷ set ∷ []) in
      internal_get_value (record c { recorded = of_context merged ∷ c.recorded }) in_time key merged
      >>= λ r. ret (r.0, process_value reader r.1)

  -- The value, or the default, and `wasFound`.
  or_default : T → Answer T → T × Bool
  or_default default_value answer = elim answer.error [
    | some e ↦ (default_value, true)
    | none ↦ if answer.ok then (answer.value, answer.ok) else (default_value, true)
  ]

  -- The getters with a default: GetIntValueWithDefault and its likes have the same body.
  unfoldable pub get_value_with_default :
      Client
      → ContextSet
      → Reader T
      → Bool
      → GoString
      → ContextSet
      → T
      → Outcome (Client × (T × Bool))
  unfolding or_default
  get_value_with_default c bound reader in_time key set default_value =
      get_value c bound reader in_time key set >>= λ r. ret (r.0, or_default default_value r.1)

abbrev never_nil {ℓ} : {T : Type ℓ} → T → Bool
never_nil v = false

abbrev pub int_reader : Reader ℤ
int_reader = record { zero_value = pos 0; parse = extract_int_value; is_nil = never_nil }

abbrev pub bool_reader : Reader Bool
bool_reader = record { zero_value = false; parse = extract_bool_value; is_nil = never_nil }

abbrev pub string_reader : Reader GoString
string_reader = record { zero_value = []; parse = extract_string_value; is_nil = never_nil }

abbrev pub float_reader : Reader Float64
float_reader = record {
  zero_value = Float64.float_bits 0;
  parse = extract_float_value;
  is_nil = never_nil;
}

abbrev pub string_slice_reader : Reader (List GoString)
string_slice_reader = record {
  zero_value = [];
  parse = extract_string_list_value;
  is_nil = never_nil;
}

abbrev pub duration_reader : Host → Reader ℤ
duration_reader host = record {
  zero_value = pos 0;
  parse = extract_duration_value host;
  is_nil = never_nil;
}

abbrev is_nil_any : Any → Bool
is_nil_any Any.nil = true
is_nil_any v = false

abbrev pub json_reader : Host → Reader Any
json_reader host = record {
  zero_value = Any.nil;
  parse = extract_json_value_without_error host;
  is_nil = is_nil_any;
}

-- `WithContext`: the context of the new client, under the context of the old one.
unfoldable pub with_context : ContextSet → ContextSet → ContextSet
with_context bound set = merge (bound ∷ set ∷ [])

unfoldable pub get_config_match :
    Client → ContextSet → Bool → GoString → ContextSet → Outcome (Client × Result ConfigMatch)
get_config_match c bound in_time key set =
    internal_get_value c in_time key (merge (bound ∷ set ∷ []))
