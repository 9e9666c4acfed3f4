-- ===== src/Tests/Sources.antt =====
-- The theorems on the stores and the client at one input each.
use prefab_cloud_go.Prelude.{
  GoString, ℕ, ◌==◌, if◌then◌else◌, ℤ, pos, ◌≤ℤ◌, codes, str_eq, ret, panics, ◌≡◌, refl, ◌↔◌, true,
  Option, none, some, List, [], ◌∷◌, arith,
}
use prefab_cloud_go.Prelude.Dict
use prefab_cloud_go.Prelude.Dict.{Dict, IsMap}
use prefab_cloud_go.Errors.{ok}
use prefab_cloud_go.Proto.{ConfigValue, Configs, get_type}
use prefab_cloud_go.GoValue.{Any, IntKind}
use prefab_cloud_go.ConfigValues.{extract_int_value}
use prefab_cloud_go.Contexts.{merge, new_context_set}
use prefab_cloud_go.Interfaces.{ConfigStoreGetter}
use prefab_cloud_go.Resolver.{
  ConfigMatch, missing, config_match_of, resolve_value, resolve_value_for_config, resolve_step,
  finish,
}
use prefab_cloud_go.Stores.Api
use prefab_cloud_go.Stores.Api.{
  ApiConfigStore, new_api_config_store, set_config, get_config, is_empty, api_context_value,
  max_retries, fetch_from_server, loaded, gave_up,
}
use prefab_cloud_go.Stores.Api.Updates.{get_config-set_config, deletion_twice, after}
use prefab_cloud_go.Stores.Api.Watermark.{
  IsMarked, received, received-IsMarked, api_context_value-received,
}
use prefab_cloud_go.Stores.Composite
use prefab_cloud_go.Stores.Composite.{unique_keys}
use prefab_cloud_go.Stores.Composite.Laws.{FirstStore, composite_config_iff}
use prefab_cloud_go.Stores.Memory.{RawConfig, MemoryConfigStore, config_of_value}
use prefab_cloud_go.Client.{
  Client, of_context, of_evaluation, Answer, int_reader, get_value, get_value_with_default,
  internal_get_value, after_waiting, await_initialization, close_initialization, process_value,
}
use prefab_cloud_go.Client.Getters.{Found, get_value-Found}
use prefab_cloud_go.Telemetry.Summaries.{grouping_key}
use prefab_cloud_go.Telemetry.Summaries.Counting.{
  all_recorded, all_recorded-counts, oldest, occurrences, counted,
}
use prefab_cloud_go.Tests.Data.{
  whole_number_host, flag, new_flag, deleted_flag, staff, staff_store, staff_resolver, batch,
  waiting_client, user_context, int_value, match_to,
}

abbrev with_flag : ApiConfigStore
unfolding set_config
with_flag = set_config new_api_config_store flag

get_config-set_config_example : get_config (set_config with_flag new_flag) (codes "flag") ≡ (
    if str_eq new_flag.key (codes "flag")
    then after (get_config with_flag new_flag.key) new_flag
    else get_config with_flag (codes "flag"))
get_config-set_config_example = get_config-set_config with_flag new_flag (codes "flag")

deletion_twice_example :
    (get_config (set_config with_flag deleted_flag) deleted_flag.key ≡ none)
    × (get_config (set_config (set_config with_flag deleted_flag) deleted_flag) deleted_flag.key
        ≡ some deleted_flag)
unfolding with_flag Dict.put str_eq
deletion_twice_example =
    deletion_twice with_flag flag deleted_flag (unfold get_config Dict.get in refl) (omega arith)
      refl

received-IsMarked_example :
    IsMarked (received whole_number_host (batch ∷ []))
    × ((received whole_number_host (batch ∷ [])).high_watermark
        ≤ℤ (received whole_number_host (batch ∷ batch ∷ [])).high_watermark)
received-IsMarked_example = received-IsMarked whole_number_host (batch ∷ []) batch

api_context_value-received_example :
    (api_context_value (received whole_number_host []) (codes "user.team") ≡ panics)
    ↔ (◌≡◌ {A = List Configs} [] [])
api_context_value-received_example =
    api_context_value-received whole_number_host [] (codes "user.team")

abbrev third_time : ℕ → Option Configs
third_time n = if n == 2 then some batch else none

composite_config_iff_example :
    ((Composite.as_getter (staff_store ∷ [])).get_config (codes "staff") ≡ some staff)
    ↔ FirstStore (codes "staff") staff (staff_store ∷ [])
composite_config_iff_example = composite_config_iff (staff_store ∷ []) (codes "staff") staff

abbrev api_getter : ConfigStoreGetter
unfolding Api.as_getter
api_getter = Api.as_getter with_flag new_context_set

abbrev raw_configs : Dict RawConfig
raw_configs = (codes "retries", RawConfig.of_value (Any.int IntKind.plain (pos 5))) ∷ []

abbrev retries_store : MemoryConfigStore
retries_store = record {
  config_map = (codes "retries", config_of_value (codes "retries") (int_value (pos 5))) ∷ [];
  project_env_id = pos 1;
}

abbrev match_of_staff : ConfigMatch
unfolding config_match_of
match_of_staff = config_match_of (match_to (int_value (pos 5))) (codes "staff") staff

-- The client behind its first call, which timed out.
abbrev started_client : Client
started_client = record waiting_client {
  initialized = true;
  recorded = of_evaluation match_of_staff ∷ [];
}

abbrev found_five : Answer ℤ
found_five = record { value = pos 5; ok = true; error = none }

-- The client behind its first getter.
abbrev behind_getter : Client
behind_getter = record waiting_client {
  initialized = true;
  recorded =
      of_evaluation match_of_staff ∷ of_context (merge (user_context ∷ user_context ∷ [])) ∷ [];
}

getter_call :
    get_value waiting_client user_context int_reader true (codes "staff") user_context
    ≡ ret (behind_getter, found_five)
unfolding get_value process_value extract_int_value internal_get_value after_waiting
    await_initialization close_initialization resolve_value resolve_value_for_config resolve_step
    finish staff_resolver str_eq config_match_of match_of_staff get_type
getter_call = refl

default_call :
    get_value_with_default waiting_client user_context int_reader true
      (codes "staff")
      user_context
      (pos 7)
    ≡ ret (behind_getter, (pos 5, true))
unfolding get_value_with_default
default_call = rw getter_call refl

get_value-Found_example :
    Found waiting_client.config_resolver int_reader
      (codes "staff")
      (merge (user_context ∷ user_context ∷ []))
      (pos 5)
get_value-Found_example =
    get_value-Found waiting_client user_context int_reader true (codes "staff") user_context
      {later = behind_getter} found_five getter_call refl

abbrev no_text : ConfigValue → GoString
no_text v = []

abbrev two_evaluations : List (ℤ × ConfigMatch)
two_evaluations = (pos 20, missing (codes "flag")) ∷ (pos 10, missing (codes "flag")) ∷ []

all_recorded-counts_example :
    (Dict.get
        (grouping_key no_text (missing (codes "flag")))
        (all_recorded no_text two_evaluations).evaluations
      ≡ oldest no_text (grouping_key no_text (missing (codes "flag"))) two_evaluations)
    × (Dict.get
          (grouping_key no_text (missing (codes "flag")))
          (all_recorded no_text two_evaluations).counts
        ≡ counted
            (occurrences no_text (grouping_key no_text (missing (codes "flag"))) two_evaluations))
all_recorded-counts_example =
    all_recorded-counts no_text two_evaluations (grouping_key no_text (missing (codes "flag")))
      (omega arith)
