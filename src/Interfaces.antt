-- ===== src/Interfaces.antt =====
-- pkg/internal/interfaces.go: what the evaluator and the resolver ask of the other parts.
use prefab_cloud_go.Prelude.{ℤ, GoString, Option, List}
use prefab_cloud_go.Proto.{Config}
use prefab_cloud_go.GoValue.{Any}

-- `GetContextValue`: the value, or `none` where `valueExists` is false.
abbrev pub ContextValueGetter : Type 0
ContextValueGetter = GoString → Option Any

pub record ConfigStoreGetter : Type 0 where
  pub get_config : GoString → Option Config
  pub keys : List GoString
  pub get_context_value : ContextValueGetter
  pub get_project_env_id : ℤ
