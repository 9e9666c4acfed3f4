-- ===== src/Stores/Api/Watermark.antt =====
-- The high watermark: no id that was stored is above it, and it never falls.
use prefab_cloud_go.Prelude.{
  ◌≤ℤ◌, GoString, panics, ◌≡◌, refl, ◌∙◌, ◌≢◌, ◌↔◌, some, List, [], ◌∷◌, arith,
}
use prefab_cloud_go.Prelude.Dict
use prefab_cloud_go.Proto.{Config, Configs}
use prefab_cloud_go.GoValue.{Host}
use prefab_cloud_go.Stores.Api.{
  ApiConfigStore, new_api_config_store, set_config, set_all, set_configs, set_from_configs_proto,
  get_config, api_context_value,
}
use prefab_cloud_go.Stores.Api.Updates.{get_config-set_config}

pub record IsMarked (cs : ApiConfigStore) : Type 0 where
  pub at_key :
      (key : GoString) (config : Config)
      → get_config cs key ≡ some config
      → config.id ≤ℤ cs.high_watermark

set_config-high_watermark :
    (cs : ApiConfigStore) (new : Config)
    → (cs.high_watermark ≤ℤ (set_config cs new).high_watermark)
      × (new.id ≤ℤ (set_config cs new).high_watermark)
unfolding set_config
set_config-high_watermark cs new = ground arith

set_config-IsMarked :
    (cs : ApiConfigStore) (new : Config) → IsMarked cs → IsMarked (set_config cs new)
set_config-IsMarked cs new h = record {
  at_key = λ key config e. ground (
    arith,
    get_config-set_config cs new key,
    set_config-high_watermark cs new,
    h.at_key key config,
    h.at_key new.key config,
  );
}

set_all-IsMarked :
    (cs : ApiConfigStore) (configs : List Config)
    → IsMarked cs
    → IsMarked (set_all cs configs) × (cs.high_watermark ≤ℤ (set_all cs configs).high_watermark)
unfolding set_all
set_all-IsMarked cs [] h = (h, omega arith)
set_all-IsMarked cs (config ∷ rest) h =
    let r = set_all-IsMarked (set_config cs config) rest (set_config-IsMarked cs config h) in
    (r.0, omega (arith, r.1, (set_config-high_watermark cs config).0))

new_api_config_store-IsMarked : IsMarked new_api_config_store
unfolding get_config Dict.get
new_api_config_store-IsMarked = record { at_key = λ key config e. absurd (cc e) }

-- The store after these batches, the latest first.
unfoldable pub received : Host → List Configs → ApiConfigStore
received host [] = new_api_config_store
received host (batch ∷ earlier) = set_from_configs_proto host (received host earlier) batch

set_from_configs_proto-IsMarked :
    (host : Host) (cs : ApiConfigStore) (batch : Configs)
    → IsMarked cs
    → IsMarked (set_from_configs_proto host cs batch)
      × (cs.high_watermark ≤ℤ (set_from_configs_proto host cs batch).high_watermark)
unfolding set_from_configs_proto set_configs
set_from_configs_proto-IsMarked host cs batch h =
    set_all-IsMarked _ batch.configs (record { at_key = unfold get_config in h.at_key })

-- Whatever batches have come in, every stored config has an id at most the watermark, and a further
-- batch does not lower the watermark.
pub received-IsMarked :
    (host : Host) (batches : List Configs) (batch : Configs)
    → IsMarked (received host batches)
      × ((received host batches).high_watermark ≤ℤ (received host (batch ∷ batches)).high_watermark)
unfolding received
received-IsMarked host [] batch = (
  new_api_config_store-IsMarked,
  (set_from_configs_proto-IsMarked host _ batch new_api_config_store-IsMarked).1,
)
received-IsMarked host (b ∷ earlier) batch =
    let marked = set_from_configs_proto-IsMarked host _ b (received-IsMarked host earlier b).0 in
    (marked.0, (set_from_configs_proto-IsMarked host _ batch marked.0).1)

set_all-context_set :
    (cs : ApiConfigStore) (configs : List Config)
    → (set_all cs configs).context_set ≡ cs.context_set
unfolding set_all
set_all-context_set cs [] = refl
set_all-context_set cs (config ∷ rest) =
    set_all-context_set (set_config cs config) rest ∙ (unfold set_config in refl)

panics-of_none :
    (cs : ApiConfigStore) (name : GoString) {set : _}
    → cs.context_set ≡ some set
    → api_context_value cs name ≢ panics
unfolding api_context_value
panics-of_none cs name e h = absurd (cc (rw e at h))

-- Reading a context value is a run-time panic until the first batch has come in, and never after.
pub api_context_value-received :
    (host : Host) (batches : List Configs) (name : GoString)
    → (api_context_value (received host batches) name ≡ panics) ↔ (batches ≡ [])
unfolding received api_context_value set_from_configs_proto set_configs
api_context_value-received host [] name = (λ _. refl, λ _. refl)
api_context_value-received host (b ∷ earlier) name = (
  λ h. absurd (
      panics-of_none (received host (b ∷ earlier)) name
        (unfold received set_from_configs_proto set_configs in set_all-context_set _ b.configs) h),
  λ h. absurd (cc h),
)
