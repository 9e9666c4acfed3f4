-- ===== src/Options/Helpers/Offline.antt =====
-- Options without the API, and the order of the sources.
use prefab_cloud_go.Prelude.{
  if◌then◌else◌, All, GoString, ◌≡◌, refl, sym, ap, ◌≢◌, Bool, true, false, none, List, [], ◌∷◌,
  ◌++◌, arith,
}
use prefab_cloud_go.Prelude.Dict.{Dict}
use mathlib.Core.Path.{subst}
use prefab_cloud_go.Errors.{Result, ok, err}
use prefab_cloud_go.Stores.Memory.{RawConfig}
use prefab_cloud_go.Options.Sources.{
  ConfigSource, api_store, memory_store_key, default_config_sources, parse_config_source,
}
use prefab_cloud_go.Options.Sources.Parsing.{
  memory_source, parse_config_source-offline, parse_config_source-memory,
}
use prefab_cloud_go.Options.Settings.{Options, no_telemetry}
use prefab_cloud_go.Options.Helpers.{
  add_source, parse_sources, with_parsed, with_sources, with_offline_sources, with_configs,
  configured,
}

-- Each text with what it is parsed to, in order.
abbrev pub AreParsed : List GoString → List ConfigSource → Type 0
AreParsed [] [] = Unit
AreParsed (raw ∷ raws) (source ∷ sources) =
    (parse_config_source raw ≡ ok source) × AreParsed raws sources
AreParsed _ _ = true ≡ false

added :
    (raw : GoString) (raws : List GoString) (source : ConfigSource) (r : Result (List ConfigSource))
    {sources : List ConfigSource}
    → parse_config_source raw ≡ ok source
    → ((rest : List ConfigSource) → r ≡ ok rest → AreParsed raws rest)
    → add_source source r ≡ ok sources
    → AreParsed (raw ∷ raws) sources
added raw raws source (ok rest) {sources} p ih h =
    let same : source ∷ rest ≡ sources = cc h in
    subst (AreParsed (raw ∷ raws)) same (p, ih rest refl)
added raw raws source (err e) p ih h = absurd (cc h)

parsed_step :
    (raw : GoString) (raws : List GoString) (r : Result ConfigSource)
    (others : Result (List ConfigSource)) {sources : List ConfigSource}
    → parse_config_source raw ≡ r
    → ((rest : List ConfigSource) → others ≡ ok rest → AreParsed raws rest)
    → (elim r [ ok parsed ↦ add_source parsed others | err e ↦ err e ]) ≡ ok sources
    → AreParsed (raw ∷ raws) sources
parsed_step raw raws (ok parsed) others p ih h = added raw raws parsed others p ih h
parsed_step raw raws (err e) others p ih h = absurd (cc h)

parse_sources-AreParsed :
    (raws : List GoString) {sources : List ConfigSource}
    → parse_sources raws ≡ ok sources
    → AreParsed raws sources
unfolding parse_sources
parse_sources-AreParsed [] {sources} h =
    let same : [] ≡ sources = cc h in subst (AreParsed []) same tt
parse_sources-AreParsed (raw ∷ raws) h =
    parsed_step raw raws (parse_config_source raw) (parse_sources raws) refl
      (λ rest k. parse_sources-AreParsed raws k) h

offline_sources :
    (raws : List GoString) (sources : List ConfigSource)
    → AreParsed raws sources
    → All (λ source. source.store ≢ api_store) sources
offline_sources [] [] h = tt
offline_sources [] (source ∷ sources) h = absurd (cc h)
offline_sources (raw ∷ raws) [] h = absurd (cc h)
offline_sources (raw ∷ raws) (source ∷ sources) h =
    (parse_config_source-offline raw h.0, offline_sources raws sources h.1)

-- The sources behind the option `WithSources`: what the texts are parsed to, in their order, and the
-- default source behind them unless it is excluded.
abbrev pub AreSourcesOf : List GoString → Bool → List ConfigSource → Type 0
AreSourcesOf raws exclude_default sources =
    (parsed : List ConfigSource) × AreParsed raws parsed
    × (sources ≡ (if exclude_default then parsed else parsed ++ default_config_sources))

of_with_parsed :
    (raws : List GoString) (exclude_default : Bool) (r : Result (List ConfigSource)) (o : Options)
    → ((parsed : List ConfigSource) → r ≡ ok parsed → AreParsed raws parsed)
    → (with_parsed exclude_default r o).1 ≡ none
    → AreSourcesOf raws exclude_default (with_parsed exclude_default r o).0.sources
unfolding with_parsed
of_with_parsed raws exclude_default (ok parsed) o p h = (parsed, p parsed refl, refl)
of_with_parsed raws exclude_default (err e) o p h = absurd (cc h)

-- Where the option `WithSources` is no error, every text is a source, and the sources stand in the order of
-- the texts, in front of the default source unless that is excluded.
pub with_sources-AreSourcesOf :
    (raws : List GoString) (exclude_default : Bool) (o : Options)
    → (with_sources raws exclude_default o).1 ≡ none
    → AreSourcesOf raws exclude_default (with_sources raws exclude_default o).0.sources
unfolding with_sources
with_sources-AreSourcesOf raws exclude_default o h =
    of_with_parsed raws exclude_default (parse_sources raws) o
      (λ parsed k. parse_sources-AreParsed raws k) h

mode_of_with_parsed :
    (exclude_default : Bool) (r : Result (List ConfigSource)) (o : Options)
    → (with_parsed exclude_default r o).0.context_telemetry_mode ≡ o.context_telemetry_mode
unfolding with_parsed
mode_of_with_parsed exclude_default (ok parsed) o = refl
mode_of_with_parsed exclude_default (err e) o = refl

-- The options behind `WithOfflineSources` name no source of the API, and the contexts are not sent.
pub with_offline_sources_lem :
    (raws : List GoString) (o : Options)
    → (with_offline_sources raws o).1 ≡ none
    → All (λ source. source.store ≢ api_store) (with_offline_sources raws o).0.sources
      × ((with_offline_sources raws o).0.context_telemetry_mode ≡ no_telemetry)
unfolding with_offline_sources with_sources
with_offline_sources_lem raws o h =
    let silent : Options = record o { context_telemetry_mode = no_telemetry } in
    let (parsed, are, same) = with_sources-AreSourcesOf raws true silent h in
    (
      subst (All (λ source. source.store ≢ api_store)) (sym same) (offline_sources raws parsed are),
      mode_of_with_parsed true (parse_sources raws) silent,
    )

parse_sources-memory : parse_sources (memory_store_key ∷ []) ≡ ok (memory_source ∷ [])
unfolding parse_sources
parse_sources-memory = ground (arith, parse_config_source-memory)

pub with_configs_lem :
    (configs : Dict RawConfig) (o : Options)
    → with_configs configs o ≡ (
      record o {
        context_telemetry_mode = no_telemetry;
        sources = memory_source ∷ [];
        configs = configs;
      },
      none,
    )
unfolding with_configs configured with_offline_sources with_sources with_parsed
with_configs_lem configs o =
    ap
      (λ r.
        configured configs
          (with_parsed true r (record o { context_telemetry_mode = no_telemetry })))
      parse_sources-memory
