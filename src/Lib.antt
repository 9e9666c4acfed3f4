-- ===== src/Lib.antt =====
-- Prefab's Go client: it takes configs and feature flags from stores, evaluates their rules for a
-- context and returns typed values.
--
-- A getter of the client waits for the first configs, merges the contexts and asks the resolver. The
-- resolver takes the config of the key from the composite store, has the rule evaluator find the
-- conditional value, and replaces it where it is weighted, provided by the environment or encrypted.
--
-- - Prelude and its children: Boolean tests, integers, strings as lists of bytes, Go's maps as
--   association lists (Dict), strconv and strings. Outcome is a value, a run-time panic, or a recursion
--   that does not end within its fuel.
-- - Proto: the messages of proto/prefab.pb.go. ConfigValue is the pointer *ConfigValue, nil included.
-- - GoValue: a value of `any` by its dynamic type, and Host, the parameters of the model: float64
--   arithmetic, regular expressions, dates, JSON, ISO durations, the murmur hash, the environment and
--   the clock.
-- - AnyHelpers: pkg/internal/anyhelpers/helpers.go (detect_and_return_string_list_if_present for
--   DetectAndReturnStringListIfPresent, canonicalize_slice for CanonicalizeSlice).
-- - ConfigValues: pkg/internal/utils/config_value_utils.go (create, extract_value, the typed
--   extractors; duration_to_iso8601 in ConfigValues/Durations).
-- - Contexts: pkg/internal/contexts/context.go (merge, get_context_value, grouped_key).
-- - Semver: pkg/internal/semver/semver.go (parse, compare, equal_versions, to_string).
-- - Interfaces: the store as its readers see it (pkg/internal/interfaces.go).
-- - Criteria and Evaluator: pkg/internal/config_rule_evaluator.go. Criteria is the switch over the
--   operators (evaluate_operator), Evaluator all that surrounds it (evaluate_config for EvaluateConfig).
-- - Errors: the errors as values. Encryption: pkg/internal/encryption.go, with AES-GCM a parameter.
-- - Weighted: pkg/internal/weighted_values.go and hashing.go (resolve, pick). The draw of the random
--   generator is an argument; sums of weights wrap as int32.
-- - Resolver: pkg/internal/config_resolver.go (resolve_value_for_config for ResolveValueForConfig). Step
--   is the state between the switch over the type of the match and the mark of confidentiality.
--   Resolver/Coercion describes the values that the text of an environment variable stands for, and
--   Prelude/Decimal/Reading the texts of integers, apart from the functions that parse them.
-- - Stores: pkg/internal/stores. Api is apiconfigstore.go (set_config for setConfig, fetch_from_server for
--   fetchFromServer), Composite composite_config_store.go, Memory memory_config_store.go, Files
--   local_config_store.go and config_dump_store.go with pkg/internal/local_config_json_parser.go, Yaml
--   pkg/internal/local_config_yaml_parser.go (handle_map_key_value for handleMapKeyValue), Build
--   config_store.go and the constructor of the API store (build_config_store for BuildConfigStore).
-- - Options: pkg/internal/options and pkg/option_helpers.go. Settings is options.go, Sources
--   config_sources.go (parse_config_source for ParseConfigSource), Helpers the options of a client
--   (with_configs for WithConfigs).
-- - Network: Http is pkg/internal/httpclient.go (load for Load), Sse pkg/internal/sse/sseclient.go
--   (sse_connections for StartSSEConnection, on_event for its handler), Source the goroutine of
--   NewAPIConfigStore (run_api_source). What is sent and received is an argument.
-- - Client: pkg/client.go (get_value for clientInternalGetValueFunc, internal_get_value for
--   internalGetValue). Client/Typed has the getters of ContextBoundClient by type, Client/Unbound those of Client,
--   Client/Startup is NewClient (new_client), and
--   Client/Startup/Race its callback and the assignment of the client as two events.
-- - Telemetry: pkg/internal/telemetry. Summaries is evaluation_summary_aggregator.go (record_evaluation for
--   Record; GetData in Summaries/Reporting), Examples example_context_aggregator.go (record_context for
--   Record), Shapes context_shape_aggregator.go (record_shapes for Record), Events the messages, and
--   Submitter and Submission submitter.go: submit_evaluation for RecordEvaluation, submit_context for
--   RecordContext, take_item and record_item for the consumer, submit for Submit.
-- - Tests: concrete inputs.
--
-- The recursion of EvaluateConfig through segments is on fuel, and Evaluator/Termination is about the
-- fuel that is enough. fetch_from_server recurs on the retries that are left, ten at the start; every
-- other loop is structural. A float64 is its bit pattern and is only ever computed with through Host.
-- The clock stands still during one evaluation. The locks of the API store make each of its methods one
-- step. How long a getter waits is an input: whether loading finishes before the timeout.
--
-- retry_request recurs on the attempts that are left. The queue of the telemetry holds at most 10000
-- items. The submission, the callers and the consumer are steps in any order; within a step, an
-- aggregator's lock is held.
--
-- Not modelled: serialisation and the text of a log level, which generated code makes and which are
-- parameters, and the mocks and helpers of the tests.
pub mod Prelude
pub mod Proto
pub mod GoValue
pub mod AnyHelpers
pub mod ConfigValues
pub mod Contexts
pub mod Semver
pub mod Interfaces
pub mod Criteria
pub mod Evaluator
pub mod Errors
pub mod Encryption
pub mod Weighted
pub mod Resolver
pub mod Stores
pub mod Client
pub mod Options
pub mod Network
pub mod Telemetry
pub mod Tests
