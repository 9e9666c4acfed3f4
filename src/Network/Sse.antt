-- ===== src/Network/Sse.antt =====
-- pkg/internal/sse/sseclient.go. The regular expression is the argument `find`, its FindStringIndex; a
-- subscription is the sequence of its events.
pub mod Watching
pub mod Resuming
use prefab_cloud_go.Prelude.{
  ℕ, zero, suc, ◌+◌, ◌-◌, ◌*◌, ◌/◌, ◌%◌, ◌^◌, ◌≤◌, ◌<◌, ltb, leb, ◌==◌, bool_eq, if◌then◌else◌,
  ltb→lt, lt→ltb, leb→le, ==_iff, Bool-cases, Option-cases, length, get_elem?, length-append, All,
  any_of, ℤ, pos, negsuc, pos_part, neg_part, ◌≤ℤ◌, ◌<ℤ◌, ltb_ℤ, leb_ℤ, eq_ℤ, eq_ℤ_iff, GoString,
  codes, str_eq, str_eq_iff, str_eq_refl, str_lt, has_prefix, has_suffix, contains, join, split,
  cons_first, upper_byte, lower_byte, has_prefix_iff, Outcome, ret, panics, unfinished, ◌>>=◌,
  >>=-eq-ret, ◌≡◌, refl, sym, ap, ◌∙◌, ◌≢◌, ◌↔◌, ◌⊎◌, inl, inr, Bool, true, false, not, ◌&&◌, ◌||◌,
  Option, none, some, List, [], ◌∷◌, ◌++◌, map, arith,
}
use prefab_cloud_go.Prelude.Decimal.{show_int}
use prefab_cloud_go.Errors.{Error, Result, ok, err}
use prefab_cloud_go.Proto.{Configs}
use prefab_cloud_go.GoValue.{Host}
use prefab_cloud_go.Options.Settings.{Options, prefab_api_url_env_var_or_setting}
use prefab_cloud_go.Stores.Api.{ApiConfigStore, set_from_configs_proto}

-- `s[:n]` and `s[n:]`.
abbrev pub take {ℓ} : {A : Type ℓ} → ℕ → List A → List A
take zero s = []
take (suc n) [] = []
take (suc n) (c ∷ s) = c ∷ take n s

abbrev pub drop {ℓ} : {A : Type ℓ} → ℕ → List A → List A
drop zero s = s
drop (suc n) [] = []
drop (suc n) (c ∷ s) = drop n s

replaced : GoString → GoString → Option (ℕ × ℕ) → GoString
replaced s replacement none = s
replaced s replacement (some (first, behind)) = take first s ++ (replacement ++ drop behind s)

unfoldable pub replace_first_occurrence :
    GoString → (GoString → Option (ℕ × ℕ)) → GoString → GoString
unfolding replaced
replace_first_occurrence s find replacement = replaced s replacement (find s)

-- The URL of the stream, and what is encoded for the header Authorization.
pub record SseClient : Type 0 where
  pub url : GoString
  pub authorization : GoString

unfoldable pub sse_client_of :
    (GoString → Option (ℕ × ℕ)) → Options → Result (List GoString) → Result SseClient
sse_client_of find o (err e) = err e
sse_client_of find o (ok []) = err Error.no_api_urls
sse_client_of find o (ok (url ∷ urls)) = ok (record {
  url = replace_first_occurrence url find (codes "stream.") ++ codes "/api/v1/sse/config";
  authorization = codes "authuser:" ++ o.api_key;
})

unfoldable pub build_sse_client :
    (GoString → Option GoString) → (GoString → Option (ℕ × ℕ)) → Options → Result SseClient
unfolding sse_client_of
build_sse_client lookup find o = sse_client_of find o (prefab_api_url_env_var_or_setting lookup o)

-- base64 and proto.Unmarshal of Configs.
pub record Decoder : Type 0 where
  pub decode_base64 : GoString → Option GoString
  pub unmarshal_configs : GoString → Option Configs

-- The configs that an event carries: none for an empty event, and after an error of the decoding.
unfoldable pub configs_of_bytes : Decoder → Option GoString → Option Configs
configs_of_bytes decoder none = none
configs_of_bytes decoder (some bytes) = decoder.unmarshal_configs bytes

unfoldable pub configs_of_event : Decoder → GoString → Option Configs
configs_of_event decoder [] = none
configs_of_event decoder (c ∷ data_) = configs_of_bytes decoder (decoder.decode_base64 (c ∷ data_))

unfoldable pub on_configs : Host → ApiConfigStore → Option Configs → ApiConfigStore
on_configs host cs none = cs
on_configs host cs (some configs) = set_from_configs_proto host cs configs

-- The handler of an event.
unfoldable pub on_event : Host → Decoder → ApiConfigStore → GoString → ApiConfigStore
on_event host decoder cs event = on_configs host cs (configs_of_event decoder event)

unfoldable pub on_events : Host → Decoder → ApiConfigStore → List GoString → ApiConfigStore
on_events host decoder cs [] = cs
on_events host decoder cs (event ∷ events) =
    on_events host decoder (on_event host decoder cs event) events

-- `StartSSEConnection` over these subscriptions, each with its events: the headers x-prefab-start-at-id
-- that are sent, and the store.
unfoldable pub sse_connections :
    Host → Decoder → ApiConfigStore → List (List GoString) → List GoString × ApiConfigStore
sse_connections host decoder cs [] = ([], cs)
sse_connections host decoder cs (events ∷ later) =
    let rest = sse_connections host decoder (on_events host decoder cs events) later in
    (show_int cs.high_watermark ∷ rest.0, rest.1)
