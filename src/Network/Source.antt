-- ===== src/Network/Source.antt =====
-- pkg/internal/stores/apiconfigstore.go: what the goroutine of `NewAPIConfigStore` does. It fetches the configs
-- with the HTTP client, and then follows the stream.
pub mod Ending
use prefab_cloud_go.Prelude.{
  ℕ, zero, suc, ◌+◌, ◌-◌, ◌*◌, ◌/◌, ◌%◌, ◌^◌, ◌≤◌, ◌<◌, ltb, leb, ◌==◌, bool_eq, if◌then◌else◌,
  ltb→lt, lt→ltb, leb→le, ==_iff, Bool-cases, Option-cases, length, get_elem?, length-append, All,
  All-append, All-map, any_of, ℤ, pos, negsuc, pos_part, neg_part, ◌≤ℤ◌, ◌<ℤ◌, ltb_ℤ, leb_ℤ, eq_ℤ,
  eq_ℤ_iff, GoString, codes, str_eq, str_eq_iff, str_eq_refl, str_lt, has_prefix, has_suffix,
  contains, join, split, cons_first, upper_byte, lower_byte, has_prefix_iff, Outcome, ret, panics,
  unfinished, ◌>>=◌, >>=-eq-ret, ◌≡◌, refl, sym, ap, ◌∙◌, ◌≢◌, ◌↔◌, ◌⊎◌, inl, inr, Bool, true,
  false, not, ◌&&◌, ◌||◌, Option, none, some, List, [], ◌∷◌, ◌++◌, map, arith,
}
use prefab_cloud_go.Errors.{Result, ok, err}
use prefab_cloud_go.Proto.{Configs}
use prefab_cloud_go.GoValue.{Host}
use prefab_cloud_go.Stores.Api.{ApiConfigStore, new_api_config_store, Fetched, fetch_from_server}
use prefab_cloud_go.Network.Http.{HttpClient, Server, load}
use prefab_cloud_go.Network.Sse.{Decoder, sse_connections}

abbrev pub unless_failed {ℓ} : {A : Type ℓ} → Result A → Option A
unless_failed (ok a) = some a
unless_failed (err e) = none

-- The HTTP client before the attempt n, which keeps the key that it has found; `servers n` is the network at that
-- attempt.
unfoldable pub client_at :
    (GoString → Option GoString) → (ℕ → Server) → ℤ → HttpClient → ℕ → HttpClient
client_at lookup servers offset c zero = c
client_at lookup servers offset c (suc n) =
    (load lookup (servers n) offset (client_at lookup servers offset c n)).0

-- The answer to the attempt n.
unfoldable pub answer_at :
    (GoString → Option GoString) → (ℕ → Server) → ℤ → HttpClient → ℕ → Option Configs
answer_at lookup servers offset c n =
    unless_failed (load lookup (servers n) offset (client_at lookup servers offset c n)).1

-- The fetch, and what the connections behind it send and leave.
unfoldable pub run_api_source :
    Host
    → (GoString → Option GoString)
    → (ℕ → Server)
    → HttpClient
    → Decoder
    → List (List GoString)
    → Fetched × (List GoString × ApiConfigStore)
run_api_source host lookup servers c decoder connections =
    let cs = new_api_config_store in
    let fetched = fetch_from_server host (answer_at lookup servers cs.high_watermark c) cs in
    (fetched, sse_connections host decoder fetched.store connections)
