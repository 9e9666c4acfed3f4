-- ===== src/Network/Sse/Resuming.antt =====
-- The ids from which the connections start.
use prefab_cloud_go.Prelude.{
  ℕ, zero, suc, ◌<◌, if◌then◌else◌, Bool-cases, length, get_elem?, All, ℤ, ◌≤ℤ◌, ltb_ℤ, GoString,
  ◌≡◌, refl, sym, ap, ◌∙◌, ◌⊎◌, inl, inr, Option, none, some, List, [], ◌∷◌, ◌++◌, map, arith,
}
use prefab_cloud_go.Prelude.Decimal.{show_int}
use prefab_cloud_go.Proto.{Config, Configs}
use prefab_cloud_go.GoValue.{Host}
use prefab_cloud_go.Stores.Api.{
  ApiConfigStore, set_config, set_all, set_configs, set_from_configs_proto,
}
use prefab_cloud_go.Network.Sse.{
  Decoder, take, configs_of_event, on_configs, on_event, on_events, sse_connections,
}

-- The ids of the configs that the events carry, in their order.
abbrev pub batch_ids : Option Configs → List ℤ
batch_ids none = []
batch_ids (some configs) = map (λ config. config.id) configs.configs

abbrev pub event_ids : Decoder → List GoString → List ℤ
event_ids decoder [] = []
event_ids decoder (event ∷ events) =
    batch_ids (configs_of_event decoder event) ++ event_ids decoder events

abbrev pub connection_ids : Decoder → List (List GoString) → List ℤ
connection_ids decoder [] = []
connection_ids decoder (events ∷ later) = event_ids decoder events ++ connection_ids decoder later

abbrev pub IsAmong : ℤ → List ℤ → Type 0
IsAmong id [] = ⊥
IsAmong id (other ∷ ids) = (id ≡ other) ⊎ IsAmong id ids

-- The highest of `low` and the ids.
abbrev pub IsHighest : ℤ → List ℤ → ℤ → Type 0
IsHighest low ids high =
    (low ≤ℤ high) × All (λ id. id ≤ℤ high) ids × ((high ≡ low) ⊎ IsAmong high ids)

higher : ℤ → ℤ → ℤ
higher low id = if ltb_ℤ low id then id else low

highest : ℤ → List ℤ → ℤ
highest low [] = low
highest low (id ∷ ids) = highest (higher low id) ids

higher_cases :
    (low id : ℤ)
    → (low ≤ℤ higher low id)
      × (id ≤ℤ higher low id)
      × ((higher low id ≡ low) ⊎ (higher low id ≡ id))
unfolding higher
higher_cases low id = elim (Bool-cases (ltb_ℤ low id)) [
  | inl above ↦ rw above (ground arith, ground arith, inr refl)
  | inr below ↦ rw below (ground arith, ground arith, inl refl)
]

highest-IsHighest : (low : ℤ) (ids : List ℤ) → IsHighest low ids (highest low ids)
unfolding highest
highest-IsHighest low [] = (omega arith, tt, inl refl)
highest-IsHighest low (id ∷ ids) =
    let (above_low, above_id, next) = higher_cases low id in
    let (above_next, all, found) = highest-IsHighest (higher low id) ids in
    (
      omega (arith, above_low, above_next),
      (omega (arith, above_id, above_next), all),
      ground (arith, next, found),
    )

highest-append : (low : ℤ) (xs ys : List ℤ) → highest low (xs ++ ys) ≡ highest (highest low xs) ys
unfolding highest
highest-append low [] ys = refl
highest-append low (x ∷ xs) ys = highest-append (higher low x) xs ys

set_all-highest :
    (cs : ApiConfigStore) (configs : List Config)
    → (set_all cs configs).high_watermark
      ≡ highest cs.high_watermark (map (λ config. config.id) configs)
unfolding set_all highest
set_all-highest cs [] = refl
set_all-highest cs (config ∷ rest) =
    set_all-highest (set_config cs config) rest ∙ (unfold set_config higher in refl)

on_configs-highest :
    (host : Host) (cs : ApiConfigStore) (o : Option Configs)
    → (on_configs host cs o).high_watermark ≡ highest cs.high_watermark (batch_ids o)
unfolding on_configs highest
on_configs-highest host cs none = refl
on_configs-highest host cs (some configs) =
    unfold set_from_configs_proto set_configs in set_all-highest _ configs.configs

on_events-highest :
    (host : Host) (decoder : Decoder) (events : List GoString) (cs : ApiConfigStore)
    → (on_events host decoder cs events).high_watermark
      ≡ highest cs.high_watermark (event_ids decoder events)
unfolding on_events on_event
on_events-highest host decoder [] cs = unfold highest in refl
on_events-highest host decoder (event ∷ events) cs =
    let o = configs_of_event decoder event in
    on_events-highest host decoder events (on_configs host cs o)
    ∙ ap (λ low. highest low (event_ids decoder events)) (on_configs-highest host cs o)
    ∙ sym (highest-append cs.high_watermark (batch_ids o) (event_ids decoder events))

headers_at :
    (host : Host) (decoder : Decoder) (connections : List (List GoString)) (cs : ApiConfigStore)
    (i : ℕ)
    → i < length connections
    → get_elem? (sse_connections host decoder cs connections).0 i
      ≡ some (show_int (highest cs.high_watermark (connection_ids decoder (take i connections))))
unfolding sse_connections
headers_at host decoder [] cs i h = absurd (omega (arith, h))
headers_at host decoder (events ∷ later) cs zero h = unfold highest in refl
headers_at host decoder (events ∷ later) cs (suc i) h =
    headers_at host decoder later (on_events host decoder cs events) i (omega (arith, h))
    ∙ ap some (
        ap show_int (
          ap (λ low. highest low (connection_ids decoder (take i later)))
            (on_events-highest host decoder events cs)
          ∙ sym (
              highest-append cs.high_watermark (event_ids decoder events)
                (connection_ids decoder (take i later)))))

length-sse_connections :
    (host : Host) (decoder : Decoder) (connections : List (List GoString)) (cs : ApiConfigStore)
    → length (sse_connections host decoder cs connections).0 ≡ length connections
unfolding sse_connections
length-sse_connections host decoder [] cs = refl
length-sse_connections host decoder (events ∷ later) cs =
    ap suc (length-sse_connections host decoder later _)

-- Each connection sends one header, and that of the connection i is the text of one id: the highest of the
-- watermark at the start and of the ids of all configs that the events of the i connections before it carry.
pub sse_connections-IsHighest :
    (host : Host) (decoder : Decoder) (connections : List (List GoString)) (cs : ApiConfigStore)
    (i : ℕ)
    → i < length connections
    → (length (sse_connections host decoder cs connections).0 ≡ length connections)
      × ((id : ℤ) × (get_elem? (sse_connections host decoder cs connections).0 i
            ≡ some (show_int id))
          × IsHighest cs.high_watermark (connection_ids decoder (take i connections)) id)
sse_connections-IsHighest host decoder connections cs i h = (
  length-sse_connections host decoder connections cs,
  (_, headers_at host decoder connections cs i h, highest-IsHighest _ _),
)
