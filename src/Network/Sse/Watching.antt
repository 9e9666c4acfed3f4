-- ===== src/Network/Sse/Watching.antt =====
-- The store behind the events.
use prefab_cloud_go.Prelude.{GoString, ◌≡◌, refl, ap, ◌∙◌, Option, none, some, List, [], ◌∷◌}
use prefab_cloud_go.Proto.{Configs}
use prefab_cloud_go.GoValue.{Host}
use prefab_cloud_go.Stores.Api.Watermark.{received}
use prefab_cloud_go.Network.Sse.{
  Decoder, configs_of_event, on_configs, on_event, on_events, sse_connections,
}

abbrev pub with_batch : Option Configs → List Configs → List Configs
with_batch none earlier = earlier
with_batch (some configs) earlier = configs ∷ earlier

-- The batches of configs that the events carry, the latest first, onto earlier ones.
pub carried : Decoder → List GoString → List Configs → List Configs
carried decoder [] earlier = earlier
carried decoder (event ∷ events) earlier =
    carried decoder events (with_batch (configs_of_event decoder event) earlier)

-- The same for connections one after the other.
pub all_carried : Decoder → List (List GoString) → List Configs → List Configs
all_carried decoder [] earlier = earlier
all_carried decoder (events ∷ later) earlier =
    all_carried decoder later (carried decoder events earlier)

on_event-received :
    (host : Host) (earlier : List Configs) (o : Option Configs)
    → on_configs host (received host earlier) o ≡ received host (with_batch o earlier)
unfolding on_configs received
on_event-received host earlier none = refl
on_event-received host earlier (some configs) = refl

on_events-received :
    (host : Host) (decoder : Decoder) (events : List GoString) (earlier : List Configs)
    → on_events host decoder (received host earlier) events
      ≡ received host (carried decoder events earlier)
unfolding on_events carried on_event
on_events-received host decoder [] earlier = refl
on_events-received host decoder (event ∷ events) earlier =
    ap (λ cs. on_events host decoder cs events)
      (on_event-received host earlier (configs_of_event decoder event))
    ∙ on_events-received host decoder events (with_batch (configs_of_event decoder event) earlier)

-- Over any connections and events, an event that is empty or cannot be decoded changes nothing, and the
-- store is the one that has received the batches of the other events in their order.
pub sse_connections-received :
    (host : Host) (decoder : Decoder) (connections : List (List GoString)) (earlier : List Configs)
    → (sse_connections host decoder (received host earlier) connections).1
      ≡ received host (all_carried decoder connections earlier)
unfolding sse_connections all_carried
sse_connections-received host decoder [] earlier = refl
sse_connections-received host decoder (events ∷ later) earlier =
    ap (λ cs. (sse_connections host decoder cs later).1)
      (on_events-received host decoder events earlier)
    ∙ sse_connections-received host decoder later (carried decoder events earlier)
