-- ===== src/Network/Source/Ending.antt =====
-- What the source comes to, whatever the network does.
use prefab_cloud_go.Prelude.{
  ℕ, zero, suc, ◌<◌, ◌==◌, ==_iff, Bool-cases, pos, GoString, ◌≡◌, refl, ap, ◌∙◌, ◌⊎◌, inl, inr,
  Option, none, some, List, [], ◌∷◌, arith,
}
use prefab_cloud_go.Proto.{Configs}
use prefab_cloud_go.GoValue.{Host}
use prefab_cloud_go.Stores.Api.{new_api_config_store, Fetched, fetch_from_server}
use prefab_cloud_go.Stores.Api.Fetch.{fetch_from_server-loaded, fetch_from_server-gave_up}
use prefab_cloud_go.Stores.Api.Watermark.{received}
use prefab_cloud_go.Network.Http.{HttpClient, Server}
use prefab_cloud_go.Network.Sse.{Decoder, sse_connections}
use prefab_cloud_go.Network.Sse.Watching.{all_carried, sse_connections-received}
use prefab_cloud_go.Network.Source.{answer_at, run_api_source}

-- The first n attempts fail.
abbrev pub NoneBelow : (ℕ → Option Configs) → ℕ → Type 0
NoneBelow load zero = Unit
NoneBelow load (suc n) = NoneBelow load n × (load n ≡ none)

NoneBelow-at : (load : ℕ → Option Configs) (n j : ℕ) → NoneBelow load n → j < n → load j ≡ none
NoneBelow-at load zero j h l = absurd (omega (arith, l))
NoneBelow-at load (suc n) j h l = elim (Bool-cases (j == n)) [
  | inl y ↦ ap load ((==_iff j n).0 y) ∙ h.1
  | inr m ↦ NoneBelow-at load n j h.0 (ground (arith, ==_iff j n))
]

-- The first of the attempts to be answered, if one of the first n is.
abbrev pub FirstOf : (ℕ → Option Configs) → ℕ → Type 0
FirstOf load n =
    NoneBelow load n
    ⊎ ((k : ℕ) × (k < n) × NoneBelow load k × ((configs : Configs) × (load k ≡ some configs)))

FirstOf-next :
    (load : ℕ → Option Configs) (n : ℕ) (o : Option Configs)
    → NoneBelow load n
    → load n ≡ o
    → FirstOf load (suc n)
FirstOf-next load n none h e = inl (h, e)
FirstOf-next load n (some configs) h e = inr (n, omega arith, h, (configs, e))

FirstOf-all : (load : ℕ → Option Configs) (n : ℕ) → FirstOf load n
FirstOf-all load zero = inl tt
FirstOf-all load (suc n) = elim (FirstOf-all load n) [
  | inl h ↦ FirstOf-next load n (load n) h refl
  | inr (k, l, h, rest) ↦ inr (k, omega (arith, l), h, rest)
]

-- The batches that the fetch gave the store, and how it ended: with the first answer of at most eleven attempts,
-- after which `finishedLoading` was called once, or with none, after which it was not called.
abbrev pub IsFetched : (ℕ → Option Configs) → Fetched → List Configs → Type 0
IsFetched load fetched batches =
    (NoneBelow load 11 × (batches ≡ []) × (fetched.finished_calls ≡ 0))
    ⊎ ((k : ℕ) × (k < 11)
        × NoneBelow load k
        × ((configs : Configs) × (load k ≡ some configs)
            × (batches ≡ configs ∷ [])
            × (fetched.finished_calls ≡ 1)))

IsFetched-store :
    (host : Host) (load : ℕ → Option Configs)
    → (batches : List Configs) × ((fetch_from_server host load new_api_config_store).store
        ≡ received host batches)
      × IsFetched load (fetch_from_server host load new_api_config_store) batches
unfolding received
IsFetched-store host load = elim (FirstOf-all load 11) [
  | inl h ↦
      let same =
        fetch_from_server-gave_up host load new_api_config_store
          (λ j l. NoneBelow-at load 11 j h (omega (arith, l))) in
      (
        [],
        ap (λ (f : Fetched). f.store) same,
        inl (h, refl, ap (λ (f : Fetched). f.finished_calls) same),
      )
  | inr (k, l, h, (configs, e)) ↦
      let same =
        (fetch_from_server-loaded host load new_api_config_store k (omega (arith, l))
          (λ j m. NoneBelow-at load k j h m) e).0 in
      (
        configs ∷ [],
        ap (λ (f : Fetched). f.store) same,
        inr (k, l, h, (configs, e, refl, ap (λ (f : Fetched). f.finished_calls) same)),
      )
]

-- Whatever the servers answer and the stream carries, the source comes to an end of its fetch: with the first
-- answer of at most eleven attempts, whose configs finish the loading once, or without one; and the store
-- behind the connections has received these configs, if any, and then the batches that the
-- stream carried, in their order.
pub run_api_source-received :
    (host : Host) (lookup : GoString → Option GoString) (servers : ℕ → Server) (c : HttpClient)
    (decoder : Decoder) (connections : List (List GoString))
    → (batches : List Configs) × IsFetched
        (answer_at lookup servers (pos 0) c)
        (run_api_source host lookup servers c decoder connections).0
        batches
      × ((run_api_source host lookup servers c decoder connections).1.1
          ≡ received host (all_carried decoder connections batches))
unfolding run_api_source
run_api_source-received host lookup servers c decoder connections =
    let (batches, store, how) = IsFetched-store host (answer_at lookup servers (pos 0) c) in
    (
      batches,
      how,
      ap (λ cs. (sse_connections host decoder cs connections).1) store
          ∙ sse_connections-received host decoder connections batches,
    )
