-- ===== src/Client/Startup/Offline.antt =====
-- A client without the API.
use prefab_cloud_go.Prelude.{
  suc, Bool-cases, length, any_of, GoString, str_eq, Outcome, ret, ◌>>=◌, >>=-eq-ret, ◌≡◌, refl,
  sym, ap, ◌∙◌, inl, inr, Bool, true, false, not, ◌||◌, List, [], ◌∷◌, arith,
}
use prefab_cloud_go.Errors.{Result, ok, err, unless_error, unless_error-eq-ok}
use prefab_cloud_go.GoValue.{Host}
use prefab_cloud_go.Options.Sources.{ConfigSource, api_store}
use prefab_cloud_go.Options.Settings.{Options, default_options}
use prefab_cloud_go.Options.Helpers.{ClientOption, apply_options}
use prefab_cloud_go.Stores.Build.{
  World, ConfigStore, build_config_store, of_api, api_config_store_for, foreground_store,
}
use prefab_cloud_go.Stores.Api.{ApiConfigStore}
use prefab_cloud_go.Client.Startup.{
  build_stores, has_other_sources, NewClient, checked_client, with_stores, with_options, new_client,
}

in_foreground :
    (m : Outcome (Result ConfigStore)) {built : ConfigStore × Bool}
    → unless_error m (λ store. ret (ok (store, false))) ≡ ret (ok built)
    → built.1 ≡ false
in_foreground m {built} h =
    let (store, _, last) = unless_error-eq-ok m _ h in
    let same : (store, false) ≡ built = cc last in sym (ap (λ b. b.1) same)

in_background :
    (m : Outcome ApiConfigStore) {built : ConfigStore × Bool}
    → (m >>= λ store. ret (ok (of_api store, true))) ≡ ret (ok built)
    → built.1 ≡ true
in_background m {built} h =
    let (store, _, last) = >>=-eq-ret m _ h in
    let same : (of_api store, true) ≡ built = cc last in sym (ap (λ b. b.1) same)

abbrev pub is_api : ConfigSource → Bool
is_api source = str_eq source.store api_store

build_config_store-is_api :
    (host : Host) (world : World) (o : Options) (source : ConfigSource) {built : ConfigStore × Bool}
    → build_config_store host world o source ≡ ret (ok built)
    → built.1 ≡ is_api source
unfolding build_config_store
build_config_store-is_api host world o source h =
    elim (Bool-cases (str_eq source.store api_store)) [
      | inl y ↦ in_background (api_config_store_for world o) (rw (y) at h) ∙ sym y
      | inr n ↦ in_foreground (foreground_store host world o source) (rw (n) at h) ∙ sym n
    ]

pub build_stores-any_of :
    (host : Host) (world : World) (o : Options) (sources : List ConfigSource)
    {built : List ConfigStore × Bool}
    → build_stores host world o sources ≡ ret (ok built)
    → (built.1 ≡ any_of is_api sources) × (length built.0 ≡ length sources)
unfolding build_stores any_of
build_stores-any_of host world o [] {built} h =
    let same : ([], false) ≡ built = cc h in
    (sym (ap (λ b. b.1) same), sym (ap (λ b. length b.0) same))
build_stores-any_of host world o (source ∷ sources) {built} h =
    let (first, e, rest) = unless_error-eq-ok (build_config_store host world o source) _ h in
    let (others, e', last) = unless_error-eq-ok (build_stores host world o sources) _ rest in
    let same : (first.0 ∷ others.0, first.1 || others.1) ≡ built = cc last in
    let first_api = build_config_store-is_api host world o source e in
    let ih = build_stores-any_of host world o sources e' in
    (
      sym (ap (λ b. b.1) same) ∙ ground (arith, first_api, ih.0),
      sym (ap (λ b. length b.0) same) ∙ ap suc ih.1,
    )

checked_client-ok :
    (o : Options) (built : List ConfigStore × Bool) (mixed : Bool) {client : NewClient}
    → checked_client o built mixed ≡ ret (ok client)
    → (mixed ≡ false)
      × (client.options ≡ o)
      × (client.config_stores ≡ built.0)
      × (client.initialized ≡ not built.1)
unfolding checked_client
checked_client-ok o built true h = absurd (cc h)
checked_client-ok o (stores, any_async) false {client} h =
    let made : NewClient = record {
      options = o;
      config_stores = stores;
      initialized = not any_async;
    } in
    let same : made ≡ client = cc h in
    (
      refl,
      sym (ap (λ c. c.options) same),
      sym (ap (λ c. c.config_stores) same),
      sym (ap (λ c. c.initialized) same),
    )

-- A client that is made has these options, and stores that were built of their sources.
pub with_options-ok :
    (host : Host) (world : World) (r : Result Options) {client : NewClient}
    → with_options host world r ≡ ret (ok client)
    → (r ≡ ok client.options)
      × (has_other_sources client.options.sources client.options.configs ≡ ret false)
      × ((any_async : Bool) × (build_stores host world client.options client.options.sources
            ≡ ret (ok (client.config_stores, any_async)))
          × (client.initialized ≡ not any_async))
unfolding with_options with_stores
with_options-ok host world (err e) h = absurd (cc h)
with_options-ok host world (ok o) {client} h =
    let (built, e, rest) = unless_error-eq-ok (build_stores host world o o.sources) _ h in
    let (mixed, e', last) = >>=-eq-ret (has_other_sources o.sources o.configs) _ rest in
    let (unmixed, same, stores, state) = checked_client-ok o built mixed last in
    (
      ap ok (sym same),
      ap (λ x. has_other_sources x.sources x.configs) same ∙ e' ∙ ap ret unmixed,
      (
        built.1,
        ap (λ x. build_stores host world x x.sources) same
            ∙ e
            ∙ ap (λ s. ret (ok (s, built.1))) (sym stores),
        state,
      ),
    )

-- A client that is made has the options that its arguments come to and one store for each source, and it is
-- initialized at once exactly if none of the sources is the API.
pub new_client-initialized :
    (host : Host) (world : World) (uuid : GoString) (opts : List ClientOption) {client : NewClient}
    → new_client host world uuid opts ≡ ret (ok client)
    → (apply_options opts (default_options host world.lookup_env uuid) ≡ ok client.options)
      × (length client.config_stores ≡ length client.options.sources)
      × (client.initialized ≡ not (any_of is_api client.options.sources))
unfolding new_client
new_client-initialized host world uuid opts {client} h =
    let (applied, _, (any_async, e, state)) = with_options-ok host world _ h in
    let built = build_stores-any_of host world client.options client.options.sources e in
    (applied, built.1, state ∙ ap not built.0)
