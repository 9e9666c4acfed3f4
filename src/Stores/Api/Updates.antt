-- ===== src/Stores/Api/Updates.antt =====
-- What an update does to the config of a key, and how updates in sequence combine.
use prefab_cloud_go.Prelude.{
  if◌then◌else◌, ◌<ℤ◌, ltb_ℤ, eq_ℤ_iff, GoString, str_eq, str_eq_iff, str_eq_refl, ◌≡◌, ◌≢◌, true,
  false, Option, none, some, arith,
}
use prefab_cloud_go.Prelude.Dict.{get-put, get-remove}
use prefab_cloud_go.Proto.{Config}
use prefab_cloud_go.Stores.Api.{ApiConfigStore, is_empty, set_config, get_config}

-- The config of the updated key afterwards: a key that is not there takes the config, even an empty
-- one; otherwise a newer config replaces the old one, or removes it if it is empty.
abbrev pub after : Option Config → Config → Option Config
after none new = some new
after (some current) new =
    if ltb_ℤ current.id new.id then (if is_empty new.rows then none else some new) else some current

-- An update changes the config of its own key alone: where there is none it is stored, even if it is
-- empty; one with a greater id replaces the config that is there, or removes it if it is empty; and one
-- with an id that is not greater changes nothing.
pub get_config-set_config :
    (cs : ApiConfigStore) (new : Config) (key : GoString)
    → get_config (set_config cs new) key
      ≡ (if str_eq new.key key then after (get_config cs new.key) new else get_config cs key)
unfolding get_config set_config
get_config-set_config cs new key = ground (
  arith,
  get-put new.key key new cs.config_map,
  get-remove new.key key cs.config_map,
  str_eq_iff new.key key,
)

after_comm :
    (o : Option Config) (a b : Config)
    → is_empty a.rows ≡ false
    → is_empty b.rows ≡ false
    → a.id ≢ b.id
    → after (after o a) b ≡ after (after o b) a
after_comm o a b ha hb ne = ground (arith, eq_ℤ_iff a.id b.id)

-- Two updates with rows and different ids can come in either order.
pub set_config_comm :
    (cs : ApiConfigStore) (a b : Config) (key : GoString)
    → is_empty a.rows ≡ false
    → is_empty b.rows ≡ false
    → a.id ≢ b.id
    → get_config (set_config (set_config cs a) b) key
      ≡ get_config (set_config (set_config cs b) a) key
set_config_comm cs a b key ha hb ne = ground (
  arith,
  get_config-set_config (set_config cs a) b key,
  get_config-set_config (set_config cs b) a key,
  get_config-set_config cs a key,
  get_config-set_config cs b key,
  get_config-set_config cs a b.key,
  get_config-set_config cs b a.key,
  str_eq_iff a.key key,
  str_eq_iff b.key key,
  str_eq_iff a.key b.key,
  str_eq_iff b.key a.key,
  after_comm (get_config cs a.key) a b,
)

-- A deletion that is delivered twice: the first removes the key, the second stores the empty config
-- under it.
pub deletion_twice :
    (cs : ApiConfigStore) (current new : Config)
    → get_config cs new.key ≡ some current
    → current.id <ℤ new.id
    → is_empty new.rows ≡ true
    → (get_config (set_config cs new) new.key ≡ none)
      × (get_config (set_config (set_config cs new) new) new.key ≡ some new)
deletion_twice cs current new h lt e = ground (
  arith,
  get_config-set_config cs new new.key,
  get_config-set_config (set_config cs new) new new.key,
  str_eq_refl new.key,
)
