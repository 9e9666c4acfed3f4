-- ===== src/Options/Settings/Urls.antt =====
-- The URLs of the API and the API key, from the options and the environment.
use prefab_cloud_go.Prelude.{
  Bool-cases, All, GoString, str_eq, str_eq_iff, split, ◌≡◌, refl, ◌≢◌, ◌↔◌, inl, inr, Option, none,
  some, List, [], ◌∷◌, arith,
}
use mathlib.Core.Path.{subst}
use prefab_cloud_go.Errors.{ok}
use prefab_cloud_go.Options.Settings.{
  Options, getenv, url_override, api_url_var, not_blank, urls_of_variable, urls_of_setting,
  api_key_setting_or_env_var, prefab_api_url_env_var_or_setting, api_key_env_var,
}

abbrev pub IsBlank : GoString → Type 0
IsBlank url = url ≡ []

not_blank-All : (urls : List GoString) → All (λ url. url ≢ []) (not_blank urls)
unfolding not_blank
not_blank-All [] = tt
not_blank-All (url ∷ urls) = ground (arith, not_blank-All urls, str_eq_iff url [])

not_blank-nil : (urls : List GoString) → (not_blank urls ≡ []) ↔ All IsBlank urls
unfolding not_blank
not_blank-nil [] = (λ h. tt, λ h. refl)
not_blank-nil (url ∷ urls) = ground (arith, not_blank-nil urls, str_eq_iff url [])

of_variable :
    (urls : List GoString) {made : List GoString}
    → All (λ url. url ≢ []) urls
    → urls_of_variable urls ≡ ok made
    → All (λ url. url ≢ []) made
unfolding urls_of_variable
of_variable [] h k = absurd (cc k)
of_variable (url ∷ urls) {made} h k =
    let same : url ∷ urls ≡ made = cc k in subst (All (λ url. url ≢ [])) same h

of_variable_some : (urls : List GoString) → urls_of_variable urls ≢ ok []
unfolding urls_of_variable
of_variable_some [] = ground arith
of_variable_some (url ∷ urls) = ground arith

of_setting :
    (overriding : GoString) (setting : Option (List GoString))
    → All (λ url. url ≢ []) (urls_of_setting overriding setting)
unfolding urls_of_setting
of_setting overriding none = ground arith
of_setting overriding (some urls) = ground (arith, not_blank-All urls, str_eq_iff overriding [])

-- The API URLs are never blank, whatever the options and the environment hold.
pub prefab_api_url-not_blank :
    (lookup : GoString → Option GoString) (o : Options) {urls : List GoString}
    → prefab_api_url_env_var_or_setting lookup o ≡ ok urls
    → All (λ url. url ≢ []) urls
unfolding prefab_api_url_env_var_or_setting
prefab_api_url-not_blank lookup o {urls} h =
    elim (Bool-cases (str_eq (getenv lookup api_url_var) [])) [
      | inl e ↦
          let same : urls_of_setting (getenv lookup url_override) o.api_urls ≡ urls =
            cc (rw (e) at h) in
          subst (All (λ url. url ≢ [])) same (of_setting (getenv lookup url_override) o.api_urls)
      | inr e ↦
          of_variable (not_blank (split b',' (getenv lookup api_url_var)))
            (not_blank-All (split b',' (getenv lookup api_url_var))) (rw (e) at h)
    ]

-- A key that the options or the environment give is not blank and is kept in the options, which are
-- otherwise the same: the next call gives it again, whatever the environment holds then.
pub api_key-kept :
    (lookup later : GoString → Option GoString) (o : Options) {key : GoString}
    → (api_key_setting_or_env_var lookup o).1 ≡ ok key
    → (key ≢ [])
      × ((api_key_setting_or_env_var lookup o).0 ≡ record o { api_key = key })
      × (api_key_setting_or_env_var later (api_key_setting_or_env_var lookup o).0
          ≡ (record o { api_key = key }, ok key))
unfolding api_key_setting_or_env_var
api_key-kept lookup later o {key} h = ground (
  arith,
  str_eq_iff o.api_key [],
  str_eq_iff key [],
  str_eq_iff (getenv lookup api_key_env_var) [],
)

-- Options that name API URLs give none exactly where both variables of the environment that could name
-- one are empty and every URL that is named is blank.
pub no_urls_iff :
    (lookup : GoString → Option GoString) (o : Options) (urls : List GoString)
    → o.api_urls ≡ some urls
    → (prefab_api_url_env_var_or_setting lookup o ≡ ok [])
      ↔ ((getenv lookup api_url_var ≡ []) × (getenv lookup url_override ≡ []) × All IsBlank urls)
unfolding prefab_api_url_env_var_or_setting urls_of_setting
no_urls_iff lookup o urls h = ground (
  arith,
  h,
  str_eq_iff (getenv lookup api_url_var) [],
  str_eq_iff (getenv lookup url_override) [],
  not_blank-nil urls,
  of_variable_some (not_blank (split b',' (getenv lookup api_url_var))),
)

pub no_variable-ok :
    (lookup : GoString → Option GoString) (o : Options)
    → getenv lookup api_url_var ≡ []
    → prefab_api_url_env_var_or_setting lookup o
      ≡ ok (urls_of_setting (getenv lookup url_override) o.api_urls)
unfolding prefab_api_url_env_var_or_setting
no_variable-ok lookup o h = ground (arith, str_eq_iff (getenv lookup api_url_var) [])
