-- ===== src/Errors.antt =====
-- The errors that the client returns, and a result that is a value or an error.
use prefab_cloud_go.Prelude.{
  GoString, Outcome, ret, panics, unfinished, ◌≡◌, refl, ◌↔◌, ◌⊎◌, inl, inr,
}

pub data Error : Type 0 where
  config_does_not_exist env_var_not_exist type_coercion_failed : Error
  secret_key_not_string secret_key_lookup_failed no_match_in_config_value : Error
  no_config_value_exists invalid_hex invalid_value_format cipher_error : Error
  initialization_timeout no_result : Error
  api_key_not_set api_urls_blank no_api_urls all_uris_failed : Error
  unknown_extension file_not_read not_parsed value_key_missing project_env_id_missing : Error
  unknown_store configs_with_other_sources no_aggregators submission_failed : Error
  not_created protocol_missing unknown_protocol : GoString → Error

pub data Result {ℓ} (A : Type ℓ) : Type ℓ where
  ok : A → Result A
  err : Error → Result A

-- `x, err := …; if err != nil { return err }`, for a call that can panic too.
abbrev pub unless_error {ℓ κ} :
    {A : Type ℓ} {B : Type κ} → Outcome (Result A) → (A → Outcome (Result B)) → Outcome (Result B)
unless_error (ret (ok a)) f = f a
unless_error (ret (err e)) f = ret (err e)
unless_error panics f = panics
unless_error unfinished f = unfinished

-- Inversion of such a sequence that returned a value.
pub unless_error-eq-ok {ℓ κ} :
    {A : Type ℓ} {B : Type κ} (m : Outcome (Result A)) (f : A → Outcome (Result B)) {b : B}
    → unless_error m f ≡ ret (ok b)
    → (a : A) × (m ≡ ret (ok a)) × (f a ≡ ret (ok b))
unless_error-eq-ok (ret (ok a)) f h = (a, refl, h)
unless_error-eq-ok (ret (err e)) f h = absurd (cc h)
unless_error-eq-ok panics f h = absurd (cc h)
unless_error-eq-ok unfinished f h = absurd (cc h)

pub unless_error-eq-panics {ℓ κ} :
    {A : Type ℓ} {B : Type κ} (m : Outcome (Result A)) (f : A → Outcome (Result B))
    → (unless_error m f ≡ panics) ↔ ((m ≡ panics) ⊎ ((a : A) × (m ≡ ret (ok a)) × (f a ≡ panics)))
unless_error-eq-panics (ret (ok a)) f =
    (λ h. inr (a, refl, h), λ h. elim h [ inl e ↦ absurd (cc e) | inr (a', e, h') ↦ cc (e, h') ])
unless_error-eq-panics (ret (err x)) f =
    (λ h. absurd (cc h), λ h. elim h [ inl e ↦ absurd (cc e) | inr (a', e, h') ↦ absurd (cc e) ])
unless_error-eq-panics panics f = (λ h. inl refl, λ h. refl)
unless_error-eq-panics unfinished f =
    (λ h. absurd (cc h), λ h. elim h [ inl e ↦ absurd (cc e) | inr (a', e, h') ↦ absurd (cc e) ])
